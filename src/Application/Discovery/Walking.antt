-- ===== src/Application/Discovery/Walking.antt =====
-- tunnel_sync/application/discovery.py: the loop keeps the hostnames it has seen and their services in step.
use cf_docker_tunnel_sync.Base.{
  String, Bool, true, false, not, ◌||◌, Option, none, some, List, [], ◌∷◌, ◌++◌, ◌≡◌, refl, sym,
  ◌∙◌, subst, inl, inr, ◌==◌, Bool-cases, arith,
}
use cf_docker_tunnel_sync.Base.Lists.{contains}
use cf_docker_tunnel_sync.Domain.Labels.{ParsedOrigin}
use cf_docker_tunnel_sync.Application.Discovery.{
  Settings, Tools, legacy_labels, Progress, hostname_of, is_selected, enforce_strict_network,
  plausibility_of, service_item, origin_of,
}
use cf_docker_tunnel_sync.Application.Discovery.Connectors.{
  Container, Item, container, malformed, containers_of,
}
use cf_docker_tunnel_sync.Application.Discovery.Loop.{
  tell, note_invalid, with_entry, kept_item, admit, consider, visit, Visited, visited, refused,
  admit_parsed, go_on, Walked, walked, raised, walk,
}
use cf_docker_tunnel_sync.Application.Discovery.Seen.{
  Sound, tell-services, note_invalid-services, hostname_of-IsHostname, or_false, Sound-skip,
  serves-selected, Sound-seen, Sound-item,
}
use mathlib.Core.List.{append-nil, append_assoc}

strict_of_test : (a strict : Bool) → (a || not strict) ≡ false → strict ≡ true
strict_of_test a strict e = ground arith

seen_again :
    (xs : List String) (h k : String)
    → contains xs k ≡ true
    → (contains xs h || h == k) ≡ contains xs h
seen_again xs h k e = ground arith

-- What holds after the containers `cs` were looked at, if nothing was raised.
abbrev Looked : Settings → List Container → Visited → Type 0
Looked settings cs (visited v) = Sound settings cs v.progress.services v.progress.seen
Looked settings cs (refused p) = Unit

abbrev pub AtEnd : Settings → List Container → Walked → Type 0
AtEnd settings cs (walked p) = Sound settings cs p.services p.seen
AtEnd settings cs (raised failure p) = Unit

with_entry-Sound :
    (settings : Settings) (c : Container) (cs : List Container) (v : Visited)
    → Looked settings cs v
    → AtEnd settings cs (with_entry c v)
unfolding with_entry
with_entry-Sound settings c cs (visited v) h = h
with_entry-Sound settings c cs (refused p) h = tt

module _ (settings : Settings) (cs : List Container) (c : Container) where
  module _ (tools : Tools) (networks : List String) where
    admit-Sound :
        (origin : ParsedOrigin) (k : String) (p : Progress)
        → hostname_of c ≡ some k
        → is_selected settings c k ≡ true
        → contains p.seen k ≡ false
        → Sound settings cs p.services p.seen
        → let q = (admit tools settings networks origin c k p).progress in
          Sound settings (cs ++ c ∷ []) q.services q.seen
    unfolding admit kept_item service_item
    admit-Sound origin k p e t fresh s =
        let same = serves-selected settings cs c k e t in
        elim (Bool-cases (
          (plausibility_of tools settings networks origin c).is_plausible
          || not (enforce_strict_network settings))) [
            | inl h ↦ rw h (
                Sound-item settings cs c k same p.services p.seen s
                  (service_item tools settings networks origin c k) refl
                  (hostname_of-IsHostname c k e) fresh)
            | inr h ↦
                rw (h, append-nil p.services)
                  (Sound-seen settings cs c k same p.services p.seen s
                    (strict_of_test _ (enforce_strict_network settings) h))
          ]

    admit_parsed-Sound :
        (k : String) (p : Progress) (o : Option ParsedOrigin)
        → hostname_of c ≡ some k
        → is_selected settings c k ≡ true
        → contains p.seen k ≡ false
        → Sound settings cs p.services p.seen
        → Looked settings (cs ++ c ∷ []) (admit_parsed tools settings networks c k p o)
    unfolding admit_parsed
    admit_parsed-Sound k p none e t fresh s = tt
    admit_parsed-Sound k p (some origin) e t fresh s = admit-Sound origin k p e t fresh s

    consider-Sound :
        (o : Option String) (p : Progress)
        → hostname_of c ≡ o
        → Sound settings cs p.services p.seen
        → Looked settings (cs ++ c ∷ []) (consider tools settings networks c o p)
    unfolding consider
    consider-Sound none p e s =
        Sound-skip settings cs c p.services p.seen s (λ h. rw e (or_false _))
    consider-Sound (some k) p e s = elim (Bool-cases (is_selected settings c k)) [
      | inl t ↦ elim (Bool-cases (contains p.seen k)) [
        | inl d ↦
            rw (t, d)
              (Sound-skip settings cs c p.services p.seen s
                (λ h. rw (e, t, sym (s.served h)) (seen_again p.seen h k d)))
        | inr d ↦ rw (t, d) (admit_parsed-Sound k p (origin_of tools settings networks c) e t d s)
      ]
      | inr t ↦ rw t (Sound-skip settings cs c p.services p.seen s (λ h. rw (e, t) (or_false _)))
    ]

    visit-Sound :
        (p : Progress)
        → Sound settings cs p.services p.seen
        → AtEnd settings (cs ++ c ∷ []) (visit tools settings networks c p)
    unfolding visit
    visit-Sound p s =
        let q = tell legacy_labels c p in
        let told = tell-services legacy_labels c p in
        let noted = note_invalid-services c q in
        with_entry-Sound settings c (cs ++ c ∷ []) _ (
          consider-Sound (hostname_of c) (note_invalid c q) refl
            (rw (noted.0 ∙ told.0, noted.1 ∙ told.1) s))

module _ (tools : Tools) (settings : Settings) (networks : List String) where
  go_on-Sound :
      (c : Container) (items : List Item) (cs : List Container) (w : Walked)
      → AtEnd settings (cs ++ c ∷ []) w
      → ((p : Progress)
          → Sound settings (cs ++ c ∷ []) p.services p.seen
          → AtEnd settings
              ((cs ++ c ∷ []) ++ containers_of items)
              (walk tools settings networks items p))
      → AtEnd settings
          (cs ++ (c ∷ containers_of items))
          (go_on (walk tools settings networks items) w)
  unfolding go_on
  go_on-Sound c items cs (walked q) h rest =
      subst (λ ds. AtEnd settings ds (walk tools settings networks items q))
        (append_assoc cs (c ∷ []) (containers_of items)) (rest q h)
  go_on-Sound c items cs (raised failure q) h rest = tt

  pub walk-Sound :
      (items : List Item) (cs : List Container) (p : Progress)
      → Sound settings cs p.services p.seen
      → AtEnd settings (cs ++ containers_of items) (walk tools settings networks items p)
  unfolding walk
  walk-Sound [] cs p s = rw (append-nil cs) s
  walk-Sound (malformed ∷ items) cs p s = tt
  walk-Sound (container c ∷ items) cs p s =
      go_on-Sound c items cs (visit tools settings networks c p)
        (visit-Sound settings cs c tools networks p s) (walk-Sound items (cs ++ c ∷ []))

-- ===== src/Application/Discovery/Seen.antt =====
-- tunnel_sync/application/discovery.py: what the loop keeps of the hostnames it has seen.
use cf_docker_tunnel_sync.Base.{
  String, Bool, true, false, ◌&&◌, ◌||◌, Option, none, some, List, [], ◌∷◌, ◌++◌, map, ◌≡◌, refl,
  sym, ap, ◌∙◌, inl, inr, ◌⊎◌, ◌==◌, if◌then◌else◌, Bool-cases, arith,
}
use cf_docker_tunnel_sync.Base.Lists.{
  contains, any, any-append, All, All-append, Once, Once-append, contains-append,
}
use cf_docker_tunnel_sync.Base.Dict.{Dict}
use cf_docker_tunnel_sync.Domain.Labels.{truthy}
use cf_docker_tunnel_sync.Domain.Hostnames.{normalize_hostname}
use cf_docker_tunnel_sync.Domain.Hostnames.Validity.{IsHostname, normalize_hostname-IsHostname}
use cf_docker_tunnel_sync.Application.Discovery.{
  Settings, ServiceItem, Progress, raw_hostname, hostname_of, is_selected, enforce_strict_network,
}
use cf_docker_tunnel_sync.Application.Discovery.Connectors.{Container}
use cf_docker_tunnel_sync.Application.Discovery.Loop.{tell, tell_label, note_invalid}

abbrev pub hosts : List ServiceItem → List String
hosts = map (λ s. s.hostname)

abbrev is_host : Settings → Container → Option String → String → Bool
is_host settings c none h = false
is_host settings c (some k) h = is_selected settings c k && h == k

-- The container is selected, and `h` is its normalized hostname.
abbrev pub serves : Settings → String → Container → Bool
serves settings h c = is_host settings c (hostname_of c) h

-- What holds of the services and the hostnames that were seen, after the containers `cs`.
pub record Sound (settings : Settings) (cs : List Container) (services : List ServiceItem)
    (seen : List String) : Type 0 where
  pub once : Once (hosts services)
  pub valid : All (λ s. IsHostname s.hostname) services
  pub within : (h : String) → contains (hosts services) h ≡ true → contains seen h ≡ true
  pub served : (h : String) → contains seen h ≡ any (serves settings h) cs
  pub complete :
      (h : String)
      → (contains (hosts services) h || enforce_strict_network settings)
        ≡ (contains seen h || enforce_strict_network settings)

tell_label-services :
    (k v : String) (c : Container) (p : Progress)
    → ((tell_label k v c p).services ≡ p.services) × ((tell_label k v c p).seen ≡ p.seen)
unfolding tell_label
tell_label-services k v c p = (ground arith, ground arith)

pub tell-services :
    (d : Dict String) (c : Container) (p : Progress)
    → ((tell d c p).services ≡ p.services) × ((tell d c p).seen ≡ p.seen)
unfolding tell
tell-services [] c p = (refl, refl)
tell-services ((k, v) ∷ d) c p =
    let rest = tell-services d c (tell_label k v c p) in
    let one = tell_label-services k v c p in (rest.0 ∙ one.0, rest.1 ∙ one.1)

pub note_invalid-services :
    (c : Container) (p : Progress)
    → ((note_invalid c p).services ≡ p.services) × ((note_invalid c p).seen ≡ p.seen)
unfolding note_invalid
note_invalid-services c p = (ground arith, ground arith)

pub hostname_of-IsHostname : (c : Container) (k : String) → hostname_of c ≡ some k → IsHostname k
unfolding hostname_of
hostname_of-IsHostname c k e = go (raw_hostname c) e
  where
    go :
        (o : Option String)
        → (if truthy o then normalize_hostname o else none) ≡ some k
        → IsHostname k
    go none e = absurd (cc e)
    go (some h) e = elim (Bool-cases (truthy (some h))) [
      | inl t ↦ normalize_hostname-IsHostname h k (simp t at e)
      | inr t ↦ absurd (cc (simp t at e))
    ]

pub or_false : (b : Bool) → (b || false) ≡ b
or_false b = ground arith

both_true : (a b : Bool) → (a || true) ≡ (b || true)
both_true a b = ground arith

or_complete :
    (a b x t : Bool) → (a || t) ≡ (b || t) → ((a || (x || false)) || t) ≡ ((b || (x || false)) || t)
or_complete a b x t h = ground arith

or_within :
    (a b x : Bool) → (a ≡ true → b ≡ true) → (a || (x || false)) ≡ true → (b || (x || false)) ≡ true
or_within true b x f h = rw (f refl) refl
or_within false b true f h = ground arith
or_within false b false f h = absurd (cc h)

hosts-append :
    (services : List ServiceItem) (item : ServiceItem)
    → hosts (services ++ item ∷ []) ≡ hosts services ++ item.hostname ∷ []
hosts-append [] item = refl
hosts-append (s ∷ services) item = ap (λ hs. s.hostname ∷ hs) (hosts-append services item)

module _ (settings : Settings) (cs : List Container) (c : Container) where
  -- Nothing is added for a container that serves no new hostname.
  pub Sound-skip :
      (services : List ServiceItem) (seen : List String)
      → Sound settings cs services seen
      → ((h : String)
          → (any (serves settings h) cs || serves settings h c) ≡ any (serves settings h) cs)
      → Sound settings (cs ++ c ∷ []) services seen
  Sound-skip services seen s absorbed = record {
    once = s.once;
    valid = s.valid;
    within = s.within;
    complete = s.complete;
    served = λ h. s.served h ∙ sym (any-append (serves settings h) cs (c ∷ []) ∙ last h);
  }
    where
      last :
          (h : String)
          → (any (serves settings h) cs || (serves settings h c || false))
            ≡ any (serves settings h) cs
      last h = ground (arith, absorbed h)

  module _ (k : String) (same : (h : String) → serves settings h c ≡ (h == k))
      (services : List ServiceItem) (seen : List String) (s : Sound settings cs services seen) where
    seen-served :
        (h : String) → contains (seen ++ k ∷ []) h ≡ any (serves settings h) (cs ++ c ∷ [])
    seen-served h =
        contains-append seen (k ∷ []) h
        ∙ rw (any-append (serves settings h) cs (c ∷ []), same h, s.served h) refl

    -- A hostname that is seen without a service.
    pub Sound-seen :
        enforce_strict_network settings ≡ true
        → Sound settings (cs ++ c ∷ []) services (seen ++ k ∷ [])
    Sound-seen strict = record {
      complete =
          λ h. rw strict (both_true (contains (hosts services) h) (contains (seen ++ k ∷ []) h));
      once = s.once;
      valid = s.valid;
      within = λ h e. rw (contains-append seen (k ∷ []) h, s.within h e) refl;
      served = seen-served;
    }

    -- The service of a hostname that is seen for the first time.
    pub Sound-item :
        (item : ServiceItem)
        → item.hostname ≡ k
        → IsHostname k
        → contains seen k ≡ false
        → Sound settings (cs ++ c ∷ []) (services ++ item ∷ []) (seen ++ k ∷ [])
    Sound-item item name valid fresh = record {
      once =
          rw (hosts-append services item, name)
            (Once-append (hosts services) k s.once
              (unlisted (Bool-cases (contains (hosts services) k))));
      valid =
          All-append (λ s. IsHostname s.hostname) services (item ∷ []) s.valid (rw name valid, tt);
      within = λ h e. rw (contains-append seen (k ∷ []) h) (
          or_within (contains (hosts services) h) (contains seen h) (h == k) (s.within h) (
            sym (
              ap (λ hs. contains hs h) (hosts-append services item)
              ∙ rw name (contains-append (hosts services) (k ∷ []) h))
            ∙ e));
      served = seen-served;
      complete = λ h.
          ap (λ hs. contains hs h || enforce_strict_network settings) (hosts-append services item)
          ∙ rw (name, contains-append (hosts services) (k ∷ []) h, contains-append seen (k ∷ []) h)
              (or_complete (contains (hosts services) h) (contains seen h) (h == k)
                (enforce_strict_network settings) (s.complete h));
    }
      where
        unlisted :
            (contains (hosts services) k ≡ true) ⊎ (contains (hosts services) k ≡ false)
            → contains (hosts services) k ≡ false
        unlisted (inl e) = absurd (cc (s.within k e, fresh))
        unlisted (inr e) = e

  pub serves-selected :
      (k : String)
      → hostname_of c ≡ some k
      → is_selected settings c k ≡ true
      → (h : String) → serves settings h c ≡ (h == k)
  serves-selected k e t h = rw (e, t) refl

-- ===== src/Domain/Ingress/Serving.antt =====
-- Which root route of a hostname, or rule without hostname, comes first after `merge_ingress`. Rules
-- with a path and rules of wildcard hostnames are not regarded.
use cf_docker_tunnel_sync.Base.{
  String, true, false, ◌||◌, ◌≡◌, ◌≢◌, refl, Option, none, some, List, [], ◌∷◌, ◌++◌, ◌==◌,
  if◌then◌else◌, string_dec, arith, sym, ap, ◌∙◌, Bool-cases, inl, inr, ne_of_test,
}
use mathlib.Core.List.{append_assoc, append-nil}
use cf_docker_tunnel_sync.Base.Lists.{contains, All, any}
use cf_docker_tunnel_sync.Base.Dict.{Dict, lookup, erase, keys, contains-keys, lookup-erase}
use cf_docker_tunnel_sync.Base.Sort.{sorted, contains-sorted}
use cf_docker_tunnel_sync.Domain.Models.{Rule}
use cf_docker_tunnel_sync.Domain.Ingress.{
  hostname_of, is_fallback, has_path, by_hostname, replacement, in_order, some_rule, flush,
  replaced, merge_loop, not_found_rule, with_fallback, merge_ingress,
}
use cf_docker_tunnel_sync.Domain.Ingress.Roots.{
  IsRoot, IsPending, IsPending-erase, IsPending-nil, by_hostname-IsPending, hostname_of-replacement,
  has_path-replacement, service-replacement, request-replacement,
}

-- The first rule that is without hostname, or is a root route of `host`.
pub serving : String → List Rule → Option Rule
serving host [] = none
serving host (r ∷ rules) =
    let rest = serving host rules in
    if is_fallback r
    then some r
    else if hostname_of r == host
    then (if has_path r then rest else some r)
    else rest

-- That first rule is a root route of `host` with the service and the origin settings of `d`.
pub record Serves (host : String) (d : Rule) (rules : List Rule) : Type 0 where
  pub rule : Rule
  pub found : serving host rules ≡ some rule
  pub named : hostname_of rule ≡ host
  pub service : lookup "service" rule ≡ lookup "service" d
  pub request : lookup "originRequest" rule ≡ lookup "originRequest" d

serving-append :
    (host : String) (xs ys : List Rule) (r : Rule)
    → serving host xs ≡ some r
    → serving host (xs ++ ys) ≡ some r
unfolding serving
serving-append host [] ys r h = cc
serving-append host (x ∷ xs) ys r h = ground (arith, serving-append host xs ys r)

-- Rules that are not regarded for `host`.
abbrev Passes : String → Rule → Type 0
Passes host r = (hostname_of r ≢ "") × ((hostname_of r ≡ host) → has_path r ≡ true)

serving-skip :
    (host : String) (r : Rule) (rules : List Rule)
    → Passes host r
    → serving host (r ∷ rules) ≡ serving host rules
unfolding serving
serving-skip host r rules p = ground arith

serving-here :
    (host : String) (r : Rule) (rules : List Rule)
    → hostname_of r ≡ host
    → host ≢ ""
    → has_path r ≡ false
    → serving host (r ∷ rules) ≡ some r
unfolding serving
serving-here host r rules n h p = ground arith

serving-in_order :
    (host : String) (d : Rule) (hosts : List String) (pending : Dict Rule) (rest : List Rule)
    → IsPending pending
    → lookup host pending ≡ some d
    → contains hosts host ≡ true
    → serving host (in_order hosts pending ++ rest) ≡ some d
unfolding in_order some_rule
serving-in_order host d [] pending rest p h c = cc
serving-in_order host d (k ∷ hosts) pending rest p h c =
    go (lookup k pending) refl (string_dec host k) (serving-in_order host d hosts pending rest p h)
  where
    go :
        (o : Option Rule)
        → lookup k pending ≡ o
        → Dec (host ≡ k)
        → (contains hosts host ≡ true → serving host (in_order hosts pending ++ rest) ≡ some d)
        → serving host ((some_rule o ++ in_order hosts pending) ++ rest) ≡ some d
    go none e (yes s) ih = cc
    go none e (no s) ih = ih (ground arith)
    go (some r) e (yes s) ih =
        let root = p.at k r e in
        serving-here host r (in_order hosts pending ++ rest) (root.named ∙ sym s)
          (λ n. root.hosted (sym s ∙ n)) root.pathless
        ∙ cc
    go (some r) e (no s) ih =
        let root = p.at k r e in
        serving-skip host r (in_order hosts pending ++ rest)
          (λ n. root.hosted (sym root.named ∙ n), λ n. absurd (s (sym n ∙ root.named)))
        ∙ ih (ground arith)

serving-flush :
    (host : String) (d : Rule) (pending : Dict Rule) (rest : List Rule)
    → IsPending pending
    → lookup host pending ≡ some d
    → serving host (flush pending ++ rest) ≡ some d
unfolding flush
serving-flush host d pending rest p h =
    serving-in_order host d (sorted (keys pending)) pending rest p h
      (ground (arith, contains-sorted (keys pending) host, contains-keys host pending))

Serves-skip :
    (host : String) (d r : Rule) (rules : List Rule)
    → Passes host r
    → Serves host d rules
    → Serves host d (r ∷ rules)
Serves-skip host d r rules p s = record {
  rule = s.rule;
  found = serving-skip host r rules p ∙ s.found;
  named = s.named;
  service = s.service;
  request = s.request;
}

Serves-flush :
    (host : String) (d : Rule) (pending : Dict Rule) (rest : List Rule)
    → IsPending pending
    → lookup host pending ≡ some d
    → Serves host d (flush pending ++ rest)
Serves-flush host d pending rest p h = record {
  rule = d;
  found = serving-flush host d pending rest p h;
  named = (p.at host d h).named;
  service = refl;
  request = refl;
}

-- A root route of another host, replaced or dropped.
Serves-replaced_other :
    (host : String) (d original : Rule) (pending : Dict Rule) (rules : List Rule)
    → IsPending pending
    → hostname_of original ≢ ""
    → hostname_of original ≢ host
    → Serves host d rules
    → Serves host d (replaced original (lookup (hostname_of original) pending) ++ rules)
unfolding replaced
Serves-replaced_other host d original pending rules p hosted other s =
    go (lookup (hostname_of original) pending) refl
  where
    go :
        (o : Option Rule)
        → lookup (hostname_of original) pending ≡ o
        → Serves host d (replaced original o ++ rules)
    go none e = s
    go (some r) e =
        let n =
          hostname_of-replacement (hostname_of original) original r
            (p.at (hostname_of original) r e) in
        Serves-skip host d (replacement original r) rules
          (λ m. hosted (sym n ∙ m), λ m. absurd (other (sym n ∙ m))) s

-- The first root route of the host, replaced.
Serves-replaced_self :
    (host : String) (d original : Rule) (rules : List Rule)
    → IsRoot host d
    → has_path original ≡ false
    → Serves host d (replaced original (some d) ++ rules)
unfolding replaced
Serves-replaced_self host d original rules root h = record {
  rule = replacement original d;
  found =
      serving-here host (replacement original d) rules
        (hostname_of-replacement host original d root) root.hosted
        (has_path-replacement host original d root h);
  named = hostname_of-replacement host original d root;
  service = service-replacement host original d root;
  request = request-replacement host original d root;
}

module _ (host : String) (d : Rule) where
  Serves-merge_loop :
      (existing : List Rule) (pending : Dict Rule) (seen : List String) (rest : List Rule)
      → IsPending pending
      → lookup host pending ≡ some d
      → contains seen host ≡ false
      → Serves host d (merge_loop existing pending seen ++ rest)
  unfolding merge_loop
  Serves-merge_loop [] pending seen rest p h c = Serves-flush host d pending rest p h
  Serves-merge_loop (r ∷ rules) pending seen rest p h c = elim (Bool-cases (is_fallback r)) [
    | inl f ↦
        rw (f, append_assoc)
          (Serves-flush host d pending ((r ∷ merge_loop rules [] seen) ++ rest) p h)
    | inr f ↦ rw f (elim (Bool-cases (has_path r || contains seen (hostname_of r))) [
      | inl k ↦ rw k (
          Serves-skip host d r (merge_loop rules pending seen ++ rest)
            (ne_of_test (hostname_of r) "" f, λ n. ground (arith, ap (contains seen) n))
            (Serves-merge_loop rules pending seen rest p h c))
      | inr k ↦
          rw (k, append_assoc)
            (elim (string_dec (hostname_of r) host) [
              | yes n ↦
                  let e : lookup (hostname_of r) pending ≡ some d = rw n h in
                  rw e (
                    Serves-replaced_self host d r
                      (merge_loop rules (erase (hostname_of r) pending) (hostname_of r ∷ seen)
                        ++ rest)
                      (p.at host d h) (ground arith))
              | no n ↦
                  Serves-replaced_other host d r pending
                    (merge_loop rules (erase (hostname_of r) pending) (hostname_of r ∷ seen)
                      ++ rest)
                    p (ne_of_test (hostname_of r) "" f) n
                    (Serves-merge_loop rules (erase (hostname_of r) pending) (hostname_of r ∷ seen)
                      rest (IsPending-erase (hostname_of r) pending p)
                      (ground (arith, lookup-erase host (hostname_of r) pending)) (ground arith))
            ])
    ])
  ]

Serves-with_fallback :
    (host : String) (d : Rule) (rules : List Rule)
    → ((rest : List Rule) → Serves host d (rules ++ rest))
    → Serves host d (with_fallback rules)
unfolding with_fallback
Serves-with_fallback host d rules s = elim (Bool-cases (any is_fallback rules)) [
  | inl f ↦ rw f (rw append-nil at (s []))
  | inr f ↦ rw f (s (not_found_rule ∷ []))
]

-- If the desired rules are root routes, then for each host of theirs the first merged rule that is
-- either a root route of the host or has no hostname is a rule of the host, with the service and
-- the origin settings of the last desired rule for the host. So no fallback stands in front of it.
pub merge_ingress-Serves :
    (existing desired : List Rule) (host : String) (d : Rule)
    → All (λ r. IsRoot (hostname_of r) r) desired
    → lookup host (by_hostname desired []) ≡ some d
    → Serves host d (merge_ingress existing desired)
unfolding merge_ingress
merge_ingress-Serves existing desired host d roots h =
    let pending = by_hostname desired [] in
    Serves-with_fallback host d (merge_loop existing pending []) λ rest.
      Serves-merge_loop host d existing pending [] rest
        (by_hostname-IsPending desired [] IsPending-nil roots) h refl

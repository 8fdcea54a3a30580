-- ===== src/Domain/Ingress/Fallback.antt =====
-- What `merge_ingress` keeps: fallbacks, routes with a path, and that a fallback is there.
use cf_docker_tunnel_sync.Base.{
  String, Bool, true, false, ◌||◌, ◌≡◌, refl, Option, none, some, List, [], ◌∷◌, ◌++◌,
  if◌then◌else◌, string_dec, arith, ap,
}
use cf_docker_tunnel_sync.Base.Lists.{All, any, any-append, keep, keep-append}
use cf_docker_tunnel_sync.Base.Dict.{Dict, lookup, erase}
use cf_docker_tunnel_sync.Domain.Models.{Rule}
use cf_docker_tunnel_sync.Domain.Ingress.{
  as_text, hostname_of, is_fallback, has_path, by_hostname, replacement, in_order, some_rule, flush,
  replaced, merge_loop, not_found_rule, with_fallback, merge_ingress,
}
use cf_docker_tunnel_sync.Domain.Ingress.Roots.{
  IsRoot, IsPending, IsPending-erase, IsPending-nil, by_hostname-IsPending, hostname_of-replacement,
  has_path-replacement,
}

not_found_fallback : is_fallback not_found_rule ≡ true
unfolding hostname_of as_text lookup string_dec
not_found_fallback = refl

-- Whatever the two lists are, the merged rules have a rule with no hostname.
pub merge_ingress-has_fallback :
    (existing desired : List Rule) → any is_fallback (merge_ingress existing desired) ≡ true
unfolding merge_ingress with_fallback
merge_ingress-has_fallback existing desired =
    fallback_lem (merge_loop existing (by_hostname desired []) [])
  where
    fallback_lem : (rules : List Rule) → any is_fallback (with_fallback rules) ≡ true
    fallback_lem rules =
        ground (arith, any-append is_fallback rules (not_found_rule ∷ []), not_found_fallback)

-- A rule that is not a root route: it has no hostname or it has a path.
abbrev pub is_fixed : Rule → Bool
is_fixed rule = is_fallback rule || has_path rule

root-not_fixed : (k : String) (r : Rule) → IsRoot k r → is_fixed r ≡ false
root-not_fixed k r root = ground (arith, root.named, root.hosted, root.pathless)

replacement-not_fixed :
    (k : String) (original desired : Rule)
    → IsRoot k desired
    → has_path original ≡ false
    → is_fixed (replacement original desired) ≡ false
replacement-not_fixed k original desired root h = ground (
  arith,
  hostname_of-replacement k original desired root,
  root.hosted,
  has_path-replacement k original desired root h,
)

keep-in_order :
    (hosts : List String) (pending : Dict Rule)
    → IsPending pending
    → keep is_fixed (in_order hosts pending) ≡ []
unfolding in_order some_rule
keep-in_order [] pending p = refl
keep-in_order (h ∷ hosts) pending p =
    rw
      (
        keep-append is_fixed (some_rule (lookup h pending)) (in_order hosts pending),
        keep-in_order hosts pending p,
      )
      (go (lookup h pending) refl)
  where
    go : (o : Option Rule) → lookup h pending ≡ o → keep is_fixed (some_rule o) ++ [] ≡ []
    go none e = refl
    go (some r) e = ground (arith, root-not_fixed h r (p.at h r e))

keep-flush : (pending : Dict Rule) → IsPending pending → keep is_fixed (flush pending) ≡ []
unfolding flush
keep-flush pending p = keep-in_order _ pending p

keep-replaced :
    (original : Rule) (pending : Dict Rule)
    → IsPending pending
    → has_path original ≡ false
    → keep is_fixed (replaced original (lookup (hostname_of original) pending)) ≡ []
unfolding replaced
keep-replaced original pending p h = go (lookup (hostname_of original) pending) refl
  where
    go :
        (o : Option Rule)
        → lookup (hostname_of original) pending ≡ o
        → keep is_fixed (replaced original o) ≡ []
    go none e = refl
    go (some r) e = ground (
      arith,
      replacement-not_fixed (hostname_of original) original r (p.at (hostname_of original) r e) h,
    )

keep-merge_loop :
    (existing : List Rule) (pending : Dict Rule) (seen : List String)
    → IsPending pending
    → keep is_fixed (merge_loop existing pending seen) ≡ keep is_fixed existing
unfolding merge_loop
keep-merge_loop [] pending seen p = keep-flush pending p
keep-merge_loop (r ∷ rules) pending seen p =
    let host = hostname_of r in
    ground (
      arith,
      keep-append is_fixed (flush pending) (r ∷ merge_loop rules [] seen),
      keep-flush pending p,
      keep-merge_loop rules [] seen IsPending-nil,
      keep-merge_loop rules pending seen p,
      keep-append is_fixed (replaced r (lookup host pending))
          (merge_loop rules (erase host pending) (host ∷ seen)),
      keep-replaced r pending p,
      keep-merge_loop rules (erase host pending) (host ∷ seen) (IsPending-erase host pending p),
    )

any-keep : (rules : List Rule) → any is_fallback (keep is_fixed rules) ≡ any is_fallback rules
any-keep [] = refl
any-keep (r ∷ rules) = ground (arith, any-keep rules)

-- Rules with no hostname and rules with a path are kept, all of them, unchanged and in their
-- order, if the desired rules are root routes; the rule for "not found" is added exactly if there
-- was no rule without hostname.
pub keep_fixed-merge_ingress :
    (existing desired : List Rule)
    → All (λ r. IsRoot (hostname_of r) r) desired
    → keep is_fixed (merge_ingress existing desired) ≡ (
        if any is_fallback existing
        then keep is_fixed existing
        else keep is_fixed existing ++ not_found_rule ∷ [])
unfolding merge_ingress with_fallback
keep_fixed-merge_ingress existing desired roots =
    let pending = by_hostname desired [] in
    let merged = merge_loop existing pending [] in
    let same =
      keep-merge_loop existing pending [] (by_hostname-IsPending desired [] IsPending-nil roots) in
    ground (
      arith,
      same,
      any-keep existing,
      any-keep merged,
      ap (any is_fallback) same,
      not_found_fallback,
      keep-append is_fixed merged (not_found_rule ∷ []),
    )

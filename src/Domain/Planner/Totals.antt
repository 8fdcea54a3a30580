-- ===== src/Domain/Planner/Totals.antt =====
-- The summary of a plan says exactly whether it changes and whether it deletes.
use cf_docker_tunnel_sync.Base.{
  ℕ, Bool, true, false, refl, ◌≡◌, ◌≢◌, ◌↔◌, ◌⊎◌, List, [], ◌∷◌, arith, inl, inr, Bool-cases,
}
use cf_docker_tunnel_sync.Base.Lists.{All, All-map, count}
use cf_docker_tunnel_sync.Domain.Models.{
  IngressAction, DnsAction, PlannedIngressChange, PlannedDnsChange, ChangePlanSummary,
}
use cf_docker_tunnel_sync.Domain.Plan.{PlanArgs}
use cf_docker_tunnel_sync.Domain.Planner.{
  ingress_is, dns_is, summarize, reconcile_plan, degraded_plan, compute_change_plan,
}
use cf_docker_tunnel_sync.Domain.Planner.Degraded.{
  IsNoop, degraded_plan-IsNoop, degraded_plan-IsUntouched,
}

module _ {A : Type 0} (p : A → Bool) where
  count-eq-zero : (xs : List A) → count p xs ≡ 0 → All (λ x. p x ≡ false) xs
  count-eq-zero [] h = tt
  count-eq-zero (x ∷ xs) h = (ground arith, count-eq-zero xs (ground arith))

  count_none : (xs : List A) → All (λ x. p x ≡ false) xs → count p xs ≡ 0
  count_none [] h = ground arith
  count_none (x ∷ xs) h = ground (arith, count_none xs h.1)

-- The change of a record sends nothing to Cloudflare.
abbrev pub IsQuiet : PlannedDnsChange → Type 0
IsQuiet c = (c.action ≡ DnsAction.noop) ⊎ (c.action ≡ DnsAction.protect)

ingress_is-IsNoop :
    (c : PlannedIngressChange)
    → ingress_is IngressAction.create c ≡ false
    → ingress_is IngressAction.update c ≡ false
    → ingress_is IngressAction.delete c ≡ false
    → IsNoop c
ingress_is-IsNoop c a b d = ground arith

dns_is-IsQuiet :
    (c : PlannedDnsChange)
    → dns_is DnsAction.create c ≡ false
    → dns_is DnsAction.update c ≡ false
    → dns_is DnsAction.delete c ≡ false
    → IsQuiet c
dns_is-IsQuiet c a b d = go c.action a b d
  where
    go :
        (x : DnsAction)
        → elim x [ DnsAction.create ↦ true | _ ↦ false ] ≡ false
        → elim x [ DnsAction.update ↦ true | _ ↦ false ] ≡ false
        → elim x [ DnsAction.delete ↦ true | _ ↦ false ] ≡ false
        → (x ≡ DnsAction.noop) ⊎ (x ≡ DnsAction.protect)
    go DnsAction.noop a b d = inl refl
    go DnsAction.protect a b d = inr refl
    go DnsAction.create a b d = cc
    go DnsAction.update a b d = cc
    go DnsAction.delete a b d = cc

module _ {A : Type 0} (P Q R S : A → Type 0) (f : (x : A) → P x → Q x → R x → S x) where
  All-zip : (xs : List A) → All P xs → All Q xs → All R xs → All S xs
  All-zip [] a b c = tt
  All-zip (x ∷ xs) a b c = (f x a.0 b.0 c.0, All-zip xs a.1 b.1 c.1)

module _ (n : ℕ) (ingress : List PlannedIngressChange) (dns : List PlannedDnsChange) where
  summarize-IsQuiet :
      ((summarize n ingress dns).has_mutations ≡ false) ↔ (All IsNoop ingress × All IsQuiet dns)
  unfolding summarize
  summarize-IsQuiet = (
    λ h. (
      All-zip _ _ _ IsNoop ingress_is-IsNoop ingress
          (count-eq-zero (ingress_is IngressAction.create) ingress (ground arith))
          (count-eq-zero (ingress_is IngressAction.update) ingress (ground arith))
          (count-eq-zero (ingress_is IngressAction.delete) ingress (ground arith)),
      All-zip _ _ _ IsQuiet dns_is-IsQuiet dns
          (count-eq-zero (dns_is DnsAction.create) dns (ground arith))
          (count-eq-zero (dns_is DnsAction.update) dns (ground arith))
          (count-eq-zero (dns_is DnsAction.delete) dns (ground arith)),
    ),
    λ h. ground (
      arith,
      count_none (ingress_is IngressAction.create) ingress
          (All-map (λ c e. ground arith) ingress h.0),
      count_none (ingress_is IngressAction.update) ingress
          (All-map (λ c e. ground arith) ingress h.0),
      count_none (ingress_is IngressAction.delete) ingress
          (All-map (λ c e. ground arith) ingress h.0),
      count_none (dns_is DnsAction.create) dns (All-map (λ c e. ground arith) dns h.1),
      count_none (dns_is DnsAction.update) dns (All-map (λ c e. ground arith) dns h.1),
      count_none (dns_is DnsAction.delete) dns (All-map (λ c e. ground arith) dns h.1),
    ),
  )

  summarize-harmless : ((summarize n ingress dns).is_destructive ≡ false) ↔ (
      All (λ c. c.action ≢ IngressAction.delete) ingress
      × All (λ c. c.action ≢ DnsAction.delete) dns)
  unfolding summarize
  summarize-harmless = (
    λ h. (
      All-map (λ c e d. ground arith) ingress
          (count-eq-zero (ingress_is IngressAction.delete) ingress (ground arith)),
      All-map (λ c e d. ground arith) dns
          (count-eq-zero (dns_is DnsAction.delete) dns (ground arith)),
    ),
    λ h. ground (
      arith,
      count_none (ingress_is IngressAction.delete) ingress
          (All-map (λ c e. ground arith) ingress h.0),
      count_none (dns_is DnsAction.delete) dns (All-map (λ c e. ground arith) dns h.1),
    ),
  )

-- What the summary of a plan says of its changes.
pub record SummaryIsExact (ingress : List PlannedIngressChange) (dns : List PlannedDnsChange)
    (s : ChangePlanSummary) : Type 0 where
  pub quiet : (s.has_mutations ≡ false) ↔ (All IsNoop ingress × All IsQuiet dns)
  pub harmless : (s.is_destructive ≡ false) ↔ (
      All (λ c. c.action ≢ IngressAction.delete) ingress
      × All (λ c. c.action ≢ DnsAction.delete) dns)

-- The flags of the summary are exact, also while Docker cannot be read: "has mutations" is false
-- exactly if each ingress change is a no-op and each DNS change a no-op or a protection, and "is
-- destructive" is false exactly if no change is a deletion.
pub compute_change_plan-summary :
    (args : PlanArgs)
    → let plan = compute_change_plan args in
      SummaryIsExact plan.ingress_changes plan.dns_changes plan.summary
unfolding compute_change_plan reconcile_plan
compute_change_plan-summary args = elim (Bool-cases args.snapshot.docker_ok) [
  | inl e ↦ simp e (record { quiet = summarize-IsQuiet _ _ _; harmless = summarize-harmless _ _ _ })
  | inr e ↦
      let routes = degraded_plan-IsNoop args in
      let records = degraded_plan-IsUntouched args in
      simp e (record {
        quiet = (
          λ _. (routes, All-map (λ c u. inr u.0) (degraded_plan args).dns_changes records),
          λ _. unfold degraded_plan in refl,
        );
        harmless = (
          λ _. (
            All-map (λ c u d. ground arith) (degraded_plan args).ingress_changes routes,
            All-map (λ c u d. ground arith) (degraded_plan args).dns_changes records,
          ),
          λ _. unfold degraded_plan in refl,
        );
      })
]

-- ===== src/Domain/Planner/Degraded.antt =====
-- The plan while Docker cannot be read.
use cf_docker_tunnel_sync.Base.{◌≡◌, refl, false, [], ◌∷◌, List, arith}
use cf_docker_tunnel_sync.Base.Lists.{All}
use cf_docker_tunnel_sync.Domain.Models.{
  IngressAction, DnsAction, PlannedIngressChange, PlannedDnsChange, Rule, DnsRecord, ChangePlan,
}
use cf_docker_tunnel_sync.Domain.Plan.{PlanArgs}
use cf_docker_tunnel_sync.Domain.Planner.{
  degraded_rules, degraded_records, degraded_plan, compute_change_plan,
}

abbrev pub IsNoop : PlannedIngressChange → Type 0
IsNoop c = c.action ≡ IngressAction.noop

-- The record is protected, and what is written as its target is what it has.
abbrev pub IsUntouched : PlannedDnsChange → Type 0
IsUntouched c =
    (c.action ≡ DnsAction.protect)
    × (c.target_content ≡ c.current_content)
    × (c.target_comment ≡ c.current_comment)

degraded_rules-IsNoop : (rules : List Rule) → All IsNoop (degraded_rules rules)
unfolding degraded_rules
degraded_rules-IsNoop [] = tt
degraded_rules-IsNoop (r ∷ rules) = ground (arith, degraded_rules-IsNoop rules)

degraded_records-IsUntouched :
    (args : PlanArgs) (recs : List DnsRecord) → All IsUntouched (degraded_records args recs)
unfolding degraded_records
degraded_records-IsUntouched args [] = tt
degraded_records-IsUntouched args (r ∷ recs) =
    ground (arith, degraded_records-IsUntouched args recs)

-- What a plan that changes nothing is.
pub record ChangesNothing (args : PlanArgs) (plan : ChangePlan) : Type 0 where
  pub routes : All IsNoop plan.ingress_changes
  pub records : All IsUntouched plan.dns_changes
  pub rules : plan.final_ingress_rules ≡ args.remote.existing_ingress_rules
  pub no_tombstones : plan.tombstones_to_set ≡ []
  pub none_cleared : plan.tombstones_to_clear ≡ []
  pub quiet : plan.summary.has_mutations ≡ false
  pub harmless : plan.summary.is_destructive ≡ false

-- While Docker cannot be read, no plan changes a rule, a record or a tombstone: each ingress change
-- is a no-op, each DNS change protects its record, the final rules are the existing ones.
pub compute_change_plan-degraded :
    (args : PlanArgs)
    → args.snapshot.docker_ok ≡ false
    → ChangesNothing args (compute_change_plan args)
unfolding compute_change_plan degraded_plan
compute_change_plan-degraded args h = simp h (record {
  routes = degraded_rules-IsNoop args.remote.existing_ingress_rules;
  records = degraded_records-IsUntouched args args.remote.existing_dns_records;
  rules = refl;
  no_tombstones = refl;
  none_cleared = refl;
  quiet = refl;
  harmless = refl;
})

pub degraded_plan-IsNoop : (args : PlanArgs) → All IsNoop (degraded_plan args).ingress_changes
unfolding degraded_plan
degraded_plan-IsNoop args = degraded_rules-IsNoop args.remote.existing_ingress_rules

pub degraded_plan-IsUntouched : (args : PlanArgs) → All IsUntouched (degraded_plan args).dns_changes
unfolding degraded_plan
degraded_plan-IsUntouched args = degraded_records-IsUntouched args args.remote.existing_dns_records

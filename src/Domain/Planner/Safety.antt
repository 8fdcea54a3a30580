-- ===== src/Domain/Planner/Safety.antt =====
-- What the whole plan may delete, write and remember.
use cf_docker_tunnel_sync.Base.{false, ◌≡◌, inl, inr, Bool-cases, arith}
use cf_docker_tunnel_sync.Base.Lists.{All, All-map}
use cf_docker_tunnel_sync.Base.Dict.{Entry, All-update}
use cf_docker_tunnel_sync.Domain.Models.{is_legacy}
use cf_docker_tunnel_sync.Domain.Plan.{PlanArgs}
use cf_docker_tunnel_sync.Domain.Plan.Due.{SetsFresh}
use cf_docker_tunnel_sync.Domain.Records.Deletion.{DeletesOwned, records-DeletesOwned}
use cf_docker_tunnel_sync.Domain.Records.Writes.{WritesOwn, records-WritesOwn}
use cf_docker_tunnel_sync.Domain.Records.Tombstones.{active_records-Sets, missing_records-Sets}
use cf_docker_tunnel_sync.Domain.Routes.Deletion.{DeletesOwnRoute, routes-DeletesOwnRoute}
use cf_docker_tunnel_sync.Domain.Routes.Tombstones.{active_routes-Sets, missing_routes-Sets}
use cf_docker_tunnel_sync.Domain.Planner.{reconcile_plan, degraded_plan, compute_change_plan}
use cf_docker_tunnel_sync.Domain.Planner.Degraded.{degraded_plan-IsNoop, degraded_plan-IsUntouched}

-- Under every policy but "legacy_unrestricted": a record that the plan deletes is listed under its
-- hostname and id, it is owned, its host was not discovered, and cleanup is immediate, without a
-- grace period, or its tombstone is at least as old as the grace period.
pub compute_change_plan-DeletesOwned :
    (args : PlanArgs)
    → is_legacy args.policy ≡ false
    → All (DeletesOwned args) (compute_change_plan args).dns_changes
unfolding compute_change_plan reconcile_plan
compute_change_plan-DeletesOwned args plain = elim (Bool-cases args.snapshot.docker_ok) [
  | inl e ↦ simp e (records-DeletesOwned args plain)
  | inr e ↦ simp e (
      All-map (λ c u h. absurd (ground arith)) (degraded_plan args).dns_changes
        (degraded_plan-IsUntouched args))
]

-- Under every policy: a record that the plan creates or updates is that of a discovered host, what
-- is sent is a proxied CNAME to the tunnel with the tag of the tunnel, and the zone has no record of
-- the host if it is created; if it is updated, the zone's record of the host has the id that is
-- updated, and it is owned, or adopted and the policy is not "strict_tagged_only".
pub compute_change_plan-WritesOwn :
    (args : PlanArgs) → All (WritesOwn args) (compute_change_plan args).dns_changes
unfolding compute_change_plan reconcile_plan
compute_change_plan-WritesOwn args = elim (Bool-cases args.snapshot.docker_ok) [
  | inl e ↦ simp e (records-WritesOwn args)
  | inr e ↦ simp e (
      All-map (λ c u h. absurd (ground arith)) (degraded_plan args).dns_changes
        (degraded_plan-IsUntouched args))
]

-- A route that the plan deletes is that of a host that was not discovered, whose DNS record is
-- owned, and cleanup is immediate, without a grace period, or the host's tombstone is at least as
-- old as the grace period.
pub compute_change_plan-DeletesOwnRoute :
    (args : PlanArgs) → All (DeletesOwnRoute args) (compute_change_plan args).ingress_changes
unfolding compute_change_plan reconcile_plan
compute_change_plan-DeletesOwnRoute args = elim (Bool-cases args.snapshot.docker_ok) [
  | inl e ↦ simp e (routes-DeletesOwnRoute args)
  | inr e ↦ simp e (
      All-map (λ c u h. absurd (ground arith)) (degraded_plan args).ingress_changes
        (degraded_plan-IsNoop args))
]

-- A tombstone that the plan sets has the present time, and its host was not discovered, has no
-- tombstone yet, and there is a grace period and no immediate cleanup.
pub compute_change_plan-SetsFresh :
    (args : PlanArgs) → All (Entry (SetsFresh args)) (compute_change_plan args).tombstones_to_set
unfolding compute_change_plan reconcile_plan degraded_plan
compute_change_plan-SetsFresh args = elim (Bool-cases args.snapshot.docker_ok) [
  | inl e ↦ simp e (
      All-update (SetsFresh args) _ _
        (All-update (SetsFresh args) _ _ (active_routes-Sets args) (missing_routes-Sets args))
        (All-update (SetsFresh args) _ _ (active_records-Sets args) (missing_records-Sets args)))
  | inr e ↦ simp e tt
]

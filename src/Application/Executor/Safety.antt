-- ===== src/Application/Executor/Safety.antt =====
-- What the executor deletes when it carries out a computed plan.
use cf_docker_tunnel_sync.Base.{
  ℕ, String, Bool, false, ◌||◌, ◌≡◌, refl, ap, inl, inr, Option, some, List, [], ◌∷◌, Bool-cases,
  if◌then◌else◌,
}
use cf_docker_tunnel_sync.Base.Lists.{All, All-append, In}
use cf_docker_tunnel_sync.Domain.Models.{
  ChangePlan, PlannedDnsChange, DnsRecord, DnsAction, owned, is_legacy,
}
use cf_docker_tunnel_sync.Domain.Plan.{PlanArgs, status_of, is_discovered}
use cf_docker_tunnel_sync.Domain.Plan.Due.{IsDue}
use cf_docker_tunnel_sync.Domain.Records.Deletion.{DeletionBasis, DeletesOwned}
use cf_docker_tunnel_sync.Domain.Planner.{compute_change_plan, reconcile_plan, degraded_plan}
use cf_docker_tunnel_sync.Domain.Planner.Safety.{compute_change_plan-DeletesOwned}
use cf_docker_tunnel_sync.Application.Ports.{Call, Method, dns_record, TunnelConfig, Writer}
use cf_docker_tunnel_sync.Application.Policy.{DeletionPolicy, allowed, validate}
use cf_docker_tunnel_sync.Application.Calls.{
  ingress_changed, ingress_call, create_call, update_call, delete_call,
}
use cf_docker_tunnel_sync.Application.Executor.{RunState, Outcome, returned, execute}
use cf_docker_tunnel_sync.Application.Executor.Trace.{
  calls_as, dns_calls, planned_calls, run_calls, execute-Ran,
}

-- A call that deletes addresses, in the zone, the id of a record that is listed, is ours, belongs to
-- a host that was not discovered, and whose time has come.
pub record CallBasis (args : PlanArgs) (call : Call) : Type 0 where
  pub rec : DnsRecord
  pub host : String
  pub listed : In rec args.remote.existing_dns_records
  pub named : rec.name ≡ some host
  pub ours : status_of args rec ≡ owned
  pub gone : is_discovered args host ≡ false
  pub due : IsDue args host
  pub addressed : call.endpoint ≡ dns_record args.remote.zone_id rec.id

abbrev pub CallDeletesOwned : PlanArgs → Call → Type 0
CallDeletesOwned args call = call.method ≡ Method.delete → CallBasis args call

module _ (args : PlanArgs) where
  calls_as-DeletesOwned :
      (c : PlannedDnsChange) (a : DnsAction)
      → (a ≡ DnsAction.delete → DeletionBasis args c)
      → All (CallDeletesOwned args) (calls_as a args.remote.zone_id c)
  unfolding calls_as create_call update_call delete_call
  calls_as-DeletesOwned c DnsAction.noop h = tt
  calls_as-DeletesOwned c DnsAction.protect h = tt
  calls_as-DeletesOwned c DnsAction.create h = (λ e. cc, tt)
  calls_as-DeletesOwned c DnsAction.update h = (λ e. cc, tt)
  calls_as-DeletesOwned c DnsAction.delete h =
      let b = h refl in
      (
        λ e. record {
          rec = b.rec;
          host = c.hostname;
          listed = b.listed;
          named = b.named;
          ours = b.ours;
          gone = b.gone;
          due = b.due;
          addressed = ap (dns_record args.remote.zone_id) b.same_id;
        },
        tt,
      )

  dns_calls-DeletesOwned :
      (cs : List PlannedDnsChange)
      → All (DeletesOwned args) cs
      → All (CallDeletesOwned args) (dns_calls args.remote.zone_id cs)
  unfolding dns_calls
  dns_calls-DeletesOwned [] h = tt
  dns_calls-DeletesOwned (c ∷ cs) h =
      All-append (CallDeletesOwned args) (calls_as c.action args.remote.zone_id c)
        (dns_calls args.remote.zone_id cs) (calls_as-DeletesOwned c c.action h.0)
        (dns_calls-DeletesOwned cs h.1)

  -- A plan is for the zone that was read.
  same_zone : (compute_change_plan args).zone_id ≡ args.remote.zone_id
  unfolding compute_change_plan reconcile_plan degraded_plan
  same_zone = elim (Bool-cases args.snapshot.docker_ok) [
    | inl e ↦ simp e refl
    | inr e ↦ simp e refl
  ]

  module _ (account_id : String) (current : Option TunnelConfig) where
    ingress_call-DeletesOwned :
        (plan : ChangePlan)
        → All
            (CallDeletesOwned args)
            (if ingress_changed current plan then ingress_call account_id current plan ∷ [] else [])
    unfolding ingress_call
    ingress_call-DeletesOwned plan = elim (Bool-cases (ingress_changed current plan)) [
      | inl e ↦ rw e (λ h. cc, tt)
      | inr e ↦ rw e tt
    ]

    planned_calls-DeletesOwned :
        is_legacy args.policy ≡ false
        → All (CallDeletesOwned args) (planned_calls account_id current (compute_change_plan args))
    unfolding planned_calls
    planned_calls-DeletesOwned plain =
        let plan = compute_change_plan args in
        All-append (CallDeletesOwned args) _ (dns_calls plan.zone_id plan.dns_changes)
          (ingress_call-DeletesOwned plan)
          (rw same_zone
            (dns_calls-DeletesOwned plan.dns_changes (compute_change_plan-DeletesOwned args plain)))

module _ (writer : Writer) where
  -- The run returned, after calls of which each deletes nothing but an owned record that is due.
  pub record RanSafely (args : PlanArgs) (s : RunState writer.World) (o : Outcome writer.World)
      : Type 0 where
    pub calls : List Call
    pub after : RunState writer.World
    pub finished : o ≡ returned after
    pub world : after.world ≡ run_calls writer s.world calls
    pub safe : All (CallDeletesOwned args) calls

  -- When the planner's plan is executed, under a policy other than "legacy_unrestricted", by a run
  -- that is not dry, whose deletions are allowed and that does not fail fast, the run returns, and
  -- each call to Cloudflare that deletes addresses a record that is listed in the zone and owned,
  -- whose host was not discovered and is due for cleanup.
  pub execute-RanSafely :
      (args : PlanArgs) (policy : DeletionPolicy) (dry_run : Bool) (account_id : String)
      (current : Option TunnelConfig) (n : ℕ) (s : RunState writer.World)
      → is_legacy args.policy ≡ false
      → (dry_run || (compute_change_plan args).dry_run) ≡ false
      → validate policy (compute_change_plan args) ≡ allowed n
      → RanSafely args s
          (execute writer policy dry_run false account_id current (compute_change_plan args) s)
  execute-RanSafely args policy dry_run account_id current n s plain real ok =
      let ran =
        execute-Ran writer policy dry_run account_id current (compute_change_plan args) n s real
          ok in
      record {
        calls = planned_calls account_id current (compute_change_plan args);
        after = ran.after;
        finished = ran.finished;
        world = ran.world;
        safe = planned_calls-DeletesOwned args account_id current plain;
      }

-- ===== src/Application/Executor.antt =====
-- tunnel_sync/application/executor.py: `ChangeExecutor.execute`.
pub mod Guard
pub mod Trace
pub mod Safety
use cf_docker_tunnel_sync.Base.{
  ℕ, ◌+◌, ◌*◌, String, Bool, true, false, not, ◌&&◌, ◌||◌, Option, none, some, List, [], ◌∷◌, ◌++◌,
  map, ltb, ◌=ℕ◌, ◌==◌, if◌then◌else◌,
}
use Prim.Native.Nat.{max}
use cf_docker_tunnel_sync.Base.Json.{Json, Fields, Items, json_eq}
use cf_docker_tunnel_sync.Domain.Models.{
  Rule, Comment, IngressAction, DnsAction, DnsReason, PlannedIngressChange, PlannedDnsChange,
  ChangePlan, or_default,
}
use cf_docker_tunnel_sync.Application.Ports.{
  Endpoint, configurations, dns_records, dns_record, Method, TunnelConfig, RecordPayload, Payload,
  no_payload, config, dns, Call, Writer,
}
use cf_docker_tunnel_sync.Application.Policy.{
  DeletionPolicy, GuardError, Verdict, planned_deletions, over_ratio, validate, threshold_exceeded,
  ratio_exceeded, allowed, refused,
}
use cf_docker_tunnel_sync.Application.Calls.{
  to_fields, to_items, rules_eq, ingress_changed, config_payload, ingress_call, sent_comment,
  record_payload, create_call, update_call, delete_call,
}

pub data Resource : Type 0 where
  ingress dns_resource : Resource

pub data Status : Type 0 where
  succeeded failed skipped : Status

pub data Note : Type 0 where
  no_note dry_run_note : Note
  error_note : String → Note
  planned_note : DnsReason → Note

pub record OperationResult : Type 0 where
  pub resource : Resource
  pub action : String
  pub target : String
  pub status : Status
  pub reason : Note

-- `action.value`
abbrev pub ingress_value : IngressAction → String
ingress_value IngressAction.noop = "noop"
ingress_value IngressAction.create = "create"
ingress_value IngressAction.update = "update"
ingress_value IngressAction.delete = "delete"

abbrev pub dns_value : DnsAction → String
dns_value DnsAction.noop = "noop"
dns_value DnsAction.create = "create"
dns_value DnsAction.update = "update"
dns_value DnsAction.delete = "delete"
dns_value DnsAction.protect = "protect"

pub data LogLine : Type 0 where
  guard_tripped : GuardError → LogLine
  mass_override : ℕ → LogLine

-- What a run leaves: the remote state, the operations of its result, those that were passed to
-- `record`, and the log.
pub record RunState (W : Type 0) : Type 0 where
  pub world : W
  pub operations : List OperationResult
  pub recorded : List OperationResult
  pub log : List LogLine

pub data Outcome (W : Type 0) : Type 0 where
  returned : RunState W → Outcome W
  raised_guard : GuardError → RunState W → Outcome W
  raised_mutation : String → RunState W → Outcome W

unfoldable pub skipped_ingress : PlannedIngressChange → OperationResult
skipped_ingress c = record {
  resource = ingress;
  action = ingress_value c.action;
  target = or_default c.hostname "";
  status = skipped;
  reason = dry_run_note;
}

unfoldable pub skipped_dns : PlannedDnsChange → OperationResult
skipped_dns c = record {
  resource = dns_resource;
  action = dns_value c.action;
  target = c.hostname;
  status = skipped;
  reason = dry_run_note;
}

unfoldable pub dry_operations : ChangePlan → List OperationResult
dry_operations plan = map skipped_ingress plan.ingress_changes ++ map skipped_dns plan.dns_changes

unfoldable pub protection : PlannedDnsChange → OperationResult
protection c = record {
  resource = dns_resource;
  action = "protect";
  target = c.hostname;
  status = skipped;
  reason = planned_note c.reason;
}

module _ (writer : Writer) where
  abbrev pub State : Type 0
  State = RunState writer.World

  -- An operation joins the result and is passed to `record`.
  unfoldable pub add_operation : OperationResult → State → State
  add_operation op s = record s {
    operations = s.operations ++ op ∷ [];
    recorded = s.recorded ++ op ∷ [];
  }

  unfoldable pub finish_attempt :
      Bool
      → Resource
      → String
      → String
      → State
      → writer.World × Option String
      → Outcome writer.World
  finish_attempt fail_fast resource action target s (w, none) = returned (
      add_operation
        (record {
          resource = resource;
          action = action;
          target = target;
          status = succeeded;
          reason = no_note;
        })
        (record s { world = w }))
  finish_attempt fail_fast resource action target s (w, some error) =
      let after =
        add_operation
          (record {
            resource = resource;
            action = action;
            target = target;
            status = failed;
            reason = error_note error;
          })
          (record s { world = w }) in
      if fail_fast then raised_mutation error after else returned after

  -- `attempt`
  unfoldable pub attempt : Bool → Resource → String → String → Call → State → Outcome writer.World
  attempt fail_fast resource action target call s =
      finish_attempt fail_fast resource action target s (writer.mutate s.world call)

  -- One planned change of a record, by its action.
  unfoldable pub perform_as :
      DnsAction → Bool → String → PlannedDnsChange → State → Outcome writer.World
  perform_as DnsAction.noop fail_fast zone c s = returned s
  perform_as DnsAction.protect fail_fast zone c s = returned (add_operation (protection c) s)
  perform_as DnsAction.delete fail_fast zone c s =
      attempt fail_fast dns_resource "delete" c.hostname (delete_call zone c) s
  perform_as DnsAction.create fail_fast zone c s =
      attempt fail_fast dns_resource (dns_value DnsAction.create) c.hostname (create_call zone c) s
  perform_as DnsAction.update fail_fast zone c s =
      attempt fail_fast dns_resource (dns_value DnsAction.update) c.hostname (update_call zone c) s

  unfoldable pub perform_dns : Bool → String → PlannedDnsChange → State → Outcome writer.World
  perform_dns fail_fast zone c s = perform_as c.action fail_fast zone c s

  unfoldable pub and_then :
      Outcome writer.World → (State → Outcome writer.World) → Outcome writer.World
  and_then (returned s) f = f s
  and_then (raised_guard e s) f = raised_guard e s
  and_then (raised_mutation e s) f = raised_mutation e s

  -- The loop over `plan.dns_changes`.
  unfoldable pub perform_all : Bool → String → List PlannedDnsChange → State → Outcome writer.World
  perform_all fail_fast zone [] s = returned s
  perform_all fail_fast zone (c ∷ cs) s =
      and_then (perform_dns fail_fast zone c s) (perform_all fail_fast zone cs)

  unfoldable pub perform_ingress :
      Bool → String → Option TunnelConfig → ChangePlan → State → Outcome writer.World
  perform_ingress fail_fast account_id current plan s =
      if ingress_changed current plan
      then attempt fail_fast ingress "update" "ingress" (ingress_call account_id current plan) s
      else returned s

  -- The part after the guard.
  unfoldable pub perform :
      Bool → String → Option TunnelConfig → ChangePlan → State → Outcome writer.World
  perform fail_fast account_id current plan s =
      and_then (perform_ingress fail_fast account_id current plan s)
        (perform_all fail_fast plan.zone_id plan.dns_changes)

  unfoldable pub override_log : DeletionPolicy → ℕ → State → State
  override_log policy deletions s =
      if policy.allow_mass && not (deletions =ℕ 0)
      then record s { log = s.log ++ mass_override deletions ∷ [] }
      else s

  unfoldable pub guarded :
      DeletionPolicy
      → Bool
      → String
      → Option TunnelConfig
      → ChangePlan
      → State
      → Verdict
      → Outcome writer.World
  guarded policy fail_fast account_id current plan s (allowed deletions) =
      perform fail_fast account_id current plan (override_log policy deletions s)
  guarded policy fail_fast account_id current plan s (refused e) =
      raised_guard e (record s { log = s.log ++ guard_tripped e ∷ [] })

  -- `execute`, on a new `ExecutionResult`
  unfoldable pub execute :
      DeletionPolicy
      → Bool
      → Bool
      → String
      → Option TunnelConfig
      → ChangePlan
      → State
      → Outcome writer.World
  execute policy dry_run fail_fast account_id current plan s =
      if dry_run || plan.dry_run
      then returned (record s { operations = dry_operations plan })
      else guarded policy fail_fast account_id current plan (record s { operations = [] })
          (validate policy plan)

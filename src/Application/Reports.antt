-- ===== src/Application/Reports.antt =====
-- tunnel_sync/application/sync.py: what a cycle sends to the reporter, the metrics and the dispatcher.
-- Log lines and events are constructors with the values of their texts; durations are left out.
use cf_docker_tunnel_sync.Base.{ℕ, String, Bool, ◌&&◌, Option, List, [], ◌∷◌, ◌++◌, if◌then◌else◌}
use cf_docker_tunnel_sync.Base.Lists.{contains}
use cf_docker_tunnel_sync.Base.Dict.{Dict, insert, erase, contains_key}
use cf_docker_tunnel_sync.Base.Json.{Json}
use cf_docker_tunnel_sync.Domain.Models.{
  OwnershipStatus, IngressAction, DnsAction, DnsReason, PlannedIngressChange, PlannedDnsChange,
  ChangePlan, ChangePlanSummary,
}
use cf_docker_tunnel_sync.Application.Policy.{GuardError}
use cf_docker_tunnel_sync.Application.Executor.{OperationResult}
use cf_docker_tunnel_sync.Application.Executor
use cf_docker_tunnel_sync.Application.Discovery
use cf_docker_tunnel_sync.Application.Activation.{ActivationLog}

pub data CycleLine : Type 0 where
  token_missing domain_missing docker_unreachable no_accounts tunnel_needed : CycleLine
  discovered : List (String × String) → CycleLine
  zone_not_found creating_tunnel : String → CycleLine
  sudden_drop : ℕ → CycleLine
  recovered : String → CycleLine
  tombstoned preserved : String → ℕ → CycleLine
  dns_adopted : String → String → CycleLine
  ingress_create ingress_update : Option String → Json → CycleLine
  ingress_delete : Option String → CycleLine
  dns_create dns_update : String → Option String → CycleLine
  dns_delete : String → CycleLine
  dns_protect : String → DnsReason → CycleLine
  dry_run_evaluated : String → ChangePlanSummary → CycleLine
  finished_degraded finished : CycleLine
  guard_line : GuardError → CycleLine
  error_line : String → CycleLine

-- `record_event`
pub data CycleEvent : Type 0 where
  adopted_event : String → String → CycleEvent
  dry_run_event : String → ℕ → CycleEvent
  degraded_event success_event : ℕ → CycleEvent
  guard_event : ℕ → CycleEvent
  error_event : String → CycleEvent

-- `dispatch_sync`, by its event type
pub data Alert : Type 0 where
  sync_degraded : ℕ → Alert
  safety_guard_tripped : ℕ → GuardError → Alert
  sync_failure : String → Alert

-- The status of `record_sync_run`
pub data RunResult : Type 0 where
  success degraded blocked error : RunResult

-- One call; `S` is the type of the status. What the inventory, the executor and the activation report
-- is one entry each.
pub data Report (S : Type 0) : Type 0 where
  line : CycleLine → Report S
  event : CycleEvent → Report S
  alert : Alert → Report S
  sync_run : RunResult → ℕ → Bool → Report S
  sync_history : S → ℕ → Option ChangePlanSummary → Report S
  overview_metrics : Report S
  inventory_lines : List Discovery.LogLine → Report S
  activation_lines : List ActivationLog → Report S
  execution : List OperationResult → List Executor.LogLine → Report S

module _ {S : Type 0} where
  -- The lines of the two loops over tombstones.
  unfoldable pub recovery_lines : List String → List String → Dict ℕ → List (Report S)
  recovery_lines [] origins tombstones = []
  recovery_lines (host ∷ hosts) origins tombstones =
      let back = contains_key host tombstones && contains origins host in
      (if back then line (recovered host) ∷ [] else [])
      ++ recovery_lines hosts origins (if back then erase host tombstones else tombstones)

  unfoldable pub tombstone_lines : ℕ → Dict ℕ → Dict ℕ → List (Report S)
  tombstone_lines grace [] tombstones = []
  tombstone_lines grace ((host, ts) ∷ to_set) tombstones =
      let known = contains_key host tombstones in
      (if known then [] else line (tombstoned host grace) ∷ [])
      ++ tombstone_lines grace to_set (if known then tombstones else insert host ts tombstones)

  abbrev pub adoption_of : String → PlannedDnsChange → OwnershipStatus → List (Report S)
  adoption_of plan_id c OwnershipStatus.adopted =
      line (dns_adopted c.hostname plan_id) ∷ event (adopted_event c.hostname plan_id) ∷ []
  adoption_of plan_id c _ = []

  unfoldable pub adoptions : String → List PlannedDnsChange → List (Report S)
  adoptions plan_id [] = []
  adoptions plan_id (c ∷ cs) = adoption_of plan_id c c.ownership_status ++ adoptions plan_id cs

  abbrev pub ingress_line : PlannedIngressChange → IngressAction → List (Report S)
  ingress_line c IngressAction.create = line (ingress_create c.hostname c.service) ∷ []
  ingress_line c IngressAction.update = line (ingress_update c.hostname c.service) ∷ []
  ingress_line c IngressAction.delete = line (ingress_delete c.hostname) ∷ []
  ingress_line c IngressAction.noop = []

  unfoldable pub ingress_lines : List PlannedIngressChange → List (Report S)
  ingress_lines [] = []
  ingress_lines (c ∷ cs) = ingress_line c c.action ++ ingress_lines cs

  abbrev pub dns_line : PlannedDnsChange → DnsAction → List (Report S)
  dns_line c DnsAction.create = line (dns_create c.hostname c.target_content) ∷ []
  dns_line c DnsAction.update = line (dns_update c.hostname c.target_content) ∷ []
  dns_line c DnsAction.delete = line (dns_delete c.hostname) ∷ []
  dns_line c DnsAction.protect = line (dns_protect c.hostname c.reason) ∷ []
  dns_line c DnsAction.noop = []

  unfoldable pub dns_lines : List PlannedDnsChange → List (Report S)
  dns_lines [] = []
  dns_lines (c ∷ cs) = dns_line c c.action ++ dns_lines cs

  -- What is told of the adoptions and the changes of a plan.
  unfoldable pub plan_reports : ChangePlan → List (Report S)
  plan_reports plan =
      adoptions plan.plan_id plan.dns_changes
      ++ ingress_lines plan.ingress_changes
      ++ dns_lines plan.dns_changes

  -- The end of a dry run.
  unfoldable pub dry_run_reports : ChangePlan → List (Report S)
  dry_run_reports plan =
      line (dry_run_evaluated plan.plan_id plan.summary)
      ∷ event (dry_run_event plan.plan_id plan.summary.total_services_discovered)
      ∷ []

  -- An alert is sent only by a run that is not dry.
  unfoldable pub alert_unless : Bool → Alert → List (Report S)
  alert_unless dry_run a = if dry_run then [] else alert a ∷ []

-- ===== src/Application/Cycle/Finishing.antt =====
-- tunnel_sync/application/sync.py: `run_once`, from the plan to the end of the `try` block.
use cf_docker_tunnel_sync.Base.{
  ℕ, ◌+◌, ◌-◌, String, Bool, true, false, not, ◌&&◌, ◌||◌, Option, none, some, List, [], ◌∷◌, ◌++◌,
  map, if◌then◌else◌,
}
use Prim.Native.Nat.{max}
use cf_docker_tunnel_sync.Base.Lists.{any}
use cf_docker_tunnel_sync.Base.Dict.{Dict}
use cf_docker_tunnel_sync.Domain.Models.{ChangePlan}
use cf_docker_tunnel_sync.Domain.Hostnames.{normalize_hostname}
use cf_docker_tunnel_sync.Domain.Plan.{PlanArgs}
use cf_docker_tunnel_sync.Domain.Planner.{compute_change_plan}
use cf_docker_tunnel_sync.Domain.Diagnostics.{Service, ServiceStatus, publish}
use cf_docker_tunnel_sync.Application.Ports.{TunnelConfig, Writer}
use cf_docker_tunnel_sync.Application.Executor.{
  Resource, Status, OperationResult, RunState, Outcome, execute,
}
use cf_docker_tunnel_sync.Application.Tombstones.{planned_tombstones, pop_all, clear_recovered}
use cf_docker_tunnel_sync.Application.Discovery.{Tools, ServiceItem}
use cf_docker_tunnel_sync.Application.Cycle.{
  Environment, CycleSettings, CycleStatus, dry_synced, active, degraded_sync, SyncedRecord,
  of_service, of_tombstone, Moment, returned, guarded, raised, say,
}
use cf_docker_tunnel_sync.Application.Reports.{
  Report, line, event, sync_run, execution, sudden_drop, preserved, finished_degraded, finished,
  degraded_event, success_event, sync_degraded, RunResult, success, degraded, recovery_lines,
  tombstone_lines, plan_reports, dry_run_reports, alert_unless,
}
use cf_docker_tunnel_sync.Application.Cycle.Planning.{is_drop}
use cf_docker_tunnel_sync.Application.Cycle.Stages.{Now, End, at, stop}

-- `execution.failed`
abbrev is_resource : Resource → Resource → Bool
is_resource Resource.ingress Resource.ingress = true
is_resource Resource.dns_resource Resource.dns_resource = true
is_resource _ _ = false

abbrev is_failed : Status → Bool
is_failed Status.failed = true
is_failed _ = false

unfoldable pub has_failed : Resource → List OperationResult → Bool
has_failed resource operations =
    any (λ op. is_resource op.resource resource && is_failed op.status) operations

-- "Degraded" or "Failed"
abbrev is_bad : Option ServiceStatus → Bool
is_bad (some ServiceStatus.degraded) = true
is_bad (some ServiceStatus.failed) = true
is_bad _ = false

abbrev normalized_record : Option String → Service → List SyncedRecord
normalized_record none s = []
normalized_record (some h) s = of_service h s.service ∷ []

unfoldable pub service_records : List Service → List SyncedRecord
service_records [] = []
service_records (s ∷ services) =
    normalized_record (normalize_hostname s.hostname) s ++ service_records services

-- `max(1, int(grace_period - (now - ts)))`
unfoldable pub tombstone_records : ℕ → ℕ → Dict ℕ → List SyncedRecord
tombstone_records grace now [] = []
tombstone_records grace now ((host, ts) ∷ tombstones) =
    of_tombstone host (max 1 ((grace + ts) - now)) ∷ tombstone_records grace now tombstones

-- The lines on the tombstones that are left.
unfoldable pub preserved_lines : ℕ → ℕ → Dict ℕ → List (Report CycleStatus)
preserved_lines grace now [] = []
preserved_lines grace now ((host, ts) ∷ tombstones) =
    line (preserved host (max 1 ((grace + ts) - now))) ∷ preserved_lines grace now tombstones

-- The lines on what the plan does to the tombstones.
unfoldable pub tombstone_reports : PlanArgs → ChangePlan → List (Report CycleStatus)
tombstone_reports args plan =
    let origins = map (λ o. o.hostname) args.snapshot.origins in
    recovery_lines plan.tombstones_to_clear origins args.tombstones
    ++ tombstone_lines args.dns_delete_grace_seconds plan.tombstones_to_set
        (clear_recovered plan.tombstones_to_clear origins args.tombstones)

unfoldable pub drop_lines : ℕ → List ServiceItem → List (Report CycleStatus)
drop_lines known items = if is_drop known items then line (sudden_drop known) ∷ [] else []

abbrev pub result_of : CycleStatus → RunResult
result_of active = success
result_of status = degraded

module _ (env : Environment) (tools : Tools) (settings : CycleSettings) (moment : Moment) where
  abbrev writer : Writer
  writer = record { World = env.World; mutate = env.mutate }

  unfoldable pub status_after : Bool → Bool → List Service → CycleStatus
  status_after ingress_failed dns_failed services =
      if ingress_failed || dns_failed || any (λ s. is_bad s.status) services
      then degraded_sync
      else active

  unfoldable pub outcome_reports : CycleStatus → ℕ → List (Report CycleStatus)
  outcome_reports degraded_sync count =
      event (degraded_event count)
      ∷ line finished_degraded
      ∷ alert_unless settings.dry_run (sync_degraded count)
  outcome_reports status count = event (success_event count) ∷ line finished ∷ []

  -- After the plan was executed.
  unfoldable pub finish :
      PlanArgs
      → ChangePlan
      → List Service
      → RunState env.World
      → Now env tools settings
      → End env tools settings
  finish args plan services r c =
      let ingress_failed = has_failed Resource.ingress r.operations in
      let dns_failed = has_failed Resource.dns_resource r.operations in
      let tombstones =
        if not ingress_failed && not dns_failed
        then pop_all plan.tombstones_to_clear c.state.tombstones
        else c.state.tombstones in
      let published = publish services args.remote.tunnel_target ingress_failed dns_failed in
      let status = status_after ingress_failed dns_failed published in
      returned (record c {
        reports =
            c.reports
            ++ execution r.recorded r.log
              ∷ (preserved_lines args.dns_delete_grace_seconds args.now tombstones
                  ++ (outcome_reports status c.services_count
                      ++ sync_run (result_of status) c.services_count false ∷ []));
        world = r.world;
        state = record (c.state) {
          last_ingress =
              if ingress_failed then c.state.last_ingress else some plan.final_ingress_rules;
          tombstones = tombstones;
          services = published;
          discovered_services = published;
          dns_records =
              service_records published
              ++ tombstone_records args.dns_delete_grace_seconds args.now tombstones;
          status = status;
        };
      })

  unfoldable pub on_executed :
      PlanArgs
      → ChangePlan
      → List Service
      → Now env tools settings
      → Outcome env.World
      → End env tools settings
  on_executed args plan services c (Outcome.returned r) = finish args plan services r c
  on_executed args plan services c (Outcome.raised_guard e r) =
      guarded e (say (execution r.recorded r.log ∷ []) (at env tools settings r.world c))
  on_executed args plan services c (Outcome.raised_mutation e r) =
      raised e (say (execution r.recorded r.log ∷ []) (at env tools settings r.world c))

  unfoldable pub execute_plan :
      String
      → TunnelConfig
      → PlanArgs
      → ChangePlan
      → List Service
      → Now env tools settings
      → End env tools settings
  execute_plan account config args plan services c = on_executed args plan services c (
      execute writer settings.deletion_policy false false account (some config) plan
        (record { world = c.world; operations = []; recorded = []; log = [] }))

  -- The plan and its tombstones join the state; a dry run ends with them.
  unfoldable pub carry_out :
      String
      → TunnelConfig
      → PlanArgs
      → List Service
      → Now env tools settings
      → End env tools settings
  carry_out account config args services c =
      let plan = compute_change_plan args in
      let tombstones = planned_tombstones args in
      let w = if settings.persistence_enabled then env.store_file c.world tombstones else c.world in
      let noted = record c {
        world = w;
        state = record (c.state) { last_change_plan = some plan; tombstones = tombstones };
        plan_summary = some plan.summary;
        reports = c.reports ++ (tombstone_reports args plan ++ plan_reports plan);
      } in
      if settings.dry_run
      then stop env tools settings dry_synced (dry_run_reports plan) noted
      else execute_plan account config args plan services noted

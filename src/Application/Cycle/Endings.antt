-- ===== src/Application/Cycle/Endings.antt =====
-- tunnel_sync/application/sync.py: how the ends of a cycle are counted and alerted of.
use cf_docker_tunnel_sync.Base.{
  ℕ, suc, String, Bool, true, false, Option, none, some, List, [], ◌∷◌, ◌++◌, ◌≡◌, ◌⊎◌, inr, refl,
  sym, ap, ◌∙◌, if◌then◌else◌,
}
use mathlib.Core.List.{append-nil}
use cf_docker_tunnel_sync.Domain.Models.{ChangePlan, ChangePlanSummary}
use cf_docker_tunnel_sync.Base.Lists.{length}
use cf_docker_tunnel_sync.Domain.Diagnostics.{Service, publish}
use cf_docker_tunnel_sync.Domain.Plan.{PlanArgs}
use cf_docker_tunnel_sync.Domain.Planner.{compute_change_plan}
use cf_docker_tunnel_sync.Application.Ports.{TunnelConfig}
use cf_docker_tunnel_sync.Application.Policy.{GuardError}
use cf_docker_tunnel_sync.Application.Executor.{Resource, RunState, Outcome}
use cf_docker_tunnel_sync.Application.Discovery.{Tools}
use cf_docker_tunnel_sync.Application.Reports.{
  Report, execution, sync_degraded, safety_guard_tripped, sync_failure, sync_run, success, degraded,
  blocked, error, alert_unless, dry_run_reports,
}
use cf_docker_tunnel_sync.Application.Cycle.{
  Cycle, Environment, CycleSettings, CycleStatus, syncing, waiting_for_token, waiting_for_domain,
  docker_degraded, no_account, zone_missing, provisioning_required, dry_synced, active,
  degraded_sync, guard_tripped, sync_error, Moment, guarded, raised,
}
use cf_docker_tunnel_sync.Application.Cycle.Telling.{
  loud, IsQuiet, loud-append, append-IsQuiet, preserved_lines-IsQuiet, planned-IsQuiet, said,
  told_more, told_after, dry_run_reports-IsQuiet, alert_unless-loud,
}
use cf_docker_tunnel_sync.Application.Cycle.Stages.{Now, End, stop}
use cf_docker_tunnel_sync.Application.Cycle.Finishing.{
  has_failed, preserved_lines, result_of, status_after, outcome_reports, finish, on_executed,
  execute_plan, carry_out,
}
use cf_docker_tunnel_sync.Application.Cycle.Run.{handle}

-- The statuses of the early returns.
abbrev pub is_early : CycleStatus → Bool
is_early waiting_for_token = true
is_early waiting_for_domain = true
is_early docker_degraded = true
is_early no_account = true
is_early (zone_missing domain) = true
is_early provisioning_required = true
is_early dry_synced = true
is_early _ = false

-- The alerts and the counted runs of a cycle with this number of services, by its final status.
pub data Tale (dry : Bool) (count : ℕ) : CycleStatus → List (Report CycleStatus) → Type 0 where
  ended : (status : CycleStatus) → is_early status ≡ true → Tale dry count status []
  went_well : Tale dry count active (sync_run success count false ∷ [])
  went_badly :
      Tale dry count degraded_sync
        (alert_unless dry (sync_degraded count) ++ sync_run degraded count false ∷ [])
  stopped :
      (deletions : ℕ) (e : GuardError)
      → Tale dry count guard_tripped
          (sync_run blocked count true ∷ alert_unless dry (safety_guard_tripped deletions e))
  broke :
      (e : String)
      → Tale dry count
          (sync_error e)
          (sync_run error count false ∷ alert_unless dry (sync_failure e))

-- The summary is that of the plan.
abbrev pub HasPlan : Option ChangePlanSummary → Option ChangePlan → Type 0
HasPlan summary none = ⊥
HasPlan summary (some plan) = summary ≡ some plan.summary

-- What the number of services and the summary are, by the final status, from the services and the plan
-- that the state keeps: nothing is counted before an inventory, and there is no summary before a plan.
abbrev pub Numbers :
    CycleStatus → ℕ → Option ChangePlanSummary → List Service → Option ChangePlan → Type 0
Numbers waiting_for_token n summary services plan = (n ≡ 0) × (summary ≡ none)
Numbers waiting_for_domain n summary services plan = (n ≡ 0) × (summary ≡ none)
Numbers docker_degraded n summary services plan = (n ≡ 0) × (summary ≡ none)
Numbers no_account n summary services plan = (n ≡ length services) × (summary ≡ none)
Numbers (zone_missing domain) n summary services plan = (n ≡ length services) × (summary ≡ none)
Numbers provisioning_required n summary services plan = (n ≡ length services) × (summary ≡ none)
Numbers (sync_error e) n summary services plan =
    (n ≡ length services) × ((summary ≡ none) ⊎ HasPlan summary plan)
Numbers syncing n summary services plan = ⊥
Numbers _ n summary services plan = (n ≡ length services) × HasPlan summary plan

length-publish :
    (services : List Service) (target : String) (ingress_failed dns_failed : Bool)
    → length (publish services target ingress_failed dns_failed) ≡ length services
unfolding publish
length-publish [] target ingress_failed dns_failed = refl
length-publish (s ∷ services) target ingress_failed dns_failed =
    ap suc (length-publish services target ingress_failed dns_failed)

-- The numbers that a cycle has kept are those of its state.
abbrev pub Numbered : {W : Type 0} → CycleStatus → Cycle W → Type 0
Numbered status c =
    Numbers status c.services_count c.plan_summary c.state.discovered_services
      c.state.last_change_plan

module _ (env : Environment) (tools : Tools) (settings : CycleSettings) (moment : Moment)
    (told : List (Report CycleStatus)) where
  -- What was loud before, and what the cycle adds.
  pub record Tells (c : Now env tools settings) : Type 0 where
    pub new : List (Report CycleStatus)
    pub tale : Tale settings.dry_run c.services_count c.state.status new
    pub grown : loud c.reports ≡ told ++ new
    pub numbers : Numbered c.state.status c

  abbrev pub Good : End env tools settings → Type 0
  Good e = Tells (handle env tools settings moment e)

  -- Nothing was loud so far, after an inventory of `count` services and before the plan.
  abbrev pub Ready : ℕ → Now env tools settings → Type 0
  Ready count c =
      (loud c.reports ≡ told)
      × ((c.services_count ≡ count)
          × ((length c.state.discovered_services ≡ count) × (c.plan_summary ≡ none)))

  -- Nothing was loud so far, after the plan.
  abbrev Planned : ℕ → Now env tools settings → Type 0
  Planned count c =
      (loud c.reports ≡ told)
      × ((c.services_count ≡ count)
          × ((length c.state.discovered_services ≡ count)
              × HasPlan c.plan_summary c.state.last_change_plan))

  -- A part that goes on is good whenever the cycle was ready.
  abbrev pub Keeping : ℕ → (Now env tools settings → End env tools settings) → Type 0
  Keeping count k = (c : Now env tools settings) → Ready count c → Good (k c)

  pub stop-Good :
      (status : CycleStatus) (reports : List (Report CycleStatus))
      → is_early status ≡ true
      → IsQuiet reports
      → (c : Now env tools settings) → loud c.reports ≡ told
      → Numbered status c
      → Good (stop env tools settings status reports c)
  unfolding stop handle
  stop-Good status reports early quiet c h counted = record {
    numbers = counted;
    new = [];
    tale = ended status early;
    grown = said told c.reports reports h quiet ∙ sym (append-nil told);
  }

  pub raised-Good :
      (e : String) (c : Now env tools settings)
      → loud c.reports ≡ told
      → Numbered (sync_error e) c
      → Good (raised e c)
  unfolding handle
  raised-Good e c h counted = record {
    numbers = counted;
    new = sync_run error c.services_count false ∷ alert_unless settings.dry_run (sync_failure e);
    tale = broke e;
    grown = told_more told c.reports _ _ h (
        ap (λ rest. sync_run error c.services_count false ∷ rest)
          (alert_unless-loud settings.dry_run (sync_failure e)));
  }

  guarded-Good :
      (e : GuardError) (c : Now env tools settings)
      → loud c.reports ≡ told
      → Numbered guard_tripped c
      → Good (guarded e c)
  unfolding handle
  guarded-Good e c h counted = record {
    numbers = counted;
    new = _;
    tale = stopped _ e;
    grown = told_more told c.reports _ _ h (
        ap (λ rest. sync_run blocked c.services_count true ∷ rest)
          (alert_unless-loud settings.dry_run _));
  }

  -- The end of a run that was executed.
  record Ending (count : ℕ) (status : CycleStatus) : Type 0 where
    adds : List (Report CycleStatus)
    ending : Tale settings.dry_run count status adds
    planned :
        (n : ℕ) (summary : Option ChangePlanSummary) (services : List Service)
        (plan : Option ChangePlan)
        → n ≡ length services
        → HasPlan summary plan
        → Numbers status n summary services plan
    same :
        loud (
          outcome_reports env tools settings moment status count
          ++ sync_run (result_of status) count false ∷ [])
        ≡ adds

  active-Ending : (count : ℕ) → Ending count active
  unfolding outcome_reports
  active-Ending count = record {
    adds = sync_run success count false ∷ [];
    ending = went_well;
    planned = λ n summary services plan h k. (h, k);
    same = refl;
  }

  degraded-Ending : (count : ℕ) → Ending count degraded_sync
  unfolding outcome_reports
  degraded-Ending count =
      let a = sync_degraded count in
      record {
        adds = alert_unless settings.dry_run a ++ sync_run degraded count false ∷ [];
        ending = went_badly;
        planned = λ n summary services plan h k. (h, k);
        same =
            loud-append (alert_unless settings.dry_run a) (sync_run degraded count false ∷ [])
            ∙ rw (alert_unless-loud settings.dry_run a) refl;
      }

  if-Ending : (b : Bool) (count : ℕ) → Ending count (if b then degraded_sync else active)
  if-Ending true count = degraded-Ending count
  if-Ending false count = active-Ending count

  status_after-Ending :
      (count : ℕ) (ingress_failed dns_failed : Bool) (services : List Service)
      → Ending count (status_after env tools settings moment ingress_failed dns_failed services)
  unfolding status_after
  status_after-Ending count ingress_failed dns_failed services = if-Ending _ count

  finish-Good :
      (args : PlanArgs) (plan : ChangePlan) (services : List Service) (r : RunState env.World)
      (c : Now env tools settings)
      → Planned (length services) c
      → Good (finish env tools settings moment args plan services r c)
  unfolding finish handle
  finish-Good args plan services r c h =
      let ingress_failed = has_failed Resource.ingress r.operations in
      let dns_failed = has_failed Resource.dns_resource r.operations in
      let end =
        status_after-Ending c.services_count ingress_failed dns_failed
          (publish services args.remote.tunnel_target ingress_failed dns_failed) in
      record {
        new = end.adds;
        tale = end.ending;
        numbers =
            end.planned _ _ _ _
              (h.1.0
                ∙ sym (length-publish services args.remote.tunnel_target ingress_failed dns_failed))
              h.1.1.1;
        grown =
            told_after told c.reports
              (execution r.recorded r.log
                ∷ preserved_lines args.dns_delete_grace_seconds args.now _)
              _ end.adds h.0
              (append-IsQuiet (execution r.recorded r.log ∷ []) _ (record { quiet = refl })
                (preserved_lines-IsQuiet args.dns_delete_grace_seconds args.now _))
              end.same;
      }

  on_executed-Good :
      (args : PlanArgs) (plan : ChangePlan) (services : List Service) (c : Now env tools settings)
      (o : Outcome env.World)
      → Planned (length services) c
      → Good (on_executed env tools settings moment args plan services c o)
  unfolding on_executed
  on_executed-Good args plan services c (Outcome.returned r) h =
      finish-Good args plan services r c h
  on_executed-Good args plan services c (Outcome.raised_guard e r) h =
      guarded-Good e _
        (said told c.reports (execution r.recorded r.log ∷ []) h.0 (record { quiet = refl }))
        (h.1.0 ∙ sym h.1.1.0, h.1.1.1)
  on_executed-Good args plan services c (Outcome.raised_mutation e r) h =
      raised-Good e _
        (said told c.reports (execution r.recorded r.log ∷ []) h.0 (record { quiet = refl }))
        (h.1.0 ∙ sym h.1.1.0, inr h.1.1.1)

  pub if-Good :
      (b : Bool) (e f : End env tools settings) → Good e → Good f → Good (if b then e else f)
  if-Good true e f h k = h
  if-Good false e f h k = k

  pub known-Good :
      (b : Bool) (e f : End env tools settings)
      → (b ≡ true → Good e)
      → (b ≡ false → Good f)
      → Good (if b then e else f)
  known-Good true e f h k = h refl
  known-Good false e f h k = k refl

  pub carry_out-Good :
      (account : String) (config : TunnelConfig) (args : PlanArgs) (services : List Service)
      (count : ℕ)
      → length services ≡ count
      → Keeping count (carry_out env tools settings moment account config args services)
  unfolding carry_out execute_plan
  carry_out-Good account config args services count same c h =
      let plan = compute_change_plan args in
      let planned = said told c.reports _ h.0 (planned-IsQuiet args plan) in
      if-Good settings.dry_run _ _
        (stop-Good dry_synced (dry_run_reports plan) refl (dry_run_reports-IsQuiet plan) _ planned
          (h.1.0 ∙ sym h.1.1.0, refl))
        (on_executed-Good args plan services _ _
          (planned, (h.1.0 ∙ sym same, (h.1.1.0 ∙ sym same, refl))))

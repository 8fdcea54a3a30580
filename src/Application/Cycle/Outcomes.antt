-- ===== src/Application/Cycle/Outcomes.antt =====
-- tunnel_sync/application/sync.py: how a cycle is counted, recorded and alerted of.
use cf_docker_tunnel_sync.Base.{
  ℕ, Bool, true, false, none, List, [], ◌∷◌, ◌++◌, ◌≡◌, refl, ap, ◌∙◌, map, if◌then◌else◌,
}
use mathlib.Core.List.{append_assoc}
use cf_docker_tunnel_sync.Base.Lists.{length, length-map}
use cf_docker_tunnel_sync.Application.Discovery.{Tools, target_text}
use cf_docker_tunnel_sync.Application.Discovery.Loop.{Request, collect, usable}
use cf_docker_tunnel_sync.Application.Discovery.Failures.{collect-unusable}
use cf_docker_tunnel_sync.Application.Reports.{
  Report, overview_metrics, discovered, line, inventory_lines, docker_unreachable, sync_history,
}
use cf_docker_tunnel_sync.Application.Cycle.{
  Environment, CycleSettings, CycleStatus, waiting_for_token, waiting_for_domain, docker_degraded,
  Moment, service_of,
}
use cf_docker_tunnel_sync.Application.Cycle.Telling.{loud, loud-append, said}
use cf_docker_tunnel_sync.Application.Cycle.Stages.{
  Runtime, Now, End, begin, check_settings, Inventory, with_inventory, on_containers, find_services,
}
use cf_docker_tunnel_sync.Application.Cycle.Run.{with_services, synchronize, conclude, run_once}
use cf_docker_tunnel_sync.Application.Cycle.Endings.{
  Tale, Tells, Numbered, Good, Keeping, if-Good, known-Good,
}
use cf_docker_tunnel_sync.Application.Cycle.Passing.{stop-line, with_services-Good}

module _ (env : Environment) (tools : Tools) (settings : CycleSettings) (moment : Moment)
    (told : List (Report CycleStatus)) where
  -- Nothing was loud or counted so far.
  abbrev Fresh : Now env tools settings → Type 0
  Fresh c = (loud c.reports ≡ told) × ((c.services_count ≡ 0) × (c.plan_summary ≡ none))

  abbrev Starting : (Now env tools settings → End env tools settings) → Type 0
  Starting k = (c : Now env tools settings) → Fresh c → Good env tools settings moment told (k c)

  check_settings-Good :
      (k : Now env tools settings → End env tools settings)
      → Starting k
      → Starting (check_settings env tools settings k)
  unfolding check_settings
  check_settings-Good k h c e =
      if-Good env tools settings moment told _ _ _
        (stop-line env tools settings moment told 0 waiting_for_token _ c refl e.0 e.1)
        (if-Good env tools settings moment told _ _ _
          (stop-line env tools settings moment told 0 waiting_for_domain _ c refl e.0 e.1) (h c e))

  on_containers-Good :
      (k : Inventory env tools settings → Now env tools settings → End env tools settings)
      → ((i : Inventory env tools settings) (n : ℕ)
          → length (map (service_of tools) i.items) ≡ n
          → Keeping env tools settings moment told n (k i))
      → (c : Now env tools settings) (a : env.World × Request) → Fresh c
      → Good env tools settings moment told (on_containers env tools settings k c a)
  unfolding on_containers with_inventory
  on_containers-Good k h c (w, request) e =
      let r = collect tools settings.discovery c.state.deprecations_warned request in
      let noted = said told c.reports (inventory_lines r.log ∷ []) e.0 (record { quiet = refl }) in
      let names = map (λ s. (s.hostname, target_text tools s.service)) r.services in
      let found = length-map (service_of tools) r.services in
      known-Good env tools settings moment told (usable r) _ _
        (λ u. h _ (length r.services) found _ (
          said told (c.reports ++ inventory_lines r.log ∷ []) (line (discovered names) ∷ []) noted
              (record { quiet = refl }),
          (refl, (found, e.1.1)),
        ))
        (λ u.
          stop-line env tools settings moment told 0 docker_degraded docker_unreachable _ refl noted
            (
              ap length
                  (collect-unusable tools settings.discovery c.state.deprecations_warned request u),
              e.1.1,
            ))

  synchronize-Good : Starting (synchronize env tools settings moment)
  unfolding synchronize find_services
  synchronize-Good = check_settings-Good _ (λ c e. on_containers-Good _ carried c _ e)
    where
      carried :
          (i : Inventory env tools settings) (n : ℕ)
          → length (map (service_of tools) i.items) ≡ n
          → Keeping env tools settings moment told n (with_services env tools settings moment i)
      carried i n same = with_services-Good env tools settings moment told n i same

-- The alerts, the counted run and the entry of the history that a cycle adds.
pub record Recorded (env : Environment) (tools : Tools) (settings : CycleSettings) (moment : Moment)
    (before after : Now env tools settings) : Type 0 where
  pub new : List (Report CycleStatus)
  pub tale : Tale settings.dry_run after.services_count after.state.status new
  pub numbers : Numbered after.state.status after
  pub grown :
      loud after.reports
      ≡ loud before.reports
        ++ (new ++ sync_history after.state.status after.services_count after.plan_summary ∷ [])

module _ (env : Environment) (tools : Tools) (settings : CycleSettings) (moment : Moment) where
  conclude-Recorded :
      (before c : Now env tools settings)
      → Tells env tools settings moment (loud before.reports) c
      → Recorded env tools settings moment before (conclude env tools settings moment c)
  unfolding conclude
  conclude-Recorded before c t =
      let entry = sync_history c.state.status c.services_count c.plan_summary in
      record {
        new = t.new;
        tale = t.tale;
        numbers = t.numbers;
        grown =
            loud-append c.reports (entry ∷ overview_metrics ∷ [])
            ∙ ap (λ xs. xs ++ entry ∷ []) t.grown
            ∙ append_assoc (loud before.reports) t.new (entry ∷ []);
      }

  -- A cycle that starts while none is running adds one entry to the history, with its final status, a
  -- number of services and the summary of a plan. The number is 0 if the cycle ended before a usable
  -- inventory, and else that of the services in the state. There is no summary if the cycle ended
  -- early before the plan; a dry run that was planned, a run that was executed and a stop by the guard
  -- have that of the plan in the state; and an error has none or that one. Before the entry, an early
  -- return adds no alert and no counted run; every other end counts one run, with that number and the
  -- result of its status, and alerts of a degraded end, a stop by the guard or an error, unless the run
  -- is dry.
  pub run_once-Recorded :
      (r : Runtime env tools settings)
      → r.running ≡ false
      → Recorded env tools settings moment r.working (run_once env tools settings moment r).working
  unfolding run_once begin
  run_once-Recorded r idle = idle_run r.running _ idle (
      conclude-Recorded r.working _ (
        synchronize-Good env tools settings moment (loud r.working.reports)
          (begin env tools settings r.working) (refl, (refl, refl))))
    where
      idle_run :
          (b : Bool) (s : Runtime env tools settings)
          → b ≡ false
          → Recorded env tools settings moment r.working s.working
          → Recorded env tools settings moment r.working (if b then r else s).working
      idle_run true s e h = absurd (cc e)
      idle_run false s e h = h

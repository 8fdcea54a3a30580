-- ===== src/Application/Cycle/Run.antt =====
-- tunnel_sync/application/sync.py: `run_once` as a whole, with its handlers and the publication.
use cf_docker_tunnel_sync.Base.{
  ℕ, String, ◌<>◌, true, false, Option, none, some, List, [], ◌∷◌, ◌++◌, map, if◌then◌else◌,
}
use cf_docker_tunnel_sync.Base.Dict.{Dict, update, values}
use cf_docker_tunnel_sync.Base.Json.{Json}
use cf_docker_tunnel_sync.Domain.Models.{ChangePlan, DnsRecord}
use cf_docker_tunnel_sync.Application.Ports.{TunnelConfig}
use cf_docker_tunnel_sync.Application.Fetching.{Reader, fetch_dns}
use cf_docker_tunnel_sync.Application.Discovery.{Tools, ServiceItem}
use cf_docker_tunnel_sync.Application.Cycle.{
  Environment, CycleSettings, guard_tripped, sync_error, Moment, returned, guarded, raised,
  service_of, say,
}
use cf_docker_tunnel_sync.Application.Reports.{
  line, event, sync_run, sync_history, overview_metrics, guard_line, error_line, guard_event,
  error_event, safety_guard_tripped, sync_failure, blocked, error, alert_unless,
}
use cf_docker_tunnel_sync.Application.Policy.{planned_deletions}
use cf_docker_tunnel_sync.Application.Cycle.Planning.{
  is_refused, validated, remote_state, plan_args,
}
use cf_docker_tunnel_sync.Application.Cycle.Stages.{
  Now, End, Runtime, at, begin, check_settings, Inventory, find_services, find_zone, find_account,
  find_tunnel, activate_tunnel, read_configuration,
}
use cf_docker_tunnel_sync.Application.Cycle.Finishing.{carry_out, drop_lines}

-- `planned_deletions`, of the plan that was made
abbrev guarded_deletions : Option ChangePlan → ℕ
guarded_deletions none = 0
guarded_deletions (some plan) = planned_deletions plan

module _ (env : Environment) (tools : Tools) (settings : CycleSettings) (moment : Moment) where
  abbrev file_tombstones : Dict ℕ → Option (Dict Json) → Dict ℕ
  file_tombstones tombstones none = tombstones
  file_tombstones tombstones (some entries) = update tombstones (validated entries)

  unfoldable pub on_file :
      (Dict ℕ → Now env tools settings → End env tools settings)
      → Now env tools settings
      → env.World × Option (Dict Json)
      → End env tools settings
  on_file k c (w, entries) =
      k (file_tombstones c.state.tombstones entries) (at env tools settings w c)

  -- The tombstones of the state, with those of the file.
  unfoldable pub load_tombstones :
      (Dict ℕ → Now env tools settings → End env tools settings)
      → Now env tools settings
      → End env tools settings
  load_tombstones k c =
      if settings.persistence_enabled
      then on_file k c (env.load_file c.world)
      else k c.state.tombstones c

  -- `int` may raise on the setting MAX_DELETIONS_PER_RUN.
  unfoldable pub check_deletions :
      (Now env tools settings → End env tools settings)
      → Now env tools settings
      → End env tools settings
  check_deletions k c =
      if is_refused settings.max_deletions_per_run
      then raised "invalid literal for int()" c
      else k c

  abbrev reader : String → Reader
  reader zone_id = record { World = env.World; read = λ w query. env.read_records w zone_id query }

  unfoldable pub on_records :
      (List DnsRecord → Now env tools settings → End env tools settings)
      → Now env tools settings
      → env.World × Option (Dict DnsRecord)
      → End env tools settings
  on_records k c (w, none) = raised "DNS records could not be read" (at env tools settings w c)
  on_records k c (w, some records) = k (values records) (at env tools settings w c)

  unfoldable pub fetch_records :
      String
      → String
      → List ServiceItem
      → (List DnsRecord → Now env tools settings → End env tools settings)
      → Now env tools settings
      → End env tools settings
  fetch_records zone_id target items k c =
      on_records k c (fetch_dns (reader zone_id) target (map (λ s. some s.hostname) items) c.world)

  -- From the records to the end.
  unfoldable pub plan_and_execute :
      Inventory env tools settings
      → String
      → String
      → TunnelConfig
      → String
      → List DnsRecord
      → Now env tools settings
      → End env tools settings
  plan_and_execute inventory account zone_id config tunnel records c =
      check_deletions
        (load_tombstones (λ tombstones.
          carry_out env tools settings moment account config
            (plan_args tools settings moment inventory.known c.state.docker_connected
              inventory.items inventory.containers
              (remote_state settings zone_id tunnel config records) tombstones)
            (map (service_of tools) inventory.items)))
        (say (drop_lines inventory.known inventory.items) c)

  unfoldable pub with_tunnel :
      Inventory env tools settings
      → String
      → String
      → String
      → Now env tools settings
      → End env tools settings
  with_tunnel inventory account zone_id tunnel = activate_tunnel env tools settings account tunnel (
      read_configuration env tools settings account tunnel (λ config.
        fetch_records zone_id (tunnel <> ".cfargotunnel.com") inventory.items
          (plan_and_execute inventory account zone_id config tunnel)))

  unfoldable pub with_services :
      Inventory env tools settings → Now env tools settings → End env tools settings
  with_services inventory = find_zone env tools settings (λ zone.
      find_account env tools settings zone
        (λ account. find_tunnel env tools settings account (with_tunnel inventory account zone.id)))

  -- The body of the `try` block.
  unfoldable pub synchronize : Now env tools settings → End env tools settings
  synchronize = check_settings env tools settings (find_services env tools settings with_services)

  -- The handlers of exceptions.
  unfoldable pub handle : End env tools settings → Now env tools settings
  handle (returned c) = c
  handle (guarded e c) = record c {
    state = record (c.state) { status = guard_tripped; safety_guard_tripped = true };
    reports =
        c.reports
        ++ line (guard_line e)
          ∷ event (guard_event (guarded_deletions c.state.last_change_plan))
          ∷ sync_run blocked c.services_count true
          ∷ alert_unless settings.dry_run
              (safety_guard_tripped (guarded_deletions c.state.last_change_plan) e);
  }
  handle (raised e c) = record c {
    state = record (c.state) { status = sync_error e };
    reports =
        c.reports
        ++ line (error_line e)
          ∷ event (error_event e)
          ∷ sync_run error c.services_count false
          ∷ alert_unless settings.dry_run (sync_failure e);
  }

  -- The reports of the `finally` block.
  unfoldable pub conclude : Now env tools settings → Now env tools settings
  conclude c =
      say (sync_history c.state.status c.services_count c.plan_summary ∷ overview_metrics ∷ []) c

  -- `run_once`
  unfoldable pub run_once : Runtime env tools settings → Runtime env tools settings
  run_once r =
      let c = conclude (handle (synchronize (begin env tools settings r.working))) in
      if r.running then r else record { working = c; published = c.state; running = false }

-- ===== src/Application/Cycle/Aborts.antt =====
-- tunnel_sync/application/sync.py: a cycle without a usable inventory.
use cf_docker_tunnel_sync.Base.{false, ◌≡◌, ◌⊎◌}
use cf_docker_tunnel_sync.Application.Discovery.{Tools}
use cf_docker_tunnel_sync.Application.Cycle.{Environment, CycleSettings, Moment}
use cf_docker_tunnel_sync.Application.Cycle.Stages.{Runtime, Now, End}
use cf_docker_tunnel_sync.Application.Cycle.Run.{handle, conclude}

-- After the request for the containers at most, nothing was sent; the state of the tunnel, the services
-- and the tombstones is what it was, and it is published.
pub record Aborted (env : Environment) (tools : Tools) (settings : CycleSettings) (moment : Moment)
    (before after : Runtime env tools settings) : Type 0 where
  pub world_same :
      (after.working.world ≡ before.working.world)
      ⊎ (after.working.world ≡ (env.list_containers before.working.world).0)
  pub tombstones_same : after.working.state.tombstones ≡ before.working.state.tombstones
  pub plan_same : after.working.state.last_change_plan ≡ before.working.state.last_change_plan
  pub services_same :
      after.working.state.discovered_services ≡ before.working.state.discovered_services
  pub records_same : after.working.state.dns_records ≡ before.working.state.dns_records
  pub tunnel_same : after.working.state.tunnel_id ≡ before.working.state.tunnel_id
  pub published_same : after.published ≡ after.working.state

module _ (env : Environment) (tools : Tools) (settings : CycleSettings) (moment : Moment) where
  abbrev after : Now env tools settings → Runtime env tools settings
  after c = record { working = c; published = c.state; running = false }

  module _ (s : Runtime env tools settings) where
    abbrev Aborts : End env tools settings → Type 0
    Aborts e =
        Aborted env tools settings moment s
          (after (conclude env tools settings moment (handle env tools settings moment e)))

-- ===== src/Application/Cycle/Drops.antt =====
-- tunnel_sync/application/sync.py: when all containers vanish at once.
use cf_docker_tunnel_sync.Base.{
  ℕ, ◌+◌, ◌≤◌, String, Bool, true, false, ◌≡◌, inl, inr, some, List, arith,
}
use cf_docker_tunnel_sync.Base.Lists.{All, All-map}
use cf_docker_tunnel_sync.Base.Dict.{Dict, lookup}
use cf_docker_tunnel_sync.Domain.Models.{is_legacy, DnsAction, RemoteState}
use cf_docker_tunnel_sync.Domain.Plan.{PlanArgs}
use cf_docker_tunnel_sync.Domain.Plan.Due.{IsDue}
use cf_docker_tunnel_sync.Domain.Planner.{compute_change_plan}
use cf_docker_tunnel_sync.Domain.Planner.Safety.{compute_change_plan-DeletesOwned}
use cf_docker_tunnel_sync.Application.Discovery.{Tools, ServiceItem, ContainerEntry}
use cf_docker_tunnel_sync.Application.Cycle.{CycleSettings, Moment}
use cf_docker_tunnel_sync.Application.Cycle.Planning.{is_drop, policy_of, plan_args}

-- The host has a tombstone that is at least 300 seconds old.
pub record WaitedLong (tombstones : Dict ℕ) (now : ℕ) (host : String) : Type 0 where
  pub since : ℕ
  pub held : lookup host tombstones ≡ some since
  pub waited : since + 300 ≤ now

module _ (tools : Tools) (settings : CycleSettings) (moment : Moment) (known : ℕ) (docker_ok : Bool)
    (items : List ServiceItem) (containers : List ContainerEntry) (remote : RemoteState)
    (tombstones : Dict ℕ) where
  abbrev pub args : PlanArgs
  args = plan_args tools settings moment known docker_ok items containers remote tombstones

  due-WaitedLong :
      (host : String)
      → is_drop known items ≡ true
      → IsDue args host
      → WaitedLong tombstones moment.now host
  unfolding plan_args
  due-WaitedLong host drop (inl now) = absurd (cc (simp drop at now))
  due-WaitedLong host drop (inr (inl none_left)) = absurd (omega (arith, simp drop at none_left))
  due-WaitedLong host drop (inr (inr (ts, held, waited))) = record {
    since = ts;
    held = held;
    waited = omega (arith, simp drop at waited);
  }

  -- When the cycle before knew at least two services and none is found now, then, under every policy
  -- but "legacy_unrestricted" and whatever the settings of the cleanup and the grace period are, a
  -- record that the plan deletes has a tombstone that is at least 300 seconds old.
  pub plan_args-WaitedLong :
      is_drop known items ≡ true
      → is_legacy (policy_of settings) ≡ false
      → All
          (λ c. c.action ≡ DnsAction.delete → WaitedLong tombstones moment.now c.hostname)
          (compute_change_plan args).dns_changes
  unfolding plan_args
  plan_args-WaitedLong drop plain =
      All-map (λ c safe e. due-WaitedLong c.hostname drop (safe e).due) _
        (compute_change_plan-DeletesOwned args plain)

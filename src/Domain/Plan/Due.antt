-- ===== src/Domain/Plan/Due.antt =====
-- When a managed route or record is deleted, and when it gets a tombstone.
use cf_docker_tunnel_sync.Base.{ℕ, ◌+◌, ◌≤◌, String, true, false, ◌≡◌, ◌≢◌, ◌⊎◌, none, some, arith}
use cf_docker_tunnel_sync.Base.Dict.{lookup}
use cf_docker_tunnel_sync.Domain.Plan.{
  PlanArgs, is_discovered, cleanup, tombstone_age, at_once, start_tombstone, expired,
}

-- The time of the host has come: there is no grace, or its tombstone is as old as the grace period.
abbrev pub IsDue : PlanArgs → String → Type 0
IsDue args host =
    (args.immediate_cleanup ≡ true)
    ⊎ (args.dns_delete_grace_seconds ≡ 0)
    ⊎ ((ts : ℕ) × (lookup host args.tombstones ≡ some ts)
        × (ts + args.dns_delete_grace_seconds ≤ args.now))

pub cleanup-at_once :
    (args : PlanArgs) (host : String) → cleanup args host ≡ at_once → IsDue args host
unfolding cleanup tombstone_age
cleanup-at_once args host h = ground arith

pub cleanup-expired :
    (args : PlanArgs) (host : String) → cleanup args host ≡ expired → IsDue args host
unfolding cleanup tombstone_age
cleanup-expired args host h = ground arith

-- A tombstone is set for a host that has none, while there is a grace period.
abbrev pub IsFresh : PlanArgs → String → Type 0
IsFresh args host =
    (args.immediate_cleanup ≡ false)
    × (args.dns_delete_grace_seconds ≢ 0)
    × (lookup host args.tombstones ≡ none)

pub cleanup-start :
    (args : PlanArgs) (host : String) → cleanup args host ≡ start_tombstone → IsFresh args host
unfolding cleanup tombstone_age
cleanup-start args host h = ground arith

-- A tombstone that is set now, for a host that was not discovered.
abbrev pub SetsFresh : PlanArgs → String → ℕ → Type 0
SetsFresh args host t = (t ≡ args.now) × (is_discovered args host ≡ false) × IsFresh args host

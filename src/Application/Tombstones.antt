-- ===== src/Application/Tombstones.antt =====
-- tunnel_sync/application/sync.py: what `SyncService.run_once` does with the tombstones of its state.
-- Their optional file is part of the cycle in Cycle.
pub mod Grace
use cf_docker_tunnel_sync.Base.{ℕ, String, Bool, ◌&&◌, List, [], ◌∷◌, map, if◌then◌else◌}
use cf_docker_tunnel_sync.Base.Lists.{contains}
use cf_docker_tunnel_sync.Base.Dict.{Dict, insert, erase, contains_key}
use cf_docker_tunnel_sync.Domain.Plan.{PlanArgs}
use cf_docker_tunnel_sync.Domain.Planner.{compute_change_plan}

-- `for host in plan.tombstones_to_clear`, with the hostnames of the snapshot
unfoldable pub clear_recovered : List String → List String → Dict ℕ → Dict ℕ
clear_recovered [] origins tombstones = tombstones
clear_recovered (host ∷ hosts) origins tombstones = clear_recovered hosts origins (
    if contains_key host tombstones && contains origins host
    then erase host tombstones
    else tombstones)

-- `for host, ts in plan.tombstones_to_set.items()`
unfoldable pub set_missing : Dict ℕ → Dict ℕ → Dict ℕ
set_missing [] tombstones = tombstones
set_missing ((host, ts) ∷ to_set) tombstones =
    set_missing to_set
      (if contains_key host tombstones then tombstones else insert host ts tombstones)

-- `tombstones.pop(host, None)` for each host
unfoldable pub pop_all : List String → Dict ℕ → Dict ℕ
pop_all [] tombstones = tombstones
pop_all (host ∷ hosts) tombstones = pop_all hosts (erase host tombstones)

-- The tombstones after the plan, before it is executed.
unfoldable pub planned_tombstones : PlanArgs → Dict ℕ
planned_tombstones args =
    let plan = compute_change_plan args in
    set_missing plan.tombstones_to_set (
      clear_recovered plan.tombstones_to_clear (map (λ o. o.hostname) args.snapshot.origins)
        args.tombstones)

-- The tombstones after the cycle; `executed` says that the plan was carried out, not only shown, and
-- that no operation on ingress rules or DNS records failed.
unfoldable pub next_tombstones : Bool → PlanArgs → Dict ℕ
next_tombstones executed args =
    let planned = planned_tombstones args in
    if executed then pop_all (compute_change_plan args).tombstones_to_clear planned else planned

-- A cycle that reaches the planner: what it reads, but for the tombstones, and how it ends.
pub record Cycle : Type 0 where
  pub read : PlanArgs
  pub executed : Bool

abbrev pub args_at : PlanArgs → Dict ℕ → PlanArgs
args_at args tombstones = record args { tombstones = tombstones }

unfoldable pub run_cycles : List Cycle → Dict ℕ → Dict ℕ
run_cycles [] tombstones = tombstones
run_cycles (c ∷ cs) tombstones =
    run_cycles cs (next_tombstones c.executed (args_at c.read tombstones))

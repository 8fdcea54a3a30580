-- ===== src/Tests/Executing.antt =====
-- `execute` over a log of calls in which the deletions fail.
use cf_docker_tunnel_sync.Base.{
  ℕ, String, true, false, arith, refl, inr, Option, none, some, List, [], ◌∷◌, ◌++◌,
}
use cf_docker_tunnel_sync.Domain.Models.{ChangePlan, ChangePlanSummary}
use cf_docker_tunnel_sync.Domain.Planner.{compute_change_plan, reconcile_plan}
use cf_docker_tunnel_sync.Application.Ports.{Call, Method, delete, Writer}
use cf_docker_tunnel_sync.Application.Policy.{DeletionPolicy, planned_deletions, validate}
use cf_docker_tunnel_sync.Application.Executor.{RunState, execute}
use cf_docker_tunnel_sync.Application.Executor.Guard.{StoppedAtGuard, execute-StoppedAtGuard}
use cf_docker_tunnel_sync.Application.Executor.Trace.{
  Ran, planned_calls, planned_reports, execute-Ran,
}
use cf_docker_tunnel_sync.Application.Executor.Safety.{RanSafely, execute-RanSafely}
use cf_docker_tunnel_sync.Tests.Data.{live}

abbrev answer : Method → Option String
answer delete = some "HTTP 500"
answer _ = none

abbrev journal : Writer
journal = record { World = List Call; mutate = λ w call. (w ++ call ∷ [], answer call.method) }

abbrev start : RunState (List Call)
start = record { world = []; operations = []; recorded = []; log = [] }

abbrev policy : DeletionPolicy
policy = record { maximum = 3; ratio = some (1, 2); allow_mass = false }

abbrev mass : DeletionPolicy
mass = record policy { allow_mass = true }

abbrev summary : ChangePlanSummary
summary = record {
  total_services_discovered = 5;
  ingress_creates = 0;
  ingress_updates = 0;
  ingress_deletes = 1;
  dns_creates = 0;
  dns_updates = 0;
  dns_deletes = 4;
  dns_protected = 0;
  unmanaged_skipped = 0;
  has_mutations = true;
  is_destructive = true;
}

abbrev destructive : ChangePlan
destructive = record {
  plan_id = "plan-2";
  timestamp = 0;
  tunnel_id = "t1";
  zone_id = "z1";
  dry_run = false;
  ingress_changes = [];
  dns_changes = [];
  final_ingress_rules = [];
  tombstones_to_set = [];
  tombstones_to_clear = [];
  summary = summary;
}

execute-StoppedAtGuard_example :
    StoppedAtGuard journal start (execute journal policy false false "a1" none destructive start)
execute-StoppedAtGuard_example =
    execute-StoppedAtGuard journal policy false false "a1" none destructive start refl refl
      (inr (omega arith))

abbrev deletions : ℕ
deletions = planned_deletions (compute_change_plan live)

execute-Ran_example :
    Ran journal
      (planned_calls "a1" none (compute_change_plan live))
      (planned_reports none (compute_change_plan live))
      start
      (execute journal mass false false "a1" none (compute_change_plan live) start)
unfolding validate compute_change_plan reconcile_plan
execute-Ran_example =
    execute-Ran journal mass false "a1" none (compute_change_plan live) deletions start refl refl

execute-RanSafely_example :
    RanSafely journal live start
      (execute journal mass false false "a1" none (compute_change_plan live) start)
unfolding validate compute_change_plan reconcile_plan
execute-RanSafely_example =
    execute-RanSafely journal live mass false "a1" none deletions start refl refl refl

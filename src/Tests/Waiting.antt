-- ===== src/Tests/Waiting.antt =====
-- The grace period of a stale record, over two cycles.
use cf_docker_tunnel_sync.Base.{false, true, ◌≡◌, refl, [], ◌∷◌, arith}
use cf_docker_tunnel_sync.Base.Lists.{All}
use cf_docker_tunnel_sync.Domain.Models.{DnsAction, adopt_and_manage}
use cf_docker_tunnel_sync.Domain.Planner.{compute_change_plan}
use cf_docker_tunnel_sync.Application.Tombstones.{Cycle, args_at, run_cycles}
use cf_docker_tunnel_sync.Application.Tombstones.Grace.{WasMissing, run_cycles-WasMissing}
use cf_docker_tunnel_sync.Tests.Data.{args_with, owned_rec, live}

abbrev first : Cycle
first = record {
  read = args_with (owned_rec ∷ []) adopt_and_manage true false 150;
  executed = true;
}

run_cycles-WasMissing_example :
    All
      (λ c. c.action ≡ DnsAction.delete → WasMissing (first ∷ []) live c.hostname)
      (compute_change_plan (args_at live (run_cycles (first ∷ []) []))).dns_changes
run_cycles-WasMissing_example =
    run_cycles-WasMissing (first ∷ []) live refl refl (λ h. absurd (omega (arith, h)))

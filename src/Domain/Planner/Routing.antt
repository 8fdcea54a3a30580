-- ===== src/Domain/Planner/Routing.antt =====
-- The final ingress rules route every discovered host to its origin.
use cf_docker_tunnel_sync.Base.{String, true, false, ◌≡◌, ap, ◌∙◌, some, [], ◌++◌, arith}
use cf_docker_tunnel_sync.Base.Lists.{All, All-append, All-map}
use cf_docker_tunnel_sync.Base.Dict.{lookup}
use cf_docker_tunnel_sync.Domain.Models.{DiscoveredOrigin}
use cf_docker_tunnel_sync.Domain.Ingress.{hostname_of, by_hostname}
use cf_docker_tunnel_sync.Domain.Ingress.Roots.{IsRoot}
use cf_docker_tunnel_sync.Domain.Ingress.Serving.{Serves, merge_ingress-Serves}
use cf_docker_tunnel_sync.Domain.Plan.{PlanArgs, active_origins, is_discovered, discovered_hosts}
use cf_docker_tunnel_sync.Domain.Plan.Collect.{All-roots}
use cf_docker_tunnel_sync.Domain.Plan.Discovered.{All-is_discovered, contains-discovered_hosts}
use cf_docker_tunnel_sync.Domain.Planner.{reconcile_plan, compute_change_plan}
use cf_docker_tunnel_sync.Domain.Routes.{desired_rule, active_route, active_routes, missing_routes}
use cf_docker_tunnel_sync.Domain.Plan.Tables.{WellFormed}
use cf_docker_tunnel_sync.Domain.Routes.Roots.{
  active_route-IsRoot, by_hostname-active_routes, by_hostname-others, by_hostname-append,
  missing_routes-Undiscovered,
}

-- If Docker can be read, manual roots are not preserved and the existing rules are dicts with a
-- service, then for each discovered host the first of the final rules that has no hostname or is a
-- root route of this host is a root route of the host with the service and the origin settings of
-- its origin. Rules with a path and rules of other hostnames, wildcards included, may stand before
-- it and are not regarded.
pub compute_change_plan-Serves :
    (args : PlanArgs) (host : String) (origin : DiscoveredOrigin)
    → args.snapshot.docker_ok ≡ true
    → args.preserve_manual_roots ≡ false
    → All WellFormed args.remote.existing_ingress_rules
    → lookup host (active_origins args) ≡ some origin
    → Serves host (desired_rule host origin) (compute_change_plan args).final_ingress_rules
unfolding compute_change_plan reconcile_plan
compute_change_plan-Serves args host origin up managed w found =
    let missing = missing_routes-Undiscovered args w in
    let first = by_hostname (active_routes args).roots [] in
    let others : lookup host (by_hostname (missing_routes args).roots first) ≡ lookup host first =
      by_hostname-others host (missing_routes args).roots first (
        All-map (λ r u e. absurd (ground (arith, ap (is_discovered args) e)))
          (missing_routes args).roots missing) in
    let last : lookup host first ≡ some (desired_rule host origin) =
      unfold active_routes in
      by_hostname-active_routes args managed host origin found (discovered_hosts args) []
        (All-is_discovered args)
      ∙ ground (arith, contains-discovered_hosts args host) in
    simp up (
      merge_ingress-Serves args.remote.existing_ingress_rules
        ((active_routes args).roots ++ (missing_routes args).roots) host (desired_rule host origin)
        (All-append (λ r. IsRoot (hostname_of r) r) (active_routes args).roots
          (missing_routes args).roots
          (unfold active_routes in
            All-roots (active_route args) (λ r. IsRoot (hostname_of r) r)
              (λ h. is_discovered args h ≡ true) (active_route-IsRoot args managed)
              (discovered_hosts args) (All-is_discovered args))
          (All-map (λ r u. u.0) (missing_routes args).roots missing))
        (rw (by_hostname-append (active_routes args).roots (missing_routes args).roots [])
          (others ∙ last)))

-- ===== src/Domain/Plan/Discovered.antt =====
-- The loops over the discovered hosts visit discovered hosts.
use cf_docker_tunnel_sync.Base.{String, true, ◌≡◌, sym, ◌∙◌}
use cf_docker_tunnel_sync.Base.Lists.{All, All-map, All-contains, contains}
use cf_docker_tunnel_sync.Base.Dict.{keys, contains-keys}
use cf_docker_tunnel_sync.Base.Sort.{contains-sorted}
use cf_docker_tunnel_sync.Domain.Plan.{PlanArgs, active_origins, is_discovered, discovered_hosts}

pub contains-discovered_hosts :
    (args : PlanArgs) (h : String) → contains (discovered_hosts args) h ≡ is_discovered args h
contains-discovered_hosts args h =
    contains-sorted (keys (active_origins args)) h ∙ contains-keys h (active_origins args)

pub All-is_discovered :
    (args : PlanArgs) → All (λ h. is_discovered args h ≡ true) (discovered_hosts args)
All-is_discovered args =
    All-map (λ h c. sym (contains-discovered_hosts args h) ∙ c) (discovered_hosts args)
      (All-contains (discovered_hosts args))

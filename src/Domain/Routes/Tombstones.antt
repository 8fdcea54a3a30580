-- ===== src/Domain/Routes/Tombstones.antt =====
-- Which tombstones section 4 sets.
use cf_docker_tunnel_sync.Base.{
  ℕ, String, false, ◌≡◌, inl, inr, refl, Option, none, some, Bool-cases, ◌&&◌,
}
use cf_docker_tunnel_sync.Base.Lists.{All, All-trivial}
use cf_docker_tunnel_sync.Base.Dict.{lookup, Entry}
use cf_docker_tunnel_sync.Domain.Models.{DiscoveredOrigin, Rule}
use cf_docker_tunnel_sync.Domain.Plan.{
  PlanArgs, is_discovered, cleanup, Cleanup, at_once, start_tombstone, expired, waiting,
  discovered_hosts, existing_dns, existing_ingress, active_origins, owned_record, manual_record,
}
use cf_docker_tunnel_sync.Domain.Plan.Collect.{All-to_set}
use cf_docker_tunnel_sync.Domain.Plan.Due.{SetsFresh, cleanup-start}
use cf_docker_tunnel_sync.Domain.Routes.{
  managed_route, manual_route, existing_route, origin_route, active_route, cleaned_route,
  unmanaged_route, missing_route, active_routes, missing_routes,
}

abbrev Sets : PlanArgs → String × ℕ → Type 0
Sets args = Entry (SetsFresh args)

existing-Sets :
    (args : PlanArgs) (host : String) (origin : DiscoveredOrigin) (o : Option Rule)
    → All (Sets args) (existing_route args host origin o).to_set
unfolding existing_route manual_route managed_route
existing-Sets args host origin none = tt
existing-Sets args host origin (some existing) =
    elim (Bool-cases
      (args.preserve_manual_roots && manual_record args (lookup host (existing_dns args)))) [
        | inl e ↦ rw e tt
        | inr e ↦ rw e tt
      ]

origin-Sets :
    (args : PlanArgs) (host : String) (o : Option DiscoveredOrigin)
    → All (Sets args) (origin_route args host o).to_set
unfolding origin_route
origin-Sets args host none = tt
origin-Sets args host (some origin) =
    existing-Sets args host origin (lookup host (existing_ingress args))

cleaned-Sets :
    (args : PlanArgs) (host : String) (rule : Rule)
    → is_discovered args host ≡ false
    → (c : Cleanup) → cleanup args host ≡ c
    → All (Sets args) (cleaned_route args host rule c).to_set
unfolding cleaned_route
cleaned-Sets args host rule gone start_tombstone e = ((refl, gone, cleanup-start args host e), tt)
cleaned-Sets args host rule gone at_once e = tt
cleaned-Sets args host rule gone expired e = tt
cleaned-Sets args host rule gone (waiting n) e = tt

missing-Sets :
    (args : PlanArgs) (entry : String × Rule) → All (Sets args) (missing_route args entry).to_set
unfolding missing_route unmanaged_route
missing-Sets args (host, rule) = elim (Bool-cases (is_discovered args host)) [
  | inl e ↦ rw e tt
  | inr gone ↦ rw gone (elim (Bool-cases (owned_record args (lookup host (existing_dns args)))) [
    | inl ours ↦ rw ours (cleaned-Sets args host rule gone (cleanup args host) refl)
    | inr other ↦ rw other tt
  ])
]

pub active_routes-Sets :
    (args : PlanArgs) → All (Entry (SetsFresh args)) (active_routes args).to_set
unfolding active_routes active_route
active_routes-Sets args =
    All-to_set (active_route args) (SetsFresh args) (λ h. Unit {0})
      (λ h _. origin-Sets args h (lookup h (active_origins args))) (discovered_hosts args)
      (All-trivial (discovered_hosts args))

pub missing_routes-Sets :
    (args : PlanArgs) → All (Entry (SetsFresh args)) (missing_routes args).to_set
unfolding missing_routes
missing_routes-Sets args =
    All-to_set (missing_route args) (SetsFresh args) (λ e. Unit {0}) (λ e _. missing-Sets args e)
      (existing_ingress args) (All-trivial (existing_ingress args))

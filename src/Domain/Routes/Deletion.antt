-- ===== src/Domain/Routes/Deletion.antt =====
-- Which routes the loops of sections 3 and 4 delete.
use cf_docker_tunnel_sync.Base.{
  String, true, false, ◌≡◌, ◌≢◌, inl, inr, refl, Option, none, some, ◌++◌, arith, Bool-cases, ◌&&◌,
}
use cf_docker_tunnel_sync.Base.Lists.{All, All-append, All-trivial}
use cf_docker_tunnel_sync.Base.Dict.{lookup}
use cf_docker_tunnel_sync.Domain.Models.{
  DiscoveredOrigin, Rule, IngressAction, PlannedIngressChange,
}
use cf_docker_tunnel_sync.Domain.Plan.{
  PlanArgs, is_discovered, cleanup, Cleanup, at_once, start_tombstone, expired, waiting,
  discovered_hosts, existing_dns, existing_ingress, active_origins, owned_record, manual_record,
}
use cf_docker_tunnel_sync.Domain.Plan.Collect.{All-changes}
use cf_docker_tunnel_sync.Domain.Plan.Due.{IsDue, cleanup-at_once, cleanup-expired}
use cf_docker_tunnel_sync.Domain.Routes.{
  desired_rule, route_action, managed_route, manual_route, existing_route, origin_route,
  active_route, cleaned_route, unmanaged_route, missing_route, active_routes, missing_routes,
}

-- Why a plan deletes a route: the host was not discovered, its DNS record is ours, and its time has
-- come.
pub record RouteDeletion (args : PlanArgs) (c : PlannedIngressChange) : Type 0 where
  pub host : String
  pub named : c.hostname ≡ some host
  pub gone : is_discovered args host ≡ false
  pub ours : owned_record args (lookup host (existing_dns args)) ≡ true
  pub due : IsDue args host

abbrev pub DeletesOwnRoute : PlanArgs → PlannedIngressChange → Type 0
DeletesOwnRoute args c = c.action ≡ IngressAction.delete → RouteDeletion args c

module _ (args : PlanArgs) (host : String) where
  action-keeps :
      (rule : Rule) (o : Option Rule) → (route_action host rule o).action ≢ IngressAction.delete
  unfolding route_action
  action-keeps rule none h = cc
  action-keeps rule (some existing) h = ground arith

  managed-DeletesOwnRoute :
      (origin : DiscoveredOrigin) (o : Option Rule)
      → All (DeletesOwnRoute args) (managed_route args host origin o).changes
  unfolding managed_route
  managed-DeletesOwnRoute origin o = (λ h. absurd (action-keeps (desired_rule host origin) o h), tt)

  existing-DeletesOwnRoute :
      (origin : DiscoveredOrigin) (o : Option Rule)
      → All (DeletesOwnRoute args) (existing_route args host origin o).changes
  unfolding existing_route manual_route
  existing-DeletesOwnRoute origin none = managed-DeletesOwnRoute origin none
  existing-DeletesOwnRoute origin (some existing) =
      elim (Bool-cases
        (args.preserve_manual_roots && manual_record args (lookup host (existing_dns args)))) [
          | inl e ↦ rw e (λ h. cc, tt)
          | inr e ↦ rw e (managed-DeletesOwnRoute origin (some existing))
        ]

  active-DeletesOwnRoute : All (DeletesOwnRoute args) (active_route args host).changes
  unfolding active_route origin_route
  active-DeletesOwnRoute = go (lookup host (active_origins args))
    where
      go :
          (o : Option DiscoveredOrigin)
          → All (DeletesOwnRoute args) (origin_route args host o).changes
      go none = tt
      go (some origin) = existing-DeletesOwnRoute origin (lookup host (existing_ingress args))

  module _ (rule : Rule) (gone : is_discovered args host ≡ false)
      (ours : owned_record args (lookup host (existing_dns args)) ≡ true) where
    cleaned-DeletesOwnRoute :
        (c : Cleanup)
        → cleanup args host ≡ c
        → All (DeletesOwnRoute args) (cleaned_route args host rule c).changes
    unfolding cleaned_route
    cleaned-DeletesOwnRoute at_once e = (
      λ _. record {
        host = host;
        named = refl;
        gone = gone;
        ours = ours;
        due = cleanup-at_once args host e;
      },
      tt,
    )
    cleaned-DeletesOwnRoute start_tombstone e = (λ h. cc, tt)
    cleaned-DeletesOwnRoute expired e = (
      λ _. record {
        host = host;
        named = refl;
        gone = gone;
        ours = ours;
        due = cleanup-expired args host e;
      },
      tt,
    )
    cleaned-DeletesOwnRoute (waiting n) e = (λ h. cc, tt)

missing-DeletesOwnRoute :
    (args : PlanArgs) (entry : String × Rule)
    → All (DeletesOwnRoute args) (missing_route args entry).changes
unfolding missing_route unmanaged_route
missing-DeletesOwnRoute args (host, rule) = elim (Bool-cases (is_discovered args host)) [
  | inl e ↦ rw e tt
  | inr gone ↦ rw gone (elim (Bool-cases (owned_record args (lookup host (existing_dns args)))) [
    | inl ours ↦ rw ours (cleaned-DeletesOwnRoute args host rule gone ours (cleanup args host) refl)
    | inr other ↦ rw other (λ h. cc, tt)
  ])
]

pub routes-DeletesOwnRoute :
    (args : PlanArgs)
    → All (DeletesOwnRoute args) ((active_routes args).changes ++ (missing_routes args).changes)
unfolding active_routes missing_routes
routes-DeletesOwnRoute args =
    All-append (DeletesOwnRoute args) (active_routes args).changes (missing_routes args).changes
      (All-changes (active_route args) (DeletesOwnRoute args) (λ h. Unit {0})
        (λ h _. active-DeletesOwnRoute args h) (discovered_hosts args)
        (All-trivial (discovered_hosts args)))
      (All-changes (missing_route args) (DeletesOwnRoute args) (λ e. Unit {0})
        (λ e _. missing-DeletesOwnRoute args e) (existing_ingress args)
        (All-trivial (existing_ingress args)))

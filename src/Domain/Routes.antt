-- ===== src/Domain/Routes.antt =====
-- tunnel_sync/domain/planner.py, sections 3 and 4: the planned changes of ingress rules.
pub mod Roots
pub mod Deletion
pub mod Tombstones
use cf_docker_tunnel_sync.Base.{
  ℕ, ◌+◌, ◌-◌, String, Bool, true, false, not, ◌&&◌, ◌||◌, Option, none, some, List, [], ◌∷◌, ◌++◌,
  ◌==◌, leb, ◌=ℕ◌, if◌then◌else◌,
}
use cf_docker_tunnel_sync.Base.Dict.{Dict, lookup}
use cf_docker_tunnel_sync.Base.Json.{Json, Fields, json_eq, truthy?}
use cf_docker_tunnel_sync.Domain.Models.{
  DiscoveredOrigin, Rule, IngressAction, IngressReason, PlannedIngressChange, or_default,
}
use cf_docker_tunnel_sync.Domain.Models.IngressReason.{
  manual_root_preserved, rule_matches, new_container, unmanaged_preserved, removed_immediately,
  origin_modified, tombstoned, tombstone_expired, in_tombstone,
}
use cf_docker_tunnel_sync.Domain.Plan.{
  PlanArgs, Output, no_output, collect, active_origins, is_discovered, discovered_hosts,
  existing_ingress, existing_dns, owned_record, manual_record, tombstone_of,
}
use cf_docker_tunnel_sync.Domain.Plan.{Cleanup, at_once, start_tombstone, expired, waiting, cleanup}

-- `rule["originRequest"] = origin.origin_request`, if that is true
unfoldable pub request_entry : Option Fields → Rule
request_entry none = []
request_entry (some Fields.end) = []
request_entry (some fs) = ("originRequest", Json.obj fs) ∷ []

-- The rule of a discovered origin.
unfoldable pub desired_rule : String → DiscoveredOrigin → Rule
desired_rule host origin =
    ("hostname", Json.text host)
    ∷ ("service", Json.text origin.service_target)
    ∷ request_entry origin.origin_request

unfoldable pub or_empty : Option Json → Json
or_empty v = if truthy? v then or_default v Json.null else Json.obj Fields.end

-- `existing_rule.get("service", "")`
abbrev pub service_of : Rule → Json
service_of rule = or_default (lookup "service" rule) (Json.text "")

unfoldable pub same_service : Option Json → Json → Bool
same_service none v = false
same_service (some w) v = json_eq w v

-- The existing rule has the service and the origin settings of the desired rule.
unfoldable pub same_route : Rule → Rule → Bool
same_route existing rule =
    same_service (lookup "service" existing) (service_of rule)
    && json_eq (or_empty (lookup "originRequest" existing)) (or_empty (lookup "originRequest" rule))

-- The root of a manual route that is preserved.
unfoldable pub preserved_root : String → Rule → Rule
preserved_root host existing =
    let request = lookup "originRequest" existing in
    ("hostname", Json.text host)
    ∷ ("service", service_of existing)
    ∷ (if truthy? request then ("originRequest", or_default request Json.null) ∷ [] else [])

abbrev pub route_change :
    IngressAction → String → Json → Option Json → IngressReason → PlannedIngressChange
route_change action host service request reason = record {
  action = action;
  hostname = some host;
  path = none;
  service = service;
  origin_request = request;
  reason = reason;
}

-- The action on the route of a discovered host that has the desired rule `rule`.
unfoldable pub route_action : String → Rule → Option Rule → PlannedIngressChange
route_action host rule none =
    route_change IngressAction.create host (service_of rule) (lookup "originRequest" rule)
      new_container
route_action host rule (some existing) =
    let service = service_of rule in
    let request = lookup "originRequest" rule in
    if same_route existing rule
    then route_change IngressAction.noop host service request rule_matches
    else route_change IngressAction.update host service request
        (origin_modified (lookup "service" existing) service)

-- Section 3, one discovered host.
unfoldable pub managed_route :
    PlanArgs → String → DiscoveredOrigin → Option Rule → Output PlannedIngressChange
managed_route args host origin existing =
    let rule = desired_rule host origin in
    record {
      changes = route_action host rule existing ∷ [];
      roots = rule ∷ [];
      to_set = [];
      to_clear = tombstone_of args host;
    }

unfoldable pub manual_route : PlanArgs → String → Rule → Output PlannedIngressChange
manual_route args host existing = record {
  changes =
      route_change IngressAction.noop host (service_of existing) (lookup "originRequest" existing)
        manual_root_preserved
      ∷ [];
  roots = preserved_root host existing ∷ [];
  to_set = [];
  to_clear = tombstone_of args host;
}

-- The opt-in test of `preserve_manual_roots` stands first.
unfoldable pub existing_route :
    PlanArgs → String → DiscoveredOrigin → Option Rule → Output PlannedIngressChange
existing_route args host origin none = managed_route args host origin none
existing_route args host origin (some existing) =
    if args.preserve_manual_roots && manual_record args (lookup host (existing_dns args))
    then manual_route args host existing
    else managed_route args host origin (some existing)

unfoldable pub origin_route :
    PlanArgs → String → Option DiscoveredOrigin → Output PlannedIngressChange
origin_route args host none = no_output
origin_route args host (some origin) =
    existing_route args host origin (lookup host (existing_ingress args))

unfoldable pub active_route : PlanArgs → String → Output PlannedIngressChange
active_route args host = origin_route args host (lookup host (active_origins args))

-- Section 4: a root route of a host that was not discovered.
unfoldable pub cleaned_route : PlanArgs → String → Rule → Cleanup → Output PlannedIngressChange
cleaned_route args host rule at_once = record {
  changes = route_change IngressAction.delete host (service_of rule) none removed_immediately ∷ [];
  roots = [];
  to_set = [];
  to_clear = tombstone_of args host;
}
cleaned_route args host rule start_tombstone = record {
  changes =
      route_change IngressAction.noop host (service_of rule) none
        (tombstoned host args.dns_delete_grace_seconds)
      ∷ [];
  roots = rule ∷ [];
  to_set = (host, args.now) ∷ [];
  to_clear = [];
}
cleaned_route args host rule expired = record {
  changes =
      route_change IngressAction.delete host (service_of rule) none
        (tombstone_expired host args.dns_delete_grace_seconds)
      ∷ [];
  roots = [];
  to_set = [];
  to_clear = host ∷ [];
}
cleaned_route args host rule (waiting remaining) = record {
  changes =
      route_change IngressAction.noop host (service_of rule) none (in_tombstone remaining) ∷ [];
  roots = rule ∷ [];
  to_set = [];
  to_clear = [];
}

unfoldable pub unmanaged_route : String → Rule → Output PlannedIngressChange
unmanaged_route host rule = record {
  changes =
      record {
        action = IngressAction.noop;
        hostname = some host;
        path = lookup "path" rule;
        service = service_of rule;
        origin_request = lookup "originRequest" rule;
        reason = unmanaged_preserved;
      }
      ∷ [];
  roots = rule ∷ [];
  to_set = [];
  to_clear = [];
}

unfoldable pub missing_route : PlanArgs → String × Rule → Output PlannedIngressChange
missing_route args (host, rule) =
    if is_discovered args host
    then no_output
    else if owned_record args (lookup host (existing_dns args))
    then cleaned_route args host rule (cleanup args host)
    else unmanaged_route host rule

-- The loop of section 3, and that of section 4.
unfoldable pub active_routes : PlanArgs → Output PlannedIngressChange
active_routes args = collect (active_route args) (discovered_hosts args)

unfoldable pub missing_routes : PlanArgs → Output PlannedIngressChange
missing_routes args = collect (missing_route args) (existing_ingress args)

-- ===== src/Application/Cycle/Planning.antt =====
-- tunnel_sync/application/sync.py: what `run_once` gives to the planner.
use cf_docker_tunnel_sync.Base.{
  ℕ, String, ◌<>◌, Bool, true, false, ◌&&◌, Option, none, some, List, [], ◌∷◌, map, leb, ◌==◌,
  if◌then◌else◌,
}
use Prim.Native.Nat.{max}
use cf_docker_tunnel_sync.Base.Lists.{is_empty}
use cf_docker_tunnel_sync.Base.Dict.{Dict}
use cf_docker_tunnel_sync.Base.Json.{Json}
use cf_docker_tunnel_sync.Base.Text.{lower, strip, is_digit, int}
use cf_docker_tunnel_sync.Domain.Models.{
  OwnershipPolicy, adopt_and_manage, strict_tagged_only, legacy_unrestricted, DnsRecord,
  RemoteState, or_default,
}
use cf_docker_tunnel_sync.Domain.Plan.{PlanArgs}
use cf_docker_tunnel_sync.Domain.Snapshots.{build_discovery_snapshot}
use cf_docker_tunnel_sync.Application.Ports.{TunnelConfig}
use cf_docker_tunnel_sync.Application.Discovery.{Tools, ServiceItem, ContainerEntry}
use cf_docker_tunnel_sync.Application.Cycle.{CycleSettings, Moment, found_of}

-- `OwnershipPolicy(policy_str)`, with its default
unfoldable pub policy_of : CycleSettings → OwnershipPolicy
policy_of s =
    let text = lower s.ownership_policy in
    if text == "strict_tagged_only"
    then strict_tagged_only
    else if text == "legacy_unrestricted"
    then legacy_unrestricted
    else adopt_and_manage

-- At least two services were known, and none is found.
unfoldable pub is_drop : ℕ → List ServiceItem → Bool
is_drop known items = leb 2 known && is_empty items

abbrev digits : Option String → Option ℕ
digits none = none
digits (some text) = if is_digit text then int text else none

abbrev is_none : Option ℕ → Bool
is_none none = true
is_none (some n) = false

-- `isdigit` holds, and `int` raises a `ValueError`.
unfoldable pub is_refused : Option String → Bool
is_refused none = false
is_refused (some text) = is_digit text && is_none (int text)

-- The tombstones of the file that have a text as key and a number as value; there may be none.
abbrev pub add_number : String → Json → Dict ℕ → Dict ℕ
add_number host (Json.num n) rest = (host, n) ∷ rest
add_number host (Json.bool true) rest = (host, 1) ∷ rest
add_number host (Json.bool false) rest = (host, 0) ∷ rest
add_number host other rest = rest

unfoldable pub validated : Dict Json → Dict ℕ
validated [] = []
validated ((host, ts) ∷ rest) = add_number host ts (validated rest)

unfoldable pub remote_state :
    CycleSettings → String → String → TunnelConfig → List DnsRecord → RemoteState
remote_state s zone_id tunnel_id config records = record {
  tunnel_id = tunnel_id;
  tunnel_name = strip s.tunnel_name;
  zone_id = zone_id;
  tunnel_target = tunnel_id <> ".cfargotunnel.com";
  existing_ingress_rules = or_default config.ingress [];
  existing_dns_records = records;
}

-- The arguments of `compute_change_plan`; `known` is the number of services of the cycle before.
unfoldable pub plan_args :
    Tools
    → CycleSettings
    → Moment
    → ℕ
    → Bool
    → List ServiceItem
    → List ContainerEntry
    → RemoteState
    → Dict ℕ
    → PlanArgs
plan_args tools s moment known docker_ok items containers remote tombstones =
    let drop = is_drop known items in
    record {
      snapshot =
          build_discovery_snapshot (map (found_of tools) items) (map (λ c. []) containers)
            moment.timestamp docker_ok;
      remote = remote;
      tombstones = tombstones;
      now = moment.now;
      plan_id = moment.plan_id;
      policy = policy_of s;
      dns_delete_grace_seconds = if drop then max s.grace_period 300 else s.grace_period;
      dry_run = s.dry_run;
      immediate_cleanup = if drop then false else s.immediate_cleanup;
      max_deletions = digits s.max_deletions_per_run;
      tag_prefix = "cf-tunnel-sync:";
      preserve_manual_roots = s.preserve_manual_roots;
    }

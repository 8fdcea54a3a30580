-- ===== src/Domain/Planner.antt =====
-- tunnel_sync/domain/planner.py: `compute_change_plan` and `_degraded_plan`.
pub mod Degraded
pub mod Legacy
pub mod Totals
pub mod Routing
pub mod Safety
use cf_docker_tunnel_sync.Base.{
  ℕ, ◌+◌, String, Bool, true, false, not, ◌||◌, Option, none, some, List, [], ◌∷◌, ◌++◌, map, ◌==◌,
  ltb, if◌then◌else◌,
}
use cf_docker_tunnel_sync.Base.Lists.{length, count, contains}
use cf_docker_tunnel_sync.Base.Dict.{Dict, lookup, update}
use cf_docker_tunnel_sync.Base.Json.{Json}
use cf_docker_tunnel_sync.Base.Sort.{sorted}
use cf_docker_tunnel_sync.Domain.Models.{
  OwnershipStatus, unmanaged, foreign_tunnel, DnsRecord, Rule, IngressAction, DnsAction,
  IngressReason, DnsReason, PlannedIngressChange, PlannedDnsChange, ChangePlanSummary, ChangePlan,
  parse_status, or_default,
}
use cf_docker_tunnel_sync.Domain.Ingress.{hostname_of, merge_ingress}
use cf_docker_tunnel_sync.Domain.Plan.{PlanArgs, Output, join, name_of, status_of}
use cf_docker_tunnel_sync.Domain.Routes.{active_routes, missing_routes}
use cf_docker_tunnel_sync.Domain.Records.{active_records, missing_records}

abbrev pub ingress_is : IngressAction → PlannedIngressChange → Bool
ingress_is IngressAction.noop c = elim c.action [ IngressAction.noop ↦ true | _ ↦ false ]
ingress_is IngressAction.create c = elim c.action [ IngressAction.create ↦ true | _ ↦ false ]
ingress_is IngressAction.update c = elim c.action [ IngressAction.update ↦ true | _ ↦ false ]
ingress_is IngressAction.delete c = elim c.action [ IngressAction.delete ↦ true | _ ↦ false ]

abbrev pub dns_is : DnsAction → PlannedDnsChange → Bool
dns_is DnsAction.noop c = elim c.action [ DnsAction.noop ↦ true | _ ↦ false ]
dns_is DnsAction.create c = elim c.action [ DnsAction.create ↦ true | _ ↦ false ]
dns_is DnsAction.update c = elim c.action [ DnsAction.update ↦ true | _ ↦ false ]
dns_is DnsAction.delete c = elim c.action [ DnsAction.delete ↦ true | _ ↦ false ]
dns_is DnsAction.protect c = elim c.action [ DnsAction.protect ↦ true | _ ↦ false ]

-- The status counts as skipped, whatever the action is.
abbrev pub skipped_status : OwnershipStatus → Bool
skipped_status unmanaged = true
skipped_status foreign_tunnel = true
skipped_status _ = false

abbrev pub is_skipped : PlannedDnsChange → Bool
is_skipped c = dns_is DnsAction.protect c || skipped_status c.ownership_status

-- Section 6.
unfoldable pub summarize : ℕ → List PlannedIngressChange → List PlannedDnsChange → ChangePlanSummary
summarize total ingress dns =
    let ic = count (ingress_is IngressAction.create) ingress in
    let iu = count (ingress_is IngressAction.update) ingress in
    let idel = count (ingress_is IngressAction.delete) ingress in
    let dc = count (dns_is DnsAction.create) dns in
    let du = count (dns_is DnsAction.update) dns in
    let ddel = count (dns_is DnsAction.delete) dns in
    record {
      total_services_discovered = total;
      ingress_creates = ic;
      ingress_updates = iu;
      ingress_deletes = idel;
      dns_creates = dc;
      dns_updates = du;
      dns_deletes = ddel;
      dns_protected = count (dns_is DnsAction.protect) dns;
      unmanaged_skipped = count is_skipped dns;
      has_mutations = ltb 0 (ic + iu + idel + dc + du + ddel);
      is_destructive = ltb 0 (idel + ddel);
    }

-- `list(set(xs))`
unfoldable pub unique : List String → List String
unique [] = []
unique (x ∷ xs) = let rest = unique xs in if contains rest x then rest else x ∷ rest

-- The plan while Docker can be read.
unfoldable pub reconcile_plan : PlanArgs → ChangePlan
reconcile_plan args =
    let routes = join (active_routes args) (missing_routes args) in
    let records = join (active_records args) (missing_records args) in
    record {
      plan_id = args.plan_id;
      timestamp = args.now;
      tunnel_id = args.remote.tunnel_id;
      zone_id = args.remote.zone_id;
      dry_run = args.dry_run;
      ingress_changes = routes.changes;
      dns_changes = records.changes;
      final_ingress_rules = merge_ingress args.remote.existing_ingress_rules routes.roots;
      tombstones_to_set = update routes.to_set records.to_set;
      tombstones_to_clear = sorted (unique (routes.to_clear ++ records.to_clear));
      summary = summarize (length args.snapshot.origins) routes.changes records.changes;
    }

-- `rule.get("service") != "http_status:404"`
unfoldable pub is_live : Rule → Bool
is_live rule = elim (lookup "service" rule) [
  | some (Json.text s) ↦ not (s == "http_status:404")
  | _ ↦ true
]

unfoldable pub hostname? : Rule → Option String
hostname? rule = elim (lookup "hostname" rule) [ some (Json.text s) ↦ some s | _ ↦ none ]

unfoldable pub degraded_rules : List Rule → List PlannedIngressChange
degraded_rules [] = []
degraded_rules (rule ∷ rules) =
    let rest = degraded_rules rules in
    if is_live rule
    then record {
      action = IngressAction.noop;
      hostname = hostname? rule;
      path = none;
      service = or_default (lookup "service" rule) (Json.text "");
      origin_request = lookup "originRequest" rule;
      reason = IngressReason.docker_degraded;
    }
      ∷ rest
    else rest

unfoldable pub degraded_records : PlanArgs → List DnsRecord → List PlannedDnsChange
degraded_records args [] = []
degraded_records args (rec ∷ recs) =
    let rest = degraded_records args recs in
    if name_of rec == ""
    then rest
    else record {
      action = DnsAction.protect;
      hostname = name_of rec;
      record_id = rec.id;
      record_type = "CNAME";
      current_content = rec.content;
      target_content = rec.content;
      proxied = or_default rec.proxied true;
      ttl = or_default rec.ttl 1;
      current_comment = rec.comment;
      target_comment = rec.comment;
      ownership_status = status_of args rec;
      reason = DnsReason.docker_degraded;
    }
      ∷ rest

-- `_degraded_plan`
unfoldable pub degraded_plan : PlanArgs → ChangePlan
degraded_plan args =
    let dns = degraded_records args args.remote.existing_dns_records in
    record {
      plan_id = args.plan_id;
      timestamp = args.now;
      tunnel_id = args.remote.tunnel_id;
      zone_id = args.remote.zone_id;
      dry_run = args.dry_run;
      ingress_changes = degraded_rules args.remote.existing_ingress_rules;
      dns_changes = dns;
      final_ingress_rules = args.remote.existing_ingress_rules;
      tombstones_to_set = [];
      tombstones_to_clear = [];
      summary = record {
        total_services_discovered = 0;
        ingress_creates = 0;
        ingress_updates = 0;
        ingress_deletes = 0;
        dns_creates = 0;
        dns_updates = 0;
        dns_deletes = 0;
        dns_protected = length dns;
        unmanaged_skipped = length dns;
        has_mutations = false;
        is_destructive = false;
      };
    }

unfoldable pub compute_change_plan : PlanArgs → ChangePlan
compute_change_plan args =
    if args.snapshot.docker_ok then reconcile_plan args else degraded_plan args

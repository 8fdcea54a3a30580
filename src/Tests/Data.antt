-- ===== src/Tests/Data.antt =====
-- A tunnel with one discovered origin, one stale route and its record, and a fallback.
use cf_docker_tunnel_sync.Base.{String, ℕ, Bool, true, false, none, some, List, [], ◌∷◌}
use cf_docker_tunnel_sync.Base.Json.{Json, Fields}
use cf_docker_tunnel_sync.Domain.Models.{
  adopt_and_manage, legacy_unrestricted, OwnershipPolicy, DnsRecord, Rule, Comment,
  DiscoveredOrigin, OwnershipTagging,
}
use cf_docker_tunnel_sync.Domain.Plan.{PlanArgs}

abbrev pub target : String
target = "t1.cfargotunnel.com"

abbrev pub tagging : OwnershipTagging
tagging = record { tag_prefix = "cf-tunnel-sync:"; tunnel_name = "main" }

abbrev pub cname : String → Comment → DnsRecord
cname host comment = record {
  name = some host;
  id = some "r1";
  rec_type = some "CNAME";
  content = some target;
  comment = some comment;
  proxied = some true;
  ttl = some 1;
}

-- A record with our tag, and one with the tag of another tunnel.
abbrev pub owned_rec : DnsRecord
owned_rec = cname "old.example.com" (Comment.text " cf-tunnel-sync:main ")

abbrev pub foreign_rec : DnsRecord
foreign_rec = cname "old.example.com" (Comment.text "cf-tunnel-sync:other")

abbrev pub route : String → String → Rule
route host service = ("hostname", Json.text host) ∷ ("service", Json.text service) ∷ []

abbrev pub old_route : Rule
old_route = route "old.example.com" "http://old:80"

abbrev pub path_route : Rule
path_route =
    ("hostname", Json.text "app.example.com")
    ∷ ("path", Json.text "/api")
    ∷ ("service", Json.text "http://api:80")
    ∷ []

abbrev pub fallback : Rule
fallback = ("service", Json.text "http_status:404") ∷ []

abbrev pub app : DiscoveredOrigin
app = record {
  container_id = "c1";
  container_name = "app";
  hostname = "app.example.com";
  service_target = "http://app:8080";
  origin_request = some (Fields.field "noTLSVerify" (Json.bool true) Fields.end);
  labels = [];
}

abbrev pub args_with : List DnsRecord → OwnershipPolicy → Bool → Bool → ℕ → PlanArgs
args_with records policy docker_ok immediate now = record {
  snapshot = record {
    timestamp = now;
    docker_ok = docker_ok;
    origins = app ∷ [];
    ignored_containers = [];
  };
  remote = record {
    tunnel_id = "t1";
    tunnel_name = "main";
    zone_id = "z1";
    tunnel_target = target;
    existing_ingress_rules = old_route ∷ path_route ∷ fallback ∷ [];
    existing_dns_records = records;
  };
  tombstones = ("old.example.com", 100) ∷ [];
  now = now;
  plan_id = "plan-1";
  policy = policy;
  dns_delete_grace_seconds = 300;
  dry_run = false;
  immediate_cleanup = immediate;
  max_deletions = none;
  tag_prefix = "cf-tunnel-sync:";
  preserve_manual_roots = false;
}

abbrev pub live : PlanArgs
live = args_with (owned_rec ∷ []) adopt_and_manage true false 500

abbrev pub degraded : PlanArgs
degraded = args_with (owned_rec ∷ []) adopt_and_manage false false 500

abbrev pub legacy : PlanArgs
legacy = args_with (foreign_rec ∷ []) legacy_unrestricted true true 500

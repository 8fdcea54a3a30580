-- ===== src/Application/Calls.antt =====
-- tunnel_sync/application/executor.py: the calls to Cloudflare that `ChangeExecutor.execute` makes.
use cf_docker_tunnel_sync.Base.{
  ◌+◌, String, Bool, not, Option, none, some, List, [], ◌∷◌, ltb, ◌==◌, if◌then◌else◌,
}
use cf_docker_tunnel_sync.Base.Json.{Json, Fields, Items, json_eq}
use cf_docker_tunnel_sync.Domain.Models.{Rule, Comment, PlannedDnsChange, ChangePlan, or_default}
use cf_docker_tunnel_sync.Application.Ports.{
  configurations, dns_records, dns_record, Method, TunnelConfig, RecordPayload, no_payload, config,
  dns, Call,
}

unfoldable pub to_fields : Rule → Fields
to_fields [] = Fields.end
to_fields ((k, v) ∷ rule) = Fields.field k v (to_fields rule)

unfoldable pub to_items : List Rule → Items
to_items [] = Items.nil
to_items (rule ∷ rules) = Items.cons (Json.obj (to_fields rule)) (to_items rules)

-- `rules == others`, lists of dicts
unfoldable pub rules_eq : List Rule → List Rule → Bool
rules_eq rules others = json_eq (Json.arr (to_items rules)) (Json.arr (to_items others))

unfoldable pub ingress_changed : Option TunnelConfig → ChangePlan → Bool
ingress_changed (some c) plan = not (rules_eq (or_default c.ingress []) plan.final_ingress_rules)
ingress_changed none plan =
    let s = plan.summary in ltb 0 (s.ingress_creates + s.ingress_updates + s.ingress_deletes)

unfoldable pub config_payload : Option TunnelConfig → ChangePlan → TunnelConfig
config_payload none plan = record { ingress = some plan.final_ingress_rules; others = [] }
config_payload (some c) plan = record c { ingress = some plan.final_ingress_rules }

unfoldable pub ingress_call : String → Option TunnelConfig → ChangePlan → Call
ingress_call account_id current plan = record {
  endpoint = configurations account_id plan.tunnel_id;
  method = Method.put;
  payload = config (config_payload current plan);
}

-- `if change.target_comment`
unfoldable pub sent_comment : Option Comment → Option Comment
sent_comment (some (Comment.text c)) = if c == "" then none else some (Comment.text c)
sent_comment other = other

unfoldable pub record_payload : PlannedDnsChange → RecordPayload
record_payload c = record {
  record_type = c.record_type;
  name = c.hostname;
  content = c.target_content;
  proxied = c.proxied;
  ttl = c.ttl;
  comment = sent_comment c.target_comment;
}

-- The calls for a creation, an update and a deletion in the zone.
unfoldable pub create_call : String → PlannedDnsChange → Call
create_call zone c = record {
  endpoint = dns_records zone;
  method = Method.post;
  payload = dns (record_payload c);
}

unfoldable pub update_call : String → PlannedDnsChange → Call
update_call zone c = record {
  endpoint = dns_record zone c.record_id;
  method = Method.put;
  payload = dns (record_payload c);
}

unfoldable pub delete_call : String → PlannedDnsChange → Call
delete_call zone c = record {
  endpoint = dns_record zone c.record_id;
  method = Method.delete;
  payload = no_payload;
}

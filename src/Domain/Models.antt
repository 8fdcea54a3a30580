-- ===== src/Domain/Models.antt =====
-- tunnel_sync/domain/models.py: the values that reconciliation reads and writes.
-- The checks that pydantic makes when a model is built (the type of a field) are not modelled.
-- Times are numbers of seconds. An absent key of a DNS record is `none`, and so is a null.
pub mod Ownership
use cf_docker_tunnel_sync.Base.{
  ℕ, String, ◌<>◌, Bool, true, false, Option, none, some, List, starts_with, ◌==◌, if◌then◌else◌,
}
use cf_docker_tunnel_sync.Base.Dict.{Dict}
use cf_docker_tunnel_sync.Base.Json.{Json, Fields}
use cf_docker_tunnel_sync.Base.Text.{strip}

pub data OwnershipStatus : Type 0 where
  owned adopted unmanaged foreign_tunnel unrelated : OwnershipStatus

pub data OwnershipPolicy : Type 0 where
  adopt_and_manage strict_tagged_only legacy_unrestricted : OwnershipPolicy

abbrev pub is_owned : OwnershipStatus → Bool
is_owned owned = true
is_owned _ = false

abbrev pub is_legacy : OwnershipPolicy → Bool
is_legacy legacy_unrestricted = true
is_legacy _ = false

abbrev pub is_strict : OwnershipPolicy → Bool
is_strict strict_tagged_only = true
is_strict _ = false

-- The value at the key "comment" of a DNS record: a text, or a value of another type.
pub data Comment : Type 0 where
  text : String → Comment
  non_text : Comment

-- A DNS record as the Cloudflare API returns it.
pub record DnsRecord : Type 0 where
  pub name : Option String
  pub id : Option String
  pub rec_type : Option String
  pub content : Option String
  pub comment : Option Comment
  pub proxied : Option Bool
  pub ttl : Option ℕ

-- An ingress rule: a dict whose "hostname", if any, is a text or null.
abbrev pub Rule : Type 0
Rule = Dict Json

pub record OwnershipTagging : Type 0 where
  pub tag_prefix : String
  pub tunnel_name : String

unfoldable pub format_comment : OwnershipTagging → String
format_comment t = t.tag_prefix <> t.tunnel_name

-- `record.get(key, default)`
abbrev pub or_default {ℓ} : {A : Type ℓ} → Option A → A → A
or_default none d = d
or_default (some a) d = a

-- The text is at hand and equal to `s`.
abbrev pub is_text : Option String → String → Bool
is_text none s = false
is_text (some t) s = t == s

-- The tests on the comment, for a record that is a CNAME to the tunnel.
unfoldable pub comment_status : OwnershipTagging → Bool → String → OwnershipStatus
comment_status t active comment =
    if comment == format_comment t
    then owned
    else if starts_with comment t.tag_prefix
    then foreign_tunnel
    else if active
    then adopted
    else unmanaged

unfoldable pub tagged_status : OwnershipTagging → Bool → Option Comment → OwnershipStatus
tagged_status t active none = comment_status t active ""
tagged_status t active (some (text c)) = comment_status t active (strip c)
tagged_status t active (some non_text) = unmanaged

-- `t.parse_status(record, target, is_active_local)`
unfoldable pub parse_status : OwnershipTagging → DnsRecord → String → Bool → OwnershipStatus
parse_status t rec target active =
    if or_default rec.rec_type "CNAME" == "CNAME"
    then (if is_text rec.content target then tagged_status t active rec.comment else unrelated)
    else unrelated

pub record DiscoveredOrigin : Type 0 where
  pub container_id : String
  pub container_name : String
  pub hostname : String
  pub service_target : String
  pub origin_request : Option Fields
  pub labels : Dict String

pub record DiscoverySnapshot : Type 0 where
  pub timestamp : ℕ
  pub docker_ok : Bool
  pub origins : List DiscoveredOrigin
  pub ignored_containers : List String

pub record RemoteState : Type 0 where
  pub tunnel_id : String
  pub tunnel_name : String
  pub zone_id : String
  pub tunnel_target : String
  pub existing_ingress_rules : List Rule
  pub existing_dns_records : List DnsRecord

pub data IngressAction : Type 0 where
  noop create update delete : IngressAction

pub data DnsAction : Type 0 where
  noop create update delete protect : DnsAction

-- The texts of "reason", each with the values that are formatted into it.
pub data IngressReason : Type 0 where
  manual_root_preserved rule_matches new_container unmanaged_preserved : IngressReason
  removed_immediately docker_degraded : IngressReason
  origin_modified : Option Json → Json → IngressReason
  tombstoned tombstone_expired : String → ℕ → IngressReason
  in_tombstone : ℕ → IngressReason

pub data DnsReason : Type 0 where
  create_record record_matches updating_owned adopting strict_protected : DnsReason
  no_ownership_metadata manual_or_unrelated grace_expired : DnsReason
  unmanaged_protected foreign_protected unrelated_protected docker_degraded : DnsReason
  tombstoned tombstone_expired : String → ℕ → DnsReason
  in_tombstone : ℕ → DnsReason

pub record PlannedIngressChange : Type 0 where
  pub action : IngressAction
  pub hostname : Option String
  pub path : Option Json
  pub service : Json
  pub origin_request : Option Json
  pub reason : IngressReason

pub record PlannedDnsChange : Type 0 where
  pub action : DnsAction
  pub hostname : String
  pub record_id : Option String
  pub record_type : String
  pub current_content : Option String
  pub target_content : Option String
  pub proxied : Bool
  pub ttl : ℕ
  pub current_comment : Option Comment
  pub target_comment : Option Comment
  pub ownership_status : OwnershipStatus
  pub reason : DnsReason

pub record ChangePlanSummary : Type 0 where
  pub total_services_discovered : ℕ
  pub ingress_creates : ℕ
  pub ingress_updates : ℕ
  pub ingress_deletes : ℕ
  pub dns_creates : ℕ
  pub dns_updates : ℕ
  pub dns_deletes : ℕ
  pub dns_protected : ℕ
  pub unmanaged_skipped : ℕ
  pub has_mutations : Bool
  pub is_destructive : Bool

pub record ChangePlan : Type 0 where
  pub plan_id : String
  pub timestamp : ℕ
  pub tunnel_id : String
  pub zone_id : String
  pub dry_run : Bool
  pub ingress_changes : List PlannedIngressChange
  pub dns_changes : List PlannedDnsChange
  pub final_ingress_rules : List Rule
  pub tombstones_to_set : Dict ℕ
  pub tombstones_to_clear : List String
  pub summary : ChangePlanSummary

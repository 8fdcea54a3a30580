-- ===== src/Domain/Records.antt =====
-- tunnel_sync/domain/planner.py, sections 5.1 and 5.2: the planned changes of DNS records.
pub mod Deletion
pub mod Tombstones
pub mod Writes
use cf_docker_tunnel_sync.Base.{
  ℕ, String, Bool, true, false, not, ◌&&◌, ◌||◌, Option, none, some, List, [], ◌∷◌, ◌==◌,
  starts_with, if◌then◌else◌,
}
use cf_docker_tunnel_sync.Base.Dict.{lookup, contains_key}
use cf_docker_tunnel_sync.Domain.Models.{
  OwnershipStatus, owned, adopted, unmanaged, foreign_tunnel, unrelated, OwnershipPolicy, is_legacy,
  is_strict, is_owned, DnsRecord, Comment, text, DnsAction, DnsReason, PlannedDnsChange,
  format_comment, parse_status, or_default, is_text,
}
use cf_docker_tunnel_sync.Domain.Models.DnsReason.{
  create_record, record_matches, updating_owned, adopting, strict_protected, no_ownership_metadata,
  manual_or_unrelated, grace_expired, tombstoned, tombstone_expired, in_tombstone,
  unmanaged_protected, foreign_protected, unrelated_protected,
}
use cf_docker_tunnel_sync.Domain.Plan.{
  PlanArgs, Output, no_output, collect, tagger, target_cname, is_discovered, discovered_hosts,
  existing_ingress, existing_dns, name_of, status_of, tombstone_of, comment_text, Cleanup, at_once,
  start_tombstone, expired, waiting, cleanup,
}

-- `expected_tag`
abbrev pub expected_tag : PlanArgs → String
expected_tag args = format_comment (tagger args)

abbrev pub proxied_or : Bool → DnsRecord → Bool
proxied_or d rec = or_default rec.proxied d

-- One planned change and nothing else.
abbrev pub only : PlannedDnsChange → Output PlannedDnsChange
only change = record { changes = change ∷ []; roots = []; to_set = []; to_clear = [] }

-- Section 5.1, a discovered host with no record.
unfoldable pub new_record : PlanArgs → String → PlannedDnsChange
new_record args host = record {
  action = DnsAction.create;
  hostname = host;
  record_id = none;
  record_type = "CNAME";
  current_content = none;
  target_content = some (target_cname args);
  proxied = true;
  ttl = 1;
  current_comment = none;
  target_comment = some (text (expected_tag args));
  ownership_status = owned;
  reason = create_record;
}

-- The record gets, or has, the tag, the tunnel as its target, and the proxy.
unfoldable pub managed_record :
    PlanArgs → String → DnsRecord → OwnershipStatus → DnsAction → DnsReason → PlannedDnsChange
managed_record args host rec status action reason = record {
  action = action;
  hostname = host;
  record_id = rec.id;
  record_type = "CNAME";
  current_content = rec.content;
  target_content = some (target_cname args);
  proxied = true;
  ttl = 1;
  current_comment = some (text (comment_text rec.comment));
  target_comment = some (text (expected_tag args));
  ownership_status = status;
  reason = reason;
}

-- The record of a discovered host is left as it is.
unfoldable pub protected_active :
    PlanArgs → String → DnsRecord → OwnershipStatus → DnsReason → PlannedDnsChange
protected_active args host rec status reason = record {
  action = DnsAction.protect;
  hostname = host;
  record_id = rec.id;
  record_type = "CNAME";
  current_content = rec.content;
  target_content = some (target_cname args);
  proxied = proxied_or false rec;
  ttl = or_default rec.ttl 1;
  current_comment = some (text (comment_text rec.comment));
  target_comment = none;
  ownership_status = status;
  reason = reason;
}

-- An owned record needs no update.
unfoldable pub is_current : PlanArgs → DnsRecord → Bool
is_current args rec =
    is_text rec.content (target_cname args)
    && proxied_or false rec
    && comment_text rec.comment == expected_tag args

-- Section 5.1, a discovered host with a record of the given status.
unfoldable pub known_record : PlanArgs → String → DnsRecord → OwnershipStatus → PlannedDnsChange
known_record args host rec owned =
    if is_current args rec
    then managed_record args host rec owned DnsAction.noop record_matches
    else managed_record args host rec owned DnsAction.update updating_owned
known_record args host rec adopted =
    if is_strict args.policy
    then protected_active args host rec adopted strict_protected
    else managed_record args host rec adopted DnsAction.update adopting
known_record args host rec unmanaged =
    protected_active args host rec unmanaged no_ownership_metadata
known_record args host rec foreign_tunnel =
    protected_active args host rec foreign_tunnel no_ownership_metadata
known_record args host rec unrelated = protected_active args host rec unrelated manual_or_unrelated

unfoldable pub active_change : PlanArgs → String → Option DnsRecord → PlannedDnsChange
active_change args host none = new_record args host
active_change args host (some rec) =
    known_record args host rec (parse_status (tagger args) rec (target_cname args) true)

unfoldable pub active_record : PlanArgs → String → Output PlannedDnsChange
active_record args host = only (active_change args host (lookup host (existing_dns args)))

-- Section 5.2, a record of a host that was not discovered: what all its planned changes share.
unfoldable pub missing_change :
    PlanArgs
    → String
    → DnsRecord
    → OwnershipStatus
    → DnsAction
    → Option String
    → Option Comment
    → DnsReason
    → PlannedDnsChange
missing_change args host rec status action content comment reason = record {
  action = action;
  hostname = host;
  record_id = rec.id;
  record_type = "CNAME";
  current_content = rec.content;
  target_content = content;
  proxied = proxied_or true rec;
  ttl = or_default rec.ttl 1;
  current_comment = some (text (comment_text rec.comment));
  target_comment = comment;
  ownership_status = status;
  reason = reason;
}

unfoldable pub cleaned_record :
    PlanArgs → String → DnsRecord → OwnershipStatus → Cleanup → Output PlannedDnsChange
cleaned_record args host rec status at_once = record {
  changes = missing_change args host rec status DnsAction.delete none none grace_expired ∷ [];
  roots = [];
  to_set = [];
  to_clear = tombstone_of args host;
}
cleaned_record args host rec status start_tombstone = record {
  changes =
      missing_change args host rec status DnsAction.noop rec.content
        (some (text (comment_text rec.comment))) (tombstoned host args.dns_delete_grace_seconds)
      ∷ [];
  roots = [];
  to_set = (host, args.now) ∷ [];
  to_clear = [];
}
cleaned_record args host rec status expired = record {
  changes =
      missing_change args host rec status DnsAction.delete none none
        (tombstone_expired host args.dns_delete_grace_seconds)
      ∷ [];
  roots = [];
  to_set = [];
  to_clear = host ∷ [];
}
cleaned_record args host rec status (waiting remaining) = only (
    missing_change args host rec status DnsAction.noop rec.content
      (some (text (comment_text rec.comment))) (in_tombstone remaining))

-- `is_known_managed`
unfoldable pub is_known_managed : PlanArgs → String → DnsRecord → OwnershipStatus → Bool
is_known_managed args host rec status =
    is_owned status
    || is_legacy args.policy
      && (contains_key host (existing_ingress args)
          || contains_key host args.tombstones
          || args.immediate_cleanup && is_text rec.content (target_cname args))

-- The record is not managed: what protects it goes by its status.
unfoldable pub kept_record :
    PlanArgs → String → DnsRecord → OwnershipStatus → Output PlannedDnsChange
kept_record args host rec unmanaged =
    only (missing_change args host rec unmanaged DnsAction.protect none none unmanaged_protected)
kept_record args host rec foreign_tunnel =
    only (missing_change args host rec foreign_tunnel DnsAction.protect none none foreign_protected)
kept_record args host rec unrelated =
    only (missing_change args host rec unrelated DnsAction.protect none none unrelated_protected)
kept_record args host rec owned = no_output
kept_record args host rec adopted = no_output

-- The record is of another type, and has no tag of this program.
abbrev pub is_irrelevant : PlanArgs → DnsRecord → Bool
is_irrelevant args rec =
    not (or_default rec.rec_type "CNAME" == "CNAME")
    && not (starts_with (comment_text rec.comment) args.tag_prefix)

unfoldable pub stale_record :
    PlanArgs → String → DnsRecord → OwnershipStatus → Output PlannedDnsChange
stale_record args host rec status =
    if is_known_managed args host rec status
    then cleaned_record args host rec status (cleanup args host)
    else kept_record args host rec status

unfoldable pub missing_record : PlanArgs → DnsRecord → Output PlannedDnsChange
missing_record args rec =
    let host = name_of rec in
    if host == "" || is_discovered args host
    then no_output
    else if is_irrelevant args rec
    then no_output
    else stale_record args host rec (status_of args rec)

-- The loop of section 5.1, and that of section 5.2.
unfoldable pub active_records : PlanArgs → Output PlannedDnsChange
active_records args = collect (active_record args) (discovered_hosts args)

unfoldable pub missing_records : PlanArgs → Output PlannedDnsChange
missing_records args = collect (missing_record args) args.remote.existing_dns_records

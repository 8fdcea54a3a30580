-- ===== src/Domain/Plan.antt =====
-- tunnel_sync/domain/planner.py: the arguments of `compute_change_plan`, the tables that it builds
-- first, and what its loops append to.
pub mod Tables
pub mod Collect
pub mod Discovered
pub mod Due
use Prim.Native.Nat.{max}
use cf_docker_tunnel_sync.Base.{
  ℕ, ◌+◌, ◌-◌, String, Bool, false, not, leb, ◌=ℕ◌, ◌||◌, ◌&&◌, Option, none, some, List, [], ◌∷◌,
  ◌++◌, ◌==◌, if◌then◌else◌,
}
use cf_docker_tunnel_sync.Base.Dict.{Dict, lookup, insert, set_default, update, contains_key, keys}
use cf_docker_tunnel_sync.Base.Sort.{sorted}
use cf_docker_tunnel_sync.Base.Text.{strip}
use cf_docker_tunnel_sync.Domain.Models.{
  OwnershipStatus, OwnershipPolicy, OwnershipTagging, DnsRecord, Rule, DiscoveredOrigin,
  DiscoverySnapshot, RemoteState, Comment, text, non_text, parse_status, is_owned,
}
use cf_docker_tunnel_sync.Domain.Ingress.{hostname_of, is_fallback, has_path}

-- The arguments of `compute_change_plan`. A grace period below 0 acts as 0.
pub record PlanArgs : Type 0 where
  pub snapshot : DiscoverySnapshot
  pub remote : RemoteState
  pub tombstones : Dict ℕ
  pub now : ℕ
  pub plan_id : String
  pub policy : OwnershipPolicy
  pub dns_delete_grace_seconds : ℕ
  pub dry_run : Bool
  pub immediate_cleanup : Bool
  pub max_deletions : Option ℕ
  pub tag_prefix : String
  pub preserve_manual_roots : Bool

-- What an iteration appends to: the planned changes, `final_ingress_origins`, `tombstones_to_set`
-- and `tombstones_to_clear`.
pub record Output (C : Type 0) : Type 0 where
  pub changes : List C
  pub roots : List Rule
  pub to_set : Dict ℕ
  pub to_clear : List String

abbrev pub no_output : {C : Type 0} → Output C
no_output = record { changes = []; roots = []; to_set = []; to_clear = [] }

abbrev pub join : {C : Type 0} → Output C → Output C → Output C
join o p = record {
  changes = o.changes ++ p.changes;
  roots = o.roots ++ p.roots;
  to_set = update o.to_set p.to_set;
  to_clear = o.to_clear ++ p.to_clear;
}

-- A loop, by what each iteration appends.
unfoldable pub collect : {A C : Type 0} → (A → Output C) → List A → Output C
collect f [] = no_output
collect f (x ∷ xs) = join (f x) (collect f xs)

abbrev pub tagger : PlanArgs → OwnershipTagging
tagger args = record { tag_prefix = args.tag_prefix; tunnel_name = args.remote.tunnel_name }

abbrev pub target_cname : PlanArgs → String
target_cname args = args.remote.tunnel_target

unfoldable pub index_origins : List DiscoveredOrigin → Dict DiscoveredOrigin → Dict DiscoveredOrigin
index_origins [] d = d
index_origins (o ∷ os) d = index_origins os (if o.hostname == "" then d else insert o.hostname o d)

-- The active origins by hostname; the last one counts.
unfoldable pub active_origins : PlanArgs → Dict DiscoveredOrigin
active_origins args = index_origins args.snapshot.origins []

-- `host in discovered_hosts`
abbrev pub is_discovered : PlanArgs → String → Bool
is_discovered args host = contains_key host (active_origins args)

-- `sorted(discovered_hosts)`
abbrev pub discovered_hosts : PlanArgs → List String
discovered_hosts args = sorted (keys (active_origins args))

unfoldable pub index_rules : List Rule → Dict Rule → Dict Rule
index_rules [] d = d
index_rules (rule ∷ rules) d =
    let is_root = not (is_fallback rule) && not (has_path rule) in
    index_rules rules (if is_root then set_default (hostname_of rule) rule d else d)

-- The root routes of the tunnel by hostname; the first one counts.
unfoldable pub existing_ingress : PlanArgs → Dict Rule
existing_ingress args = index_rules args.remote.existing_ingress_rules []

-- The name of a record, with "" for a missing one.
abbrev pub name_of : DnsRecord → String
name_of rec = elim rec.name [ none ↦ "" | some n ↦ n ]

unfoldable pub index_records : List DnsRecord → Dict DnsRecord → Dict DnsRecord
index_records [] d = d
index_records (rec ∷ recs) d =
    index_records recs (if name_of rec == "" then d else insert (name_of rec) rec d)

-- The DNS records by name; the last one counts.
unfoldable pub existing_dns : PlanArgs → Dict DnsRecord
existing_dns args = index_records args.remote.existing_dns_records []

-- The status of a record whose container is gone.
abbrev pub status_of : PlanArgs → DnsRecord → OwnershipStatus
status_of args rec = parse_status (tagger args) rec (target_cname args) false

-- There is a record of the host, and it is ours.
abbrev pub owned_record : PlanArgs → Option DnsRecord → Bool
owned_record args none = false
owned_record args (some rec) = is_owned (status_of args rec)

-- There is a record of the host, and it is not ours.
abbrev pub manual_record : PlanArgs → Option DnsRecord → Bool
manual_record args none = false
manual_record args (some rec) = not (is_owned (status_of args rec))

-- `[host]` if the host has a tombstone, to be cleared
abbrev pub tombstone_of : PlanArgs → String → List String
tombstone_of args host = if contains_key host args.tombstones then host ∷ [] else []

-- `_comment_text`
unfoldable pub comment_text : Option Comment → String
comment_text none = ""
comment_text (some (text c)) = strip c
comment_text (some non_text) = ""

-- What becomes of a managed route or record whose container is gone.
pub data Cleanup : Type 0 where
  at_once start_tombstone expired : Cleanup
  waiting : ℕ → Cleanup

unfoldable pub tombstone_age : PlanArgs → Option ℕ → Cleanup
tombstone_age args none = start_tombstone
tombstone_age args (some ts) =
    let due = ts + args.dns_delete_grace_seconds in
    if leb due args.now then expired else waiting (max 1 (due - args.now))

-- The tests on cleanup, grace period and tombstone, which both loops make. `elapsed >= grace` is
-- written without a subtraction, so it holds also for a clock that was set back.
unfoldable pub cleanup : PlanArgs → String → Cleanup
cleanup args host =
    if args.immediate_cleanup || args.dns_delete_grace_seconds =ℕ 0
    then at_once
    else tombstone_age args (lookup host args.tombstones)

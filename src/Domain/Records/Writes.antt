-- ===== src/Domain/Records/Writes.antt =====
-- What a planned creation or update of a record writes, and to which records.
use cf_docker_tunnel_sync.Base.{
  String, true, false, ◌≡◌, refl, ◌⊎◌, inl, inr, Option, none, some, ◌++◌, arith, ◌==◌, Bool-cases,
  ◌||◌,
}
use cf_docker_tunnel_sync.Base.Lists.{All, All-append, All-trivial}
use cf_docker_tunnel_sync.Base.Dict.{lookup}
use cf_docker_tunnel_sync.Domain.Models.{
  OwnershipStatus, owned, adopted, unmanaged, foreign_tunnel, unrelated, is_strict, DnsRecord, text,
  DnsAction, PlannedDnsChange, parse_status,
}
use cf_docker_tunnel_sync.Domain.Plan.{
  PlanArgs, is_discovered, status_of, name_of, cleanup, Cleanup, at_once, start_tombstone, expired,
  waiting, discovered_hosts, tagger, target_cname, existing_dns,
}
use cf_docker_tunnel_sync.Domain.Plan.Collect.{All-changes}
use cf_docker_tunnel_sync.Domain.Plan.Discovered.{All-is_discovered}
use cf_docker_tunnel_sync.Domain.Records.{
  expected_tag, is_known_managed, missing_change, cleaned_record, kept_record, stale_record,
  missing_record, missing_records, active_record, active_records, known_record, active_change,
  managed_record, protected_active, new_record, is_irrelevant,
}

-- The action sends a record.
abbrev pub Writes : DnsAction → Type 0
Writes a = (a ≡ DnsAction.create) ⊎ (a ≡ DnsAction.update)

-- The record of the zone that an update replaces: it is owned, or it is adopted and the policy is not
-- strict.
pub record Replaces (args : PlanArgs) (c : PlannedDnsChange) (rec : DnsRecord) : Type 0 where
  pub listed : lookup c.hostname (existing_dns args) ≡ some rec
  pub action : c.action ≡ DnsAction.update
  pub id : c.record_id ≡ rec.id
  pub status :
      (parse_status (tagger args) rec (target_cname args) true ≡ owned)
      ⊎ ((parse_status (tagger args) rec (target_cname args) true ≡ adopted)
          × (is_strict args.policy ≡ false))

-- The zone has no record of a host that gets a new one.
abbrev pub IsNew : PlanArgs → PlannedDnsChange → Type 0
IsNew args c = (c.action ≡ DnsAction.create) × (lookup c.hostname (existing_dns args) ≡ none)

-- The record of the host in the zone, if there is one.
abbrev pub HasBasis : PlanArgs → PlannedDnsChange → Option DnsRecord → Type 0
HasBasis args c none = IsNew args c
HasBasis args c (some rec) = Replaces args c rec

-- The host is discovered, the record sent is the proxied CNAME to the tunnel with the tag, and what
-- the zone has of the host is nothing, or a record that may be replaced.
pub record WriteBasis (args : PlanArgs) (c : PlannedDnsChange) : Type 0 where
  pub active : is_discovered args c.hostname ≡ true
  pub to_tunnel : c.target_content ≡ some (target_cname args)
  pub tagged : c.target_comment ≡ some (text (expected_tag args))
  pub through_proxy : c.proxied ≡ true
  pub kind : c.record_type ≡ "CNAME"
  pub status :
      (c.ownership_status ≡ owned)
      ⊎ ((c.ownership_status ≡ adopted) × (is_strict args.policy ≡ false))
  pub basis : HasBasis args c (lookup c.hostname (existing_dns args))

abbrev pub WritesOwn : PlanArgs → PlannedDnsChange → Type 0
WritesOwn args c = Writes c.action → WriteBasis args c

module _ (args : PlanArgs) (host : String) (active : is_discovered args host ≡ true) where
  known-WritesOwn :
      (rec : DnsRecord) (status : OwnershipStatus)
      → lookup host (existing_dns args) ≡ some rec
      → parse_status (tagger args) rec (target_cname args) true ≡ status
      → WritesOwn args (known_record args host rec status)
  unfolding known_record managed_record protected_active
  known-WritesOwn rec owned e p h = ground arith
  known-WritesOwn rec adopted e p h = ground arith
  known-WritesOwn rec _ e p h = ground arith

  active-WritesOwn :
      (o : Option DnsRecord)
      → lookup host (existing_dns args) ≡ o
      → WritesOwn args (active_change args host o)
  unfolding active_change new_record
  active-WritesOwn none e h = ground arith
  active-WritesOwn (some rec) e h =
      known-WritesOwn rec (parse_status (tagger args) rec (target_cname args) true) e refl h

-- A change for a host that was not discovered never creates or updates.
module _ (args : PlanArgs) (host : String) (rec : DnsRecord) where
  cleaned-WritesOwn :
      (status : OwnershipStatus) (c : Cleanup)
      → All (WritesOwn args) (cleaned_record args host rec status c).changes
  unfolding cleaned_record missing_change
  cleaned-WritesOwn status at_once = (λ h. ground arith, tt)
  cleaned-WritesOwn status start_tombstone = (λ h. ground arith, tt)
  cleaned-WritesOwn status expired = (λ h. ground arith, tt)
  cleaned-WritesOwn status (waiting n) = (λ h. ground arith, tt)

  kept-WritesOwn :
      (status : OwnershipStatus) → All (WritesOwn args) (kept_record args host rec status).changes
  unfolding kept_record missing_change
  kept-WritesOwn owned = tt
  kept-WritesOwn adopted = tt
  kept-WritesOwn unmanaged = (λ h. ground arith, tt)
  kept-WritesOwn foreign_tunnel = (λ h. ground arith, tt)
  kept-WritesOwn unrelated = (λ h. ground arith, tt)

  stale-WritesOwn :
      (status : OwnershipStatus) → All (WritesOwn args) (stale_record args host rec status).changes
  unfolding stale_record
  stale-WritesOwn status = elim (Bool-cases (is_known_managed args host rec status)) [
    | inl e ↦ rw e (cleaned-WritesOwn status (cleanup args host))
    | inr e ↦ rw e (kept-WritesOwn status)
  ]

missing-WritesOwn :
    (args : PlanArgs) (rec : DnsRecord) → All (WritesOwn args) (missing_record args rec).changes
unfolding missing_record
missing-WritesOwn args rec =
    elim (Bool-cases (name_of rec == "" || is_discovered args (name_of rec))) [
      | inl e ↦ rw e tt
      | inr e ↦ rw e (elim (Bool-cases (is_irrelevant args rec)) [
        | inl f ↦ rw f tt
        | inr f ↦ rw f (stale-WritesOwn args (name_of rec) rec (status_of args rec))
      ])
    ]

pub records-WritesOwn :
    (args : PlanArgs)
    → All (WritesOwn args) ((active_records args).changes ++ (missing_records args).changes)
unfolding active_records missing_records active_record
records-WritesOwn args =
    All-append (WritesOwn args) (active_records args).changes (missing_records args).changes
      (All-changes (active_record args) (WritesOwn args) (λ h. is_discovered args h ≡ true)
        (λ h a. (active-WritesOwn args h a (lookup h (existing_dns args)) refl, tt))
        (discovered_hosts args) (All-is_discovered args))
      (All-changes (missing_record args) (WritesOwn args) (λ r. Unit {0})
        (λ r _. missing-WritesOwn args r) args.remote.existing_dns_records
        (All-trivial args.remote.existing_dns_records))

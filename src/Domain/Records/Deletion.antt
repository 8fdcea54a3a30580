-- ===== src/Domain/Records/Deletion.antt =====
-- Which records the loops of section 5 delete, update or create.
use cf_docker_tunnel_sync.Base.{
  String, false, ◌≡◌, ◌≢◌, inl, inr, refl, Option, none, some, ◌++◌, arith, ◌==◌, Bool-cases, sym,
  ◌∙◌, ◌||◌,
}
use cf_docker_tunnel_sync.Base.Lists.{All, All-append, All-In, In, All-trivial}
use cf_docker_tunnel_sync.Domain.Models.{
  OwnershipStatus, owned, adopted, unmanaged, foreign_tunnel, unrelated, is_legacy, DnsRecord,
  DnsAction, PlannedDnsChange,
}
use cf_docker_tunnel_sync.Domain.Plan.{
  PlanArgs, is_discovered, status_of, name_of, cleanup, Cleanup, at_once, start_tombstone, expired,
  waiting, discovered_hosts,
}
use cf_docker_tunnel_sync.Domain.Plan.Collect.{All-changes}
use cf_docker_tunnel_sync.Domain.Plan.Due.{IsDue, cleanup-at_once, cleanup-expired}
use cf_docker_tunnel_sync.Domain.Records.{
  is_known_managed, missing_change, cleaned_record, kept_record, stale_record, missing_record,
  missing_records, active_record, active_records, known_record, active_change, is_irrelevant,
  managed_record, protected_active, new_record,
}

-- Why a plan deletes a record: it is listed by Cloudflare under the hostname, it is ours, the host
-- was not discovered, and its time has come.
pub record DeletionBasis (args : PlanArgs) (c : PlannedDnsChange) : Type 0 where
  pub rec : DnsRecord
  pub listed : In rec args.remote.existing_dns_records
  pub named : rec.name ≡ some c.hostname
  pub same_id : c.record_id ≡ rec.id
  pub status : c.ownership_status ≡ status_of args rec
  pub ours : status_of args rec ≡ owned
  pub gone : is_discovered args c.hostname ≡ false
  pub due : IsDue args c.hostname

abbrev pub DeletesOwned : PlanArgs → PlannedDnsChange → Type 0
DeletesOwned args c = c.action ≡ DnsAction.delete → DeletionBasis args c

module _ (args : PlanArgs) (rec : DnsRecord) (listed : In rec args.remote.existing_dns_records)
    (host : String) (named : rec.name ≡ some host) (gone : is_discovered args host ≡ false) where
  cleaned-DeletesOwned :
      (status : OwnershipStatus)
      → status ≡ status_of args rec
      → status ≡ owned
      → (c : Cleanup) → cleanup args host ≡ c
      → All (DeletesOwned args) (cleaned_record args host rec status c).changes
  unfolding cleaned_record missing_change
  cleaned-DeletesOwned status same ours at_once e = (
    λ _. record {
      rec = rec;
      listed = listed;
      named = named;
      same_id = refl;
      status = same;
      ours = sym same ∙ ours;
      gone = gone;
      due = cleanup-at_once args host e;
    },
    tt,
  )
  cleaned-DeletesOwned status same ours start_tombstone e = (λ h. cc, tt)
  cleaned-DeletesOwned status same ours expired e = (
    λ _. record {
      rec = rec;
      listed = listed;
      named = named;
      same_id = refl;
      status = same;
      ours = sym same ∙ ours;
      gone = gone;
      due = cleanup-expired args host e;
    },
    tt,
  )
  cleaned-DeletesOwned status same ours (waiting n) e = (λ h. cc, tt)

  kept-DeletesOwned :
      (status : OwnershipStatus)
      → All (DeletesOwned args) (kept_record args host rec status).changes
  unfolding kept_record missing_change
  kept-DeletesOwned owned = tt
  kept-DeletesOwned adopted = tt
  kept-DeletesOwned unmanaged = (λ h. cc, tt)
  kept-DeletesOwned foreign_tunnel = (λ h. cc, tt)
  kept-DeletesOwned unrelated = (λ h. cc, tt)

  stale-DeletesOwned :
      is_legacy args.policy ≡ false
      → (status : OwnershipStatus) → status ≡ status_of args rec
      → All (DeletesOwned args) (stale_record args host rec status).changes
  unfolding stale_record is_known_managed
  stale-DeletesOwned plain owned e = cleaned-DeletesOwned owned e refl (cleanup args host) refl
  stale-DeletesOwned plain adopted e = rw plain (kept-DeletesOwned adopted)
  stale-DeletesOwned plain unmanaged e = rw plain (kept-DeletesOwned unmanaged)
  stale-DeletesOwned plain foreign_tunnel e = rw plain (kept-DeletesOwned foreign_tunnel)
  stale-DeletesOwned plain unrelated e = rw plain (kept-DeletesOwned unrelated)

named_lem : (rec : DnsRecord) → name_of rec ≢ "" → rec.name ≡ some (name_of rec)
named_lem rec h = ground arith

missing-DeletesOwned :
    (args : PlanArgs)
    → is_legacy args.policy ≡ false
    → (rec : DnsRecord) → In rec args.remote.existing_dns_records
    → All (DeletesOwned args) (missing_record args rec).changes
unfolding missing_record
missing-DeletesOwned args plain rec listed =
    elim (Bool-cases (name_of rec == "" || is_discovered args (name_of rec))) [
      | inl e ↦ rw e tt
      | inr e ↦ rw e (elim (Bool-cases (is_irrelevant args rec)) [
        | inl f ↦ rw f tt
        | inr f ↦ rw f (
            stale-DeletesOwned args rec listed (name_of rec) (named_lem rec (ground arith))
              (ground arith) plain (status_of args rec) refl)
      ])
    ]

-- A change for a discovered host never deletes.
known-keeps :
    (args : PlanArgs) (host : String) (rec : DnsRecord) (status : OwnershipStatus)
    → (known_record args host rec status).action ≢ DnsAction.delete
unfolding known_record managed_record protected_active
known-keeps args host rec owned h = ground arith
known-keeps args host rec adopted h = ground arith
known-keeps args host rec _ h = cc

active-keeps :
    (args : PlanArgs) (host : String) (o : Option DnsRecord)
    → (active_change args host o).action ≢ DnsAction.delete
unfolding active_change new_record
active-keeps args host none h = cc
active-keeps args host (some rec) h = known-keeps args host rec _ h

active-DeletesOwned :
    (args : PlanArgs) (host : String) → All (DeletesOwned args) (active_record args host).changes
unfolding active_record
active-DeletesOwned args host = (λ h. absurd (active-keeps args host _ h), tt)

-- Both loops.
pub records-DeletesOwned :
    (args : PlanArgs)
    → is_legacy args.policy ≡ false
    → All (DeletesOwned args) ((active_records args).changes ++ (missing_records args).changes)
unfolding active_records missing_records
records-DeletesOwned args plain =
    All-append (DeletesOwned args) (active_records args).changes (missing_records args).changes
      (All-changes (active_record args) (DeletesOwned args) (λ h. Unit {0})
        (λ h _. active-DeletesOwned args h) (discovered_hosts args)
        (All-trivial (discovered_hosts args)))
      (All-changes (missing_record args) (DeletesOwned args)
        (λ r. In r args.remote.existing_dns_records) (missing-DeletesOwned args plain)
        args.remote.existing_dns_records (All-In args.remote.existing_dns_records))

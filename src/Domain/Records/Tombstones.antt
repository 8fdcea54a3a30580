-- ===== src/Domain/Records/Tombstones.antt =====
-- Which tombstones section 5 sets.
use cf_docker_tunnel_sync.Base.{
  ℕ, String, false, ◌≡◌, inl, inr, refl, arith, Bool-cases, ◌||◌, ◌==◌,
}
use cf_docker_tunnel_sync.Base.Lists.{All, All-trivial}
use cf_docker_tunnel_sync.Base.Dict.{Entry}
use cf_docker_tunnel_sync.Domain.Models.{OwnershipStatus, owned, DnsRecord}
use cf_docker_tunnel_sync.Domain.Plan.{
  PlanArgs, is_discovered, cleanup, Cleanup, at_once, start_tombstone, expired, waiting, name_of,
  status_of, discovered_hosts,
}
use cf_docker_tunnel_sync.Domain.Plan.Collect.{All-to_set}
use cf_docker_tunnel_sync.Domain.Plan.Due.{SetsFresh, cleanup-start}
use cf_docker_tunnel_sync.Domain.Records.{
  is_known_managed, is_irrelevant, cleaned_record, kept_record, stale_record, missing_record,
  missing_records, active_record, active_records,
}

abbrev Sets : PlanArgs → String × ℕ → Type 0
Sets args = Entry (SetsFresh args)

module _ (args : PlanArgs) (host : String) (rec : DnsRecord)
    (gone : is_discovered args host ≡ false) where
  cleaned-Sets :
      (status : OwnershipStatus) (c : Cleanup)
      → cleanup args host ≡ c
      → All (Sets args) (cleaned_record args host rec status c).to_set
  unfolding cleaned_record
  cleaned-Sets status start_tombstone e = ((refl, gone, cleanup-start args host e), tt)
  cleaned-Sets status at_once e = tt
  cleaned-Sets status expired e = tt
  cleaned-Sets status (waiting n) e = tt

  kept-Sets : (status : OwnershipStatus) → All (Sets args) (kept_record args host rec status).to_set
  unfolding kept_record
  kept-Sets owned = tt
  kept-Sets _ = tt

  stale-Sets :
      (status : OwnershipStatus) → All (Sets args) (stale_record args host rec status).to_set
  unfolding stale_record
  stale-Sets status = elim (Bool-cases (is_known_managed args host rec status)) [
    | inl e ↦ rw e (cleaned-Sets status (cleanup args host) refl)
    | inr e ↦ rw e (kept-Sets status)
  ]

missing-Sets :
    (args : PlanArgs) (rec : DnsRecord) → All (Sets args) (missing_record args rec).to_set
unfolding missing_record
missing-Sets args rec = elim (Bool-cases (name_of rec == "" || is_discovered args (name_of rec))) [
  | inl e ↦ rw e tt
  | inr e ↦ rw e (elim (Bool-cases (is_irrelevant args rec)) [
    | inl f ↦ rw f tt
    | inr f ↦ rw f (stale-Sets args (name_of rec) rec (ground arith) (status_of args rec))
  ])
]

pub active_records-Sets :
    (args : PlanArgs) → All (Entry (SetsFresh args)) (active_records args).to_set
unfolding active_records active_record
active_records-Sets args =
    All-to_set (active_record args) (SetsFresh args) (λ h. Unit {0}) (λ h _. tt)
      (discovered_hosts args) (All-trivial (discovered_hosts args))

pub missing_records-Sets :
    (args : PlanArgs) → All (Entry (SetsFresh args)) (missing_records args).to_set
unfolding missing_records
missing_records-Sets args =
    All-to_set (missing_record args) (SetsFresh args) (λ r. Unit {0}) (λ r _. missing-Sets args r)
      args.remote.existing_dns_records (All-trivial args.remote.existing_dns_records)

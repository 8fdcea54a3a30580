-- ===== src/Domain/Planner/Legacy.antt =====
-- Under the policy "legacy_unrestricted" the plan deletes records that are not owned.
use cf_docker_tunnel_sync.Base.{
  String, true, false, ◌≡◌, ◌≢◌, refl, inl, none, ◌||◌, List, arith, ◌==◌,
}
use cf_docker_tunnel_sync.Base.Lists.{In, In-append_right}
use cf_docker_tunnel_sync.Base.Dict.{contains_key}
use cf_docker_tunnel_sync.Domain.Models.{
  OwnershipStatus, owned, legacy_unrestricted, DnsRecord, DnsAction, PlannedDnsChange, or_default,
}
use cf_docker_tunnel_sync.Domain.Models.DnsReason.{grace_expired}
use cf_docker_tunnel_sync.Domain.Plan.{
  PlanArgs, is_discovered, name_of, status_of, cleanup, at_once,
}
use cf_docker_tunnel_sync.Domain.Plan.Collect.{In-changes}
use cf_docker_tunnel_sync.Domain.Records.{
  is_known_managed, missing_change, cleaned_record, stale_record, missing_record, missing_records,
  active_records, is_irrelevant,
}
use cf_docker_tunnel_sync.Domain.Planner.{reconcile_plan, compute_change_plan}

-- The plan deletes the record, with the status that it has.
pub record Deletes (rec : DnsRecord) (status : OwnershipStatus) (changes : List PlannedDnsChange)
    : Type 0 where
  pub change : PlannedDnsChange
  pub listed : In change changes
  pub action : change.action ≡ DnsAction.delete
  pub same_id : change.record_id ≡ rec.id
  pub status_kept : change.ownership_status ≡ status

module _ (args : PlanArgs) (rec : DnsRecord) where
  legacy_managed :
      (host : String) (status : OwnershipStatus)
      → args.policy ≡ legacy_unrestricted
      → contains_key host args.tombstones ≡ true
      → is_known_managed args host rec status ≡ true
  unfolding is_known_managed
  legacy_managed host owned legacy tomb = refl
  legacy_managed host _ legacy tomb = ground arith

  cleanup_now : (host : String) → args.immediate_cleanup ≡ true → cleanup args host ≡ at_once
  unfolding cleanup
  cleanup_now host now = ground arith

  stale-Deletes :
      (host : String) (status : OwnershipStatus)
      → args.policy ≡ legacy_unrestricted
      → args.immediate_cleanup ≡ true
      → contains_key host args.tombstones ≡ true
      → Deletes rec status (stale_record args host rec status).changes
  unfolding stale_record cleaned_record missing_change
  stale-Deletes host status legacy now tomb =
      rw (legacy_managed host status legacy tomb, cleanup_now host now)
        (record {
          change = missing_change args host rec status DnsAction.delete none none grace_expired;
          listed = inl refl;
          action = refl;
          same_id = refl;
          status_kept = refl;
        })

  missing-Deletes :
      name_of rec ≢ ""
      → is_discovered args (name_of rec) ≡ false
      → or_default rec.rec_type "CNAME" ≡ "CNAME"
      → args.policy ≡ legacy_unrestricted
      → args.immediate_cleanup ≡ true
      → contains_key (name_of rec) args.tombstones ≡ true
      → Deletes rec (status_of args rec) (missing_record args rec).changes
  unfolding missing_record
  missing-Deletes named gone cname legacy now tomb =
      let a : (name_of rec == "" || is_discovered args (name_of rec)) ≡ false = ground arith in
      let b : is_irrelevant args rec ≡ false = ground arith in
      rw (a, b) (stale-Deletes (name_of rec) (status_of args rec) legacy now tomb)

-- Under "legacy_unrestricted" with immediate cleanup, a listed CNAME record is deleted if its host
-- has a tombstone and was not discovered, whatever its ownership status is: the comment on SAFE-01,
-- that only owned records are ever planned for deletion, does not hold for this policy.
pub compute_change_plan-Deletes :
    (args : PlanArgs) (rec : DnsRecord)
    → args.snapshot.docker_ok ≡ true
    → In rec args.remote.existing_dns_records
    → name_of rec ≢ ""
    → is_discovered args (name_of rec) ≡ false
    → or_default rec.rec_type "CNAME" ≡ "CNAME"
    → args.policy ≡ legacy_unrestricted
    → args.immediate_cleanup ≡ true
    → contains_key (name_of rec) args.tombstones ≡ true
    → Deletes rec (status_of args rec) (compute_change_plan args).dns_changes
unfolding compute_change_plan reconcile_plan
compute_change_plan-Deletes args rec up listed named gone cname legacy now tomb =
    let d = missing-Deletes args rec named gone cname legacy now tomb in
    simp up (record {
      change = d.change;
      listed =
          In-append_right d.change (active_records args).changes (missing_records args).changes (
            unfold missing_records in
            In-changes (missing_record args) d.change rec args.remote.existing_dns_records listed
              d.listed);
      action = d.action;
      same_id = d.same_id;
      status_kept = d.status_kept;
    })

-- ===== src/Application/Cycle/Telling.antt =====
-- tunnel_sync/application/sync.py: which reports of a cycle are alerts, counted runs and entries of the
-- history.
use cf_docker_tunnel_sync.Base.{
  ℕ, String, Bool, true, false, List, [], ◌∷◌, ◌++◌, ◌≡◌, refl, ap, ◌∙◌, inl, inr, Bool-cases, ◌&&◌,
  if◌then◌else◌,
}
use mathlib.Core.List.{append-nil}
use cf_docker_tunnel_sync.Base.Lists.{contains}
use cf_docker_tunnel_sync.Base.Dict.{Dict, insert, erase, contains_key}
use cf_docker_tunnel_sync.Domain.Plan.{PlanArgs}
use cf_docker_tunnel_sync.Application.Cycle.{CycleStatus}
use cf_docker_tunnel_sync.Application.Cycle.Finishing.{
  preserved_lines, tombstone_reports, drop_lines,
}
use cf_docker_tunnel_sync.Application.Cycle.Planning.{is_drop}
use cf_docker_tunnel_sync.Application.Discovery.{ServiceItem}
use cf_docker_tunnel_sync.Domain.Models.{
  OwnershipStatus, IngressAction, DnsAction, PlannedIngressChange, PlannedDnsChange, ChangePlan,
}
use cf_docker_tunnel_sync.Application.Reports.{
  Report, Alert, alert_unless, dry_run_reports, line, recovered, tombstoned, sudden_drop, alert,
  sync_run, sync_history, adoption_of, adoptions, ingress_line, ingress_lines, dns_line, dns_lines,
  recovery_lines, tombstone_lines, plan_reports,
}

abbrev pub is_loud : {S : Type 0} → Report S → Bool
is_loud (alert a) = true
is_loud (sync_run result count tripped) = true
is_loud (sync_history status count summary) = true
is_loud _ = false

-- The alerts, the counted runs and the entries of the history.
abbrev pub loud : {S : Type 0} → List (Report S) → List (Report S)
loud [] = []
loud (r ∷ rs) = let rest = loud rs in if is_loud r then r ∷ rest else rest

abbrev Reports : Type 0
Reports = List (Report CycleStatus)

pub loud-append : (xs ys : Reports) → loud (xs ++ ys) ≡ loud xs ++ loud ys
loud-append [] ys = refl
loud-append (x ∷ xs) ys = elim (Bool-cases (is_loud x)) [
  | inl e ↦ rw e (ap (λ rest. x ∷ rest) (loud-append xs ys))
  | inr e ↦ rw e (loud-append xs ys)
]

pub record IsQuiet (xs : Reports) : Type 0 where
  pub quiet : loud xs ≡ []

pub append-IsQuiet : (xs ys : Reports) → IsQuiet xs → IsQuiet ys → IsQuiet (xs ++ ys)
append-IsQuiet xs ys h k = record { quiet = loud-append xs ys ∙ rw (h.quiet, k.quiet) refl }

if-IsQuiet : (b : Bool) (x y : Reports) → IsQuiet x → IsQuiet y → IsQuiet (if b then x else y)
if-IsQuiet true x y h k = h
if-IsQuiet false x y h k = k

recovery_lines-IsQuiet :
    (hosts origins : List String) (tombstones : Dict ℕ)
    → IsQuiet (recovery_lines hosts origins tombstones)
unfolding recovery_lines
recovery_lines-IsQuiet [] origins tombstones = record { quiet = refl }
recovery_lines-IsQuiet (host ∷ hosts) origins tombstones =
    append-IsQuiet _ _
      (if-IsQuiet (contains_key host tombstones && contains origins host)
        (line (recovered host) ∷ []) [] (record { quiet = refl }) (record { quiet = refl }))
      (recovery_lines-IsQuiet hosts origins (
        if contains_key host tombstones && contains origins host
        then erase host tombstones
        else tombstones))

tombstone_lines-IsQuiet :
    (grace : ℕ) (to_set tombstones : Dict ℕ) → IsQuiet (tombstone_lines grace to_set tombstones)
unfolding tombstone_lines
tombstone_lines-IsQuiet grace [] tombstones = record { quiet = refl }
tombstone_lines-IsQuiet grace ((host, ts) ∷ to_set) tombstones =
    append-IsQuiet _ _
      (if-IsQuiet (contains_key host tombstones) [] (line (tombstoned host grace) ∷ [])
        (record { quiet = refl }) (record { quiet = refl }))
      (tombstone_lines-IsQuiet grace to_set
        (if contains_key host tombstones then tombstones else insert host ts tombstones))

adoption_of-IsQuiet :
    (id : String) (c : PlannedDnsChange) (s : OwnershipStatus) → IsQuiet (adoption_of id c s)
adoption_of-IsQuiet id c OwnershipStatus.adopted = record { quiet = refl }
adoption_of-IsQuiet id c OwnershipStatus.owned = record { quiet = refl }
adoption_of-IsQuiet id c OwnershipStatus.unmanaged = record { quiet = refl }
adoption_of-IsQuiet id c OwnershipStatus.foreign_tunnel = record { quiet = refl }
adoption_of-IsQuiet id c OwnershipStatus.unrelated = record { quiet = refl }

adoptions-IsQuiet : (id : String) (cs : List PlannedDnsChange) → IsQuiet (adoptions id cs)
unfolding adoptions
adoptions-IsQuiet id [] = record { quiet = refl }
adoptions-IsQuiet id (c ∷ cs) =
    append-IsQuiet _ _ (adoption_of-IsQuiet id c c.ownership_status) (adoptions-IsQuiet id cs)

ingress_line-IsQuiet : (c : PlannedIngressChange) (a : IngressAction) → IsQuiet (ingress_line c a)
ingress_line-IsQuiet c IngressAction.noop = record { quiet = refl }
ingress_line-IsQuiet c IngressAction.create = record { quiet = refl }
ingress_line-IsQuiet c IngressAction.update = record { quiet = refl }
ingress_line-IsQuiet c IngressAction.delete = record { quiet = refl }

ingress_lines-IsQuiet : (cs : List PlannedIngressChange) → IsQuiet (ingress_lines cs)
unfolding ingress_lines
ingress_lines-IsQuiet [] = record { quiet = refl }
ingress_lines-IsQuiet (c ∷ cs) =
    append-IsQuiet _ _ (ingress_line-IsQuiet c c.action) (ingress_lines-IsQuiet cs)

dns_line-IsQuiet : (c : PlannedDnsChange) (a : DnsAction) → IsQuiet (dns_line c a)
dns_line-IsQuiet c DnsAction.noop = record { quiet = refl }
dns_line-IsQuiet c DnsAction.create = record { quiet = refl }
dns_line-IsQuiet c DnsAction.update = record { quiet = refl }
dns_line-IsQuiet c DnsAction.delete = record { quiet = refl }
dns_line-IsQuiet c DnsAction.protect = record { quiet = refl }

dns_lines-IsQuiet : (cs : List PlannedDnsChange) → IsQuiet (dns_lines cs)
unfolding dns_lines
dns_lines-IsQuiet [] = record { quiet = refl }
dns_lines-IsQuiet (c ∷ cs) = append-IsQuiet _ _ (dns_line-IsQuiet c c.action) (dns_lines-IsQuiet cs)

pub preserved_lines-IsQuiet :
    (grace now : ℕ) (tombstones : Dict ℕ) → IsQuiet (preserved_lines grace now tombstones)
unfolding preserved_lines
preserved_lines-IsQuiet grace now [] = record { quiet = refl }
preserved_lines-IsQuiet grace now ((host, ts) ∷ tombstones) = record {
  quiet = (preserved_lines-IsQuiet grace now tombstones).quiet;
}

-- What is told of a plan before it is executed.
pub planned-IsQuiet :
    (args : PlanArgs) (plan : ChangePlan)
    → IsQuiet (tombstone_reports args plan ++ plan_reports plan)
unfolding tombstone_reports plan_reports
planned-IsQuiet args plan =
    append-IsQuiet _ _
      (append-IsQuiet _ _ (recovery_lines-IsQuiet plan.tombstones_to_clear _ _)
        (tombstone_lines-IsQuiet _ plan.tombstones_to_set _))
      (append-IsQuiet _ _
        (append-IsQuiet _ _ (adoptions-IsQuiet plan.plan_id plan.dns_changes)
          (ingress_lines-IsQuiet plan.ingress_changes))
        (dns_lines-IsQuiet plan.dns_changes))

pub dry_run_reports-IsQuiet : (plan : ChangePlan) → IsQuiet (dry_run_reports plan)
unfolding dry_run_reports
dry_run_reports-IsQuiet plan = record { quiet = refl }

pub drop_lines-IsQuiet : (known : ℕ) (items : List ServiceItem) → IsQuiet (drop_lines known items)
unfolding drop_lines
drop_lines-IsQuiet known items =
    if-IsQuiet (is_drop known items) (line (sudden_drop known) ∷ []) [] (record { quiet = refl })
      (record { quiet = refl })

pub alert_unless-loud :
    (dry : Bool) (a : Alert) → loud {S = CycleStatus} (alert_unless dry a) ≡ alert_unless dry a
unfolding alert_unless
alert_unless-loud true a = refl
alert_unless-loud false a = refl

-- Reports that are not loud keep what was told.
pub said :
    (told reports more : Reports)
    → loud reports ≡ told
    → IsQuiet more
    → loud (reports ++ more) ≡ told
said told reports more h quiet = loud-append reports more ∙ rw (h, quiet.quiet) (append-nil told)

-- Reports with loud ones.
pub told_more :
    (told reports more new : Reports)
    → loud reports ≡ told
    → loud more ≡ new
    → loud (reports ++ more) ≡ told ++ new
told_more told reports more new h e = loud-append reports more ∙ rw (h, e) refl

-- Quiet reports, and loud ones after them.
pub told_after :
    (told reports more rest new : Reports)
    → loud reports ≡ told
    → IsQuiet more
    → loud rest ≡ new
    → loud (reports ++ (more ++ rest)) ≡ told ++ new
told_after told reports more rest new h quiet e =
    told_more told reports (more ++ rest) new h (loud-append more rest ∙ rw (quiet.quiet, e) refl)

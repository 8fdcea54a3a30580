-- ===== src/Application/Policy.antt =====
-- tunnel_sync/application/executor.py: `DeletionPolicy`.
use cf_docker_tunnel_sync.Base.{
  ℕ, ◌+◌, ◌*◌, Bool, false, not, ◌&&◌, Option, none, some, ltb, ◌=ℕ◌, if◌then◌else◌,
}
use Prim.Native.Nat.{max}
use cf_docker_tunnel_sync.Domain.Models.{ChangePlan}

-- The ratio is the fraction of two numbers.
pub record DeletionPolicy : Type 0 where
  pub maximum : ℕ
  pub ratio : Option (ℕ × ℕ)
  pub allow_mass : Bool

-- The messages of `BlastRadiusExceededError`, with the number of deletions and the limit.
pub data GuardError : Type 0 where
  threshold_exceeded : ℕ → ℕ → GuardError
  ratio_exceeded : ℕ → ℕ → ℕ → GuardError

pub data Verdict : Type 0 where
  allowed : ℕ → Verdict
  refused : GuardError → Verdict

abbrev pub planned_deletions : ChangePlan → ℕ
planned_deletions plan = max plan.summary.ingress_deletes plan.summary.dns_deletes

-- `ratio > 0 and total and count / total > ratio`
unfoldable pub over_ratio : Option (ℕ × ℕ) → ℕ → ℕ → Bool
over_ratio none count total = false
over_ratio (some (num, den)) count total =
    ltb 0 num && not (total =ℕ 0) && ltb (num * total) (count * den)

-- The second error replaces the first.
unfoldable pub validate : DeletionPolicy → ChangePlan → Verdict
validate policy plan =
    let count = planned_deletions plan in
    let total = plan.summary.total_services_discovered + count in
    if policy.allow_mass
    then allowed count
    else if over_ratio policy.ratio count total
    then refused (ratio_exceeded count total policy.maximum)
    else if ltb policy.maximum count
    then refused (threshold_exceeded count policy.maximum)
    else allowed count

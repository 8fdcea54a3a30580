-- ===== src/Application/Executor/Guard.antt =====
-- The limit on deletions, and dry runs.
use cf_docker_tunnel_sync.Base.{
  ℕ, ◌+◌, ◌≤◌, ◌<◌, String, Bool, true, false, ◌||◌, ◌≡◌, ◌⊎◌, refl, Option, List, [], ◌∷◌, ◌++◌,
  map, arith,
}
use cf_docker_tunnel_sync.Base.Lists.{All, All-append}
use cf_docker_tunnel_sync.Domain.Models.{ChangePlan}
use cf_docker_tunnel_sync.Application.Ports.{TunnelConfig, Writer}
use cf_docker_tunnel_sync.Application.Policy.{
  DeletionPolicy, GuardError, Verdict, allowed, refused, planned_deletions, over_ratio, validate,
}
use cf_docker_tunnel_sync.Application.Executor.{
  skipped, OperationResult, skipped_ingress, skipped_dns, dry_operations, RunState, Outcome,
  returned, raised_guard, guarded, execute, guard_tripped,
}

-- More deletions of one kind than the limit allows.
abbrev pub ExceedsLimit : DeletionPolicy → ChangePlan → Type 0
ExceedsLimit policy plan =
    (policy.maximum < plan.summary.ingress_deletes) ⊎ (policy.maximum < plan.summary.dns_deletes)

validate-allowed :
    (policy : DeletionPolicy) (plan : ChangePlan) {n : ℕ}
    → validate policy plan ≡ allowed n
    → (policy.allow_mass ≡ true)
      ⊎ ((plan.summary.ingress_deletes ≤ policy.maximum)
          × (plan.summary.dns_deletes ≤ policy.maximum)
          × (over_ratio policy.ratio
                (planned_deletions plan)
                (plan.summary.total_services_discovered + planned_deletions plan)
              ≡ false))
unfolding validate
validate-allowed policy plan h = ground arith

validate-refused :
    (policy : DeletionPolicy) (plan : ChangePlan)
    → policy.allow_mass ≡ false
    → ExceedsLimit policy plan
    → (e : GuardError) × (validate policy plan ≡ refused e)
validate-refused policy plan strict over = go (validate policy plan) refl
  where
    go :
        (v : Verdict)
        → validate policy plan ≡ v
        → (e : GuardError) × (validate policy plan ≡ refused e)
    go (allowed n) h = absurd (ground (arith, validate-allowed policy plan h))
    go (refused e) h = (e, h)

All-skipped :
    {A : Type 0} (f : A → OperationResult)
    → ((x : A) → (f x).status ≡ skipped)
    → (xs : List A) → All (λ op. op.status ≡ skipped) (map f xs)
All-skipped f h [] = tt
All-skipped f h (x ∷ xs) = (h x, All-skipped f h xs)

dry_operations-skipped : (plan : ChangePlan) → All (λ op. op.status ≡ skipped) (dry_operations plan)
unfolding dry_operations skipped_ingress skipped_dns
dry_operations-skipped plan =
    All-append (λ op. op.status ≡ skipped) (map skipped_ingress plan.ingress_changes)
      (map skipped_dns plan.dns_changes)
      (All-skipped skipped_ingress (λ c. refl) plan.ingress_changes)
      (All-skipped skipped_dns (λ c. refl) plan.dns_changes)

module _ (writer : Writer) where
  -- The run stopped at the guard: Cloudflare is as it was and nothing was attempted.
  pub record StoppedAtGuard (s : RunState writer.World) (o : Outcome writer.World) : Type 0 where
    pub error : GuardError
    pub after : RunState writer.World
    pub raised : o ≡ raised_guard error after
    pub same_world : after.world ≡ s.world
    pub no_operations : after.operations ≡ []
    pub same_recorded : after.recorded ≡ s.recorded

  -- The run was dry: Cloudflare is as it was, and every operation of the result was skipped.
  pub record RanDry (s : RunState writer.World) (o : Outcome writer.World) : Type 0 where
    pub after : RunState writer.World
    pub finished : o ≡ returned after
    pub same_world : after.world ≡ s.world
    pub all_skipped : All (λ op. op.status ≡ skipped) after.operations
    pub same_recorded : after.recorded ≡ s.recorded

  module _ (policy : DeletionPolicy) (dry_run fail_fast : Bool) (account_id : String)
      (current : Option TunnelConfig) (plan : ChangePlan) (s : RunState writer.World) where
    -- A run that is not dry, with more planned deletions of routes or of records than the limit and
    -- no override, raises before any call to Cloudflare.
    pub execute-StoppedAtGuard :
        (dry_run || plan.dry_run) ≡ false
        → policy.allow_mass ≡ false
        → ExceedsLimit policy plan
        → StoppedAtGuard s (execute writer policy dry_run fail_fast account_id current plan s)
    unfolding execute guarded
    execute-StoppedAtGuard real strict over =
        let v = validate-refused policy plan strict over in
        rw (real, v.1)
          (record {
            error = v.0;
            after = record s { operations = []; log = s.log ++ guard_tripped v.0 ∷ [] };
            raised = refl;
            same_world = refl;
            no_operations = refl;
            same_recorded = refl;
          })

    -- A dry run, asked for by the caller or by the plan, changes nothing at Cloudflare, skips every
    -- operation and records none, whatever the deletion policy is.
    pub execute-RanDry :
        (dry_run || plan.dry_run) ≡ true
        → RanDry s (execute writer policy dry_run fail_fast account_id current plan s)
    unfolding execute
    execute-RanDry dry = rw dry (record {
      after = record s { operations = dry_operations plan };
      finished = refl;
      same_world = refl;
      all_skipped = dry_operations-skipped plan;
      same_recorded = refl;
    })

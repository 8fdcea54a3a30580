-- ===== src/Application/Executor/Trace.antt =====
-- Which calls a run makes.
use cf_docker_tunnel_sync.Base.{
  ℕ, ◌+◌, String, Bool, false, not, ◌&&◌, ◌||◌, ◌≡◌, refl, sym, ap, ◌∙◌, inl, inr, ◌=ℕ◌, Option,
  none, some, List, [], ◌∷◌, ◌++◌, arith, if◌then◌else◌, Bool-cases,
}
use cf_docker_tunnel_sync.Base.Lists.{length, length-append}
use cf_docker_tunnel_sync.Domain.Models.{ChangePlan, PlannedDnsChange, DnsAction}
use cf_docker_tunnel_sync.Application.Ports.{Call, TunnelConfig, Writer}
use cf_docker_tunnel_sync.Application.Policy.{DeletionPolicy, allowed, validate}
use cf_docker_tunnel_sync.Application.Calls.{
  ingress_changed, ingress_call, create_call, update_call, delete_call,
}
use cf_docker_tunnel_sync.Application.Executor.{
  Resource, Status, succeeded, failed, Note, no_note, error_note, OperationResult, RunState,
  Outcome, returned, protection, dns_resource, ingress, guarded, execute, add_operation, attempt,
  finish_attempt, and_then, perform_as, perform_dns, perform_all, perform_ingress, perform,
  override_log,
}

-- The call that a planned change asks for; a no-op and a protection ask for none.
unfoldable pub calls_as : DnsAction → String → PlannedDnsChange → List Call
calls_as DnsAction.noop zone c = []
calls_as DnsAction.protect zone c = []
calls_as DnsAction.create zone c = create_call zone c ∷ []
calls_as DnsAction.update zone c = update_call zone c ∷ []
calls_as DnsAction.delete zone c = delete_call zone c ∷ []

unfoldable pub dns_calls : String → List PlannedDnsChange → List Call
dns_calls zone [] = []
dns_calls zone (c ∷ cs) = calls_as c.action zone c ++ dns_calls zone cs

-- The calls that a plan asks for: the configuration, if it differs, and one call for each creation,
-- update and deletion of a record, in the order of the plan.
unfoldable pub planned_calls : String → Option TunnelConfig → ChangePlan → List Call
planned_calls account_id current plan =
    (if ingress_changed current plan then ingress_call account_id current plan ∷ [] else [])
    ++ dns_calls plan.zone_id plan.dns_changes

abbrev outcome_of : Resource → String → String → Status → Note → OperationResult
outcome_of resource action target status reason = record {
  resource = resource;
  action = action;
  target = target;
  status = status;
  reason = reason;
}

-- The operations that a change adds to the result.
abbrev reports : DnsAction → ℕ
reports DnsAction.noop = 0
reports _ = 1

pub total_reports : List PlannedDnsChange → ℕ
total_reports [] = 0
total_reports (c ∷ cs) = reports c.action + total_reports cs

-- The operations that a plan adds to the result.
pub planned_reports : Option TunnelConfig → ChangePlan → ℕ
planned_reports current plan =
    (if ingress_changed current plan then 1 else 0) + total_reports plan.dns_changes

module _ (writer : Writer) where
  -- All the calls are made, whatever they answer.
  pub run_calls : writer.World → List Call → writer.World
  run_calls w [] = w
  run_calls w (c ∷ cs) = run_calls (writer.mutate w c).0 cs

  run_calls-append :
      (w : writer.World) (xs ys : List Call)
      → run_calls w (xs ++ ys) ≡ run_calls (run_calls w xs) ys
  unfolding run_calls
  run_calls-append w [] ys = refl
  run_calls-append w (c ∷ cs) ys = run_calls-append (writer.mutate w c).0 cs ys

  -- The run returned, Cloudflare is as after the calls `cs`, and the result has grown by `n`.
  pub record Made (cs : List Call) (n : ℕ) (s : RunState writer.World) (o : Outcome writer.World)
      : Type 0 where
    pub after : RunState writer.World
    pub finished : o ≡ returned after
    pub world : after.world ≡ run_calls s.world cs
    pub operations : length after.operations ≡ length s.operations + n

  module _ (resource : Resource) (action target : String) (call : Call)
      (s : RunState writer.World) where
    finish-Made :
        (r : writer.World × Option String)
        → writer.mutate s.world call ≡ r
        → Made (call ∷ []) 1 s (finish_attempt writer false resource action target s r)
    unfolding finish_attempt add_operation run_calls
    finish-Made (w, none) e = record {
      after =
          add_operation writer (outcome_of resource action target succeeded no_note)
            (record s { world = w });
      finished = refl;
      world = ap (λ (r : writer.World × Option String). r.0) (sym e);
      operations = length-append s.operations _;
    }
    finish-Made (w, some error) e = record {
      after =
          add_operation writer (outcome_of resource action target failed (error_note error))
            (record s { world = w });
      finished = refl;
      world = ap (λ (r : writer.World × Option String). r.0) (sym e);
      operations = length-append s.operations _;
    }

    attempt-Made : Made (call ∷ []) 1 s (attempt writer false resource action target call s)
    unfolding attempt
    attempt-Made = finish-Made (writer.mutate s.world call) refl

  Made-and_then :
      (cs ds : List Call) (n m : ℕ) (s : RunState writer.World) (o : Outcome writer.World)
      (f : RunState writer.World → Outcome writer.World)
      → Made cs n s o
      → ((t : RunState writer.World) → Made ds m t (f t))
      → Made (cs ++ ds) (n + m) s (and_then writer o f)
  unfolding and_then
  Made-and_then cs ds n m s o f first second =
      let next = second first.after in
      rw first.finished (record {
        after = next.after;
        finished = next.finished;
        world = next.world ∙ rw (first.world, run_calls-append s.world cs ds);
        operations = omega (arith, next.operations, first.operations);
      })

  Made-nothing : (s : RunState writer.World) → Made [] 0 s (returned s)
  unfolding run_calls
  Made-nothing s = record { after = s; finished = refl; world = refl; operations = omega arith }

  perform_as-Made :
      (a : DnsAction) (zone : String) (c : PlannedDnsChange) (s : RunState writer.World)
      → Made (calls_as a zone c) (reports a) s (perform_as writer a false zone c s)
  unfolding perform_as calls_as
  perform_as-Made DnsAction.noop zone c s = Made-nothing s
  perform_as-Made DnsAction.create zone c s =
      attempt-Made dns_resource "create" c.hostname (create_call zone c) s
  perform_as-Made DnsAction.update zone c s =
      attempt-Made dns_resource "update" c.hostname (update_call zone c) s
  perform_as-Made DnsAction.delete zone c s =
      attempt-Made dns_resource "delete" c.hostname (delete_call zone c) s
  perform_as-Made DnsAction.protect zone c s = record {
    after = add_operation writer (protection c) s;
    finished = refl;
    world = unfold add_operation run_calls in refl;
    operations = unfold add_operation in length-append s.operations (protection c ∷ []);
  }

  perform_all-Made :
      (zone : String) (cs : List PlannedDnsChange) (s : RunState writer.World)
      → Made (dns_calls zone cs) (total_reports cs) s (perform_all writer false zone cs s)
  unfolding perform_all dns_calls total_reports perform_dns
  perform_all-Made zone [] s = Made-nothing s
  perform_all-Made zone (c ∷ cs) s =
      Made-and_then (calls_as c.action zone c) (dns_calls zone cs) (reports c.action)
        (total_reports cs) s (perform_as writer c.action false zone c s)
        (perform_all writer false zone cs) (perform_as-Made c.action zone c s)
        (λ t. perform_all-Made zone cs t)

  perform_ingress-Made :
      (account_id : String) (current : Option TunnelConfig) (plan : ChangePlan)
      (s : RunState writer.World)
      → Made
          (if ingress_changed current plan then ingress_call account_id current plan ∷ [] else [])
          (if ingress_changed current plan then 1 else 0)
          s
          (perform_ingress writer false account_id current plan s)
  unfolding perform_ingress
  perform_ingress-Made account_id current plan s =
      elim (Bool-cases (ingress_changed current plan)) [
        | inl e ↦
            rw e (attempt-Made ingress "update" "ingress" (ingress_call account_id current plan) s)
        | inr e ↦ rw e (Made-nothing s)
      ]

  perform-Made :
      (account_id : String) (current : Option TunnelConfig) (plan : ChangePlan)
      (s : RunState writer.World)
      → Made
          (planned_calls account_id current plan)
          (planned_reports current plan)
          s
          (perform writer false account_id current plan s)
  unfolding perform planned_calls planned_reports
  perform-Made account_id current plan s =
      Made-and_then _ _ _ _ s _ (perform_all writer false plan.zone_id plan.dns_changes)
        (perform_ingress-Made account_id current plan s)
        (perform_all-Made plan.zone_id plan.dns_changes)

  -- The run returned; Cloudflare is as after the calls, and the result has `n` operations.
  pub record Ran (cs : List Call) (n : ℕ) (s : RunState writer.World) (o : Outcome writer.World)
      : Type 0 where
    pub after : RunState writer.World
    pub finished : o ≡ returned after
    pub world : after.world ≡ run_calls s.world cs
    pub operations : length after.operations ≡ n

  override_log-same :
      (policy : DeletionPolicy) (n : ℕ) (s : RunState writer.World)
      → ((override_log writer policy n s).world ≡ s.world)
        × ((override_log writer policy n s).operations ≡ s.operations)
  unfolding override_log
  override_log-same policy n s = elim (Bool-cases (policy.allow_mass && not (n =ℕ 0))) [
    | inl e ↦ rw e (refl, refl)
    | inr e ↦ rw e (refl, refl)
  ]

  -- A run that is not dry, whose deletions are allowed and that does not fail fast returns: it makes
  -- all the calls that the plan asks for, in the order of the plan, whichever of them fail, and
  -- reports one operation for each of them and for each protected record.
  pub execute-Ran :
      (policy : DeletionPolicy) (dry_run : Bool) (account_id : String)
      (current : Option TunnelConfig) (plan : ChangePlan) (n : ℕ) (s : RunState writer.World)
      → (dry_run || plan.dry_run) ≡ false
      → validate policy plan ≡ allowed n
      → Ran
          (planned_calls account_id current plan)
          (planned_reports current plan)
          s
          (execute writer policy dry_run false account_id current plan s)
  unfolding execute guarded
  execute-Ran policy dry_run account_id current plan n s real ok =
      let start = record s { operations = [] } in
      let same = override_log-same policy n start in
      let made = perform-Made account_id current plan (override_log writer policy n start) in
      rw (real, ok)
        (record {
          after = made.after;
          finished = made.finished;
          world = made.world ∙ ap (λ w. run_calls w (planned_calls account_id current plan)) same.0;
          operations = omega (arith, made.operations, ap length same.1);
        })

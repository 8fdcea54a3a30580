-- ===== src/Application/Tombstones/Grace.antt =====
-- The grace period across several cycles.
use cf_docker_tunnel_sync.Base.{
  ℕ, ◌+◌, ◌≤◌, String, Bool, true, false, ◌≡◌, ◌≢◌, ◌⊎◌, inl, inr, refl, sym, subst, subst₂, some,
  List, [], ◌∷◌, ◌++◌, if◌then◌else◌, arith,
}
use mathlib.Core.List.{append-nil, append_assoc}
use cf_docker_tunnel_sync.Base.Lists.{All, All-map, In, In-append_left, In-append_right}
use cf_docker_tunnel_sync.Base.Dict.{
  Dict, lookup, insert, erase, lookup-erase, lookup-nil, lookup-insert_cases, Entry,
}
use cf_docker_tunnel_sync.Domain.Models.{is_legacy, DnsAction}
use cf_docker_tunnel_sync.Domain.Plan.{PlanArgs, is_discovered, active_origins}
use cf_docker_tunnel_sync.Domain.Plan.Due.{SetsFresh, IsDue}
use cf_docker_tunnel_sync.Domain.Planner.{compute_change_plan}
use cf_docker_tunnel_sync.Domain.Planner.Safety.{
  compute_change_plan-SetsFresh, compute_change_plan-DeletesOwned,
}
use cf_docker_tunnel_sync.Application.Tombstones.{
  clear_recovered, set_missing, pop_all, planned_tombstones, next_tombstones, Cycle, args_at,
  run_cycles,
}

lookup-erased :
    (host k : String) (ts : ℕ) (t : Dict ℕ)
    → lookup host (erase k t) ≡ some ts
    → lookup host t ≡ some ts
lookup-erased host k ts t h = ground (arith, lookup-erase host k t)

lookup-erased_if :
    (b : Bool) (host k : String) (ts : ℕ) (t : Dict ℕ)
    → lookup host (if b then erase k t else t) ≡ some ts
    → lookup host t ≡ some ts
lookup-erased_if true host k ts t h = lookup-erased host k ts t h
lookup-erased_if false host k ts t h = h

lookup-clear_recovered :
    (host : String) (ts : ℕ) (hosts origins : List String) (t : Dict ℕ)
    → lookup host (clear_recovered hosts origins t) ≡ some ts
    → lookup host t ≡ some ts
unfolding clear_recovered
lookup-clear_recovered host ts [] origins t h = h
lookup-clear_recovered host ts (k ∷ hosts) origins t h =
    lookup-erased_if _ host k ts t (lookup-clear_recovered host ts hosts origins _ h)

lookup-pop_all :
    (host : String) (ts : ℕ) (hosts : List String) (t : Dict ℕ)
    → lookup host (pop_all hosts t) ≡ some ts
    → lookup host t ≡ some ts
unfolding pop_all
lookup-pop_all host ts [] t h = h
lookup-pop_all host ts (k ∷ hosts) t h =
    lookup-erased host k ts t (lookup-pop_all host ts hosts (erase k t) h)

lookup-inserted_if :
    (P : String → ℕ → Type 0) (b : Bool) (host k : String) (ts v : ℕ) (t : Dict ℕ)
    → P k v
    → lookup host (if b then t else insert k v t) ≡ some ts
    → (lookup host t ≡ some ts) ⊎ P host ts
lookup-inserted_if P true host k ts v t p h = inl h
lookup-inserted_if P false host k ts v t p h = elim (lookup-insert_cases host k v ts t h) [
  | inl same ↦ inr (subst₂ P (sym same.0) same.1 p)
  | inr old ↦ inl old
]

lookup-set_missing :
    (P : String → ℕ → Type 0) (host : String) (ts : ℕ) (sets t : Dict ℕ)
    → All (Entry P) sets
    → lookup host (set_missing sets t) ≡ some ts
    → (lookup host t ≡ some ts) ⊎ P host ts
unfolding set_missing
lookup-set_missing P host ts [] t all h = inl h
lookup-set_missing P host ts ((k, v) ∷ sets) t all h =
    elim (lookup-set_missing P host ts sets _ all.1 h) [
      | inl e ↦ lookup-inserted_if P _ host k ts v t all.0 e
      | inr p ↦ inr p
    ]

-- A tombstone after a cycle stood there before, or it was set in the cycle.
lookup-planned_tombstones :
    (args : PlanArgs) (host : String) (ts : ℕ)
    → lookup host (planned_tombstones args) ≡ some ts
    → (lookup host args.tombstones ≡ some ts) ⊎ SetsFresh args host ts
unfolding planned_tombstones
lookup-planned_tombstones args host ts h =
    elim (lookup-set_missing (SetsFresh args) host ts _ _ (compute_change_plan-SetsFresh args) h) [
      | inl e ↦ inl (lookup-clear_recovered host ts _ _ args.tombstones e)
      | inr p ↦ inr p
    ]

lookup-next_tombstones :
    (executed : Bool) (args : PlanArgs) (host : String) (ts : ℕ)
    → lookup host (next_tombstones executed args) ≡ some ts
    → (lookup host args.tombstones ≡ some ts) ⊎ SetsFresh args host ts
unfolding next_tombstones
lookup-next_tombstones true args host ts h =
    lookup-planned_tombstones args host ts (lookup-pop_all host ts _ (planned_tombstones args) h)
lookup-next_tombstones false args host ts h = lookup-planned_tombstones args host ts h

-- In one of the cycles, at this time, the host was not discovered.
pub record SeenMissing (cycles : List Cycle) (host : String) (ts : ℕ) : Type 0 where
  pub cycle : Cycle
  pub earlier : In cycle cycles
  pub missing : is_discovered cycle.read host ≡ false
  pub time : cycle.read.now ≡ ts

-- Each tombstone has the time of such a cycle.
abbrev AreSeen : List Cycle → Dict ℕ → Type 0
AreSeen past t = (host : String) (ts : ℕ) → lookup host t ≡ some ts → SeenMissing past host ts

next-AreSeen :
    (past : List Cycle) (c : Cycle) (t : Dict ℕ)
    → AreSeen past t
    → AreSeen (past ++ c ∷ []) (next_tombstones c.executed (args_at c.read t))
unfolding active_origins
next-AreSeen past c t h host ts e =
    elim (lookup-next_tombstones c.executed (args_at c.read t) host ts e) [
      | inl old ↦
          (let seen = h host ts old in
            record {
              cycle = seen.cycle;
              earlier = In-append_left seen.cycle past (c ∷ []) seen.earlier;
              missing = seen.missing;
              time = seen.time;
            })
      | inr fresh ↦ record {
        cycle = c;
        earlier = In-append_right c past (c ∷ []) (inl refl);
        missing = fresh.1;
        time = sym fresh.0;
      }
    ]

run_from-AreSeen :
    (past cs : List Cycle) (t : Dict ℕ) → AreSeen past t → AreSeen (past ++ cs) (run_cycles cs t)
unfolding run_cycles
run_from-AreSeen past [] t h = subst (λ cs. AreSeen cs t) (sym (append-nil past)) h
run_from-AreSeen past (c ∷ cs) t h =
    let later = run_from-AreSeen (past ++ c ∷ []) cs _ (next-AreSeen past c t h) in
    subst (λ ds. AreSeen ds (run_cycles cs (next_tombstones c.executed (args_at c.read t))))
      (append_assoc past (c ∷ []) cs) later

-- In one of the cycles the host was not discovered, at least the grace period before the plan.
pub record WasMissing (cycles : List Cycle) (args : PlanArgs) (host : String) : Type 0 where
  pub cycle : Cycle
  pub earlier : In cycle cycles
  pub missing : is_discovered cycle.read host ≡ false
  pub waited : cycle.read.now + args.dns_delete_grace_seconds ≤ args.now

module _ (cycles : List Cycle) (last : PlanArgs) where
  due-WasMissing :
      (host : String)
      → last.immediate_cleanup ≡ false
      → last.dns_delete_grace_seconds ≢ 0
      → IsDue (args_at last (run_cycles cycles [])) host
      → WasMissing cycles last host
  due-WasMissing host slow grace (inl now) = absurd (cc (slow, now))
  due-WasMissing host slow grace (inr (inl none_left)) = absurd (grace none_left)
  due-WasMissing host slow grace (inr (inr (ts, held, waited))) =
      let seen =
        run_from-AreSeen [] cycles [] (λ h t e. absurd (cc (lookup-nil h, e))) host ts held in
      record {
        cycle = seen.cycle;
        earlier = seen.earlier;
        missing = seen.missing;
        waited = omega (arith, waited, seen.time);
      }

  -- When cycles run one after another from no tombstones, then, under every policy but
  -- "legacy_unrestricted", with a grace period and no immediate cleanup, a record that the next plan
  -- deletes is that of a host that was not discovered in an earlier cycle either, at least the grace
  -- period before.
  pub run_cycles-WasMissing :
      is_legacy last.policy ≡ false
      → last.immediate_cleanup ≡ false
      → last.dns_delete_grace_seconds ≢ 0
      → All
          (λ c. c.action ≡ DnsAction.delete → WasMissing cycles last c.hostname)
          (compute_change_plan (args_at last (run_cycles cycles []))).dns_changes
  run_cycles-WasMissing plain slow grace =
      All-map (λ c safe e. due-WasMissing c.hostname slow grace (safe e).due) _
        (compute_change_plan-DeletesOwned (args_at last (run_cycles cycles [])) plain)

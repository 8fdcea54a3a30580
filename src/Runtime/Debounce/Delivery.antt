-- ===== src/Runtime/Debounce/Delivery.antt =====
-- No reason is lost: what was triggered has been executed or is still pending.
use cf_docker_tunnel_sync.Base.{
  ℕ, ◌+◌, String, Bool, false, ◌≡◌, refl, sym, ap, ◌∙◌, inl, inr, Option, none, some, List, [], ◌∷◌,
  ◌++◌, ltb, Bool-cases,
}
use mathlib.Core.List.{append-nil, append_assoc}
use cf_docker_tunnel_sync.Runtime.Debounce.{
  Phase, idle, looping, sleeping, syncing, Debouncer, new_reasons, trigger, ensure_worker, fire,
  wake_at, wake, look_at, look, finish_sync, close, Event, tick, triggered, ensured, looked, woke,
  synced, closing, step, run, new,
}

pub flatten : List (List String) → List String
flatten [] = []
flatten (xs ∷ xss) = xs ++ flatten xss

flatten-append :
    (xss : List (List String)) (r : List String) → flatten (xss ++ r ∷ []) ≡ flatten xss ++ r
unfolding flatten
flatten-append [] r = append-nil r
flatten-append (xs ∷ xss) r =
    ap (λ ys. xs ++ ys) (flatten-append xss r) ∙ sym (append_assoc xs (flatten xss) r)

-- The reasons of all the synchronizations, and then the pending ones.
pub history : Debouncer → List String
history s = flatten s.executed ++ s.reasons

record Keeps (s t : Debouncer) : Type 0 where
  same_closed : t.closed ≡ s.closed
  same_history : history t ≡ history s

in_phase-Keeps : (p : Phase) (s : Debouncer) → Keeps s (record s { phase = p })
unfolding history
in_phase-Keeps p s = record { same_closed = refl; same_history = refl }

Keeps-same : (s : Debouncer) → Keeps s s
Keeps-same s = record { same_closed = refl; same_history = refl }

fire-Keeps : (s : Debouncer) → Keeps s (fire s)
unfolding fire history
fire-Keeps s = record {
  same_closed = refl;
  same_history =
      append-nil (flatten (s.executed ++ s.reasons ∷ [])) ∙ flatten-append s.executed s.reasons;
}

wake_at-Keeps : (d : Option ℕ) (s : Debouncer) → Keeps s (wake_at d s)
unfolding wake_at
wake_at-Keeps none s = fire-Keeps s
wake_at-Keeps (some d) s = elim (Bool-cases (ltb (s.now + 5) d)) [
  | inl e ↦ rw e (in_phase-Keeps looping s)
  | inr e ↦ rw e (fire-Keeps s)
]

look_at-Keeps : (d : Option ℕ) (s : Debouncer) → Keeps s (look_at d s)
unfolding look_at
look_at-Keeps none s = in_phase-Keeps idle s
look_at-Keeps (some d) s = elim (Bool-cases (ltb s.now d)) [
  | inl e ↦ rw e (in_phase-Keeps sleeping s)
  | inr e ↦ rw e (wake_at-Keeps (some d) s)
]

look-Keeps : (p : Phase) (s : Debouncer) → Keeps s (look p s)
unfolding look
look-Keeps looping s = look_at-Keeps s.deadline s
look-Keeps idle s = Keeps-same s
look-Keeps sleeping s = Keeps-same s
look-Keeps syncing s = Keeps-same s

wake-Keeps : (p : Phase) (s : Debouncer) → Keeps s (wake p s)
unfolding wake
wake-Keeps sleeping s = wake_at-Keeps s.deadline s
wake-Keeps idle s = Keeps-same s
wake-Keeps looping s = Keeps-same s
wake-Keeps syncing s = Keeps-same s

finish_sync-Keeps : (p : Phase) (s : Debouncer) → Keeps s (finish_sync p s)
unfolding finish_sync
finish_sync-Keeps syncing s = in_phase-Keeps looping s
finish_sync-Keeps idle s = Keeps-same s
finish_sync-Keeps looping s = Keeps-same s
finish_sync-Keeps sleeping s = Keeps-same s

ensure_worker-Keeps : (s : Debouncer) → Keeps s (ensure_worker s)
unfolding ensure_worker history
ensure_worker-Keeps s = elim (Bool-cases s.scheduled) [
  | inl e ↦ simp e (record { same_closed = refl; same_history = refl })
  | inr e ↦ simp e (Keeps-same s)
]

-- What the events ask for.
pub asked : Event → List String
asked (triggered reason) = new_reasons reason
asked _ = []

pub asked_all : List Event → List String
asked_all [] = []
asked_all (e ∷ es) = asked e ++ asked_all es

-- The object was open before, and the history has grown by what the event asks for.
record Extends (e : Event) (s t : Debouncer) : Type 0 where
  was_open : s.closed ≡ false
  grown : history t ≡ history s ++ asked e

Extends-of :
    (e : Event) (s t : Debouncer) → asked e ≡ [] → Keeps s t → t.closed ≡ false → Extends e s t
Extends-of e s t nothing k now_open = record {
  was_open = sym k.same_closed ∙ now_open;
  grown = k.same_history ∙ sym (append-nil (history s)) ∙ ap (λ xs. history s ++ xs) (sym nothing);
}

trigger-Extends :
    (reason : String) (s : Debouncer)
    → (trigger reason s).closed ≡ false
    → Extends (triggered reason) s (trigger reason s)
unfolding trigger history asked
trigger-Extends reason s h = elim (Bool-cases s.closed) [
  | inl e ↦ absurd (cc (e, simp e at h))
  | inr e ↦ record {
    was_open = e;
    grown = simp e (sym (append_assoc (flatten s.executed) s.reasons (new_reasons reason)));
  }
]

step-Extends : (e : Event) (s : Debouncer) → (step e s).closed ≡ false → Extends e s (step e s)
unfolding step asked close
step-Extends (tick n) s h =
    Extends-of (tick n) s _ refl
      (record { same_closed = refl; same_history = unfold history in refl }) h
step-Extends (triggered reason) s h = trigger-Extends reason s h
step-Extends ensured s h = Extends-of ensured s _ refl (ensure_worker-Keeps s) h
step-Extends looked s h = Extends-of looked s _ refl (look-Keeps s.phase s) h
step-Extends woke s h = Extends-of woke s _ refl (wake-Keeps s.phase s) h
step-Extends synced s h = Extends-of synced s _ refl (finish_sync-Keeps s.phase s) h
step-Extends closing s h = absurd (cc h)

run_from-history :
    (es : List Event) (s : Debouncer)
    → (run es s).closed ≡ false
    → (s.closed ≡ false) × (history (run es s) ≡ history s ++ asked_all es)
unfolding run asked_all
run_from-history [] s h = (h, sym (append-nil (history s)))
run_from-history (e ∷ es) s h =
    let later = run_from-history es (step e s) h in
    let first = step-Extends e s later.0 in
    (
      first.was_open,
      later.1
          ∙ ap (λ xs. xs ++ asked_all es) first.grown
          ∙ append_assoc (history s) (asked e) (asked_all es),
    )

-- After any events that leave the object open, the reasons of the synchronizations that were
-- executed, one after another, followed by the pending reasons, are the non-empty reasons that were
-- triggered, in order.
pub run-history :
    (now delay max_delay : ℕ) (has_loop : Bool) (es : List Event)
    → (run es (new now delay max_delay has_loop)).closed ≡ false
    → history (run es (new now delay max_delay has_loop)) ≡ asked_all es
run-history now delay max_delay has_loop es h =
    (run_from-history es (new now delay max_delay has_loop) h).1
    ∙ unfold new history flatten in refl

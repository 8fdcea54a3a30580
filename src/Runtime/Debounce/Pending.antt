-- ===== src/Runtime/Debounce/Pending.antt =====
-- A trigger that is pending has a worker, and a deadline that cannot be put off.
use cf_docker_tunnel_sync.Base.{ℕ, ◌+◌, ◌≤◌, true, false, not, ◌||◌, ◌≡◌, Option, none, some}
use cf_docker_tunnel_sync.Base.Dict.{is_some}
use cf_docker_tunnel_sync.Runtime.Debounce.{Debouncer, is_idle}

-- Both deadlines are absent, or the deadline is at most the last one, and that one is at most
-- `max_delay` away.
abbrev pub IsBounded : ℕ → Option ℕ → Option ℕ → Type 0
IsBounded latest none none = Unit
IsBounded latest (some d) (some m) = (d ≤ m) × (m ≤ latest)
IsBounded latest _ _ = ⊥

pub record IsSound (s : Debouncer) : Type 0 where
  pub bounded : IsBounded (s.now + s.max_delay) s.deadline s.max_deadline
  pub quiet : s.closed ≡ true → is_some s.deadline ≡ false
  pub attended :
      s.has_loop ≡ true → is_some s.deadline ≡ true → (not (is_idle s.phase) || s.scheduled) ≡ true

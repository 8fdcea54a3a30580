-- ===== src/Adapters/Docker/Waits.antt =====
-- tunnel_sync/adapters/docker.py: the pauses of the event listener.
use cf_docker_tunnel_sync.Base.{
  ℕ, ◌*◌, ◌≤◌, Bool, ◌≡◌, ◌⊎◌, inl, inr, refl, Option, List, [], ◌∷◌, Bool-cases, arith,
}
use Prim.Native.Nat.{min}
use cf_docker_tunnel_sync.Adapters.Docker.Stream.{
  Bytes, Session, no_socket, refused, unconnected, ended, broken, Listener, read_all, back_off,
  connected, turn, listen, fresh,
}

-- A wait after those of a list, the latest first: one second, or twice the last one, at most 30.
abbrev pub Doubles : ℕ → List ℕ → Type 0
Doubles wait [] = wait ≡ 1
Doubles wait (last ∷ waits) = (wait ≡ 1) ⊎ (wait ≡ min (last * 2) 30)

abbrev pub Backoff : List ℕ → Type 0
Backoff [] = Unit {0}
Backoff (wait ∷ waits) = (1 ≤ wait) × (wait ≤ 30) × Doubles wait waits × Backoff waits

module _ {E : Type 0} (parse : Bytes → Option E) (accepts : E → Bool) where
  -- The next wait would follow the waits that were made.
  Steady : Listener parse accepts → Type 0
  Steady s = Backoff (s.backoff ∷ s.waits)

  back_off-Steady : (s : Listener parse accepts) → Steady s → Steady (back_off parse accepts s)
  unfolding Steady back_off
  back_off-Steady s h = (omega (arith, h), omega (arith, h), inr refl, h)

  first : (waits : List ℕ) → Doubles 1 waits
  first [] = refl
  first (last ∷ waits) = inl refl

  connected-Steady :
      (chunks : List Bytes) (s : Listener parse accepts)
      → Steady s
      → Steady (connected parse accepts chunks s)
  unfolding Steady connected
  connected-Steady chunks s h = (omega arith, omega arith, first s.waits, h.3)

  ended-Steady :
      (chunks : List Bytes) (s : Listener parse accepts)
      → Steady s
      → Steady (turn parse accepts (ended chunks) s)
  unfolding turn
  ended-Steady chunks s h =
      let after = connected-Steady chunks s h in
      elim (Bool-cases (read_all parse accepts [] chunks).raised) [
        | inl r ↦ rw r (back_off-Steady _ after)
        | inr r ↦ rw r after
      ]

  turn-Steady :
      (session : Session parse accepts) (s : Listener parse accepts)
      → Steady s
      → Steady (turn parse accepts session s)
  unfolding turn
  turn-Steady no_socket s h = back_off-Steady s h
  turn-Steady refused s h = back_off-Steady s h
  turn-Steady unconnected s h = back_off-Steady s h
  turn-Steady (ended chunks) s h = ended-Steady chunks s h
  turn-Steady (broken chunks) s h = back_off-Steady _ (connected-Steady chunks s h)

  listen-Steady :
      (sessions : List (Session parse accepts)) (s : Listener parse accepts)
      → Steady s
      → Steady (listen parse accepts sessions s)
  unfolding listen
  listen-Steady [] s h = h
  listen-Steady (session ∷ sessions) s h = listen-Steady sessions _ (turn-Steady session s h)

  -- Whatever the sessions of the listener are, each of its waits is from 1 to 30 seconds long, the
  -- first one is one second, and every other one is either one second or twice the one before, but 30
  -- at most.
  pub listen-Backoff :
      (sessions : List (Session parse accepts))
      → Backoff (listen parse accepts sessions (fresh parse accepts)).waits
  unfolding Steady fresh
  listen-Backoff sessions =
      (listen-Steady sessions (fresh parse accepts) (omega arith, omega arith, refl, tt)).3

-- ===== src/Runtime/Debounce.antt =====
-- tunnel_sync/runtime/debounce.py: `DebouncedSyncTrigger`. Times are whole milliseconds of the
-- monotonic clock. An event is a section of code that runs under the lock, or without an await.
pub mod Pending
pub mod Delivery
use cf_docker_tunnel_sync.Base.{
  ℕ, ◌+◌, String, Bool, true, false, not, ◌&&◌, ◌||◌, Option, none, some, List, [], ◌∷◌, ◌++◌, ◌==◌,
  ltb, if◌then◌else◌,
}
use Prim.Native.Nat.{min}
use cf_docker_tunnel_sync.Domain.Models.{or_default}

-- Where the worker task is: there is none or it is done, it stands at the top of its loop, it sleeps,
-- or it awaits the synchronization.
pub data Phase : Type 0 where
  idle looping sleeping syncing : Phase

-- The fields of the object, with the clock, whether an event loop runs, whether a call of
-- `_ensure_worker` is scheduled on it, and the reasons of each call of `sync_target`.
pub record Debouncer : Type 0 where
  pub now : ℕ
  pub delay : ℕ
  pub max_delay : ℕ
  pub has_loop : Bool
  pub closed : Bool
  pub deadline : Option ℕ
  pub max_deadline : Option ℕ
  pub reasons : List String
  pub phase : Phase
  pub scheduled : Bool
  pub executed : List (List String)

abbrev pub is_idle : Phase → Bool
is_idle idle = true
is_idle _ = false

abbrev pub new_reasons : String → List String
new_reasons reason = if reason == "" then [] else reason ∷ []

-- `trigger`
unfoldable pub trigger : String → Debouncer → Debouncer
trigger reason s =
    let max_deadline = or_default s.max_deadline (s.now + s.max_delay) in
    if s.closed then s else record s {
      max_deadline = some max_deadline;
      deadline = some (min (s.now + s.delay) max_deadline);
      reasons = s.reasons ++ new_reasons reason;
      scheduled = s.has_loop || s.scheduled;
    }

-- `_ensure_worker`, when the event loop calls it
unfoldable pub ensure_worker : Debouncer → Debouncer
ensure_worker s =
    if s.scheduled
    then record s {
      phase = if not s.closed && is_idle s.phase then looping else s.phase;
      scheduled = false;
    }
    else s

-- The second section of the worker's loop, after the sleep.
unfoldable pub fire : Debouncer → Debouncer
fire s = record s {
  deadline = none;
  max_deadline = none;
  reasons = [];
  phase = syncing;
  executed = s.executed ++ s.reasons ∷ [];
}

unfoldable pub wake_at : Option ℕ → Debouncer → Debouncer
wake_at none s = fire s
wake_at (some d) s = if ltb (s.now + 5) d then record s { phase = looping } else fire s

unfoldable pub wake : Phase → Debouncer → Debouncer
wake sleeping s = wake_at s.deadline s
wake _ s = s

-- The first section of the loop; with no time to sleep, the second one follows at once.
unfoldable pub look_at : Option ℕ → Debouncer → Debouncer
look_at none s = record s { phase = idle }
look_at (some d) s = if ltb s.now d then record s { phase = sleeping } else wake_at (some d) s

unfoldable pub look : Phase → Debouncer → Debouncer
look looping s = look_at s.deadline s
look _ s = s

-- The synchronization is over, with or without an exception.
unfoldable pub finish_sync : Phase → Debouncer → Debouncer
finish_sync syncing s = record s { phase = looping }
finish_sync _ s = s

-- `close`, which cancels the worker
unfoldable pub close : Debouncer → Debouncer
close s = record s {
  closed = true;
  deadline = none;
  max_deadline = none;
  reasons = [];
  phase = idle;
}

pub data Event : Type 0 where
  tick : ℕ → Event
  triggered : String → Event
  ensured looked woke synced closing : Event

unfoldable pub step : Event → Debouncer → Debouncer
step (tick n) s = record s { now = s.now + n }
step (triggered reason) s = trigger reason s
step ensured s = ensure_worker s
step looked s = look s.phase s
step woke s = wake s.phase s
step synced s = finish_sync s.phase s
step closing s = close s

unfoldable pub run : List Event → Debouncer → Debouncer
run [] s = s
run (e ∷ es) s = run es (step e s)

-- A new object; `has_loop` says that an event loop is running whenever `trigger` is called.
unfoldable pub new : ℕ → ℕ → ℕ → Bool → Debouncer
new now delay max_delay has_loop = record {
  now = now;
  delay = delay;
  max_delay = max_delay;
  has_loop = has_loop;
  closed = false;
  deadline = none;
  max_deadline = none;
  reasons = [];
  phase = idle;
  scheduled = false;
  executed = [];
}

-- ===== src/Adapters/Docker/Stream.antt =====
-- tunnel_sync/adapters/docker.py: `listen_events`. Bytes are numbers; `parse` is `json.loads`, which may
-- raise, and `accepts` says that `on_event` does not raise on an event. The loop ends with the list of its sessions. Pauses are in seconds.
use cf_docker_tunnel_sync.Base.{
  ℕ, ◌*◌, Bool, true, false, ◌||◌, ◌&&◌, Option, none, some, List, [], ◌∷◌, ◌++◌, leb, ◌=ℕ◌,
  if◌then◌else◌,
}
use Prim.Native.Nat.{min}

abbrev pub Bytes : Type 0
Bytes = List ℕ

abbrev pub is_space : ℕ → Bool
is_space b = (leb 9 b && leb b 13) || b =ℕ 32

unfoldable pub lstrip : Bytes → Bytes
lstrip [] = []
lstrip (b ∷ bs) = let rest = lstrip bs in if is_space b then rest else b ∷ bs

abbrev before_stripped : ℕ → Bytes → Bytes
before_stripped b [] = if is_space b then [] else b ∷ []
before_stripped b bs = b ∷ bs

unfoldable pub rstrip : Bytes → Bytes
rstrip [] = []
rstrip (b ∷ bs) = before_stripped b (rstrip bs)

abbrev pub prepend : ℕ → List Bytes × Bytes → List Bytes × Bytes
prepend b ([], rest) = ([], b ∷ rest)
prepend b (line ∷ lines, rest) = ((b ∷ line) ∷ lines, rest)

-- What the inner loop takes from the buffer: the lines that end in a newline, and what is left.
unfoldable pub lines : Bytes → List Bytes × Bytes
lines [] = ([], [])
lines (b ∷ bs) = let rest = lines bs in if b =ℕ 10 then ([] ∷ rest.0, rest.1) else prepend b rest

module _ {E : Type 0} (parse : Bytes → Option E) where
  abbrev pub event_of : Bytes → List E
  event_of [] = []
  event_of (b ∷ bs) = elim (parse (b ∷ bs)) [ none ↦ [] | some e ↦ e ∷ [] ]

  -- The events of lines: a line that is blank or no JSON is left out.
  unfoldable pub events : List Bytes → List E
  events [] = []
  events (line ∷ lines) = event_of (lstrip (rstrip line)) ++ events lines

-- What the loop over lines has handed on, up to the event on which `on_event` raised, if it did.
pub record Delivered (E : Type 0) : Type 0 where
  pub handed : List E
  pub raised : Bool

unfoldable pub deliver : {E : Type 0} → (E → Bool) → List E → Delivered E
deliver accepts [] = record { handed = []; raised = false }
deliver accepts (e ∷ es) =
    let rest = deliver accepts es in
    if accepts e
    then record rest { handed = e ∷ rest.handed }
    else record { handed = e ∷ []; raised = true }

unfoldable pub followed : {E : Type 0} → Delivered E → Delivered E → Delivered E
followed d rest =
    if d.raised then d else record { handed = d.handed ++ rest.handed; raised = rest.raised }

module _ {E : Type 0} (parse : Bytes → Option E) (accepts : E → Bool) where
  -- One chunk that was read, with the buffer.
  unfoldable pub read_chunk : Bytes → Bytes → Delivered E × Bytes
  read_chunk buffer chunk =
      let taken = lines (buffer ++ chunk) in (deliver accepts (events parse taken.0), taken.1)

  -- The chunks of a connection, up to its end.
  unfoldable pub read_all : Bytes → List Bytes → Delivered E
  read_all buffer [] = deliver accepts []
  read_all buffer (chunk ∷ chunks) =
      let read = read_chunk buffer chunk in followed read.0 (read_all read.1 chunks)

  -- A turn of the outer loop: no socket, an answer that is not 200, an exception before a connection,
  -- or a connection whose chunks end with the end of the stream or with an exception.
  pub data Session : Type 0 where
    no_socket refused unconnected : Session
    ended broken : List Bytes → Session

  pub record Listener : Type 0 where
    pub backoff : ℕ
    pub handed_on : List E
    pub reports : List Bool
    pub waits : List ℕ

  -- The report, the wait and the next backoff after a failure.
  unfoldable pub back_off : Listener → Listener
  back_off s = record s {
    backoff = min (s.backoff * 2) 30;
    reports = false ∷ s.reports;
    waits = s.backoff ∷ s.waits;
  }

  unfoldable pub connected : List Bytes → Listener → Listener
  connected chunks s = record s {
    backoff = 1;
    handed_on = s.handed_on ++ (read_all [] chunks).handed;
    reports = true ∷ s.reports;
  }

  unfoldable pub turn : Session → Listener → Listener
  turn no_socket s = back_off s
  turn refused s = back_off s
  turn unconnected s = back_off s
  turn (ended chunks) s =
      let after = connected chunks s in
      if (read_all [] chunks).raised then back_off after else after
  turn (broken chunks) s = back_off (connected chunks s)

  unfoldable pub listen : List Session → Listener → Listener
  listen [] s = s
  listen (session ∷ sessions) s = listen sessions (turn session s)

  -- The listener at its start.
  unfoldable pub fresh : Listener
  fresh = record { backoff = 1; handed_on = []; reports = []; waits = [] }

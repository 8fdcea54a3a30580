-- ===== src/Tests/Docking.antt =====
-- A Docker that times out twice and then answers, and one whose events come in odd chunks.
use cf_docker_tunnel_sync.Base.{
  ℕ, suc, true, not, ◌=ℕ◌, Bool, ◌≡◌, refl, some, Option, List, [], ◌∷◌, ltb, if◌then◌else◌,
}
use cf_docker_tunnel_sync.Base.Json.{Json}
use cf_docker_tunnel_sync.Adapters.Docker.{
  Docker, response, timed_out, json, ok, power, report, parsed, answer, pause, after, attempts,
  request,
}
use cf_docker_tunnel_sync.Adapters.Docker.Attempts.{Ends, request-Ends}
use cf_docker_tunnel_sync.Adapters.Docker.Stream.{
  Bytes, deliver, followed, lstrip, rstrip, lines, events, read_chunk, read_all, Session, no_socket,
  refused, ended, listen, fresh, back_off, connected, turn,
}
use cf_docker_tunnel_sync.Adapters.Docker.Framing.{joined, read_all-joined}
use cf_docker_tunnel_sync.Adapters.Docker.Waits.{Backoff, listen-Backoff}

-- The state counts the attempts.
abbrev docker : Docker
docker = record {
  World = ℕ;
  send = λ n. (suc n, if ltb n 2 then timed_out "slow" else response 200 (json (Json.num 7)));
}

answered : (request docker true 3 0).1 ≡ ok (Json.num 7)
unfolding request attempts after answer parsed pause report
answered = refl

waited : (request docker true 3 0).0.pauses ≡ 2 ∷ 1 ∷ []
unfolding request attempts after answer parsed pause report power
waited = refl

request-Ends_example : Ends 3 1 (power 3) (request docker true 3 0).0 (request docker true 3 0).1
request-Ends_example = request-Ends docker true 3 0

-- A line is its own event.
abbrev parse : Bytes → Option Bytes
parse bs = some bs

abbrev chunks : List Bytes
chunks = (b'a' ∷ b'b' ∷ []) ∷ (b'\n' ∷ b' ' ∷ b'\n' ∷ b'c' ∷ []) ∷ (b'd' ∷ b'\n' ∷ b'e' ∷ []) ∷ []

-- The callback raises on "x".
abbrev accepts : Bytes → Bool
accepts (b ∷ []) = not (b =ℕ 120)
accepts bs = true

two_events :
    (read_all parse accepts [] chunks).handed ≡ (b'a' ∷ b'b' ∷ []) ∷ (b'c' ∷ b'd' ∷ []) ∷ []
unfolding read_all read_chunk deliver followed events lines lstrip rstrip
two_events = refl

read_all-joined_example :
    read_all parse accepts [] chunks ≡ deliver accepts (events parse (lines (joined chunks)).0)
read_all-joined_example = read_all-joined parse accepts chunks

-- Two failures, a connection that ends, and two further failures.
abbrev sessions : List (Session parse accepts)
sessions = no_socket ∷ refused ∷ ended chunks ∷ no_socket ∷ refused ∷ []

waits : (listen parse accepts sessions (fresh parse accepts)).waits ≡ 2 ∷ 1 ∷ 2 ∷ 1 ∷ []
unfolding listen turn back_off connected fresh read_all read_chunk deliver followed events lines
    lstrip rstrip
waits = refl

listen-Backoff_example : Backoff (listen parse accepts sessions (fresh parse accepts)).waits
listen-Backoff_example = listen-Backoff parse accepts sessions

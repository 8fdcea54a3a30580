-- ===== src/Adapters/Docker.antt =====
-- tunnel_sync/adapters/docker.py: `DockerClient.request`. Docker is a state of an unknown type; the
-- path, the method, the body and the timeout are part of `send`. Pauses are in tenths of a second.
pub mod Attempts
pub mod Stream
pub mod Framing
pub mod Waits
use cf_docker_tunnel_sync.Base.{
  ℕ, zero, suc, ◌+◌, ◌*◌, String, Bool, true, false, not, ◌||◌, Option, none, some, List, [], ◌∷◌,
  ◌++◌, ltb, leb, if◌then◌else◌,
}
use cf_docker_tunnel_sync.Base.Json.{Json, Fields}

-- The text of an answer: nothing, JSON, or another text.
pub data Body : Type 0 where
  nothing invalid : Body
  json : Json → Body

-- What an attempt gives: a status and a text, one of the exceptions that are caught, or a text that
-- is not UTF-8, whose exception is not caught.
pub data Reply : Type 0 where
  response : ℕ → Body → Reply
  timed_out failed : String → Reply
  not_utf8 : Reply

pub data Result : Type 0 where
  ok : Json → Result
  http_error invalid_json : ℕ → Result
  socket_missing : Result
  out_of_retries : ℕ → Result
  decode_error : Result

-- What a request leaves: the state of Docker, how often it was asked, the calls of `report_connection`
-- and of `sleep`, each the latest first.
pub record Trace (W : Type 0) : Type 0 where
  pub world : W
  pub asked : ℕ
  pub reports : List Bool
  pub pauses : List ℕ

pub record Docker : Type 1 where
  pub World : Type 0
  pub send : World → World × Reply

-- `2 ** n`
unfoldable pub power : ℕ → ℕ
power zero = 1
power (suc n) = power n + power n

module _ (docker : Docker) where
  abbrev pub Run : Type 0
  Run = Trace docker.World

  unfoldable pub report : Bool → Run → Run
  report connected t = record t { reports = connected ∷ t.reports }

  -- The text of an answer whose status is good.
  unfoldable pub parsed : ℕ → Body → Run → Run × Result
  parsed status nothing t = (report true t, ok (Json.obj Fields.end))
  parsed status invalid t = (report false t, invalid_json status)
  parsed status (json value) t = (report true t, ok value)

  -- The end of an attempt that Docker answered.
  unfoldable pub answer : ℕ → Body → Run → Run × Result
  answer status body t =
      if ltb status 200 || leb 300 status
      then (report false t, http_error status)
      else parsed status body t

  -- The pause after the failed attempt with the number `attempt`, if `left` others follow.
  unfoldable pub pause : ℕ → ℕ → Run → Run
  pause zero attempt t = t
  pause (suc left) attempt t = record t { pauses = power attempt ∷ t.pauses }

  -- What follows an attempt; `again` is the rest of the loop.
  unfoldable pub after : ℕ → ℕ → (Run → Run × Result) → Run → docker.World × Reply → Run × Result
  after left attempt again t (w, response status body) = answer status body (record t { world = w })
  after left attempt again t (w, timed_out e) =
      again (pause left attempt (report false (record t { world = w })))
  after left attempt again t (w, failed e) =
      again (pause left attempt (report false (record t { world = w })))
  after left attempt again t (w, not_utf8) = (record t { world = w }, decode_error)

  -- The loop: attempts are numbered from 0 here, and `left` of them are left.
  unfoldable pub attempts : ℕ → ℕ → ℕ → Run → Run × Result
  attempts retries zero attempt t = (report false t, out_of_retries retries)
  attempts retries (suc left) attempt t =
      after left attempt (attempts retries left (suc attempt)) (record t { asked = t.asked + 1 })
        (docker.send t.world)

  -- `request`; `reachable` says that the host is TCP or that the socket exists.
  unfoldable pub request : Bool → ℕ → docker.World → Run × Result
  request reachable retries w =
      let start : Run = record { world = w; asked = 0; reports = []; pauses = [] } in
      if reachable then attempts retries retries 0 start else (report false start, socket_missing)

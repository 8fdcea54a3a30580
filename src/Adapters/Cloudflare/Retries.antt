-- ===== src/Adapters/Cloudflare/Retries.antt =====
-- How often a request is sent, and which errors it ends with.
use cf_docker_tunnel_sync.Base.{
  ℕ, zero, suc, ◌+◌, ◌≤◌, String, true, ◌&&◌, ◌≡◌, ◌≢◌, refl, inl, inr, Option, none, some, List,
  [], ◌∷◌, ltb, Bool-cases, arith,
}
use cf_docker_tunnel_sync.Base.Lists.{length, length-append}
use cf_docker_tunnel_sync.Adapters.Cloudflare.{
  ApiError, Body, Response, Reply, response, network_error, api_error, out_of_retries, Result,
  fails, is_error, is_retryable, answer_of, body_of, after_inner_try, Client, Session, pause,
  handle, sent, attempts, execute_single,
}

-- Not the error that carries the messages of Cloudflare's answer, and not the one for want of attempts.
abbrev pub IsOrdinary : Result Body → Type 0
IsOrdinary r =
    ((code : ℕ) (errors : List ApiError) → r ≢ fails (api_error code errors))
    × ((limit : ℕ) → r ≢ fails (out_of_retries limit))

body_of-IsOrdinary : (b : Option Body) → IsOrdinary (body_of b)
unfolding body_of
body_of-IsOrdinary none = (λ code errors h. cc h, λ limit h. cc h)
body_of-IsOrdinary (some body) = (λ code errors h. cc h, λ limit h. cc h)

answer_of-IsOrdinary : (r : Response) → IsOrdinary (answer_of r)
unfolding answer_of after_inner_try
answer_of-IsOrdinary r = elim (Bool-cases (is_error r.status_code)) [
  | inl e ↦ rw e (λ code errors h. cc h, λ limit h. cc h)
  | inr e ↦ rw e (body_of-IsOrdinary r.json)
]

module _ (client : Client) where
  -- Between one and `limit` requests were sent, one more than there were pauses, and the result is
  -- ordinary.
  pub record Sends (limit : ℕ) (s : Session client.World) (r : Session client.World × Result Body)
      : Type 0 where
    pub some_sent : suc (length s.requests) ≤ length r.0.requests
    pub bounded : length r.0.requests ≤ length s.requests + limit
    pub paused : length r.0.requests + length s.pauses ≡ suc (length s.requests + length r.0.pauses)
    pub ordinary : IsOrdinary r.1

  -- The same from the state after the first request was sent.
  record Sent (left : ℕ) (s : Session client.World) (r : Session client.World × Result Body)
      : Type 0 where
    kept : length s.requests ≤ length r.0.requests
    bounded : length r.0.requests ≤ length s.requests + left
    paused : length r.0.requests + length s.pauses ≡ length s.requests + length r.0.pauses
    ordinary : IsOrdinary r.1

  stop-Sent :
      (left : ℕ) (s : Session client.World) (r : Result Body) → IsOrdinary r → Sent left s (s, r)
  stop-Sent left s r h = record {
    kept = omega arith;
    bounded = omega arith;
    paused = refl;
    ordinary = h;
  }

  again-Sent :
      (left attempt : ℕ) (after : Option String) (s : Session client.World)
      (r : Session client.World × Result Body)
      → Sends left (pause client attempt after s) r
      → Sent left s r
  again-Sent left attempt after s r h =
      let n = length-append s.pauses (record { attempt = attempt; retry_after = after } ∷ []) in
      record {
        kept = omega (arith, h.some_sent);
        bounded = h.bounded;
        paused = omega (arith, h.paused, n);
        ordinary = h.ordinary;
      }

  handle-Sent :
      (attempt left : ℕ) (again : Session client.World → Session client.World × Result Body)
      (s : Session client.World) (reply : Reply)
      → ((t : Session client.World) → ltb 0 left ≡ true → Sends left t (again t))
      → Sent left s (handle client attempt left again s reply)
  unfolding handle
  handle-Sent attempt left again s (response r) h =
      elim (Bool-cases (is_retryable r.status_code && ltb 0 left)) [
        | inl e ↦ rw e (again-Sent left attempt r.retry_after s _ (h _ (ground arith)))
        | inr e ↦ rw e (stop-Sent left s (answer_of r) (answer_of-IsOrdinary r))
      ]
  handle-Sent attempt left again s (network_error t) h = elim (Bool-cases (ltb 0 left)) [
    | inl e ↦ rw e (again-Sent left attempt none s _ (h _ e))
    | inr e ↦ rw e (stop-Sent left s _ (λ code errors h. cc h, λ limit h. cc h))
  ]

  attempts-Sends :
      (limit : ℕ) (url : String) (attempt left : ℕ) (s : Session client.World)
      → ltb 0 left ≡ true
      → Sends left s (attempts client limit url attempt left s)
  unfolding attempts sent
  attempts-Sends limit url attempt zero s h = absurd (ground arith)
  attempts-Sends limit url attempt (suc left) s h =
      let r = client.send s.world url in
      let n = length-append s.requests (url ∷ []) in
      let done =
        handle-Sent attempt left (attempts client limit url (suc attempt) left)
          (sent client url s r) r.1
          (λ t more. attempts-Sends limit url (suc attempt) left t more) in
      record {
        some_sent = omega (arith, done.kept, n);
        bounded = omega (arith, done.bounded, n);
        paused = omega (arith, done.paused, n);
        ordinary = done.ordinary;
      }

  -- With at least one attempt, a request ends after between one and `limit` sendings, with a pause
  -- between each two of them, and neither with the error for want of attempts nor with the one that
  -- carries the messages of Cloudflare's answer.
  pub execute_single-Sends :
      (limit : ℕ) (url : String) (s : Session client.World)
      → 1 ≤ limit
      → Sends limit s (execute_single client limit url s)
  unfolding execute_single
  execute_single-Sends limit url s h = attempts-Sends limit url 1 limit s (ground arith)

-- ===== src/Adapters/Cloudflare.antt =====
-- tunnel_sync/adapters/cloudflare.py: `request`, with its retries and its pages. The HTTP client is a
-- state of an unknown type that `send` changes; the method, `token`, `data` and the headers are part of
-- it. Exceptions other than timeouts and network errors pass through and are not modelled.
pub mod Retries
pub mod Pages
use cf_docker_tunnel_sync.Base.{
  ℕ, zero, suc, ◌+◌, ◌-◌, String, Bool, true, false, not, ◌&&◌, ◌||◌, Option, none, some, List, [],
  ◌∷◌, ◌++◌, ◌==◌, ◌=ℕ◌, ltb, leb, if◌then◌else◌,
}
use cf_docker_tunnel_sync.Base.Lists.{any}
use cf_docker_tunnel_sync.Base.Json.{Json}
use cf_docker_tunnel_sync.Domain.Models.{or_default}

-- `result` of an answer: absent, a list, a dict with these keys, or null.
pub data ResultField : Type 0 where
  absent null : ResultField
  items keyed : List Json → ResultField

pub record PageInfo : Type 0 where
  pub total_pages : Option ℕ
  pub page : Option ℕ

-- An answer in JSON: a dict, or another value.
pub data Body : Type 0 where
  dict : Option PageInfo → ResultField → Body
  other : Json → Body

pub record ApiError : Type 0 where
  pub message : Option String
  pub code : Option ℕ

-- `resp.json()` gives the body, or raises; `errors` is what `err_json.get("errors", [])` gives.
pub record Response : Type 0 where
  pub status_code : ℕ
  pub retry_after : Option String
  pub json : Option Body
  pub errors : List ApiError
  pub text : String

-- What the client does with a request: it answers, or raises a timeout or a network error.
pub data Reply : Type 0 where
  response : Response → Reply
  network_error : String → Reply

pub data RequestError : Type 0 where
  api_error : ℕ → List ApiError → RequestError
  http_error : ℕ → String → RequestError
  network_failed : String → RequestError
  out_of_retries : ℕ → RequestError
  invalid_json type_error : RequestError

pub data Result (A : Type 0) : Type 0 where
  ok : A → Result A
  fails : RequestError → Result A

-- `RETRYABLE_STATUS_CODES` and `RetryPolicy.is_retryable`
abbrev pub retryable_status_codes : List ℕ
retryable_status_codes = 429 ∷ 500 ∷ 502 ∷ 503 ∷ 504 ∷ []

unfoldable pub is_retryable : ℕ → Bool
is_retryable status = any (λ code. status =ℕ code) retryable_status_codes

-- `resp.is_error`
abbrev pub is_error : ℕ → Bool
is_error status = leb 400 status && leb status 599

-- What the inner `try` raises: the error with the messages of the answer, if it has any.
unfoldable pub structured_error : Response → Option RequestError
structured_error r = elim r.json [
  | none ↦ none
  | some body ↦ elim r.errors [ [] ↦ none | e ∷ es ↦ some (api_error r.status_code (e ∷ es)) ]
]

-- Its `except Exception` catches that error too. The text is the one before redaction.
unfoldable pub after_inner_try : Option RequestError → Response → RequestError
after_inner_try raised r = http_error r.status_code r.text

unfoldable pub body_of : Option Body → Result Body
body_of none = fails invalid_json
body_of (some body) = ok body

-- The end of an attempt that is not repeated.
unfoldable pub answer_of : Response → Result Body
answer_of r =
    if is_error r.status_code
    then fails (after_inner_try (structured_error r) r)
    else body_of r.json

-- A pause before the next attempt, with the "Retry-After" of the answer.
pub record Pause : Type 0 where
  pub attempt : ℕ
  pub retry_after : Option String

pub record Client : Type 1 where
  pub World : Type 0
  pub send : World → String → World × Reply

-- The client's state, the urls that were requested and the pauses.
pub record Session (W : Type 0) : Type 0 where
  pub world : W
  pub requests : List String
  pub pauses : List Pause

module _ (client : Client) where
  abbrev pub State : Type 0
  State = Session client.World

  abbrev pub pause : ℕ → Option String → State → State
  pause attempt retry_after s = record s {
    pauses = s.pauses ++ record { attempt = attempt; retry_after = retry_after } ∷ [];
  }

  -- One reply to the attempt; `left` attempts are left after it, and `again` makes them.
  unfoldable pub handle :
      ℕ → ℕ → (State → State × Result Body) → State → Reply → State × Result Body
  handle attempt left again s (response r) =
      let repeated = again (pause attempt r.retry_after s) in
      if is_retryable r.status_code && ltb 0 left then repeated else (s, answer_of r)
  handle attempt left again s (network_error e) =
      let repeated = again (pause attempt none s) in
      if ltb 0 left then repeated else (s, fails (network_failed e))

  unfoldable pub sent : String → State → client.World × Reply → State
  sent url s r = record s { world = r.0; requests = s.requests ++ url ∷ [] }

  -- The loop of `_execute_single` from `attempt` on, with `left` attempts to make.
  unfoldable pub attempts : ℕ → String → ℕ → ℕ → State → State × Result Body
  attempts limit url attempt zero s = (s, fails (out_of_retries limit))
  attempts limit url attempt (suc left) s =
      let r = client.send s.world url in
      handle attempt left (attempts limit url (suc attempt) left) (sent url s r) r.1

  unfoldable pub execute_single : ℕ → String → State → State × Result Body
  execute_single limit url s = attempts limit url 1 limit s

  -- `all_results.extend(...)`, or the `break`
  unfoldable pub extend :
      List Json
      → (List Json → State → State × Result (List Json))
      → State × Result Body
      → State × Result (List Json)
  extend acc more (s, ok (dict info (items xs))) = more (acc ++ xs) s
  extend acc more (s, ok body) = (s, ok acc)
  extend acc more (s, fails e) = (s, fails e)

  -- The `while` loop with `left` pages to read after `page`; `url_of` is the url of a page.
  unfoldable pub pages : ℕ → (ℕ → String) → ℕ → ℕ → List Json → State → State × Result (List Json)
  pages limit url_of zero page acc s = (s, ok acc)
  pages limit url_of (suc left) page acc s =
      extend acc (pages limit url_of left (suc page)) (execute_single limit (url_of (suc page)) s)

  unfoldable pub results_of : ResultField → Result (List Json)
  results_of absent = ok []
  results_of null = fails type_error
  results_of (items xs) = ok xs
  results_of (keyed ks) = ok ks

  unfoldable pub with_results : Option PageInfo → State × Result (List Json) → State × Result Body
  with_results info (s, ok xs) = (s, ok (dict info (items xs)))
  with_results info (s, fails e) = (s, fails e)

  unfoldable pub all_pages :
      ℕ → (ℕ → String) → PageInfo → State → Result (List Json) → State × Result (List Json)
  all_pages limit url_of info s (fails e) = (s, fails e)
  all_pages limit url_of info s (ok xs) =
      let page = or_default info.page 1 in
      pages limit url_of (or_default info.total_pages 1 - page) page xs s

  unfoldable pub paginated : ℕ → (ℕ → String) → State × Result Body → State × Result Body
  paginated limit url_of (s, ok (dict (some info) result)) =
      with_results (some info) (all_pages limit url_of info s (results_of result))
  paginated limit url_of r = r

  -- `request`; `paginate` also says that the method is GET, and `url_of` gives the url of a page.
  unfoldable pub request : ℕ → Bool → String → (ℕ → String) → State → State × Result Body
  request limit paginate url url_of s =
      let first = execute_single limit url s in
      if paginate then paginated limit url_of first else first

-- `CloudflareReadAdapter` and `CloudflareWriteAdapter` reject the methods of the other one.
unfoldable pub reader_accepts : String → Bool
reader_accepts method = method == "GET"

unfoldable pub writer_accepts : String → Bool
writer_accepts method = any (λ m. method == m) ("POST" ∷ "PUT" ∷ "PATCH" ∷ "DELETE" ∷ [])

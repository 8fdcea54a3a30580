-- ===== src/Tests/Requesting.antt =====
-- `request` against a server that fails once, and against one with three pages.
use cf_docker_tunnel_sync.Base.{
  ℕ, zero, suc, ◌-◌, true, ◌≡◌, refl, Option, none, some, List, [], ◌∷◌, ◌++◌, ◌==◌, if◌then◌else◌,
  string_dec, arith,
}
use cf_docker_tunnel_sync.Base.Json.{Json}
use cf_docker_tunnel_sync.Adapters.Cloudflare.{
  Body, dict, items, absent, PageInfo, ApiError, Reply, response, ok, fails, http_error, Client,
  Session, is_retryable, handle, sent, attempts, answer_of, after_inner_try, body_of,
  execute_single, request,
}
use cf_docker_tunnel_sync.Adapters.Cloudflare.Retries.{Sends, execute_single-Sends}
use cf_docker_tunnel_sync.Adapters.Cloudflare.Pages.{gather, request-gather}

abbrev answer : ℕ → Option Body → List ApiError → Reply
answer code json errors =
    response (record {
      status_code = code;
      retry_after = none;
      json = json;
      errors = errors;
      text = "body";
    })

-- The server answers 503, and then 400 with a message.
abbrev failing : Client
failing = record {
  World = ℕ;
  send = λ w url. (
    suc w,
    (elim w [
      | zero ↦ answer 503 none []
      | suc n ↦
          answer 400 (some (dict none absent)) (record { message = some "bad"; code = some 7 } ∷ [])
    ]),
  );
}

abbrev start : Session ℕ
start = record { world = 0; requests = []; pauses = [] }

-- The message of the second answer is not in the error.
swallowed : (execute_single failing 3 "/zones" start).1 ≡ fails (http_error 400 "body")
unfolding execute_single attempts handle sent is_retryable answer_of after_inner_try
swallowed = refl

execute_single-Sends_example : Sends failing 3 start (execute_single failing 3 "/zones" start)
execute_single-Sends_example = execute_single-Sends failing 3 "/zones" start (omega arith)

abbrev page_info : ℕ → PageInfo
page_info n = record { total_pages = some 3; page = some n }

abbrev info : PageInfo
info = page_info 1

abbrev listing : Client
listing = record {
  World = Unit {0};
  send = λ w url. (
    w,
    if url == "/zones"
        then answer 200 (some (dict (some info) (items (Json.text "a" ∷ [])))) []
        else answer 200 (some (dict (some (page_info 2)) (items (Json.text "b" ∷ [])))) [],
  );
}

abbrev begin : Session (Unit {0})
begin = record { world = tt; requests = []; pauses = [] }

request-gather_example :
    (request listing 3 true "/zones" (λ k. "/zones?page") begin).1
    ≡ ok (
        dict (some info) (items (Json.text "a" ∷ [] ++ gather (λ k. Json.text "b" ∷ []) 1 (3 - 1))))
unfolding execute_single attempts handle sent is_retryable answer_of body_of string_dec
request-gather_example =
    request-gather listing 3 "/zones" (λ k. "/zones?page") (λ k. Json.text "b" ∷ [])
      (λ k s. record { info = some (page_info 2); listed = refl }) info (Json.text "a" ∷ []) begin
      refl

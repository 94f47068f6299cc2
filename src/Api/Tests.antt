-- ===== src/Api/Tests.antt =====
-- The theorems on requests applied to small ones.
use codex_a2a_gateway.Base.{
  ℕ, ◌≡◌, refl, true, false, none, some, [], ◌∷◌, leb, if◌then◌else◌, length,
}
use codex_a2a_gateway.Tx.Errors.{Result, ok, err}
use codex_a2a_gateway.Api.Bodies.{bounded_body, joined, too_large, bounded_body-joined}
use codex_a2a_gateway.Broker.Calls.{empty}
use codex_a2a_gateway.Broker.Demo.{demo, at_time, computing}
use codex_a2a_gateway.Broker.Demo.{ask as submission}
use codex_a2a_gateway.Api.Replies.{
  Response, Service, db, respond, error_response, refuse_request, answer, with_db, with_body,
  with_parsed, accepted_response,
}
use codex_a2a_gateway.Api.Handlers.{Endpoint, Bodies, route, post_operation, serve_request}
use codex_a2a_gateway.Api.Guarded.{ChangesAs, serve_request-ChangesAs}
use codex_a2a_gateway.Api.Authentication.{
  Scope, AuthenticationSettings, Presents, authenticate, authenticate-Presents,
}

bounded_body-joined_example : bounded_body 2 ((1 ∷ []) ∷ (2 ∷ 3 ∷ []) ∷ []) ≡ (
    if leb (length (joined ((1 ∷ []) ∷ (2 ∷ 3 ∷ []) ∷ []))) 2
    then ok (joined ((1 ∷ []) ∷ (2 ∷ 3 ∷ []) ∷ []))
    else err too_large)
bounded_body-joined_example = bounded_body-joined 2 ((1 ∷ []) ∷ (2 ∷ 3 ∷ []) ∷ [])

abbrev tokens : AuthenticationSettings
tokens = record {
  allow_loopback_http = false;
  device_tokens = ("laptop", "s1") ∷ ("desk", "s2") ∷ [];
}

abbrev request : Scope
request = record {
  kind = "http";
  path = "/v1/events";
  scheme = "https";
  headers = ("host", "a") ∷ ("authorization", "Bearer s1") ∷ [];
}

authenticate-Presents_example : Presents tokens request "laptop"
unfolding authenticate
authenticate-Presents_example = authenticate-Presents tokens request "laptop" refl

abbrev bodies : Bodies
bodies = record {
  max_request_bytes = 64;
  parse_operation = λ body. some (submission 7 1);
  parse_receipt = λ body. none;
}

abbrev running : Service
running = record { has_ledger = true; worker_done = some false }

abbrev submission_call : Endpoint
submission_call = Endpoint.submit ((1 ∷ 2 ∷ []) ∷ [])

serve_request-ChangesAs_example :
    ChangesAs demo running tokens request
      (empty demo)
      (serve_request demo bodies running tokens request submission_call (at_time 1) (empty demo))
serve_request-ChangesAs_example =
    serve_request-ChangesAs demo bodies running tokens request submission_call (at_time 1)
      (empty demo)

-- The submission is accepted, and refused where the dispatcher has stopped.
unfoldable status_of : Result Response → ℕ
status_of (ok r) = r.status
status_of (err e) = 0

submit_test :
    (status_of
        (serve_request demo bodies running tokens request submission_call
          (at_time 1)
          (empty demo)).0
      ≡ 202)
    × (status_of
          (serve_request demo bodies
            (record running { worker_done = some true })
            tokens
            request
            submission_call
            (at_time 1)
            (empty demo)).0
        ≡ 503)
unfolding computing status_of authenticate serve_request route post_operation with_db db with_body
    with_parsed answer respond error_response refuse_request accepted_response bounded_body
submit_test = (refl, refl)

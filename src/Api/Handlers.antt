-- ===== src/Api/Handlers.antt =====
-- The routes of `create_broker_app` (hermes_a2a_gateway/broker.py) on a request of an authenticated
-- device, and a request of any. The parsers of JSON bodies and of decimal numbers are parameters,
-- `none` where they refuse.
use codex_a2a_gateway.Base.{ℕ, String, Option, none, some, List, leb, if◌then◌else◌}
use codex_a2a_gateway.Tx.Errors.{Code, ok, broker_error}
use codex_a2a_gateway.Broker.Model.{Request}
use codex_a2a_gateway.Broker.Setup.{Setup}
use codex_a2a_gateway.Broker.Accept
use codex_a2a_gateway.Broker.Artifacts
use codex_a2a_gateway.Broker.Cancel
use codex_a2a_gateway.Broker.Events
use codex_a2a_gateway.Api.Bodies.{bounded_body}
use codex_a2a_gateway.Api.Authentication.{Scope, AuthenticationSettings, Verdict, authenticate}
use codex_a2a_gateway.Api.Replies.{
  ReceiptRequest, Body, Service, Reply, refuse_request, answer, with_db, with_body, with_parsed,
  invalid_request, invalid_id, accepted_response, snapshot_response,
}

-- A cursor up to 2 ** 63 - 1.
unfoldable pub valid_cursor : Option ℕ → Option ℕ
valid_cursor none = none
valid_cursor (some n) = if leb n 9223372036854775807 then some n else none

module _ (P : Setup) (service : Service) where
  -- POST /v1/operations.
  unfoldable pub post_operation : (List ℕ → Option Request) → ℕ → String → List (List ℕ) → Reply P
  unfolding with_body with_parsed with_db answer accepted_response
  post_operation parse limit d chunks = with_body P (bounded_body limit chunks) λ body.
      with_parsed P (invalid_request "invalid operation request") (parse body)
        λ command. with_db P service (answer P accepted_response (Accept.accept P d command))

  -- GET /v1/operations/{operation_id}, where the identity is `none` if it is no UUID.
  unfoldable pub get_operation : String → Option ℕ → Reply P
  unfolding with_parsed with_db answer snapshot_response
  get_operation d id = with_db P service (
      with_parsed P (invalid_id "operation ID must be a UUID") id
        λ o. answer P snapshot_response (Accept.get P d o))

  -- POST /v1/operations/{operation_id}/cancel.
  unfoldable pub cancel_operation : String → Option ℕ → Reply P
  unfolding with_parsed with_db answer snapshot_response
  cancel_operation d id = with_db P service (
      with_parsed P (invalid_id "operation ID must be a UUID") id
        λ o. answer P (λ x. snapshot_response x.0) (Cancel.cancel_intent P d o))

  -- POST /v1/receipts.
  unfoldable pub post_receipt : (List ℕ → Option ReceiptRequest) → String → List (List ℕ) → Reply P
  unfolding with_body with_parsed with_db answer
  post_receipt parse d chunks = with_body P (bounded_body 4096 chunks) λ body.
      with_parsed P (invalid_request "invalid receipt request") (parse body) λ command.
        with_db P service (
          answer P (λ _. record { status = 200; body = Body.done })
            (Events.receipt P d command.operation_id command.result_id command.status))

  -- GET /v1/events, up to its first batch.
  unfoldable pub get_events : String → Option ℕ → Reply P
  unfolding with_parsed with_db answer valid_cursor
  get_events d cursor =
      with_parsed P (broker_error Code.invalid_cursor "cursor must be a nonnegative integer" 400)
        (valid_cursor cursor)
        λ after. with_db P service (
          answer P (λ rows. record { status = 200; body = Body.batch rows })
            (Events.events P d after 100))

  -- POST /v1/artifacts.
  unfoldable pub post_artifact : String → List (List ℕ) → ℕ → String → Reply P
  unfolding with_body with_db answer
  post_artifact d chunks digest content_type =
      with_body P (bounded_body P.max_artifact_bytes chunks) λ body. with_db P service (
        answer P (λ x. record { status = 201; body = Body.descriptor x })
          (Artifacts.put_artifact P d body digest content_type))

  -- GET /v1/artifacts/{artifact_id}.
  unfoldable pub get_artifact : String → Option ℕ → Reply P
  unfolding with_parsed with_db answer
  get_artifact d id = with_parsed P (invalid_id "artifact ID must be a UUID") id λ a.
      with_db P service (
        answer P (λ x. record { status = 200; body = Body.bytes x.0 x.1 })
          (Artifacts.artifact P d a))

  -- GET /healthz.
  unfoldable pub health : Reply P
  unfolding with_db
  health = with_db P service (λ t l. (ok (record { status = 200; body = Body.done }), l))

-- A request for one of the routes that call the store.
pub data Endpoint : Type 0 where
  submit receive : List (List ℕ) → Endpoint
  read cancel download : Option ℕ → Endpoint
  follow : Option ℕ → Endpoint
  upload : List (List ℕ) → ℕ → String → Endpoint

-- The parsers of bodies, and the bound of `settings.max_request_bytes`.
pub record Bodies : Type 0 where
  pub max_request_bytes : ℕ
  pub parse_operation : List ℕ → Option Request
  pub parse_receipt : List ℕ → Option ReceiptRequest

module _ (P : Setup) (B : Bodies) (service : Service) where
  unfoldable pub route : Endpoint → String → Reply P
  unfolding post_operation get_operation cancel_operation post_receipt get_events post_artifact
      get_artifact
  route (Endpoint.submit chunks) d =
      post_operation P service B.parse_operation B.max_request_bytes d chunks
  route (Endpoint.receive chunks) d = post_receipt P service B.parse_receipt d chunks
  route (Endpoint.read id) d = get_operation P service d id
  route (Endpoint.cancel id) d = cancel_operation P service d id
  route (Endpoint.download id) d = get_artifact P service d id
  route (Endpoint.follow cursor) d = get_events P service d cursor
  route (Endpoint.upload chunks digest kind) d = post_artifact P service d chunks digest kind

  abbrev pub after_verdict : Verdict → Endpoint → Reply P
  after_verdict Verdict.open_route e = health P service
  after_verdict (Verdict.as_device d) e = route e d
  after_verdict (Verdict.refused error) e = refuse_request P error

  -- A request with its scope, behind `DeviceAuthentication`. The one open path is /healthz.
  unfoldable pub serve_request : AuthenticationSettings → Scope → Endpoint → Reply P
  unfolding route authenticate health refuse_request
  serve_request settings scope e = after_verdict (authenticate settings scope) e

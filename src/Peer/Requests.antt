-- ===== src/Peer/Requests.antt =====
-- `_http_error`, `_get_json` and an attempt of `_post_rpc` of hermes_a2a_gateway/a2a.py. The messages of errors,
-- the bodies of requests and the pauses between attempts are left out.
use codex_a2a_gateway.Base.{
  ℕ, zero, suc, String, Bool, true, false, not, ◌&&◌, ◌||◌, Option, none, some, List, ◌∷◌, ◌==◌,
  leb, ltb, is_some, length, if◌then◌else◌,
}
use codex_a2a_gateway.Texts.{Text}
use codex_a2a_gateway.Peer.Json.{Json, Members, get, get_truthy}

-- httpx.TransportError, or a status and a body, which is none where it is no JSON.
pub data Reply : Type 0 where
  unreachable : Reply
  replied : ℕ → Option Json → Reply

pub data PeerCode : Type 0 where
  a2a_auth a2a_rate_limited a2a_not_found a2a_http a2a_invalid_response a2a_unreachable : PeerCode
  unsafe_agent_card a2a_task_not_found a2a_rpc_error a2a_transport_ambiguous : PeerCode
  correlation_mismatch a2a_invalid_sse : PeerCode

-- `A2AError`.
pub record PeerError : Type 0 where
  pub code : PeerCode
  pub retryable : Bool
  pub rpc_code : Option Json

pub data PeerResult (A : Type 0) : Type 0 where
  good : A → PeerResult A
  bad : PeerError → PeerResult A
  -- An exception that is no A2AError.
  crashed : PeerResult A

abbrev pub peer_error : PeerCode → Bool → PeerError
peer_error code retryable = record { code = code; retryable = retryable; rpc_code = none }

-- A GET or a POST, and its URL.
pub data Request : Type 0 where
  got posted : Text → Request

-- The client: `_card`, `_rpc_url` and `_tenant`, and its requests, the last first.
pub record PeerClient : Type 0 where
  pub card : Option Members
  pub rpc_url : Text
  pub tenant : Text
  pub requests : List Request

-- The peer answers the n-th request.
abbrev pub Peer : Type 0
Peer = ℕ → Reply

abbrev pub answer : Peer → PeerClient → Reply
answer peer s = peer (length s.requests)

abbrev pub after : Request → PeerClient → PeerClient
after r s = record s { requests = r ∷ s.requests }

abbrev pub is_success : ℕ → Bool
is_success status = leb 200 status && ltb status 300

unfoldable pub http_error : ℕ → PeerError
http_error status =
    if (status == 401) || (status == 403)
    then peer_error PeerCode.a2a_auth false
    else if status == 429
    then peer_error PeerCode.a2a_rate_limited true
    else if status == 404
    then peer_error PeerCode.a2a_not_found false
    else peer_error PeerCode.a2a_http (leb 500 status)

abbrev pub is_rate_limited : PeerCode → Bool
is_rate_limited PeerCode.a2a_rate_limited = true
is_rate_limited _ = false

abbrev pub is_not_found : PeerCode → Bool
is_not_found PeerCode.a2a_not_found = true
is_not_found _ = false

-- How an attempt ends: `again` goes on with the next one.
pub data Attempt (A : Type 0) : Type 0 where
  done : A → Attempt A
  fails : PeerError → Attempt A
  again : Attempt A

-- An attempt of `_get_json`; `final` is attempt >= retries.
unfoldable pub read_card : Bool → Reply → Attempt Members
unfolding http_error
read_card final Reply.unreachable =
    if final then Attempt.fails (peer_error PeerCode.a2a_unreachable true) else Attempt.again
read_card final (Reply.replied status body) =
    let mapped = http_error status in
    if not (is_success status)
    then (if not mapped.retryable || is_rate_limited mapped.code || final
        then Attempt.fails mapped
        else Attempt.again)
    else elim body [
      | none ↦
          if final then Attempt.fails (peer_error PeerCode.a2a_unreachable true) else Attempt.again
      | some (Json.object m) ↦ Attempt.done m
      | some j ↦ Attempt.fails (peer_error PeerCode.a2a_invalid_response false)
    ]

unfoldable pub has_key : String → Members → Bool
unfolding get
has_key k m = is_some (get k m)

-- payload.get("error") or {}, and its "code" if it is an object.
unfoldable pub rpc_code_of : Members → Option Json
unfolding get_truthy get
rpc_code_of payload = elim (get_truthy "error" payload) [
  | none ↦ none
  | some (Json.object err) ↦ get "code" err
  | some j ↦ none
]

abbrev is_negative : ℕ → Option Json → Bool
is_negative n (some (Json.negative m)) = n == m
is_negative n _ = false

unfoldable pub rpc_error : Members → PeerError
unfolding rpc_code_of
rpc_error payload =
    let found = rpc_code_of payload in
    record {
      code =
          if is_negative 32001 found then PeerCode.a2a_task_not_found else PeerCode.a2a_rpc_error;
      retryable = is_negative 32051 found;
      rpc_code = found;
    }

-- A transport error, or a body that is no JSON.
abbrev pub transport_failed : Bool → Bool → Attempt (Option Json)
transport_failed read_only final =
    if not read_only || final
    then Attempt.fails (
        peer_error
          (if read_only then PeerCode.a2a_unreachable else PeerCode.a2a_transport_ambiguous)
          read_only)
    else Attempt.again

-- An attempt of `_post_rpc`; `final` is attempt + 1 >= attempts. The result is none where it is absent.
unfoldable pub read_payload : Bool → Bool → Reply → Attempt (Option Json)
unfolding http_error has_key rpc_error get
read_payload read_only final Reply.unreachable = transport_failed read_only final
read_payload read_only final (Reply.replied status body) =
    let mapped = http_error status in
    if not (is_success status)
    then (if not read_only || not mapped.retryable || is_rate_limited mapped.code || final
        then Attempt.fails mapped
        else Attempt.again)
    else elim body [
      | none ↦ transport_failed read_only final
      | some (Json.object payload) ↦
          if has_key "error" payload
          then Attempt.fails (rpc_error payload)
          else Attempt.done (get "result" payload)
      | some j ↦ Attempt.fails (peer_error PeerCode.a2a_invalid_response false)
    ]

module _ {A : Type 0} where
  -- After an attempt, with what the later ones come to.
  abbrev pub end_attempt :
      Attempt A → PeerClient → PeerResult A × PeerClient → PeerResult A × PeerClient
  end_attempt (Attempt.done a) s later = (PeerResult.good a, s)
  end_attempt (Attempt.fails e) s later = (PeerResult.bad e, s)
  end_attempt Attempt.again s later = later

  -- for attempt in range(...), with as many attempts left.
  unfoldable pub attempts :
      (Bool → Reply → Attempt A) → Request → Peer → ℕ → PeerClient → PeerResult A × PeerClient
  attempts reads r peer zero s = (PeerResult.bad (peer_error PeerCode.a2a_unreachable true), s)
  attempts reads r peer (suc left) s =
      let later = attempts reads r peer left (after r s) in
      end_attempt (reads (left == 0) (answer peer s)) (after r s) later

unfoldable pub get_json : Peer → Text → PeerClient → PeerResult Members × PeerClient
unfolding read_card attempts
get_json peer url s = attempts read_card (Request.got url) peer 3 s

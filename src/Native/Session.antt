-- ===== src/Native/Session.antt =====
-- A session with the host's app-server: `_rpc` of hermes_a2a_gateway/native_delivery.py. What the process
-- prints, whether each write goes through, and the result of `capability` are given.
use codex_a2a_gateway.Base.{
  ℕ, Bool, true, false, ◌&&◌, Option, none, some, List, [], ◌∷◌, ◌==◌, length, if◌then◌else◌,
}
use codex_a2a_gateway.Broker.Content.{codes}
use codex_a2a_gateway.Peer.Json.{Json, Members, get}
use codex_a2a_gateway.Peer.Requests.{has_key}

-- Why a session stops: an exception that `_rpc` catches (OSError, ValueError, EOFError or
-- TimeoutError), any other one, or CancelledError.
pub data Stop : Type 0 where
  caught crashed canceled : Stop

-- What `readline` gives or raises; none is a line that json.loads refuses.
pub data Reading : Type 0 where
  line : Option Json → Reading
  stopped : Stop → Reading

-- A session: whether `capability` returned, whether the process was started, what it prints, and what
-- the n-th write raises. Output that ends is a timeout.
pub record Session : Type 0 where
  pub capable : Bool
  pub started : Bool
  pub output : List Reading
  pub writes : ℕ → Option Stop

-- The messages written so far, the last first; a message that a failed write may have sent is one.
abbrev pub Written : Type 0
Written = List Json

pub data Step (A : Type 0) : Type 0 where
  done : A → Step A
  stops : Stop → Step A

abbrev pub end_write : Option Stop → Step (Unit {0})
end_write none = Step.done tt
end_write (some e) = Step.stops e

abbrev pub write : (ℕ → Option Stop) → Json → Written → Step (Unit {0}) × Written
write writes message log = (end_write (writes (length log)), message ∷ log)

-- message.get("id") == request_id; True is 1, and False is 0.
unfoldable pub is_id : ℕ → Option Json → Bool
is_id k (some (Json.number n)) = n == k
is_id k (some (Json.flag true)) = k == 1
is_id k (some (Json.flag false)) = k == 0
is_id k j = false

-- The answer to another's request.
abbrev pub refusal : Json → Json
refusal id = Json.object (
    Members.member "id" id (
      Members.member "error"
        (Json.object (
          Members.member "code" (Json.negative 32601)
            (Members.member "message" (Json.text (codes "unsupported")) Members.end)))
        Members.end))

-- The result of a response; what is no object, or comes with an error, is a ValueError.
unfoldable pub result_of : Members → Step Members
unfolding get has_key
result_of message =
    if has_key "error" message then Step.stops Stop.caught else elim (get "result" message) [
      | some (Json.object m) ↦ Step.done m
      | none ↦ Step.stops Stop.caught
      | some j ↦ Step.stops Stop.caught
    ]

-- What a line that is an object does: a result, an answer to another's request, or nothing.
pub data LineKind : Type 0 where
  responds asks ignored : LineKind

unfoldable pub kind_of : ℕ → Members → LineKind
unfolding get has_key is_id
kind_of request message =
    if is_id request (get "id" message)
    then LineKind.responds
    else if has_key "id" message && has_key "method" message
    then LineKind.asks
    else LineKind.ignored

abbrev pub id_of : Members → Json
id_of message = elim (get "id" message) [ none ↦ Json.null | some j ↦ j ]

abbrev pub with_rest : List Reading → Step Members → Step (Members × List Reading)
with_rest rest (Step.done m) = Step.done (m, rest)
with_rest rest (Step.stops e) = Step.stops e

-- What follows a step, unless it stops.
abbrev pub next :
    {A B : Type 0} → Step A × Written → (A → Written → Step B × Written) → Step B × Written
next (Step.done a, log) f = f a log
next (Step.stops e, log) f = (Step.stops e, log)

module _ (writes : ℕ → Option Stop) where
  -- The rest of the output comes with the result, for the next response.
  abbrev pub end_line :
      Members
      → LineKind
      → List Reading
      → Written
      → (Written → Step (Members × List Reading) × Written)
      → Step (Members × List Reading) × Written
  end_line message LineKind.ignored rest log later = later log
  end_line message LineKind.responds rest log later = (with_rest rest (result_of message), log)
  end_line message LineKind.asks rest log later =
      next (write writes (refusal (id_of message)) log) (λ u log'. later log')

  -- `response`.
  unfoldable pub response : ℕ → List Reading → Written → Step (Members × List Reading) × Written
  unfolding kind_of result_of get
  response request [] log = (Step.stops Stop.caught, log)
  response request (Reading.stopped e ∷ rest) log = (Step.stops e, log)
  response request (Reading.line none ∷ rest) log = (Step.stops Stop.caught, log)
  response request (Reading.line (some (Json.object message)) ∷ rest) log =
      end_line message (kind_of request message) rest log (λ log'. response request rest log')
  response request (Reading.line (some j) ∷ rest) log = (Step.stops Stop.crashed, log)

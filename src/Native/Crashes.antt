-- ===== src/Native/Crashes.antt =====
-- A line of the host's app-server that is JSON and no object.
use codex_a2a_gateway.Base.{ℕ, ◌≡◌, refl, ap, ◌∙◌, true, none, some, List, [], ◌∷◌}
use codex_a2a_gateway.Texts.{Text, same_text}
use codex_a2a_gateway.Peer.Json.{Json, Members, get}
use codex_a2a_gateway.Native.Session.{
  crashed, Reading, Session, Written, Step, LineKind, kind_of, result_of, response,
}
use codex_a2a_gateway.Native.Queue.{
  RpcEnd, Method, call_message, initialize, initialized, add_params, handshake, submit_call,
  end_call, after_handshake, rpc, enqueue,
}
use codex_a2a_gateway.Native.Adds.{adds, is_add}

abbrev pub IsNoObject : Json → Type 0
IsNoObject (Json.object m) = ⊥
IsNoObject j = Unit

-- A session in which every write goes through, and the answer to the handshake is followed by a line.
abbrev pub answered_with : Members → Json → List Reading → Session
answered_with first j rest = record {
  capable = true;
  started = true;
  output = Reading.line (some (Json.object first)) ∷ Reading.line (some j) ∷ rest;
  writes = λ n. none;
}

response-IsCrash :
    (request : ℕ) (j : Json) (rest : List Reading) (log : Written)
    → IsNoObject j
    → response (λ n. none) request (Reading.line (some j) ∷ rest) log ≡ (Step.stops crashed, log)
unfolding response
response-IsCrash request Json.null rest log h = refl
response-IsCrash request Json.fraction rest log h = refl
response-IsCrash request (Json.flag b) rest log h = refl
response-IsCrash request (Json.number n) rest log h = refl
response-IsCrash request (Json.negative n) rest log h = refl
response-IsCrash request (Json.text t) rest log h = refl
response-IsCrash request (Json.list items) rest log h = refl
response-IsCrash request (Json.object m) rest log h = elim h [ ]

module _ (client : Json) (first result : Members) (j : Json) (rest : List Reading) where
  handshake-answered :
      kind_of 1 first ≡ LineKind.responds
      → result_of first ≡ Step.done result
      → handshake client (λ n. none) (answered_with first j rest).output
        ≡ (Step.done (Reading.line (some j) ∷ rest), initialized ∷ initialize client ∷ [])
  unfolding handshake response
  handshake-answered responds done = rw (responds, done) refl

  rpc-IsCrash :
      (params : Json)
      → kind_of 1 first ≡ LineKind.responds
      → result_of first ≡ Step.done result
      → IsNoObject j
      → rpc client (answered_with first j rest) Method.queue_add params ≡ (
        RpcEnd.crashed,
        call_message Method.queue_add params ∷ initialized ∷ initialize client ∷ [],
      )
  unfolding rpc submit_call
  rpc-IsCrash params responds done noobject =
      ap (after_handshake client (λ n. none) Method.queue_add params)
        (handshake-answered responds done)
      ∙ ap (end_call client Method.queue_add) (
          response-IsCrash 2 j rest
            (call_message Method.queue_add params ∷ initialized ∷ initialize client ∷ []) noobject)

-- Where the host answers the handshake, and then prints a line that is JSON and no object, `enqueue` has
-- written the message that adds to the queue, and ends in an exception that is neither NativeUnsupported nor
-- NativeOutcomeUnknown.
pub enqueue-IsCrash :
    (client : Json) (thread delivery t : Text) (first result : Members) (j : Json)
    (rest : List Reading)
    → kind_of 1 first ≡ LineKind.responds
    → result_of first ≡ Step.done result
    → IsNoObject j
    → ((enqueue client (answered_with first j rest) thread delivery t).0 ≡ RpcEnd.crashed)
      × (adds (enqueue client (answered_with first j rest) thread delivery t).1 ≡ 1)
unfolding enqueue is_add get same_text
enqueue-IsCrash client thread delivery t first result j rest responds done noobject =
    let crash =
      rpc-IsCrash client first result j rest (add_params thread delivery t) responds done
        noobject in
    (rw crash refl, rw crash refl)

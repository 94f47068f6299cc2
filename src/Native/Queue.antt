-- ===== src/Native/Queue.antt =====
-- `_rpc`, `enqueue` and `reconcile` of hermes_a2a_gateway/native_delivery.py.
use codex_a2a_gateway.Base.{
  ℕ, zero, suc, Bool, true, false, ◌&&◌, Option, none, some, List, [], ◌∷◌, ◌++◌, if◌then◌else◌,
}
use codex_a2a_gateway.Broker.Content.{codes}
use codex_a2a_gateway.Texts.{Text, same_text}
use codex_a2a_gateway.Peer.Json.{Json, Items, Members, get, get_truthy}
use codex_a2a_gateway.Peer.Envelopes.{is_text}
use codex_a2a_gateway.Peer.Parts.{items_of}
use codex_a2a_gateway.Native.Session.{Stop, Reading, Session, Written, Step, write, next, response}

-- How a call ends: with a result, with NativeUnsupported or NativeOutcomeUnknown, or with another exception.
pub data RpcEnd (A : Type 0) : Type 0 where
  answered : A → RpcEnd A
  unsupported outcome_unknown crashed canceled : RpcEnd A

pub data Method : Type 0 where
  queue_add queue_list : Method

abbrev pub method_text : Method → Text
method_text Method.queue_add = codes "thread/queue/add"
method_text Method.queue_list = codes "thread/queue/list"

abbrev pub initialize : Json → Json
initialize client = Json.object (
    Members.member "id" (Json.number 1) (
      Members.member "method" (Json.text (codes "initialize"))
        (Members.member "params" client Members.end)))

abbrev pub initialized : Json
initialized = Json.object (
    Members.member "method" (Json.text (codes "initialized"))
      (Members.member "params" (Json.object Members.end) Members.end))

abbrev pub call_message : Method → Json → Json
call_message method params = Json.object (
    Members.member "id" (Json.number 2) (
      Members.member "method" (Json.text (method_text method))
        (Members.member "params" params Members.end)))

-- A caught exception, before the message of the call is written, and from then on.
abbrev pub end_early : {A : Type 0} → Stop → RpcEnd A
end_early Stop.caught = RpcEnd.unsupported
end_early Stop.crashed = RpcEnd.crashed
end_early Stop.canceled = RpcEnd.canceled

abbrev pub end_late : {A : Type 0} → Method → Stop → RpcEnd A
end_late Method.queue_add Stop.caught = RpcEnd.outcome_unknown
end_late Method.queue_list Stop.caught = RpcEnd.unsupported
end_late method Stop.crashed = RpcEnd.crashed
end_late method Stop.canceled = RpcEnd.canceled

module _ (client : Json) where
  -- The handshake; `submitted` is false.
  unfoldable pub handshake : (ℕ → Option Stop) → List Reading → Step (List Reading) × Written
  unfolding response
  handshake writes output = next (write writes (initialize client) []) λ _ log.
      next (response writes 1 output log) λ (result, rest) log'.
        next (write writes initialized log') λ _ log''. (Step.done rest, log'')

  -- The message of the call; `submitted` is true.
  unfoldable pub submit_call :
      (ℕ → Option Stop)
      → Method
      → Json
      → List Reading
      → Written
      → Step (Members × List Reading) × Written
  unfolding response
  submit_call writes method params output log =
      next (write writes (call_message method params) log) λ _ log'. response writes 2 output log'

  abbrev pub end_call : Method → Step (Members × List Reading) × Written → RpcEnd Members × Written
  end_call method (Step.done (m, rest), log) = (RpcEnd.answered m, log)
  end_call method (Step.stops e, log) = (end_late method e, log)

  abbrev pub after_handshake :
      (ℕ → Option Stop) → Method → Json → Step (List Reading) × Written → RpcEnd Members × Written
  after_handshake writes method params (Step.done rest, log) =
      end_call method (submit_call writes method params rest log)
  after_handshake writes method params (Step.stops e, log) = (end_early e, log)

  unfoldable pub rpc : Session → Method → Json → RpcEnd Members × Written
  unfolding handshake submit_call
  rpc s method params =
      if s.capable && s.started
      then after_handshake s.writes method params (handshake s.writes s.output)
      else (RpcEnd.unsupported, [])

-- `_same_text`.
unfoldable pub is_input : Text → Option Json → Bool
unfolding get same_text
is_input t (some (Json.list (Items.item (Json.object m) Items.last))) =
    is_text (get "type" m) (codes "text") && is_text (get "text" m) t
is_input t j = false

abbrev pub get_or_empty : Option Json → Json
get_or_empty none = Json.object Members.end
get_or_empty (some j) = j

-- An item of the queue for this delivery, with this text.
unfoldable pub is_delivery : Text → Text → Members → Bool
unfolding get is_input same_text
is_delivery delivery t item =
    is_text (get "clientUserMessageId" item) delivery && is_input t (get "input" item)

-- An item that is no object says no more than an empty one.
abbrev pub object_of : Json → Members
object_of (Json.object m) = m
object_of j = Members.end

-- A value that is no text is refused as the empty text is.
abbrev pub text_of : Option Json → Text
text_of (some (Json.text s)) = s
text_of j = []

-- What the acknowledged item says: its identity, if it is of this delivery.
abbrev pub check_id : Bool → Text → RpcEnd Text
check_id true (c ∷ id) = RpcEnd.answered (c ∷ id)
check_id true [] = RpcEnd.outcome_unknown
check_id false id = RpcEnd.outcome_unknown

unfoldable pub check_item : Text → Text → Members → RpcEnd Text
unfolding is_delivery get
check_item delivery t item = check_id (is_delivery delivery t item) (text_of (get "id" item))

abbrev pub add_params : Text → Text → Text → Json
add_params thread delivery t = Json.object (
    Members.member "threadId" (Json.text thread) (
      Members.member "clientUserMessageId" (Json.text delivery) (
        Members.member "input"
          (Json.list (
            Items.item
              (Json.object (
                Members.member "type" (Json.text (codes "text"))
                  (Members.member "text" (Json.text t) Members.end)))
              Items.last))
          Members.end)))

abbrev pub list_params : Text → Json → Json
list_params thread cursor = Json.object (
    Members.member "threadId" (Json.text thread)
      (Members.member "cursor" cursor (Members.member "limit" (Json.number 100) Members.end)))

-- What follows a call that returns.
abbrev pub end_rpc : {A B : Type 0} → RpcEnd A → (A → RpcEnd B) → RpcEnd B
end_rpc (RpcEnd.answered a) f = f a
end_rpc RpcEnd.unsupported f = RpcEnd.unsupported
end_rpc RpcEnd.outcome_unknown f = RpcEnd.outcome_unknown
end_rpc RpcEnd.crashed f = RpcEnd.crashed
end_rpc RpcEnd.canceled f = RpcEnd.canceled

-- [item["id"] for each item of this delivery with a text for an identity].
abbrev pub with_id : Bool → Option Json → List Text → List Text
with_id true (some (Json.text id)) rest = id ∷ rest
with_id b j rest = rest

unfoldable pub matching : Text → Text → Items → List Text
unfolding is_delivery get
matching delivery t Items.last = []
matching delivery t (Items.item (Json.object item) rest) =
    with_id (is_delivery delivery t item) (get "id" item) (matching delivery t rest)
matching delivery t (Items.item j rest) = matching delivery t rest

-- matches[0] if len(matches) == 1 else None.
abbrev pub sole : List Text → Option Text
sole (id ∷ []) = some id
sole ids = none

module _ (client : Json) where
  unfoldable pub enqueue : Session → Text → Text → Text → RpcEnd Text × Written
  unfolding rpc check_item get
  enqueue s thread delivery t =
      let (ended, log) = rpc client s Method.queue_add (add_params thread delivery t) in
      (
        end_rpc ended
            (λ m. check_item delivery t (object_of (get_or_empty (get "queuedSubmission" m)))),
        log,
      )

  module _ (sessions : ℕ → Session) (thread delivery t : Text) where
    abbrev pub read_page :
        Option Items
        → Option Json
        → List Text
        → (Json → List Text → RpcEnd (Option Text) × Written)
        → RpcEnd (Option Text) × Written
    read_page none cursor matches later = (RpcEnd.crashed, [])
    read_page (some items) none matches later =
        (RpcEnd.answered (sole (matches ++ matching delivery t items)), [])
    read_page (some items) (some cursor) matches later =
        later cursor (matches ++ matching delivery t items)

    -- The items of a page; none is a TypeError.
    abbrev pub page_items : Option Json → Option Items
    page_items none = some Items.last
    page_items (some j) = items_of j

    abbrev pub after_page :
        RpcEnd Members × Written
        → List Text
        → (Json → List Text → RpcEnd (Option Text) × Written)
        → RpcEnd (Option Text) × Written
    after_page (RpcEnd.answered m, log) matches later =
        let (ended, more) =
          read_page (page_items (get "data" m)) (get_truthy "nextCursor" m) matches later in
        (ended, more ++ log)
    after_page (RpcEnd.unsupported, log) matches later = (RpcEnd.unsupported, log)
    after_page (RpcEnd.outcome_unknown, log) matches later = (RpcEnd.outcome_unknown, log)
    after_page (RpcEnd.crashed, log) matches later = (RpcEnd.crashed, log)
    after_page (RpcEnd.canceled, log) matches later = (RpcEnd.canceled, log)

    -- The rounds of the loop that are left, and the session of the next one.
    unfoldable pub read_pages : ℕ → ℕ → Json → List Text → RpcEnd (Option Text) × Written
    unfolding rpc get get_truthy matching items_of
    read_pages zero k cursor matches = (RpcEnd.answered none, [])
    read_pages (suc left) k cursor matches =
        after_page (rpc client (sessions k) Method.queue_list (list_params thread cursor)) matches
          (λ cursor' matches'. read_pages left (suc k) cursor' matches')

    unfoldable pub reconcile : RpcEnd (Option Text) × Written
    unfolding read_pages
    reconcile = read_pages 100 0 Json.null []

-- ===== src/Native/Tests.antt =====
-- The theorems applied to a small queue of the host, and tests of what it is asked.
use codex_a2a_gateway.Base.{ℕ, ◌≡◌, refl, true, none, some, List, [], ◌∷◌}
use codex_a2a_gateway.Broker.Content.{codes}
use codex_a2a_gateway.Texts.{Text, same_text}
use codex_a2a_gateway.Peer.Json.{Json, Items, Members, get, get_truthy, is_truthy}
use codex_a2a_gateway.Peer.Requests.{has_key}
use codex_a2a_gateway.Peer.Parts.{items_of}
use codex_a2a_gateway.Native.Session.{Reading, Session, is_id, kind_of, result_of, response}
use codex_a2a_gateway.Native.Queue.{
  RpcEnd, handshake, submit_call, rpc, is_input, is_delivery, check_item, matching, enqueue,
  read_pages, reconcile,
}
use codex_a2a_gateway.Native.Adds.{is_add, adds, IsSubmission, enqueue-IsSubmission}
use codex_a2a_gateway.Native.Pages.{Found, reconcile-Found}
use codex_a2a_gateway.Native.Crashes.{answered_with, enqueue-IsCrash}

abbrev with_result : ℕ → Members → Members
with_result id result =
    Members.member "id" (Json.number id) (Members.member "result" (Json.object result) Members.end)

abbrev queued : Members
queued = Members.member "id" (Json.text (codes "q-1")) (
    Members.member "clientUserMessageId" (Json.text (codes "d-1")) (
      Members.member "input"
        (Json.list (
          Items.item
            (Json.object (
              Members.member "type" (Json.text (codes "text"))
                (Members.member "text" (Json.text (codes "done")) Members.end)))
            Items.last))
        Members.end))

abbrev host : List Reading → Session
host output = record { capable = true; started = true; output = output; writes = λ n. none }

-- The host answers, and acknowledges the message.
abbrev adding : Session
adding = host (
    Reading.line (some (Json.object (with_result 1 Members.end)))
    ∷ Reading.line (
        some (
          Json.object
            (with_result 2 (Members.member "queuedSubmission" (Json.object queued) Members.end))))
    ∷ [])

-- The host answers, and lists the queue.
abbrev listing : ℕ → Session
listing k = host (
    Reading.line (some (Json.object (with_result 1 Members.end)))
    ∷ Reading.line (
        some (
          Json.object (
            with_result 2 (
              Members.member "data" (Json.list (Items.item (Json.object queued) Items.last))
                Members.end))))
    ∷ [])

abbrev client : Json
client = Json.object Members.end

unfoldable native_computing : Unit {0}
unfolding same_text get get_truthy is_truthy has_key items_of is_id kind_of result_of response
    handshake submit_call rpc is_input is_delivery check_item matching enqueue read_pages reconcile
    is_add
native_computing = tt

enqueue_test :
    (enqueue client adding (codes "t-1") (codes "d-1") (codes "done")).0
    ≡ RpcEnd.answered (codes "q-1")
unfolding native_computing
enqueue_test = refl

reconcile_test :
    (reconcile client listing (codes "t-1") (codes "d-1") (codes "done")).0
    ≡ RpcEnd.answered (some (codes "q-1"))
unfolding native_computing
reconcile_test = refl

enqueue-IsSubmission_example :
    IsSubmission (enqueue client adding (codes "t-1") (codes "d-1") (codes "done"))
enqueue-IsSubmission_example =
    enqueue-IsSubmission client adding (codes "t-1") (codes "d-1") (codes "done")

reconcile-Found_example :
    (adds (reconcile client listing (codes "t-1") (codes "d-1") (codes "done")).1 ≡ 0)
    × ((id : Text)
        → (reconcile client listing (codes "t-1") (codes "d-1") (codes "done")).0
          ≡ RpcEnd.answered (some id)
        → Found client listing (codes "t-1") (codes "d-1") (codes "done") 0 Json.null (id ∷ []))
reconcile-Found_example = reconcile-Found client listing (codes "t-1") (codes "d-1") (codes "done")

enqueue-IsCrash_example :
    ((enqueue client
        (answered_with (with_result 1 Members.end) (Json.list Items.last) [])
        (codes "t-1")
        (codes "d-1")
        (codes "done")).0
      ≡ RpcEnd.crashed)
    × (adds
          (enqueue client
            (answered_with (with_result 1 Members.end) (Json.list Items.last) [])
            (codes "t-1")
            (codes "d-1")
            (codes "done")).1
        ≡ 1)
unfolding native_computing
enqueue-IsCrash_example =
    enqueue-IsCrash client (codes "t-1") (codes "d-1") (codes "done") (with_result 1 Members.end)
      Members.end (Json.list Items.last) [] refl refl tt

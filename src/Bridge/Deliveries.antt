-- ===== src/Bridge/Deliveries.antt =====
-- The hand-over of results to the host's queue: `deliver_ready` of hermes_a2a_gateway/client.py.
-- `supported` is native_status["supported"].
use codex_a2a_gateway.Base.{
  ℕ, Bool, false, not, ◌&&◌, ◌||◌, Option, none, some, List, [], ◌∷◌, ◌==◌, same, is_some,
  if◌then◌else◌,
}
use codex_a2a_gateway.Tx.{transaction}
use codex_a2a_gateway.Client.Setup.{ClientSetup, ClientRow}
use codex_a2a_gateway.Client.Commands.{ids, read_row}
use codex_a2a_gateway.Client.Delivery.{
  DeliveryEnd, is_uncertain, reported_result, claim_delivery, finish_delivery,
}
use codex_a2a_gateway.Bridge.Jobs.{
  Sent, QueueAnswer, returned, Job, Raised, give, throw, call, look, ask_queue, note_reconciled,
  ◌>>=◌, ◌>>◌, for_each,
}

unfoldable pub is_member : ℕ → List ℕ → Bool
is_member o [] = false
is_member o (p ∷ rest) = (o == p) || is_member o rest

module _ (P : ClientSetup) where
  unfoldable pub was_reconciled : ℕ → Job P Bool
  unfolding is_member
  was_reconciled o σ w = (returned (is_member o w.reconciled), w)

  abbrev pub find_row : ℕ → Job P (ClientRow P)
  find_row o = call (transaction (read_row P o none))

  unfoldable pub after_reconcile : ℕ → QueueAnswer → Job P (Unit {0})
  after_reconcile o (QueueAnswer.accepted queue) =
      if same queue "" then give tt else call (finish_delivery P o DeliveryEnd.queued (some queue))
  after_reconcile o QueueAnswer.dropped = throw Raised.canceled
  after_reconcile o _ = give tt

  -- A delivery whose outcome is unknown is looked for once.
  unfoldable pub reconcile_delivery : Bool → ClientRow P → Job P (Unit {0})
  unfolding after_reconcile
  reconcile_delivery supported row = do
    note_reconciled row.operation_id
    if supported && is_some row.snapshot
        then (do
          answer ← ask_queue (
              Sent.reconcile row.operation_id row.thread_id row.delivery_id
                (reported_result row.snapshot))
          after_reconcile row.operation_id answer)
        else give tt

  unfoldable pub after_enqueue : ℕ → QueueAnswer → Job P (Unit {0})
  after_enqueue o (QueueAnswer.accepted queue) =
      call (finish_delivery P o DeliveryEnd.queued (some queue))
  after_enqueue o QueueAnswer.absent = call (finish_delivery P o DeliveryEnd.queued none)
  after_enqueue o QueueAnswer.dropped = throw Raised.canceled
  after_enqueue o QueueAnswer.unsupported = call (finish_delivery P o DeliveryEnd.unsupported none)
  after_enqueue o QueueAnswer.outcome_unknown = do
    call (finish_delivery P o DeliveryEnd.delivery_outcome_unknown none)
    note_reconciled o

  unfoldable pub deliver_claimed : Bool → Option (ClientRow P) → Job P (Unit {0})
  unfolding after_enqueue
  deliver_claimed supported none = give tt
  deliver_claimed supported (some row) =
      if supported
      then (do
        answer ← ask_queue (
            Sent.enqueue row.operation_id row.thread_id row.delivery_id
              (reported_result row.snapshot))
        after_enqueue row.operation_id answer)
      else call (finish_delivery P row.operation_id DeliveryEnd.unsupported none)

  unfoldable pub claim_and_deliver : Bool → ℕ → Job P (Unit {0})
  unfolding deliver_claimed
  claim_and_deliver supported o = do
    claimed ← call (claim_delivery P o)
    deliver_claimed supported claimed

  unfoldable pub deliver_operation : Bool → ℕ → Job P (Unit {0})
  unfolding was_reconciled reconcile_delivery claim_and_deliver
  deliver_operation supported o = do
    row ← find_row o
    seen ← was_reconciled o
    if is_uncertain row.delivery_state && not seen
        then reconcile_delivery supported row
        else claim_and_deliver supported o

  unfoldable pub deliver_ready : Bool → Job P (Unit {0})
  unfolding deliver_operation
  deliver_ready supported = do
    operations ← look (ids P false)
    for_each (deliver_operation supported) operations

-- ===== src/Client/Delivery.antt =====
-- Delivery to the host's queue: `release_inline`, `claim_delivery` and `finish_delivery` of
-- hermes_a2a_gateway/client_store.py, and what its `__init__` does to a ledger that is opened again.
use codex_a2a_gateway.Base.{
  ℕ, String, Bool, true, false, not, ◌&&◌, ◌||◌, Option, none, some, List, [], ◌∷◌, ltb, is_some,
  if◌then◌else◌, update,
}
use codex_a2a_gateway.Tx.Errors.{Result, internal}
use codex_a2a_gateway.Tx.{Tape, Tx, pure, or_raise, modify, utcnow, draw, ◌>>=◌, ◌>>◌, transaction}
use codex_a2a_gateway.Broker.Model.{ReceiptStatus}
use codex_a2a_gateway.Client.Model.{
  Delivery, CancelState, Reported, ClientOperation, ClientReceipt, has_id, has_final,
}
use codex_a2a_gateway.Client.Setup.{ClientSetup, ClientStore, ClientRow}
use codex_a2a_gateway.Client.Commands.{read_row}
use codex_a2a_gateway.Client.Snapshots.{add_client_receipt, note_receipt}

unfoldable pub is_inline : Delivery → Bool
is_inline Delivery.inline_pending = true
is_inline _ = false

unfoldable pub is_ready : Delivery → Bool
is_ready Delivery.ready = true
is_ready _ = false

unfoldable pub is_enqueueing : Delivery → Bool
is_enqueueing Delivery.enqueueing = true
is_enqueueing _ = false

unfoldable pub is_uncertain : Delivery → Bool
is_uncertain Delivery.delivery_outcome_unknown = true
is_uncertain _ = false

unfoldable pub is_sending : Option CancelState → Bool
is_sending (some CancelState.sending) = true
is_sending _ = false

abbrev pub reported_result : {Value : Type 0} → Option (Reported Value) → Option String
reported_result none = none
reported_result (some s) = s.result_id

-- How a delivery ends: what the caller of `finish_delivery` passes for its status.
pub data DeliveryEnd : Type 0 where
  queued unsupported delivery_outcome_unknown : DeliveryEnd

unfoldable pub end_state : DeliveryEnd → Delivery
end_state queued = Delivery.queued
end_state unsupported = Delivery.unsupported
end_state delivery_outcome_unknown = Delivery.delivery_outcome_unknown

-- Rows of uncertain delivery get a receipt for their result.
unfoldable pub uncertain_receipts :
    {Token Value : Type 0}
    → List (ClientOperation Token Value)
    → List ClientReceipt
    → List ClientReceipt
unfolding is_uncertain add_client_receipt
uncertain_receipts [] receipts = receipts
uncertain_receipts (row ∷ rows) receipts = elim (reported_result row.snapshot) [
  | none ↦ uncertain_receipts rows receipts
  | some result ↦ uncertain_receipts rows (
      if is_uncertain row.delivery_state
      then add_client_receipt row.operation_id result ReceiptStatus.delivery_outcome_unknown
          receipts
      else receipts)
]

module _ (P : ClientSetup) where
  -- inline_deadline=0, delivery_state='ready'.
  unfoldable pub ready_row : ClientRow P → ClientRow P
  ready_row row = record row { inline_deadline = 0; delivery_state = Delivery.ready }

  unfoldable pub release_inline : ℕ → ClientStore P → ClientStore P
  release_inline o l = record l {
    operations =
        update (λ row. has_id o row && is_inline row.delivery_state) ready_row l.operations;
  }

  -- not snapshot.get("result_id") or snapshot["state"] not in FINAL, negated, of a snapshot there is.
  unfoldable pub is_deliverable : ClientRow P → Bool
  is_deliverable row = is_some (reported_result row.snapshot) && has_final row.snapshot

  -- The UPDATE of `claim_delivery`; what is returned is the row with the delivery's identity.
  unfoldable pub start_delivery : ClientRow P → Tx (ClientStore P) (Option (ClientRow P))
  start_delivery row = do
    id ← draw
    modify (λ l. record l {
      operations =
          update (has_id row.operation_id)
            (λ r. record r { delivery_state = Delivery.enqueueing; delivery_id = some id })
            l.operations;
    })
    pure (some (record row { delivery_id = some id }))

  -- row["inline_deadline"] > time.time() or there is no final snapshot with a result.
  unfoldable pub claim_ready : ClientRow P → Tx (ClientStore P) (Option (ClientRow P))
  unfolding is_deliverable
  claim_ready row = do
    now ← utcnow
    if ltb now row.inline_deadline || not (is_deliverable row)
        then pure none
        else start_delivery row

  unfoldable pub claim_delivery_row : ClientRow P → Tx (ClientStore P) (Option (ClientRow P))
  claim_delivery_row row =
      if row.expired || not (is_ready row.delivery_state) then pure none else claim_ready row

  unfoldable pub claim_delivery :
      ℕ → Tape → ClientStore P → Result (Option (ClientRow P)) × ClientStore P
  claim_delivery o = transaction (do row ← read_row P o none; claim_delivery_row row)

  -- The receipt of a delivery whose outcome is unknown.
  unfoldable pub end_receipt : ℕ → DeliveryEnd → Tx (ClientStore P) (Unit {0})
  end_receipt o DeliveryEnd.queued = pure tt
  end_receipt o DeliveryEnd.unsupported = pure tt
  end_receipt o DeliveryEnd.delivery_outcome_unknown = do
    row ← read_row P o none
    s ← or_raise internal row.snapshot
    note_receipt P o s.result_id ReceiptStatus.delivery_outcome_unknown

  unfoldable pub finish_delivery :
      ℕ → DeliveryEnd → Option String → Tape → ClientStore P → Result (Unit {0}) × ClientStore P
  unfolding end_state
  finish_delivery o ending queue = transaction do
    modify (λ l. record l {
      operations =
          update (has_id o) (λ r. record r { delivery_state = end_state ending; queue_id = queue })
            l.operations;
    })
    end_receipt o ending

  -- The four statements of `__init__`: after a restart, an enqueueing that was under way has an
  -- unknown outcome, results are no longer awaited inline, and so for a cancellation.
  unfoldable pub unknown_deliveries : ClientStore P → ClientStore P
  unknown_deliveries l = record l {
    operations =
        update (λ row. is_enqueueing row.delivery_state)
          (λ row. record row { delivery_state = Delivery.delivery_outcome_unknown }) l.operations;
  }

  unfoldable pub ready_deliveries : ClientStore P → ClientStore P
  ready_deliveries l = record l {
    operations = update (λ row. is_inline row.delivery_state) ready_row l.operations;
  }

  unfoldable pub unknown_cancellations : ClientStore P → ClientStore P
  unknown_cancellations l = record l {
    operations =
        update (λ row. is_sending row.cancel_state)
          (λ row. record row { cancel_state = some CancelState.outcome_unknown }) l.operations;
  }

  unfoldable pub reopen : ClientStore P → ClientStore P
  unfolding unknown_deliveries ready_deliveries unknown_cancellations uncertain_receipts
  reopen l =
      let settled = unknown_cancellations (ready_deliveries (unknown_deliveries l)) in
      record settled { receipts = uncertain_receipts settled.operations settled.receipts }

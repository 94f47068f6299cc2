-- ===== src/Broker/Rows.antt =====
-- The WHERE and ORDER BY clauses of the ledger's statements (hermes_a2a_gateway/broker_store.py).
use codex_a2a_gateway.Base.{
  ℕ, String, Bool, true, false, not, ◌&&◌, ◌||◌, Option, none, some, same, ltb, leb, ◌==◌,
}
use codex_a2a_gateway.Broker.Model.{
  OutboxState, Device, Operation, Payload, OutboxEntry, Event, Artifact, Receipt, ReceiptStatus,
  is_active, is_pending,
}

-- WHERE device_id=%s.
unfoldable pub of_device : String → Device → Bool
of_device d row = same row.device_id d

-- NULLS FIRST, then by time.
abbrev pub polled_first : Option ℕ → Option ℕ → Bool
polled_first none none = false
polled_first none (some b) = true
polled_first (some a) none = false
polled_first (some a) (some b) = ltb a b

module _ {Token : Type 0} where
  -- WHERE device_id=%s AND operation_id=%s, of operations and of payloads.
  unfoldable pub of_operation : String → ℕ → Operation Token → Bool
  of_operation d o row = same row.device_id d && (row.operation_id == o)

  unfoldable pub of_payload : String → ℕ → Payload Token → Bool
  of_payload d o row = same row.device_id d && (row.operation_id == o)

  -- WHERE device_id=%s AND state IN ('accepted','running','outcome_unknown').
  unfoldable pub pending_of : String → Operation Token → Bool
  pending_of d row = same row.device_id d && is_pending row.state

  -- WHERE device_id=... AND flow_id=... AND state IN ('running','outcome_unknown').
  unfoldable pub active_in_flow : String → ℕ → Operation Token → Bool
  active_in_flow d flow row = (same row.device_id d && (row.flow_id == flow)) && is_active row.state

  -- ORDER BY created_at,operation_id.
  unfoldable pub created_before : Operation Token → Operation Token → Bool
  created_before a b =
      ltb a.created_at b.created_at
      || ((a.created_at == b.created_at) && ltb a.operation_id b.operation_id)

  -- ORDER BY updated_at.
  unfoldable pub updated_before : Operation Token → Operation Token → Bool
  updated_before a b = ltb a.updated_at b.updated_at

  -- ORDER BY polled_at NULLS FIRST,updated_at.
  unfoldable pub polled_before : Operation Token → Operation Token → Bool
  polled_before a b =
      polled_first a.polled_at b.polled_at
      || (not (polled_first b.polled_at a.polled_at) && updated_before a b)

  -- WHERE device_id=%s [AND expires_at<=%s].
  unfoldable pub event_of : String → Event Token → Bool
  event_of d row = same row.device_id d

  unfoldable pub expired_event_of : String → ℕ → Event Token → Bool
  expired_event_of d now row = same row.device_id d && leb row.expires_at now

  -- WHERE device_id=%s AND sequence<=%s, and AND sequence>%s.
  unfoldable pub event_up_to : String → ℕ → Event Token → Bool
  event_up_to d n row = same row.device_id d && leb row.sequence n

  unfoldable pub event_after : String → ℕ → Event Token → Bool
  event_after d n row = same row.device_id d && ltb n row.sequence

  -- WHERE device_id=%s, of artifacts.
  unfoldable pub artifact_of : String → Artifact Token → Bool
  artifact_of d row = same row.device_id d

  unfoldable pub expired_artifact_of : String → ℕ → Artifact Token → Bool
  expired_artifact_of d now row = same row.device_id d && leb row.expires_at now

  -- WHERE device_id=%s AND artifact_id=%s AND expires_at>%s.
  unfoldable pub live_artifact : String → ℕ → ℕ → Artifact Token → Bool
  live_artifact d a now row =
      (same row.device_id d && (row.artifact_id == a)) && ltb now row.expires_at

-- WHERE device_id=%s AND operation_id=%s, of the outbox; and with state='pending'.
unfoldable pub of_outbox : String → ℕ → OutboxEntry → Bool
of_outbox d o row = same row.device_id d && (row.operation_id == o)

unfoldable pub is_waiting : OutboxState → Bool
is_waiting OutboxState.pending = true
is_waiting _ = false

unfoldable pub waiting : String → ℕ → OutboxEntry → Bool
waiting d o row = (same row.device_id d && (row.operation_id == o)) && is_waiting row.state

unfoldable pub same_status : ReceiptStatus → ReceiptStatus → Bool
same_status ReceiptStatus.stored ReceiptStatus.stored = true
same_status ReceiptStatus.delivered ReceiptStatus.delivered = true
same_status ReceiptStatus.delivery_outcome_unknown ReceiptStatus.delivery_outcome_unknown = true
same_status _ _ = false

-- The primary key of the receipts.
unfoldable pub of_receipt : String → ℕ → ℕ → ReceiptStatus → Receipt → Bool
of_receipt d o result status row =
    (same row.device_id d && (row.operation_id == o))
    && ((row.result_id == result) && same_status row.status status)

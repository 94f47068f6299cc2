-- ===== src/Client/Model.antt =====
-- The data of the client's ledger (hermes_a2a_gateway/client_store.py): the rows of its tables, and
-- the snapshots that the broker sends. An identity that the client validated is its 128-bit number.
use codex_a2a_gateway.Base.{ℕ, String, Bool, false, ◌&&◌, ◌==◌, same, Option, none, some, List}
use codex_a2a_gateway.Broker.Model.{State, ReceiptStatus, is_final}
use codex_a2a_gateway.Broker.Rows.{same_status}

-- The `submission_state` column.
pub data Submission : Type 0 where
  pending accepted rejected outcome_unknown payload_key_unavailable : Submission

-- The `delivery_state` column.
pub data Delivery : Type 0 where
  inline_pending ready enqueueing queued unsupported : Delivery
  inline_returned delivery_outcome_unknown : Delivery

-- The `cancel_state` column.
pub data CancelState : Type 0 where
  sending outcome_unknown requested : CancelState

-- `NativeOrigin` of hermes_a2a_gateway/native_delivery.py.
pub record NativeOrigin : Type 0 where
  pub thread_id : String
  pub turn_id : String
  pub call_id : String

-- A value of a JSON object where the code asks for a text: a missing key reads as null.
pub data Field : Type 0 where
  null other : Field
  text : String → Field

-- The cursor argument of `accept_snapshot`: absent, a natural number, or anything else.
pub data Sequence : Type 0 where
  absent invalid : Sequence
  at : ℕ → Sequence

-- A snapshot as it came from the broker. `state` is `none` where it is not in STATES, and
-- `is_whole` says that the required keys are present.
pub record Incoming (Value : Type 0) : Type 0 where
  pub operation_id : Field
  pub flow_id : Field
  pub state : Option State
  pub is_whole : Bool
  pub result_id : Field
  pub result : Value
  pub error : Value
  pub remote_task_id : Option String
  pub created_at : Value
  pub updated_at : Value

-- The `snapshot` column.
pub record Reported (Value : Type 0) : Type 0 where
  pub operation_id : ℕ
  pub flow_id : ℕ
  pub state : State
  pub result_id : Option String
  pub result : Value
  pub error : Value
  pub remote_task_id : Option String
  pub created_at : Option Value
  pub updated_at : Option Value

-- What the client sends to submit an operation.
pub record Command : Type 0 where
  pub operation_id : ℕ
  pub flow_id : ℕ
  pub prompt : String
  pub artifact_ids : List String

-- client_flows.
pub record Flow : Type 0 where
  pub thread_id : String
  pub flow_id : ℕ

-- client_operations.
pub record ClientOperation (Token Value : Type 0) : Type 0 where
  pub operation_id : ℕ
  pub flow_id : ℕ
  pub thread_id : String
  pub turn_id : String
  pub call_id : String
  pub digest : ℕ
  pub payload : Option Token
  pub payload_expires : ℕ
  pub snapshot : Option (Reported Value)
  pub submission_state : Submission
  pub delivery_state : Delivery
  pub delivery_id : Option ℕ
  pub queue_id : Option String
  pub inline_deadline : ℕ
  pub cancel_state : Option CancelState
  pub conflict : Bool
  pub created : ℕ
  pub updated : ℕ
  pub expires : ℕ
  pub expired : Bool

-- client_receipts.
pub record ClientReceipt : Type 0 where
  pub operation_id : ℕ
  pub result_id : String
  pub status : ReceiptStatus
  pub sent : Bool

-- The tables, and the row of client_cursor.
pub record ClientLedger (Token Value : Type 0) : Type 0 where
  pub flows : List Flow
  pub operations : List (ClientOperation Token Value)
  pub receipts : List ClientReceipt
  pub cursor : ℕ

-- WHERE operation_id=?.
unfoldable pub has_id : {Token Value : Type 0} → ℕ → ClientOperation Token Value → Bool
has_id o row = row.operation_id == o

-- WHERE thread_id=? AND turn_id=? AND call_id=?.
unfoldable pub of_call : {Token Value : Type 0} → NativeOrigin → ClientOperation Token Value → Bool
of_call origin row =
    same row.thread_id origin.thread_id
    && (same row.turn_id origin.turn_id && same row.call_id origin.call_id)

-- WHERE operation_id=? AND result_id=? AND status=?.
unfoldable pub of_client_receipt : ℕ → String → ReceiptStatus → ClientReceipt → Bool
of_client_receipt o result status row =
    (row.operation_id == o) && (same row.result_id result && same_status row.status status)

-- The snapshot is of a final state.
unfoldable pub has_final : {Value : Type 0} → Option (Reported Value) → Bool
has_final none = false
has_final (some s) = is_final s.state

-- ===== src/Broker/Model.antt =====
-- The data of the ledger: lifecycle states, the rows of the tables of `SCHEMA`, and the values that
-- the broker seals (hermes_a2a_gateway/broker_store.py). A UUID is its 128-bit number, a timestamp
-- a number of seconds, a device identity a text. `Token` is the type of ciphertexts.
use codex_a2a_gateway.Base.{ℕ, String, Bool, true, false, Option, List}
use codex_a2a_gateway.Diagnostics.{ErrorDetails}
use codex_a2a_gateway.Tx.Errors.{Code}

-- The `state` column of an operation.
pub data State : Type 0 where
  accepted running completed failed canceled outcome_unknown : State

-- FINAL.
unfoldable pub is_final : State → Bool
is_final completed = true
is_final failed = true
is_final canceled = true
is_final _ = false

-- TERMINAL = FINAL | {"outcome_unknown"}.
unfoldable pub is_terminal : State → Bool
unfolding is_final
is_terminal outcome_unknown = true
is_terminal s = is_final s

-- state IN ('running','outcome_unknown').
unfoldable pub is_active : State → Bool
is_active running = true
is_active outcome_unknown = true
is_active _ = false

-- state IN ('accepted','running','outcome_unknown').
unfoldable pub is_pending : State → Bool
unfolding is_active
is_pending accepted = true
is_pending s = is_active s

-- The `state` column of the outbox.
pub data OutboxState : Type 0 where
  pending claimed done : OutboxState

-- The command that `OperationRequest.model_dump` hands to the store.
pub record Request : Type 0 where
  pub operation_id : ℕ
  pub flow_id : ℕ
  pub prompt : String
  pub artifact_ids : List ℕ

-- `_descriptor`.
pub record Descriptor : Type 0 where
  pub artifact_id : ℕ
  pub sha256 : ℕ
  pub size : ℕ
  pub content_type : String
  pub expires_at : ℕ

-- The `result` dictionaries that the dispatcher hands to `finish`.
pub data Outcome : Type 0 where
  reply : String → List Descriptor → Outcome
  gateway_error_details : ErrorDetails → Outcome

pub record ErrorInfo : Type 0 where
  pub code : Code
  pub message : Option String
  pub details : Option ErrorDetails

-- What `_snapshot` returns.
pub record Snapshot : Type 0 where
  pub operation_id : ℕ
  pub flow_id : ℕ
  pub state : State
  pub result_id : Option ℕ
  pub result : Option Outcome
  pub error : Option ErrorInfo
  pub remote_task_id : Option String
  pub created_at : ℕ
  pub updated_at : ℕ

-- The values that the store encrypts: JSON texts of requests, snapshots and results, and raw bytes.
pub data Plain : Type 0 where
  request : Request → Plain
  snapshot : Snapshot → Plain
  outcome : Outcome → Plain
  content : List ℕ → Plain

-- broker_v06_devices.
pub record Device : Type 0 where
  pub device_id : String
  pub sequence : ℕ
  pub floor : ℕ

-- broker_v06_operations.
pub record Operation (Token : Type 0) : Type 0 where
  pub device_id : String
  pub operation_id : ℕ
  pub flow_id : ℕ
  pub digest : ℕ
  pub state : State
  pub result_id : Option ℕ
  pub result_cipher : Option Token
  pub result_expires_at : Option ℕ
  pub error_code : Option Code
  pub error_message : Option String
  pub remote_task_id : Option String
  pub polled_at : Option ℕ
  pub created_at : ℕ
  pub updated_at : ℕ
  pub cancel_claimed : Bool
  pub cancel_requested : Bool

-- broker_v06_payloads.
pub record Payload (Token : Type 0) : Type 0 where
  pub device_id : String
  pub operation_id : ℕ
  pub cipher : Token
  pub expires_at : ℕ

-- broker_v06_outbox.
pub record OutboxEntry : Type 0 where
  pub device_id : String
  pub operation_id : ℕ
  pub state : OutboxState
  pub claimed_at : Option ℕ

-- broker_v06_events.
pub record Event (Token : Type 0) : Type 0 where
  pub device_id : String
  pub sequence : ℕ
  pub cipher : Token
  pub expires_at : ℕ

-- broker_v06_artifacts.
pub record Artifact (Token : Type 0) : Type 0 where
  pub device_id : String
  pub artifact_id : ℕ
  pub sha256 : ℕ
  pub size : ℕ
  pub content_type : String
  pub cipher : Token
  pub expires_at : ℕ

pub data ReceiptStatus : Type 0 where
  stored delivered delivery_outcome_unknown : ReceiptStatus

-- broker_v06_receipts.
pub record Receipt : Type 0 where
  pub device_id : String
  pub operation_id : ℕ
  pub result_id : ℕ
  pub status : ReceiptStatus
  pub created_at : ℕ

-- The tables, and the flag `_dispatcher` of the store object.
pub record Ledger (Token : Type 0) : Type 0 where
  pub devices : List Device
  pub operations : List (Operation Token)
  pub payloads : List (Payload Token)
  pub outbox : List OutboxEntry
  pub events : List (Event Token)
  pub artifacts : List (Artifact Token)
  pub receipts : List Receipt
  pub dispatcher : Bool

-- ===== src/Broker/Finish.antt =====
-- Ends of operations: `_finish`, `finish`, `save_handle` and `recover` of
-- hermes_a2a_gateway/broker_store.py.
use codex_a2a_gateway.Base.{
  ℕ, ◌+◌, String, Bool, true, false, not, ◌||◌, Option, none, some, List, [], ◌∷◌, ltb, same,
  if◌then◌else◌, select, update, delete,
}
use codex_a2a_gateway.Tx.Errors.{Code, Result, broker_error, value_error}
use codex_a2a_gateway.Tx.{
  Tape, Tx, pure, gets, modify, utcnow, draw, require, ◌>>=◌, ◌>>◌, transaction,
}
use codex_a2a_gateway.Broker.Model.{
  State, OutboxState, Outcome, Snapshot, Plain, Operation, Ledger, is_final, is_terminal,
}
use codex_a2a_gateway.Broker.Setup.{Setup}
use codex_a2a_gateway.Broker.Rows.{of_operation, of_payload, of_outbox}
use codex_a2a_gateway.Broker.Content.{is_handle}
use codex_a2a_gateway.Broker.Snapshots.{
  Store, lock_device, encrypt_value, get_row, snapshot_of, record_event,
}

-- COALESCE(result_id, fresh).
abbrev pub coalesce : Option ℕ → ℕ → Option ℕ
coalesce none fresh = some fresh
coalesce (some id) fresh = some id

-- What `finish` may be told of an operation.
pub record Ending : Type 0 where
  pub state : State
  pub result : Option Outcome
  pub code : Option Code
  pub message : Option String

-- The SET clause of `_finish`.
unfoldable pub finished_row :
    {Token : Type 0} → Ending → ℕ → Option Token → Option ℕ → ℕ → Operation Token → Operation Token
finished_row e fresh cipher expires now row = record row {
  state = e.state;
  result_id = coalesce row.result_id fresh;
  result_cipher = cipher;
  result_expires_at = expires;
  error_code = e.code;
  error_message = e.message;
  updated_at = now;
}

-- UPDATE broker_v06_outbox SET state='done'.
unfoldable pub close_outbox : {Token : Type 0} → String → ℕ → Ledger Token → Ledger Token
close_outbox d o l = record l {
  outbox = update (of_outbox d o) (λ row. record row { state = OutboxState.done }) l.outbox;
}

-- A handle that is unset or empty.
unfoldable pub has_handle : Option String → Bool
has_handle none = false
has_handle (some h) = not (same h "")

-- row["remote_task_id"] == handle.
unfoldable pub handle_is : Option String → String → Bool
handle_is none h = false
handle_is (some k) h = same k h

-- WHERE state='running'.
unfoldable pub is_running : {Token : Type 0} → Operation Token → Bool
is_running row = elim row.state [ State.running ↦ true | _ ↦ false ]

abbrev pub restart_unknown : Ending
restart_unknown = record {
  state = State.outcome_unknown;
  result = none;
  code = some Code.restart_unknown;
  message = some "dispatcher restarted after dispatch was claimed; no resend";
}

module _ (P : Setup) where
  unfoldable pub seal_result : Option Outcome → Tx (Store P) (Option P.Token × Option ℕ)
  seal_result none = pure (none, none)
  seal_result (some r) = do
    c ← encrypt_value P (Plain.outcome r)
    now ← utcnow
    pure (some c, some (now + P.result_ttl_seconds))

  -- The statements of `_finish` on a row that is not final.
  unfoldable pub write_end : String → ℕ → Ending → Tx (Store P) Snapshot
  write_end d o e = do
    (cipher, expires) ← seal_result e.result
    fresh ← draw
    now ← utcnow
    modify (λ l. record l {
      operations = update (of_operation d o) (finished_row e fresh cipher expires now) l.operations;
    })
    modify (close_outbox d o)
    modify (λ l. record l { payloads = delete (of_payload d o) l.payloads })
    record_event P d o

  -- `_finish`.
  unfoldable pub finish_row : String → ℕ → Ending → Tx (Store P) Snapshot
  finish_row d o e = do
    row ← get_row P d o
    if is_final row.state then snapshot_of P row else write_end d o e

  -- A result above the limit is replaced by a failure.
  unfoldable pub bounded_end : Ending → Ending
  bounded_end e = elim e.result [
    | none ↦ e
    | some r ↦
        if ltb P.max_result_bytes (P.outcome_size r)
        then record {
          state = State.failed;
          result = none;
          code = some Code.result_too_large;
          message = some "peer result exceeds configured limit";
        }
        else e
  ]

  unfoldable pub finish : String → ℕ → Ending → Tape → Store P → Result Snapshot × Store P
  finish d o e = transaction do
    require (is_terminal e.state) (value_error "invalid terminal state")
    lock_device P d
    finish_row d o (bounded_end e)

  -- The UPDATE of `save_handle`.
  unfoldable pub write_handle : String → ℕ → String → Tx (Store P) (Unit {0})
  write_handle d o handle = do
    now ← utcnow
    modify (λ l. record l {
      operations =
          update (of_operation d o)
            (λ row. record row { remote_task_id = some handle; updated_at = now }) l.operations;
    })
    record_event P d o
    pure tt

  unfoldable pub save_handle : String → ℕ → String → Tape → Store P → Result (Unit {0}) × Store P
  save_handle d o handle = transaction do
    require (is_handle handle)
        (broker_error Code.invalid_peer_handle "peer returned an invalid task handle" 502)
    lock_device P d
    row ← get_row P d o
    require (not (has_handle row.remote_task_id) || handle_is row.remote_task_id handle)
        (broker_error Code.peer_handle_conflict "peer changed task handle" 502)
    if handle_is row.remote_task_id handle || is_final row.state
        then pure tt
        else write_handle d o handle

  unfoldable pub recover_rows : List (Operation P.Token) → Tx (Store P) (Unit {0})
  recover_rows [] = pure tt
  recover_rows (row ∷ rows) = do
    lock_device P row.device_id
    finish_row row.device_id row.operation_id restart_unknown
    recover_rows rows

  unfoldable pub require_dispatcher : Tx (Store P) (Unit {0})
  require_dispatcher = do
    owned ← gets (λ l. l.dispatcher)
    require owned (broker_error Code.dispatcher_required "dispatcher lock is required" 503)

  unfoldable pub recover : Tape → Store P → Result (Unit {0}) × Store P
  recover =
      transaction
        do require_dispatcher; rows ← gets (λ l. select is_running l.operations); recover_rows rows

-- ===== src/Broker/Cancel.antt =====
-- Cancellation: `cancel_intent` and `claim_cancel` of hermes_a2a_gateway/broker_store.py.
use codex_a2a_gateway.Base.{
  ℕ, String, Bool, true, not, ◌&&◌, ◌||◌, Option, none, some, is_some, if◌then◌else◌, select,
  select_first, update,
}
use codex_a2a_gateway.Tx.Errors.{Code, Result, internal}
use codex_a2a_gateway.Tx.{Tape, Tx, pure, gets, or_raise, modify, utcnow, ◌>>=◌, ◌>>◌, transaction}
use codex_a2a_gateway.Broker.Model.{State, Snapshot, Operation, is_final, is_active}
use codex_a2a_gateway.Broker.Setup.{Setup}
use codex_a2a_gateway.Broker.Rows.{of_operation, updated_before}
use codex_a2a_gateway.Broker.Snapshots.{Store, lock_device, get_row, snapshot_of, record_event}
use codex_a2a_gateway.Broker.Finish.{Ending, finish_row, require_dispatcher}
use codex_a2a_gateway.Broker.Dispatch.{is_accepted}

abbrev pub canceled : Ending
canceled = record { state = State.canceled; result = none; code = none; message = none }

-- The SET clause of a cancellation that the peer has yet to hear of.
unfoldable pub requested_row : {Token : Type 0} → ℕ → Operation Token → Operation Token
requested_row now row = record row {
  cancel_requested = true;
  error_code = some Code.cancel_unconfirmed;
  error_message = some "cancellation is best effort; underlying execution may continue";
  updated_at = now;
}

-- WHERE cancel_requested AND NOT cancel_claimed AND remote_task_id IS NOT NULL AND state IN (...).
unfoldable pub is_cancelable : {Token : Type 0} → Operation Token → Bool
is_cancelable row =
    (row.cancel_requested && not row.cancel_claimed)
    && (is_some row.remote_task_id && is_active row.state)

module _ (P : Setup) where
  unfoldable pub request_cancel :
      Operation P.Token → String → ℕ → Tx (Store P) (Snapshot × Option String)
  request_cancel row d o = do
    now ← utcnow
    modify
        (λ l. record l { operations = update (of_operation d o) (requested_row now) l.operations })
    snapshot ← record_event P d o
    pure (snapshot, row.remote_task_id)

  unfoldable pub cancel_row :
      Operation P.Token → String → ℕ → Tx (Store P) (Snapshot × Option String)
  cancel_row row d o =
      if is_accepted row.state
      then (do snapshot ← finish_row P d o canceled; pure (snapshot, none))
      else if is_final row.state || row.cancel_requested
      then (do snapshot ← snapshot_of P row; pure (snapshot, none))
      else request_cancel row d o

  unfoldable pub cancel_intent :
      String → ℕ → Tape → Store P → Result (Snapshot × Option String) × Store P
  cancel_intent d o = transaction do lock_device P d; row ← get_row P d o; cancel_row row d o

  unfoldable pub claim_cancel_row : String → ℕ → Tx (Store P) (Option (String × ℕ × String))
  claim_cancel_row d o = do
    lock_device P d
    current ← get_row P d o
    if is_final current.state then pure none else do
      modify (λ l. record l {
        operations =
            update (of_operation d o) (λ row. record row { cancel_claimed = true }) l.operations;
      })
      handle ← or_raise internal current.remote_task_id
      pure (some (d, o, handle))

  unfoldable pub claim_cancel : Tape → Store P → Result (Option (String × ℕ × String)) × Store P
  claim_cancel = transaction do
    require_dispatcher P
    best ← gets (λ l. select_first updated_before (select is_cancelable l.operations))
    elim best [ none ↦ pure none | some row ↦ claim_cancel_row row.device_id row.operation_id ]

-- ===== src/Client/Snapshots.antt =====
-- `accept_snapshot`, `_receipt` and `view` of hermes_a2a_gateway/client_store.py.
use codex_a2a_gateway.Base.{
  ℕ, ◌+◌, String, Bool, true, false, not, ◌&&◌, ◌||◌, Option, none, some, List, ◌==◌, same, is_some,
  if◌then◌else◌, select_one, update, insert,
}
use codex_a2a_gateway.Tx.Errors.{Result, value_error, key_error}
use codex_a2a_gateway.Tx.{
  Tape, Tx, pure, gets, or_raise, modify, utcnow, require, ◌>>=◌, ◌>>◌, transaction,
}
use codex_a2a_gateway.Broker.Model.{State, ReceiptStatus, is_final, is_terminal}
use codex_a2a_gateway.Broker.Finish.{has_handle, handle_is}
use codex_a2a_gateway.Client.Texts.{read_uuid}
use codex_a2a_gateway.Client.Model.{
  Submission, Delivery, CancelState, NativeOrigin, Field, Sequence, Incoming, Reported,
  ClientReceipt, has_id, of_call, of_client_receipt,
}
use codex_a2a_gateway.Client.Setup.{ClientSetup, ClientStore, ClientRow}
use codex_a2a_gateway.Client.Commands.{read_row, read_sequence, raise_cursor}

-- native_uuid of a value.
unfoldable pub field_uuid : Field → Option ℕ
field_uuid (Field.text t) = read_uuid t
field_uuid _ = none

-- A result identity that is not null must be one.
unfoldable pub field_result : Field → Option (Option String)
field_result Field.null = some none
field_result (Field.text t) = if is_some (read_uuid t) then some (some t) else none
field_result Field.other = none

-- seq is None, or a natural number.
unfoldable pub read_optional : Sequence → Option (Option ℕ)
unfolding read_sequence
read_optional Sequence.absent = some none
read_optional seq = elim (read_sequence seq) [ none ↦ none | some n ↦ some (some n) ]

abbrev same_state : State → State → Bool
same_state State.accepted State.accepted = true
same_state State.running State.running = true
same_state State.completed State.completed = true
same_state State.failed State.failed = true
same_state State.canceled State.canceled = true
same_state State.outcome_unknown State.outcome_unknown = true
same_state _ _ = false

abbrev pub same_result : Option String → Option String → Bool
same_result none none = true
same_result (some a) (some b) = same a b
same_result _ _ = false

-- previous["remote_task_id"] == snapshot["remote_task_id"], where the former is a text that is not
-- empty.
unfoldable pub is_same_task : Option String → Option String → Bool
is_same_task none b = false
is_same_task (some a) b = has_handle (some a) && handle_is b a

abbrev is_unknown : State → Bool
is_unknown State.outcome_unknown = true
is_unknown _ = false

-- INSERT OR IGNORE INTO client_receipts.
unfoldable pub add_client_receipt :
    ℕ → String → ReceiptStatus → List ClientReceipt → List ClientReceipt
add_client_receipt o result status rows =
    if is_some (select_one (of_client_receipt o result status) rows)
    then rows
    else insert (record { operation_id = o; result_id = result; status = status; sent = false })
        rows

module _ (P : ClientSetup) where
  -- The snapshot that passed the tests before the transaction.
  unfoldable pub validated : Incoming P.Value → Tx (ClientStore P) (Reported P.Value)
  unfolding field_uuid field_result
  validated s = do
    operation ←
        or_raise (value_error "invalid operation_id in native MCP metadata")
          (field_uuid s.operation_id)
    flow ← or_raise (value_error "invalid flow_id in native MCP metadata") (field_uuid s.flow_id)
    state ← or_raise (value_error "invalid broker operation state") s.state
    require s.is_whole (value_error "incomplete broker snapshot")
    result_id ←
        or_raise (value_error "invalid result_id in native MCP metadata") (field_result s.result_id)
    require (not (is_terminal state) || is_some result_id)
        (value_error "terminal broker snapshot requires stable result_id")
    pure (record {
      operation_id = operation;
      flow_id = flow;
      state = state;
      result_id = result_id;
      result = s.result;
      error = s.error;
      remote_task_id = s.remote_task_id;
      created_at = some s.created_at;
      updated_at = some s.updated_at;
    })

  -- stale: there is a terminal snapshot already.
  unfoldable pub is_stale : Option (Reported P.Value) → Bool
  is_stale none = false
  is_stale (some previous) = is_terminal previous.state

  -- An unknown outcome that is resolved for the same task and the same result.
  unfoldable pub is_resolution : Option (Reported P.Value) → Reported P.Value → Bool
  unfolding is_same_task
  is_resolution none s = false
  is_resolution (some previous) s =
      (is_unknown previous.state && is_final s.state)
      && (is_same_task previous.remote_task_id s.remote_task_id
          && same_result previous.result_id s.result_id)

  -- Any of the state, the result identity, the result and the error differs.
  unfoldable pub disagrees : Option (Reported P.Value) → Reported P.Value → Bool
  disagrees none s = false
  disagrees (some previous) s =
      not (same_state previous.state s.state && same_result previous.result_id s.result_id)
      || not (P.same_value previous.result s.result && P.same_value previous.error s.error)

  -- The SET clause of `accept_snapshot`.
  unfoldable pub accepted_client_row : Reported P.Value → ℕ → ℕ → ClientRow P → ClientRow P
  accepted_client_row s now expires row = record row {
    snapshot = some s;
    submission_state = Submission.accepted;
    payload = none;
    updated = now;
    expires = expires;
  }

  -- `_receipt`.
  unfoldable pub note_receipt : ℕ → Option String → ReceiptStatus → Tx (ClientStore P) (Unit {0})
  unfolding add_client_receipt
  note_receipt o none status = pure tt
  note_receipt o (some result) status =
      modify (λ l. record l { receipts = add_client_receipt o result status l.receipts })

  unfoldable pub write_snapshot : Reported P.Value → Tx (ClientStore P) (Unit {0})
  write_snapshot s = do
    now ← utcnow
    later ← utcnow
    modify (λ l. record l {
      operations =
          update (has_id s.operation_id) (accepted_client_row s now (later + P.retention_seconds))
            l.operations;
    })
    note_receipt s.operation_id s.result_id ReceiptStatus.stored

  unfoldable pub mark_conflict : ℕ → Tx (ClientStore P) (Unit {0})
  mark_conflict o = modify (λ l. record l {
    operations = update (has_id o) (λ row. record row { conflict = true }) l.operations;
  })

  -- A snapshot of a known operation that has not expired.
  unfoldable pub merge_snapshot : ClientRow P → Reported P.Value → Tx (ClientStore P) (Unit {0})
  unfolding is_stale is_resolution disagrees
  merge_snapshot row s = do
    require (s.flow_id == row.flow_id) (value_error "broker flow identity disagrees")
    if (is_stale row.snapshot && not (is_resolution row.snapshot s))
          && (is_terminal s.state && disagrees row.snapshot s)
        then mark_conflict s.operation_id
        else if not (is_stale row.snapshot) || is_resolution row.snapshot s
        then write_snapshot s
        else pure tt

  unfoldable pub merge_known :
      Option (ClientRow P) → Reported P.Value → Tx (ClientStore P) (Unit {0})
  merge_known none s = pure tt
  merge_known (some row) s = if row.expired then pure tt else merge_snapshot row s

  -- if seq is not None: UPDATE client_cursor.
  unfoldable pub move_cursor : Option ℕ → Tx (ClientStore P) (Unit {0})
  move_cursor none = pure tt
  move_cursor (some n) = modify (raise_cursor n)

  unfoldable pub accept_snapshot_body : Incoming P.Value → Sequence → Tx (ClientStore P) (Unit {0})
  unfolding read_optional
  accept_snapshot_body incoming seq = do
    s ← validated incoming
    cursor ← or_raise (value_error "invalid event cursor") (read_optional seq)
    rows ← gets (λ l. l.operations)
    merge_known (select_one (has_id s.operation_id) rows) s
    move_cursor cursor

  unfoldable pub accept_snapshot :
      Incoming P.Value → Sequence → Tape → ClientStore P → Result (Unit {0}) × ClientStore P
  accept_snapshot incoming seq = transaction (accept_snapshot_body incoming seq)

-- What `view` returns, besides its fixed note.
pub record View (Value : Type 0) : Type 0 where
  pub snapshot : Reported Value
  pub submission_state : Submission
  pub delivery_state : Delivery
  pub queue_submission_id : Option String
  pub snapshot_conflict : Bool
  pub result_expired : Bool
  pub cancel_state : Option CancelState

-- delivery_state in {"inline_pending", "ready", "unsupported"}.
unfoldable pub is_takeable : Delivery → Bool
is_takeable Delivery.inline_pending = true
is_takeable Delivery.ready = true
is_takeable Delivery.unsupported = true
is_takeable _ = false

module _ (P : ClientSetup) where
  -- The snapshot of a row, or the one that stands for none.
  unfoldable pub shown_snapshot : ClientRow P → Reported P.Value
  shown_snapshot row = elim row.snapshot [
    | some s ↦ s
    | none ↦ record {
      operation_id = row.operation_id;
      flow_id = row.flow_id;
      state = State.outcome_unknown;
      result_id = none;
      result = P.null;
      error = P.null;
      remote_task_id = none;
      created_at = none;
      updated_at = none;
    }
  ]

  unfoldable pub view_of : ClientRow P → View P.Value
  unfolding shown_snapshot
  view_of row = record {
    snapshot = shown_snapshot row;
    submission_state = row.submission_state;
    delivery_state = row.delivery_state;
    queue_submission_id = row.queue_id;
    snapshot_conflict = row.conflict;
    result_expired = row.expired;
    cancel_state = row.cancel_state;
  }

  -- The statement that hands the result to the caller of a tool.
  unfoldable pub mark_taken : ClientRow P → Tx (ClientStore P) (ClientRow P)
  mark_taken row = do
    modify (λ l. record l {
      operations =
          update (has_id row.operation_id)
            (λ r. record r { delivery_state = Delivery.inline_returned }) l.operations;
    })
    pure (record row { delivery_state = Delivery.inline_returned })

  unfoldable pub take_inline : ClientRow P → Tx (ClientStore P) (ClientRow P)
  take_inline row = if is_takeable row.delivery_state then mark_taken row else pure row

  -- consume and snapshot.get("result_id") and a final state and not row["expired"].
  unfoldable pub is_consumable : Bool → ClientRow P → Bool
  unfolding shown_snapshot
  is_consumable consume row =
      (consume && is_some (shown_snapshot row).result_id)
      && (is_final (shown_snapshot row).state && not row.expired)

  unfoldable pub consume_row : ClientRow P → Tx (ClientStore P) (View P.Value)
  consume_row row = do
    taken ← take_inline row
    note_receipt P row.operation_id (shown_snapshot row).result_id ReceiptStatus.delivered
    pure (view_of taken)

  unfoldable pub view_body : ℕ → NativeOrigin → Bool → Tx (ClientStore P) (View P.Value)
  view_body o origin consume = do
    row ← read_row P o (some origin)
    if is_consumable consume row then consume_row row else pure (view_of row)

  unfoldable pub view :
      ℕ → NativeOrigin → Bool → Tape → ClientStore P → Result (View P.Value) × ClientStore P
  view o origin consume = transaction (view_body o origin consume)

  unfoldable pub resolve_call :
      NativeOrigin → Tape → ClientStore P → Result (View P.Value) × ClientStore P
  resolve_call origin = transaction do
    rows ← gets (λ l. l.operations)
    row ←
        or_raise (key_error "no durable operation for this exact native tool call")
          (select_one (of_call origin) rows)
    view_body row.operation_id origin false

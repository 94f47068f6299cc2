-- ===== src/Client/Commands.antt =====
-- Commands of the host: `row`, `create`, `payload`, `ids`, `advance`, `mark_submission`,
-- `cancel_state`, `receipts`, `receipt_sent` and `prune` of
-- hermes_a2a_gateway/client_store.py.
use codex_a2a_gateway.Base.{
  ℕ, ◌+◌, ◌*◌, String, Bool, true, false, not, ◌&&◌, ◌||◌, Option, none, some, List, [], ◌∷◌, map,
  length, ltb, leb, max, ◌==◌, same, is_some, if◌then◌else◌, select_one, select, select_count,
  update, insert,
}
use codex_a2a_gateway.Tx.Errors.{Result, value_error, key_error, internal}
use codex_a2a_gateway.Tx.{
  Tape, Tx, pure, gets, or_raise, modify, utcnow, draw, require, ◌>>=◌, ◌>>◌, transaction,
}
use codex_a2a_gateway.Broker.Content.{utf8_size}
use codex_a2a_gateway.Client.Texts.{read_uuid, is_blank}
use codex_a2a_gateway.Client.Model.{
  Submission, Delivery, CancelState, NativeOrigin, Sequence, Reported, Command, Flow,
  ClientOperation, ClientReceipt, ClientLedger, has_id, of_call, of_client_receipt, has_final,
}
use codex_a2a_gateway.Client.Setup.{ClientSetup, ClientStore, ClientRow}

-- WHERE thread_id=?, of the flows.
unfoldable pub of_thread : String → Flow → Bool
of_thread thread row = same row.thread_id thread

unfoldable pub is_awaited : Submission → Bool
is_awaited Submission.pending = true
is_awaited Submission.accepted = true
is_awaited _ = false

unfoldable pub is_unsent : Submission → Bool
is_unsent Submission.pending = true
is_unsent _ = false

-- WHERE submission_state IN ('pending','accepted') AND expired=0 AND (snapshot IS NULL OR its state
-- is not final).
unfoldable pub is_outstanding : {Token Value : Type 0} → ClientOperation Token Value → Bool
is_outstanding row =
    (is_awaited row.submission_state && not row.expired) && not (has_final row.snapshot)

unfoldable pub are_uuids : List String → Bool
are_uuids [] = true
are_uuids (a ∷ ids) = is_some (read_uuid a) && are_uuids ids

-- origin is not None and row["thread_id"] != origin.thread_id, negated.
unfoldable pub is_bound : String → Option NativeOrigin → Bool
is_bound thread none = true
is_bound thread (some origin) = same thread origin.thread_id

-- type(seq) is not int or seq < 0.
unfoldable pub read_sequence : Sequence → Option ℕ
read_sequence (Sequence.at n) = some n
read_sequence _ = none

-- `max(seq,?)`.
unfoldable pub raise_cursor :
    {Token Value : Type 0} → ℕ → ClientLedger Token Value → ClientLedger Token Value
raise_cursor n l = record l { cursor = max l.cursor n }

module _ (P : ClientSetup) where
  -- `row`.
  unfoldable pub read_row : ℕ → Option NativeOrigin → Tx (ClientStore P) (ClientRow P)
  unfolding is_bound
  read_row o origin = do
    rows ← gets (λ l. l.operations)
    row ←
        or_raise (key_error "operation is not bound to this native thread")
          (select_one (has_id o) rows)
    require (is_bound row.thread_id origin)
        (key_error "operation is not bound to this native thread")
    pure row

  -- INSERT OR IGNORE INTO client_flows.
  unfoldable pub add_flow : String → ℕ → ClientStore P → ClientStore P
  unfolding of_thread
  add_flow thread fresh l =
      if is_some (select_one (of_thread thread) l.flows)
      then l
      else record l { flows = insert (record { thread_id = thread; flow_id = fresh }) l.flows }

  -- The row that `create` inserts; the columns that its INSERT does not name have their defaults.
  unfoldable pub created_row : NativeOrigin → ℕ → ℕ → ℕ → P.Token → ℕ → ℕ → ClientRow P
  created_row origin operation flow digest payload now wait = record {
    operation_id = operation;
    flow_id = flow;
    thread_id = origin.thread_id;
    turn_id = origin.turn_id;
    call_id = origin.call_id;
    digest = digest;
    payload = some payload;
    payload_expires = now + P.payload_ttl_seconds;
    snapshot = none;
    submission_state = Submission.pending;
    delivery_state = Delivery.inline_pending;
    delivery_id = none;
    queue_id = none;
    inline_deadline = now + wait;
    cancel_state = none;
    conflict = false;
    created = now;
    updated = now;
    expires = now + P.retention_seconds;
    expired = false;
  }

  -- The statements of `create` for a new call.
  unfoldable pub insert_command : NativeOrigin → String → List String → ℕ → ℕ → Tx (ClientStore P) ℕ
  unfolding add_flow
  insert_command origin prompt artifact_ids wait digest = do
    now ← utcnow
    operation ← draw
    fresh ← draw
    modify (add_flow origin.thread_id fresh)
    flows ← gets (λ l. l.flows)
    flow ← or_raise internal (select_one (of_thread origin.thread_id) flows)
    iv ← draw
    let payload = P.encrypt iv (record {
      operation_id = operation;
      flow_id = flow.flow_id;
      prompt = prompt;
      artifact_ids = artifact_ids;
    })
    modify (λ l. record l {
      operations =
          insert (created_row origin operation flow.flow_id digest payload now wait) l.operations;
    })
    pure operation

  -- A call that is known already answers with its operation.
  unfoldable pub repeat_command : ClientRow P → ℕ → Tx (ClientStore P) ℕ
  repeat_command existing digest = do
    require (existing.digest == digest)
        (value_error "native tool call identity was reused with a different command")
    pure existing.operation_id

  unfoldable pub new_command : NativeOrigin → String → List String → ℕ → ℕ → Tx (ClientStore P) ℕ
  new_command origin prompt artifact_ids wait digest = do
    rows ← gets (λ l. l.operations)
    require (ltb (select_count is_outstanding rows) P.max_pending)
        (value_error "client pending operation limit reached")
    insert_command origin prompt artifact_ids wait digest

  unfoldable pub create_body : NativeOrigin → String → List String → ℕ → Tx (ClientStore P) ℕ
  unfolding are_uuids
  create_body origin prompt artifact_ids wait = do
    require (not (is_blank prompt) && leb (utf8_size prompt) (256 * 1024))
        (value_error "prompt must contain 1..262144 UTF-8 bytes")
    require (leb (length artifact_ids) 32) (value_error "at most 32 artifacts are permitted")
    require (are_uuids artifact_ids) (value_error "invalid artifact_id in native MCP metadata")
    rows ← gets (λ l. l.operations)
    elim (select_one (of_call origin) rows) [
      | some existing ↦ repeat_command existing (P.digest prompt artifact_ids)
      | none ↦ new_command origin prompt artifact_ids wait (P.digest prompt artifact_ids)
    ]

  unfoldable pub create :
      NativeOrigin → String → List String → ℕ → Tape → ClientStore P → Result ℕ × ClientStore P
  create origin prompt artifact_ids wait = transaction (create_body origin prompt artifact_ids wait)

  -- The command of an unexpired payload; a ciphertext of another key raises `InvalidToken`.
  unfoldable pub open_payload : Option P.Token → ℕ → Tx (ClientStore P) (Option Command)
  open_payload none expires = pure none
  open_payload (some c) expires = do
    now ← utcnow
    if leb expires now
        then pure none
        else (do command ← or_raise internal (P.decrypt c); pure (some command))

  unfoldable pub payload : ℕ → Tape → ClientStore P → Result (Option Command) × ClientStore P
  payload o = transaction do row ← read_row o none; open_payload row.payload row.payload_expires

  -- `ids`, with the argument `pending`.
  unfoldable pub ids : Bool → ClientStore P → List ℕ
  ids pending l =
      map (λ row. row.operation_id)
        (select (λ row. not row.expired && (not pending || is_unsent row.submission_state))
          l.operations)

  unfoldable pub advance : Sequence → Tape → ClientStore P → Result (Unit {0}) × ClientStore P
  unfolding read_sequence
  advance seq = transaction do
    n ← or_raise (value_error "invalid event cursor") (read_sequence seq)
    modify (raise_cursor n)

  unfoldable pub mark_submission : ℕ → Submission → ClientStore P → ClientStore P
  mark_submission o s l = record l {
    operations = update (has_id o) (λ row. record row { submission_state = s }) l.operations;
  }

  unfoldable pub cancel_state : ℕ → CancelState → ClientStore P → ClientStore P
  cancel_state o s l = record l {
    operations = update (has_id o) (λ row. record row { cancel_state = some s }) l.operations;
  }

  -- `receipts`: WHERE sent=0.
  unfoldable pub unsent_receipts : ClientStore P → List ClientReceipt
  unsent_receipts l = select (λ row. not row.sent) l.receipts

  unfoldable pub receipt_sent : ClientReceipt → ClientStore P → ClientStore P
  receipt_sent sent_row l = record l {
    receipts =
        update (of_client_receipt sent_row.operation_id sent_row.result_id sent_row.status)
          (λ row. record row { sent = true }) l.receipts;
  }

  -- WHERE payload_expires<=?.
  unfoldable pub drop_payload : ℕ → ClientStore P → ClientStore P
  drop_payload now l = record l {
    operations =
        update (λ row. leb row.payload_expires now) (λ row. record row { payload = none })
          l.operations;
  }

  -- WHERE expires<=? AND expired=0, and a final snapshot.
  unfoldable pub is_prunable : ℕ → ClientRow P → Bool
  is_prunable now row = (leb row.expires now && not row.expired) && has_final row.snapshot

  abbrev pub without_result : Option (Reported P.Value) → Option (Reported P.Value)
  without_result none = none
  without_result (some s) = some (record s { result = P.null; error = P.null })

  unfoldable pub prune : Tape → ClientStore P → Result (Unit {0}) × ClientStore P
  unfolding drop_payload is_prunable
  prune = transaction do
    now ← utcnow
    modify (drop_payload now)
    modify (λ l. record l {
      operations =
          update (is_prunable now)
            (λ row. record row {
              snapshot = without_result row.snapshot;
              expired = true;
              payload = none;
            })
            l.operations;
    })

-- ===== src/Broker/Accept.antt =====
-- `accept` and `get` of hermes_a2a_gateway/broker_store.py: an operation is admitted once for each
-- operation ID, and a repeated request answers with the stored operation.
use codex_a2a_gateway.Base.{
  ℕ, ◌+◌, String, Bool, true, false, none, some, List, [], ◌∷◌, length, ltb, leb, ◌==◌, select_one,
  select_count, insert,
}
use codex_a2a_gateway.Tx.Errors.{Code, Result, broker_error}
use codex_a2a_gateway.Tx.{Tape, Tx, pure, gets, modify, utcnow, require, ◌>>=◌, ◌>>◌, transaction}
use codex_a2a_gateway.Broker.Model.{State, OutboxState, Request, Snapshot, Plain, Operation}
use codex_a2a_gateway.Broker.Setup.{Setup}
use codex_a2a_gateway.Broker.Rows.{of_operation, pending_of}
use codex_a2a_gateway.Broker.Content.{is_text_plain, is_utf8, are_distinct, utf8_size}
use codex_a2a_gateway.Broker.Snapshots.{
  Store, lock_device, encrypt_value, get_row, snapshot_of, record_event,
}
use codex_a2a_gateway.Broker.Artifacts.{read_artifact}

-- The row that `accept` inserts; the columns that its INSERT does not name have their defaults.
unfoldable pub accepted_row : {Token : Type 0} → String → Request → ℕ → ℕ → Operation Token
accepted_row d req digest now = record {
  device_id = d;
  operation_id = req.operation_id;
  flow_id = req.flow_id;
  digest = digest;
  state = State.accepted;
  result_id = none;
  result_cipher = none;
  result_expires_at = none;
  error_code = none;
  error_message = none;
  remote_task_id = none;
  polled_at = none;
  created_at = now;
  updated_at = now;
  cancel_claimed = false;
  cancel_requested = false;
}

module _ (P : Setup) where
  -- The bytes of the prompt and the input artifacts, each of which must be UTF-8 text.
  unfoldable pub input_bytes : String → ℕ → List ℕ → Tx (Store P) ℕ
  input_bytes d n [] = pure n
  input_bytes d n (a ∷ ids) = do
    (descriptor, bytes) ← read_artifact P d a
    require (is_text_plain descriptor.content_type) (
        broker_error Code.unsupported_artifact
          "Hermes operation inputs support UTF-8 text/plain only" 422)
    require (is_utf8 bytes)
        (broker_error Code.unsupported_artifact "input text artifact must contain valid UTF-8" 422)
    input_bytes d (n + length bytes) ids

  -- The three INSERT statements and the event.
  unfoldable pub insert_operation : String → Request → ℕ → Tx (Store P) Snapshot
  insert_operation d req digest = do
    now ← utcnow
    modify (λ l. record l { operations = insert (accepted_row d req digest now) l.operations })
    c ← encrypt_value P (Plain.request req)
    modify (λ l. record l {
      payloads =
          insert
            (record {
              device_id = d;
              operation_id = req.operation_id;
              cipher = c;
              expires_at = now + P.payload_ttl_seconds;
            })
            l.payloads;
    })
    modify (λ l. record l {
      outbox =
          insert
            (record {
              device_id = d;
              operation_id = req.operation_id;
              state = OutboxState.pending;
              claimed_at = none;
            })
            l.outbox;
    })
    record_event P d req.operation_id

  -- A request under a new operation ID.
  unfoldable pub admit : String → Request → ℕ → Tx (Store P) (Snapshot × Bool)
  admit d req digest = do
    rows ← gets (λ l. l.operations)
    require (ltb (select_count (pending_of d) rows) P.max_pending_per_device)
        (broker_error Code.admission_full "device pending operation limit reached" 429)
    require (are_distinct req.artifact_ids)
        (broker_error Code.invalid_artifacts "duplicate input artifact IDs are not allowed" 400)
    total ← input_bytes d (utf8_size req.prompt) req.artifact_ids
    require (leb total P.max_artifact_bytes) (
        broker_error Code.artifacts_too_large
          "combined prompt and input artifacts exceed configured size limit" 413)
    snapshot ← insert_operation d req digest
    pure (snapshot, true)

  -- A request whose operation ID is taken by `previous`.
  unfoldable pub replay : Operation P.Token → ℕ → Tx (Store P) (Snapshot × Bool)
  replay previous digest = do
    require (previous.digest == digest)
        (broker_error Code.id_conflict "operation ID already has a different request" 409)
    snapshot ← snapshot_of P previous
    pure (snapshot, false)

  unfoldable pub accept_body : String → Request → Tx (Store P) (Snapshot × Bool)
  accept_body d req = do
    lock_device P d
    rows ← gets (λ l. l.operations)
    elim (select_one (of_operation d req.operation_id) rows) [
      | some previous ↦ replay previous (P.request_digest req)
      | none ↦ admit d req (P.request_digest req)
    ]

  unfoldable pub accept : String → Request → Tape → Store P → Result (Snapshot × Bool) × Store P
  accept d req = transaction (accept_body d req)

  unfoldable pub get : String → ℕ → Tape → Store P → Result Snapshot × Store P
  get d o = transaction do row ← get_row P d o; snapshot_of P row

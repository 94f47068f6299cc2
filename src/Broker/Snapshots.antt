-- ===== src/Broker/Snapshots.antt =====
-- The private steps that the transactions share (hermes_a2a_gateway/broker_store.py): `_device`,
-- `_encrypt`, `_decrypt`, `_row`, `_snapshot` and `_event`.
use codex_a2a_gateway.Base.{
  ℕ, suc, ◌+◌, String, Bool, false, Option, none, some, min, ltb, leb, is_some, if◌then◌else◌,
  select_one, update, insert,
}
use codex_a2a_gateway.Tx.Errors.{Code, broker_error, internal, encryption_error, not_found}
use codex_a2a_gateway.Tx.{Tx, pure, raise, gets, or_raise, modify, utcnow, draw, ◌>>=◌, ◌>>◌}
use codex_a2a_gateway.Broker.Model.{Outcome, ErrorInfo, Snapshot, Plain, Operation, Ledger}
use codex_a2a_gateway.Broker.Setup.{Setup}
use codex_a2a_gateway.Broker.Rows.{of_device, of_operation}

-- INSERT ... ON CONFLICT DO NOTHING; the row lock that follows reads nothing.
unfoldable pub add_device : {Token : Type 0} → String → Ledger Token → Ledger Token
add_device d l =
    if is_some (select_one (of_device d) l.devices)
    then l
    else record l { devices = insert (record { device_id = d; sequence = 0; floor = 0 }) l.devices }

-- UPDATE ... SET sequence=sequence+1 and the INSERT of the event under that number.
unfoldable pub append_event :
    {Token : Type 0} → String → ℕ → Token → ℕ → Ledger Token → Ledger Token
append_event d n c expires l = record l {
  devices = update (of_device d) (λ row. record row { sequence = suc row.sequence }) l.devices;
  events =
      insert (record { device_id = d; sequence = n; cipher = c; expires_at = expires }) l.events;
}

unfoldable pub stored_error : {Token : Type 0} → Operation Token → Option ErrorInfo
stored_error row = elim row.error_code [
  | none ↦ none
  | some c ↦ some (record { code = c; message = row.error_message; details = none })
]

abbrev expired_error : ErrorInfo
expired_error = record {
  code = Code.result_expired;
  message = some "result retention period has expired";
  details = none;
}

module _ (P : Setup) where
  abbrev pub Store : Type 0
  Store = Ledger P.Token

  unfoldable pub lock_device : String → Tx Store (Unit {0})
  unfolding add_device
  lock_device d = modify (add_device d)

  unfoldable pub encrypt_value : Plain → Tx Store P.Token
  encrypt_value v = do iv ← draw; pure (P.encrypt iv v)

  unfoldable pub decrypt_value : P.Token → Tx Store Plain
  decrypt_value c =
      or_raise (broker_error encryption_error "stored content cannot be decrypted" 503)
        (P.decrypt c)

  unfoldable pub get_row : String → ℕ → Tx Store (Operation P.Token)
  get_row d o = do
    rows ← gets (λ l. l.operations)
    or_raise (broker_error not_found "operation not found" 404) (select_one (of_operation d o) rows)

  -- row["result_cipher"] is not None and row["result_expires_at"] > utcnow().
  unfoldable pub live_cipher : Option P.Token → Option ℕ → Tx Store (Option P.Token)
  live_cipher none expires = pure none
  live_cipher (some c) none = raise internal
  live_cipher (some c) (some e) = do now ← utcnow; pure (if ltb now e then some c else none)

  -- row["result_expires_at"] is not None and row["result_expires_at"] <= utcnow().
  unfoldable pub has_expired : Option ℕ → Tx Store Bool
  has_expired none = pure false
  has_expired (some e) = do now ← utcnow; pure (leb e now)

  -- The result and the error of a row, where `live` is its unexpired ciphertext.
  unfoldable pub open_result :
      Option ErrorInfo → Plain → Tx Store (Option Outcome × Option ErrorInfo)
  open_result (some e) (Plain.outcome (Outcome.gateway_error_details d)) =
      pure (none, some (record e { details = some d }))
  open_result error (Plain.outcome o) = pure (some o, error)
  open_result error _ = raise internal

  unfoldable pub read_result :
      Operation P.Token → Option P.Token → Tx Store (Option Outcome × Option ErrorInfo)
  read_result row (some c) = do v ← decrypt_value c; open_result (stored_error row) v
  read_result row none = do
    gone ← has_expired row.result_expires_at
    pure (none, if gone then some expired_error else stored_error row)

  unfoldable pub snapshot_of : Operation P.Token → Tx Store Snapshot
  snapshot_of row = do
    live ← live_cipher row.result_cipher row.result_expires_at
    (result, error) ← read_result row live
    pure (record {
      operation_id = row.operation_id;
      flow_id = row.flow_id;
      state = row.state;
      result_id = row.result_id;
      result = result;
      error = error;
      remote_task_id = row.remote_task_id;
      created_at = row.created_at;
      updated_at = row.updated_at;
    })

  unfoldable pub record_event : String → ℕ → Tx Store Snapshot
  record_event d o = do
    row ← get_row d o
    snapshot ← snapshot_of row
    devices ← gets (λ l. l.devices)
    device ← or_raise internal (select_one (of_device d) devices)
    c ← encrypt_value (Plain.snapshot snapshot)
    now ← utcnow
    modify (
        append_event d (suc device.sequence) c (now + min P.event_ttl_seconds P.result_ttl_seconds))
    pure snapshot

-- ===== src/Broker/Events.antt =====
-- The event log, receipts and retention: `events`, `_purge_events`, `receipt` and `purge` of
-- hermes_a2a_gateway/broker_store.py.
use codex_a2a_gateway.Base.{
  ℕ, String, Bool, false, Option, none, some, List, [], ◌∷◌, max, ltb, leb, ◌==◌, take, is_some,
  same, if◌then◌else◌, select_one, select, update, delete, insert,
}
use codex_a2a_gateway.Tx.Errors.{Code, Result, Error, broker, broker_error, internal}
use codex_a2a_gateway.Tx.{
  Tape, Tx, pure, gets, or_raise, modify, utcnow, require, ◌>>=◌, ◌>>◌, transaction,
}
use codex_a2a_gateway.Broker.Model.{
  Snapshot, Plain, Device, Operation, Event, ReceiptStatus, Ledger,
}
use codex_a2a_gateway.Broker.Setup.{Setup}
use codex_a2a_gateway.Broker.Rows.{
  of_device, expired_event_of, event_up_to, event_after, of_receipt,
}
use codex_a2a_gateway.Broker.Snapshots.{Store, lock_device, decrypt_value, get_row}

-- SELECT max(sequence); `none` is NULL.
unfoldable pub max_sequence : {Token : Type 0} → List (Event Token) → Option ℕ
max_sequence [] = none
max_sequence (e ∷ events) = elim (max_sequence events) [
  | none ↦ some e.sequence
  | some n ↦ some (max e.sequence n)
]

-- DELETE of the events up to `n`, and UPDATE ... SET floor=GREATEST(floor,n).
unfoldable pub drop_events : {Token : Type 0} → String → ℕ → Ledger Token → Ledger Token
drop_events d n l = record l {
  events = delete (event_up_to d n) l.events;
  devices = update (of_device d) (λ row. record row { floor = max row.floor n }) l.devices;
}

-- The prefix of the log that has expired at `now`.
unfoldable pub drop_expired : {Token : Type 0} → String → ℕ → Ledger Token → Ledger Token
unfolding drop_events
drop_expired d now l = elim (max_sequence (select (expired_event_of d now) l.events)) [
  | none ↦ l
  | some n ↦ drop_events d n l
]

-- The rows come by their primary key, in the order of their numbers.
unfoldable pub insert_event :
    {Token : Type 0} → Event Token → List (Event Token) → List (Event Token)
insert_event e [] = e ∷ []
insert_event e (x ∷ events) =
    let rest = insert_event e events in
    if ltb x.sequence e.sequence then x ∷ rest else e ∷ x ∷ events

-- ORDER BY sequence.
unfoldable pub sort_events : {Token : Type 0} → List (Event Token) → List (Event Token)
unfolding insert_event
sort_events [] = []
sort_events (e ∷ events) = insert_event e (sort_events events)

unfoldable pub as_snapshot : Plain → Option Snapshot
as_snapshot (Plain.snapshot s) = some s
as_snapshot _ = none

-- status in {"stored", "delivered", "delivery_outcome_unknown"}.
unfoldable pub read_status : String → Option ReceiptStatus
read_status s =
    if same s "stored"
    then some ReceiptStatus.stored
    else if same s "delivered"
    then some ReceiptStatus.delivered
    else if same s "delivery_outcome_unknown"
    then some ReceiptStatus.delivery_outcome_unknown
    else none

-- WHERE expires_at<=%s, and the loss of an expired result.
unfoldable pub expire_result : {Token : Type 0} → ℕ → Operation Token → Bool
expire_result now row = elim row.result_expires_at [ none ↦ false | some e ↦ leb e now ]

module _ (P : Setup) where
  unfoldable pub purge_events : String → Tx (Store P) (Unit {0})
  unfolding drop_expired
  purge_events d = do now ← utcnow; modify (drop_expired d now)

  unfoldable pub decrypt_events : List (Event P.Token) → Tx (Store P) (List (ℕ × Snapshot))
  decrypt_events [] = pure []
  decrypt_events (e ∷ events) = do
    v ← decrypt_value P e.cipher
    snapshot ← or_raise internal (as_snapshot v)
    rest ← decrypt_events events
    pure ((e.sequence, snapshot) ∷ rest)

  -- SELECT ... WHERE device_id=%s AND sequence>%s ORDER BY sequence LIMIT %s.
  unfoldable pub page : String → ℕ → ℕ → Store P → List (Event P.Token)
  unfolding sort_events
  page d after limit l = take limit (sort_events (select (event_after d after) l.events))

  abbrev retention_gap : ℕ → Error
  retention_gap n = broker (record {
    code = Code.retention_gap;
    message = "event cursor expired; recover known operations with GET";
    status = 410;
    resume_after = some n;
  })

  unfoldable pub events_body : String → ℕ → ℕ → Tx (Store P) (List (ℕ × Snapshot))
  events_body d after limit = do
    lock_device P d
    purge_events d
    devices ← gets (λ l. l.devices)
    device ← or_raise internal (select_one (of_device d) devices)
    require (leb device.floor after) (retention_gap device.sequence)
    require (leb after device.sequence)
        (broker_error Code.invalid_cursor "event cursor is ahead of this device" 409)
    rows ← gets (page d after limit)
    decrypt_events rows

  unfoldable pub events : String → ℕ → ℕ → Tape → Store P → Result (List (ℕ × Snapshot)) × Store P
  events d after limit = transaction (events_body d after limit)

  -- INSERT ... ON CONFLICT DO NOTHING.
  unfoldable pub add_receipt : String → ℕ → ℕ → ReceiptStatus → ℕ → Store P → Store P
  add_receipt d o result status now l =
      if is_some (select_one (of_receipt d o result status) l.receipts) then l else record l {
        receipts =
            insert
              (record {
                device_id = d;
                operation_id = o;
                result_id = result;
                status = status;
                created_at = now;
              })
              l.receipts;
      }

  unfoldable pub is_result : Option ℕ → ℕ → Bool
  is_result none result = false
  is_result (some id) result = id == result

  unfoldable pub receipt : String → ℕ → ℕ → String → Tape → Store P → Result (Unit {0}) × Store P
  unfolding add_receipt is_result
  receipt d o result status = transaction do
    known ←
        or_raise (broker_error Code.invalid_receipt "invalid receipt status" 400)
          (read_status status)
    lock_device P d
    row ← get_row P d o
    require (is_result row.result_id result)
        (broker_error Code.result_conflict "receipt does not match the operation result" 409)
    now ← utcnow
    modify (add_receipt d o result known now)

  unfoldable pub purge_devices : List Device → Tx (Store P) (Unit {0})
  purge_devices [] = pure tt
  purge_devices (row ∷ rows) = do
    lock_device P row.device_id
    purge_events row.device_id
    purge_devices rows

  -- The three statements that end `purge`.
  unfoldable pub drop_payloads : ℕ → Store P → Store P
  drop_payloads now l = record l { payloads = delete (λ row. leb row.expires_at now) l.payloads }

  unfoldable pub drop_artifacts : ℕ → Store P → Store P
  drop_artifacts now l = record l { artifacts = delete (λ row. leb row.expires_at now) l.artifacts }

  unfoldable pub drop_results : ℕ → Store P → Store P
  drop_results now l = record l {
    operations =
        update (expire_result now) (λ row. record row { result_cipher = none }) l.operations;
  }

  unfoldable pub purge : Tape → Store P → Result (Unit {0}) × Store P
  unfolding drop_payloads drop_artifacts drop_results
  purge = transaction do
    rows ← gets (λ l. l.devices)
    purge_devices rows
    now ← utcnow
    modify (drop_payloads now)
    modify (drop_artifacts now)
    modify (drop_results now)

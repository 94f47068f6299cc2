-- ===== src/Broker/Spec.antt =====
-- The abstract specification of the ledger: the writes that a transaction may be made of, each with
-- the condition under which the broker makes it. The transactions of broker_store.py are shown to be
-- sequences of these in Broker/Refines, and the invariants are shown of these alone.
use codex_a2a_gateway.Base.{
  ℕ, suc, ◌+◌, ◌≤◌, ◌<◌, ◌≡◌, String, Bool, true, false, Option, none, some, List, select_one,
  select_count, select, select_first, update, insert, delete,
}
use codex_a2a_gateway.Broker.Model.{
  Plain, Snapshot, State, Request, Device, Operation, Payload, OutboxEntry, Artifact, Receipt,
  is_final, is_terminal, is_active,
}
use codex_a2a_gateway.Broker.Setup.{Setup}
use codex_a2a_gateway.Broker.Rows.{
  of_device, of_operation, pending_of, active_in_flow, artifact_of, updated_before,
}
use codex_a2a_gateway.Broker.Snapshots.{Store, add_device, append_event}
use codex_a2a_gateway.Broker.Artifacts.{total_size}
use codex_a2a_gateway.Broker.Accept.{accepted_row}
use codex_a2a_gateway.Broker.Finish.{Ending, finished_row, has_handle}
use codex_a2a_gateway.Broker.Dispatch.{start_row}
use codex_a2a_gateway.Broker.Cancel.{requested_row, is_cancelable}
use codex_a2a_gateway.Broker.Events.{drop_expired, expire_result}

-- The writes to the operations, under the admission bound `limit`.
pub data OperationWrite {Token : Type 0} (limit : ℕ) (rows : List (Operation Token))
    : List (Operation Token) → Type 0 where
  -- A new operation ID, below the bound of its device.
  admit :
      (d : String) (req : Request) (digest now : ℕ)
      → select_one (of_operation d req.operation_id) rows ≡ none
      → select_count (pending_of d) rows < limit
      → OperationWrite limit rows (insert (accepted_row d req digest now) rows)
  -- An accepted operation starts when `best`, the chosen row of its key, is alone in its flow.
  start :
      (best row : Operation Token) (now : ℕ)
      → select_one (of_operation best.device_id best.operation_id) rows ≡ some row
      → row.state ≡ State.accepted
      → select_one (active_in_flow best.device_id best.flow_id) rows ≡ none
      → OperationWrite limit rows
          (update (of_operation best.device_id best.operation_id) (start_row now) rows)
  -- An operation that is not final ends.
  finish :
      (d : String) (o : ℕ) (row : Operation Token) (e : Ending) (fresh : ℕ) (cipher : Option Token)
      (expires : Option ℕ) (now : ℕ)
      → select_one (of_operation d o) rows ≡ some row
      → is_final row.state ≡ false
      → is_terminal e.state ≡ true
      → OperationWrite limit rows
          (update (of_operation d o) (finished_row e fresh cipher expires now) rows)
  -- The first handle of an operation that is not final.
  save_handle :
      (d : String) (o : ℕ) (row : Operation Token) (handle : String) (now : ℕ)
      → select_one (of_operation d o) rows ≡ some row
      → is_final row.state ≡ false
      → has_handle row.remote_task_id ≡ false
      → OperationWrite limit rows (
          update
            (of_operation d o)
            (λ r. record r { remote_task_id = some handle; updated_at = now })
            rows)
  -- The first cancellation of an operation that is running or of unknown outcome.
  request_cancel :
      (d : String) (o : ℕ) (row : Operation Token) (now : ℕ)
      → select_one (of_operation d o) rows ≡ some row
      → is_active row.state ≡ true
      → row.cancel_requested ≡ false
      → OperationWrite limit rows (update (of_operation d o) (requested_row now) rows)
  -- The one call of the peer's cancellation, for the chosen row `best`.
  claim_cancel :
      (best row : Operation Token)
      → select_first updated_before (select is_cancelable rows) ≡ some best
      → select_one (of_operation best.device_id best.operation_id) rows ≡ some row
      → is_final row.state ≡ false
      → OperationWrite limit rows (
          update
            (of_operation best.device_id best.operation_id)
            (λ r. record r { cancel_claimed = true })
            rows)
  mark_polled :
      (d : String) (o now : ℕ)
      → OperationWrite limit rows
          (update (of_operation d o) (λ r. record r { polled_at = some now }) rows)
  expire_results :
      (now : ℕ)
      → OperationWrite limit rows
          (update (expire_result now) (λ r. record r { result_cipher = none }) rows)

-- The writes to the artifacts, under the quota of a device.
pub data ArtifactWrite {Token : Type 0} (quota : ℕ) (rows : List (Artifact Token))
    : List (Artifact Token) → Type 0 where
  store :
      (row : Artifact Token)
      → total_size (select (artifact_of row.device_id) rows) + row.size ≤ quota
      → ArtifactWrite quota rows (insert row rows)
  expire : (p : Artifact Token → Bool) → ArtifactWrite quota rows (delete p rows)

-- The writes to the ledger of a broker with the setup `P`.
pub data Write (P : Setup) (l : Store P) : Store P → Type 0 where
  operation :
      {rows : List (Operation P.Token)}
      → OperationWrite P.max_pending_per_device l.operations rows
      → Write P l (record l { operations = rows })
  artifact :
      {rows : List (Artifact P.Token)}
      → ArtifactWrite P.device_quota_bytes l.artifacts rows
      → Write P l (record l { artifacts = rows })
  device : (d : String) → Write P l (add_device d l)
  -- An event is a sealed snapshot, and takes the number after the last of its device.
  event :
      (d : String) (device : Device) (iv : ℕ) (snapshot : Snapshot) (expires : ℕ)
      → select_one (of_device d) l.devices ≡ some device
      → Write P l
          (append_event d (suc device.sequence) (P.encrypt iv (Plain.snapshot snapshot)) expires l)
  -- A prefix of the events of a device goes.
  retire : (d : String) (now : ℕ) → Write P l (drop_expired d now l)
  -- A payload is the sealed request of its operation.
  payload :
      (d : String) (req : Request) (iv expires : ℕ)
      → Write P l (record l {
        payloads =
            insert
              (record {
                device_id = d;
                operation_id = req.operation_id;
                cipher = P.encrypt iv (Plain.request req);
                expires_at = expires;
              })
              l.payloads;
      })
  drop_payloads :
      (p : Payload P.Token → Bool) → Write P l (record l { payloads = delete p l.payloads })
  outbox : (rows : List OutboxEntry) → Write P l (record l { outbox = rows })
  -- A receipt names the result of its operation.
  receipt :
      (row : Receipt) (op : Operation P.Token)
      → select_one (of_operation row.device_id row.operation_id) l.operations ≡ some op
      → op.result_id ≡ some row.result_id
      → Write P l (record l { receipts = insert row l.receipts })
  own : Write P l (record l { dispatcher = true })

-- Sequences of writes.
pub data Writes (P : Setup) (l : Store P) : Store P → Type 0 where
  nothing : Writes P l l
  then_write : {u v : Store P} → Writes P l u → Write P u v → Writes P l v

pub Writes-trans : {P : Setup} {l u v : Store P} → Writes P l u → Writes P u v → Writes P l v
Writes-trans w nothing = w
Writes-trans w (then_write w' x) = then_write (Writes-trans w w') x

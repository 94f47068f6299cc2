-- ===== src/Broker/Dispatch.antt =====
-- The dispatcher's side of the ledger: `acquire_dispatcher`, `claim` and `reconcilable` of
-- hermes_a2a_gateway/broker_store.py.
use codex_a2a_gateway.Base.{
  ℕ, String, Bool, true, false, not, ◌&&◌, Option, none, some, List, [], ◌∷◌, leb, take, is_some,
  if◌then◌else◌, select_one, select, select_first, update,
}
use codex_a2a_gateway.Tx.Errors.{Code, Result, broker_error, internal}
use codex_a2a_gateway.Tx.{
  Tape, Tx, pure, gets, or_raise, modify, utcnow, require, attempt, ◌>>=◌, ◌>>◌, transaction,
}
use codex_a2a_gateway.Broker.Model.{
  State, OutboxState, Request, Descriptor, Plain, Operation, Payload, Ledger, is_active,
}
use codex_a2a_gateway.Broker.Setup.{Setup}
use codex_a2a_gateway.Broker.Rows.{
  of_operation, of_payload, of_outbox, waiting, active_in_flow, created_before, polled_before,
}
use codex_a2a_gateway.Broker.Snapshots.{Store, lock_device, decrypt_value, get_row, record_event}
use codex_a2a_gateway.Broker.Artifacts.{read_artifact}
use codex_a2a_gateway.Broker.Finish.{Ending, finish_row, require_dispatcher}

unfoldable pub is_accepted : State → Bool
is_accepted State.accepted = true
is_accepted _ = false

-- The WHERE clause of the candidates: pending in the outbox, accepted, and no operation of the same
-- flow running or of unknown outcome.
unfoldable pub is_claimable : {Token : Type 0} → Ledger Token → Operation Token → Bool
is_claimable l row =
    (is_some (select_one (waiting row.device_id row.operation_id) l.outbox)
      && is_accepted row.state)
    && not (is_some (select_one (active_in_flow row.device_id row.flow_id) l.operations))

unfoldable pub candidate : {Token : Type 0} → Ledger Token → Option (Operation Token)
candidate l = select_first created_before (select (is_claimable l) l.operations)

-- What `claim` hands to the dispatcher.
pub record Claim : Type 0 where
  pub device_id : String
  pub request : Request
  pub attachments : List (Descriptor × List ℕ)

unfoldable pub as_request : Plain → Option Request
as_request (Plain.request req) = some req
as_request _ = none

unfoldable pub failed_with : Code → String → Ending
failed_with c m = record { state = State.failed; result = none; code = some c; message = some m }

-- The two UPDATE statements of a dispatch.
unfoldable pub claim_outbox : {Token : Type 0} → String → ℕ → ℕ → Ledger Token → Ledger Token
claim_outbox d o now l = record l {
  outbox =
      update (of_outbox d o)
        (λ row. record row { state = OutboxState.claimed; claimed_at = some now }) l.outbox;
}

unfoldable pub start_row : {Token : Type 0} → ℕ → Operation Token → Operation Token
start_row now row = record row { state = State.running; updated_at = now }

module _ (P : Setup) where
  -- `acquire_dispatcher`, where `granted` is the answer of pg_try_advisory_lock.
  unfoldable pub acquire_dispatcher : Bool → Tape → Store P → Result (Unit {0}) × Store P
  acquire_dispatcher granted = transaction do
    require granted
        (broker_error Code.dispatcher_active "another broker dispatcher owns this ledger" 503)
    modify (λ l. record l { dispatcher = true })

  unfoldable pub read_artifacts : String → List ℕ → Tx (Store P) (List (Descriptor × List ℕ))
  read_artifacts d [] = pure []
  read_artifacts d (a ∷ ids) = do
    x ← read_artifact P d a
    rest ← read_artifacts d ids
    pure (x ∷ rest)

  -- A claim that fails the operation instead of dispatching it.
  unfoldable pub refuse : String → ℕ → Code → String → Tx (Store P) (Option Claim)
  unfolding failed_with
  refuse d o c m = do finish_row P d o (failed_with c m); pure none

  unfoldable pub start :
      String → ℕ → Request → List (Descriptor × List ℕ) → Tx (Store P) (Option Claim)
  start d o req attachments = do
    now ← utcnow
    modify (claim_outbox d o now)
    later ← utcnow
    modify (λ l. record l { operations = update (of_operation d o) (start_row later) l.operations })
    record_event P d o
    pure (some (record { device_id = d; request = req; attachments = attachments }))

  unfoldable pub dispatch : String → ℕ → Payload P.Token → Tx (Store P) (Option Claim)
  dispatch d o payload = do
    v ← decrypt_value P payload.cipher
    req ← or_raise internal (as_request v)
    attachments ← attempt (read_artifacts d req.artifact_ids)
    elim attachments [
      | none ↦ refuse d o Code.artifact_expired "input artifact unavailable"
      | some found ↦ start d o req found
    ]

  unfoldable pub claim_payload : String → ℕ → Option (Payload P.Token) → Tx (Store P) (Option Claim)
  claim_payload d o none = refuse d o Code.payload_expired "dispatch payload expired"
  claim_payload d o (some payload) = do
    now ← utcnow
    if leb payload.expires_at now
        then refuse d o Code.payload_expired "dispatch payload expired"
        else dispatch d o payload

  unfoldable pub claim_row : String → ℕ → Tx (Store P) (Option Claim)
  claim_row d o = do
    lock_device P d
    row ← get_row P d o
    if is_accepted row.state
        then (do
          payloads ← gets (λ l. l.payloads)
          claim_payload d o (select_one (of_payload d o) payloads))
        else pure none

  unfoldable pub claim_body : Tx (Store P) (Option Claim)
  claim_body = do
    require_dispatcher P
    best ← gets candidate
    elim best [ none ↦ pure none | some row ↦ claim_row row.device_id row.operation_id ]

  unfoldable pub claim : Tape → Store P → Result (Option Claim) × Store P
  claim = transaction claim_body

  -- `reconcilable`: the twenty rows that were polled longest ago, each marked as polled.
  unfoldable pub is_reconcilable : Operation P.Token → Bool
  is_reconcilable row = is_active row.state && is_some row.remote_task_id

  unfoldable pub insert_polled :
      Operation P.Token → List (Operation P.Token) → List (Operation P.Token)
  insert_polled r [] = r ∷ []
  insert_polled r (x ∷ rows) =
      let rest = insert_polled r rows in if polled_before x r then x ∷ rest else r ∷ x ∷ rows

  unfoldable pub sort_polled : List (Operation P.Token) → List (Operation P.Token)
  unfolding insert_polled
  sort_polled [] = []
  sort_polled (r ∷ rows) = insert_polled r (sort_polled rows)

  unfoldable pub mark_polled : List (Operation P.Token) → Tx (Store P) (Unit {0})
  mark_polled [] = pure tt
  mark_polled (row ∷ rows) = do
    now ← utcnow
    modify (λ l. record l {
      operations =
          update (of_operation row.device_id row.operation_id)
            (λ r. record r { polled_at = some now }) l.operations;
    })
    mark_polled rows

  unfoldable pub reconcilable : Tape → Store P → Result (List (Operation P.Token)) × Store P
  unfolding sort_polled
  reconcilable = transaction do
    rows ← gets (λ l. take 20 (sort_polled (select is_reconcilable l.operations)))
    mark_polled rows
    pure rows

-- ===== src/Broker/Receipts.antt =====
-- What the receipts of `receipt` (hermes_a2a_gateway/broker_store.py) name, over histories.
use codex_a2a_gateway.Base.{ℕ, String, ◌≡◌, some, List, [], ◌∷◌, All, All-insert, arith, select_one}
use codex_a2a_gateway.Tx.{Tape}
use codex_a2a_gateway.Broker.Model.{Operation, Receipt, Ledger}
use codex_a2a_gateway.Broker.Setup.{Setup}
use codex_a2a_gateway.Broker.Rows.{of_operation}
use codex_a2a_gateway.Broker.Snapshots.{Store, add_device, append_event}
use codex_a2a_gateway.Broker.Events.{drop_expired}
use codex_a2a_gateway.Broker.Calls.{Call, run, empty}
use codex_a2a_gateway.Broker.Spec.{Write, Writes, nothing, then_write}
use codex_a2a_gateway.Broker.Refines.Histories.{run-Writes}
use codex_a2a_gateway.Broker.Lifecycle.{Follows}
use codex_a2a_gateway.Broker.Lifecycle.Steps.{Write-Follows}

-- The receipt names the result of an operation of `rows`.
abbrev pub NamesResult : {Token : Type 0} → List (Operation Token) → Receipt → Type 0
NamesResult {Token} rows row =
    (op : Operation Token) × (select_one (of_operation row.device_id row.operation_id) rows
      ≡ some op)
    × (op.result_id ≡ some row.result_id)

-- Every receipt names the result of its operation.
abbrev pub HasNamedResults : {Token : Type 0} → Ledger Token → Type 0
HasNamedResults l = All (NamesResult l.operations) l.receipts

module _ {Token : Type 0} where
  NamesResult-Follows :
      (rows rows' : List (Operation Token)) (receipts : List Receipt)
      → Follows rows rows'
      → All (NamesResult rows) receipts
      → All (NamesResult rows') receipts
  NamesResult-Follows rows rows' [] follows a = tt
  NamesResult-Follows rows rows' (x ∷ receipts) follows ((op, found, names), a) =
      let (new, found', later) = follows x.device_id x.operation_id op found in
      (
        (new, found', later.result_id x.result_id names),
        NamesResult-Follows rows rows' receipts follows a,
      )

  receipts-add_device : (d : String) (l : Ledger Token) → (add_device d l).receipts ≡ l.receipts
  unfolding add_device
  receipts-add_device d l = ground arith

  receipts-drop_expired :
      (d : String) (now : ℕ) (l : Ledger Token) → (drop_expired d now l).receipts ≡ l.receipts
  unfolding drop_expired
  receipts-drop_expired d now l = ground arith

module _ {P : Setup} where
  Write-receipts :
      {l l' : Store P}
      → Write P l l'
      → HasNamedResults l
      → All (NamesResult l.operations) l'.receipts
  unfolding append_event
  Write-receipts {l} (Write.device d) a = rw (receipts-add_device d l) a
  Write-receipts {l} (Write.retire d now) a = rw (receipts-drop_expired d now l) a
  Write-receipts {l} (Write.receipt row op found names) a =
      All-insert (NamesResult l.operations) l.receipts row a (op, found, names)
  Write-receipts _ a = a

  Writes-HasNamedResults : {l l' : Store P} → Writes P l l' → HasNamedResults l → HasNamedResults l'
  Writes-HasNamedResults nothing a = a
  Writes-HasNamedResults (then_write {u} {v} w x) a =
      NamesResult-Follows u.operations v.operations v.receipts (Write-Follows x)
        (Write-receipts x (Writes-HasNamedResults w a))

-- After any history of a new ledger, every receipt names an operation of the ledger, and the result
-- identity that the operation still has.
pub run-HasNamedResults :
    (P : Setup) (calls : List (Tape × Call)) → HasNamedResults (run P calls (empty P))
run-HasNamedResults P calls = Writes-HasNamedResults (run-Writes P calls (empty P)) tt

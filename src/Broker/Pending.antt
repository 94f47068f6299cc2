-- ===== src/Broker/Pending.antt =====
-- The admission bound of `accept` (hermes_a2a_gateway/broker_store.py), over histories.
use codex_a2a_gateway.Base.{
  ℕ, ◌+◌, ◌≤◌, ◌<◌, String, ◌≡◌, refl, subst, Bool, true, false, none, some, List, [], ◌∷◌, arith,
  Bool-cases, inl, inr, same, eq_iff, if◌then◌else◌, select_one, select_count, update, insert,
  select_one-insert,
}
use codex_a2a_gateway.Tx.{Tape}
use codex_a2a_gateway.Broker.Model.{Request, Operation, is_pending, is_final}
use codex_a2a_gateway.Broker.Setup.{Setup}
use codex_a2a_gateway.Broker.Rows.{of_operation, pending_of}
use codex_a2a_gateway.Broker.Snapshots.{Store, append_event}
use codex_a2a_gateway.Broker.Accept.{accepted_row}
use codex_a2a_gateway.Broker.Finish.{finished_row}
use codex_a2a_gateway.Broker.Dispatch.{start_row}
use codex_a2a_gateway.Broker.Cancel.{requested_row}
use codex_a2a_gateway.Broker.Events.{expire_result}
use codex_a2a_gateway.Broker.Calls.{Call, run, empty}
use codex_a2a_gateway.Broker.Spec.{OperationWrite, Write, Writes, nothing, then_write}
use codex_a2a_gateway.Broker.Refines.Histories.{run-Writes}
use codex_a2a_gateway.Broker.Refines.Ends.{operations-add_device}
use codex_a2a_gateway.Broker.Lifecycle.Keyed.{find, KeepsKey, find-update_any, same_key-eq}
use codex_a2a_gateway.Broker.Lifecycle.Steps.{found_again, operations-drop_expired}

-- The primary key: no later row has the key of an earlier one.
abbrev pub IsUnique : {Token : Type 0} → List (Operation Token) → Type 0
IsUnique [] = Unit
IsUnique (r ∷ rows) = (find r.device_id r.operation_id rows ≡ none) × IsUnique rows

-- The primary key holds, and each device has at most `limit` operations that are not final.
pub record IsAdmitted {Token : Type 0} (limit : ℕ) (rows : List (Operation Token)) : Type 0 where
  pub unique : IsUnique rows
  pub bounded : (d : String) → select_count (pending_of d) rows ≤ limit

module _ {Token : Type 0} where
  update-absent :
      (p : Operation Token → Bool) (f : Operation Token → Operation Token)
      (rows : List (Operation Token))
      → select_one p rows ≡ none
      → update p f rows ≡ rows
  unfolding select_one update
  update-absent p f [] h = refl
  update-absent p f (r ∷ rows) h = elim (Bool-cases (p r)) [
    | inl hit ↦ ground arith
    | inr miss ↦ ground (arith, update-absent p f rows)
  ]

  IsUnique-update :
      (q : Operation Token → Bool) (f : Operation Token → Operation Token)
      → KeepsKey f
      → (rows : List (Operation Token)) → IsUnique rows
      → IsUnique (update q f rows)
  unfolding update
  IsUnique-update q f k [] u = tt
  IsUnique-update q f k (r ∷ rows) (fresh, u) = (
    elim (Bool-cases (q r)) [
      | inl hit ↦
          rw
            (
              hit,
              k.device r,
              k.operation r,
              find-update_any r.device_id r.operation_id q f k rows,
              fresh,
            )
            refl
      | inr miss ↦ rw (miss, find-update_any r.device_id r.operation_id q f k rows, fresh) refl
    ],
    IsUnique-update q f k rows u,
  )

  IsUnique-insert :
      (row : Operation Token) (rows : List (Operation Token))
      → find row.device_id row.operation_id rows ≡ none
      → IsUnique rows
      → IsUnique (insert row rows)
  unfolding select_one of_operation
  IsUnique-insert row [] absent u = (refl, tt)
  IsUnique-insert row (r ∷ rows) absent (fresh, u) =
      let apart : of_operation row.device_id row.operation_id r ≡ false = ground arith in
      let rest : find row.device_id row.operation_id rows ≡ none = ground arith in
      (
        ground (
          arith,
          select_one-insert (of_operation r.device_id r.operation_id) row rows,
          eq_iff r.device_id row.device_id,
          eq_iff row.device_id r.device_id,
        ),
        IsUnique-insert row rows rest u,
      )

  -- The row of the key is the only one that changes.
  count-update :
      (d e : String) (o : ℕ) (f : Operation Token → Operation Token) (rows : List (Operation Token))
      → IsUnique rows
      → ((row : Operation Token)
          → find d o rows ≡ some row
          → pending_of e (f row) ≡ true
          → pending_of e row ≡ true)
      → select_count (pending_of e) (update (of_operation d o) f rows)
        ≤ select_count (pending_of e) rows
  unfolding select_count update select_one of_operation
  count-update d e o f [] u keeps = omega arith
  count-update d e o f (r ∷ rows) (fresh, u) keeps = elim (Bool-cases (of_operation d o r)) [
    | inl hit ↦
        let (same_device, same_operation) = same_key-eq r.device_id d r.operation_id o hit in
        let absent : find d o rows ≡ none =
          subst (λ x. find x o rows ≡ none) same_device
            (subst (λ x. find r.device_id x rows ≡ none) same_operation fresh) in
        let rest = update-absent (of_operation d o) f rows absent in
        let here = keeps r (rw hit refl) in rw (hit, rest) (ground (arith, here))
    | inr miss ↦
        let rest = count-update d e o f rows u (λ row found. keeps row (rw miss found)) in
        rw miss (ground (arith, rest))
  ]

  count-insert :
      (e : String) (row : Operation Token) (rows : List (Operation Token))
      → select_count (pending_of e) (insert row rows)
        ≡ select_count (pending_of e) rows + (if pending_of e row then 1 else 0)
  unfolding select_count
  count-insert e row [] = omega arith
  count-insert e row (r ∷ rows) = omega (arith, count-insert e row rows)

  keyed-IsAdmitted :
      {limit : ℕ} (d : String) (o : ℕ) (f : Operation Token → Operation Token)
      → KeepsKey f
      → (rows : List (Operation Token)) (row : Operation Token) → find d o rows ≡ some row
      → (is_pending (f row).state ≡ true → is_pending row.state ≡ true)
      → IsAdmitted limit rows
      → IsAdmitted limit (update (of_operation d o) f rows)
  unfolding pending_of
  keyed-IsAdmitted {limit} d o f k rows row found keeps a = record {
    unique = IsUnique-update (of_operation d o) f k rows a.unique;
    bounded = λ e.
        let less = count-update d e o f rows a.unique (λ again found' after.
          found_again (λ r. pending_of e (f r) ≡ true → pending_of e r ≡ true) d o rows row again
            found (λ h. ground (arith, k.device row, keeps)) found' after) in
        let old = a.bounded e in omega arith;
  }

  -- A change that leaves the states alone.
  count-update_any :
      (e : String) (q : Operation Token → Bool) (f : Operation Token → Operation Token)
      → ((r : Operation Token) → pending_of e (f r) ≡ pending_of e r)
      → (rows : List (Operation Token))
      → select_count (pending_of e) (update q f rows) ≡ select_count (pending_of e) rows
  unfolding select_count update
  count-update_any e q f keeps [] = refl
  count-update_any e q f keeps (r ∷ rows) =
      ground (arith, keeps r, count-update_any e q f keeps rows)

  any-IsAdmitted :
      {limit : ℕ} (q : Operation Token → Bool) (f : Operation Token → Operation Token)
      → KeepsKey f
      → ((r : Operation Token) → (f r).state ≡ r.state)
      → (rows : List (Operation Token)) → IsAdmitted limit rows
      → IsAdmitted limit (update q f rows)
  unfolding pending_of
  any-IsAdmitted {limit} q f k keeps rows a = record {
    unique = IsUnique-update q f k rows a.unique;
    bounded =
        λ e. rw (count-update_any e q f (λ r. rw (k.device r, keeps r) refl) rows) (a.bounded e);
  }

  admit-IsAdmitted :
      {limit : ℕ} (d : String) (req : Request) (digest now : ℕ) (rows : List (Operation Token))
      → find d req.operation_id rows ≡ none
      → select_count (pending_of d) rows < limit
      → IsAdmitted limit rows
      → IsAdmitted limit (insert (accepted_row d req digest now) rows)
  unfolding accepted_row pending_of
  admit-IsAdmitted {limit} d req digest now rows absent room a = record {
    unique = IsUnique-insert (accepted_row d req digest now) rows absent a.unique;
    bounded = λ e. elim (Bool-cases (same d e)) [
      | inl hit ↦
          let same_device : d ≡ e = ground (arith, eq_iff d e) in
          let room' : select_count (pending_of e) rows < limit =
            subst (λ x. select_count (pending_of x) rows < limit) same_device room in
          ground (arith, count-insert e (accepted_row d req digest now) rows)
      | inr miss ↦ ground (arith, count-insert e (accepted_row d req digest now) rows, a.bounded e)
    ];
  }

  OperationWrite-IsAdmitted :
      {limit : ℕ} {rows rows' : List (Operation Token)}
      → OperationWrite limit rows rows'
      → IsAdmitted limit rows
      → IsAdmitted limit rows'
  unfolding finished_row start_row requested_row is_pending is_final
  OperationWrite-IsAdmitted {limit} {rows} (OperationWrite.admit d req digest now absent room) a =
      admit-IsAdmitted d req digest now rows absent room a
  OperationWrite-IsAdmitted {limit} {rows} (OperationWrite.start best row now found fresh alone) a =
      keyed-IsAdmitted best.device_id best.operation_id (start_row now)
        (record { device = λ r. refl; operation = λ r. refl }) rows row found (λ _. rw fresh refl) a
  OperationWrite-IsAdmitted {limit} {rows}
        (OperationWrite.finish d o row e fresh cipher expires now found still_open ends) a =
      keyed-IsAdmitted d o (finished_row e fresh cipher expires now)
        (record { device = λ r. refl; operation = λ r. refl }) rows row found (λ _. ground arith) a
  OperationWrite-IsAdmitted {limit} {rows}
        (OperationWrite.save_handle d o row h now found still_open first) a =
      any-IsAdmitted (of_operation d o)
        (λ r. record r { remote_task_id = some h; updated_at = now })
        (record { device = λ r. refl; operation = λ r. refl }) (λ r. refl) rows a
  OperationWrite-IsAdmitted {limit} {rows}
        (OperationWrite.request_cancel d o row now found active first) a =
      any-IsAdmitted (of_operation d o) (requested_row now)
        (record { device = λ r. refl; operation = λ r. refl }) (λ r. refl) rows a
  OperationWrite-IsAdmitted {limit} {rows}
        (OperationWrite.claim_cancel best row chosen found still_open) a =
      any-IsAdmitted (of_operation best.device_id best.operation_id)
        (λ r. record r { cancel_claimed = true })
        (record { device = λ r. refl; operation = λ r. refl }) (λ r. refl) rows a
  OperationWrite-IsAdmitted {limit} {rows} (OperationWrite.mark_polled d o now) a =
      any-IsAdmitted (of_operation d o) (λ r. record r { polled_at = some now })
        (record { device = λ r. refl; operation = λ r. refl }) (λ r. refl) rows a
  OperationWrite-IsAdmitted {limit} {rows} (OperationWrite.expire_results now) a =
      any-IsAdmitted (expire_result now) (λ r. record r { result_cipher = none })
        (record { device = λ r. refl; operation = λ r. refl }) (λ r. refl) rows a

module _ {P : Setup} where
  Write-IsAdmitted :
      {l l' : Store P}
      → Write P l l'
      → IsAdmitted P.max_pending_per_device l.operations
      → IsAdmitted P.max_pending_per_device l'.operations
  unfolding append_event
  Write-IsAdmitted (Write.operation w) a = OperationWrite-IsAdmitted w a
  Write-IsAdmitted {l} (Write.device d) a = rw (operations-add_device d l) a
  Write-IsAdmitted {l} (Write.retire d now) a = rw (operations-drop_expired d now l) a
  Write-IsAdmitted _ a = a

  pub Writes-IsAdmitted :
      {l l' : Store P}
      → Writes P l l'
      → IsAdmitted P.max_pending_per_device l.operations
      → IsAdmitted P.max_pending_per_device l'.operations
  Writes-IsAdmitted nothing a = a
  Writes-IsAdmitted (then_write w x) a = Write-IsAdmitted x (Writes-IsAdmitted w a)

pub empty-IsAdmitted : (P : Setup) → IsAdmitted P.max_pending_per_device (empty P).operations
unfolding select_count
empty-IsAdmitted P = record { unique = tt; bounded = λ d. omega arith }

-- After any history of a new ledger, no two operations of a device have the same identity, and a
-- device has at most `max_pending_per_device` operations that are accepted, running or of unknown
-- outcome.
pub run-IsAdmitted :
    (P : Setup) (calls : List (Tape × Call))
    → IsAdmitted P.max_pending_per_device (run P calls (empty P)).operations
run-IsAdmitted P calls = Writes-IsAdmitted (run-Writes P calls (empty P)) (empty-IsAdmitted P)

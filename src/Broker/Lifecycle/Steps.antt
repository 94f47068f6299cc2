-- ===== src/Broker/Lifecycle/Steps.antt =====
-- Each write of the specification moves the operations onward.
use codex_a2a_gateway.Base.{
  ℕ, String, ◌≡◌, refl, subst, Bool, true, false, Option, none, some, List, arith, Bool-cases, inl,
  inr, if◌then◌else◌, update,
}
use codex_a2a_gateway.Broker.Model.{State, Operation, Ledger, is_final, is_terminal, is_active}
use codex_a2a_gateway.Broker.Rows.{of_operation}
use codex_a2a_gateway.Broker.Finish.{Ending, finished_row, has_handle}
use codex_a2a_gateway.Broker.Dispatch.{start_row}
use codex_a2a_gateway.Broker.Cancel.{requested_row}
use codex_a2a_gateway.Broker.Events.{expire_result, drop_expired}
use codex_a2a_gateway.Broker.Snapshots.{Store, append_event}
use codex_a2a_gateway.Broker.Spec.{OperationWrite, Write, Writes, nothing, then_write}
use codex_a2a_gateway.Tx.{Tape}
use codex_a2a_gateway.Broker.Setup.{Setup}
use codex_a2a_gateway.Broker.Calls.{Call, run}
use codex_a2a_gateway.Broker.Refines.Histories.{run-Writes}
use codex_a2a_gateway.Broker.Refines.Ends.{operations-add_device}
use codex_a2a_gateway.Broker.Lifecycle.{
  rank, Later, Follows, Later-refl, Follows-refl, Follows-trans,
}
use codex_a2a_gateway.Broker.Lifecycle.Keyed.{
  find, KeepsKey, find-update, find-update_any, find-insert, same_key, same_key-eq,
}

module _ {Token : Type 0} where
  keyed_Follows :
      (d : String) (o : ℕ) (f : Operation Token → Operation Token)
      → KeepsKey f
      → (rows : List (Operation Token))
      → ((row : Operation Token) → find d o rows ≡ some row → Later row (f row))
      → Follows rows (update (of_operation d o) f rows)
  keyed_Follows d o f k rows later e p old found = elim (Bool-cases (same_key d o e p)) [
    | inl hit ↦
        let (same_device, same_operation) = same_key-eq d e o p hit in
        (
          f old,
          rw (find-update d e o p f k rows, hit, found) refl,
          later old (rw (same_device, same_operation) found),
        )
    | inr miss ↦ (old, rw (find-update d e o p f k rows, miss) found, Later-refl old)
  ]

  any_Follows :
      (q : Operation Token → Bool) (f : Operation Token → Operation Token)
      → KeepsKey f
      → (rows : List (Operation Token)) → ((row : Operation Token) → Later row (f row))
      → Follows rows (update q f rows)
  any_Follows q f k rows later e p old found = (
    if q old then f old else old,
    rw (find-update_any e p q f k rows, found) refl,
    branch (q old),
  )
    where
      branch : (b : Bool) → Later old (if b then f old else old)
      branch true = later old
      branch false = Later-refl old

  finished_Later :
      (row : Operation Token) (e : Ending) (fresh : ℕ) (cipher : Option Token) (expires : Option ℕ)
      (now : ℕ)
      → is_final row.state ≡ false
      → is_terminal e.state ≡ true
      → Later row (finished_row e fresh cipher expires now row)
  unfolding finished_row rank is_terminal
  finished_Later row e fresh cipher expires now still_open ends = record {
    flow_id = refl;
    digest = refl;
    created_at = refl;
    onward = ground arith;
    settled = λ final. ground arith;
    result_id = λ id h. ground arith;
    handle = λ _. refl;
    requested = λ h. h;
    claimed = λ h. h;
  }

  start_Later :
      (row : Operation Token) (now : ℕ) → row.state ≡ State.accepted → Later row (start_row now row)
  unfolding start_row rank is_final
  start_Later row now fresh = ground arith

  handle_Later :
      (row : Operation Token) (h : String) (now : ℕ)
      → is_final row.state ≡ false
      → has_handle row.remote_task_id ≡ false
      → Later row (record row { remote_task_id = some h; updated_at = now })
  handle_Later row h now still_open first = ground arith

  requested_Later :
      (row : Operation Token) (now : ℕ)
      → is_active row.state ≡ true
      → Later row (requested_row now row)
  unfolding requested_row is_active is_final
  requested_Later row now active = ground arith

  claimed_Later : (row : Operation Token) → Later row (record row { cancel_claimed = true })
  claimed_Later row = ground arith

  polled_Later : (row : Operation Token) (now : ℕ) → Later row (record row { polled_at = some now })
  polled_Later row now = ground arith

  expired_Later : (row : Operation Token) → Later row (record row { result_cipher = none })
  expired_Later row = ground arith

  pub same_row :
      {o : Option (Operation Token)} {row again : Operation Token}
      → o ≡ some row
      → o ≡ some again
      → row ≡ again
  same_row h h' = cc

  -- What holds of the row that is found holds of the row that is found again.
  pub found_again :
      (P : Operation Token → Type 0) (d : String) (o : ℕ) (rows : List (Operation Token))
      (row again : Operation Token)
      → find d o rows ≡ some row
      → P row
      → find d o rows ≡ some again
      → P again
  found_again P d o rows row again h p h' = subst P (same_row h h') p

  OperationWrite-Follows :
      {limit : ℕ} {rows rows' : List (Operation Token)}
      → OperationWrite limit rows rows'
      → Follows rows rows'
  unfolding finished_row start_row requested_row
  OperationWrite-Follows {limit} {rows} (OperationWrite.admit d req digest now absent room) =
      λ e p old found. (old, find-insert e p _ old rows found, Later-refl old)
  OperationWrite-Follows {limit} {rows} (OperationWrite.start best row now found fresh alone) =
      keyed_Follows best.device_id best.operation_id (start_row now)
        (record { device = λ r. refl; operation = λ r. refl }) rows
        (λ r.
          found_again (λ x. Later x (start_row now x)) best.device_id best.operation_id rows row r
            found (start_Later row now fresh))
  OperationWrite-Follows {limit} {rows}
        (OperationWrite.finish d o row e fresh cipher expires now found still_open ends) =
      keyed_Follows d o (finished_row e fresh cipher expires now)
        (record { device = λ r. refl; operation = λ r. refl }) rows
        (λ r.
          found_again (λ x. Later x (finished_row e fresh cipher expires now x)) d o rows row r
            found (finished_Later row e fresh cipher expires now still_open ends))
  OperationWrite-Follows {limit} {rows}
        (OperationWrite.save_handle d o row h now found still_open first) =
      keyed_Follows d o (λ r. record r { remote_task_id = some h; updated_at = now })
        (record { device = λ r. refl; operation = λ r. refl }) rows
        (λ r.
          found_again (λ x. Later x (record x { remote_task_id = some h; updated_at = now })) d o
            rows row r found (handle_Later row h now still_open first))
  OperationWrite-Follows {limit} {rows}
        (OperationWrite.request_cancel d o row now found active first) =
      keyed_Follows d o (requested_row now) (record { device = λ r. refl; operation = λ r. refl })
        rows
        (λ r.
          found_again (λ x. Later x (requested_row now x)) d o rows row r found
            (requested_Later row now active))
  OperationWrite-Follows {limit} {rows}
        (OperationWrite.claim_cancel best row chosen found still_open) =
      keyed_Follows best.device_id best.operation_id (λ r. record r { cancel_claimed = true })
        (record { device = λ r. refl; operation = λ r. refl }) rows (λ r _. claimed_Later r)
  OperationWrite-Follows {limit} {rows} (OperationWrite.mark_polled d o now) =
      keyed_Follows d o (λ r. record r { polled_at = some now })
        (record { device = λ r. refl; operation = λ r. refl }) rows (λ r _. polled_Later r now)
  OperationWrite-Follows {limit} {rows} (OperationWrite.expire_results now) =
      any_Follows (expire_result now) (λ r. record r { result_cipher = none })
        (record { device = λ r. refl; operation = λ r. refl }) rows expired_Later

  pub operations-drop_expired :
      (d : String) (now : ℕ) (l : Ledger Token) → (drop_expired d now l).operations ≡ l.operations
  unfolding drop_expired
  operations-drop_expired d now l = ground arith

module _ {P : Setup} where
  pub Write-Follows : {l l' : Store P} → Write P l l' → Follows l.operations l'.operations
  unfolding append_event
  Write-Follows (Write.operation w) = OperationWrite-Follows w
  Write-Follows {l = l} (Write.artifact w) = Follows-refl l.operations
  Write-Follows {l = l} (Write.device d) =
      rw (operations-add_device d l) (Follows-refl l.operations)
  Write-Follows {l = l} (Write.event d device iv snapshot expires found) = Follows-refl l.operations
  Write-Follows {l = l} (Write.retire d now) =
      rw (operations-drop_expired d now l) (Follows-refl l.operations)
  Write-Follows {l = l} _ = Follows-refl l.operations

  pub Writes-Follows : {l l' : Store P} → Writes P l l' → Follows l.operations l'.operations
  Writes-Follows {l = l} nothing = Follows-refl l.operations
  Writes-Follows {l = l} (then_write {u} {v} w x) =
      Follows-trans l.operations u.operations v.operations (Writes-Follows w) (Write-Follows x)

-- Whatever the history, an operation that is in the ledger stays in it: its flow, its request and its
-- time of creation do not change, its state never moves back, a final state with its error and its
-- times is kept, and so are a result identity, a task handle and the marks of a cancellation.
pub run-Follows :
    (P : Setup) (calls : List (Tape × Call)) (l : Store P)
    → Follows l.operations (run P calls l).operations
run-Follows P calls l = Writes-Follows (run-Writes P calls l)

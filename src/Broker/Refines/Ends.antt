-- ===== src/Broker/Refines/Ends.antt =====
-- `_finish` and the transactions built on it.
use codex_a2a_gateway.Base.{
  ℕ, String, ◌≡◌, refl, Bool, true, false, not, ◌||◌, Option, some, List, [], ◌∷◌, arith,
  select_one,
}
use codex_a2a_gateway.Tx.{Tape, Session, Tx, ◌>>=◌}
use codex_a2a_gateway.Tx.Ensures.{
  Ensures, Ensures-pure, Ensures-if, Ensures-bind, transaction_relates,
}
use codex_a2a_gateway.Tx.Reads.{Reads-keeps, bind_reads}
use codex_a2a_gateway.Tx.Rules.{
  bind_gets, bind_or_raise, bind_require, bind_modify, bind_utcnow, bind_draw,
}
use codex_a2a_gateway.Broker.Model.{Operation, Ledger, is_final, is_terminal}
use codex_a2a_gateway.Broker.Setup.{Setup}
use codex_a2a_gateway.Broker.Rows.{of_operation}
use codex_a2a_gateway.Broker.Snapshots.{Store, lock_device, add_device, record_event}
use codex_a2a_gateway.Broker.Finish.{
  Ending, finish_row, write_end, bounded_end, finish, save_handle, write_handle, recover,
  recover_rows, restart_unknown, has_handle, handle_is, close_outbox,
}
use codex_a2a_gateway.Broker.Spec.{OperationWrite, Write, Writes, nothing, then_write}
use codex_a2a_gateway.Broker.Refines.Reading.{
  bind_encrypt, snapshot_of-Reads, seal_result-Reads, bind_row, bind_dispatcher,
}

module _ (P : Setup) {l : Store P} {t : Tape} {s : Session (Store P)} (w : Writes P l s.store) where
  pub record_event-Writes :
      (d : String) (o : ℕ) → Ensures (record_event P d o) t s (λ _ u. Writes P l u)
  unfolding record_event
  record_event-Writes d o = bind_row P d o _ λ row found.
      bind_reads _ _ (snapshot_of-Reads P row) λ snapshot n k. bind_gets _ _ (
        bind_or_raise _ _ _ λ device found'. bind_encrypt P _ _ λ iv. bind_utcnow _ λ now.
          bind_modify _ _
            (Ensures-pure _ (then_write w (Write.event d device iv snapshot _ found'))))

pub operations-add_device :
    {Token : Type 0} (d : String) (l : Ledger Token) → (add_device d l).operations ≡ l.operations
unfolding add_device
operations-add_device d l = ground arith

module _ (P : Setup) {l : Store P} {t : Tape} {s : Session (Store P)} (w : Writes P l s.store)
    (d : String) where
  -- A block that begins with `_device`.
  pub bind_lock :
      {B : Type 0} {Q : B → Store P → Type 0} (f : Unit {0} → Tx (Store P) B)
      → ((u : Session (Store P))
          → Writes P l u.store
          → u.store.operations ≡ s.store.operations
          → Ensures (f tt) t u Q)
      → Ensures (lock_device P d >>= f) t s Q
  unfolding lock_device
  bind_lock f h =
      bind_modify _ _ (h _ (then_write w (Write.device d)) (operations-add_device d s.store))

module _ (P : Setup) {l : Store P} {t : Tape} {s : Session (Store P)} (w : Writes P l s.store)
    (d : String) (o : ℕ) where
  write_end-Writes :
      (e : Ending) (row : Operation P.Token)
      → select_one (of_operation d o) s.store.operations ≡ some row
      → is_final row.state ≡ false
      → is_terminal e.state ≡ true
      → Ensures (write_end P d o e) t s (λ _ u. Writes P l u)
  unfolding write_end close_outbox
  write_end-Writes e row found open_ ends = bind_reads _ _ (seal_result-Reads P e.result) λ x n k.
      bind_draw _ λ fresh. bind_utcnow _ λ now. bind_modify _ _ (
        bind_modify _ _ (
          bind_modify _ _ (
            record_event-Writes P
              (then_write
                (then_write
                  (then_write w (
                    Write.operation
                      (OperationWrite.finish d o row e fresh x.0 x.1 now found open_ ends)))
                  (Write.outbox _))
                (Write.drop_payloads _))
              d o)))

  pub finish_row-Writes :
      (e : Ending)
      → is_terminal e.state ≡ true
      → Ensures (finish_row P d o e) t s (λ _ u. Writes P l u)
  unfolding finish_row
  finish_row-Writes e ends = bind_row P d o _ λ row found.
      Ensures-if _ _ _ (λ _. Reads-keeps (Writes P l) _ (snapshot_of-Reads P row) w)
        (λ still_open. write_end-Writes e row found still_open ends)

  write_handle-Writes :
      (row : Operation P.Token) (handle : String)
      → select_one (of_operation d o) s.store.operations ≡ some row
      → is_final row.state ≡ false
      → has_handle row.remote_task_id ≡ false
      → Ensures (write_handle P d o handle) t s (λ _ u. Writes P l u)
  unfolding write_handle
  write_handle-Writes row handle found still_open first = bind_utcnow _ λ now. bind_modify _ _ (
      Ensures-bind (λ _ u. Writes P l u) _ _
        (record_event-Writes P
          (then_write w (
            Write.operation (OperationWrite.save_handle d o row handle now found still_open first)))
          d o)
        (λ _ u w'. Ensures-pure _ w'))

-- A handle that is neither a repetition nor a conflict is the first.
first_handle :
    (old : Option String) (h : String) (final : Bool)
    → (not (has_handle old) || handle_is old h) ≡ true
    → (handle_is old h || final) ≡ false
    → (final ≡ false) × (has_handle old ≡ false)
first_handle old h final agrees fresh = ground arith

restart_unknown-terminal : is_terminal restart_unknown.state ≡ true
unfolding is_terminal
restart_unknown-terminal = refl

pub bounded_end-terminal :
    (P : Setup) (e : Ending)
    → is_terminal e.state ≡ true
    → is_terminal (bounded_end P e).state ≡ true
unfolding bounded_end is_terminal
bounded_end-terminal P e h = ground arith

module _ (P : Setup) {l : Store P} {t : Tape} where
  finish_body_Writes :
      (s : Session (Store P))
      → Writes P l s.store
      → (d : String) (o : ℕ) (e : Ending) → is_terminal e.state ≡ true
      → Ensures
          (lock_device P d >>= λ _. finish_row P d o (bounded_end P e))
          t
          s
          (λ _ u. Writes P l u)
  finish_body_Writes s w d o e ends =
      bind_lock P w d _ (λ u w' _. finish_row-Writes P w' d o _ (bounded_end-terminal P e ends))

  recover_rows-Writes :
      (rows : List (Operation P.Token)) (s : Session (Store P))
      → Writes P l s.store
      → Ensures (recover_rows P rows) t s (λ _ u. Writes P l u)
  unfolding recover_rows
  recover_rows-Writes [] s w = Ensures-pure _ w
  recover_rows-Writes (row ∷ rows) s w = bind_lock P w row.device_id _ λ u w' _.
      Ensures-bind (λ _ v. Writes P l v) _ _
        (finish_row-Writes P w' row.device_id row.operation_id _ restart_unknown-terminal)
        (λ _ v w''. recover_rows-Writes rows v w'')

module _ (P : Setup) (t : Tape) (l : Store P) where
  pub finish-Writes : (d : String) (o : ℕ) (e : Ending) → Writes P l (finish P d o e t l).1
  unfolding finish
  finish-Writes d o e =
      transaction_relates (Writes P) _ t l nothing
        λ n k. bind_require _ _ _ (λ ends. finish_body_Writes P _ nothing d o e ends)

  pub save_handle-Writes :
      (d : String) (o : ℕ) (h : String) → Writes P l (save_handle P d o h t l).1
  unfolding save_handle
  save_handle-Writes d o h = transaction_relates (Writes P) _ t l nothing λ n k.
      bind_require _ _ _ λ good. bind_lock P nothing d _ λ u w _. bind_row P d o _ λ row found.
        bind_require _ _ _ λ agrees.
          Ensures-if _ _ _ (λ _. Ensures-pure _ w)
            λ fresh.
              let first = first_handle row.remote_task_id h _ agrees fresh in
              write_handle-Writes P w d o row h found first.0 first.1

  pub recover-Writes : Writes P l (recover P t l).1
  unfolding recover
  recover-Writes =
      transaction_relates (Writes P) _ t l nothing
        λ n k. bind_dispatcher P _ (λ _. bind_gets _ _ (recover_rows-Writes P _ _ nothing))

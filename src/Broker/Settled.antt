-- ===== src/Broker/Settled.antt =====
-- What `finish` and `get` of hermes_a2a_gateway/broker_store.py leave and tell of an operation.
use codex_a2a_gateway.Base.{ℕ, ◌≤◌, String, ◌≡◌, refl, ap, ◌∙◌, true, some, arith}
use codex_a2a_gateway.Tx.Errors.{ok}
use codex_a2a_gateway.Tx.{Tape, Session}
use codex_a2a_gateway.Tx.Ensures.{
  Ensures, Ensures-pure, Ensures-if, Ensures-weaken, transaction_returns,
}
use codex_a2a_gateway.Tx.Reads.{Reads-keeps, bind_reads}
use codex_a2a_gateway.Tx.Rules.{bind_require, bind_modify, bind_utcnow, bind_draw}
use codex_a2a_gateway.Broker.Model.{State, Operation, Snapshot, Ledger, is_final, is_terminal}
use codex_a2a_gateway.Broker.Setup.{Setup}
use codex_a2a_gateway.Broker.Snapshots.{Store, snapshot_of, record_event}
use codex_a2a_gateway.Broker.Accept.{get}
use codex_a2a_gateway.Broker.Finish.{
  Ending, finished_row, close_outbox, write_end, finish_row, bounded_end, finish,
}
use codex_a2a_gateway.Broker.Spec.{nothing}
use codex_a2a_gateway.Broker.Refines.Reading.{
  snapshot_of-Reads, live_cipher-Reads, read_result-Reads, seal_result-Reads, bind_row,
}
use codex_a2a_gateway.Broker.Refines.Ends.{record_event-Writes, bind_lock, bounded_end-terminal}
use codex_a2a_gateway.Broker.Lifecycle.{rank, Follows}
use codex_a2a_gateway.Broker.Lifecycle.Keyed.{find, find-update}
use codex_a2a_gateway.Broker.Lifecycle.Steps.{Writes-Follows}
use codex_a2a_gateway.Broker.Dispatches.Starts.{same_key_refl}

-- The operation is in the ledger, and is final or of unknown outcome.
abbrev pub Settled : {Token : Type 0} → String → ℕ → Ledger Token → Type 0
Settled {Token} d o l =
    (row : Operation Token) × (find d o l.operations ≡ some row) × (2 ≤ rank row.state)

-- The snapshot tells the state of the operation in the ledger.
abbrev pub Told : {Token : Type 0} → String → ℕ → Snapshot → Ledger Token → Type 0
Told {Token} d o snapshot l =
    (row : Operation Token) × (find d o l.operations ≡ some row) × (row.state ≡ snapshot.state)

pub Settled-Follows :
    {Token : Type 0} (d : String) (o : ℕ) (l u : Ledger Token)
    → Follows l.operations u.operations
    → Settled d o l
    → Settled d o u
Settled-Follows d o l u follows (row, found, high) =
    let (new, found', later) = follows d o row found in
    let higher = later.onward in (new, found', omega arith)

final-rank : (s : State) → is_final s ≡ true → 2 ≤ rank s
unfolding rank is_final
final-rank s h = ground arith

terminal-rank : (s : State) → is_terminal s ≡ true → 2 ≤ rank s
unfolding rank is_terminal
terminal-rank s h = ground arith

module _ (P : Setup) {t : Tape} {s : Session (Store P)} (d : String) (o : ℕ) where
  record_event-Settled :
      Settled d o s.store → Ensures (record_event P d o) t s (λ _ u. Settled d o u)
  record_event-Settled h =
      Ensures-weaken _ _ (λ _ u w. Settled-Follows d o s.store u (Writes-Follows w) h)
        (record_event-Writes P nothing d o)

module _ (P : Setup) {t : Tape} {s : Session (Store P)} (d : String) (o : ℕ) where
  write_end-Settled :
      (e : Ending) (row : Operation P.Token)
      → find d o s.store.operations ≡ some row
      → is_terminal e.state ≡ true
      → Ensures (write_end P d o e) t s (λ _ u. Settled d o u)
  unfolding write_end close_outbox finished_row
  write_end-Settled e row found ends = bind_reads _ _ (seal_result-Reads P e.result) λ x n k.
      bind_draw _ λ fresh. bind_utcnow _ λ now. bind_modify _ _ (
        bind_modify _ _ (
          bind_modify _ _ (
            record_event-Settled P d o (
              finished_row e fresh x.0 x.1 now row,
              rw
                  (
                    find-update d d o o (finished_row e fresh x.0 x.1 now)
                        (record { device = λ r. refl; operation = λ r. refl }) s.store.operations,
                    same_key_refl d o,
                    found,
                  )
                  refl,
              terminal-rank e.state ends,
            ))))

  finish_row-Settled :
      (e : Ending)
      → is_terminal e.state ≡ true
      → Ensures (finish_row P d o e) t s (λ _ u. Settled d o u)
  unfolding finish_row
  finish_row-Settled e ends = bind_row P d o _ λ row found.
      Ensures-if (is_final row.state) (snapshot_of P row) (write_end P d o e)
        (λ final.
          Reads-keeps (Settled d o) _ (snapshot_of-Reads P row)
            (row, found, final-rank row.state final))
        (λ _. write_end-Settled e row found ends)

  -- A snapshot tells the state of its row.
  snapshot_of-Told :
      (row : Operation P.Token)
      → find d o s.store.operations ≡ some row
      → Ensures (snapshot_of P row) t s (λ snapshot u. Told d o snapshot u)
  unfolding snapshot_of
  snapshot_of-Told row found = bind_reads _ _ (live_cipher-Reads P _ _) λ live n k.
      bind_reads _ _ (read_result-Reads P row live) λ x n' k'. Ensures-pure _ (row, found, refl)

-- When `finish` returns, the operation is in the ledger, and is final or of unknown outcome, whatever
-- its state was.
pub finish-Settled :
    (P : Setup) (d : String) (o : ℕ) (e : Ending) (t : Tape) (l : Store P) (snapshot : Snapshot)
    → (finish P d o e t l).0 ≡ ok snapshot
    → Settled d o (finish P d o e t l).1
unfolding finish
finish-Settled P d o e t l snapshot =
    transaction_returns (λ _ u. Settled d o u) _ t l snapshot
      λ n k. bind_require _ _ _ λ ends.
        bind_lock P nothing d _
          λ u _ _. finish_row-Settled P d o (bounded_end P e) (bounded_end-terminal P e ends)

pub get-Told :
    (P : Setup) (d : String) (o : ℕ) (t : Tape) (l : Store P) (snapshot : Snapshot)
    → (get P d o t l).0 ≡ ok snapshot
    → Told d o snapshot (get P d o t l).1
unfolding get
get-Told P d o t l snapshot =
    transaction_returns (λ x u. Told d o x u) _ t l snapshot
      λ n k. bind_row P d o _ (λ row found. snapshot_of-Told P d o row found)

pub get-Settled :
    (P : Setup) (d : String) (o : ℕ) (t : Tape) (l : Store P) (snapshot : Snapshot)
    → (get P d o t l).0 ≡ ok snapshot
    → is_final snapshot.state ≡ true
    → Settled d o (get P d o t l).1
get-Settled P d o t l snapshot returned final =
    let (row, found, told) = get-Told P d o t l snapshot returned in
    (row, found, final-rank row.state (ap is_final told ∙ final))

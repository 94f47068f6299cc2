-- ===== src/Client/Onward/Accepted.antt =====
-- Accepting a snapshot moves the client's ledger onward.
use codex_a2a_gateway.Base.{
  ℕ, String, ◌≡◌, refl, sym, subst, true, not, ◌||◌, Option, none, some, List, arith, eq_iff,
  update,
}
use codex_a2a_gateway.Tx.{Tape, Session, Tx, ◌>>=◌}
use codex_a2a_gateway.Tx.Ensures.{
  Ensures, Ensures-pure, Ensures-modify, Ensures-if, Ensures-bind, transaction_relates,
}
use codex_a2a_gateway.Tx.Reads.{Reads, reads_rules, bind_reads}
use codex_a2a_gateway.Tx.Rules.{bind_gets, bind_or_raise, bind_require, bind_modify, bind_utcnow}
use codex_a2a_gateway.Broker.Model.{ReceiptStatus, is_final, is_terminal}
use codex_a2a_gateway.Client.Model.{
  NativeOrigin, Sequence, Incoming, Reported, ClientOperation, ClientLedger, has_id,
}
use codex_a2a_gateway.Client.Setup.{ClientSetup, ClientStore, ClientRow}
use codex_a2a_gateway.Client.Commands.{raise_cursor, read_row}
use codex_a2a_gateway.Client.Snapshots.{
  same_result, validated, is_stale, is_resolution, accepted_client_row, note_receipt,
  write_snapshot, mark_conflict, merge_snapshot, merge_known, move_cursor, accept_snapshot_body,
  accept_snapshot,
}
use codex_a2a_gateway.Client.Onward.{
  Kept, ClientLater, ClientLater-same, seek, Advances, Advances-refl, Onward, Onward-refl,
  Onward-trans,
}
use codex_a2a_gateway.Client.Onward.Rows.{KeepsId, update-Advances}

module _ {Token Value : Type 0} where
  pub rows-Onward :
      (l : ClientLedger Token Value) (rows : List (ClientOperation Token Value))
      → Advances l.operations rows
      → Onward l (record l { operations = rows })
  rows-Onward l rows h = record { rows = h; cursor = omega arith }

  -- An UPDATE of the delivery of one operation.
  pub deliver-Onward :
      (l : ClientLedger Token Value) (o : ℕ)
      (f : ClientOperation Token Value → ClientOperation Token Value)
      → KeepsId f
      → ((row : ClientOperation Token Value)
          → seek o l.operations ≡ some row
          → ClientLater row (f row))
      → Onward l (record l { operations = update (has_id o) f l.operations })
  deliver-Onward l o f k later = rows-Onward l _ (update-Advances o f k l.operations later)

  pub raise_cursor-Onward : (n : ℕ) (l : ClientLedger Token Value) → Onward l (raise_cursor n l)
  unfolding raise_cursor
  raise_cursor-Onward n l = record { rows = Advances-refl l.operations; cursor = omega arith }

module _ (P : ClientSetup) where
  same_result-eq : (a b : Option String) → same_result a b ≡ true → a ≡ b
  same_result-eq none none h = refl
  same_result-eq none (some b) h = ground arith
  same_result-eq (some a) none h = ground arith
  same_result-eq (some a) (some b) h = ground (arith, eq_iff a b)

  -- A terminal snapshot is replaced only by its resolution.
  replaced-Kept :
      (previous s : Reported P.Value)
      → is_terminal previous.state ≡ true
      → (not (is_stale P (some previous)) || is_resolution P (some previous) s) ≡ true
      → Kept previous (some s)
  unfolding is_stale is_resolution is_terminal is_final
  replaced-Kept previous s terminal fits =
      let resolves : is_resolution P (some previous) s ≡ true = ground arith in
      record {
        snapshot = s;
        found = refl;
        result_id =
            same_result-eq s.result_id previous.result_id
              (ground (arith, same_result-eq previous.result_id s.result_id));
        terminal = ground arith;
        settled = λ final. ground arith;
      }

  accepted-ClientLater :
      (row : ClientRow P) (s : Reported P.Value) (now expires : ℕ)
      → (not (is_stale P row.snapshot) || is_resolution P row.snapshot s) ≡ true
      → ClientLater row (accepted_client_row P s now expires row)
  unfolding accepted_client_row
  accepted-ClientLater row s now expires fits = record {
    flow_id = refl;
    thread_id = refl;
    call_id = refl;
    digest = refl;
    onward = omega arith;
    asked = λ h. h;
    outcome = λ previous e terminal.
        replaced-Kept previous s terminal
          (subst (λ x. (not (is_stale P x) || is_resolution P x s) ≡ true) e fits);
  }

  module _ {t : Tape} {l : ClientStore P} where
    pub note_receipt-Onward :
        {s : Session (ClientStore P)} (o : ℕ) (result : Option String) (status : ReceiptStatus)
        → Onward l s.store
        → Ensures (note_receipt P o result status) t s (λ _ u. Onward l u)
    unfolding note_receipt
    note_receipt-Onward o none status w = Ensures-pure _ w
    note_receipt-Onward o (some result) status w =
        Ensures-modify _ (record { rows = w.rows; cursor = w.cursor })

    write_snapshot-Onward :
        {s : Session (ClientStore P)} (row : ClientRow P) (new : Reported P.Value)
        → Onward l s.store
        → seek new.operation_id s.store.operations ≡ some row
        → (not (is_stale P row.snapshot) || is_resolution P row.snapshot new) ≡ true
        → Ensures (write_snapshot P new) t s (λ _ u. Onward l u)
    unfolding write_snapshot accepted_client_row
    write_snapshot-Onward {s} row new w found fits = bind_utcnow _ λ now. bind_utcnow _ λ later.
        bind_modify _ _ (
          note_receipt-Onward new.operation_id new.result_id ReceiptStatus.stored (
            Onward-trans w (
              deliver-Onward s.store new.operation_id _ (record { id = λ r. refl })
                λ again found'. accepted-ClientLater again new now _ (
                  subst
                    (λ x. (not (is_stale P x.snapshot) || is_resolution P x.snapshot new) ≡ true)
                    (same_row found found') fits))))
      where
        same_row : {o : Option (ClientRow P)} {a b : ClientRow P} → o ≡ some a → o ≡ some b → a ≡ b
        same_row h h' = cc

    mark_conflict-Onward :
        {s : Session (ClientStore P)} (o : ℕ)
        → Onward l s.store
        → Ensures (mark_conflict P o) t s (λ _ u. Onward l u)
    unfolding mark_conflict
    mark_conflict-Onward {s} o w = Ensures-modify _ (
        Onward-trans w (
          deliver-Onward s.store o _ (record { id = λ r. refl })
            λ r _.
              ClientLater-same r (record r { conflict = true }) (λ h. h) refl refl refl refl refl
                (omega arith)))

    merge_snapshot-Onward :
        {s : Session (ClientStore P)} (row : ClientRow P) (new : Reported P.Value)
        → Onward l s.store
        → seek new.operation_id s.store.operations ≡ some row
        → Ensures (merge_snapshot P row new) t s (λ _ u. Onward l u)
    unfolding merge_snapshot
    merge_snapshot-Onward row new w found = bind_require _ _ _ λ _.
        Ensures-if _ (mark_conflict P new.operation_id) _ (λ _. mark_conflict-Onward _ w)
          (λ _. Ensures-if _ _ _ (write_snapshot-Onward row new w found) (λ _. Ensures-pure _ w))

    merge_known-Onward :
        {s : Session (ClientStore P)} (row : Option (ClientRow P)) (new : Reported P.Value)
        → Onward l s.store
        → seek new.operation_id s.store.operations ≡ row
        → Ensures (merge_known P row new) t s (λ _ u. Onward l u)
    unfolding merge_known
    merge_known-Onward none new w found = Ensures-pure _ w
    merge_known-Onward (some row) new w found =
        Ensures-if _ _ _ (λ _. Ensures-pure _ w) (λ _. merge_snapshot-Onward row new w found)

    move_cursor-Onward :
        {s : Session (ClientStore P)} (n : Option ℕ)
        → Onward l s.store
        → Ensures (move_cursor P n) t s (λ _ u. Onward l u)
    unfolding move_cursor
    move_cursor-Onward none w = Ensures-pure _ w
    move_cursor-Onward {s} (some n) w =
        Ensures-modify _ (Onward-trans w (raise_cursor-Onward n s.store))

  validated-Reads : (incoming : Incoming P.Value) → Reads (validated P incoming)
  unfolding validated
  validated-Reads incoming = search reads_rules depth 12 fits 2000

  pub read_row-Reads : (o : ℕ) (origin : Option NativeOrigin) → Reads (read_row P o origin)
  unfolding read_row
  read_row-Reads o origin = search reads_rules

  -- A block on the row that `row` reads.
  pub read_row-Ensures :
      {t : Tape} {s : Session (ClientStore P)} (o : ℕ) (origin : Option NativeOrigin)
      → Ensures
          (read_row P o origin)
          t
          s
          (λ row u. (u ≡ s.store) × (seek o s.store.operations ≡ some row))
  unfolding read_row
  read_row-Ensures o origin =
      bind_gets _ _
        (bind_or_raise _ _ _ λ row found. bind_require _ _ _ λ _. Ensures-pure _ (refl, found))

  pub bind_row :
      {B : Type 0} {Q : B → ClientStore P → Type 0} {t : Tape} {s : Session (ClientStore P)} (o : ℕ)
      (origin : Option NativeOrigin) (f : ClientRow P → Tx (ClientStore P) B)
      → ((row : ClientRow P) (n k : ℕ)
          → seek o s.store.operations ≡ some row
          → Ensures (f row) t (record { store = s.store; reads = n; draws = k }) Q)
      → Ensures (read_row P o origin >>= f) t s Q
  bind_row {B} {Q} {t} {s} o origin f h =
      Ensures-bind (λ row u. (u ≡ s.store) × (seek o s.store.operations ≡ some row)) _ f
        (read_row-Ensures o origin)
        λ row u (e, found).
          subst (λ v. Ensures (f row) t (record { store = v; reads = u.reads; draws = u.draws }) Q)
            (sym e) (h row u.reads u.draws found)

module _ (P : ClientSetup) (t : Tape) (l : ClientStore P) where
  pub accept_snapshot-Onward :
      (incoming : Incoming P.Value) (seq : Sequence)
      → Onward l (accept_snapshot P incoming seq t l).1
  unfolding accept_snapshot accept_snapshot_body
  accept_snapshot-Onward incoming seq = transaction_relates Onward _ t l (Onward-refl l) λ n k.
      bind_reads _ _ (validated-Reads P incoming) λ s n' k'. bind_or_raise _ _ _ λ cursor _.
        bind_gets _ _ (
          Ensures-bind (λ _ u. Onward l u) _ _ (merge_known-Onward P _ s (Onward-refl l) refl)
            (λ _ u w. move_cursor-Onward P cursor w))

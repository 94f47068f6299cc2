-- ===== src/Dispatcher/Loops.antt =====
-- The loops of `step` (hermes_a2a_gateway/broker.py): each ends, and keeps the tables in order.
use codex_a2a_gateway.Base.{
  ℕ, zero, suc, ◌+◌, ◌≤◌, String, ◌≡◌, true, false, Option, none, some, List, [], ◌∷◌, length, take,
  leb, arith, inl, inr, ◌⊎◌, In, In-select,
}
use codex_a2a_gateway.Tx.Errors.{ok}
use codex_a2a_gateway.Tx.{Tape}
use codex_a2a_gateway.Tx.Ensures.{Ensures-pure, Ensures-bind, Ensures-trivial, transaction_returns}
use codex_a2a_gateway.Tx.Rules.{bind_gets}
use codex_a2a_gateway.Broker.Model.{Operation, is_active}
use codex_a2a_gateway.Broker.Setup.{Setup}
use codex_a2a_gateway.Broker.Snapshots.{Store}
use codex_a2a_gateway.Broker.Dispatch.{
  Claim, claim, is_reconcilable, insert_polled, sort_polled, reconcilable,
}
use codex_a2a_gateway.Broker.Cancel.{claim_cancel}
use codex_a2a_gateway.Broker.Calls.{Call, perform}
use codex_a2a_gateway.Broker.Refines.Histories.{perform-Writes}
use codex_a2a_gateway.Broker.Lifecycle.{rank}
use codex_a2a_gateway.Broker.Lifecycle.Steps.{Writes-Follows}
use codex_a2a_gateway.Broker.Dispatches.{Started, claim_key}
use codex_a2a_gateway.Broker.Dispatches.Starts.{claim-Dispatches, Started-Follows}
use codex_a2a_gateway.Broker.Cancellations.{In-find, claim_cancel-ClaimsCancel}
use codex_a2a_gateway.Broker.Pending.{IsUnique}
use codex_a2a_gateway.Dispatcher.Jobs.{Surroundings}
use codex_a2a_gateway.Dispatcher.Tables.{Tables, row_key, add_stream, add_cancel}
use codex_a2a_gateway.Dispatcher.Step.{
  Desk, Move, done, change, then_move, with_cancel, fill_cancels, fill_reads, with_claim,
  fill_streams,
}
use codex_a2a_gateway.Dispatcher.Turns.{Good, IsTended, if-Good, returned-Good, asking-Good}
use codex_a2a_gateway.Dispatcher.Keys.{length-put_new}
use codex_a2a_gateway.Dispatcher.Tended.{
  Tended, Waiting-absent, IsUnclaimed-absent, Tended-add_stream, Tended-add_cancel,
  Tended-add_reads,
}

module _ (P : Setup) (σ : Surroundings) (rest : Move P) (n : ℕ) where
  -- After a cancellation has been claimed.
  with_cancel-Good :
      (t : Tape) (l : Store P) (tables : Tables) (c : Option (String × ℕ × String)) (m : ℕ)
      → ((desk : Desk P)
          → P.max_concurrent_streams ≤ length desk.tables.cancels + n
          → IsTended P desk
          → Good P (rest σ desk))
      → P.max_concurrent_streams ≤ length tables.cancels + suc n
      → leb P.max_concurrent_streams (length tables.cancels) ≡ false
      → (claim_cancel P t l).0 ≡ ok c
      → Tended P l tables
      → Tended P (claim_cancel P t l).1 tables
      → Good P (
          with_cancel P rest c σ (record {
            world = record { store = (claim_cancel P t l).1; calls = m };
            tables = tables;
          }))
  unfolding done change then_move add_cancel
  with_cancel-Good t l tables none m go enough less e before after = returned-Good P _ after
  with_cancel-Good t l tables (some (d, o, handle)) m go enough less e before after =
      let (waits, begun) =
        claim_cancel-ClaimsCancel P t l (some (d, o, handle)) before.admitted.unique e in
      let grown =
        length-put_new (d, o) tables.cancels (IsUnclaimed-absent P tables (d, o) before waits) in
      go _ (omega arith) (Tended-add_cancel P tables (d, o) after begun (ground arith))

  -- After an operation has been claimed.
  with_claim-Good :
      (t : Tape) (l : Store P) (tables : Tables) (c : Option Claim) (m : ℕ)
      → ((desk : Desk P)
          → P.max_concurrent_streams ≤ length desk.tables.streams + n
          → IsTended P desk
          → Good P (rest σ desk))
      → P.max_concurrent_streams ≤ length tables.streams + suc n
      → leb P.max_concurrent_streams (length tables.streams) ≡ false
      → (claim P t l).0 ≡ ok c
      → Tended P l tables
      → Tended P (claim P t l).1 tables
      → Good P (
          with_claim P rest c σ
            (record { world = record { store = (claim P t l).1; calls = m }; tables = tables }))
  unfolding done change then_move add_stream
  with_claim-Good t l tables none m go enough less e before after = returned-Good P _ after
  with_claim-Good t l tables (some c) m go enough less e before after =
      let (waits, begun) = claim-Dispatches P t l (some c) before.sealed e in
      let (unsubmitted, unread) = Waiting-absent P tables (claim_key c) before waits in
      let grown = length-put_new (claim_key c) tables.streams unsubmitted in
      go _ (omega arith)
        (Tended-add_stream P tables (claim_key c) after begun unread (ground arith))

module _ (P : Setup) (σ : Surroundings) where
  pub fill_cancels-Good :
      (n : ℕ) (desk : Desk P)
      → P.max_concurrent_streams ≤ length desk.tables.cancels + n
      → IsTended P desk
      → Good P (fill_cancels P n σ desk)
  unfolding fill_cancels perform
  fill_cancels-Good zero desk enough h =
      let full : leb P.max_concurrent_streams (length desk.tables.cancels) ≡ true = ground arith in
      rw full (returned-Good P desk h)
  fill_cancels-Good (suc n) desk enough h =
      let go = fill_cancels-Good n in
      if-Good P (leb P.max_concurrent_streams (length desk.tables.cancels)) _ _
        (λ full. returned-Good P desk h)
        (λ less.
          asking-Good P σ (claim_cancel P) (with_cancel P (fill_cancels P n)) desk
            (λ t l. perform-Writes P Call.claim_cancel t l) h
            (λ t l c e before m after.
              with_cancel-Good P σ (fill_cancels P n) n t l desk.tables c m go enough less e before
                after))

  pub fill_streams-Good :
      (n : ℕ) (desk : Desk P)
      → P.max_concurrent_streams ≤ length desk.tables.streams + n
      → IsTended P desk
      → Good P (fill_streams P n σ desk)
  unfolding fill_streams perform
  fill_streams-Good zero desk enough h =
      let full : leb P.max_concurrent_streams (length desk.tables.streams) ≡ true = ground arith in
      rw full (returned-Good P desk h)
  fill_streams-Good (suc n) desk enough h =
      let go = fill_streams-Good n in
      if-Good P (leb P.max_concurrent_streams (length desk.tables.streams)) _ _
        (λ full. returned-Good P desk h)
        (λ less.
          asking-Good P σ (claim P) (with_claim P (fill_streams P n)) desk
            (λ t l. perform-Writes P Call.claim t l) h
            (λ t l c e before m after.
              with_claim-Good P σ (fill_streams P n) n t l desk.tables c m go enough less e before
                after))

-- The rows that `reconcilable` returns are rows of the table that have started.
In-take : {A : Type 0} (n : ℕ) (xs : List A) (x : A) → In x (take n xs) → In x xs
In-take zero xs x m = elim m [ ]
In-take (suc n) [] x m = elim m [ ]
In-take (suc n) (y ∷ xs) x (inl e) = inl e
In-take (suc n) (y ∷ xs) x (inr m) = inr (In-take n xs x m)

module _ (P : Setup) where
  In-insert_polled :
      (r : Operation P.Token) (rows : List (Operation P.Token)) (x : Operation P.Token)
      → In x (insert_polled P r rows)
      → (x ≡ r) ⊎ In x rows
  unfolding insert_polled
  In-insert_polled r [] x m = m
  In-insert_polled r (y ∷ rows) x m = ground (arith, In-insert_polled r rows x)

  In-sort_polled :
      (rows : List (Operation P.Token)) (x : Operation P.Token)
      → In x (sort_polled P rows)
      → In x rows
  unfolding sort_polled
  In-sort_polled [] x m = m
  In-sort_polled (r ∷ rows) x m = elim (In-insert_polled r (sort_polled P rows) x m) [
    | inl here ↦ inl here
    | inr later ↦ inr (In-sort_polled rows x later)
  ]

  active_rank : (row : Operation P.Token) → is_reconcilable P row ≡ true → 1 ≤ rank row.state
  unfolding is_reconcilable is_active rank
  active_rank row h = ground arith

  reconcilable-Started :
      (t : Tape) (l : Store P) (rows : List (Operation P.Token))
      → IsUnique l.operations
      → (reconcilable P t l).0 ≡ ok rows
      → (row : Operation P.Token) → In row rows
      → Started (row_key row) l
  unfolding reconcilable
  reconcilable-Started t l rows u =
      transaction_returns
        (λ found _. (row : Operation P.Token) → In row found → Started (row_key row) l) _ t l rows
        λ n k. bind_gets _ _ (
          Ensures-bind (λ _ _. Unit) _ _ (Ensures-trivial _ _ _)
            λ _ v _. Ensures-pure _ λ row m.
              let (there, fits) =
                In-select (is_reconcilable P) l.operations row
                  (In-sort_polled _ row (In-take 20 _ row m)) in
              (row, In-find l.operations row u there, active_rank row fits))

  pub fill_reads-Good :
      (σ : Surroundings) (desk : Desk P) → IsTended P desk → Good P (fill_reads P σ desk)
  unfolding fill_reads perform change
  fill_reads-Good σ desk h =
      if-Good P (leb P.max_concurrent_streams (length desk.tables.reads)) _ _
        (λ full. returned-Good P desk h)
        (λ less.
          asking-Good P σ (reconcilable P) _ desk (λ t l. perform-Writes P Call.reconcilable t l) h
            (λ t l rows e before m after. returned-Good P _ (
              Tended-add_reads P rows desk.tables
                (λ row i.
                  Started-Follows row.device_id row.operation_id l (reconcilable P t l).1
                    (Writes-Follows (perform-Writes P Call.reconcilable t l))
                    (reconcilable-Started t l rows before.admitted.unique e row i))
                (ground arith) after)))

-- ===== src/Broker/Cancellations.antt =====
-- What `claim_cancel` of hermes_a2a_gateway/broker_store.py hands to the peer's cancellation.
use codex_a2a_gateway.Base.{
  ℕ, String, ◌≡◌, refl, sym, subst, true, false, Option, none, some, List, [], ◌∷◌, arith,
  Bool-cases, inl, inr, In, In-first_selected, select_one, select, select_first,
}
use codex_a2a_gateway.Histories.{NoRepeat, HandsOut, emitted, emitted-NoRepeat}
use codex_a2a_gateway.Tx.Errors.{Result, ok, err}
use codex_a2a_gateway.Tx.{Tape, Session, pure}
use codex_a2a_gateway.Tx.Ensures.{Ensures, Ensures-pure, Ensures-if, transaction_returns}
use codex_a2a_gateway.Tx.Rules.{bind_gets, bind_modify, bind_or_raise}
use codex_a2a_gateway.Broker.Model.{Operation, Ledger, is_final}
use codex_a2a_gateway.Broker.Setup.{Setup}
use codex_a2a_gateway.Broker.Rows.{of_operation, updated_before}
use codex_a2a_gateway.Broker.Snapshots.{Store}
use codex_a2a_gateway.Broker.Cancel.{is_cancelable, claim_cancel_row, claim_cancel}
use codex_a2a_gateway.Broker.Calls.{Call, perform, empty}
use codex_a2a_gateway.Broker.Spec.{nothing}
use codex_a2a_gateway.Broker.Refines.Reading.{bind_row, bind_dispatcher}
use codex_a2a_gateway.Broker.Refines.Ends.{bind_lock}
use codex_a2a_gateway.Broker.Refines.Histories.{perform-Writes}
use codex_a2a_gateway.Broker.Lifecycle.{Follows}
use codex_a2a_gateway.Broker.Lifecycle.Keyed.{find, find-update, same_key, same_key-eq}
use codex_a2a_gateway.Broker.Lifecycle.Steps.{Writes-Follows}
use codex_a2a_gateway.Broker.Dispatches.{Key, step}
use codex_a2a_gateway.Broker.Dispatches.Starts.{same_key_refl}
use codex_a2a_gateway.Broker.Pending.{IsUnique, IsAdmitted, Writes-IsAdmitted, empty-IsAdmitted}

abbrev pub canceled_keys : Result (Option (String × ℕ × String)) → List Key
canceled_keys (ok (some (d, o, handle))) = (d, o) ∷ []
canceled_keys (ok none) = []
canceled_keys (err e) = []

module _ (P : Setup) where
  -- The cancellations that a call hands out.
  unfoldable pub canceled_by : Tape × Call → Store P → List Key
  canceled_by (t, Call.claim_cancel) l = canceled_keys (claim_cancel P t l).0
  canceled_by (t, _) l = []

  -- What a history hands out, in order.
  unfoldable pub cancellations : List (Tape × Call) → Store P → List Key
  cancellations = emitted (step P) canceled_by

module _ {Token : Type 0} where
  -- The cancellation of the operation has not been claimed, or has.
  abbrev pub IsUnclaimed : Key → Ledger Token → Type 0
  IsUnclaimed (d, o) l =
      (row : Operation Token) × (find d o l.operations ≡ some row) × (row.cancel_claimed ≡ false)

  abbrev pub IsClaimed : Key → Ledger Token → Type 0
  IsClaimed (d, o) l =
      (row : Operation Token) × (find d o l.operations ≡ some row) × (row.cancel_claimed ≡ true)

  pub claimed-not-IsUnclaimed : (k : Key) (l : Ledger Token) → IsClaimed k l → ¬ IsUnclaimed k l
  claimed-not-IsUnclaimed (d, o) l (row, found, done) (row', found', fresh) = cc

  pub IsClaimed-Follows :
      (k : Key) (l u : Ledger Token)
      → Follows l.operations u.operations
      → IsClaimed k l
      → IsClaimed k u
  IsClaimed-Follows (d, o) l u follows (row, found, done) =
      let (new, found', later) = follows d o row found in (new, found', later.claimed done)

  -- Under the primary key, a row of the table is the row of its key.
  pub In-find :
      (rows : List (Operation Token)) (row : Operation Token)
      → IsUnique rows
      → In row rows
      → find row.device_id row.operation_id rows ≡ some row
  unfolding select_one of_operation
  In-find [] row u m = elim m [ ]
  In-find (x ∷ rows) row (fresh, u) (inl here) =
      subst (λ r. find r.device_id r.operation_id (x ∷ rows) ≡ some r) (sym here)
        (rw (same_key_refl x.device_id x.operation_id) refl)
  In-find (x ∷ rows) row (fresh, u) (inr later) =
      let rest = In-find rows row u later in
      elim (Bool-cases (same_key x.device_id x.operation_id row.device_id row.operation_id)) [
        | inl hit ↦
            let (same_device, same_operation) =
              same_key-eq x.device_id row.device_id x.operation_id row.operation_id hit in
            let again : find x.device_id x.operation_id rows ≡ some row =
              subst (λ d. find d x.operation_id rows ≡ some row) (sym same_device)
                (subst (λ o. find row.device_id o rows ≡ some row) (sym same_operation) rest) in
            absurd (clash again fresh)
        | inr miss ↦ rw miss rest
      ]
    where
      clash : {o : Option (Operation Token)} {r : Operation Token} → o ≡ some r → o ≡ none → ⊥
      clash h h' = cc

  -- A claim that returns an operation found its cancellation unclaimed, and leaves it claimed.
  abbrev pub ClaimsCancel : Ledger Token → Option (String × ℕ × String) → Ledger Token → Type 0
  ClaimsCancel l none u = Unit
  ClaimsCancel l (some (d, o, handle)) u = IsUnclaimed (d, o) l × IsClaimed (d, o) u

  cancelable-unclaimed :
      (row : Operation Token) → is_cancelable row ≡ true → row.cancel_claimed ≡ false
  unfolding is_cancelable
  cancelable-unclaimed row h = ground arith

module _ (P : Setup) {t : Tape} (l : Store P) where
  claim_cancel_row-ClaimsCancel :
      (s : Session (Store P)) (d : String) (o : ℕ)
      → IsUnclaimed (d, o) l
      → Ensures (claim_cancel_row P d o) t s (ClaimsCancel l)
  unfolding claim_cancel_row
  claim_cancel_row-ClaimsCancel s d o waits = bind_lock P nothing d _ λ u _ _.
      bind_row P d o _ λ row found.
        Ensures-if (is_final row.state) _ _ (λ _. Ensures-pure _ tt)
          λ _. bind_modify _ _ (
            bind_or_raise _ _ _ λ handle _. Ensures-pure _ (
              waits,
              (
                record row { cancel_claimed = true },
                rw
                    (
                      find-update d d o o (λ r. record r { cancel_claimed = true })
                          (record { device = λ r. refl; operation = λ r. refl }) u.store.operations,
                      same_key_refl d o,
                      found,
                    )
                    refl,
                refl,
              ),
            ))

  chosen-ClaimsCancel :
      (s : Session (Store P)) (chosen : Option (Operation P.Token))
      → IsUnique l.operations
      → select_first updated_before (select is_cancelable l.operations) ≡ chosen
      → Ensures {A = Option (String × ℕ × String)}
          (elim chosen [
            | none ↦ pure none
            | some row ↦ claim_cancel_row P row.device_id row.operation_id
          ])
          t
          s
          (ClaimsCancel l)
  chosen-ClaimsCancel s none u e = Ensures-pure _ tt
  chosen-ClaimsCancel s (some best) u e =
      let (there, fits) = In-first_selected updated_before is_cancelable l.operations best e in
      claim_cancel_row-ClaimsCancel s best.device_id best.operation_id
        (best, In-find l.operations best u there, cancelable-unclaimed best fits)

module _ (P : Setup) where
  pub claim_cancel-ClaimsCancel :
      (t : Tape) (l : Store P) (c : Option (String × ℕ × String))
      → IsUnique l.operations
      → (claim_cancel P t l).0 ≡ ok c
      → ClaimsCancel l c (claim_cancel P t l).1
  unfolding claim_cancel
  claim_cancel-ClaimsCancel t l c u =
      transaction_returns (ClaimsCancel l) _ t l c
        λ n k. bind_dispatcher P _ (λ _. bind_gets _ _ (chosen-ClaimsCancel P l _ _ u refl))

  canceled_keys-ClaimsCancel :
      (k : Key) (l u : Store P) (r : Result (Option (String × ℕ × String)))
      → ((c : Option (String × ℕ × String)) → r ≡ ok c → ClaimsCancel l c u)
      → In k (canceled_keys r)
      → IsUnclaimed k l × IsClaimed k u
  canceled_keys-ClaimsCancel k l u (ok none) h m = elim m [ ]
  canceled_keys-ClaimsCancel k l u (ok (some (d, o, handle))) h (inl e) =
      subst (λ x. IsUnclaimed x l × IsClaimed x u) (sym e) (h (some (d, o, handle)) refl)
  canceled_keys-ClaimsCancel k l u (ok (some (d, o, handle))) h (inr m) = elim m [ ]
  canceled_keys-ClaimsCancel k l u (err e) h m = elim m [ ]

  canceled_by-ClaimsCancel :
      (k : Key) (c : Call) (t : Tape) (l : Store P)
      → IsUnique l.operations
      → In k (canceled_by P (t, c) l)
      → IsUnclaimed k l × IsClaimed k (perform P c t l)
  unfolding canceled_by perform
  canceled_by-ClaimsCancel k Call.claim_cancel t l u m =
      canceled_keys-ClaimsCancel k l (claim_cancel P t l).1 (claim_cancel P t l).0
        (λ c e. claim_cancel-ClaimsCancel t l c u e) m
  canceled_by-ClaimsCancel k _ t l u m = elim m [ ]

  canceled_keys-NoRepeat : (r : Result (Option (String × ℕ × String))) → NoRepeat (canceled_keys r)
  canceled_keys-NoRepeat (ok none) = tt
  canceled_keys-NoRepeat (ok (some (d, o, handle))) = (λ m. elim m [ ], tt)
  canceled_keys-NoRepeat (err e) = tt

  canceled_by-NoRepeat : (c : Call) (t : Tape) (l : Store P) → NoRepeat (canceled_by P (t, c) l)
  unfolding canceled_by
  canceled_by-NoRepeat Call.claim_cancel t l = canceled_keys-NoRepeat (claim_cancel P t l).0
  canceled_by-NoRepeat _ t l = tt

  cancellations-HandsOut :
      HandsOut
        (step P)
        (canceled_by P)
        (λ l. IsAdmitted P.max_pending_per_device l.operations)
        IsUnclaimed
        IsClaimed
  cancellations-HandsOut = record {
    kept = λ (t, c) l a. Writes-IsAdmitted (perform-Writes P c t l) a;
    stays = λ k (t, c) l claimed.
        IsClaimed-Follows k l (perform P c t l) (Writes-Follows (perform-Writes P c t l)) claimed;
    waited = λ k (t, c) l a m. (canceled_by-ClaimsCancel k c t l a.unique m).0;
    begun = λ k (t, c) l a m. (canceled_by-ClaimsCancel k c t l a.unique m).1;
    apart = λ k l claimed. claimed-not-IsUnclaimed k l claimed;
    single = λ (t, c) l. canceled_by-NoRepeat c t l;
  }

-- Whatever the history of a new ledger, restarts and repeated requests of cancellation included, the
-- cancellation of each operation is handed out, for one call of the peer, at most once.
pub cancellations-NoRepeat :
    (P : Setup) (calls : List (Tape × Call)) → NoRepeat (cancellations P calls (empty P))
unfolding cancellations
cancellations-NoRepeat P calls =
    emitted-NoRepeat (step P) (canceled_by P) (cancellations-HandsOut P) calls (empty P)
      (empty-IsAdmitted P)

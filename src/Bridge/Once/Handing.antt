-- ===== src/Bridge/Once/Handing.antt =====
-- Deliveries keep the log free of repetition.
use codex_a2a_gateway.Base.{
  ℕ, suc, String, same, ◌≡◌, refl, sym, subst, Bool, true, false, Option, none, some, ◌∷◌, In, inl,
  inr,
}
use codex_a2a_gateway.Tx.Errors.{Result, ok, err}
use codex_a2a_gateway.Client.Setup.{ClientSetup, ClientStore, ClientRow}
use codex_a2a_gateway.Client.Delivery.{claim_delivery}
use codex_a2a_gateway.Client.Onward.{Onward}
use codex_a2a_gateway.Client.Onward.Deliveries.{claim_delivery-Onward, finish_delivery-Onward}
use codex_a2a_gateway.Client.Onward.Histories.{client_run-Onward}
use codex_a2a_gateway.Client.Enqueued.{
  IsBegun, begun-not-IsUndelivered, IsBegun-Onward, Begins, claim_delivery-Begins,
}
use codex_a2a_gateway.Bridge.Jobs.{
  Sent, QueueAnswer, accepted, absent, unsupported, outcome_unknown, World, Around, give, call,
  stepped, canceled, ask_queue, continue_job, ◌>>=◌,
}
use codex_a2a_gateway.Bridge.Deliveries.{
  was_reconciled, after_reconcile, reconcile_delivery, after_enqueue, deliver_claimed,
  claim_and_deliver, deliver_operation, deliver_ready,
}
use codex_a2a_gateway.Bridge.Once.{enqueues, IsOnce}
use codex_a2a_gateway.Bridge.Once.Rules.{
  Keeps, moved-IsOnce, Keeps-give, Keeps-throw, Keeps-look, Keeps-call, Keeps-ask_queue,
  Keeps-note_reconciled, Keeps-then, Keeps-if, Keeps-for_each,
}
use codex_a2a_gateway.Bridge.Once.Exchange.{read_row-Onward}

module _ (P : ClientSetup) where
  enqueued-IsOnce :
      (o : ℕ) (thread : String) (delivery : Option ℕ) (result : Option String) (w : World P)
      → ¬ In o (enqueues w.sent)
      → IsBegun o w.store
      → IsOnce w
      → IsOnce {P = P} (record w { sent = Sent.enqueue o thread delivery result ∷ w.sent })
  enqueued-IsOnce o thread delivery result w fresh begun i = record {
    enqueued = (fresh, i.enqueued);
    begun = λ p m. elim m [
      | inl e ↦ subst (λ x. IsBegun x w.store) (sym e) begun
      | inr m' ↦ i.begun p m'
    ];
    canceled = i.canceled;
    asked = i.asked;
  }

  after_reconcile-Keeps : (o : ℕ) (a : QueueAnswer) → Keeps (after_reconcile P o a)
  unfolding after_reconcile
  after_reconcile-Keeps o (accepted queue) =
      Keeps-if (same queue "") _ _ (Keeps-give tt)
        (Keeps-call _ (λ t l. finish_delivery-Onward P t l o _ _))
  after_reconcile-Keeps o QueueAnswer.dropped = Keeps-throw canceled
  after_reconcile-Keeps o absent = Keeps-give tt
  after_reconcile-Keeps o unsupported = Keeps-give tt
  after_reconcile-Keeps o outcome_unknown = Keeps-give tt

  reconcile_delivery-Keeps :
      (supported : Bool) (row : ClientRow P) → Keeps (reconcile_delivery P supported row)
  unfolding reconcile_delivery
  reconcile_delivery-Keeps supported row =
      Keeps-then _ _ (Keeps-note_reconciled row.operation_id) (λ _.
        Keeps-if _ _ _
          (Keeps-then _ _ (Keeps-ask_queue _ tt) (λ a. after_reconcile-Keeps row.operation_id a))
          (Keeps-give tt))

  after_enqueue-Keeps : (o : ℕ) (a : QueueAnswer) → Keeps (after_enqueue P o a)
  unfolding after_enqueue
  after_enqueue-Keeps o (accepted queue) = Keeps-call _ (λ t l. finish_delivery-Onward P t l o _ _)
  after_enqueue-Keeps o absent = Keeps-call _ (λ t l. finish_delivery-Onward P t l o _ _)
  after_enqueue-Keeps o QueueAnswer.dropped = Keeps-throw canceled
  after_enqueue-Keeps o unsupported = Keeps-call _ (λ t l. finish_delivery-Onward P t l o _ _)
  after_enqueue-Keeps o outcome_unknown =
      Keeps-then _ _ (Keeps-call _ (λ t l. finish_delivery-Onward P t l o _ _))
        (λ _. Keeps-note_reconciled o)

  -- A row that `claim_delivery` took from the ledger `l`, with a log that stood beside `l`.
  deliver_claimed-IsOnce :
      (supported : Bool) (row : ClientRow P) (σ : Around P.Value) (w : World P)
      → ¬ In row.operation_id (enqueues w.sent)
      → IsBegun row.operation_id w.store
      → IsOnce w
      → IsOnce (deliver_claimed P supported (some row) σ w).1
  unfolding deliver_claimed ask_queue ◌>>=◌
  deliver_claimed-IsOnce true row σ w fresh begun i =
      let others = client_run-Onward P (σ.others w.steps) w.store in
      let o = row.operation_id in
      (after_enqueue-Keeps o (σ.queue w.steps)).at σ _ (
        enqueued-IsOnce o row.thread_id row.delivery_id _ _ fresh
          (IsBegun-Onward o w.store _ others begun)
          (moved-IsOnce w _ w.reconciled (suc w.steps) others i))
  deliver_claimed-IsOnce false row σ w fresh begun i =
      (Keeps-call _ (λ t l. finish_delivery-Onward P t l row.operation_id _ _)).at σ w i

  claimed-IsOnce :
      (supported : Bool) (r : Result (Option (ClientRow P))) (σ : Around P.Value) (w : World P)
      (u : ClientStore P)
      → Onward w.store u
      → ((claimed : Option (ClientRow P)) → r ≡ ok claimed → Begins w.store claimed u)
      → IsOnce w
      → IsOnce (continue_job σ (deliver_claimed P supported) (stepped w (r, u))).1
  unfolding deliver_claimed give
  claimed-IsOnce supported (err e) σ w u onward h i =
      moved-IsOnce w u w.reconciled (suc w.steps) onward i
  claimed-IsOnce supported (ok none) σ w u onward h i =
      moved-IsOnce w u w.reconciled (suc w.steps) onward i
  claimed-IsOnce supported (ok (some row)) σ w u onward h i =
      let begins = h (some row) refl in
      deliver_claimed-IsOnce supported row σ _
        (λ m.
          begun-not-IsUndelivered row.operation_id w.store (i.begun row.operation_id m) begins.0)
        begins.1 (moved-IsOnce w u w.reconciled (suc w.steps) onward i)

  claim_and_deliver-Keeps : (supported : Bool) (o : ℕ) → Keeps (claim_and_deliver P supported o)
  unfolding claim_and_deliver call ◌>>=◌
  claim_and_deliver-Keeps supported o = record {
    at = λ σ w i.
        let t = σ.tape w.steps in
        claimed-IsOnce supported (claim_delivery P o t w.store).0 σ w
          (claim_delivery P o t w.store).1 (claim_delivery-Onward P t w.store o)
          (λ claimed e. claim_delivery-Begins P o t w.store claimed e) i;
  }

  was_reconciled-Keeps : (o : ℕ) → Keeps (was_reconciled P o)
  unfolding was_reconciled
  was_reconciled-Keeps o = record { at = λ σ w i. i }

  pub deliver_ready-Keeps : (supported : Bool) → Keeps (deliver_ready P supported)
  unfolding deliver_ready deliver_operation
  deliver_ready-Keeps supported = Keeps-then _ _ (Keeps-look _) (λ operations.
      Keeps-for_each _ operations (λ o.
        Keeps-then _ _ (Keeps-call _ (λ t l. read_row-Onward P o none t l)) (λ row.
          Keeps-then _ _ (was_reconciled-Keeps o) (λ seen.
            Keeps-if _ _ _ (reconcile_delivery-Keeps supported row)
              (claim_and_deliver-Keeps supported o)))))

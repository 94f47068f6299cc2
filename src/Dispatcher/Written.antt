-- ===== src/Dispatcher/Written.antt =====
-- A job changes the ledger by the writes of the specification alone, with one rule for each way to
-- build a job (hermes_a2a_gateway/broker.py).
use codex_a2a_gateway.Base.{ℕ, suc, ◌≡◌, refl, Bool, true, false, if◌then◌else◌}
use codex_a2a_gateway.Tx.Errors.{Result, ok, err}
use codex_a2a_gateway.Tx.{Tape}
use codex_a2a_gateway.Broker.Setup.{Setup}
use codex_a2a_gateway.Broker.Snapshots.{Store}
use codex_a2a_gateway.Broker.Spec.{Writes, nothing, Writes-trans}
use codex_a2a_gateway.Broker.Refines.Histories.{run-Writes}
use codex_a2a_gateway.Dispatcher.Jobs.{
  Surroundings, World, Job, give, ask, answered, and_then, continue_job,
}

module _ (P : Setup) {A : Type 0} where
  pub record Written (m : Job P A) : Type 0 where
    pub at : (σ : Surroundings) (w : World P) → Writes P w.store (m σ w).1.store

  pub Written-give : (a : A) → Written (give a)
  unfolding give
  Written-give a = record { at = λ σ w. nothing }

  pub Written-if : (b : Bool) (m n : Job P A) → Written m → Written n → Written (if b then m else n)
  Written-if true m n h k = h
  Written-if false m n h k = k

  answered-Written :
      (l : Store P) (n : ℕ) (r : Result A × Store P)
      → Writes P l r.1
      → Writes P l (answered {P = P} n r).1.store
  answered-Written l n (r, u) w = w

  -- A call after those of others.
  pub Written-ask :
      (f : Tape → Store P → Result A × Store P)
      → ((t : Tape) (l : Store P) → Writes P l (f t l).1)
      → Written (ask f)
  unfolding ask
  Written-ask f h = record {
    at = λ σ w.
        answered-Written w.store (suc w.calls) (f _ _)
          (Writes-trans (run-Writes P (σ.others w.calls) w.store) (h _ _));
  }

module _ (P : Setup) {A B : Type 0} where
  continue-Written :
      (l : Store P) (σ : Surroundings) (f : A → Job P B) (r : Result A × World P)
      → Writes P l r.1.store
      → ((a : A) → Written P (f a))
      → Writes P l (continue_job σ f r).1.store
  continue-Written l σ f (ok a, w) h k = Writes-trans h ((k a).at σ w)
  continue-Written l σ f (err e, w) h k = h

  pub Written-then :
      (m : Job P A) (f : A → Job P B)
      → Written P m
      → ((a : A) → Written P (f a))
      → Written P (and_then m f)
  unfolding and_then
  Written-then m f h k = record { at = λ σ w. continue-Written w.store σ f (m σ w) (h.at σ w) k }

  -- A sequence of two jobs that returns is a return of the first, and then the second.
  pub record Continued (m : Job P A) (f : A → Job P B) (σ : Surroundings) (w : World P) (b : B)
      : Type 0 where
    pub value : A
    pub first : (m σ w).0 ≡ ok value
    pub second : (f value σ (m σ w).1).0 ≡ ok b
    pub same_end : (and_then m f σ w).1 ≡ (f value σ (m σ w).1).1

  continued :
      (σ : Surroundings) (f : A → Job P B) (r : Result A × World P) (b : B)
      → (continue_job σ f r).0 ≡ ok b
      → (a : A) × (r.0 ≡ ok a) × ((f a σ r.1).0 ≡ ok b) × ((continue_job σ f r).1 ≡ (f a σ r.1).1)
  continued σ f (ok a, w) b h = (a, refl, h, refl)
  continued σ f (err e, w) b h = cc

  pub and_then-Continued :
      (m : Job P A) (f : A → Job P B) (σ : Surroundings) (w : World P) (b : B)
      → (and_then m f σ w).0 ≡ ok b
      → Continued m f σ w b
  unfolding and_then
  and_then-Continued m f σ w b h =
      let (a, first, second, same_end) = continued σ f (m σ w) b h in
      record { value = a; first = first; second = second; same_end = same_end }

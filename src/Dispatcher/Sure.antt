-- ===== src/Dispatcher/Sure.antt =====
-- Postconditions of jobs, with one rule for each way to build a job.
use codex_a2a_gateway.Base.{ℕ, suc, ◌≡◌, refl, Bool, true, false, if◌then◌else◌}
use codex_a2a_gateway.Tx.Errors.{Error, Result, ok, err}
use codex_a2a_gateway.Tx.{Tape}
use codex_a2a_gateway.Broker.Setup.{Setup}
use codex_a2a_gateway.Broker.Snapshots.{Store}
use codex_a2a_gateway.Broker.Calls.{run}
use codex_a2a_gateway.Dispatcher.Jobs.{
  Surroundings, World, Job, give, fail, ask, answered, tried, reified, and_then, continue_job,
}

-- What is known of a returned value when the exception is a value too.
abbrev pub OnOk : {S A : Type 0} → (A → S → Type 0) → Result A → S → Type 0
OnOk Q (ok a) l = Q a l
OnOk Q (err e) l = Unit {0}

module _ (P : Setup) {A : Type 0} where
  abbrev pub Returns : (A → Store P → Type 0) → Result A × World P → Type 0
  Returns Q (ok a, w) = Q a w.store
  Returns Q (err e, w) = Unit {0}

  -- Every normal return of the job, whatever surrounds it, satisfies `Q`.
  pub record Sure (m : Job P A) (Q : A → Store P → Type 0) : Type 0 where
    pub at : (σ : Surroundings) (w : World P) → Returns Q (m σ w)

module _ (P : Setup) {A : Type 0} where
  Returns-answered :
      (Q : A → Store P → Type 0) (n : ℕ) (r : Result A × Store P)
      → ((a : A) → r.0 ≡ ok a → Q a r.1)
      → Returns P Q (answered {P = P} n r)
  Returns-answered Q n (ok a, l) h = h a refl
  Returns-answered Q n (err e, l) h = tt

module _ {P : Setup} {A : Type 0} {Q : A → Store P → Type 0} where
  pub Sure-fail : (e : Error) → Sure P (fail {P = P} e) Q
  unfolding fail
  Sure-fail e = record { at = λ σ w. tt }

  pub Sure-give : (a : A) → ((l : Store P) → Q a l) → Sure P (give {P = P} a) Q
  unfolding give
  Sure-give a q = record { at = λ σ w. q w.store }

  pub Sure-ask :
      (f : Tape → Store P → Result A × Store P)
      → ((t : Tape) (l : Store P) (a : A) → (f t l).0 ≡ ok a → Q a (f t l).1)
      → Sure P (ask f) Q
  unfolding ask
  Sure-ask f h = record {
    at = λ σ w.
        Returns-answered P Q (suc w.calls) (f (σ.tape w.calls) (run P (σ.others w.calls) w.store))
          (h _ _);
  }

  pub Sure-if :
      (b : Bool) (m n : Job P A)
      → (b ≡ true → Sure P m Q)
      → (b ≡ false → Sure P n Q)
      → Sure P (if b then m else n) Q
  Sure-if true m n f g = f refl
  Sure-if false m n f g = g refl

module _ {P : Setup} {A : Type 0} where
  Returns-any : (r : Result A × World P) → Returns P (λ _ _. Unit) r
  Returns-any (ok a, w) = tt
  Returns-any (err e, w) = tt

  pub Sure-any : (m : Job P A) → Sure P m (λ _ _. Unit)
  Sure-any m = record { at = λ σ w. Returns-any (m σ w) }

  Returns-reified :
      (Q : A → Store P → Type 0) (r : Result A × World P)
      → Returns P Q r
      → Returns P (OnOk Q) (reified r)
  Returns-reified Q (ok a, w) h = h
  Returns-reified Q (err e, w) h = tt

  pub Sure-tried : {Q : A → Store P → Type 0} (m : Job P A) → Sure P m Q → Sure P (tried m) (OnOk Q)
  unfolding tried
  Sure-tried {Q} m h = record { at = λ σ w. Returns-reified Q (m σ w) (h.at σ w) }

module _ {P : Setup} {A B : Type 0} where
  -- The value of the first job, and what is known of it and of the ledger at that moment.
  pub record SureAfter (R : A → Store P → Type 0) (f : A → Job P B) (Q : B → Store P → Type 0)
      : Type 0 where
    pub at : (a : A) (σ : Surroundings) (w : World P) → R a w.store → Returns P Q (f a σ w)

  Returns-continue :
      (R : A → Store P → Type 0) (Q : B → Store P → Type 0) (σ : Surroundings) (f : A → Job P B)
      (r : Result A × World P)
      → Returns P R r
      → SureAfter R f Q
      → Returns P Q (continue_job σ f r)
  Returns-continue R Q σ f (ok a, w) h k = k.at a σ w h
  Returns-continue R Q σ f (err e, w) h k = tt

  pub Sure-after :
      {Q : B → Store P → Type 0} (R : A → Store P → Type 0) (m : Job P A) (f : A → Job P B)
      → Sure P m R
      → SureAfter R f Q
      → Sure P (and_then m f) Q
  unfolding and_then
  Sure-after {Q} R m f h k = record { at = λ σ w. Returns-continue R Q σ f (m σ w) (h.at σ w) k }

  -- Nothing is needed of the first job.
  pub Sure-then :
      {Q : B → Store P → Type 0} (m : Job P A) (f : A → Job P B)
      → ((a : A) → Sure P (f a) Q)
      → Sure P (and_then m f) Q
  Sure-then m f h =
      Sure-after (λ _ _. Unit) m f (Sure-any m) (record { at = λ a σ w _. (h a).at σ w })

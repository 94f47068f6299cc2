-- ===== src/Tx/Reads.antt =====
-- Bodies that write nothing: they may read the clock and draw random values, and no more.
use codex_a2a_gateway.Base.{ℕ, ◌≡◌, refl, sym, ◌∙◌, subst, Bool, true, false, Option, if◌then◌else◌}
use codex_a2a_gateway.Tx.Errors.{Error, Result, ok, err}
use codex_a2a_gateway.Tx.{
  Tape, Session, Tx, pure, raise, gets, or_raise, utcnow, draw, require, ◌>>=◌, attempt, caught,
}
use codex_a2a_gateway.Tx.Ensures.{
  Ensures, Holds, Ensures-pure, Ensures-raise, Ensures-gets, Ensures-or_raise, Ensures-require,
  Ensures-utcnow, Ensures-draw, Ensures-bind, Ensures-weaken,
}

pub record Reads {S A : Type 0} (m : Tx S A) : Type 0 where
  pub at : (t : Tape) (s : Session S) → Ensures m t s (λ _ u. u ≡ s.store)

module _ {S A : Type 0} where
  pub Reads-pure : (a : A) → Reads (pure {S = S} a)
  Reads-pure a = record { at = λ t s. Ensures-pure a refl }

  pub Reads-raise : (e : Error) → Reads (raise {S = S} {A = A} e)
  Reads-raise e = record { at = λ t s. Ensures-raise e }

  pub Reads-gets : (f : S → A) → Reads (gets f)
  Reads-gets f = record { at = λ t s. Ensures-gets f refl }

  pub Reads-or_raise : (e : Error) (o : Option A) → Reads (or_raise {S = S} e o)
  Reads-or_raise e o = record { at = λ t s. Ensures-or_raise e o (λ a _. refl) }

  pub Reads-if : (b : Bool) (m n : Tx S A) → Reads m → Reads n → Reads (if b then m else n)
  Reads-if true m n f g = f
  Reads-if false m n f g = g

  caught-Reads :
      (s : Session S) (r : Result (A × Session S))
      → Holds (λ _ u. u ≡ s.store) r
      → Holds (λ _ u. u ≡ s.store) (caught s r)
  caught-Reads s (ok (a, u)) h = h
  caught-Reads s (err (Error.broker e)) h = refl
  caught-Reads s (err _) h = tt

  pub Reads-attempt : (m : Tx S A) → Reads m → Reads (attempt m)
  unfolding attempt
  Reads-attempt m r = record { at = λ t s. record { at = caught-Reads s (m t s) (r.at t s).at } }

module _ {S : Type 0} where
  pub Reads-require : (b : Bool) (e : Error) → Reads (require {S = S} b e)
  Reads-require b e = record { at = λ t s. Ensures-require b e (λ _. refl) }

  pub Reads-utcnow : Reads (utcnow {S = S})
  Reads-utcnow = record { at = λ t s. Ensures-utcnow (λ n. refl) }

  pub Reads-draw : Reads (draw {S = S})
  Reads-draw = record { at = λ t s. Ensures-draw (λ n. refl) }

module _ {S A B : Type 0} where
  pub Reads-bind :
      (m : Tx S A) (f : A → Tx S B) → Reads m → ((a : A) → Reads (f a)) → Reads (m >>= f)
  Reads-bind m f r k = record {
    at = λ t s.
        Ensures-bind (λ _ u. u ≡ s.store) m f (r.at t s)
          λ a u e. Ensures-weaken (λ _ v. v ≡ u.store) (f a) (λ _ v e'. e' ∙ e) ((k a).at t u);
  }

  pub ruleset reads_rules = (
    Reads-pure, Reads-raise, Reads-gets, Reads-or_raise, Reads-if, Reads-require, Reads-utcnow,
    Reads-draw, Reads-bind,
  )

module _ {S A : Type 0} {t : Tape} {s : Session S} where
  -- What holds of the store before a body that only reads holds after it.
  pub Reads-keeps : (Q : S → Type 0) (m : Tx S A) → Reads m → Q s.store → Ensures m t s (λ _ u. Q u)
  Reads-keeps Q m r q =
      Ensures-weaken (λ _ u. u ≡ s.store) m (λ _ u e. subst Q (sym e) q) (r.at t s)

  -- A block that begins with such a body goes on from the same store.
  pub bind_reads :
      {B : Type 0} {Q : B → S → Type 0} (m : Tx S A) (f : A → Tx S B)
      → Reads m
      → ((a : A) (n k : ℕ) → Ensures (f a) t (record s { reads = n; draws = k }) Q)
      → Ensures (m >>= f) t s Q
  bind_reads {B} {Q} m f r k =
      Ensures-bind (λ _ u. u ≡ s.store) m f (r.at t s)
        λ a u e.
          subst (λ v. Ensures (f a) t (record { store = v; reads = u.reads; draws = u.draws }) Q)
            (sym e) (k a u.reads u.draws)

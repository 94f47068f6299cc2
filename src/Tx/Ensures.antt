-- ===== src/Tx/Ensures.antt =====
-- Postconditions of transaction bodies, with one rule for each way to build a body.
use codex_a2a_gateway.Base.{
  ℕ, ◌≡◌, refl, subst, Bool, true, false, Option, none, some, if◌then◌else◌,
}
use codex_a2a_gateway.Tx.Errors.{Result, ok, err, Error}
use codex_a2a_gateway.Tx.{
  Tape, Session, Tx, pure, raise, gets, or_raise, modify, utcnow, draw, require, ◌>>=◌, resume,
  commit, transaction,
}

module _ {S A : Type 0} where
  -- A body that raises leaves nothing behind.
  abbrev pub Holds : (A → S → Type 0) → Result (A × Session S) → Type 0
  Holds Q (ok (a, s)) = Q a s.store
  Holds Q (err e) = Unit {0}

  -- Every normal return of `m` from `s` satisfies `Q`.
  pub record Ensures (m : Tx S A) (t : Tape) (s : Session S) (Q : A → S → Type 0) : Type 0 where
    pub at : Holds Q (m t s)

module _ {S A : Type 0} {Q : A → S → Type 0} {t : Tape} {s : Session S} where
  pub Ensures-pure : (a : A) → Q a s.store → Ensures (pure a) t s Q
  unfolding pure
  Ensures-pure a q = record { at = q }

  pub Ensures-raise : (e : Error) → Ensures (raise e) t s Q
  unfolding raise
  Ensures-raise e = record { at = tt }

  pub Ensures-gets : (f : S → A) → Q (f s.store) s.store → Ensures (gets f) t s Q
  unfolding gets
  Ensures-gets f q = record { at = q }

  pub Ensures-or_raise :
      (e : Error) (o : Option A)
      → ((a : A) → o ≡ some a → Q a s.store)
      → Ensures (or_raise e o) t s Q
  unfolding or_raise
  Ensures-or_raise e none q = record { at = tt }
  Ensures-or_raise e (some a) q = record { at = q a refl }

  pub Ensures-if :
      (b : Bool) (m n : Tx S A)
      → (b ≡ true → Ensures m t s Q)
      → (b ≡ false → Ensures n t s Q)
      → Ensures (if b then m else n) t s Q
  Ensures-if true m n f g = f refl
  Ensures-if false m n f g = g refl

module _ {S : Type 0} {t : Tape} {s : Session S} where
  pub Ensures-modify :
      {Q : Unit {0} → S → Type 0} (f : S → S) → Q tt (f s.store) → Ensures (modify f) t s Q
  unfolding modify
  Ensures-modify f q = record { at = q }

  pub Ensures-require :
      {Q : Unit {0} → S → Type 0} (b : Bool) (e : Error)
      → (b ≡ true → Q tt s.store)
      → Ensures (require b e) t s Q
  unfolding require
  Ensures-require true e q = record { at = q refl }
  Ensures-require false e q = record { at = tt }

  pub Ensures-utcnow : {Q : ℕ → S → Type 0} → ((n : ℕ) → Q n s.store) → Ensures utcnow t s Q
  unfolding utcnow
  Ensures-utcnow q = record { at = q _ }

  pub Ensures-draw : {Q : ℕ → S → Type 0} → ((n : ℕ) → Q n s.store) → Ensures draw t s Q
  unfolding draw
  Ensures-draw q = record { at = q _ }

module _ {S A B : Type 0} {t : Tape} where
  Holds-bind :
      (R : A → S → Type 0) (Q : B → S → Type 0) (f : A → Tx S B) (r : Result (A × Session S))
      → Holds R r
      → ((a : A) (u : Session S) → R a u.store → Ensures (f a) t u Q)
      → Holds Q (resume t f r)
  Holds-bind R Q f (ok (a, u)) h k = (k a u h).at
  Holds-bind R Q f (err e) h k = tt

  pub Ensures-bind :
      {s : Session S} {Q : B → S → Type 0} (R : A → S → Type 0) (m : Tx S A) (f : A → Tx S B)
      → Ensures m t s R
      → ((a : A) (u : Session S) → R a u.store → Ensures (f a) t u Q)
      → Ensures (m >>= f) t s Q
  unfolding ◌>>=◌
  Ensures-bind {s} {Q} R m f h k = record { at = Holds-bind R Q f (m t s) h.at k }

module _ {S A : Type 0} where
  Holds-weaken :
      (R Q : A → S → Type 0) (r : Result (A × Session S))
      → ((a : A) (u : S) → R a u → Q a u)
      → Holds R r
      → Holds Q r
  Holds-weaken R Q (ok (a, u)) k h = k a u.store h
  Holds-weaken R Q (err e) k h = tt

  pub Ensures-weaken :
      {t : Tape} {s : Session S} {Q : A → S → Type 0} (R : A → S → Type 0) (m : Tx S A)
      → ((a : A) (u : S) → R a u → Q a u)
      → Ensures m t s R
      → Ensures m t s Q
  Ensures-weaken {t} {s} {Q} R m k h = record { at = Holds-weaken R Q (m t s) k h.at }

module _ {S A : Type 0} where
  -- A relation that holds of the body's stores, and of equal ones, holds of the transaction's.
  pub transaction_relates :
      (R : S → S → Type 0) (m : Tx S A) (t : Tape) (s : S)
      → R s s
      → ((n k : ℕ) → Ensures m t (record { store = s; reads = n; draws = k }) (λ _ u. R s u))
      → R s (transaction m t s).1
  unfolding transaction
  transaction_relates R m t s same h = committed (m t _) (h 0 0).at
    where
      committed : (r : Result (A × Session S)) → Holds (λ _ u. R s u) r → R s (commit s r).1
      committed (ok (a, u)) q = q
      committed (err e) q = same

  -- What a body ensures of its returns holds of the transaction's.
  pub transaction_returns :
      (Q : A → S → Type 0) (m : Tx S A) (t : Tape) (s : S) (a : A)
      → ((n k : ℕ) → Ensures m t (record { store = s; reads = n; draws = k }) Q)
      → (transaction m t s).0 ≡ ok a
      → Q a (transaction m t s).1
  unfolding transaction
  transaction_returns Q m t s a h e = returned (m t _) (h 0 0).at e
    where
      returned :
          (r : Result (A × Session S)) → Holds Q r → (commit s r).0 ≡ ok a → Q a (commit s r).1
      returned (ok (b, u)) q e' = subst (λ x. Q x u.store) (same_value e') q
        where
          same_value : Result.ok b ≡ ok a → b ≡ a
          same_value e'' = cc
      returned (err x) q e' = cc

module _ {S A : Type 0} where
  Holds-trivial : (r : Result (A × Session S)) → Holds (λ _ _. Unit) r
  Holds-trivial (ok (a, u)) = tt
  Holds-trivial (err e) = tt

  -- Nothing need be known of a body to ensure nothing.
  pub Ensures-trivial : (m : Tx S A) (t : Tape) (s : Session S) → Ensures m t s (λ _ _. Unit)
  Ensures-trivial m t s = record { at = Holds-trivial (m t s) }

module _ {S A : Type 0} where
  commit-unchanged :
      (s : S) (r : Result (A × Session S)) (e : Error) → (commit s r).0 ≡ err e → (commit s r).1 ≡ s
  commit-unchanged s (ok x) e h = cc
  commit-unchanged s (err e') e h = refl

  -- A transaction that raises leaves the ledger as it was.
  pub transaction_rolls_back :
      (m : Tx S A) (t : Tape) (s : S) (e : Error)
      → (transaction m t s).0 ≡ err e
      → (transaction m t s).1 ≡ s
  unfolding transaction
  transaction_rolls_back m t s =
      commit-unchanged s (m t (record { store = s; reads = 0; draws = 0 }))

-- ===== src/Tx/Rules.antt =====
-- Rules for a block that begins with one of the basic steps.
use codex_a2a_gateway.Base.{ℕ, suc, ◌≡◌, refl, Bool, true, false, Option, none, some}
use codex_a2a_gateway.Tx.Errors.{Error}
use codex_a2a_gateway.Tx.{Tape, Session, Tx, gets, or_raise, modify, utcnow, draw, require, ◌>>=◌}
use codex_a2a_gateway.Tx.Ensures.{Ensures}

module _ {S B : Type 0} {t : Tape} {s : Session S} {Q : B → S → Type 0} where
  pub bind_gets :
      {A : Type 0} (g : S → A) (f : A → Tx S B)
      → Ensures (f (g s.store)) t s Q
      → Ensures (gets g >>= f) t s Q
  unfolding gets ◌>>=◌
  bind_gets g f h = record { at = h.at }

  pub bind_or_raise :
      {A : Type 0} (e : Error) (o : Option A) (f : A → Tx S B)
      → ((a : A) → o ≡ some a → Ensures (f a) t s Q)
      → Ensures (or_raise e o >>= f) t s Q
  unfolding or_raise ◌>>=◌
  bind_or_raise e none f h = record { at = tt }
  bind_or_raise e (some a) f h = record { at = (h a refl).at }

  pub bind_require :
      (b : Bool) (e : Error) (f : Unit {0} → Tx S B)
      → (b ≡ true → Ensures (f tt) t s Q)
      → Ensures (require b e >>= f) t s Q
  unfolding require ◌>>=◌
  bind_require true e f h = record { at = (h refl).at }
  bind_require false e f h = record { at = tt }

  pub bind_modify :
      (g : S → S) (f : Unit {0} → Tx S B)
      → Ensures (f tt) t (record s { store = g s.store }) Q
      → Ensures (modify g >>= f) t s Q
  unfolding modify ◌>>=◌
  bind_modify g f h = record { at = h.at }

  pub bind_utcnow :
      (f : ℕ → Tx S B)
      → ((n : ℕ) → Ensures (f n) t (record s { reads = suc s.reads }) Q)
      → Ensures (utcnow >>= f) t s Q
  unfolding utcnow ◌>>=◌
  bind_utcnow f h = record { at = (h _).at }

  pub bind_draw :
      (f : ℕ → Tx S B)
      → ((n : ℕ) → Ensures (f n) t (record s { draws = suc s.draws }) Q)
      → Ensures (draw >>= f) t s Q
  unfolding draw ◌>>=◌
  bind_draw f h = record { at = (h _).at }

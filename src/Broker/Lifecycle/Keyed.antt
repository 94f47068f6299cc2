-- ===== src/Broker/Lifecycle/Keyed.antt =====
-- Rows by their primary key, under an UPDATE or an INSERT.
use mathlib.Core.Option
use codex_a2a_gateway.Base.{
  ℕ, String, ◌≡◌, refl, Bool, true, false, ◌&&◌, Option, some, List, [], ◌∷◌, arith, same, eq_iff,
  ◌==◌, if◌then◌else◌, Bool-cases, inl, inr, select_one, update, insert, select_one-update_same,
  select_one-update_other, select_one-insert,
}
use codex_a2a_gateway.Broker.Model.{Operation}
use codex_a2a_gateway.Broker.Rows.{of_operation}

-- The test that two keys are the same.
abbrev pub same_key : String → ℕ → String → ℕ → Bool
same_key d o e p = same d e && (o == p)

pub same_key-eq : (d e : String) (o p : ℕ) → same_key d o e p ≡ true → (d ≡ e) × (o ≡ p)
same_key-eq d e o p h = ground (arith, eq_iff d e)

module _ {Token : Type 0} where
  abbrev pub find : String → ℕ → List (Operation Token) → Option (Operation Token)
  find d o rows = select_one (of_operation d o) rows

  -- A change of a row that leaves its primary key alone.
  pub record KeepsKey (f : Operation Token → Operation Token) : Type 0 where
    pub device : (r : Operation Token) → (f r).device_id ≡ r.device_id
    pub operation : (r : Operation Token) → (f r).operation_id ≡ r.operation_id

  pub KeepsKey-of_operation :
      (f : Operation Token → Operation Token)
      → KeepsKey f
      → (d : String) (o : ℕ) (r : Operation Token) → of_operation d o (f r) ≡ of_operation d o r
  unfolding of_operation
  KeepsKey-of_operation f k d o r = rw (k.device r, k.operation r)

  same_key-agree :
      (d e : String) (o p : ℕ) (r : Operation Token)
      → same_key d o e p ≡ true
      → of_operation d o r ≡ of_operation e p r
  unfolding of_operation
  same_key-agree d e o p r h =
      ground (arith, eq_iff d e, eq_iff r.device_id d, eq_iff r.device_id e)

  same_key-apart :
      (d e : String) (o p : ℕ) (r : Operation Token)
      → same_key d o e p ≡ false
      → of_operation e p r ≡ true
      → of_operation d o r ≡ false
  unfolding of_operation
  same_key-apart d e o p r h m =
      ground (arith, eq_iff d e, eq_iff r.device_id d, eq_iff r.device_id e)

  -- An UPDATE of the row of one key, read by another.
  pub find-update :
      (d e : String) (o p : ℕ) (f : Operation Token → Operation Token)
      → KeepsKey f
      → (rows : List (Operation Token))
      → find e p (update (of_operation d o) f rows)
        ≡ (if same_key d o e p then Option.map f (find e p rows) else find e p rows)
  find-update d e o p f k rows = elim (Bool-cases (same_key d o e p)) [
    | inl hit ↦ rw hit (
        select_one-update_same (of_operation e p) (of_operation d o) f
          (KeepsKey-of_operation f k e p) (λ r. same_key-agree d e o p r hit) rows)
    | inr miss ↦ rw miss (
        select_one-update_other (of_operation e p) (of_operation d o) f
          (KeepsKey-of_operation f k e p) (λ r m. same_key-apart d e o p r miss m) rows)
  ]

  -- An UPDATE under any condition.
  pub find-update_any :
      (e : String) (p : ℕ) (q : Operation Token → Bool) (f : Operation Token → Operation Token)
      → KeepsKey f
      → (rows : List (Operation Token))
      → find e p (update q f rows) ≡ Option.map (λ r. if q r then f r else r) (find e p rows)
  unfolding select_one update
  find-update_any e p q f k [] = refl
  find-update_any e p q f k (r ∷ rows) =
      ground (arith, KeepsKey-of_operation f k e p r, find-update_any e p q f k rows)

  -- An INSERT hides no row.
  pub find-insert :
      (e : String) (p : ℕ) (r row : Operation Token) (rows : List (Operation Token))
      → find e p rows ≡ some row
      → find e p (insert r rows) ≡ some row
  find-insert e p r row rows h = rw (select_one-insert (of_operation e p) r rows, h) refl

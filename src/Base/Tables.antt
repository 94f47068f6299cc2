-- ===== src/Base/Tables.antt =====
-- SQL tables as lists of rows, and the four statements over them. A condition is a Boolean test
-- of a row. `SELECT ... LIMIT 1` without an order takes the first row that fits.
use Prim.Native.Nat.{ℕ, ◌+◌}
use mathlib.Core.Path.{◌≡◌, refl, sym, subst}
use mathlib.Core.Logic.{◌⊎◌, inl, inr}
use mathlib.Core.Bool.{Bool, true, false}
use mathlib.Core.Option.{Option, none, some}
use mathlib.Core.Option
use mathlib.Core.List.{List, [], ◌∷◌, ◌++◌}
use native.Mathlib.Omega.{arith}
use codex_a2a_gateway.Base.Tests.{if◌then◌else◌}
use codex_a2a_gateway.Base.Lists.{All}

module _ {ℓ} {R : Type ℓ} where
  -- SELECT * FROM t WHERE p, one row.
  unfoldable pub select_one : (R → Bool) → List R → Option R
  select_one p [] = none
  select_one p (r ∷ rows) = let rest = select_one p rows in if p r then some r else rest

  -- SELECT * FROM t WHERE p.
  unfoldable pub select : (R → Bool) → List R → List R
  select p [] = []
  select p (r ∷ rows) = let rest = select p rows in if p r then r ∷ rest else rest

  -- SELECT count(*) FROM t WHERE p.
  unfoldable pub select_count : (R → Bool) → List R → ℕ
  select_count p [] = 0
  select_count p (r ∷ rows) = (if p r then 1 else 0) + select_count p rows

  -- UPDATE t SET f WHERE p.
  unfoldable pub update : (R → Bool) → (R → R) → List R → List R
  update p f [] = []
  update p f (r ∷ rows) = (if p r then f r else r) ∷ update p f rows

  -- DELETE FROM t WHERE p.
  unfoldable pub delete : (R → Bool) → List R → List R
  delete p [] = []
  delete p (r ∷ rows) = let rest = delete p rows in if p r then rest else r ∷ rest

  -- INSERT INTO t VALUES r.
  abbrev pub insert : R → List R → List R
  insert r rows = rows ++ r ∷ []

  -- The first row of the order `before`, as ORDER BY ... LIMIT 1 does.
  unfoldable pub select_first : (R → R → Bool) → List R → Option R
  select_first before [] = none
  select_first before (r ∷ rows) = elim (select_first before rows) [
    | none ↦ some r
    | some best ↦ if before best r then some best else some r
  ]

  pub select_one-insert :
      (p : R → Bool) (r : R) (rows : List R)
      → select_one p (insert r rows)
        ≡ elim (select_one p rows) [ none ↦ (if p r then some r else none) | some x ↦ some x ]
  unfolding select_one
  select_one-insert p r [] = refl
  select_one-insert p r (x ∷ rows) = ground (arith, select_one-insert p r rows)

  pub select_one-holds :
      (p : R → Bool) (rows : List R) {r : R} → select_one p rows ≡ some r → p r ≡ true
  unfolding select_one
  select_one-holds p [] h = ground arith
  select_one-holds p (x ∷ rows) {r} h = ground (arith, select_one-holds p rows {r = r})

-- Writes that leave the tested columns alone, and two tests that agree or exclude one another.
module _ {ℓ} {R : Type ℓ} (p q : R → Bool) (f : R → R) (keeps : (r : R) → p (f r) ≡ p r) where
  pub select_one-update_same :
      ((r : R) → q r ≡ p r)
      → (rows : List R) → select_one p (update q f rows) ≡ Option.map f (select_one p rows)
  unfolding select_one update
  select_one-update_same agree [] = refl
  select_one-update_same agree (r ∷ rows) =
      ground (arith, keeps r, agree r, select_one-update_same agree rows)

  pub select_one-update_other :
      ((r : R) → p r ≡ true → q r ≡ false)
      → (rows : List R) → select_one p (update q f rows) ≡ select_one p rows
  unfolding select_one update
  select_one-update_other apart [] = refl
  select_one-update_other apart (r ∷ rows) =
      ground (arith, keeps r, apart r, select_one-update_other apart rows)

-- Rows of a table, and the rows that a query returns.
module _ {R : Type 0} where
  abbrev pub In : R → List R → Type 0
  In r [] = ⊥
  In r (x ∷ rows) = (r ≡ x) ⊎ In r rows

  pub In-select :
      (p : R → Bool) (rows : List R) (r : R) → In r (select p rows) → In r rows × (p r ≡ true)
  unfolding select
  In-select p [] r h = elim h [ ]
  In-select p (x ∷ rows) r h = ground (arith, In-select p rows r)

  pub In-select_first :
      (before : R → R → Bool) (rows : List R) (r : R)
      → select_first before rows ≡ some r
      → In r rows
  unfolding select_first
  In-select_first before [] r h = ground arith
  In-select_first before (x ∷ rows) r h = ground (arith, In-select_first before rows r)

  -- The chosen row is a row of the table that fits.
  pub In-first_selected :
      (before : R → R → Bool) (p : R → Bool) (rows : List R) (r : R)
      → select_first before (select p rows) ≡ some r
      → In r rows × (p r ≡ true)
  In-first_selected before p rows r h = In-select p rows r (In-select_first before _ r h)

-- What holds of every row.
module _ {R : Type 0} (P : R → Type 0) where
  pub All-insert : (rows : List R) (row : R) → All P rows → P row → All P (insert row rows)
  All-insert [] row a h = (h, tt)
  All-insert (x ∷ rows) row a h = (a.0, All-insert rows row a.1 h)

  keep-or-drop :
      (b : Bool) (x : R) (rest : List R) → P x → All P rest → All P (if b then rest else x ∷ rest)
  keep-or-drop true x rest h a = a
  keep-or-drop false x rest h a = (h, a)

  pub All-delete : (p : R → Bool) (rows : List R) → All P rows → All P (delete p rows)
  unfolding delete
  All-delete p [] a = tt
  All-delete p (x ∷ rows) a = keep-or-drop (p x) x (delete p rows) a.0 (All-delete p rows a.1)

  pub All-In : (rows : List R) (row : R) → All P rows → In row rows → P row
  All-In [] row a m = elim m [ ]
  All-In (x ∷ rows) row a (inl here) = subst P (sym here) a.0
  All-In (x ∷ rows) row a (inr later) = All-In rows row a.1 later

pub In-select_one :
    {R : Type 0} (p : R → Bool) (rows : List R) (row : R)
    → select_one p rows ≡ some row
    → In row rows
unfolding select_one
In-select_one p [] row h = ground arith
In-select_one p (x ∷ rows) row h = ground (arith, In-select_one p rows row)

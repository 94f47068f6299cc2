-- ===== src/Client/Onward/Rows.antt =====
-- The statements of the client's ledger move its rows onward.
use mathlib.Core.Option
use codex_a2a_gateway.Base.{
  ℕ, ◌≡◌, refl, sym, subst, Bool, true, false, some, List, [], ◌∷◌, arith, Bool-cases, inl, inr,
  if◌then◌else◌, ◌==◌, select_one, update, insert, select_one-update_same, select_one-update_other,
  select_one-insert,
}
use codex_a2a_gateway.Client.Model.{ClientOperation, has_id}
use codex_a2a_gateway.Client.Onward.{ClientLater, ClientLater-refl, seek, Advances}

module _ {Token Value : Type 0} where
  -- A change that leaves the identity alone.
  pub record KeepsId (f : ClientOperation Token Value → ClientOperation Token Value) : Type 0 where
    pub id : (r : ClientOperation Token Value) → (f r).operation_id ≡ r.operation_id

  KeepsId-has_id :
      (f : ClientOperation Token Value → ClientOperation Token Value)
      → KeepsId f
      → (o : ℕ) (r : ClientOperation Token Value) → has_id o (f r) ≡ has_id o r
  unfolding has_id
  KeepsId-has_id f k o r = rw (k.id r) refl

  has_id-apart :
      (o p : ℕ) (r : ClientOperation Token Value)
      → (o == p) ≡ false
      → has_id p r ≡ true
      → has_id o r ≡ false
  unfolding has_id
  has_id-apart o p r h m = ground arith

  -- An UPDATE of one operation.
  pub update-Advances :
      (o : ℕ) (f : ClientOperation Token Value → ClientOperation Token Value)
      → KeepsId f
      → (rows : List (ClientOperation Token Value))
      → ((row : ClientOperation Token Value) → seek o rows ≡ some row → ClientLater row (f row))
      → Advances rows (update (has_id o) f rows)
  update-Advances o f k rows later p old found = elim (Bool-cases (o == p)) [
    | inl hit ↦
        let same_id : o ≡ p = ground arith in
        (
          f old,
          subst (λ x. seek p (update (has_id x) f rows) ≡ some (f old)) (sym same_id)
              (rw
                (
                  select_one-update_same (has_id p) (has_id p) f (KeepsId-has_id f k p) (λ r. refl)
                      rows,
                  found,
                )
                refl),
          later old (rw same_id found),
        )
    | inr miss ↦ (
      old,
      rw
          (select_one-update_other (has_id p) (has_id o) f (KeepsId-has_id f k p)
            (λ r m. has_id-apart o p r (ground arith) m) rows)
          found,
      ClientLater-refl old,
    )
  ]

  seek-update :
      (p : ℕ) (q : ClientOperation Token Value → Bool)
      (f : ClientOperation Token Value → ClientOperation Token Value)
      → KeepsId f
      → (rows : List (ClientOperation Token Value))
      → seek p (update q f rows) ≡ Option.map (λ r. if q r then f r else r) (seek p rows)
  unfolding select_one update
  seek-update p q f k [] = refl
  seek-update p q f k (r ∷ rows) = ground (arith, KeepsId-has_id f k p r, seek-update p q f k rows)

  -- An UPDATE under any condition.
  pub update_any-Advances :
      (q : ClientOperation Token Value → Bool)
      (f : ClientOperation Token Value → ClientOperation Token Value)
      → KeepsId f
      → (rows : List (ClientOperation Token Value))
      → ((row : ClientOperation Token Value) → q row ≡ true → ClientLater row (f row))
      → Advances rows (update q f rows)
  update_any-Advances q f k rows later p old found = (
    if q old then f old else old,
    rw (seek-update p q f k rows, found) refl,
    branch (q old) (later old),
  )
    where
      branch :
          (b : Bool)
          → (b ≡ true → ClientLater old (f old))
          → ClientLater old (if b then f old else old)
      branch true h = h refl
      branch false h = ClientLater-refl old

  -- An INSERT hides no row.
  pub insert-Advances :
      (row : ClientOperation Token Value) (rows : List (ClientOperation Token Value))
      → Advances rows (insert row rows)
  insert-Advances row rows p old found =
      (old, rw (select_one-insert (has_id p) row rows, found) refl, ClientLater-refl old)

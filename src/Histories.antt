-- ===== src/Histories.antt =====
-- Histories of a state under steps that hand something out, and why nothing is handed out twice.
use codex_a2a_gateway.Base.{List, [], ◌∷◌, ◌++◌, refl, inl, inr, In}

-- No element stands twice in the list.
abbrev pub NoRepeat : {K : Type 0} → List K → Type 0
NoRepeat [] = Unit
NoRepeat (k ∷ keys) = (¬ In k keys) × NoRepeat keys

module _ {K : Type 0} where
  In-append : (k : K) (keys more : List K) → In k (keys ++ more) → ¬ In k keys → ¬ In k more → ⊥
  In-append k [] more m h h' = h' m
  In-append k (x ∷ keys) more (inl e) h h' = h (inl e)
  In-append k (x ∷ keys) more (inr m) h h' = In-append k keys more m (λ n. h (inr n)) h'

  NoRepeat-append :
      (keys more : List K)
      → NoRepeat keys
      → NoRepeat more
      → ((k : K) → In k keys → ¬ In k more)
      → NoRepeat (keys ++ more)
  NoRepeat-append [] more n n' apart = n'
  NoRepeat-append (x ∷ keys) more (fresh, n) n' apart = (
    λ m. In-append x keys more m fresh (apart x (inl refl)),
    NoRepeat-append keys more n n' (λ k m. apart k (inr m)),
  )

module _ {S C K : Type 0} (step : C → S → S) (emits : C → S → List K) where
  -- What the steps of a history hand out, in order.
  unfoldable pub emitted : List C → S → List K
  emitted [] s = []
  emitted (c ∷ calls) s = emits c s ++ emitted calls (step c s)

  -- What is handed out was waiting before, has begun after, and stays begun, in states where the
  -- invariant `I` holds.
  pub record HandsOut (I : S → Type 0) (Waits Begun : K → S → Type 0) : Type 0 where
    pub kept : (c : C) (s : S) → I s → I (step c s)
    pub stays : (k : K) (c : C) (s : S) → Begun k s → Begun k (step c s)
    pub waited : (k : K) (c : C) (s : S) → I s → In k (emits c s) → Waits k s
    pub begun : (k : K) (c : C) (s : S) → I s → In k (emits c s) → Begun k (step c s)
    pub apart : (k : K) (s : S) → Begun k s → ¬ Waits k s
    pub single : (c : C) (s : S) → NoRepeat (emits c s)

  module _ {I : S → Type 0} {Waits Begun : K → S → Type 0} (h : HandsOut I Waits Begun) where
    emitted-once : (k : K) (calls : List C) (s : S) → I s → Begun k s → ¬ In k (emitted calls s)
    unfolding emitted
    emitted-once k [] s i b = λ m. elim m [ ]
    emitted-once k (c ∷ calls) s i b =
        let later = emitted-once k calls (step c s) (h.kept c s i) (h.stays k c s b) in
        λ m. In-append k (emits c s) _ m (λ n. h.apart k s b (h.waited k c s i n)) later

    pub emitted-NoRepeat : (calls : List C) (s : S) → I s → NoRepeat (emitted calls s)
    unfolding emitted
    emitted-NoRepeat [] s i = tt
    emitted-NoRepeat (c ∷ calls) s i =
        NoRepeat-append (emits c s) _ (h.single c s)
          (emitted-NoRepeat calls (step c s) (h.kept c s i))
          (λ k m. emitted-once k calls (step c s) (h.kept c s i) (h.begun k c s i m))

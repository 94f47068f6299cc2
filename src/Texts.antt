-- ===== src/Texts.antt =====
-- Texts and bytes as lists of code points: prefixes and occurrences (`in` and `startswith` of Python),
-- joining, and decimal numbers (`str` of a natural number).
use codex_a2a_gateway.Base.{
  ℕ, zero, suc, ◌+◌, ◌/◌, ◌%◌, ◌≤◌, ◌-◌, Bool, true, false, ◌&&◌, ◌||◌, List, [], ◌∷◌, ◌++◌, ltb,
  ◌==◌, if◌then◌else◌, ◌≡◌, refl, arith, length,
}

abbrev pub Text : Type 0
Text = List ℕ

-- s.startswith(p).
unfoldable pub starts : Text → Text → Bool
starts [] s = true
starts (a ∷ p) [] = false
starts (a ∷ p) (b ∷ s) = (a == b) && starts p s

-- p in s.
unfoldable pub occurs : Text → Text → Bool
unfolding starts
occurs p [] = starts p []
occurs p (c ∷ s) = starts p (c ∷ s) || occurs p s

unfoldable pub same_text : Text → Text → Bool
same_text [] [] = true
same_text (a ∷ s) (b ∷ r) = (a == b) && same_text s r
same_text _ _ = false

-- s[n:].
unfoldable pub drop : ℕ → Text → Text
drop zero s = s
drop (suc n) [] = []
drop (suc n) (c ∷ s) = drop n s

unfoldable pub concat : List Text → Text
concat [] = []
concat (s ∷ more) = s ++ concat more

-- str(n), by at most `fuel` digits.
unfoldable pub digits : ℕ → ℕ → Text
digits zero n = []
digits (suc fuel) n =
    let rest = digits fuel (n / 10) in
    if ltb n 10 then (48 + n) ∷ [] else rest ++ (48 + n % 10) ∷ []

unfoldable pub decimal : ℕ → Text
unfolding digits
decimal n = digits (suc n) n

pub starts-append : (p s : Text) → starts p (p ++ s) ≡ true
unfolding starts
starts-append [] s = refl
starts-append (a ∷ p) s = ground (arith, starts-append p s)

pub occurs-starts : (p s : Text) → starts p s ≡ true → occurs p s ≡ true
unfolding occurs
occurs-starts p [] h = h
occurs-starts p (c ∷ s) h = rw h refl

-- A text occurs in each text that it stands in.
pub occurs-append : (p before after : Text) → occurs p (before ++ (p ++ after)) ≡ true
unfolding occurs
occurs-append p [] after = occurs-starts p (p ++ after) (starts-append p after)
occurs-append p (c ∷ before) after = rw (occurs-append p before after) (ground arith)

-- Whether `p` starts a text is seen in as many characters as `p` has.
pub starts-long : (p s more : Text) → length p ≤ length s → starts p (s ++ more) ≡ starts p s
unfolding starts
starts-long [] s more h = refl
starts-long (a ∷ p) [] more h = absurd (omega arith)
starts-long (a ∷ p) (b ∷ s) more h = rw (starts-long p s more (omega arith)) refl

-- Characters before the last `n` can be dropped where `p` is no longer than `n` and did not occur yet.
pub occurs-drop :
    (p s more : Text) (k : ℕ)
    → occurs p s ≡ false
    → length p + k ≤ length s
    → occurs p (drop k s ++ more) ≡ occurs p (s ++ more)
unfolding occurs drop
occurs-drop p s more zero absent h = refl
occurs-drop p [] more (suc k) absent h = absurd (omega arith)
occurs-drop p (c ∷ s) more (suc k) absent h = ground (
  arith,
  occurs-drop p s more k (ground arith) (omega arith),
  starts-long p (c ∷ s) more (omega arith),
)

pub length-drop : (k : ℕ) (s : Text) → length (drop k s) ≡ length s - k
unfolding drop
length-drop zero s = omega arith
length-drop (suc k) [] = omega arith
length-drop (suc k) (c ∷ s) = omega (arith, length-drop k s)

pub occurs-more : (p s more : Text) → occurs p s ≡ true → occurs p (s ++ more) ≡ true
unfolding occurs starts
occurs-more p [] [] h = h
occurs-more p [] (c ∷ more) h = ground (arith, starts_nil p (c ∷ more))
  where
    starts_nil : (q s : Text) → starts q [] ≡ true → starts q s ≡ true
    starts_nil [] s e = refl
    starts_nil (a ∷ q) s e = cc
occurs-more p (c ∷ s) more h = ground (arith, starts_more p (c ∷ s) more, occurs-more p s more)
  where
    starts_more : (q s more : Text) → starts q s ≡ true → starts q (s ++ more) ≡ true
    starts_more [] s more e = refl
    starts_more (a ∷ q) [] more e = cc
    starts_more (a ∷ q) (b ∷ s) more e = ground (arith, starts_more q s more)

number_text : decimal 1204 ≡ b'1' ∷ b'2' ∷ b'0' ∷ b'4' ∷ []
unfolding decimal
number_text = refl

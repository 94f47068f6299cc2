-- ===== src/Stream/Numbers.antt =====
-- A number that the broker prints is read back by the client: `str` and `int`.
use codex_a2a_gateway.Base.{
  ℕ, zero, suc, ◌+◌, ◌-◌, ◌*◌, ◌/◌, ◌%◌, ◌≤◌, ◌<◌, ◌≡◌, ◌∙◌, ap, refl, Bool, true, false, some, [],
  ◌∷◌, ◌++◌, All, ltb, arith, Bool-cases, inl, inr,
}
use codex_a2a_gateway.Client.Texts.{is_white}
use codex_a2a_gateway.Texts.{Text, digits, decimal}
use codex_a2a_gateway.Stream.Lines.{
  strip_left, strip_right, strip, Integer, read_digits, read_signed, read_int,
}

abbrev pub IsDigit : ℕ → Type 0
IsDigit c = (48 ≤ c) × (c ≤ 57)

All-append : (P : ℕ → Type 0) (s r : Text) → All P s → All P r → All P (s ++ r)
All-append P [] r h k = k
All-append P (c ∷ s) r h k = (h.0, All-append P s r h.1 k)

digits-IsDigit : (fuel n : ℕ) → All IsDigit (digits fuel n)
unfolding digits
digits-IsDigit zero n = tt
digits-IsDigit (suc fuel) n = elim (Bool-cases (ltb n 10)) [
  | inl small ↦ rw small (ground arith, tt)
  | inr large ↦
      rw large (
        All-append IsDigit (digits fuel (n / 10)) _ (digits-IsDigit fuel (n / 10))
          (omega arith, tt))
]

pub decimal-IsDigit : (n : ℕ) → All IsDigit (decimal n)
unfolding decimal
decimal-IsDigit n = digits-IsDigit (suc n) n

-- One more digit at the end.
read_digits-snoc :
    (after : Bool) (n v d : ℕ) (s : Text)
    → d < 10
    → All IsDigit s
    → read_digits after n s ≡ some v
    → read_digits after n (s ++ (48 + d) ∷ []) ≡ some (v * 10 + d)
unfolding read_digits
read_digits-snoc after n v d [] h all e = ground arith
read_digits-snoc after n v d (c ∷ s) h all e =
    ground (arith, all.0.0, all.0.1, read_digits-snoc true (n * 10 + (c - 48)) v d s h all.1)

read_digits-one : (n : ℕ) → n < 10 → read_digits false 0 ((48 + n) ∷ []) ≡ some n
unfolding read_digits
read_digits-one n h = ground arith

read_digits-digits : (fuel n : ℕ) → n < fuel → read_digits false 0 (digits fuel n) ≡ some n
unfolding digits
read_digits-digits zero n h = absurd (omega arith)
read_digits-digits (suc fuel) n h = elim (Bool-cases (ltb n 10)) [
  | inl small ↦ rw small (read_digits-one n (ground arith))
  | inr large ↦
      let joined : n / 10 * 10 + n % 10 ≡ n = omega arith in
      let below : n / 10 < fuel = ground arith in
      rw large (
        read_digits-snoc false 0 (n / 10) (n % 10) (digits fuel (n / 10)) (omega arith)
          (digits-IsDigit fuel (n / 10)) (read_digits-digits fuel (n / 10) below)
        ∙ ap some joined)
]

digit_white : (c : ℕ) → IsDigit c → is_white c ≡ false
unfolding is_white
digit_white c h = ground (arith, h.0, h.1)

strip_right-IsDigit : (s : Text) → All IsDigit s → strip_right s ≡ s
unfolding strip_right
strip_right-IsDigit [] h = refl
strip_right-IsDigit (c ∷ s) h = rw (digit_white c h.0, strip_right-IsDigit s h.1) refl

strip_left-IsDigit : (s : Text) → All IsDigit s → strip_left s ≡ s
unfolding strip_left
strip_left-IsDigit [] h = refl
strip_left-IsDigit (c ∷ s) h = rw (digit_white c h.0) refl

strip-IsDigit : (s : Text) → All IsDigit s → strip (b' ' ∷ s) ≡ s
unfolding strip is_white
strip-IsDigit s h = ap strip_right (strip_left-IsDigit s h) ∙ strip_right-IsDigit s h

read_signed-IsDigit :
    (s : Text) (n : ℕ)
    → All IsDigit s
    → read_digits false 0 s ≡ some n
    → read_signed s ≡ some (Integer.natural n)
unfolding read_digits
read_signed-IsDigit [] n h e = cc
read_signed-IsDigit (c ∷ s) n h e = ground (arith, h.0.0, h.0.1)

-- " " + str(n).
pub read_int-decimal : (n : ℕ) → read_int (b' ' ∷ decimal n) ≡ some (Integer.natural n)
unfolding read_int decimal
read_int-decimal n =
    ap read_signed (strip-IsDigit (decimal n) (decimal-IsDigit n))
    ∙ read_signed-IsDigit (decimal n) n (decimal-IsDigit n)
        (read_digits-digits (suc n) n (omega arith))

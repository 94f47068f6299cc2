-- ===== src/Api/Bodies.antt =====
-- `bounded_body` of hermes_a2a_gateway/broker.py: a request's body, read by chunks.
use codex_a2a_gateway.Base.{
  ℕ, ◌+◌, ◌≤◌, ◌<◌, ◌≡◌, refl, ap, ◌∙◌, sym, false, List, [], ◌∷◌, ◌++◌, arith, length,
  length-append, ltb, leb, Bool-cases, inl, inr, if◌then◌else◌,
}
use codex_a2a_gateway.Tx.Errors.{Code, Error, Result, ok, err, broker_error}

abbrev pub too_large : Error
too_large = broker_error Code.request_too_large "request exceeds configured size limit" 413

-- The loop, with what has been read.
unfoldable pub read_chunks : ℕ → List ℕ → List (List ℕ) → Result (List ℕ)
read_chunks limit so_far [] = ok so_far
read_chunks limit so_far (chunk ∷ chunks) =
    let rest = read_chunks limit (so_far ++ chunk) chunks in
    if ltb limit (length so_far + length chunk) then err too_large else rest

unfoldable pub bounded_body : ℕ → List (List ℕ) → Result (List ℕ)
unfolding read_chunks
bounded_body limit chunks = read_chunks limit [] chunks

-- The whole body.
abbrev pub joined : List (List ℕ) → List ℕ
joined [] = []
joined (chunk ∷ chunks) = chunk ++ joined chunks

append_nil : (xs : List ℕ) → xs ++ [] ≡ xs
append_nil [] = refl
append_nil (x ∷ xs) = ap (λ ys. x ∷ ys) (append_nil xs)

append_assoc : (xs ys zs : List ℕ) → (xs ++ ys) ++ zs ≡ xs ++ (ys ++ zs)
append_assoc [] ys zs = refl
append_assoc (x ∷ xs) ys zs = ap (λ rest. x ∷ rest) (append_assoc xs ys zs)

read_chunks-fits :
    (limit : ℕ) (so_far : List ℕ) (chunks : List (List ℕ))
    → length so_far + length (joined chunks) ≤ limit
    → read_chunks limit so_far chunks ≡ ok (so_far ++ joined chunks)
unfolding read_chunks
read_chunks-fits limit so_far [] fits = ap ok (sym (append_nil so_far))
read_chunks-fits limit so_far (chunk ∷ chunks) fits =
    let a = length-append so_far chunk in
    let b = length-append chunk (joined chunks) in
    let small : ltb limit (length so_far + length chunk) ≡ false = ground arith in
    let fits' : length (so_far ++ chunk) + length (joined chunks) ≤ limit = omega arith in
    rw small (
      read_chunks-fits limit (so_far ++ chunk) chunks fits'
      ∙ ap ok (append_assoc so_far chunk (joined chunks)))

read_chunks-exceeds :
    (limit : ℕ) (so_far : List ℕ) (chunks : List (List ℕ))
    → length so_far ≤ limit
    → limit < length so_far + length (joined chunks)
    → read_chunks limit so_far chunks ≡ err too_large
unfolding read_chunks
read_chunks-exceeds limit so_far [] small exceeds = absurd (omega arith)
read_chunks-exceeds limit so_far (chunk ∷ chunks) small exceeds =
    let a = length-append so_far chunk in
    let b = length-append chunk (joined chunks) in
    elim (Bool-cases (ltb limit (length so_far + length chunk))) [
      | inl over ↦ rw over refl
      | inr under ↦
          let small' : length (so_far ++ chunk) ≤ limit = ground arith in
          let exceeds' : limit < length (so_far ++ chunk) + length (joined chunks) = omega arith in
          rw under (read_chunks-exceeds limit (so_far ++ chunk) chunks small' exceeds')
    ]

-- However a body comes in chunks, it is read whole where its length is within the limit, and refused
-- where it is not.
pub bounded_body-joined :
    (limit : ℕ) (chunks : List (List ℕ))
    → bounded_body limit chunks
      ≡ (if leb (length (joined chunks)) limit then ok (joined chunks) else err too_large)
unfolding bounded_body
bounded_body-joined limit chunks = elim (Bool-cases (leb (length (joined chunks)) limit)) [
  | inl fits ↦ rw fits (read_chunks-fits limit [] chunks (ground arith))
  | inr exceeds ↦ rw exceeds (read_chunks-exceeds limit [] chunks (ground arith) (ground arith))
]

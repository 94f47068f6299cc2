-- ===== src/Tunnel/Output.antt =====
-- The reader of ssh's output finds the confirmation of the forwarding however the output is cut into
-- chunks, though it keeps the last bytes alone (`_read_stderr` of hermes_a2a_gateway/ssh_tunnel.py).
use codex_a2a_gateway.Base.{
  ℕ, zero, suc, ◌+◌, ◌-◌, ◌*◌, ◌/◌, ◌%◌, ◌≤◌, ◌<◌, ◌≡◌, ◌∙◌, sym, refl, ◌⊎◌, inl, inr, Bool, true,
  false, ◌||◌, List, [], ◌∷◌, ◌++◌, arith, ltb, length, length-append, Bool-cases,
}
use mathlib.Core.List.{append-nil, append_assoc}
use codex_a2a_gateway.Texts.{
  Text, drop, digits, decimal, occurs, concat, occurs-drop, occurs-more, length-drop,
}
use codex_a2a_gateway.Tunnel.Config.{SshConfig}
use codex_a2a_gateway.Tunnel.Process.{
  Tunnel, confirmation, kept_bytes, last_bytes, read_chunk, read_stderr,
}

drop-append : (k : ℕ) (s more : Text) → k ≤ length s → drop k s ++ more ≡ drop k (s ++ more)
unfolding drop
drop-append zero s more h = refl
drop-append (suc k) [] more h = absurd (omega arith)
drop-append (suc k) (c ∷ s) more h = drop-append k s more (omega arith)

drop-nil : (k : ℕ) → drop k [] ≡ []
unfolding drop
drop-nil zero = refl
drop-nil (suc k) = refl

zero_plus : (j : ℕ) → zero + j ≡ j
zero_plus j = omega arith

suc_plus : (k j : ℕ) → suc k + j ≡ suc (k + j)
suc_plus k j = omega arith

drop-drop : (j k : ℕ) (s : Text) → drop j (drop k s) ≡ drop (k + j) s
unfolding drop
drop-drop j zero s = rw (zero_plus j) refl
drop-drop j (suc k) [] = drop-nil j ∙ sym (drop-nil (suc k + j))
drop-drop j (suc k) (c ∷ s) = rw (suc_plus k j) (drop-drop j k s)

-- Ten to the number of digits.
abbrev digit_bound : ℕ → ℕ
digit_bound zero = 1
digit_bound (suc k) = 10 * digit_bound k

length-digits : (k fuel n : ℕ) → n < digit_bound (suc k) → length (digits fuel n) ≤ suc k
unfolding digits
length-digits k zero n h = omega arith
length-digits zero (suc fuel) n h = ground arith
length-digits (suc k) (suc fuel) n h = ground (
  arith,
  length-append (digits fuel (n / 10)) ((48 + n % 10) ∷ []),
  length-digits k fuel (n / 10) (omega arith),
)

length-confirmation : (c : SshConfig) → c.local_port ≤ 65535 → length (confirmation c) ≤ kept_bytes
unfolding decimal
length-confirmation c h = omega (
  arith,
  length-append (digits (suc c.local_port) c.local_port) (b'.' ∷ []),
  length-digits 4 (suc c.local_port) c.local_port (omega arith),
)

-- What the tunnel has read is `all`: it kept an end of it, and knows whether it was confirmed.
record Reads (c : SshConfig) (all : Text) (t : Tunnel) : Type 0 where
  skipped : ℕ
  kept : t.stderr ≡ drop skipped all
  within : skipped ≤ length all
  room : (skipped ≡ 0) ⊎ (length (confirmation c) + skipped ≤ length all)
  confirmed : t.forward_confirmed ≡ occurs (confirmation c) all

occurs_kept :
    (p all chunk : Text) (k : ℕ) (seen : Bool)
    → seen ≡ occurs p all
    → (k ≡ 0) ⊎ (length p + k ≤ length all)
    → (seen || occurs p (drop k all ++ chunk)) ≡ occurs p (all ++ chunk)
unfolding drop
occurs_kept p all chunk k true e room = sym (occurs-more p all chunk (sym e))
occurs_kept p all chunk zero false e room = refl
occurs_kept p all chunk (suc k) false e (inl none_skipped) = absurd (omega arith)
occurs_kept p all chunk (suc k) false e (inr h) = occurs-drop p all chunk (suc k) (sym e) h

-- The last bytes of an end of a text are an end of it, the same one or of the bound's length.
last_bytes-drop :
    (whole : Text) (k : ℕ)
    → k ≤ length whole
    → (m : ℕ) × (last_bytes (drop k whole) ≡ drop m whole)
      × (m ≤ length whole)
      × ((m ≡ k) ⊎ (kept_bytes + m ≡ length whole))
unfolding last_bytes
last_bytes-drop whole k h = elim (Bool-cases (ltb kept_bytes (length (drop k whole)))) [
  | inl long ↦ (
    k + (length (drop k whole) - kept_bytes),
    rw long (drop-drop (length (drop k whole) - kept_bytes) k whole),
    omega (arith, length-drop k whole),
    inr (ground (arith, length-drop k whole)),
  )
  | inr short ↦ (k, rw short refl, h, inl refl)
]

room_after :
    (p all chunk : Text) (k m : ℕ)
    → length p ≤ kept_bytes
    → (k ≡ 0) ⊎ (length p + k ≤ length all)
    → (m ≡ k) ⊎ (kept_bytes + m ≡ length (all ++ chunk))
    → (m ≡ 0) ⊎ (length p + m ≤ length (all ++ chunk))
room_after p all chunk k m fits room (inr e) = inr (omega arith)
room_after p all chunk k m fits (inl none_skipped) (inl same) = inl (omega arith)
room_after p all chunk k m fits (inr h) (inl same) = inr (omega (arith, length-append all chunk))

read_chunk-Reads :
    (c : SshConfig) (all chunk : Text) (t : Tunnel)
    → length (confirmation c) ≤ kept_bytes
    → Reads c all t
    → Reads c (all ++ chunk) (read_chunk c chunk t)
unfolding read_chunk
read_chunk-Reads c all chunk t fits r =
    let joined : t.stderr ++ chunk ≡ drop r.skipped (all ++ chunk) =
      rw r.kept (drop-append r.skipped all chunk r.within) in
    let (m, kept, within, moved) =
      last_bytes-drop (all ++ chunk) r.skipped (omega (arith, length-append all chunk)) in
    record {
      skipped = m;
      kept = rw joined kept;
      within = within;
      room = room_after (confirmation c) all chunk r.skipped m fits r.room moved;
      confirmed =
          rw r.kept (
            occurs_kept (confirmation c) all chunk r.skipped t.forward_confirmed r.confirmed
              r.room);
    }

read_stderr-Reads :
    (c : SshConfig) (all : Text) (chunks : List Text) (t : Tunnel)
    → length (confirmation c) ≤ kept_bytes
    → Reads c all t
    → Reads c (all ++ concat chunks) (read_stderr c chunks t)
unfolding read_stderr concat
read_stderr-Reads c all [] t fits r = rw (append-nil all) r
read_stderr-Reads c all (chunk ∷ chunks) t fits r = rw (← append_assoc all chunk (concat chunks)) (
    read_stderr-Reads c (all ++ chunk) chunks (read_chunk c chunk t) fits
      (read_chunk-Reads c all chunk t fits r))

-- However the output of an ssh process comes in chunks, and though the tunnel keeps its last 16384 bytes
-- alone, the forwarding counts as confirmed exactly when ssh's message that names the local port stands
-- in the whole output, for a port that the configuration allows.
pub read_stderr-confirmed :
    (c : SshConfig) (t : Tunnel) (chunks : List Text)
    → c.local_port ≤ 65535
    → t.stderr ≡ []
    → t.forward_confirmed ≡ false
    → (read_stderr c chunks t).forward_confirmed ≡ occurs (confirmation c) (concat chunks)
unfolding drop occurs
read_stderr-confirmed c t chunks port empty fresh =
    (read_stderr-Reads c [] chunks t (length-confirmation c port) (record {
      skipped = 0;
      kept = empty;
      within = omega arith;
      room = inl refl;
      confirmed = fresh ∙ sym nothing;
    })).confirmed
  where
    nothing : occurs (confirmation c) [] ≡ false
    nothing = refl

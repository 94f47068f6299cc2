-- ===== src/Settings/Checks.antt =====
-- What single checks of hermes_a2a_gateway/client_settings.py and of hermes_a2a_gateway/ssh_tunnel.py
-- say of a value.
use codex_a2a_gateway.Base.{
  ℕ, suc, ◌*◌, ◌≤◌, ◌≡◌, refl, ap, Bool, true, false, Option, none, some, [], ◌∷◌, In, inl, inr,
  arith, if◌then◌else◌,
}
use codex_a2a_gateway.Broker.Content.{contains}
use codex_a2a_gateway.Texts.{Text}
use codex_a2a_gateway.Peer.Urls.{is_empty}
use codex_a2a_gateway.Tunnel.Config.{ConfigError, is_alphanumeric, is_host_name, is_command}
use codex_a2a_gateway.Settings.Policy.{Seconds, is_within}
use codex_a2a_gateway.Settings.Transport.{has_port, is_positive}

-- A number of seconds that is positive, and at most `most`.
pub record IsPositiveWithin (most : ℕ) (t : Seconds) : Type 0 where
  pub n : ℕ
  pub d : ℕ
  pub is_fraction : t ≡ Seconds.fraction n d
  pub positive : 1 ≤ n
  pub high : n ≤ most * suc d

pub record IsWithin (most : ℕ) (t : Seconds) : Type 0 where
  pub n : ℕ
  pub d : ℕ
  pub is_fraction : t ≡ Seconds.fraction n d
  pub high : n ≤ most * suc d

-- Not empty, and not an option.
abbrev pub IsProgram : Text → Type 0
IsProgram [] = ⊥
IsProgram (c ∷ s) = ¬ (c ≡ b'-')

thousands : (n most d : ℕ) → n * 1000 ≤ most * 1000 * suc d → n ≤ most * suc d
thousands n most d h = omega arith

pub fraction-IsWithin :
    (most : ℕ) (t : Seconds) → is_within 0 (most * 1000) t ≡ true → IsWithin most t
unfolding is_within
fraction-IsWithin most Seconds.not_finite h = absurd cc
fraction-IsWithin most Seconds.negative h = absurd cc
fraction-IsWithin most (Seconds.fraction n d) h = record {
  n = n;
  d = d;
  is_fraction = refl;
  high = thousands n most d (ground arith);
}

pub fraction-IsPositiveWithin :
    (most : ℕ) (t : Seconds)
    → is_positive t ≡ true
    → is_within 0 (most * 1000) t ≡ true
    → IsPositiveWithin most t
unfolding is_positive is_within
fraction-IsPositiveWithin most Seconds.not_finite h k = absurd cc
fraction-IsPositiveWithin most Seconds.negative h k = absurd cc
fraction-IsPositiveWithin most (Seconds.fraction n d) h k = record {
  n = n;
  d = d;
  is_fraction = refl;
  positive = ground arith;
  high = thousands n most d (ground arith);
}

pub not_empty : (s : Text) → is_empty s ≡ false → ¬ s ≡ []
not_empty [] h e = cc
not_empty (c ∷ s) h e = cc

pub not_contained : (c : ℕ) (s : Text) → contains c s ≡ false → ¬ In c s
unfolding contains
not_contained c [] h m = elim m [ ]
not_contained c (a ∷ s) h (inl e) = absurd (ground arith)
not_contained c (a ∷ s) h (inr m) = not_contained c s (ground arith) m

pub empty_text : (s : Text) → is_empty s ≡ true → s ≡ []
empty_text [] h = refl
empty_text (c ∷ s) h = absurd cc

pub command-IsProgram : (s : Text) → is_command s ≡ true → IsProgram s
unfolding is_command
command-IsProgram [] h = absurd cc
command-IsProgram (c ∷ s) h = λ e. absurd (ground arith)

pub equal_port : (p : ℕ) (o : Option ℕ) → has_port p o ≡ true → o ≡ some p
equal_port p none h = absurd cc
equal_port p (some q) h = let same_port : q ≡ p = ground arith in ap some same_port

pub host_name-IsProgram : (s : Text) → is_host_name s ≡ true → IsProgram s
unfolding is_host_name is_alphanumeric
host_name-IsProgram [] h = absurd cc
host_name-IsProgram (c ∷ s) h = λ e. absurd (ground arith)

pub no_error :
    (b : Bool) (e : ConfigError) (rest : Option ConfigError)
    → (if b then some e else rest) ≡ none
    → (b ≡ false) × (rest ≡ none)
no_error true e rest h = cc
no_error false e rest h = (refl, h)

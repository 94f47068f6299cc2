-- ===== src/Diagnostics/Bounds.antt =====
-- What the broker lets through of a peer's diagnostics (hermes_a2a_gateway/diagnostics.py).
use codex_a2a_gateway.Base.{
  ℕ, ◌≤◌, String, ◌≡◌, refl, Bool, true, false, Option, none, some, List, arith, if◌then◌else◌,
}
use codex_a2a_gateway.Diagnostics.{
  Reason, ErrorDetails, Scalar, Entry, PeerTask, Policy, Capability, get_key, diagnostics_uri,
  is_text, read_policy, bounded_number, window_capability, limit_capability, peer_capabilities,
  plain_details, known_reason, delay_of, extended_details, legacy_details, peer_error_details,
}

-- A capability within the contract.
pub record IsWithinContract (c : Capability) : Type 0 where
  pub at_least : 1 ≤ c.context_limit
  pub at_most : c.context_limit ≤ 100000
  pub window : (n : ℕ) → c.window_seconds ≡ some n → (1 ≤ n) × (n ≤ 86400)
  pub windowed : c.policy ≡ Policy.sliding_window → (n : ℕ) × (c.window_seconds ≡ some n)

bounded_number-within :
    (bound : ℕ) (s : Option Scalar) (n : ℕ)
    → bounded_number bound s ≡ some n
    → (1 ≤ n) × (n ≤ bound)
unfolding bounded_number
bounded_number-within bound none n h = ground arith
bounded_number-within bound (some (Scalar.number m)) n h = ground arith
bounded_number-within bound (some (Scalar.flag b)) n h = ground arith
bounded_number-within bound (some (Scalar.text t)) n h = ground arith
bounded_number-within bound (some Scalar.other) n h = ground arith

window_capability-within :
    (value : List (String × Scalar)) (p : Policy) (limit : ℕ) (c : Capability)
    → 1 ≤ limit
    → limit ≤ 100000
    → window_capability value p limit ≡ some c
    → IsWithinContract c
unfolding window_capability
window_capability-within value Policy.legacy_turn_limit limit c low high h = record {
  at_least = ground arith;
  at_most = ground arith;
  window = λ n e. ground arith;
  windowed = λ e. ground arith;
}
window_capability-within value Policy.sliding_window limit c low high h =
    windowed (bounded_number 86400 (get_key "window_seconds" value))
      (λ n e. bounded_number-within 86400 (get_key "window_seconds" value) n e) h
  where
    windowed :
        (o : Option ℕ)
        → ((n : ℕ) → o ≡ some n → (1 ≤ n) × (n ≤ 86400))
        → elim o [
          | none ↦ none
          | some window ↦ some (record {
            policy = Policy.sliding_window;
            context_limit = limit;
            window_seconds = some window;
            has_patch = is_text "0.8.0" (get_key "patch_version" value);
          })
        ]
          ≡ some c
        → IsWithinContract c
    windowed none known e = ground arith
    windowed (some m) known e =
        let (small, large) = known m refl in
        record {
          at_least = ground arith;
          at_most = ground arith;
          window = λ n e'. ground arith;
          windowed = λ _. (m, ground arith);
        }

limit_capability-within :
    (value : List (String × Scalar)) (p : Policy) (c : Capability)
    → limit_capability value p ≡ some c
    → IsWithinContract c
unfolding limit_capability
limit_capability-within value p c h =
    limited (bounded_number 100000 (get_key "context_limit" value))
      (λ n e. bounded_number-within 100000 (get_key "context_limit" value) n e) h
  where
    limited :
        (o : Option ℕ)
        → ((n : ℕ) → o ≡ some n → (1 ≤ n) × (n ≤ 100000))
        → elim o [ none ↦ none | some limit ↦ window_capability value p limit ] ≡ some c
        → IsWithinContract c
    limited none known e = ground arith
    limited (some n) known e =
        let (low, high) = known n refl in window_capability-within value p n c low high e

policy_capability-within :
    (value : List (String × Scalar)) (p : Option Policy) (c : Capability)
    → elim p [ none ↦ none | some known ↦ limit_capability value known ] ≡ some c
    → IsWithinContract c
policy_capability-within value none c h = ground arith
policy_capability-within value (some p) c h = limit_capability-within value p c h

-- A capability that `peer_capabilities` accepts has a context limit from 1 to 100000, and a window
-- from 1 to 86400 seconds, which a sliding window always has.
pub peer_capabilities-IsWithinContract :
    (value : Entry) (c : Capability) → peer_capabilities value ≡ some c → IsWithinContract c
unfolding peer_capabilities
peer_capabilities-IsWithinContract Entry.scalar c h = ground arith
peer_capabilities-IsWithinContract (Entry.object value) c h =
    known (is_text diagnostics_uri (get_key "diagnostics_extension" value)) h
  where
    known :
        (b : Bool)
        → (if b
            then elim (read_policy (get_key "policy" value)) [
              | none ↦ none
              | some p ↦ limit_capability value p
            ]
            else none)
          ≡ some c
        → IsWithinContract c
    known true e = policy_capability-within value (read_policy (get_key "policy" value)) c e
    known false e = ground arith

-- Details that are bounded, and true to the task.
pub record IsBounded (task : PeerTask) (details : ErrorDetails) : Type 0 where
  pub state : details.peer_state ≡ task.state
  pub delay : (n : ℕ) → details.retry_after_seconds ≡ some n → n ≤ 86400

delay_of-bounded : (s : Option Scalar) (n : ℕ) → delay_of s ≡ some n → n ≤ 86400
unfolding delay_of
delay_of-bounded none n h = ground arith
delay_of-bounded (some (Scalar.number m)) n h = ground arith
delay_of-bounded (some (Scalar.flag b)) n h = ground arith
delay_of-bounded (some (Scalar.text t)) n h = ground arith
delay_of-bounded (some Scalar.other) n h = ground arith

plain_details-IsBounded : (task : PeerTask) → IsBounded task (plain_details task)
unfolding plain_details
plain_details-IsBounded task = record { state = refl; delay = λ n e. ground arith }

legacy_details-IsBounded : (task : PeerTask) → IsBounded task (legacy_details task)
unfolding legacy_details plain_details
legacy_details-IsBounded task = ground arith

extended_details-IsBounded :
    (read_instant : String → Option String) (task : PeerTask) (value : List (String × Scalar))
    (r : Reason)
    → IsBounded task (extended_details read_instant task value r)
unfolding extended_details
extended_details-IsBounded read_instant task value r = record {
  state = refl;
  delay = λ n e. delay_of-bounded (get_key "retry_after_seconds" value) n e;
}

-- Whatever a peer puts into its task, the details name the task's own state, and a delay of at most a
-- day.
pub peer_error_details-IsBounded :
    (read_instant : String → Option String) (task : PeerTask)
    → IsBounded task (peer_error_details read_instant task)
unfolding peer_error_details
peer_error_details-IsBounded read_instant task = detailed (known_reason task.metadata)
  where
    detailed :
        (o : Option (List (String × Scalar) × Reason))
        → IsBounded task (elim o [
          | none ↦ legacy_details task
          | some (value, r) ↦ extended_details read_instant task value r
        ])
    detailed none = legacy_details-IsBounded task
    detailed (some (value, r)) = extended_details-IsBounded read_instant task value r

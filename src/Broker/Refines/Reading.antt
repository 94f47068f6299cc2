-- ===== src/Broker/Refines/Reading.antt =====
-- The steps of the transactions that write nothing.
use codex_a2a_gateway.Base.{
  suc, ℕ, true, ◌+◌, length, String, ◌≡◌, Option, none, some, List, [], ◌∷◌, select_one,
}
use codex_a2a_gateway.Tx.{Tape, Session, Tx, gets, draw, pure, ◌>>=◌}
use codex_a2a_gateway.Tx.Ensures.{Ensures}
use codex_a2a_gateway.Tx.Reads.{Reads, Reads-pure, Reads-bind, Reads-require, reads_rules}
use codex_a2a_gateway.Tx.Rules.{bind_require, bind_or_raise}
use codex_a2a_gateway.Broker.Model.{Outcome, ErrorInfo, Plain, Operation}
use codex_a2a_gateway.Broker.Setup.{Setup}
use codex_a2a_gateway.Broker.Rows.{of_operation}
use codex_a2a_gateway.Broker.Snapshots.{
  Store, encrypt_value, decrypt_value, get_row, live_cipher, has_expired, open_result, read_result,
  snapshot_of,
}
use codex_a2a_gateway.Broker.Artifacts.{read_artifact}
use codex_a2a_gateway.Broker.Accept.{input_bytes}
use codex_a2a_gateway.Broker.Finish.{require_dispatcher, seal_result}
use codex_a2a_gateway.Broker.Dispatch.{read_artifacts}

module _ (P : Setup) where
  pub encrypt_value-Reads : (v : Plain) → Reads (encrypt_value P v)
  unfolding encrypt_value
  encrypt_value-Reads v = search reads_rules

  pub decrypt_value-Reads : (c : P.Token) → Reads (decrypt_value P c)
  unfolding decrypt_value
  decrypt_value-Reads c = search reads_rules

  pub live_cipher-Reads :
      (c : Option P.Token) (expires : Option ℕ) → Reads (live_cipher P c expires)
  unfolding live_cipher
  live_cipher-Reads none expires = search reads_rules
  live_cipher-Reads (some c) none = search reads_rules
  live_cipher-Reads (some c) (some e) = search reads_rules

  has_expired-Reads : (expires : Option ℕ) → Reads (has_expired P expires)
  unfolding has_expired
  has_expired-Reads none = search reads_rules
  has_expired-Reads (some e) = search reads_rules

  open_result-Reads : (error : Option ErrorInfo) (v : Plain) → Reads (open_result P error v)
  unfolding open_result
  open_result-Reads (some e) (Plain.outcome (Outcome.gateway_error_details d)) = search reads_rules
  open_result-Reads error (Plain.outcome o) = search reads_rules
  open_result-Reads error _ = search reads_rules

  pub read_result-Reads :
      (row : Operation P.Token) (live : Option P.Token) → Reads (read_result P row live)
  unfolding read_result
  read_result-Reads row none = search (reads_rules, has_expired-Reads)
  read_result-Reads row (some c) = search (reads_rules, decrypt_value-Reads, open_result-Reads)

  pub snapshot_of-Reads : (row : Operation P.Token) → Reads (snapshot_of P row)
  unfolding snapshot_of
  snapshot_of-Reads row = search (reads_rules, live_cipher-Reads, read_result-Reads)

  pub read_artifact-Reads : (d : String) (a : ℕ) → Reads (read_artifact P d a)
  unfolding read_artifact
  read_artifact-Reads d a = search (reads_rules) depth 12

  pub read_artifacts-Reads : (d : String) (ids : List ℕ) → Reads (read_artifacts P d ids)
  unfolding read_artifacts
  read_artifacts-Reads d [] = search reads_rules
  read_artifacts-Reads d (a ∷ ids) =
      Reads-bind _ _ (read_artifact-Reads d a)
        λ x. Reads-bind _ _ (read_artifacts-Reads d ids) (λ rest. Reads-pure _)

  pub input_bytes-Reads : (d : String) (n : ℕ) (ids : List ℕ) → Reads (input_bytes P d n ids)
  unfolding input_bytes
  input_bytes-Reads d n [] = search reads_rules
  input_bytes-Reads d n (a ∷ ids) = Reads-bind _ _ (read_artifact-Reads d a) λ x.
      Reads-bind _ _ (Reads-require _ _)
        λ _. Reads-bind _ _ (Reads-require _ _) (λ _. input_bytes-Reads d (n + length x.1) ids)

  pub seal_result-Reads : (r : Option Outcome) → Reads (seal_result P r)
  unfolding seal_result
  seal_result-Reads none = search reads_rules
  seal_result-Reads (some r) = search (reads_rules, encrypt_value-Reads)

  -- A block that begins with `_row` goes on with the row that was found.
  pub bind_row :
      {B : Type 0} {Q : B → Store P → Type 0} {t : Tape} {s : Session (Store P)} (d : String)
      (o : ℕ) (f : Operation P.Token → Tx (Store P) B)
      → ((row : Operation P.Token)
          → select_one (of_operation d o) s.store.operations ≡ some row
          → Ensures (f row) t s Q)
      → Ensures (get_row P d o >>= f) t s Q
  unfolding get_row gets ◌>>=◌
  bind_row d o f h = record { at = (bind_or_raise _ _ f h).at }

  -- A block that begins with the test of `_dispatcher`.
  pub bind_dispatcher :
      {B : Type 0} {Q : B → Store P → Type 0} {t : Tape} {s : Session (Store P)}
      (f : Unit {0} → Tx (Store P) B)
      → (s.store.dispatcher ≡ true → Ensures (f tt) t s Q)
      → Ensures (require_dispatcher P >>= f) t s Q
  unfolding require_dispatcher gets ◌>>=◌
  bind_dispatcher f h = record { at = (bind_require _ _ f h).at }

  -- A block that begins with `_encrypt`.
  pub bind_encrypt :
      {B : Type 0} {Q : B → Store P → Type 0} {t : Tape} {s : Session (Store P)} (v : Plain)
      (f : P.Token → Tx (Store P) B)
      → ((iv : ℕ) → Ensures (f (P.encrypt iv v)) t (record s { draws = suc s.draws }) Q)
      → Ensures (encrypt_value P v >>= f) t s Q
  unfolding encrypt_value draw pure ◌>>=◌
  bind_encrypt v f h = record { at = (h _).at }

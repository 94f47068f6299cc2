-- ===== src/Broker/Dispatches.antt =====
-- The dispatches of a history: what `claim` of hermes_a2a_gateway/broker_store.py hands out.
pub mod Sealed
pub mod Starts
pub mod Once
use codex_a2a_gateway.Base.{
  ℕ, ◌≤◌, String, ◌≡◌, ◌⊎◌, Option, none, some, List, [], ◌∷◌, ◌++◌, map, select_one,
}
use codex_a2a_gateway.Histories.{emitted}
use codex_a2a_gateway.Tx.Errors.{Result, ok, err}
use codex_a2a_gateway.Tx.{Tape}
use codex_a2a_gateway.Broker.Model.{State, Operation, Ledger}
use codex_a2a_gateway.Broker.Setup.{Setup}
use codex_a2a_gateway.Broker.Rows.{of_operation}
use codex_a2a_gateway.Broker.Snapshots.{Store}
use codex_a2a_gateway.Broker.Dispatch.{Claim, claim}
use codex_a2a_gateway.Broker.Calls.{Call, perform}
use codex_a2a_gateway.Broker.Lifecycle.{rank}

abbrev pub Key : Type 0
Key = String × ℕ

-- The operation that a claim is about.
abbrev pub claim_key : Claim → Key
claim_key c = (c.device_id, c.request.operation_id)

abbrev pub claimed_keys : Result (Option Claim) → List Key
claimed_keys (ok (some c)) = claim_key c ∷ []
claimed_keys (ok none) = []
claimed_keys (err e) = []

module _ (P : Setup) where
  -- What a call dispatches.
  unfoldable pub dispatched : Call → Tape → Store P → List Key
  dispatched Call.claim t l = claimed_keys (claim P t l).0
  dispatched _ t l = []

  -- A call with its tape, as a step and as what it dispatches.
  abbrev pub step : Tape × Call → Store P → Store P
  step (t, c) l = perform P c t l

  abbrev pub step_dispatched : Tape × Call → Store P → List Key
  step_dispatched (t, c) l = dispatched c t l

  -- What a history dispatches, in order.
  unfoldable pub dispatches : List (Tape × Call) → Store P → List Key
  dispatches = emitted step step_dispatched

-- The operation is past its acceptance.
abbrev pub Started : {Token : Type 0} → Key → Ledger Token → Type 0
Started {Token} (d, o) l =
    (row : Operation Token) × (select_one (of_operation d o) l.operations ≡ some row)
    × (1 ≤ rank row.state)

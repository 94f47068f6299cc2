-- ===== src/Client/Calls.antt =====
-- Histories of the client's ledger: the methods of `ClientStore`
-- (hermes_a2a_gateway/client_store.py) that write, as calls, each with what the world answers
-- during it. `reopen` is a restart of the client.
use codex_a2a_gateway.Base.{ℕ, String, Bool, Option, List, [], ◌∷◌}
use codex_a2a_gateway.Tx.{Tape}
use codex_a2a_gateway.Client.Model.{
  Submission, CancelState, NativeOrigin, Sequence, Incoming, ClientReceipt,
}
use codex_a2a_gateway.Client.Setup.{ClientSetup, ClientStore}
use codex_a2a_gateway.Client.Commands
use codex_a2a_gateway.Client.Snapshots
use codex_a2a_gateway.Client.Delivery
use codex_a2a_gateway.Client.Delivery.{DeliveryEnd}

pub data ClientCall (Value : Type 0) : Type 0 where
  create : NativeOrigin → String → List String → ℕ → ClientCall Value
  accept_snapshot : Incoming Value → Sequence → ClientCall Value
  advance : Sequence → ClientCall Value
  view : ℕ → NativeOrigin → Bool → ClientCall Value
  resolve_call : NativeOrigin → ClientCall Value
  mark_submission : ℕ → Submission → ClientCall Value
  cancel_state : ℕ → CancelState → ClientCall Value
  receipt_sent : ClientReceipt → ClientCall Value
  release_inline : ℕ → ClientCall Value
  claim_delivery : ℕ → ClientCall Value
  finish_delivery : ℕ → DeliveryEnd → Option String → ClientCall Value
  prune : ClientCall Value
  reopen : ClientCall Value

-- The ledger of a new state directory.
abbrev pub new_client : (P : ClientSetup) → ClientStore P
new_client P = record { flows = []; operations = []; receipts = []; cursor = 0 }

module _ (P : ClientSetup) where
  -- The ledger after a call, whether it returned or raised.
  unfoldable pub client_step : ClientCall P.Value → Tape → ClientStore P → ClientStore P
  client_step (create origin prompt artifact_ids wait) t l =
      (Commands.create P origin prompt artifact_ids wait t l).1
  client_step (accept_snapshot s seq) t l = (Snapshots.accept_snapshot P s seq t l).1
  client_step (advance seq) t l = (Commands.advance P seq t l).1
  client_step (view o origin consume) t l = (Snapshots.view P o origin consume t l).1
  client_step (resolve_call origin) t l = (Snapshots.resolve_call P origin t l).1
  client_step (mark_submission o s) t l = Commands.mark_submission P o s l
  client_step (cancel_state o s) t l = Commands.cancel_state P o s l
  client_step (receipt_sent row) t l = Commands.receipt_sent P row l
  client_step (release_inline o) t l = Delivery.release_inline P o l
  client_step (claim_delivery o) t l = (Delivery.claim_delivery P o t l).1
  client_step (finish_delivery o ending queue) t l =
      (Delivery.finish_delivery P o ending queue t l).1
  client_step prune t l = (Commands.prune P t l).1
  client_step reopen t l = Delivery.reopen P l

  unfoldable pub client_run : List (Tape × ClientCall P.Value) → ClientStore P → ClientStore P
  client_run [] l = l
  client_run ((t, c) ∷ calls) l = client_run calls (client_step c t l)

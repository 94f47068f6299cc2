-- ===== src/Client/Onward/Histories.antt =====
-- Whole histories move the client's ledger onward.
use codex_a2a_gateway.Base.{List, [], ◌∷◌}
use codex_a2a_gateway.Tx.{Tape}
use codex_a2a_gateway.Client.Setup.{ClientSetup, ClientStore}
use codex_a2a_gateway.Client.Calls.{ClientCall, client_step, client_run}
use codex_a2a_gateway.Client.Onward.{Onward, Onward-refl, Onward-trans}
use codex_a2a_gateway.Client.Onward.Accepted.{accept_snapshot-Onward}
use codex_a2a_gateway.Client.Onward.Commands.{
  create-Onward, advance-Onward, mark_submission-Onward, cancel_state-Onward, receipt_sent-Onward,
  prune-Onward,
}
use codex_a2a_gateway.Client.Onward.Deliveries.{
  view-Onward, resolve_call-Onward, release_inline-Onward, claim_delivery-Onward,
  finish_delivery-Onward, reopen-Onward,
}

pub client_step-Onward :
    (P : ClientSetup) (c : ClientCall P.Value) (t : Tape) (l : ClientStore P)
    → Onward l (client_step P c t l)
unfolding client_step
client_step-Onward P (ClientCall.create origin prompt artifact_ids wait) t l =
    create-Onward P t l origin prompt artifact_ids wait
client_step-Onward P (ClientCall.accept_snapshot s seq) t l = accept_snapshot-Onward P t l s seq
client_step-Onward P (ClientCall.advance seq) t l = advance-Onward P t l seq
client_step-Onward P (ClientCall.view o origin consume) t l = view-Onward P t l o origin consume
client_step-Onward P (ClientCall.resolve_call origin) t l = resolve_call-Onward P t l origin
client_step-Onward P (ClientCall.mark_submission o s) t l = mark_submission-Onward P t l o s
client_step-Onward P (ClientCall.cancel_state o s) t l = cancel_state-Onward P t l o s
client_step-Onward P (ClientCall.receipt_sent row) t l = receipt_sent-Onward P t l row
client_step-Onward P (ClientCall.release_inline o) t l = release_inline-Onward P t l o
client_step-Onward P (ClientCall.claim_delivery o) t l = claim_delivery-Onward P t l o
client_step-Onward P (ClientCall.finish_delivery o ending queue) t l =
    finish_delivery-Onward P t l o ending queue
client_step-Onward P ClientCall.prune t l = prune-Onward P t l
client_step-Onward P ClientCall.reopen t l = reopen-Onward P t l

-- Whatever the history of the client's ledger, restarts included: operations stay bound to their
-- flow, thread, call and command; a delivery never moves back; the result identity of a terminal
-- snapshot is kept, its state is replaced only where the outcome was unknown; a cancellation asked for
-- stays asked for; and the event cursor never decreases.
pub client_run-Onward :
    (P : ClientSetup) (calls : List (Tape × ClientCall P.Value)) (l : ClientStore P)
    → Onward l (client_run P calls l)
unfolding client_run
client_run-Onward P [] l = Onward-refl l
client_run-Onward P ((t, c) ∷ calls) l =
    Onward-trans (client_step-Onward P c t l) (client_run-Onward P calls _)

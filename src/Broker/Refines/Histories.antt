-- ===== src/Broker/Refines/Histories.antt =====
-- Every call, and so every history, refines the abstract specification.
use codex_a2a_gateway.Base.{List, [], ◌∷◌}
use codex_a2a_gateway.Tx.{Tape}
use codex_a2a_gateway.Broker.Setup.{Setup}
use codex_a2a_gateway.Broker.Snapshots.{Store}
use codex_a2a_gateway.Broker.Calls.{Call, perform, run}
use codex_a2a_gateway.Broker.Spec.{Writes, nothing, Writes-trans}
use codex_a2a_gateway.Broker.Refines.Ends.{finish-Writes, save_handle-Writes, recover-Writes}
use codex_a2a_gateway.Broker.Refines.Admission.{
  accept-Writes, get-Writes, artifact-Writes, put_artifact-Writes,
}
use codex_a2a_gateway.Broker.Refines.Claims.{
  claim-Writes, reconcilable-Writes, cancel_intent-Writes, claim_cancel-Writes,
  acquire_dispatcher-Writes,
}
use codex_a2a_gateway.Broker.Refines.Log.{events-Writes, receipt-Writes, purge-Writes}

-- Whatever a public method of the store does to the ledger, and whether it returns or raises, is a
-- sequence of the writes of the specification, under the bounds of the settings.
pub perform-Writes : (P : Setup) (c : Call) (t : Tape) (l : Store P) → Writes P l (perform P c t l)
unfolding perform
perform-Writes P (Call.acquire_dispatcher granted) t l = acquire_dispatcher-Writes P t l granted
perform-Writes P (Call.accept d req) t l = accept-Writes P t l d req
perform-Writes P (Call.get d o) t l = get-Writes P t l d o
perform-Writes P Call.claim t l = claim-Writes P t l
perform-Writes P (Call.finish d o e) t l = finish-Writes P t l d o e
perform-Writes P (Call.save_handle d o h) t l = save_handle-Writes P t l d o h
perform-Writes P Call.recover t l = recover-Writes P t l
perform-Writes P Call.reconcilable t l = reconcilable-Writes P t l
perform-Writes P (Call.cancel_intent d o) t l = cancel_intent-Writes P t l d o
perform-Writes P Call.claim_cancel t l = claim_cancel-Writes P t l
perform-Writes P (Call.events d after limit) t l = events-Writes P t l d after limit
perform-Writes P (Call.receipt d o result status) t l = receipt-Writes P t l d o result status
perform-Writes P (Call.put_artifact d bytes digest kind) t l =
    put_artifact-Writes P t l d bytes digest kind
perform-Writes P (Call.artifact d a) t l = artifact-Writes P t l d a
perform-Writes P Call.purge t l = purge-Writes P t l

-- Every history of public calls of the store, whatever the clock and the random draws, and whether
-- each call returns or raises, is a sequence of the writes of the specification, each under its
-- condition.
pub run-Writes : (P : Setup) (calls : List (Tape × Call)) (l : Store P) → Writes P l (run P calls l)
unfolding run
run-Writes P [] l = nothing
run-Writes P ((t, c) ∷ calls) l = Writes-trans (perform-Writes P c t l) (run-Writes P calls _)

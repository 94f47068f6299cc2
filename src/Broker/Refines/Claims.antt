-- ===== src/Broker/Refines/Claims.antt =====
-- `claim`, `reconcilable`, `cancel_intent`, `claim_cancel` and `acquire_dispatcher`.
use codex_a2a_gateway.Base.{
  In-first_selected, ℕ, String, ◌≡◌, refl, Bool, true, false, ◌||◌, Option, none, some, List, [],
  ◌∷◌, arith, leb, select_one, select, select_first,
}
use codex_a2a_gateway.Tx.{Tape, Session, pure}
use codex_a2a_gateway.Tx.Ensures.{
  Ensures, Ensures-modify, Ensures-pure, Ensures-if, Ensures-bind, transaction_relates,
}
use codex_a2a_gateway.Tx.Reads.{Reads-attempt, bind_reads}
use codex_a2a_gateway.Tx.Rules.{bind_gets, bind_or_raise, bind_require, bind_modify, bind_utcnow}
use codex_a2a_gateway.Tx.Errors.{Code}
use codex_a2a_gateway.Broker.Model.{
  State, Request, Descriptor, Operation, Payload, Ledger, is_final, is_active, is_terminal,
}
use codex_a2a_gateway.Broker.Setup.{Setup}
use codex_a2a_gateway.Broker.Rows.{of_operation, active_in_flow, created_before, updated_before}
use codex_a2a_gateway.Broker.Snapshots.{Store}
use codex_a2a_gateway.Broker.Dispatch.{
  Claim, is_accepted, is_claimable, candidate, failed_with, claim_outbox, acquire_dispatcher,
  refuse, start, dispatch, claim_payload, claim_row, claim_body, claim, mark_polled, reconcilable,
}
use codex_a2a_gateway.Broker.Cancel.{
  canceled, is_cancelable, request_cancel, cancel_row, cancel_intent, claim_cancel_row,
  claim_cancel,
}
use codex_a2a_gateway.Broker.Spec.{OperationWrite, Write, Writes, nothing, then_write}
use codex_a2a_gateway.Broker.Refines.Reading.{
  decrypt_value-Reads, snapshot_of-Reads, read_artifacts-Reads, bind_row, bind_dispatcher,
}
use codex_a2a_gateway.Broker.Refines.Ends.{record_event-Writes, bind_lock, finish_row-Writes}

pub is_accepted-eq : (s : State) → is_accepted s ≡ true → s ≡ State.accepted
unfolding is_accepted
is_accepted-eq s h = ground arith

-- A row that is neither accepted, final nor already asked to stop.
cancelable_state :
    (s : State) (requested : Bool)
    → is_accepted s ≡ false
    → (is_final s || requested) ≡ false
    → (is_active s ≡ true) × (requested ≡ false)
unfolding is_accepted is_final is_active
cancelable_state s requested started first = ground arith

failed-terminal : (c : Code) (m : String) → is_terminal (failed_with c m).state ≡ true
unfolding failed_with is_terminal
failed-terminal c m = refl

canceled-terminal : is_terminal canceled.state ≡ true
unfolding is_terminal
canceled-terminal = refl

module _ {Token : Type 0} where
  alone_in_flow :
      (l : Ledger Token) (row : Operation Token)
      → is_claimable l row ≡ true
      → select_one (active_in_flow row.device_id row.flow_id) l.operations ≡ none
  unfolding is_claimable
  alone_in_flow l row h = ground arith

  alone_candidate :
      (l : Ledger Token) (best : Operation Token)
      → candidate l ≡ some best
      → select_one (active_in_flow best.device_id best.flow_id) l.operations ≡ none
  unfolding candidate
  alone_candidate l best h =
      alone_in_flow l best (In-first_selected created_before (is_claimable l) l.operations best h).1

module _ (P : Setup) {l : Store P} {t : Tape} {s : Session (Store P)} (w : Writes P l s.store) where
  refuse-Writes :
      (d : String) (o : ℕ) (c : Code) (m : String)
      → Ensures (refuse P d o c m) t s (λ _ u. Writes P l u)
  unfolding refuse
  refuse-Writes d o c m =
      Ensures-bind (λ _ u. Writes P l u) _ _ (finish_row-Writes P w d o _ (failed-terminal c m))
        (λ _ u w'. Ensures-pure _ w')

module _ (P : Setup) {l : Store P} {t : Tape} {s : Session (Store P)} (w : Writes P l s.store)
    (best row : Operation P.Token)
    (found : select_one (of_operation best.device_id best.operation_id) s.store.operations
      ≡ some row)
    (fresh : row.state ≡ State.accepted)
    (alone : select_one (active_in_flow best.device_id best.flow_id) s.store.operations
      ≡ none) where
  start-Writes :
      (req : Request) (attachments : List (Descriptor × List ℕ))
      → Ensures (start P best.device_id best.operation_id req attachments) t s (λ _ u. Writes P l u)
  unfolding start claim_outbox
  start-Writes req attachments = bind_utcnow _ λ now. bind_modify _ _ (
      bind_utcnow _ λ later. bind_modify _ _ (
        Ensures-bind (λ _ u. Writes P l u) _ _
          (record_event-Writes P
            (then_write (then_write w (Write.outbox _))
              (Write.operation (OperationWrite.start best row later found fresh alone)))
            best.device_id best.operation_id)
          (λ _ u w'. Ensures-pure _ w')))

module _ (P : Setup) {l : Store P} {t : Tape} {s : Session (Store P)} (w : Writes P l s.store)
    (best row : Operation P.Token)
    (found : select_one (of_operation best.device_id best.operation_id) s.store.operations
      ≡ some row)
    (fresh : row.state ≡ State.accepted)
    (alone : select_one (active_in_flow best.device_id best.flow_id) s.store.operations
      ≡ none) where
  attached_Writes :
      (req : Request) (attachments : Option (List (Descriptor × List ℕ)))
      → Ensures
          (elim attachments [
            | none ↦
                refuse P best.device_id best.operation_id Code.artifact_expired
                  "input artifact unavailable"
            | some given ↦ start P best.device_id best.operation_id req given
          ])
          t
          s
          (λ _ u. Writes P l u)
  attached_Writes req none = refuse-Writes P w _ _ _ _
  attached_Writes req (some given) = start-Writes P w best row found fresh alone req given

module _ (P : Setup) {l : Store P} {t : Tape} {s : Session (Store P)} (w : Writes P l s.store)
    (best row : Operation P.Token)
    (found : select_one (of_operation best.device_id best.operation_id) s.store.operations
      ≡ some row)
    (fresh : row.state ≡ State.accepted)
    (alone : select_one (active_in_flow best.device_id best.flow_id) s.store.operations
      ≡ none) where
  dispatch-Writes :
      (payload : Payload P.Token)
      → Ensures (dispatch P best.device_id best.operation_id payload) t s (λ _ u. Writes P l u)
  unfolding dispatch
  dispatch-Writes payload = bind_reads _ _ (decrypt_value-Reads P payload.cipher) λ v n k.
      bind_or_raise _ _ _ λ req _.
        bind_reads _ _ (Reads-attempt _ (read_artifacts-Reads P best.device_id req.artifact_ids))
          λ attachments n k. attached_Writes P w best row found fresh alone req attachments

module _ (P : Setup) {l : Store P} {t : Tape} {s : Session (Store P)} (w : Writes P l s.store)
    (best row : Operation P.Token)
    (found : select_one (of_operation best.device_id best.operation_id) s.store.operations
      ≡ some row)
    (fresh : row.state ≡ State.accepted)
    (alone : select_one (active_in_flow best.device_id best.flow_id) s.store.operations
      ≡ none) where
  claim_payload-Writes :
      (payload : Option (Payload P.Token))
      → Ensures (claim_payload P best.device_id best.operation_id payload) t s (λ _ u. Writes P l u)
  unfolding claim_payload
  claim_payload-Writes none = refuse-Writes P w _ _ _ _
  claim_payload-Writes (some payload) = bind_utcnow _ λ now.
      Ensures-if (leb payload.expires_at now) _ _ (λ _. refuse-Writes P w _ _ _ _)
        (λ _. dispatch-Writes P w best row found fresh alone payload)

module _ (P : Setup) {l : Store P} {t : Tape} where
  claim_row-Writes :
      (best : Operation P.Token) (s : Session (Store P))
      → Writes P l s.store
      → select_one (active_in_flow best.device_id best.flow_id) s.store.operations ≡ none
      → Ensures (claim_row P best.device_id best.operation_id) t s (λ _ u. Writes P l u)
  unfolding claim_row
  claim_row-Writes best s w alone = bind_lock P w best.device_id _ λ u w' same_rows.
      bind_row P best.device_id best.operation_id _ λ row found.
        Ensures-if (is_accepted row.state) _ _
          (λ fresh. bind_gets _ _ (
            claim_payload-Writes P w' best row found (is_accepted-eq row.state fresh)
              (rw same_rows alone) _))
          (λ _. Ensures-pure _ w')

  chosen_Writes :
      (s : Session (Store P)) (chosen : Option (Operation P.Token))
      → Writes P l s.store
      → candidate s.store ≡ chosen
      → Ensures {A = Option Claim}
          (elim chosen [ none ↦ pure none | some row ↦ claim_row P row.device_id row.operation_id ])
          t
          s
          (λ _ u. Writes P l u)
  chosen_Writes s none w e = Ensures-pure _ w
  chosen_Writes s (some best) w e = claim_row-Writes best s w (alone_candidate s.store best e)

  mark_polled-Writes :
      (rows : List (Operation P.Token)) (s : Session (Store P))
      → Writes P l s.store
      → Ensures (mark_polled P rows) t s (λ _ u. Writes P l u)
  unfolding mark_polled
  mark_polled-Writes [] s w = Ensures-pure _ w
  mark_polled-Writes (row ∷ rows) s w = bind_utcnow _ λ now. bind_modify _ _ (
      mark_polled-Writes rows _ (
        then_write w
          (Write.operation (OperationWrite.mark_polled row.device_id row.operation_id now))))

  cancel_row-Writes :
      (row : Operation P.Token) (d : String) (o : ℕ) (s : Session (Store P))
      → Writes P l s.store
      → select_one (of_operation d o) s.store.operations ≡ some row
      → Ensures (cancel_row P row d o) t s (λ _ u. Writes P l u)
  unfolding cancel_row request_cancel
  cancel_row-Writes row d o s w found =
      Ensures-if (is_accepted row.state) _ _
        (λ _.
          Ensures-bind (λ _ u. Writes P l u) _ _ (finish_row-Writes P w d o _ canceled-terminal)
            (λ _ u w'. Ensures-pure _ w'))
        λ started.
          Ensures-if (is_final row.state || row.cancel_requested) _ _
            (λ _. bind_reads _ _ (snapshot_of-Reads P row) (λ _ n k. Ensures-pure _ w))
            λ first. bind_utcnow _ λ now. bind_modify _ _ (
              Ensures-bind (λ _ u. Writes P l u) _ _
                (record_event-Writes P
                  (then_write w (
                    Write.operation (
                      OperationWrite.request_cancel d o row now found
                        (cancelable_state row.state row.cancel_requested started first).0
                        (cancelable_state row.state row.cancel_requested started first).1)))
                  d o)
                (λ _ u w'. Ensures-pure _ w'))

  claim_cancel_row-Writes :
      (best : Operation P.Token) (s : Session (Store P))
      → Writes P l s.store
      → select_first updated_before (select is_cancelable s.store.operations) ≡ some best
      → Ensures (claim_cancel_row P best.device_id best.operation_id) t s (λ _ u. Writes P l u)
  unfolding claim_cancel_row
  claim_cancel_row-Writes best s w chosen = bind_lock P w best.device_id _ λ u w' same_rows.
      bind_row P best.device_id best.operation_id _ λ row found.
        Ensures-if (is_final row.state) _ _ (λ _. Ensures-pure _ w')
          λ still_open. bind_modify _ _ (
            bind_or_raise _ _ _ λ handle _. Ensures-pure _ (
              then_write w' (
                Write.operation
                  (OperationWrite.claim_cancel best row (rw same_rows chosen) found still_open))))

  chosen_cancel_Writes :
      (s : Session (Store P)) (chosen : Option (Operation P.Token))
      → Writes P l s.store
      → select_first updated_before (select is_cancelable s.store.operations) ≡ chosen
      → Ensures {A = Option (String × ℕ × String)}
          (elim chosen [
            | none ↦ pure none
            | some row ↦ claim_cancel_row P row.device_id row.operation_id
          ])
          t
          s
          (λ _ u. Writes P l u)
  chosen_cancel_Writes s none w e = Ensures-pure _ w
  chosen_cancel_Writes s (some best) w e = claim_cancel_row-Writes best s w e

module _ (P : Setup) (t : Tape) (l : Store P) where
  pub claim-Writes : Writes P l (claim P t l).1
  unfolding claim claim_body
  claim-Writes =
      transaction_relates (Writes P) _ t l nothing
        λ n k. bind_dispatcher P _ (λ _. bind_gets _ _ (chosen_Writes P _ _ nothing refl))

  pub reconcilable-Writes : Writes P l (reconcilable P t l).1
  unfolding reconcilable
  reconcilable-Writes = transaction_relates (Writes P) _ t l nothing λ n k. bind_gets _ _ (
      Ensures-bind (λ _ u. Writes P l u) _ _ (mark_polled-Writes P _ _ nothing)
        (λ _ u w. Ensures-pure _ w))

  pub cancel_intent-Writes : (d : String) (o : ℕ) → Writes P l (cancel_intent P d o t l).1
  unfolding cancel_intent
  cancel_intent-Writes d o = transaction_relates (Writes P) _ t l nothing λ n k.
      bind_lock P nothing d _
        (λ u w _. bind_row P d o _ (λ row found. cancel_row-Writes P row d o u w found))

  pub claim_cancel-Writes : Writes P l (claim_cancel P t l).1
  unfolding claim_cancel
  claim_cancel-Writes =
      transaction_relates (Writes P) _ t l nothing
        λ n k. bind_dispatcher P _ (λ _. bind_gets _ _ (chosen_cancel_Writes P _ _ nothing refl))

  pub acquire_dispatcher-Writes : (granted : Bool) → Writes P l (acquire_dispatcher P granted t l).1
  unfolding acquire_dispatcher
  acquire_dispatcher-Writes granted =
      transaction_relates (Writes P) _ t l nothing
        λ n k. bind_require _ _ _ (λ _. Ensures-modify _ (then_write nothing Write.own))

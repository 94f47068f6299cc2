-- ===== src/Client/Onward/Commands.antt =====
-- The commands move the client's ledger onward.
use codex_a2a_gateway.Base.{
  ℕ, String, refl, Bool, true, false, leb, Option, none, some, List, arith, is_some, if◌then◌else◌,
  select_one, insert,
}
use codex_a2a_gateway.Tx.{Tape, Session}
use codex_a2a_gateway.Tx.Ensures.{Ensures, Ensures-pure, Ensures-modify, transaction_relates}
use codex_a2a_gateway.Tx.Rules.{
  bind_gets, bind_or_raise, bind_require, bind_modify, bind_utcnow, bind_draw,
}
use codex_a2a_gateway.Client.Model.{Submission, CancelState, NativeOrigin, Sequence, ClientReceipt}
use codex_a2a_gateway.Client.Setup.{ClientSetup, ClientStore, ClientRow}
use codex_a2a_gateway.Client.Commands.{
  of_thread, add_flow, insert_command, repeat_command, new_command, create_body, create, advance,
  mark_submission, cancel_state, receipt_sent, prune, drop_payload, is_prunable, without_result,
}
use codex_a2a_gateway.Client.Onward.{
  ClientLater, ClientLater-same, Advances-refl, Onward, Onward-refl, Onward-trans,
}
use codex_a2a_gateway.Client.Onward.Rows.{update_any-Advances, insert-Advances}
use codex_a2a_gateway.Client.Onward.Accepted.{rows-Onward, deliver-Onward, raise_cursor-Onward}

module _ (P : ClientSetup) (t : Tape) (l : ClientStore P) where
  add_flow-Onward :
      (thread : String) (fresh : ℕ) (u : ClientStore P)
      → Onward l u
      → Onward l (add_flow P thread fresh u)
  unfolding add_flow
  add_flow-Onward thread fresh u w = branch (is_some (select_one (of_thread thread) u.flows))
    where
      branch :
          (b : Bool)
          → Onward l (
              if b then u else record u {
                flows = insert (record { thread_id = thread; flow_id = fresh }) u.flows;
              })
      branch true = w
      branch false = record { rows = w.rows; cursor = w.cursor }

  chosen-Onward :
      (known : Option (ClientRow P)) (s : Session (ClientStore P)) (origin : NativeOrigin)
      (prompt : String) (artifact_ids : List String) (wait digest : ℕ)
      → Onward l s.store
      → Ensures
          (elim known [
            | none ↦ new_command P origin prompt artifact_ids wait digest
            | some existing ↦ repeat_command P existing digest
          ])
          t
          s
          (λ _ u. Onward l u)
  unfolding repeat_command new_command insert_command
  chosen-Onward (some existing) s origin prompt artifact_ids wait digest w =
      bind_require _ _ _ λ _. Ensures-pure _ w
  chosen-Onward none s origin prompt artifact_ids wait digest w = bind_gets _ _ (
      bind_require _ _ _ λ _. bind_utcnow _ λ now. bind_draw _ λ o. bind_draw _ λ flow.
        bind_modify _ _ (
          bind_gets _ _ (
            bind_or_raise _ _ _ λ row _. bind_draw _ λ iv. bind_modify _ _ (
              Ensures-pure _ (
                Onward-trans (add_flow-Onward origin.thread_id flow s.store w)
                  (rows-Onward _ _ (insert-Advances _ _)))))))

  pub create-Onward :
      (origin : NativeOrigin) (prompt : String) (artifact_ids : List String) (wait : ℕ)
      → Onward l (create P origin prompt artifact_ids wait t l).1
  unfolding create create_body
  create-Onward origin prompt artifact_ids wait =
      transaction_relates Onward _ t l (Onward-refl l) λ n k. bind_require _ _ _ λ _.
        bind_require _ _ _ λ _.
          bind_require _ _ _
            λ _. bind_gets _ _ (chosen-Onward _ _ origin prompt artifact_ids wait _ (Onward-refl l))

  pub advance-Onward : (seq : Sequence) → Onward l (advance P seq t l).1
  unfolding advance
  advance-Onward seq =
      transaction_relates Onward _ t l (Onward-refl l)
        λ n k. bind_or_raise _ _ _ λ m _. Ensures-modify _ (raise_cursor-Onward m l)

  pub mark_submission-Onward : (o : ℕ) (s : Submission) → Onward l (mark_submission P o s l)
  unfolding mark_submission
  mark_submission-Onward o s =
      deliver-Onward l o _ (record { id = λ r. refl })
        λ r _.
          ClientLater-same r (record r { submission_state = s }) (λ h. h) refl refl refl refl refl
            (omega arith)

  pub cancel_state-Onward : (o : ℕ) (s : CancelState) → Onward l (cancel_state P o s l)
  unfolding cancel_state
  cancel_state-Onward o s =
      deliver-Onward l o _ (record { id = λ r. refl })
        λ r _.
          ClientLater-same r (record r { cancel_state = some s }) (λ h. refl) refl refl refl refl
            refl (omega arith)

  pub receipt_sent-Onward : (row : ClientReceipt) → Onward l (receipt_sent P row l)
  unfolding receipt_sent
  receipt_sent-Onward row = record { rows = Advances-refl l.operations; cursor = omega arith }

  pruned-ClientLater :
      (row : ClientRow P)
      → ClientLater row
          (record row { snapshot = without_result P row.snapshot; expired = true; payload = none })
  pruned-ClientLater row = record {
    flow_id = refl;
    thread_id = refl;
    call_id = refl;
    digest = refl;
    onward = omega arith;
    asked = λ h. h;
    outcome = λ s e terminal. record {
      snapshot = record s { result = P.null; error = P.null };
      found = rw e refl;
      result_id = refl;
      terminal = terminal;
      settled = λ _. refl;
    };
  }

  pub prune-Onward : Onward l (prune P t l).1
  unfolding prune
  prune-Onward = transaction_relates Onward _ t l (Onward-refl l) λ n k. bind_utcnow _ λ now.
      bind_modify _ _ (
        Ensures-modify _ (
          Onward-trans
            (rows-Onward l _ (
              update_any-Advances (λ row. leb row.payload_expires now) _ (record { id = λ r. refl })
                l.operations
                λ r _.
                  ClientLater-same r (record r { payload = none }) (λ h. h) refl refl refl refl refl
                    (omega arith)))
            (rows-Onward (drop_payload P now l) _ (
              update_any-Advances (is_prunable P now) _ (record { id = λ r. refl })
                (drop_payload P now l).operations λ r _. pruned-ClientLater r))))

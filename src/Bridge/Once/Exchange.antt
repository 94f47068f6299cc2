-- ===== src/Bridge/Once/Exchange.antt =====
-- The exchange with the broker, and the tools that cancel nothing, keep the log free of repetition.
use codex_a2a_gateway.Base.{
  ◌+◌, ◌-◌, ℕ, String, sym, subst, Bool, true, false, Option, none, some, List, [], ◌∷◌, leb,
}
use codex_a2a_gateway.Tx.Errors.{broker, value_error, key_error, internal, Result, ok, err}
use codex_a2a_gateway.Tx.{Tape, Session, transaction, pure}
use codex_a2a_gateway.Tx.Ensures.{
  Ensures, Ensures-pure, Ensures-if, Ensures-weaken, transaction_relates,
}
use codex_a2a_gateway.Tx.Rules.{bind_utcnow, bind_or_raise}
use codex_a2a_gateway.Client.Model.{
  NativeOrigin, Sequence, Submission, Command, ClientReceipt, Incoming,
}
use codex_a2a_gateway.Client.Setup.{ClientSetup, ClientStore}
use codex_a2a_gateway.Client.Commands.{read_row, open_payload, payload}
use codex_a2a_gateway.Client.Snapshots.{View, view}
use codex_a2a_gateway.Client.Delivery.{release_inline}
use codex_a2a_gateway.Client.Onward.{Onward, Onward-refl}
use codex_a2a_gateway.Client.Onward.Accepted.{read_row-Ensures, bind_row, accept_snapshot-Onward}
use codex_a2a_gateway.Client.Onward.Commands.{
  create-Onward, mark_submission-Onward, receipt_sent-Onward,
}
use codex_a2a_gateway.Client.Onward.Deliveries.{view-Onward, release_inline-Onward}
use codex_a2a_gateway.Bridge.Jobs.{
  Sent, Answer, failed, dropped, replied, http_error, canceled, python, Job, give, call,
}
use codex_a2a_gateway.Bridge.Sync.{
  ingest_body, different_identity, is_identity, after_get, refresh, recover, after_post,
  post_command, with_payload, submit_pending, dispatch_operation, dispatch_pending, after_receipt,
  flush_receipts,
}
use codex_a2a_gateway.Bridge.Tools.{
  Seconds, WaitRound, waited, whole, improper, client_error, find_own_row, get_operation,
  validate_wait, await_result, wait_operation, with_release, submit_operation,
}
use codex_a2a_gateway.Bridge.Once.Rules.{
  Keeps, moved-IsOnce, Keeps-give, Keeps-throw, Keeps-look, Keeps-call, Keeps-write,
  Keeps-ask_broker, Keeps-pause, Keeps-then, Keeps-tried, Keeps-if, Keeps-for_each,
  Keeps-check_status,
}

-- A tape for calls that read none.
abbrev pub still : Tape
still = record { clock = λ k. 0; random = λ k. 0 }

module _ (P : ClientSetup) where
  pub read_row-Onward :
      (o : ℕ) (origin : Option NativeOrigin) (t : Tape) (l : ClientStore P)
      → Onward l (transaction (read_row P o origin) t l).1
  read_row-Onward o origin t l = transaction_relates Onward _ t l (Onward-refl l) λ n k.
      Ensures-weaken _ _ (λ row u h. subst (Onward l) (sym h.0) (Onward-refl l))
        (read_row-Ensures P o origin)

  open_payload-Onward :
      {t : Tape} {s : Session (ClientStore P)} (l : ClientStore P) (c : Option P.Token)
      (expires : ℕ)
      → Onward l s.store
      → Ensures (open_payload P c expires) t s (λ _ u. Onward l u)
  unfolding open_payload
  open_payload-Onward l none expires w = Ensures-pure _ w
  open_payload-Onward l (some c) expires w = bind_utcnow _ λ now.
      Ensures-if (leb expires now) (pure none) _ (λ _. Ensures-pure _ w)
        (λ _. bind_or_raise _ _ _ λ command _. Ensures-pure _ w)

  payload-Onward : (o : ℕ) (t : Tape) (l : ClientStore P) → Onward l (payload P o t l).1
  unfolding payload
  payload-Onward o t l = transaction_relates Onward _ t l (Onward-refl l) λ n k.
      bind_row P o none _
        λ row n' k' found. open_payload-Onward l row.payload row.payload_expires (Onward-refl l)

module _ (P : ClientSetup) (identity : ℕ → String) where
  pub ingest_body-Keeps :
      (o : ℕ) (body : Option (Incoming P.Value)) → Keeps (ingest_body P identity o body)
  unfolding ingest_body
  ingest_body-Keeps o none = Keeps-throw different_identity
  ingest_body-Keeps o (some s) =
      Keeps-if (is_identity (identity o) s.operation_id) _ _
        (Keeps-call _ (λ t l. accept_snapshot-Onward P t l s Sequence.absent))
        (Keeps-throw different_identity)

  after_get-Keeps : (o : ℕ) (a : Answer P.Value) → Keeps (after_get P identity o a)
  unfolding after_get
  after_get-Keeps o failed = Keeps-throw http_error
  after_get-Keeps o dropped = Keeps-throw canceled
  after_get-Keeps o (replied status body) = Keeps-if _ _ _ (Keeps-give false) (
      Keeps-then _ _ (Keeps-check_status status)
        (λ _. Keeps-then _ _ (ingest_body-Keeps o body) (λ _. Keeps-give true)))

  pub refresh-Keeps : (o : ℕ) → Keeps (refresh P identity o)
  unfolding refresh
  refresh-Keeps o = Keeps-then _ _ (Keeps-ask_broker (Sent.get o) tt) (λ a. after_get-Keeps o a)

  pub recover-Keeps : Keeps (recover P identity)
  unfolding recover
  recover-Keeps = Keeps-then _ _ (Keeps-look _) (λ operations.
      Keeps-for_each _ operations (λ o. Keeps-then _ _ (refresh-Keeps o) (λ _. Keeps-give tt)))

  after_post-Keeps : (o : ℕ) (a : Answer P.Value) → Keeps (after_post P identity o a)
  unfolding after_post
  after_post-Keeps o failed = Keeps-throw http_error
  after_post-Keeps o dropped = Keeps-throw canceled
  after_post-Keeps o (replied status body) =
      Keeps-if _ _ _ (Keeps-write _ (λ l. mark_submission-Onward P still l o Submission.rejected))
        (Keeps-then _ _ (Keeps-check_status status) (λ _. ingest_body-Keeps o body))

  post_command-Keeps : (o : ℕ) (c : Option Command) → Keeps (post_command P identity o c)
  unfolding post_command
  post_command-Keeps o none =
      Keeps-write _ (λ l. mark_submission-Onward P still l o Submission.outcome_unknown)
  post_command-Keeps o (some command) =
      Keeps-then _ _ (Keeps-ask_broker (Sent.submit command) tt) (λ a. after_post-Keeps o a)

  with_payload-Keeps : (o : ℕ) (r : Result (Option Command)) → Keeps (with_payload P identity o r)
  unfolding with_payload
  with_payload-Keeps o (ok found) = post_command-Keeps o found
  with_payload-Keeps o (err internal) =
      Keeps-write _ (λ l. mark_submission-Onward P still l o Submission.payload_key_unavailable)
  with_payload-Keeps o (err (broker e)) = Keeps-throw (python (broker e))
  with_payload-Keeps o (err (value_error m)) = Keeps-throw (python (value_error m))
  with_payload-Keeps o (err (key_error m)) = Keeps-throw (python (key_error m))

  submit_pending-Keeps : (o : ℕ) → Keeps (submit_pending P identity o)
  unfolding submit_pending
  submit_pending-Keeps o =
      Keeps-then _ _ (Keeps-call _ (λ t l. payload-Onward P o t l)) (λ r. with_payload-Keeps o r)

  pub dispatch_pending-Keeps : Keeps (dispatch_pending P identity)
  unfolding dispatch_pending dispatch_operation
  dispatch_pending-Keeps = Keeps-then _ _ (Keeps-look _) (λ operations.
      Keeps-for_each _ operations (λ o.
        Keeps-then _ _ (refresh-Keeps o)
          (λ known. Keeps-if known _ _ (Keeps-give tt) (submit_pending-Keeps o))))

  after_receipt-Keeps :
      (row : ClientReceipt) (a : Answer P.Value) → Keeps (after_receipt P identity row a)
  unfolding after_receipt
  after_receipt-Keeps row failed = Keeps-throw http_error
  after_receipt-Keeps row dropped = Keeps-throw canceled
  after_receipt-Keeps row (replied status body) =
      Keeps-then _ _ (Keeps-check_status status)
        (λ _. Keeps-write _ (λ l. receipt_sent-Onward P still l row))

  pub flush_receipts-Keeps : Keeps (flush_receipts P identity)
  unfolding flush_receipts
  flush_receipts-Keeps = Keeps-then _ _ (Keeps-look _) (λ rows. Keeps-for_each _ rows (λ row.
      Keeps-then _ _ (Keeps-ask_broker (Sent.receipt row) tt) (λ a. after_receipt-Keeps row a)))

  pub find_own_row-Keeps :
      (o : ℕ) (origin : NativeOrigin) → Keeps (find_own_row P identity o origin)
  find_own_row-Keeps o origin = Keeps-call _ (λ t l. read_row-Onward P o (some origin) t l)

  pub view-Keeps :
      (o : ℕ) (origin : NativeOrigin) (consume : Bool)
      → Keeps (call {P = P} (λ t l. view P o origin consume t l))
  view-Keeps o origin consume = Keeps-call _ (λ t l. view-Onward P t l o origin consume)

  pub get_operation-Keeps :
      (origin : NativeOrigin) (o : ℕ) → Keeps (get_operation P identity origin o)
  unfolding get_operation
  get_operation-Keeps origin o =
      Keeps-then _ _ (find_own_row-Keeps o origin)
        (λ row. Keeps-then _ _ (Keeps-tried _ (refresh-Keeps o)) (λ _. view-Keeps o origin true))

  validate_wait-Keeps : (seconds : Seconds) → Keeps (validate_wait P identity seconds)
  unfolding validate_wait
  validate_wait-Keeps improper = Keeps-throw (client_error "invalid_wait")
  validate_wait-Keeps (whole n) =
      Keeps-if _ _ _ (Keeps-give n) (Keeps-throw (client_error "invalid_wait"))

  await_result-Keeps :
      (origin : NativeOrigin) (o deadline now : ℕ) (rounds : List WaitRound)
      → Keeps (await_result P identity origin o deadline now rounds)
  unfolding await_result
  await_result-Keeps origin o deadline now [] = Keeps-give none
  await_result-Keeps origin o deadline now (round ∷ rounds) =
      let time = now + round.worked in
      let later = time + waited (deadline - time) round.changed in
      let ends =
        Keeps-then _ (λ v. give (some v)) (view-Keeps o origin true) (λ v. Keeps-give (some v)) in
      let more =
        Keeps-then _ (λ _. await_result P identity origin o deadline later rounds) Keeps-pause
          (λ _. await_result-Keeps origin o deadline later rounds) in
      Keeps-then _ _ (view-Keeps o origin false)
        (λ shown. Keeps-if _ _ _ ends (Keeps-if _ _ _ ends more))

  pub wait_operation-Keeps :
      (origin : NativeOrigin) (o : ℕ) (seconds : Seconds) (started : ℕ) (rounds : List WaitRound)
      → Keeps (wait_operation P identity origin o seconds started rounds)
  unfolding wait_operation
  wait_operation-Keeps origin o seconds started rounds =
      Keeps-then _ _ (validate_wait-Keeps seconds) (λ n.
        Keeps-then _ _ (find_own_row-Keeps o origin)
          (λ row. await_result-Keeps origin o _ _ rounds))

  with_release-Keeps :
      (o : ℕ) (m : Job P (Option (View P.Value))) → Keeps m → Keeps (with_release P identity o m)
  unfolding with_release
  with_release-Keeps o m k = record {
    at = λ σ w i.
        moved-IsOnce (m σ w).1 (release_inline P o (m σ w).1.store) (m σ w).1.reconciled
          (m σ w).1.steps (release_inline-Onward P still (m σ w).1.store o) (k.at σ w i);
  }

  pub submit_operation-Keeps :
      (origin : NativeOrigin) (prompt : String) (artifact_ids : List String) (seconds : Seconds)
      (started : ℕ) (rounds : List WaitRound)
      → Keeps (submit_operation P identity origin prompt artifact_ids seconds started rounds)
  unfolding submit_operation
  submit_operation-Keeps origin prompt artifact_ids seconds started rounds =
      Keeps-then _ _ (validate_wait-Keeps seconds) (λ n.
        Keeps-then _ _
          (Keeps-if _ _ _ (Keeps-give tt) (Keeps-throw (client_error "invalid_prompt")))
          (λ _.
            Keeps-then _ _
              (Keeps-if _ _ _ (Keeps-give tt) (Keeps-throw (client_error "invalid_artifact_ids")))
              (λ _.
                Keeps-then _ _
                  (Keeps-call _ (λ t l. create-Onward P t l origin prompt artifact_ids n))
                  (λ o.
                    with_release-Keeps o _
                      (wait_operation-Keeps origin o (whole n) started rounds)))))

-- ===== src/Bridge/Sync.antt =====
-- The exchange with the broker: `ingest`, `refresh`, `recover`, `dispatch_pending` and
-- `flush_receipts` of hermes_a2a_gateway/client.py.
use codex_a2a_gateway.Base.{
  ℕ, String, Bool, true, false, ◌||◌, Option, none, some, ◌==◌, same, if◌then◌else◌,
}
use codex_a2a_gateway.Tx.Errors.{value_error, internal, Result, ok, err}
use codex_a2a_gateway.Client.Model.{Field, Sequence, Submission, Command, ClientReceipt, Incoming}
use codex_a2a_gateway.Client.Setup.{ClientSetup, ClientStore}
use codex_a2a_gateway.Client.Commands.{payload, ids, mark_submission, unsent_receipts, receipt_sent}
use codex_a2a_gateway.Client.Snapshots.{accept_snapshot}
use codex_a2a_gateway.Bridge.Jobs.{
  Sent, Answer, Raised, Job, give, throw, call, look, write, ask_broker, ◌>>=◌, ◌>>◌, for_each,
  check_status,
}

abbrev pub different_identity : Raised
different_identity = Raised.python (value_error "broker returned a different operation identity")

abbrev pub is_identity : String → Field → Bool
is_identity expected (Field.text t) = same t expected
is_identity expected _ = false

-- `identity` is the text of an operation's identity.
module _ (P : ClientSetup) (identity : ℕ → String) where
  -- self.ingest(response.json(), expected_id=operation_id).
  unfoldable pub ingest_body : ℕ → Option (Incoming P.Value) → Job P (Unit {0})
  ingest_body o none = throw different_identity
  ingest_body o (some s) =
      if is_identity (identity o) s.operation_id
      then call (accept_snapshot P s Sequence.absent)
      else throw different_identity

  unfoldable pub after_get : ℕ → Answer P.Value → Job P Bool
  unfolding ingest_body
  after_get o Answer.failed = throw Raised.http_error
  after_get o Answer.dropped = throw Raised.canceled
  after_get o (Answer.replied status body) =
      if status == 404 then give false else (do check_status status; ingest_body o body; give true)

  -- Whether the broker knows the operation.
  unfoldable pub refresh : ℕ → Job P Bool
  unfolding after_get
  refresh o = do answer ← ask_broker (Sent.get o); after_get o answer

  unfoldable pub recover : Job P (Unit {0})
  unfolding refresh
  recover = do
    operations ← look (ids P false)
    for_each (λ o. refresh o >>= λ known. give tt) operations

  abbrev pub is_refusal : ℕ → Bool
  is_refusal status =
      (status == 400)
      || ((status == 403) || ((status == 409) || ((status == 413) || (status == 422))))

  unfoldable pub after_post : ℕ → Answer P.Value → Job P (Unit {0})
  unfolding ingest_body
  after_post o Answer.failed = throw Raised.http_error
  after_post o Answer.dropped = throw Raised.canceled
  after_post o (Answer.replied status body) =
      if is_refusal status
      then write (mark_submission P o Submission.rejected)
      else (do check_status status; ingest_body o body)

  unfoldable pub post_command : ℕ → Option Command → Job P (Unit {0})
  unfolding after_post
  post_command o none = write (mark_submission P o Submission.outcome_unknown)
  post_command o (some command) = do answer ← ask_broker (Sent.submit command); after_post o answer

  -- An InvalidToken of the payload, or any other exception.
  unfoldable pub with_payload : ℕ → Result (Option Command) → Job P (Unit {0})
  unfolding post_command
  with_payload o (ok found) = post_command o found
  with_payload o (err internal) = write (mark_submission P o Submission.payload_key_unavailable)
  with_payload o (err e) = throw (Raised.python e)

  abbrev pub reified :
      Result (Option Command) × ClientStore P → Result (Result (Option Command)) × ClientStore P
  reified (r, l) = (ok r, l)

  unfoldable pub submit_pending : ℕ → Job P (Unit {0})
  unfolding with_payload
  submit_pending o = do found ← call (λ t l. reified (payload P o t l)); with_payload o found

  unfoldable pub dispatch_operation : ℕ → Job P (Unit {0})
  unfolding refresh submit_pending
  dispatch_operation o = do known ← refresh o; if known then give tt else submit_pending o

  unfoldable pub dispatch_pending : Job P (Unit {0})
  unfolding dispatch_operation
  dispatch_pending = do operations ← look (ids P true); for_each dispatch_operation operations

  unfoldable pub after_receipt : ClientReceipt → Answer P.Value → Job P (Unit {0})
  after_receipt row Answer.failed = throw Raised.http_error
  after_receipt row Answer.dropped = throw Raised.canceled
  after_receipt row (Answer.replied status body) = do
    check_status status
    write (receipt_sent P row)

  unfoldable pub flush_receipts : Job P (Unit {0})
  unfolding after_receipt
  flush_receipts = do
    rows ← look (unsent_receipts P)
    for_each (λ row. ask_broker (Sent.receipt row) >>= λ answer. after_receipt row answer) rows

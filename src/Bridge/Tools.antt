-- ===== src/Bridge/Tools.antt =====
-- The tools: `get`, `wait`, `cancel` and `submit` of hermes_a2a_gateway/client.py. Identities of
-- operations are numbers, which `native_uuid` has read. A wait is
-- asked for in whole seconds, and its clock counts milliseconds.
use codex_a2a_gateway.Base.{
  ℕ, ◌+◌, ◌-◌, ◌*◌, min, String, Bool, true, false, not, ◌&&◌, ◌||◌, Option, none, some, List, [],
  ◌∷◌, leb, length, is_some, if◌then◌else◌,
}
use codex_a2a_gateway.Tx.Errors.{value_error}
use codex_a2a_gateway.Tx.{transaction}
use codex_a2a_gateway.Broker.Content.{utf8_size}
use codex_a2a_gateway.Client.Model.{NativeOrigin, Submission, CancelState}
use codex_a2a_gateway.Client.Setup.{ClientSetup, ClientRow}
use codex_a2a_gateway.Client.Texts.{is_blank}
use codex_a2a_gateway.Client.Commands.{read_row, are_uuids, create, cancel_state}
use codex_a2a_gateway.Client.Snapshots.{View, view}
use codex_a2a_gateway.Client.Delivery.{release_inline}
use codex_a2a_gateway.Bridge.Jobs.{
  Sent, Answer, Raised, Outcome, World, Job, give, throw, call, write, tried, ask_broker, pause,
  ◌>>=◌, ◌>>◌, check_status,
}
use codex_a2a_gateway.Bridge.Sync.{ingest_body, refresh}

-- What a wait is asked for: seconds, or a value that is no finite number of zero or more.
pub data Seconds : Type 0 where
  whole : ℕ → Seconds
  improper : Seconds

-- A round of a wait: the milliseconds that its own work takes, and those after which a change of the
-- ledger ends its pause, if one comes.
pub record WaitRound : Type 0 where
  pub worked : ℕ
  pub changed : Option ℕ

-- What wait_for(changed.wait(), min(remaining, 1)) takes.
unfoldable pub waited : ℕ → Option ℕ → ℕ
waited remaining none = min remaining 1000
waited remaining (some after) = min after (min remaining 1000)

abbrev pub client_error : String → Raised
client_error code = Raised.python (value_error code)

abbrev pub stops_waiting : Submission → Bool
stops_waiting Submission.rejected = true
stops_waiting Submission.payload_key_unavailable = true
stops_waiting _ = false

module _ (P : ClientSetup) (identity : ℕ → String) where
  abbrev pub find_own_row : ℕ → NativeOrigin → Job P (ClientRow P)
  find_own_row o origin = call (transaction (read_row P o (some origin)))

  unfoldable pub get_operation : NativeOrigin → ℕ → Job P (View P.Value)
  unfolding refresh
  get_operation origin o = do
    row ← find_own_row o origin
    refreshed ← tried (refresh P identity o)
    call (view P o origin true)

  unfoldable pub validate_wait : Seconds → Job P ℕ
  validate_wait improper = throw (client_error "invalid_wait")
  validate_wait (whole n) = if leb n 60 then give n else throw (client_error "invalid_wait")

  -- The loop of `wait`, from a time on. A list of rounds that ends is a cancellation.
  unfoldable pub await_result :
      NativeOrigin → ℕ → ℕ → ℕ → List WaitRound → Job P (Option (View P.Value))
  unfolding waited
  await_result origin o deadline now [] = give none
  await_result origin o deadline now (round ∷ rounds) =
      let time = now + round.worked in
      let later = time + waited (deadline - time) round.changed in
      let ends = call (view P o origin true) >>= λ v. give (some v) in
      let goes_on = pause >>= λ _. await_result origin o deadline later rounds in
      call (view P o origin false) >>= λ shown.
      if is_some shown.snapshot.result_id || stops_waiting shown.submission_state
      then ends
      else if leb deadline time
      then ends
      else goes_on

  unfoldable pub wait_operation :
      NativeOrigin → ℕ → Seconds → ℕ → List WaitRound → Job P (Option (View P.Value))
  unfolding validate_wait await_result
  wait_operation origin o seconds started rounds = do
    n ← validate_wait seconds
    row ← find_own_row o origin
    await_result origin o (started + n * 1000) started rounds

  unfoldable pub after_cancel : ℕ → Answer P.Value → Job P (Unit {0})
  unfolding ingest_body
  after_cancel o Answer.failed = throw Raised.http_error
  after_cancel o Answer.dropped = throw Raised.canceled
  after_cancel o (Answer.replied status body) = do
    check_status status
    ingest_body P identity o body

  abbrev pub cancel_outcome : Option (Unit {0}) → CancelState
  cancel_outcome none = CancelState.outcome_unknown
  cancel_outcome (some u) = CancelState.requested

  -- The request of a cancellation that was not asked for before.
  unfoldable pub send_cancel : ℕ → Job P (Unit {0})
  unfolding after_cancel
  send_cancel o = do
    write (cancel_state P o CancelState.sending)
    done ← tried (ask_broker (Sent.cancel o) >>= λ answer. after_cancel o answer)
    write (cancel_state P o (cancel_outcome done))

  unfoldable pub cancel_operation : NativeOrigin → ℕ → Job P (View P.Value)
  unfolding send_cancel
  cancel_operation origin o = do
    row ← find_own_row o origin
    if is_some row.cancel_state then give tt else send_cancel o
    call (view P o origin false)

  -- finally: release_inline.
  abbrev pub released :
      ℕ → Outcome (Option (View P.Value)) × World P → Outcome (Option (View P.Value)) × World P
  unfolding release_inline
  released o (r, w) = (r, record w { store = release_inline P o w.store })

  unfoldable pub with_release : ℕ → Job P (Option (View P.Value)) → Job P (Option (View P.Value))
  unfolding released
  with_release o m σ w = released o (m σ w)

  unfoldable pub is_prompt : String → Bool
  unfolding is_blank utf8_size
  is_prompt prompt = not (is_blank prompt) && leb (utf8_size prompt) 262144

  unfoldable pub submit_operation :
      NativeOrigin
      → String
      → List String
      → Seconds
      → ℕ
      → List WaitRound
      → Job P (Option (View P.Value))
  unfolding validate_wait is_prompt wait_operation with_release
  submit_operation origin prompt artifact_ids seconds started rounds = do
    n ← validate_wait seconds
    if is_prompt prompt then give tt else throw (client_error "invalid_prompt")
    if leb (length artifact_ids) 16 && are_uuids artifact_ids
        then give tt
        else throw (client_error "invalid_artifact_ids")
    o ← call (create P origin prompt artifact_ids n)
    with_release o (wait_operation origin o (whole n) started rounds)

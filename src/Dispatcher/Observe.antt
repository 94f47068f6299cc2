-- ===== src/Dispatcher/Observe.antt =====
-- `_observe` and `_unknown` of hermes_a2a_gateway/broker.py. The decoder of base64 and the parser of
-- times are parameters.
use codex_a2a_gateway.Base.{
  ℕ, ◌+◌, ◌*◌, ◌/◌, String, Bool, true, false, Option, none, some, List, [], ◌∷◌, ◌++◌, leb,
  if◌then◌else◌,
}
use Prim.Native.String.{count}
use codex_a2a_gateway.Tx.Errors.{Code, Error, Result, ok, err, broker_error}
use codex_a2a_gateway.Diagnostics.{TaskState, PeerTask, Part, wants_input, peer_error_details}
use codex_a2a_gateway.Broker.Model.{State, Outcome, Descriptor, is_final}
use codex_a2a_gateway.Broker.Setup.{Setup}
use codex_a2a_gateway.Broker.Accept
use codex_a2a_gateway.Broker.Artifacts.{put_artifact}
use codex_a2a_gateway.Broker.Finish.{Ending, finish, save_handle}
use codex_a2a_gateway.Dispatcher.Jobs.{Job, give, fail, ask, and_then}

-- The state that a task ends in: `FINAL` states end an operation as they are, `rejected` and
-- `input_required` end it as failed, and others do not.
pub data TaskEnd : Type 0 where
  goes_on refused : TaskEnd
  ends_as : State → TaskEnd

unfoldable pub task_end : TaskState → TaskEnd
task_end TaskState.completed = TaskEnd.ends_as State.completed
task_end TaskState.failed = TaskEnd.ends_as State.failed
task_end TaskState.canceled = TaskEnd.ends_as State.canceled
task_end TaskState.rejected = TaskEnd.refused
task_end TaskState.input_required = TaskEnd.refused
task_end _ = TaskEnd.goes_on

-- result.state in FINAL | {"rejected", "input_required"}.
unfoldable pub is_ending : TaskEnd → Bool
is_ending TaskEnd.goes_on = false
is_ending _ = true

unfoldable pub submission_unknown : Ending
submission_unknown = record {
  state = State.outcome_unknown;
  result = none;
  code = some Code.submission_unknown;
  message = some "submission may have started; no automatic resend";
}

module _ (P : Setup) (b64decode : String → Option (List ℕ))
    (read_instant : String → Option String) where
  unfoldable pub refused_ending : PeerTask → Ending
  refused_ending task = record {
    state = State.failed;
    result = some (Outcome.gateway_error_details (peer_error_details read_instant task));
    code = some (if wants_input task.state then Code.peer_requires_input else Code.peer_rejected);
    message = some "peer could not complete the operation";
  }

  unfoldable pub ended_ending : State → String → List Descriptor → Ending
  ended_ending state text descriptors = record {
    state = state;
    result = some (Outcome.reply text descriptors);
    code = none;
    message = none;
  }

  -- len(raw) > ((self.settings.max_artifact_bytes + 2) // 3) * 4, negated.
  unfoldable pub fits_encoded : String → Bool
  fits_encoded raw = leb (count raw) (((P.max_artifact_bytes + 2) / 3) * 4)

  abbrev artifact_error : Error
  artifact_error = broker_error Code.artifact_too_large "peer artifact exceeds configured limit" 502

  abbrev media_type : Option String → String
  media_type none = "application/octet-stream"
  media_type (some t) = t

  -- The bytes of a part's raw text.
  unfoldable pub decode_raw : Option String → Result (List ℕ)
  unfolding fits_encoded
  decode_raw none = err artifact_error
  decode_raw (some raw) =
      if fits_encoded raw
      then elim (b64decode raw) [
        | some bytes ↦ ok bytes
        | none ↦
            err (broker_error Code.invalid_peer_artifact "peer artifact has invalid encoding" 502)
      ]
      else err artifact_error

  abbrev from_result : {A : Type 0} → Result A → Job P A
  from_result (ok a) = give a
  from_result (err e) = fail e

  unfoldable pub store_raw : String → Option String → Option String → Job P Descriptor
  store_raw d raw media =
      and_then (from_result (decode_raw raw))
        λ bytes. ask (put_artifact P d bytes (P.content_digest bytes) (media_type media))

  -- A part of an artifact adds at most one descriptor.
  unfoldable pub store_part : String → Part → Job P (List Descriptor)
  store_part d Part.no_object = give []
  store_part d (Part.fields part) =
      if part.has_url
      then fail
          (broker_error Code.unsupported_peer_artifact "peer URL artifacts are not supported" 502)
      else elim part.raw [
        | none ↦ give []
        | some raw ↦ and_then (store_raw d raw part.media_type) (λ stored. give (stored ∷ []))
      ]

  unfoldable pub store_parts : String → List Part → Job P (List Descriptor)
  store_parts d [] = give []
  store_parts d (part ∷ parts) =
      and_then (store_part d part)
        λ first. and_then (store_parts d parts) (λ rest. give (first ++ rest))

  unfoldable pub store_results : String → List (List Part) → Job P (List Descriptor)
  store_results d [] = give []
  store_results d (parts ∷ artifacts) =
      and_then (store_parts d parts)
        λ first. and_then (store_results d artifacts) (λ rest. give (first ++ rest))

  -- What is done with an ending task of an operation that is not final.
  unfoldable pub end_operation : String → ℕ → PeerTask → TaskEnd → Job P (Unit {0})
  end_operation d o task TaskEnd.goes_on = give tt
  end_operation d o task TaskEnd.refused =
      and_then (ask (finish P d o (refused_ending task))) (λ _. give tt)
  end_operation d o task (TaskEnd.ends_as state) =
      and_then (store_results d task.artifacts)
        λ stored. and_then (ask (finish P d o (ended_ending state task.text stored))) (λ _. give tt)

  unfoldable pub observe_end : String → ℕ → PeerTask → TaskEnd → Job P (Unit {0})
  observe_end d o task TaskEnd.goes_on = give tt
  observe_end d o task ending =
      and_then (ask (Accept.get P d o))
        λ current. if is_final current.state then give tt else end_operation d o task ending

  unfoldable pub observe : String → ℕ → PeerTask → Job P (Unit {0})
  observe d o task =
      and_then (ask (save_handle P d o task.task_id))
        λ _. observe_end d o task (task_end task.state)

  -- `_unknown`.
  unfoldable pub mark_unknown : String → ℕ → Job P (Unit {0})
  mark_unknown d o = and_then (ask (finish P d o submission_unknown)) (λ _. give tt)

-- ===== src/Dispatcher/Tests.antt =====
-- The theorem on submissions applied to a small one.
use codex_a2a_gateway.Base.{ℕ, ◌+◌, String, refl, true, Option, none, List, [], ◌∷◌}
use codex_a2a_gateway.Tx.{Tape}
use codex_a2a_gateway.Diagnostics.{TaskState, PeerTask, peer_error_details}
use codex_a2a_gateway.Broker.Calls.{Call, run, empty}
use codex_a2a_gateway.Broker.Settled.{Settled}
use codex_a2a_gateway.Broker.Demo.{demo, at_time, ask, computing}
use codex_a2a_gateway.Dispatcher.Jobs.{Surroundings, World, give, fail, tried, and_then}
use codex_a2a_gateway.Dispatcher.Jobs.{ask as call_store}
use codex_a2a_gateway.Dispatcher.Observe.{
  task_end, is_ending, submission_unknown, refused_ending, ended_ending, fits_encoded, decode_raw,
  store_raw, store_part, store_parts, store_results, end_operation, observe_end, observe,
  mark_unknown,
}
use codex_a2a_gateway.Dispatcher.Submit.{
  StreamEnd, is_running_state, is_artifact_code, is_result_code, failed_ending, after_task, drain,
  record_failure, settle, submit, observe_same, cancel_peer, after_read, reconcile, close_streams,
}
use codex_a2a_gateway.Dispatcher.Settles.{submit-Settled}

-- A claimed operation, and a request of its cancellation while the peer works on it.
abbrev claimed : List (Tape × Call)
claimed =
    (at_time 1, Call.acquire_dispatcher true)
    ∷ (at_time 2, Call.accept "laptop" (ask 7 1))
    ∷ (at_time 3, Call.claim)
    ∷ []

abbrev around : Surroundings
around = record {
  tape = λ n. at_time (10 + n);
  others = λ n. (at_time 9, Call.cancel_intent "laptop" 7) ∷ [];
}

abbrev world : World demo
world = record { store = run demo claimed (empty demo); calls = 0 }

abbrev done : PeerTask
done = record {
  task_id = "task-1";
  context_id = "ctx";
  state = TaskState.completed;
  text = "done";
  artifacts = [];
  metadata = none;
}

abbrev no_base64 : String → Option (List ℕ)
no_base64 s = none

abbrev no_instant : String → Option String
no_instant s = none

submit-Settled_example :
    Settled "laptop" 7
      (submit demo no_base64 no_instant "laptop" 7 (done ∷ []) StreamEnd.eof around world).1.store
unfolding computing peer_error_details give fail call_store tried and_then task_end is_ending
    submission_unknown refused_ending ended_ending fits_encoded decode_raw store_raw store_part
    store_parts store_results end_operation observe_end observe mark_unknown is_running_state
    is_artifact_code is_result_code failed_ending after_task drain record_failure settle submit
    observe_same cancel_peer after_read reconcile close_streams
submit-Settled_example =
    submit-Settled demo no_base64 no_instant "laptop" 7 (done ∷ []) StreamEnd.eof around world refl

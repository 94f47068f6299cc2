-- ===== src/Dispatcher/Demo.antt =====
-- The theorems on the dispatcher's tables applied to a small broker.
use codex_a2a_gateway.Base.{ℕ, ◌+◌, String, ◌≡◌, ◌≢◌, refl, true, inl, Option, none, List, [], ◌∷◌}
use codex_a2a_gateway.Tx.{Tape}
use codex_a2a_gateway.Tx.Errors.{Result}
use codex_a2a_gateway.Broker.Calls.{Call}
use codex_a2a_gateway.Broker.Dispatches.{Key}
use codex_a2a_gateway.Broker.Settled.{Settled}
use codex_a2a_gateway.Broker.Demo.{demo, at_time, ask, computing}
use codex_a2a_gateway.Dispatcher.Jobs.{Surroundings, give, fail, and_then}
use codex_a2a_gateway.Dispatcher.Jobs.{ask as call_store}
use codex_a2a_gateway.Dispatcher.Observe.{submission_unknown, mark_unknown}
use codex_a2a_gateway.Dispatcher.Submit.{is_running_state, close_streams}
use codex_a2a_gateway.Dispatcher.Tables.{
  Ended, Results, no_jobs, has_job, put_job, reap, reap_tables, add_stream, add_cancel, add_read,
  is_busy, add_reads,
}
use codex_a2a_gateway.Dispatcher.Step.{
  done, raise_error, change, reap_done, then_move, and_finally, asking, fill_cancels, fill_reads,
  fill_streams, step, close_tables, aclose, serve, run,
}
use codex_a2a_gateway.Dispatcher.Tended.{Orderly}
use codex_a2a_gateway.Dispatcher.Rounds.{opened, serve-Orderly, serve-ends}
use codex_a2a_gateway.Dispatcher.Closes.{aclose-Settled}

-- Two operations of two flows wait.
abbrev waiting_calls : List (Tape × Call)
waiting_calls =
    (at_time 1, Call.acquire_dispatcher true)
    ∷ (at_time 2, Call.accept "laptop" (ask 7 1))
    ∷ (at_time 3, Call.accept "laptop" (ask 8 2))
    ∷ []

-- Nobody else calls.
abbrev surroundings : Surroundings
surroundings = record { tape = λ n. at_time (10 + n); others = λ n. [] }

abbrev no_end : Key → Option (Result (Unit {0}))
no_end k = none

abbrev no_results : Results
no_results = record { streams = no_end; reads = no_end; cancels = no_end }

abbrev no_base64 : String → Option (List ℕ)
no_base64 s = none

abbrev no_instant : String → Option String
no_instant s = none

abbrev two_turns : List Results
two_turns = no_results ∷ no_results ∷ []

serve-Orderly_example :
    Orderly 2 (serve demo two_turns surroundings (opened demo waiting_calls)).1.tables
serve-Orderly_example = serve-Orderly demo waiting_calls surroundings two_turns

serve-ends_example :
    (serve demo two_turns surroundings (opened demo waiting_calls)).0 ≢ Ended.cut_off
serve-ends_example = serve-ends demo waiting_calls surroundings two_turns

-- Names what these examples compute with.
unfoldable computing_steps : Unit {0}
unfolding computing give fail call_store and_then submission_unknown mark_unknown is_running_state
    close_streams has_job put_job reap reap_tables add_stream add_cancel add_read is_busy add_reads
    done raise_error change reap_done then_move and_finally asking fill_cancels fill_reads
    fill_streams step close_tables aclose serve run
computing_steps = tt

-- Both operations have a job after the first step.
both_submitted :
    (serve demo two_turns surroundings (opened demo waiting_calls)).1.tables.streams
    ≡ ("laptop", 7) ∷ ("laptop", 8) ∷ []
unfolding computing_steps
both_submitted = refl

aclose-Settled_example :
    Settled "laptop" 7
      (aclose demo no_base64 no_instant surroundings
        (serve demo two_turns surroundings (opened demo waiting_calls)).1).1.world.store
unfolding computing_steps
aclose-Settled_example =
    aclose-Settled demo no_base64 no_instant waiting_calls surroundings two_turns refl ("laptop", 7)
      (inl refl)

-- A run that is canceled after two steps leaves no job, and the dispatcher closed.
run_closes :
    (run demo no_base64 no_instant true two_turns surroundings (opened demo waiting_calls)).1.tables
    ≡ record no_jobs { closed = true }
unfolding computing_steps
run_closes = refl

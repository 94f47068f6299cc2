-- ===== src/Bridge/Tests.antt =====
-- The theorems applied to a daemon on a small ledger, and a test of what it sends.
use codex_a2a_gateway.Base.{none, ℕ, ◌*◌, String, ◌≡◌, refl, some, true, List, [], ◌∷◌, arith}
use codex_a2a_gateway.Histories.{NoRepeat}
use codex_a2a_gateway.Client.Calls.{new_client}
use codex_a2a_gateway.Client.Demo.{
  small_client, drawing, origin, operation_text, completed, client_computing,
}
use codex_a2a_gateway.Bridge.Jobs.{
  Around, Answer, QueueAnswer, give, throw, call, look, tried, write, ask_broker, ask_queue, pause,
  note_reconciled, ◌>>=◌, for_each, check_status,
}
use codex_a2a_gateway.Bridge.Sync.{
  ingest_body, after_get, refresh, recover, after_post, post_command, with_payload, submit_pending,
  dispatch_operation, dispatch_pending, after_receipt, flush_receipts,
}
use codex_a2a_gateway.Bridge.Deliveries.{
  is_member, was_reconciled, after_reconcile, reconcile_delivery, after_enqueue, deliver_claimed,
  claim_and_deliver, deliver_operation, deliver_ready,
}
use codex_a2a_gateway.Bridge.Tools.{
  Seconds, WaitRound, waited, get_operation, validate_wait, await_result, wait_operation,
  after_cancel, send_cancel, cancel_operation, with_release, is_prompt, submit_operation,
}
use codex_a2a_gateway.Bridge.Tasks.{
  Task, new_world, work_cycle, restart_daemon, run_task, run_tasks,
}
use codex_a2a_gateway.Bridge.Once.{enqueues, cancels}
use codex_a2a_gateway.Bridge.Once.Runs.{run_tasks-NoRepeat}
use codex_a2a_gateway.Bridge.Waits.{Ends, tools-Ends}

abbrev around : Around String
around = record {
  tape = λ n. drawing (10 * n);
  others = λ n. [];
  http = λ n. Answer.replied 200 (some completed);
  queue = λ n. QueueAnswer.accepted "queue-1";
}

-- As `around`, but the daemon is canceled during a request.
abbrev stopping : Around String
stopping = record around { http = λ n. Answer.dropped; queue = λ n. QueueAnswer.dropped }

abbrev identity : ℕ → String
identity o = operation_text

-- A submission, two cycles of which the first is cut short while it enqueues, and two cancellations.
abbrev tasks : List (Around String × Task)
tasks =
    (
      around,
      Task.submit origin "hi" [] (Seconds.whole 3) 1000
          (record { worked = 8000; changed = none } ∷ []),
    )
    ∷ (record around { queue = λ n. QueueAnswer.dropped }, Task.work true 1)
    ∷ (stopping, Task.cancel origin 31)
    ∷ (around, Task.restart)
    ∷ (around, Task.work true 1)
    ∷ (around, Task.cancel origin 31)
    ∷ []

unfoldable bridge_computing : Unit {0}
unfolding client_computing give throw call look tried write ask_broker ask_queue pause
    note_reconciled ◌>>=◌ for_each check_status ingest_body after_get refresh recover after_post
    post_command with_payload submit_pending dispatch_operation dispatch_pending after_receipt
    flush_receipts is_member was_reconciled after_reconcile reconcile_delivery after_enqueue
    deliver_claimed claim_and_deliver deliver_operation deliver_ready get_operation validate_wait
    waited await_result wait_operation after_cancel send_cancel cancel_operation with_release
    is_prompt submit_operation work_cycle restart_daemon run_task run_tasks
bridge_computing = tt

enqueues_test :
    enqueues
      (run_tasks small_client identity tasks
        (new_world small_client (new_client small_client))).sent
    ≡ 31 ∷ []
unfolding bridge_computing
enqueues_test = refl

cancels_test :
    cancels
      (run_tasks small_client identity tasks
        (new_world small_client (new_client small_client))).sent
    ≡ 31 ∷ []
unfolding bridge_computing
cancels_test = refl

run_tasks-NoRepeat_example :
    NoRepeat (
      enqueues
        (run_tasks small_client identity tasks
          (new_world small_client (new_client small_client))).sent)
    × NoRepeat (
        cancels
          (run_tasks small_client identity tasks
            (new_world small_client (new_client small_client))).sent)
run_tasks-NoRepeat_example =
    run_tasks-NoRepeat small_client identity tasks (new_client small_client)

-- Two pauses see no change; the other one ends early.
abbrev rounds : List WaitRound
rounds =
    record { worked = 5; changed = none }
    ∷ record { worked = 0; changed = some 200 }
    ∷ record { worked = 7; changed = none }
    ∷ []

tools-Ends_example :
    Ends (submit_operation small_client identity origin "hi" [] (Seconds.whole 1) 1000 rounds)
    × ((o : ℕ) → Ends (wait_operation small_client identity origin o (Seconds.whole 1) 1000 rounds))
tools-Ends_example = tools-Ends small_client identity origin "hi" [] 1 1000 rounds (omega arith)

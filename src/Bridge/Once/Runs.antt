-- ===== src/Bridge/Once/Runs.antt =====
-- Whatever the daemon runs, its log of requests has no repetition.
use codex_a2a_gateway.Base.{ℕ, String, List, [], ◌∷◌, ◌%◌, ◌==◌}
use codex_a2a_gateway.Histories.{NoRepeat}
use codex_a2a_gateway.Client.Setup.{ClientSetup, ClientStore}
use codex_a2a_gateway.Client.Onward.Commands.{prune-Onward}
use codex_a2a_gateway.Client.Onward.Deliveries.{reopen-Onward}
use codex_a2a_gateway.Bridge.Jobs.{World, Around}
use codex_a2a_gateway.Bridge.Tasks.{
  Task, new_world, sync_cycle, work_cycle, restart_daemon, run_task, run_tasks,
}
use codex_a2a_gateway.Bridge.Once.{enqueues, cancels, IsOnce}
use codex_a2a_gateway.Bridge.Once.Rules.{
  Keeps, moved-IsOnce, Keeps-give, Keeps-call, Keeps-then, Keeps-tried, Keeps-if,
}
use codex_a2a_gateway.Bridge.Once.Exchange.{
  still, recover-Keeps, dispatch_pending-Keeps, flush_receipts-Keeps, get_operation-Keeps,
  wait_operation-Keeps, submit_operation-Keeps,
}
use codex_a2a_gateway.Bridge.Once.Handing.{deliver_ready-Keeps}
use codex_a2a_gateway.Bridge.Once.Canceling.{cancel_operation-Keeps}

module _ (P : ClientSetup) (identity : ℕ → String) where
  sync_cycle-Keeps : (cycle : ℕ) → Keeps (sync_cycle P identity cycle)
  sync_cycle-Keeps cycle =
      Keeps-then _ _ (Keeps-if (cycle % 5 == 0) _ _ (recover-Keeps P identity) (Keeps-give tt))
        (λ _.
          Keeps-then _ _ (dispatch_pending-Keeps P identity) (λ _. flush_receipts-Keeps P identity))

  work_cycle-Keeps : (supported : _) (cycle : ℕ) → Keeps (work_cycle P identity supported cycle)
  unfolding work_cycle
  work_cycle-Keeps supported cycle =
      Keeps-then _ _ (Keeps-tried _ (sync_cycle-Keeps cycle)) (λ synced.
        Keeps-then _ _ (deliver_ready-Keeps P supported) (λ delivered.
          Keeps-if (cycle % 60 == 0) _ _ (Keeps-call _ (λ t l. prune-Onward P t l))
            (Keeps-give tt)))

  restart_daemon-IsOnce : (w : World P) → IsOnce w → IsOnce (restart_daemon P identity w)
  unfolding restart_daemon
  restart_daemon-IsOnce w i = moved-IsOnce w _ [] w.steps (reopen-Onward P still w.store) i

  run_task-IsOnce :
      (task : Task) (σ : Around P.Value) (w : World P)
      → IsOnce w
      → IsOnce (run_task P identity task σ w)
  unfolding run_task
  run_task-IsOnce (Task.work supported cycle) σ w i = (work_cycle-Keeps supported cycle).at σ w i
  run_task-IsOnce (Task.get origin o) σ w i = (get_operation-Keeps P identity origin o).at σ w i
  run_task-IsOnce (Task.cancel origin o) σ w i =
      (cancel_operation-Keeps P identity origin o).at σ w i
  run_task-IsOnce (Task.wait origin o seconds started rounds) σ w i =
      (wait_operation-Keeps P identity origin o seconds started rounds).at σ w i
  run_task-IsOnce (Task.submit origin prompt artifact_ids seconds started rounds) σ w i =
      (submit_operation-Keeps P identity origin prompt artifact_ids seconds started rounds).at σ w i
  run_task-IsOnce Task.restart σ w i = restart_daemon-IsOnce w i

  run_tasks-IsOnce :
      (tasks : List (Around P.Value × Task)) (w : World P)
      → IsOnce w
      → IsOnce (run_tasks P identity tasks w)
  unfolding run_tasks
  run_tasks-IsOnce [] w i = i
  run_tasks-IsOnce ((σ, task) ∷ tasks) w i =
      run_tasks-IsOnce tasks (run_task P identity task σ w) (run_task-IsOnce task σ w i)

  new_world-IsOnce : (l : ClientStore P) → IsOnce (new_world P l)
  new_world-IsOnce l = record {
    enqueued = tt;
    begun = λ o m. elim m [ ];
    canceled = tt;
    asked = λ o m. elim m [ ];
  }

-- Whatever tasks the daemon of the client runs on a ledger, restarts and cancellations of the daemon
-- during a request included, whatever the broker and the host's queue answer, and whatever other calls
-- the ledger serves during each request: the daemon enqueues the result of an operation at most once,
-- and asks the broker to cancel an operation at most once.
pub run_tasks-NoRepeat :
    (P : ClientSetup) (identity : ℕ → String) (tasks : List (Around P.Value × Task))
    (l : ClientStore P)
    → NoRepeat (enqueues (run_tasks P identity tasks (new_world P l)).sent)
      × NoRepeat (cancels (run_tasks P identity tasks (new_world P l)).sent)
run_tasks-NoRepeat P identity tasks l =
    let once = run_tasks-IsOnce P identity tasks (new_world P l) (new_world-IsOnce P identity l) in
    (once.enqueued, once.canceled)

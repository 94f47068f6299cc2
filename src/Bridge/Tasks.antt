-- ===== src/Bridge/Tasks.antt =====
-- What the daemon of hermes_a2a_gateway/client.py runs: the cycles of `_work`, the tools, and restarts, one
-- after the other; what runs beside a task shows in the calls of others.
use codex_a2a_gateway.Base.{ℕ, ◌%◌, ◌==◌, String, Bool, List, [], ◌∷◌, if◌then◌else◌}
use codex_a2a_gateway.Client.Model.{NativeOrigin}
use codex_a2a_gateway.Client.Setup.{ClientSetup, ClientStore}
use codex_a2a_gateway.Client.Commands.{prune}
use codex_a2a_gateway.Client.Delivery.{reopen}
use codex_a2a_gateway.Bridge.Jobs.{World, Around, Job, give, call, tried, ◌>>=◌, ◌>>◌}
use codex_a2a_gateway.Bridge.Sync.{recover, dispatch_pending, flush_receipts}
use codex_a2a_gateway.Bridge.Deliveries.{deliver_ready}
use codex_a2a_gateway.Bridge.Tools.{
  Seconds, WaitRound, get_operation, wait_operation, cancel_operation, submit_operation,
}

pub data Task : Type 0 where
  work : Bool → ℕ → Task
  get cancel : NativeOrigin → ℕ → Task
  wait : NativeOrigin → ℕ → Seconds → ℕ → List WaitRound → Task
  submit : NativeOrigin → String → List String → Seconds → ℕ → List WaitRound → Task
  restart : Task

-- A daemon on a ledger, before its first request.
abbrev pub new_world : (P : ClientSetup) → ClientStore P → World P
new_world P l = record { store = l; sent = []; reconciled = []; steps = 0 }

module _ (P : ClientSetup) (identity : ℕ → String) where
  abbrev pub sync_cycle : ℕ → Job P (Unit {0})
  sync_cycle cycle = do
    if cycle % 5 == 0 then recover P identity else give tt
    dispatch_pending P identity
    flush_receipts P identity

  -- One round of `_work`.
  unfoldable pub work_cycle : Bool → ℕ → Job P (Unit {0})
  unfolding recover dispatch_pending flush_receipts deliver_ready
  work_cycle supported cycle = tried (sync_cycle cycle) >>= λ synced.
      deliver_ready P supported >>= λ delivered. if cycle % 60 == 0 then call (prune P) else give tt

  -- The ledger is opened again by a new daemon.
  unfoldable pub restart_daemon : World P → World P
  restart_daemon w = record w { store = reopen P w.store; reconciled = [] }

  unfoldable pub run_task : Task → Around P.Value → World P → World P
  unfolding work_cycle restart_daemon
  run_task (Task.work supported cycle) σ w = (work_cycle supported cycle σ w).1
  run_task (Task.get origin o) σ w = (get_operation P identity origin o σ w).1
  run_task (Task.cancel origin o) σ w = (cancel_operation P identity origin o σ w).1
  run_task (Task.wait origin o seconds started rounds) σ w =
      (wait_operation P identity origin o seconds started rounds σ w).1
  run_task (Task.submit origin prompt artifact_ids seconds started rounds) σ w =
      (submit_operation P identity origin prompt artifact_ids seconds started rounds σ w).1
  run_task Task.restart σ w = restart_daemon w

  unfoldable pub run_tasks : List (Around P.Value × Task) → World P → World P
  unfolding run_task
  run_tasks [] w = w
  run_tasks ((σ, task) ∷ tasks) w = run_tasks tasks (run_task task σ w)

-- ===== src/Dispatcher/Submit.antt =====
-- `_submit`, `_cancel` and `_reconcile` of hermes_a2a_gateway/broker.py.
use codex_a2a_gateway.Base.{
  ℕ, String, Bool, true, false, ◌&&◌, Option, none, some, List, [], ◌∷◌, same, if◌then◌else◌,
}
use codex_a2a_gateway.Tx.Errors.{Code, BrokerError, Error, broker, internal, Result, ok, err}
use codex_a2a_gateway.Diagnostics.{PeerTask}
use codex_a2a_gateway.Broker.Model.{State}
use codex_a2a_gateway.Broker.Setup.{Setup}
use codex_a2a_gateway.Broker.Accept
use codex_a2a_gateway.Broker.Finish.{Ending, finish}
use codex_a2a_gateway.Dispatcher.Jobs.{Job, give, fail, ask, tried, and_then}
use codex_a2a_gateway.Dispatcher.Observe.{task_end, is_ending, observe, mark_unknown}

-- How the peer's stream ends when no task of it ended the submission: its end, the cancellation of
-- the job while it waits for the peer, or an exception of the peer or of the time limit.
pub data StreamEnd : Type 0 where
  eof canceled : StreamEnd
  raised : Error → StreamEnd

-- Where the body of `_submit` stopped: at an ending task, or as above, with whether a task that
-- ends was seen.
pub data Stop : Type 0 where
  finished : Stop
  stopped : Bool → StreamEnd → Stop

unfoldable pub is_running_state : State → Bool
is_running_state State.running = true
is_running_state _ = false

-- The codes that end an operation as failed.
unfoldable pub is_artifact_code : Code → Bool
is_artifact_code Code.artifact_too_large = true
is_artifact_code Code.artifact_quota = true
is_artifact_code Code.unsupported_peer_artifact = true
is_artifact_code Code.invalid_peer_artifact = true
is_artifact_code _ = false

unfoldable pub is_result_code : Code → Bool
unfolding is_artifact_code
is_result_code Code.result_too_large = true
is_result_code c = is_artifact_code c

unfoldable pub failed_ending : BrokerError → Ending
failed_ending e = record {
  state = State.failed;
  result = none;
  code = some e.code;
  message = some e.message;
}

module _ (P : Setup) (b64decode : String → Option (List ℕ))
    (read_instant : String → Option String) where
  -- The task was observed, or the observation raised.
  unfoldable pub after_task : Bool → Job P Stop → Result (Unit {0}) → Job P Stop
  after_task ends rest (ok _) = if ends then give Stop.finished else rest
  after_task ends rest (err e) = give (Stop.stopped ends (StreamEnd.raised e))

  -- async for result in stream.
  unfoldable pub drain : String → ℕ → StreamEnd → List PeerTask → Job P Stop
  drain d o end [] = give (Stop.stopped false end)
  drain d o end (task ∷ tasks) =
      let rest = drain d o end tasks in
      if same task.task_id ""
      then rest
      else and_then (tried (observe P b64decode read_instant d o task))
          (after_task (is_ending (task_end task.state)) rest)

  unfoldable pub record_failure : String → ℕ → BrokerError → Job P (Unit {0})
  record_failure d o e = and_then (ask (finish P d o (failed_ending e))) (λ _. give tt)

  -- The handlers of `_submit`. `internal` stands for the cancellation that is raised again.
  unfoldable pub settle : String → ℕ → Stop → Job P (Unit {0})
  settle d o Stop.finished = give tt
  settle d o (Stop.stopped seen StreamEnd.eof) = mark_unknown P b64decode read_instant d o
  settle d o (Stop.stopped seen StreamEnd.canceled) =
      and_then (mark_unknown P b64decode read_instant d o) (λ _. fail internal)
  settle d o (Stop.stopped seen (StreamEnd.raised (broker e))) =
      if seen && is_result_code e.code
      then record_failure d o e
      else mark_unknown P b64decode read_instant d o
  settle d o (Stop.stopped seen (StreamEnd.raised _)) = mark_unknown P b64decode read_instant d o

  unfoldable pub submit : String → ℕ → List PeerTask → StreamEnd → Job P (Unit {0})
  submit d o tasks end = and_then (drain d o end tasks) (settle d o)

  -- The answer of the peer to a cancellation or a question: a task, or an exception.
  unfoldable pub observe_same : String → ℕ → String → PeerTask → Job P (Unit {0})
  observe_same d o handle task =
      if same task.task_id handle then observe P b64decode read_instant d o task else give tt

  unfoldable pub cancel_peer : String → ℕ → String → Result PeerTask → Job P (Unit {0})
  cancel_peer d o handle (err e) = give tt
  cancel_peer d o handle (ok task) = and_then (tried (observe_same d o handle task)) (λ _. give tt)

  unfoldable pub after_read : String → ℕ → Result (Unit {0}) → Job P (Unit {0})
  after_read d o (ok _) = give tt
  after_read d o (err (broker e)) =
      if is_artifact_code e.code then record_failure d o e else give tt
  after_read d o (err _) = give tt

  unfoldable pub reconcile : String → ℕ → String → Result PeerTask → Job P (Unit {0})
  reconcile d o handle (err e) = after_read d o (err e)
  reconcile d o handle (ok task) = and_then (tried (observe_same d o handle task)) (after_read d o)

  -- `aclose`, when the jobs have been canceled: a claimed operation whose job never began is not left
  -- running.
  unfoldable pub close_streams : List (String × ℕ) → Job P (Unit {0})
  close_streams [] = give tt
  close_streams ((d, o) ∷ keys) = and_then (ask (Accept.get P d o)) λ snapshot.
      and_then
        (if is_running_state snapshot.state
          then mark_unknown P b64decode read_instant d o
          else give tt)
        (λ _. close_streams keys)

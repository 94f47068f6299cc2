-- ===== src/Dispatcher/Settles.antt =====
-- A submission that returns leaves its operation settled.
use codex_a2a_gateway.Base.{
  ℕ, String, ◌≡◌, refl, Bool, true, false, ◌&&◌, Option, List, [], ◌∷◌, arith, same, if◌then◌else◌,
}
use codex_a2a_gateway.Tx.Errors.{Result, ok, err, broker, value_error, key_error, internal}
use codex_a2a_gateway.Diagnostics.{PeerTask}
use codex_a2a_gateway.Broker.Model.{is_final}
use codex_a2a_gateway.Broker.Setup.{Setup}
use codex_a2a_gateway.Broker.Snapshots.{Store}
use codex_a2a_gateway.Broker.Accept.{get}
use codex_a2a_gateway.Broker.Finish.{Ending, finish}
use codex_a2a_gateway.Broker.Settled.{Settled, finish-Settled, get-Settled}
use codex_a2a_gateway.Dispatcher.Jobs.{Surroundings, World, Job, give, ask, tried, and_then}
use codex_a2a_gateway.Dispatcher.Observe.{
  TaskEnd, task_end, is_ending, end_operation, observe_end, observe, mark_unknown,
  submission_unknown, refused_ending, ended_ending,
}
use codex_a2a_gateway.Dispatcher.Submit.{
  StreamEnd, Stop, is_result_code, failed_ending, after_task, drain, record_failure, settle, submit,
}
use codex_a2a_gateway.Dispatcher.Sure.{
  Sure, Returns, OnOk, Sure-fail, Sure-ask, Sure-if, Sure-tried, Sure-after, Sure-then,
}

module _ (P : Setup) (b64decode : String → Option (List ℕ)) (read_instant : String → Option String)
    (d : String) (o : ℕ) where
  -- A job that ends with `finish`.
  finish-Sure :
      (e : Ending) → Sure P (and_then (ask (finish P d o e)) (λ _. give tt)) (λ _ u. Settled d o u)
  unfolding give
  finish-Sure e =
      Sure-after (λ _ u. Settled d o u) _ _
        (Sure-ask (finish P d o e) (λ t l s returned. finish-Settled P d o e t l s returned))
        (record { at = λ a σ w h. h })

  pub mark_unknown-Sure : Sure P (mark_unknown P b64decode read_instant d o) (λ _ u. Settled d o u)
  unfolding mark_unknown
  mark_unknown-Sure = finish-Sure submission_unknown

  end_operation-Sure :
      (task : PeerTask) (ending : TaskEnd)
      → is_ending ending ≡ true
      → Sure P (end_operation P b64decode read_instant d o task ending) (λ _ u. Settled d o u)
  unfolding end_operation is_ending
  end_operation-Sure task TaskEnd.goes_on ends = ground arith
  end_operation-Sure task TaskEnd.refused ends =
      finish-Sure (refused_ending P b64decode read_instant task)
  end_operation-Sure task (TaskEnd.ends_as state) ends =
      Sure-then _ _
        λ stored. finish-Sure (ended_ending P b64decode read_instant state task.text stored)

  seen-Sure :
      (task : PeerTask) (ending : TaskEnd)
      → is_ending ending ≡ true
      → Sure P
          (and_then (ask (get P d o)) λ current.
            if is_final current.state
            then give tt
            else end_operation P b64decode read_instant d o task ending)
          (λ _ u. Settled d o u)
  unfolding give
  seen-Sure task ending ends =
      Sure-after (λ current u. is_final current.state ≡ true → Settled d o u) _ _
        (Sure-ask (get P d o) (λ t l s returned. get-Settled P d o t l s returned))
        (record { at = λ current σ w h. branch (is_final current.state) σ w h })
    where
      branch :
          (b : Bool) (σ : Surroundings) (w : World P)
          → (b ≡ true → Settled d o w.store)
          → Returns P
              (λ _ u. Settled d o u)
              ((if b then give tt else end_operation P b64decode read_instant d o task ending) σ w)
      branch true σ w h = h refl
      branch false σ w h = (end_operation-Sure task ending ends).at σ w

  observe_end-Sure :
      (task : PeerTask) (ending : TaskEnd)
      → is_ending ending ≡ true
      → Sure P (observe_end P b64decode read_instant d o task ending) (λ _ u. Settled d o u)
  unfolding observe_end is_ending
  observe_end-Sure task TaskEnd.goes_on ends = ground arith
  observe_end-Sure task TaskEnd.refused ends = seen-Sure task TaskEnd.refused ends
  observe_end-Sure task (TaskEnd.ends_as state) ends = seen-Sure task (TaskEnd.ends_as state) ends

  observe-Sure :
      (task : PeerTask)
      → is_ending (task_end task.state) ≡ true
      → Sure P (observe P b64decode read_instant d o task) (λ _ u. Settled d o u)
  unfolding observe
  observe-Sure task ends = Sure-then _ _ (λ _. observe_end-Sure task (task_end task.state) ends)

  -- The body stopped at a task that ended the operation.
  abbrev Finishes : Stop → Store P → Type 0
  Finishes Stop.finished l = Settled d o l
  Finishes (Stop.stopped seen end) l = Unit {0}

  -- After a task that ends, the drain has finished.
  after_ending-Sure :
      (rest : Job P Stop)
      → Sure P rest Finishes
      → (b : Bool) (task : PeerTask) → is_ending (task_end task.state) ≡ b
      → Sure P
          (and_then
            (tried (observe P b64decode read_instant d o task))
            (after_task P b64decode read_instant b rest))
          Finishes
  unfolding after_task give
  after_ending-Sure rest h true task ends =
      Sure-after (OnOk (λ _ u. Settled d o u)) _ _
        (Sure-tried (observe P b64decode read_instant d o task) (observe-Sure task ends))
        (record { at = λ r σ w q. stopped r σ w q })
    where
      stopped :
          (r : Result (Unit {0})) (σ : Surroundings) (w : World P)
          → OnOk (λ _ u. Settled d o u) r w.store
          → Returns P Finishes (after_task P b64decode read_instant true rest r σ w)
      stopped (ok x) σ w q = q
      stopped (err e) σ w q = tt
  after_ending-Sure rest h false task ends = Sure-then _ _ λ r. continued r
    where
      continued :
          (r : Result (Unit {0}))
          → Sure P (after_task P b64decode read_instant false rest r) Finishes
      continued (ok x) = h
      continued (err e) = record { at = λ σ w. tt }

  drain-Sure :
      (end : StreamEnd) (tasks : List PeerTask)
      → Sure P (drain P b64decode read_instant d o end tasks) Finishes
  unfolding drain give
  drain-Sure end [] = record { at = λ σ w. tt }
  drain-Sure end (task ∷ tasks) =
      Sure-if (same task.task_id "") _ _ (λ _. drain-Sure end tasks)
        (λ _.
          after_ending-Sure _ (drain-Sure end tasks) (is_ending (task_end task.state)) task refl)

  settle-Sure :
      (seen : Bool) (end : StreamEnd)
      → Sure P (settle P b64decode read_instant d o (Stop.stopped seen end)) (λ _ u. Settled d o u)
  unfolding settle record_failure
  settle-Sure seen StreamEnd.eof = mark_unknown-Sure
  settle-Sure seen StreamEnd.canceled = Sure-then _ _ (λ _. Sure-fail internal)
  settle-Sure seen (StreamEnd.raised (broker e)) =
      Sure-if (seen && is_result_code e.code) _ _ (λ _. finish-Sure (failed_ending e))
        (λ _. mark_unknown-Sure)
  settle-Sure seen (StreamEnd.raised (value_error m)) = mark_unknown-Sure
  settle-Sure seen (StreamEnd.raised (key_error m)) = mark_unknown-Sure
  settle-Sure seen (StreamEnd.raised internal) = mark_unknown-Sure

  submit-Sure :
      (tasks : List PeerTask) (end : StreamEnd)
      → Sure P (submit P b64decode read_instant d o tasks end) (λ _ u. Settled d o u)
  unfolding submit settle give
  submit-Sure tasks end =
      Sure-after Finishes _ _ (drain-Sure end tasks)
        (record { at = λ stop σ w h. settled stop σ w h })
    where
      settled :
          (stop : Stop) (σ : Surroundings) (w : World P)
          → Finishes stop w.store
          → Returns P (λ _ u. Settled d o u) (settle P b64decode read_instant d o stop σ w)
      settled Stop.finished σ w h = h
      settled (Stop.stopped seen end) σ w h = (settle-Sure seen end).at σ w

pub Returns-ok :
    (P : Setup) (Q : Unit {0} → Store P → Type 0) (r : Result (Unit {0}) × World P)
    → Returns P Q r
    → r.0 ≡ ok tt
    → Q tt r.1.store
Returns-ok P Q (ok x, w) h e = h
Returns-ok P Q (err x, w) h e = absurd (ground arith)

-- Whatever the peer's stream brings and however it ends, and whatever other calls happen in between:
-- when `_submit` returns, its operation is in the ledger, and is final or of unknown outcome, never
-- left running.
pub submit-Settled :
    (P : Setup) (b64decode : String → Option (List ℕ)) (read_instant : String → Option String)
    (d : String) (o : ℕ) (tasks : List PeerTask) (end : StreamEnd) (σ : Surroundings) (w : World P)
    → (submit P b64decode read_instant d o tasks end σ w).0 ≡ ok tt
    → Settled d o (submit P b64decode read_instant d o tasks end σ w).1.store
submit-Settled P b64decode read_instant d o tasks end σ w =
    Returns-ok P (λ _ u. Settled d o u) _
      ((submit-Sure P b64decode read_instant d o tasks end).at σ w)

-- ===== src/Dispatcher/Step.antt =====
-- `step`, `aclose` and `run` of `BrokerDispatcher` (hermes_a2a_gateway/broker.py). What the
-- dispatcher's jobs do to the ledger is among what others do between two calls.
use codex_a2a_gateway.Base.{
  ℕ, zero, suc, String, Bool, true, Option, none, some, List, [], ◌∷◌, length, leb, if◌then◌else◌,
}
use codex_a2a_gateway.Tx.Errors.{Error, internal, Result, ok, err}
use codex_a2a_gateway.Tx.{Tape}
use codex_a2a_gateway.Broker.Setup.{Setup}
use codex_a2a_gateway.Broker.Snapshots.{Store}
use codex_a2a_gateway.Broker.Finish.{recover}
use codex_a2a_gateway.Broker.Dispatch.{Claim, acquire_dispatcher, claim, reconcilable}
use codex_a2a_gateway.Broker.Cancel.{claim_cancel}
use codex_a2a_gateway.Broker.Events.{purge}
use codex_a2a_gateway.Broker.Dispatches.{claim_key}
use codex_a2a_gateway.Dispatcher.Jobs.{Surroundings, World, ask}
use codex_a2a_gateway.Dispatcher.Submit.{close_streams}
use codex_a2a_gateway.Dispatcher.Tables.{
  Tables, no_jobs, Ended, Results, reap_tables, add_stream, add_cancel, add_reads,
}

module _ (P : Setup) where
  -- The ledger and the tables.
  pub record Desk : Type 0 where
    pub world : World P
    pub tables : Tables

  abbrev pub Move : Type 0
  Move = Surroundings → Desk → Ended × Desk

module _ {P : Setup} where
  unfoldable pub done : Move P
  done σ desk = (Ended.returned, desk)

  unfoldable pub raise_error : Error → Move P
  raise_error e σ desk = (Ended.raised e, desk)

  -- A change of the tables, which asks for nothing.
  unfoldable pub change : (Tables → Tables) → Move P
  change f σ desk = (Ended.returned, record desk { tables = f desk.tables })

  unfoldable pub reap_done : Results → Move P
  reap_done results σ desk =
      let (e, t) = reap_tables results desk.tables in (e, record desk { tables = t })

  abbrev pub continue_move : Surroundings → Move P → Ended × Desk P → Ended × Desk P
  continue_move σ n (Ended.returned, desk) = n σ desk
  continue_move σ n (e, desk) = (e, desk)

  unfoldable pub then_move : Move P → Move P → Move P
  then_move m n σ desk = continue_move σ n (m σ desk)

  -- finally: what follows also follows an exception, and its own exception comes first.
  abbrev pub close_move : Ended → Ended × Desk P → Ended × Desk P
  close_move e (Ended.returned, desk) = (e, desk)
  close_move e (e', desk) = (e', desk)

  abbrev pub finally_move : Surroundings → Move P → Ended × Desk P → Ended × Desk P
  finally_move σ n (e, desk) = close_move e (n σ desk)

  unfoldable pub and_finally : Move P → Move P → Move P
  and_finally m n σ desk = finally_move σ n (m σ desk)

module _ {P : Setup} {A : Type 0} where
  -- A call of the store, and what is done with its answer.
  abbrev pub answer : Surroundings → Tables → (A → Move P) → Result A × World P → Ended × Desk P
  answer σ t k (ok a, w) = k a σ (record { world = w; tables = t })
  answer σ t k (err e, w) = (Ended.raised e, record { world = w; tables = t })

  unfoldable pub asking : (Tape → Store P → Result A × Store P) → (A → Move P) → Move P
  asking f k σ desk = answer σ desk.tables k (ask f σ desk.world)

module _ (P : Setup) where
  -- while len(self._cancels) < limit.
  abbrev pub with_cancel : Move P → Option (String × ℕ × String) → Move P
  with_cancel rest none = done
  with_cancel rest (some (d, o, handle)) = then_move (change (add_cancel (d, o))) rest

  unfoldable pub fill_cancels : ℕ → Move P
  fill_cancels zero σ desk =
      if leb P.max_concurrent_streams (length desk.tables.cancels)
      then (Ended.returned, desk)
      else (Ended.cut_off, desk)
  fill_cancels (suc n) σ desk =
      let rest = fill_cancels n in
      if leb P.max_concurrent_streams (length desk.tables.cancels)
      then (Ended.returned, desk)
      else asking (claim_cancel P) (with_cancel rest) σ desk

  -- if len(self._reads) < limit.
  unfoldable pub fill_reads : Move P
  fill_reads σ desk =
      if leb P.max_concurrent_streams (length desk.tables.reads)
      then (Ended.returned, desk)
      else asking (reconcilable P) (λ rows. change (add_reads P.max_concurrent_streams rows)) σ desk

  -- while len(self._streams) < limit.
  abbrev pub with_claim : Move P → Option Claim → Move P
  with_claim rest none = done
  with_claim rest (some c) = then_move (change (add_stream (claim_key c))) rest

  unfoldable pub fill_streams : ℕ → Move P
  fill_streams zero σ desk =
      if leb P.max_concurrent_streams (length desk.tables.streams)
      then (Ended.returned, desk)
      else (Ended.cut_off, desk)
  fill_streams (suc n) σ desk =
      let rest = fill_streams n in
      if leb P.max_concurrent_streams (length desk.tables.streams)
      then (Ended.returned, desk)
      else asking (claim P) (with_claim rest) σ desk

  -- `step`, each of whose loops runs at most `limit` times.
  unfoldable pub step : Results → Move P
  step results σ desk =
      if desk.tables.closed
      then (Ended.raised internal, desk)
      else then_move (reap_done results)
          (asking (purge P) λ _.
            then_move (fill_cancels P.max_concurrent_streams)
              (then_move fill_reads (fill_streams P.max_concurrent_streams)))
          σ desk

  -- `aclose`. The jobs that it cancels act on the ledger like others.
  unfoldable pub close_tables : Tables → Tables
  close_tables t = record t { closed = true }

  unfoldable pub aclose : (String → Option (List ℕ)) → (String → Option String) → Move P
  aclose b64decode read_instant σ desk =
      answer σ (close_tables desk.tables) (λ _. change (λ t. record no_jobs { closed = t.closed }))
        (close_streams P b64decode read_instant desk.tables.streams σ desk.world)

  -- `run`, canceled when it has slept after the last of the given steps.
  unfoldable pub serve : List Results → Move P
  serve [] = raise_error internal
  serve (results ∷ turns) = then_move (step results) (serve turns)

  unfoldable pub run :
      (String → Option (List ℕ)) → (String → Option String) → Bool → List Results → Move P
  run b64decode read_instant granted turns =
      asking (acquire_dispatcher P granted)
        λ _. asking (recover P) λ _. and_finally (serve turns) (aclose b64decode read_instant)

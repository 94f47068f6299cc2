-- ===== src/Dispatcher/Rounds.antt =====
-- Any number of steps of the dispatcher (`step` in the loop of `run`, hermes_a2a_gateway/broker.py),
-- on the ledger of any history.
use codex_a2a_gateway.Base.{◌≡◌, ◌≢◌, List, [], ◌∷◌, arith}
use codex_a2a_gateway.Tx.{Tape}
use codex_a2a_gateway.Broker.Setup.{Setup}
use codex_a2a_gateway.Broker.Snapshots.{Store}
use codex_a2a_gateway.Broker.Events.{purge}
use codex_a2a_gateway.Broker.Calls.{Call, perform, run, empty}
use codex_a2a_gateway.Broker.Refines.Histories.{perform-Writes, run-Writes}
use codex_a2a_gateway.Broker.Dispatches.Sealed.{Writes-IsSealed, empty-IsSealed}
use codex_a2a_gateway.Broker.Pending.{Writes-IsAdmitted, empty-IsAdmitted}
use codex_a2a_gateway.Dispatcher.Jobs.{Surroundings}
use codex_a2a_gateway.Dispatcher.Tables.{Ended, Tables, Results, no_jobs, and_reap, reap_tables}
use codex_a2a_gateway.Dispatcher.Step.{
  Desk, raise_error, reap_done, then_move, fill_cancels, fill_reads, fill_streams, step, serve,
}
use codex_a2a_gateway.Dispatcher.Keys.{reap-Reaped}
use codex_a2a_gateway.Dispatcher.Tended.{Orderly, Tended, Tended-shrunk}
use codex_a2a_gateway.Dispatcher.Turns.{Good, IsTended, if-Good, then-Good, asking-Good}
use codex_a2a_gateway.Dispatcher.Loops.{fill_cancels-Good, fill_reads-Good, fill_streams-Good}

-- A dispatcher without jobs, on the ledger that a history has left.
abbrev pub opened : (P : Setup) → List (Tape × Call) → Desk P
opened P calls = record {
  world = record { store = run P calls (empty P); calls = 0 };
  tables = no_jobs;
}

module _ (P : Setup) (l : Store P) where
  -- The reaping of a table is good whether it goes on or raises.
  pub record GoodTables (r : Ended × Tables) : Type 0 where
    pub ended : ¬ (r.0 ≡ Ended.cut_off)
    pub tended : Tended P l r.1

  and_reap-GoodTables :
      (e : Ended) (later : Ended × Tables) (t : Tables)
      → ¬ (e ≡ Ended.cut_off)
      → GoodTables later
      → Tended P l t
      → GoodTables (and_reap e later t)
  and_reap-GoodTables Ended.returned later t h g k = g
  and_reap-GoodTables (Ended.raised e) later t h g k = record { ended = h; tended = k }
  and_reap-GoodTables Ended.cut_off later t h g k = record { ended = h; tended = k }

  reap_tables-GoodTables :
      (results : Results) (t : Tables) → Tended P l t → GoodTables (reap_tables results t)
  unfolding reap_tables
  reap_tables-GoodTables results t h =
      let a = reap-Reaped results.streams t.streams in
      let b = reap-Reaped results.reads t.reads in
      let c = reap-Reaped results.cancels t.cancels in
      let first =
        Tended-shrunk P t _ a.kept (λ k m. m) (λ k m. m) a.bounded (omega arith) (omega arith) h in
      let second =
        Tended-shrunk P t _ a.kept b.kept (λ k m. m) a.bounded b.bounded (omega arith) h in
      let third = Tended-shrunk P t _ a.kept b.kept c.kept a.bounded b.bounded c.bounded h in
      and_reap-GoodTables _ _ _ a.ended
        (and_reap-GoodTables _ _ _ b.ended (record { ended = c.ended; tended = third }) second)
        first

module _ (P : Setup) (σ : Surroundings) where
  reap_done-Good :
      (results : Results) (desk : Desk P) → IsTended P desk → Good P (reap_done results σ desk)
  unfolding reap_done
  reap_done-Good results desk h =
      let g = reap_tables-GoodTables P desk.world.store results desk.tables h in
      record { ended = g.ended; tended = g.tended }

  fills-Good :
      (desk : Desk P)
      → IsTended P desk
      → Good P (
          then_move
            (fill_cancels P P.max_concurrent_streams)
            (then_move (fill_reads P) (fill_streams P P.max_concurrent_streams))
            σ
            desk)
  fills-Good desk h = then-Good P σ _ _ desk (fill_cancels-Good P σ _ desk (omega arith) h) λ u h'.
      then-Good P σ _ _ u (fill_reads-Good P σ u h')
        λ v h''. fill_streams-Good P σ _ v (omega arith) h''

  step-Good : (results : Results) (desk : Desk P) → IsTended P desk → Good P (step P results σ desk)
  unfolding step perform
  step-Good results desk h =
      if-Good P desk.tables.closed _ _ (λ _. record { ended = λ e. cc; tended = h })
        λ _. then-Good P σ (reap_done results) _ desk (reap_done-Good results desk h) λ u h'.
          asking-Good P σ (purge P) _ u (λ t l. perform-Writes P Call.purge t l) h'
            λ t l a e before n after. fills-Good _ after

  pub serve-Good :
      (turns : List Results) (desk : Desk P) → IsTended P desk → Good P (serve P turns σ desk)
  unfolding serve raise_error
  serve-Good [] desk h = record { ended = λ e. cc; tended = h }
  serve-Good (results ∷ turns) desk h =
      then-Good P σ (step P results) (serve P turns) desk (step-Good results desk h)
        (λ u h'. serve-Good turns u h')

module _ (P : Setup) (calls : List (Tape × Call)) where
  pub opened-Tended : IsTended P (opened P calls)
  opened-Tended = record {
    admitted = Writes-IsAdmitted (run-Writes P calls (empty P)) (empty-IsAdmitted P);
    sealed = Writes-IsSealed (run-Writes P calls (empty P)) (empty-IsSealed P);
    streams = λ k m. elim m [ ];
    reads = λ k m. elim m [ ];
    cancels = λ k m. elim m [ ];
    orderly = record {
      streams_bound = omega arith;
      reads_bound = omega arith;
      cancels_bound = omega arith;
      apart = λ k m. elim m [ ];
    };
  }

-- A dispatcher opened on the ledger of any history, after any number of its steps, whatever jobs
-- have ended in between and how, and whatever calls others (its own jobs among them) have made:
-- each of its three tables has at most `max_concurrent_streams` jobs, and no operation has both a
-- job that submits it and a job that reads it.
pub serve-Orderly :
    (P : Setup) (calls : List (Tape × Call)) (σ : Surroundings) (turns : List Results)
    → Orderly P.max_concurrent_streams (serve P turns σ (opened P calls)).1.tables
serve-Orderly P calls σ turns =
    (serve-Good P σ turns (opened P calls) (opened-Tended P calls)).tended.orderly

-- The loops of `step` end: none of them is cut off in any of these steps, although each is given
-- only `max_concurrent_streams` rounds, for each round starts a job for an operation that has none.
pub serve-ends :
    (P : Setup) (calls : List (Tape × Call)) (σ : Surroundings) (turns : List Results)
    → (serve P turns σ (opened P calls)).0 ≢ Ended.cut_off
serve-ends P calls σ turns = (serve-Good P σ turns (opened P calls) (opened-Tended P calls)).ended

-- ===== src/Dispatcher/Closes.antt =====
-- The end of the dispatcher (`aclose` of hermes_a2a_gateway/broker.py) settles what it was
-- submitting.
use codex_a2a_gateway.Base.{
  ℕ, ◌≤◌, String, ◌≡◌, refl, sym, ap, ◌∙◌, subst, Bool, true, false, Option, List, [], ◌∷◌, arith,
  inl, inr, In, if◌then◌else◌,
}
use codex_a2a_gateway.Tx.Errors.{Result, ok, err}
use codex_a2a_gateway.Tx.{Tape}
use codex_a2a_gateway.Broker.Model.{State, Snapshot, Ledger}
use codex_a2a_gateway.Broker.Setup.{Setup}
use codex_a2a_gateway.Broker.Snapshots.{Store}
use codex_a2a_gateway.Broker.Accept.{get}
use codex_a2a_gateway.Broker.Calls.{Call}
use codex_a2a_gateway.Broker.Spec.{Writes, Writes-trans}
use codex_a2a_gateway.Broker.Lifecycle.{rank}
use codex_a2a_gateway.Broker.Lifecycle.Steps.{Writes-Follows}
use codex_a2a_gateway.Broker.Dispatches.{Key, Started}
use codex_a2a_gateway.Broker.Dispatches.Starts.{Started-Follows}
use codex_a2a_gateway.Broker.Settled.{Told, Settled, Settled-Follows, get-Told}
use codex_a2a_gateway.Dispatcher.Jobs.{Surroundings, World, give, ask}
use codex_a2a_gateway.Dispatcher.Observe.{mark_unknown}
use codex_a2a_gateway.Dispatcher.Submit.{is_running_state, close_streams}
use codex_a2a_gateway.Dispatcher.Sure.{Returns, Sure-ask}
use codex_a2a_gateway.Dispatcher.Settles.{Returns-ok, mark_unknown-Sure}
use codex_a2a_gateway.Dispatcher.Tables.{Ended, Tables, Results, no_jobs}
use codex_a2a_gateway.Dispatcher.Step.{Desk, change, answer, close_tables, aclose, serve}
use codex_a2a_gateway.Dispatcher.Turns.{IsTended}
use codex_a2a_gateway.Dispatcher.Rounds.{opened, opened-Tended, serve-Good}
use codex_a2a_gateway.Dispatcher.Closing.{
  closing, get-Written, closing-Written, close_streams-Written,
}
use codex_a2a_gateway.Dispatcher.Written.{and_then-Continued}

-- An operation that has started and does not run is settled.
stopped_rank : (s : State) → is_running_state s ≡ false → 1 ≤ rank s → 2 ≤ rank s
unfolding rank is_running_state
stopped_rank s h started = ground arith

Told-Settled :
    {Token : Type 0} (d : String) (o : ℕ) (snapshot : Snapshot) (l : Ledger Token)
    → Told d o snapshot l
    → Started (d, o) l
    → is_running_state snapshot.state ≡ false
    → Settled d o l
Told-Settled d o snapshot l (row, found, told) (row', found', started) stopped =
    let same_row : row' ≡ row = cc in
    (
      row,
      found,
      stopped_rank row.state (ap is_running_state told ∙ stopped)
          (subst (λ r. 1 ≤ rank r.state) same_row started),
    )

module _ (P : Setup) (b64decode : String → Option (List ℕ)) (read_instant : String → Option String)
    (σ : Surroundings) where
  closing-Settled :
      (d : String) (o : ℕ) (snapshot : Snapshot) (w : World P)
      → Told d o snapshot w.store
      → Started (d, o) w.store
      → (closing P b64decode read_instant d o snapshot σ w).0 ≡ ok tt
      → Settled d o (closing P b64decode read_instant d o snapshot σ w).1.store
  unfolding give
  closing-Settled d o snapshot w told started = branch (is_running_state snapshot.state) refl
    where
      branch :
          (b : Bool)
          → is_running_state snapshot.state ≡ b
          → ((if b then mark_unknown P b64decode read_instant d o else give tt) σ w).0 ≡ ok tt
          → Settled d o
              ((if b then mark_unknown P b64decode read_instant d o else give tt) σ w).1.store
      branch true e returned =
          Returns-ok P (λ _ u. Settled d o u) _
            ((mark_unknown-Sure P b64decode read_instant d o).at σ w) returned
      branch false e returned = Told-Settled d o snapshot w.store told started e

  asked-Told :
      (d : String) (o : ℕ) (snapshot : Snapshot) (w : World P)
      → (ask (get P d o) σ w).0 ≡ ok snapshot
      → Told d o snapshot (ask (get P d o) σ w).1.store
  asked-Told d o snapshot w returned =
      told _
        ((Sure-ask {Q = λ a u. Told d o a u} (get P d o) (λ t l a e. get-Told P d o t l a e)).at σ
          w)
        returned
    where
      told :
          (r : Result Snapshot × World P)
          → Returns P (λ a u. Told d o a u) r
          → r.0 ≡ ok snapshot
          → Told d o snapshot r.1.store
      told (ok a, u) h e = subst (λ x. Told d o x u.store) (same_value e) h
        where
          same_value : Result.ok a ≡ ok snapshot → a ≡ snapshot
          same_value e' = cc
      told (err x, u) h e = cc

  -- The first key is settled, and what has started stays so.
  record FirstClosed (d : String) (o : ℕ) (keys : List Key) (w : World P) : Type 0 where
    next : World P
    written : Writes P w.store next.store
    settled : Started (d, o) w.store → Settled d o next.store
    rest_returned : (close_streams P b64decode read_instant keys σ next).0 ≡ ok tt
    same_end :
        (close_streams P b64decode read_instant ((d, o) ∷ keys) σ w).1
        ≡ (close_streams P b64decode read_instant keys σ next).1

  close_first :
      (d : String) (o : ℕ) (keys : List Key) (w : World P)
      → (close_streams P b64decode read_instant ((d, o) ∷ keys) σ w).0 ≡ ok tt
      → FirstClosed d o keys w
  unfolding close_streams
  close_first d o keys w returned =
      let first = and_then-Continued P (ask (get P d o)) _ σ w tt returned in
      let job = closing P b64decode read_instant d o first.value in
      let read = (ask (get P d o) σ w).1 in
      let second = and_then-Continued P job _ σ read tt first.second in
      let asked = (get-Written P b64decode read_instant d o).at σ w in
      let closed = (closing-Written P b64decode read_instant d o first.value).at σ read in
      record {
        next = (job σ read).1;
        written = Writes-trans asked closed;
        settled = λ started.
            closing-Settled d o first.value read (asked-Told d o first.value w first.first)
              (Started-Follows d o w.store read.store (Writes-Follows asked) started) second.first;
        rest_returned = second.second;
        same_end = first.same_end ∙ second.same_end;
      }

  pub close_streams-Settled :
      (keys : List Key) (w : World P)
      → ((k : Key) → In k keys → Started k w.store)
      → (close_streams P b64decode read_instant keys σ w).0 ≡ ok tt
      → (k : Key) → In k keys
      → Settled k.0 k.1 (close_streams P b64decode read_instant keys σ w).1.store
  close_streams-Settled [] w started returned k m = elim m [ ]
  close_streams-Settled ((d, o) ∷ keys) w started returned k m =
      let f = close_first d o keys w returned in
      let later = λ (x : Key) (i : In x keys).
        Started-Follows x.0 x.1 w.store f.next.store (Writes-Follows f.written)
          (started x (inr i)) in
      let settled = f.settled (started (d, o) (inl refl)) in
      let rest = close_streams-Written P b64decode read_instant keys in
      let last = (close_streams P b64decode read_instant keys σ f.next).1 in
      subst (λ u. Settled k.0 k.1 u.store) (sym f.same_end)
        (elim m [
          | inl here ↦
              subst (λ x. Settled x.0 x.1 last.store) (sym here)
                (Settled-Follows d o f.next.store last.store (Writes-Follows (rest.at σ f.next))
                  settled)
          | inr there ↦ close_streams-Settled keys f.next later f.rest_returned k there
        ])

module _ (P : Setup) (b64decode : String → Option (List ℕ)) (read_instant : String → Option String)
    (σ : Surroundings) where
  answer-Closed :
      (t : Tables) (r : Result (Unit {0}) × World P) (Q : Store P → Type 0)
      → (answer {P = P} σ t (λ _. change (λ x. record no_jobs { closed = x.closed })) r).0
        ≡ Ended.returned
      → (r.0 ≡ ok tt → Q r.1.store)
      → Q
          (answer {P = P} σ t
            (λ _. change (λ x. record no_jobs { closed = x.closed }))
            r).1.world.store
  unfolding change
  answer-Closed t (ok u, w) Q h q = q refl
  answer-Closed t (err e, w) Q h q = absurd (raised_clash h)
    where
      raised_clash : Ended.raised e ≡ Ended.returned → ⊥
      raised_clash h' = cc

  aclose-Tended :
      (desk : Desk P)
      → IsTended P desk
      → (aclose P b64decode read_instant σ desk).0 ≡ Ended.returned
      → (k : Key) → In k desk.tables.streams
      → Settled k.0 k.1 (aclose P b64decode read_instant σ desk).1.world.store
  unfolding aclose close_tables
  aclose-Tended desk h returned k m =
      answer-Closed _ (close_streams P b64decode read_instant desk.tables.streams σ desk.world)
        (λ u. Settled k.0 k.1 u) returned
        λ e.
          close_streams-Settled P b64decode read_instant σ desk.tables.streams desk.world h.streams
            e k m

-- After any number of steps of a dispatcher that was opened on the ledger of any history: when its
-- `aclose` returns, each operation that it had a submitting job for is final or of unknown outcome in
-- the ledger, also where the job never began or was canceled.
pub aclose-Settled :
    (P : Setup) (b64decode : String → Option (List ℕ)) (read_instant : String → Option String)
    (calls : List (Tape × Call)) (σ : Surroundings) (turns : List Results)
    → (aclose P b64decode read_instant σ (serve P turns σ (opened P calls)).1).0 ≡ Ended.returned
    → (k : Key) → In k (serve P turns σ (opened P calls)).1.tables.streams
    → Settled k.0 k.1
        (aclose P b64decode read_instant σ (serve P turns σ (opened P calls)).1).1.world.store
aclose-Settled P b64decode read_instant calls σ turns =
    aclose-Tended P b64decode read_instant σ (serve P turns σ (opened P calls)).1
      (serve-Good P σ turns (opened P calls) (opened-Tended P calls)).tended

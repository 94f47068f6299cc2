-- ===== src/Dispatcher/Turns.antt =====
-- What each way to build a move of the dispatcher keeps (`step` of hermes_a2a_gateway/broker.py).
use codex_a2a_gateway.Base.{ℕ, suc, ◌≡◌, refl, Bool, true, false, if◌then◌else◌}
use codex_a2a_gateway.Tx.Errors.{Result, ok, err}
use codex_a2a_gateway.Tx.{Tape}
use codex_a2a_gateway.Broker.Setup.{Setup}
use codex_a2a_gateway.Broker.Snapshots.{Store}
use codex_a2a_gateway.Broker.Calls.{run}
use codex_a2a_gateway.Broker.Spec.{Writes}
use codex_a2a_gateway.Broker.Refines.Histories.{run-Writes}
use codex_a2a_gateway.Dispatcher.Jobs.{Surroundings, ask, answered}
use codex_a2a_gateway.Dispatcher.Tables.{Ended, Tables}
use codex_a2a_gateway.Dispatcher.Step.{Desk, Move, continue_move, then_move, answer, asking}
use codex_a2a_gateway.Dispatcher.Tended.{Tended, Tended-Writes}

module _ (P : Setup) where
  -- The end of a move: no loop is cut off, and the tables are in order.
  pub record Good (r : Ended × Desk P) : Type 0 where
    pub ended : ¬ (r.0 ≡ Ended.cut_off)
    pub tended : Tended P r.1.world.store r.1.tables

  abbrev pub IsTended : Desk P → Type 0
  IsTended desk = Tended P desk.world.store desk.tables

  continue-Good :
      (σ : Surroundings) (n : Move P) (r : Ended × Desk P)
      → Good r
      → ((desk : Desk P) → IsTended desk → Good (n σ desk))
      → Good (continue_move σ n r)
  continue-Good σ n (Ended.returned, desk) g h = h desk g.tended
  continue-Good σ n (Ended.raised e, desk) g h = record { ended = g.ended; tended = g.tended }
  continue-Good σ n (Ended.cut_off, desk) g h = absurd (g.ended refl)

  pub then-Good :
      (σ : Surroundings) (m n : Move P) (desk : Desk P)
      → Good (m σ desk)
      → ((desk : Desk P) → IsTended desk → Good (n σ desk))
      → Good (then_move m n σ desk)
  unfolding then_move
  then-Good σ m n desk g h = continue-Good σ n (m σ desk) g h

  pub returned-Good : (desk : Desk P) → IsTended desk → Good (Ended.returned, desk)
  returned-Good desk h = record { ended = λ e. cc; tended = h }

  pub if-Good :
      (b : Bool) (r r' : Ended × Desk P)
      → (b ≡ true → Good r)
      → (b ≡ false → Good r')
      → Good (if b then r else r')
  if-Good true r r' g h = g refl
  if-Good false r r' g h = h refl

module _ (P : Setup) {A : Type 0} where
  answer-Good :
      (σ : Surroundings) (t : Tables) (k : A → Move P) (n : ℕ) (r : Result A × Store P)
      → Tended P r.1 t
      → ((a : A)
          → r.0 ≡ ok a
          → Good P (k a σ (record { world = record { store = r.1; calls = n }; tables = t })))
      → Good P (answer {P = P} σ t k (answered {P = P} n r))
  answer-Good σ t k n (ok a, l) h g = g a refl
  answer-Good σ t k n (err e, l) h g = record { ended = λ e'. cc; tended = h }

  -- A call of the store keeps the tables in order; what follows it knows what the call returned.
  pub asking-Good :
      (σ : Surroundings) (f : Tape → Store P → Result A × Store P) (k : A → Move P) (desk : Desk P)
      → ((t : Tape) (l : Store P) → Writes P l (f t l).1)
      → IsTended P desk
      → ((t : Tape) (l : Store P) (a : A)
          → (f t l).0 ≡ ok a
          → Tended P l desk.tables
          → (n : ℕ) → Tended P (f t l).1 desk.tables
          → Good P (
              k a σ
                (record { world = record { store = (f t l).1; calls = n }; tables = desk.tables })))
      → Good P (asking f k σ desk)
  unfolding asking ask
  asking-Good σ f k desk w h g =
      let calls = desk.world.calls in
      let l = run P (σ.others calls) desk.world.store in
      let before = Tended-Writes P desk.tables (run-Writes P (σ.others calls) desk.world.store) h in
      let after = Tended-Writes P desk.tables (w (σ.tape calls) l) before in
      answer-Good σ desk.tables k (suc calls) (f (σ.tape calls) l) after
        λ a e. g (σ.tape calls) l a e before (suc calls) after

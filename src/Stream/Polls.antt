-- ===== src/Stream/Polls.antt =====
-- The numbers of the events that one stream of hermes_a2a_gateway/broker.py prints, over all of its polls.
use codex_a2a_gateway.Base.{
  ℕ, zero, suc, ◌-◌, String, ◌≡◌, refl, sym, ap, subst, Bool, true, false, List, [], ◌∷◌, ◌++◌, min,
  if◌then◌else◌,
}
use codex_a2a_gateway.Tx.Errors.{
  BrokerError, Result, ok, err, Error, broker, value_error, key_error, internal,
}
use codex_a2a_gateway.Tx.{Tape}
use codex_a2a_gateway.Broker.Model.{Snapshot}
use codex_a2a_gateway.Broker.Setup.{Setup}
use codex_a2a_gateway.Broker.Snapshots.{Store}
use codex_a2a_gateway.Broker.Events.{events}
use codex_a2a_gateway.Broker.Calls.{Call, run, perform}
use codex_a2a_gateway.Broker.Refines.Histories.{run-Writes, perform-Writes}
use codex_a2a_gateway.Broker.EventLog.{IsGapless}
use codex_a2a_gateway.Broker.EventLog.Steps.{Writes-IsGapless}
use codex_a2a_gateway.Broker.EventLog.Reader.{numbers, numbers_after, events-Delivers}
use codex_a2a_gateway.Texts.{Text}
use codex_a2a_gateway.Stream.Printer.{
  Encoder, print_event, print_batch, print_error, keepalive, keepalive_of, last_sequence, Poll,
  page_size, after_error, after_reading, poll_events, stream_events,
}

-- Each number is the next one after the number before, and the first after `n`.
abbrev pub IsRun : ℕ → List ℕ → Type 0
IsRun n [] = Unit
IsRun n (m ∷ ms) = (m ≡ suc n) × IsRun m ms

numbers_after-IsRun : (n k : ℕ) → IsRun n (numbers_after n k)
numbers_after-IsRun n zero = tt
numbers_after-IsRun n (suc k) = (refl, numbers_after-IsRun (suc n) k)

IsRun-append :
    (n : ℕ) (rows : List (ℕ × Snapshot)) (more : List ℕ)
    → IsRun n (numbers rows)
    → IsRun (last_sequence n rows) more
    → IsRun n (numbers rows ++ more)
unfolding last_sequence
IsRun-append n [] more h k = k
IsRun-append n ((m, s) ∷ rows) more h k = (h.0, IsRun-append m rows more h.1 k)

module _ (P : Setup) (E : Encoder) (d : String) where
  delivered-IsRun :
      (after : ℕ) (t : Tape) (l : Store P) (rows : List (ℕ × Snapshot))
      → IsGapless l
      → (events P d after page_size t l).0 ≡ ok rows
      → IsRun after (numbers rows)
  delivered-IsRun after t l rows g e =
      let delivers = events-Delivers P d after page_size t l rows g e in
      subst (IsRun after) (sym delivers.whole)
        (numbers_after-IsRun after (min page_size (delivers.device.sequence - after)))

  events-IsGapless :
      (after : ℕ) (t : Tape) (l : Store P)
      → IsGapless l
      → IsGapless (events P d after page_size t l).1
  unfolding perform
  events-IsGapless after t l g =
      Writes-IsGapless (perform-Writes P (Call.events d after page_size) t l) g

  -- What the polls of a stream read from the ledger, each from the cursor that the last left.
  pub data Reads : ℕ → List Poll → Store P → List (ℕ × Snapshot) → Type 0 where
    closed : (cursor : ℕ) (l : Store P) → Reads cursor [] l []
    gone :
        (cursor : ℕ) (poll : Poll) (polls : List Poll) (l : Store P)
        → poll.is_disconnected ≡ true
        → Reads cursor (poll ∷ polls) l []
    failed :
        (cursor : ℕ) (poll : Poll) (polls : List Poll) (l : Store P) (e : Error)
        → poll.is_disconnected ≡ false
        → (events P d cursor page_size poll.tape (run P poll.others l)).0 ≡ err e
        → Reads cursor (poll ∷ polls) l []
    read :
        (cursor : ℕ) (poll : Poll) (polls : List Poll) (l : Store P)
        (rows more : List (ℕ × Snapshot))
        → poll.is_disconnected ≡ false
        → (events P d cursor page_size poll.tape (run P poll.others l)).0 ≡ ok rows
        → Reads
            (last_sequence cursor rows)
            polls
            (events P d cursor page_size poll.tape (run P poll.others l)).1
            more
        → Reads cursor (poll ∷ polls) l (rows ++ more)

-- Texts that print the events in order, with keepalives between them and an error at most at the end.
pub data Prints (E : Encoder) : List (ℕ × Snapshot) → List Text → Type 0 where
  finished : Prints E [] []
  broken : (e : BrokerError) → Prints E [] (print_error E e ∷ [])
  idle :
      (rows : List (ℕ × Snapshot)) (texts : List Text)
      → Prints E rows texts
      → Prints E rows (keepalive E ∷ texts)
  event :
      (row : ℕ × Snapshot) (rows : List (ℕ × Snapshot)) (texts : List Text)
      → Prints E rows texts
      → Prints E (row ∷ rows) (print_event E row ∷ texts)

Prints-batch :
    (E : Encoder) (rows more : List (ℕ × Snapshot)) (texts : List Text)
    → Prints E more texts
    → Prints E (rows ++ more) (print_batch E rows ++ texts)
unfolding print_batch
Prints-batch E [] more texts h = h
Prints-batch E (row ∷ rows) more texts h =
    Prints.event row (rows ++ more) _ (Prints-batch E rows more texts h)

Prints-reading :
    (E : Encoder) (rows more : List (ℕ × Snapshot)) (texts : List Text)
    → Prints E more texts
    → Prints E (rows ++ more) (keepalive_of E rows ++ (print_batch E rows ++ texts))
Prints-reading E [] more texts h = Prints.idle more _ (Prints-batch E [] more texts h)
Prints-reading E (row ∷ rows) more texts h = Prints-batch E (row ∷ rows) more texts h

numbers-append :
    (rows more : List (ℕ × Snapshot)) → numbers (rows ++ more) ≡ numbers rows ++ numbers more
numbers-append [] more = refl
numbers-append ((n, s) ∷ rows) more = ap (λ ns. n ∷ ns) (numbers-append rows more)

module _ (P : Setup) (E : Encoder) (d : String) where
  -- The events that were read are a run, and are what is printed.
  pub record Streams (cursor : ℕ) (polls : List Poll) (l : Store P) (texts : List Text)
      : Type 0 where
    pub rows : List (ℕ × Snapshot)
    pub read : Reads P E d cursor polls l rows
    pub run : IsRun cursor (numbers rows)
    pub printed : Prints E rows texts

  error-Prints : (e : Error) → Prints E [] (after_error P E d e)
  error-Prints (broker e) = Prints.broken e
  error-Prints (value_error m) = Prints.finished
  error-Prints (key_error m) = Prints.finished
  error-Prints internal = Prints.finished

  reading-Streams :
      (cursor : ℕ) (poll : Poll) (polls : List Poll) (l : Store P)
      (r : Result (List (ℕ × Snapshot)) × Store P)
      → poll.is_disconnected ≡ false
      → events P d cursor page_size poll.tape (run P poll.others l) ≡ r
      → ((rows : List (ℕ × Snapshot)) → r.0 ≡ ok rows → IsRun cursor (numbers rows))
      → ((n : ℕ) → Streams n polls r.1 (poll_events P E d n polls r.1))
      → Streams cursor
          (poll ∷ polls)
          l
          (after_reading P E d cursor (λ n u. poll_events P E d n polls u) r)
  unfolding after_reading
  reading-Streams cursor poll polls l (ok rows, u) stays e h k =
      let later = k (last_sequence cursor rows) in
      record {
        rows = rows ++ later.rows;
        read = Reads.read cursor poll polls l rows later.rows stays (ap (λ x. x.0) e) (
            subst (λ v. Reads P E d (last_sequence cursor rows) polls v later.rows)
              (sym (ap (λ x. x.1) e)) later.read);
        run =
            subst (IsRun cursor) (sym (numbers-append rows later.rows))
              (IsRun-append cursor rows _ (h rows refl) later.run);
        printed = Prints-reading E rows later.rows _ later.printed;
      }
  reading-Streams cursor poll polls l (err x, u) stays e h k = record {
    rows = [];
    read = Reads.failed cursor poll polls l x stays (ap (λ y. y.0) e);
    run = tt;
    printed = error-Prints x;
  }

  poll_events-Streams :
      (cursor : ℕ) (polls : List Poll) (l : Store P)
      → IsGapless l
      → Streams cursor polls l (poll_events P E d cursor polls l)
  unfolding poll_events
  poll_events-Streams cursor [] l g = record {
    rows = [];
    read = Reads.closed cursor l;
    run = tt;
    printed = Prints.finished;
  }
  poll_events-Streams cursor (poll ∷ polls) l g =
      let before = run P poll.others l in
      let g' = Writes-IsGapless (run-Writes P poll.others l) g in
      let after = events-IsGapless P E d cursor poll.tape before g' in
      branch (events P d cursor page_size poll.tape before) poll.is_disconnected refl refl
        (λ rows e. delivered-IsRun P E d cursor poll.tape before rows g' e)
        (λ n. poll_events-Streams n polls _ after)
    where
      branch :
          (r : Result (List (ℕ × Snapshot)) × Store P) (b : Bool)
          → poll.is_disconnected ≡ b
          → events P d cursor page_size poll.tape (run P poll.others l) ≡ r
          → ((rows : List (ℕ × Snapshot)) → r.0 ≡ ok rows → IsRun cursor (numbers rows))
          → ((n : ℕ) → Streams n polls r.1 (poll_events P E d n polls r.1))
          → Streams cursor
              (poll ∷ polls)
              l
              (if b then [] else after_reading P E d cursor (λ n u. poll_events P E d n polls u) r)
      branch r true left e h k = record {
        rows = [];
        read = Reads.gone cursor poll polls l left;
        run = tt;
        printed = Prints.finished;
      }
      branch r false stays e h k = reading-Streams cursor poll polls l r stays e h k

-- A stream that begins after a cursor on a gapless ledger, over all of its polls and whatever others do
-- to the ledger between them: the events of its first batch and those that its polls read from the ledger
-- have the consecutive numbers that follow the cursor, and the stream yields the print of each of them,
-- once and in order, with nothing between them but keepalives, and an error at most at its end.
pub stream_events-Streams :
    (P : Setup) (E : Encoder) (d : String) (after : ℕ) (t : Tape) (l : Store P)
    (initial : List (ℕ × Snapshot)) (polls : List Poll)
    → IsGapless l
    → (events P d after page_size t l).0 ≡ ok initial
    → (rows : List (ℕ × Snapshot)) × Reads P E d
        (last_sequence after initial)
        polls
        (events P d after page_size t l).1
        rows
      × IsRun after (numbers (initial ++ rows))
      × Prints E
          (initial ++ rows)
          (stream_events P E d after initial polls (events P d after page_size t l).1)
unfolding stream_events
stream_events-Streams P E d after t l initial polls g e =
    let later =
      poll_events-Streams P E d (last_sequence after initial) polls
        (events P d after page_size t l).1 (events-IsGapless P E d after t l g) in
    (
      later.rows,
      later.read,
      subst (IsRun after) (sym (numbers-append initial later.rows))
          (IsRun-append after initial _ (delivered-IsRun P E d after t l initial g e) later.run),
      Prints-batch E initial later.rows _ later.printed,
    )

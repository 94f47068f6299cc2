-- ===== src/Stream/Printer.antt =====
-- The event stream of hermes_a2a_gateway/broker.py: what `stream` yields for a batch of events, for an
-- empty one and for a gap. `canonical` is json.dumps, a parameter.
use codex_a2a_gateway.Base.{ℕ, String, Bool, List, [], ◌∷◌, ◌++◌, if◌then◌else◌}
use codex_a2a_gateway.Tx.Errors.{BrokerError, Error, broker, Result, ok, err}
use codex_a2a_gateway.Tx.{Tape}
use codex_a2a_gateway.Broker.Content.{codes}
use codex_a2a_gateway.Broker.Model.{Snapshot}
use codex_a2a_gateway.Broker.Setup.{Setup}
use codex_a2a_gateway.Broker.Snapshots.{Store}
use codex_a2a_gateway.Broker.Events.{events}
use codex_a2a_gateway.Broker.Calls.{Call, run}
use codex_a2a_gateway.Texts.{Text, decimal}

-- canonical(...), of a snapshot and of the object of an error.
pub record Encoder : Type 0 where
  pub snapshot : Snapshot → Text
  pub error : BrokerError → Text

module _ (E : Encoder) where
  unfoldable pub print_event : ℕ × Snapshot → Text
  unfolding decimal
  print_event (sequence, s) =
      codes "id: "
      ++ (decimal sequence
          ++ (codes "\nevent: operation\ndata: " ++ (E.snapshot s ++ codes "\n\n")))

  unfoldable pub print_batch : List (ℕ × Snapshot) → List Text
  unfolding print_event
  print_batch [] = []
  print_batch (row ∷ rows) = print_event row ∷ print_batch rows

  unfoldable pub print_error : BrokerError → Text
  print_error e = codes "event: error\ndata: " ++ (E.error e ++ codes "\n\n")

  abbrev pub keepalive : Text
  keepalive = codes ": keepalive\n\n"

  abbrev pub keepalive_of : List (ℕ × Snapshot) → List Text
  keepalive_of [] = keepalive ∷ []
  keepalive_of (row ∷ rows) = []

-- The cursor after a batch.
unfoldable pub last_sequence : ℕ → List (ℕ × Snapshot) → ℕ
last_sequence cursor [] = cursor
last_sequence cursor ((sequence, s) ∷ rows) = last_sequence sequence rows

-- A round of the loop after its batch: whether the client has gone, what others did to the ledger
-- meanwhile, and the tape of the next reading.
pub record Poll : Type 0 where
  pub is_disconnected : Bool
  pub others : List (Tape × Call)
  pub tape : Tape

abbrev pub page_size : ℕ
page_size = 100

module _ (P : Setup) (E : Encoder) (d : String) where
  -- A reading that raises anything but a `BrokerError` breaks the connection.
  abbrev pub after_error : Error → List Text
  after_error (broker e) = print_error E e ∷ []
  after_error _ = []

  -- What follows a reading of the ledger; `next` is the loop from a cursor on.
  unfoldable pub after_reading :
      ℕ → (ℕ → Store P → List Text) → Result (List (ℕ × Snapshot)) × Store P → List Text
  unfolding print_batch last_sequence print_error
  after_reading cursor next (ok rows, u) =
      keepalive_of E rows ++ (print_batch E rows ++ next (last_sequence cursor rows) u)
  after_reading cursor next (err e, u) = after_error e

  -- The texts that the stream yields.
  unfoldable pub poll_events : ℕ → List Poll → Store P → List Text
  unfolding after_reading
  poll_events cursor [] l = []
  poll_events cursor (poll ∷ polls) l =
      let reading = events P d cursor page_size poll.tape (run P poll.others l) in
      if poll.is_disconnected
      then []
      else after_reading cursor (λ n u. poll_events n polls u) reading

  -- `stream`, from the first batch on.
  unfoldable pub stream_events : ℕ → List (ℕ × Snapshot) → List Poll → Store P → List Text
  unfolding poll_events print_batch last_sequence
  stream_events after initial polls l =
      print_batch E initial ++ poll_events (last_sequence after initial) polls l

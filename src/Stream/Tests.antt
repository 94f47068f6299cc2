-- ===== src/Stream/Tests.antt =====
-- The theorems on the event stream applied to a small broker and a small client, and tests of the code.
use codex_a2a_gateway.Base.{
  ℕ, ◌+◌, ◌≡◌, refl, String, Bool, false, Option, none, some, List, [], ◌∷◌, ◌++◌, ◌==◌,
  if◌then◌else◌, arith, length, ◌≤◌,
}
use codex_a2a_gateway.Tx.Errors.{Result, ok, err}
use codex_a2a_gateway.Tx.{Tape}
use codex_a2a_gateway.Broker.Content.{codes}
use codex_a2a_gateway.Broker.Model.{State, Snapshot}
use codex_a2a_gateway.Broker.Snapshots.{Store}
use codex_a2a_gateway.Broker.Events.{events}
use codex_a2a_gateway.Broker.Calls.{Call}
use codex_a2a_gateway.Broker.EventLog.Steps.{run-IsGapless}
use codex_a2a_gateway.Broker.EventLog.Reader.{numbers}
use codex_a2a_gateway.Broker.Demo.{demo, at_time, history, succeed, served, computing}
use codex_a2a_gateway.Client.Model.{Incoming}
use codex_a2a_gateway.Client.Setup.{ClientStore}
use codex_a2a_gateway.Client.Demo.{small_client, drawing, completed, client_computing}
use codex_a2a_gateway.Client.Calls.{new_client}
use codex_a2a_gateway.Texts.{Text, concat, decimal, starts, same_text}
use codex_a2a_gateway.Stream.Lines.{is_line_break, split_lines}
use codex_a2a_gateway.Stream.Printer.{
  Encoder, Poll, print_event, print_batch, last_sequence, stream_events,
}
use codex_a2a_gateway.Stream.Reader.{max_event, goes_on, raised, store_of, read_lines}
use codex_a2a_gateway.Stream.RoundTrip.{at_start, apply_events, IsReadable, read_lines-print_batch}
use codex_a2a_gateway.Stream.Broken.{IsCut, read_lines-IsCut}
use codex_a2a_gateway.Stream.Polls.{IsRun, Reads, Prints, stream_events-Streams}

abbrev small_encoder : Encoder
small_encoder = record {
  snapshot = λ s. codes "{\"text\":\"" ++ (s.operation_id ∷ codes "done\"}");
  error = λ e. codes "{}";
}

abbrev closes : Text → Bool
closes [] = false
closes (c ∷ []) = c == b'}'
closes (c ∷ d ∷ s) = closes (d ∷ s)

-- A text that is closed is the snapshot of the client's history.
abbrev loads : Text → Option (Incoming String)
loads t = if closes t then some completed else none

abbrev tape : ℕ → Tape
tape k = drawing (10 + k)

-- The operation's number is the character that stands in the text.
abbrev snapshot_at : ℕ → Snapshot
snapshot_at c = record {
  operation_id = c;
  flow_id = 1;
  state = State.running;
  result_id = none;
  result = none;
  error = none;
  remote_task_id = none;
  created_at = 1;
  updated_at = 2;
}

abbrev ledger : ClientStore small_client
ledger = new_client small_client

abbrev rows : List (ℕ × Snapshot)
rows = (12, snapshot_at b'a') ∷ (13, snapshot_at b'b') ∷ []

IsReadable-first :
    IsReadable small_client small_encoder loads tape (λ s. completed) (12, snapshot_at b'a')
unfolding is_line_break print_event decimal
IsReadable-first = record {
  rest = codes "\"text\":\"adone\"}";
  object = refl;
  plain = (
    refl,
    (
      refl,
      (
        refl,
        (
          refl,
          (
            refl,
            (
              refl,
              (refl, (refl, (refl, (refl, (refl, (refl, (refl, (refl, (refl, (refl, tt)))))))))),
            ),
          ),
        ),
      ),
    ),
  );
  parsed = refl;
  fits = omega arith;
}

IsReadable-second :
    IsReadable small_client small_encoder loads tape (λ s. completed) (13, snapshot_at b'b')
unfolding is_line_break print_event decimal
IsReadable-second = record {
  rest = codes "\"text\":\"bdone\"}";
  object = refl;
  plain = (
    refl,
    (
      refl,
      (
        refl,
        (
          refl,
          (
            refl,
            (
              refl,
              (refl, (refl, (refl, (refl, (refl, (refl, (refl, (refl, (refl, (refl, tt)))))))))),
            ),
          ),
        ),
      ),
    ),
  );
  parsed = refl;
  fits = omega arith;
}

read_lines-print_batch_example :
    read_lines small_client loads tape
      (split_lines (concat (print_batch small_encoder rows)))
      (goes_on (at_start small_client small_encoder loads tape ledger 0))
    ≡ apply_events small_client small_encoder loads tape (λ s. completed) rows ledger 0
read_lines-print_batch_example =
    read_lines-print_batch small_client small_encoder loads tape (λ s. completed) rows ledger 0
      (IsReadable-first, (IsReadable-second, tt))

-- The cursor of the client after both events.
reads_test :
    (store_of small_client (
      read_lines small_client loads tape
        (split_lines (concat (print_batch small_encoder rows)))
        (goes_on (at_start small_client small_encoder loads tape ledger 0)))).cursor
    ≡ 13
unfolding client_computing read_lines split_lines print_batch concat same_text
reads_test = refl

-- A text with the line separator U+2028.
separated :
    IsCut small_client small_encoder loads tape (small_encoder.snapshot (snapshot_at 0x2028))
unfolding is_line_break starts
separated = record {
  head = codes "\"text\":\"";
  mark = 0x2028;
  tail = codes "done\"}";
  whole = refl;
  ends = refl;
  no_return = refl;
  head_plain = (refl, (refl, (refl, (refl, (refl, (refl, (refl, (refl, (refl, tt)))))))));
  tail_plain = (refl, (refl, (refl, (refl, (refl, (refl, tt))))));
  unread = refl;
  not_empty = omega arith;
  no_id = refl;
  no_event = refl;
  no_data = refl;
}

separated_fits : length (print_event small_encoder (12, snapshot_at 0x2028)) ≤ max_event
unfolding print_event decimal
separated_fits = omega arith

read_lines-IsCut_example :
    read_lines small_client loads tape
      (split_lines (print_event small_encoder (12, snapshot_at 0x2028) ++ []))
      (goes_on (at_start small_client small_encoder loads tape ledger 0))
    ≡ raised ledger
read_lines-IsCut_example =
    read_lines-IsCut small_client small_encoder loads tape 12 (snapshot_at 0x2028) [] ledger 0
      (omega arith) separated_fits separated

abbrev first_page : Result (List (ℕ × Snapshot)) × Store demo
first_page = events demo "laptop" 1 100 (at_time 30) served

abbrev page_rows : List (ℕ × Snapshot)
page_rows = elim first_page.0 [ ok rs ↦ rs | err e ↦ [] ]

-- Another operation ends between two polls.
abbrev polls : List Poll
polls =
    record {
      is_disconnected = false;
      others = (at_time 40, Call.finish "laptop" 8 succeed) ∷ [];
      tape = at_time 41;
    }
    ∷ record { is_disconnected = false; others = []; tape = at_time 42 }
    ∷ []

abbrev yielded : List Text
yielded = stream_events demo small_encoder "laptop" 1 page_rows polls first_page.1

-- Six events, and the keepalive of the second poll.
texts_test : length yielded ≡ 7
unfolding computing stream_events
texts_test = refl

stream_events-Streams_example :
    (rows : List (ℕ × Snapshot)) × Reads demo small_encoder "laptop"
      (last_sequence 1 page_rows)
      polls
      first_page.1
      rows
    × IsRun 1 (numbers (page_rows ++ rows))
    × Prints small_encoder (page_rows ++ rows) yielded
unfolding computing
stream_events-Streams_example =
    stream_events-Streams demo small_encoder "laptop" 1 (at_time 30) served page_rows polls
      (run-IsGapless demo history) refl

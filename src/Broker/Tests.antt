-- ===== src/Broker/Tests.antt =====
-- The theorems applied to a small broker and its history, and tests of the calls.
use codex_a2a_gateway.Broker.Artifacts.{total_size}
use codex_a2a_gateway.Base.{length, ℕ, ◌≡◌, refl, true, List, [], ◌∷◌}
use codex_a2a_gateway.Tx.Errors.{Result, ok, err}
use codex_a2a_gateway.Tx.{Tape}
use codex_a2a_gateway.Broker.Model.{Snapshot, Operation, Plain}
use codex_a2a_gateway.Broker.Snapshots.{Store}
use codex_a2a_gateway.Broker.Events.{events}
use codex_a2a_gateway.Broker.Calls.{Call, run, empty}
use codex_a2a_gateway.Broker.Spec.{Writes}
use codex_a2a_gateway.Broker.Refines.Histories.{run-Writes}
use codex_a2a_gateway.Broker.Lifecycle.{Follows}
use codex_a2a_gateway.Broker.Lifecycle.Steps.{run-Follows}
use codex_a2a_gateway.Broker.EventLog.{IsGapless}
use codex_a2a_gateway.Broker.EventLog.Steps.{run-IsGapless}
use codex_a2a_gateway.Broker.EventLog.Reader.{numbers, Delivers, events-Delivers}
use codex_a2a_gateway.Broker.Dispatches.{dispatches}
use codex_a2a_gateway.Broker.Dispatches.Once.{dispatches-NoRepeat}
use codex_a2a_gateway.Histories.{NoRepeat}
use codex_a2a_gateway.Broker.Accept.{accepted_row, accept}
use codex_a2a_gateway.Broker.Replays.{IsReplay, accept-IsReplay}
use codex_a2a_gateway.Broker.Cancellations.{canceled_by, cancellations, cancellations-NoRepeat}
use codex_a2a_gateway.Broker.Quota.{IsWithin, run-IsWithin}
use codex_a2a_gateway.Broker.Pending.{IsAdmitted, run-IsAdmitted}
use codex_a2a_gateway.Broker.Receipts.{HasNamedResults, run-HasNamedResults}
use codex_a2a_gateway.Broker.Demo.{demo, at_time, ask, history, later_history, served, computing}

-- The two operations are dispatched one after the other, each once.
dispatches_test : dispatches demo history (empty demo) ≡ ("laptop", 7) ∷ ("laptop", 8) ∷ []
unfolding computing
dispatches_test = refl

run-Writes_example : Writes demo (empty demo) (run demo history (empty demo))
run-Writes_example = run-Writes demo history (empty demo)

run-Follows_example : Follows served.operations (run demo later_history served).operations
run-Follows_example = run-Follows demo later_history served

run-IsGapless_example : IsGapless (run demo history (empty demo))
run-IsGapless_example = run-IsGapless demo history

abbrev delivered : Result (List (ℕ × Snapshot)) × Store demo
delivered = events demo "laptop" 2 2 (at_time 30) served

abbrev delivered_rows : List (ℕ × Snapshot)
delivered_rows = elim delivered.0 [ ok rows ↦ rows | err e ↦ [] ]

-- A page of two events, from the third on.
events_test : numbers delivered_rows ≡ 3 ∷ 4 ∷ []
unfolding computing
events_test = refl

events-Delivers_example : Delivers "laptop" 2 2 delivered_rows delivered.1
unfolding computing
events-Delivers_example =
    events-Delivers demo "laptop" 2 2 (at_time 30) served delivered_rows
      (run-IsGapless demo history) refl

-- The ledger before the first dispatch.
abbrev submitted_history : List (Tape × Call)
submitted_history =
    (at_time 1, Call.acquire_dispatcher true) ∷ (at_time 2, Call.accept "laptop" (ask 7 1)) ∷ []

abbrev submitted : Store demo
submitted = run demo submitted_history (empty demo)

dispatches-NoRepeat_example : NoRepeat (dispatches demo history (empty demo))
dispatches-NoRepeat_example = dispatches-NoRepeat demo history

-- The history leaves one receipt, and an artifact of two bytes.
served_test : (length served.receipts ≡ 1) × (total_size served.artifacts ≡ 2)
unfolding computing
served_test = (refl, refl)

run-IsWithin_example : IsWithin 100 (run demo history (empty demo)).artifacts
run-IsWithin_example = run-IsWithin demo history

run-HasNamedResults_example : HasNamedResults (run demo history (empty demo))
run-HasNamedResults_example = run-HasNamedResults demo history

run-IsAdmitted_example : IsAdmitted 2 (run demo history (empty demo)).operations
run-IsAdmitted_example = run-IsAdmitted demo history

abbrev known_row : Operation Plain
known_row = accepted_row "laptop" (ask 7 1) 8 2

accept-IsReplay_example :
    IsReplay known_row 8 submitted
      (accept demo "laptop" (ask 7 1) (at_time 5) submitted).0
      (accept demo "laptop" (ask 7 1) (at_time 5) submitted).1
unfolding computing
accept-IsReplay_example =
    accept-IsReplay demo "laptop" (ask 7 1) (at_time 5) submitted known_row refl

-- Cancellation is asked twice, and claimed twice.
abbrev canceled_history : List (Tape × Call)
canceled_history =
    (at_time 1, Call.acquire_dispatcher true)
    ∷ (at_time 2, Call.accept "laptop" (ask 7 1))
    ∷ (at_time 4, Call.claim)
    ∷ (at_time 6, Call.save_handle "laptop" 7 "task-1")
    ∷ (at_time 7, Call.cancel_intent "laptop" 7)
    ∷ (at_time 8, Call.claim_cancel)
    ∷ (at_time 9, Call.cancel_intent "laptop" 7)
    ∷ (at_time 10, Call.claim_cancel)
    ∷ []

cancellations_test : cancellations demo canceled_history (empty demo) ≡ ("laptop", 7) ∷ []
unfolding computing cancellations canceled_by
cancellations_test = refl

cancellations-NoRepeat_example : NoRepeat (cancellations demo canceled_history (empty demo))
cancellations-NoRepeat_example = cancellations-NoRepeat demo canceled_history

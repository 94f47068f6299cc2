-- ===== src/Client/Demo.antt =====
-- A small client, a history of it, and the computing of calls on it, for the tests.
use codex_a2a_gateway.Base.{
  ℕ, ◌+◌, String, refl, true, some, List, [], ◌∷◌, length, same, select_one, select, select_count,
  update, delete, select_first,
}
use codex_a2a_gateway.Tx.{
  Tape, pure, raise, gets, or_raise, modify, utcnow, draw, require, ◌>>=◌, transaction, attempt,
}
use codex_a2a_gateway.Broker.Model.{State, is_final, is_terminal}
use codex_a2a_gateway.Broker.Content.{codes, utf8_size}
use codex_a2a_gateway.Client.Model.{
  NativeOrigin, Field, Sequence, Incoming, Command, has_id, of_call, of_client_receipt, has_final,
}
use codex_a2a_gateway.Client.Setup.{ClientSetup, ClientSettings}
use codex_a2a_gateway.Client.Calls.{ClientCall, client_step, client_run}
use codex_a2a_gateway.Client.Delivery.{
  is_inline, is_ready, is_enqueueing, is_uncertain, is_sending, end_state, uncertain_receipts,
  ready_row, release_inline, is_deliverable, start_delivery, claim_ready, claim_delivery_row,
  claim_delivery, end_receipt, finish_delivery, unknown_deliveries, ready_deliveries,
  unknown_cancellations, reopen,
}
use codex_a2a_gateway.Histories.{emitted}
use codex_a2a_gateway.Broker.Finish.{has_handle, handle_is}
use codex_a2a_gateway.Broker.Rows.{same_status}
use codex_a2a_gateway.Client.Snapshots.{
  field_uuid, field_result, read_optional, is_same_task, add_client_receipt, validated, is_stale,
  is_resolution, disagrees, accepted_client_row, note_receipt, write_snapshot, mark_conflict,
  merge_snapshot, merge_known, move_cursor, accept_snapshot_body, accept_snapshot, is_takeable,
  shown_snapshot, view_of, mark_taken, take_inline, is_consumable, consume_row, view_body, view,
  resolve_call,
}
use codex_a2a_gateway.Client.Enqueued.{enqueued_by, enqueued}
use codex_a2a_gateway.Client.Commands.{
  of_thread, is_awaited, is_unsent, is_outstanding, are_uuids, is_bound, read_sequence,
  raise_cursor, read_row, add_flow, created_row, insert_command, repeat_command, new_command,
  create_body, create, open_payload, payload, ids, advance, mark_submission, cancel_state,
  unsent_receipts, receipt_sent, drop_payload, is_prunable, prune,
}
use codex_a2a_gateway.Client.Texts.{read_places, read_uuid, is_white, is_blank}

abbrev client_settings : ClientSettings
client_settings = record { retention_seconds = 1000; payload_ttl_seconds = 100; max_pending = 4 }

-- JSON values are texts, and the cipher hides nothing.
abbrev pub small_client : ClientSetup
small_client = record {
  settings = client_settings;
  Value = String;
  null = "null";
  same_value = λ a b. same a b;
  Token = Command;
  encrypt = λ iv v. v;
  decrypt = λ v. some v;
  decrypt-encrypt = λ iv v. refl;
  digest = λ prompt artifact_ids. length (codes prompt);
}

-- The draws are 31, 32, ...
abbrev pub drawing : ℕ → Tape
drawing n = record { clock = λ k. n + k; random = λ k. 31 + k }

abbrev pub origin : NativeOrigin
origin = record { thread_id = "thread"; turn_id = "turn"; call_id = "call" }

abbrev pub operation_text : String
operation_text = "00000000-0000-0000-0000-00000000001f"

abbrev pub flow_text : String
flow_text = "00000000-0000-0000-0000-000000000020"

abbrev pub completed : Incoming String
completed = record {
  operation_id = Field.text operation_text;
  flow_id = Field.text flow_text;
  state = some State.completed;
  is_whole = true;
  result_id = Field.text flow_text;
  result = "done";
  error = "null";
  remote_task_id = some "task-1";
  created_at = "1";
  updated_at = "2";
}

-- A submission, its result, and two attempts to deliver it.
abbrev pub client_history : List (Tape × ClientCall String)
client_history =
    (drawing 1, ClientCall.create origin "hi" [] 5)
    ∷ (drawing 2, ClientCall.release_inline 31)
    ∷ (drawing 3, ClientCall.accept_snapshot completed (Sequence.at 4))
    ∷ (drawing 4, ClientCall.claim_delivery 31)
    ∷ (drawing 5, ClientCall.reopen)
    ∷ (drawing 6, ClientCall.claim_delivery 31)
    ∷ []

-- Names what a call on the small client computes with.
unfoldable pub client_computing : Unit {0}
unfolding pure raise gets or_raise modify utcnow draw require ◌>>=◌ transaction attempt emitted
    select_one select select_count update delete select_first utf8_size has_handle handle_is
    is_final is_terminal same_status is_inline is_ready is_enqueueing is_uncertain is_sending
    end_state uncertain_receipts ready_row release_inline is_deliverable start_delivery claim_ready
    claim_delivery_row claim_delivery end_receipt finish_delivery unknown_deliveries
    ready_deliveries unknown_cancellations reopen field_uuid field_result read_optional is_same_task
    add_client_receipt validated is_stale is_resolution disagrees accepted_client_row note_receipt
    write_snapshot mark_conflict merge_snapshot merge_known move_cursor accept_snapshot_body
    accept_snapshot is_takeable shown_snapshot view_of mark_taken take_inline is_consumable
    consume_row view_body view resolve_call client_step client_run enqueued_by enqueued has_id
    of_call of_client_receipt has_final of_thread is_awaited is_unsent is_outstanding are_uuids
    is_bound read_sequence raise_cursor read_row add_flow created_row insert_command repeat_command
    new_command create_body create open_payload payload ids advance mark_submission cancel_state
    unsent_receipts receipt_sent drop_payload is_prunable prune read_places read_uuid is_white
    is_blank
client_computing = tt

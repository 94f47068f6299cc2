-- ===== src/Broker/Demo.antt =====
-- A small broker, a history of it, and the computing of calls on it, for the tests.
use codex_a2a_gateway.Base.{
  ℕ, ◌+◌, refl, true, none, some, List, [], ◌∷◌, select_one, select, select_count, update, delete,
  select_first,
}
use codex_a2a_gateway.Histories.{emitted}
use codex_a2a_gateway.Tx.{
  Tape, pure, raise, gets, or_raise, modify, utcnow, draw, require, ◌>>=◌, transaction, attempt,
}
use codex_a2a_gateway.Broker.Model.{
  State, Request, Plain, Outcome, is_final, is_terminal, is_active, is_pending,
}
use codex_a2a_gateway.Broker.Setup.{Setup, BrokerSettings}
use codex_a2a_gateway.Broker.Snapshots.{
  Store, add_device, append_event, stored_error, lock_device, encrypt_value, decrypt_value, get_row,
  live_cipher, has_expired, open_result, read_result, snapshot_of, record_event,
}
use codex_a2a_gateway.Broker.Finish.{
  Ending, finished_row, close_outbox, has_handle, handle_is, is_running, seal_result, write_end,
  finish_row, bounded_end, finish, write_handle, save_handle, recover_rows, require_dispatcher,
  recover,
}
use codex_a2a_gateway.Broker.Calls.{Call, empty, perform, run}
use codex_a2a_gateway.Broker.Accept.{
  accepted_row, input_bytes, insert_operation, admit, replay, accept_body, accept, get,
}
use codex_a2a_gateway.Broker.Dispatch.{
  is_accepted, is_claimable, candidate, as_request, failed_with, claim_outbox, start_row,
  acquire_dispatcher, read_artifacts, refuse, start, dispatch, claim_payload, claim_row, claim_body,
  claim, is_reconcilable, insert_polled, sort_polled, mark_polled, reconcilable,
}
use codex_a2a_gateway.Broker.Content.{
  before_semicolon, is_space, strip_left, strip_right, to_lower, lower, is_text_plain, is_printable,
  is_content_type, lead_byte, is_utf8, contains, are_distinct, is_handle, utf8_size,
}
use codex_a2a_gateway.Broker.Cancel.{
  requested_row, is_cancelable, request_cancel, cancel_row, cancel_intent, claim_cancel_row,
  claim_cancel,
}
use codex_a2a_gateway.Broker.Dispatches.{dispatched, dispatches}
use codex_a2a_gateway.Broker.Artifacts.{
  descriptor, total_size, as_content, read_artifact, artifact, store_artifact, put_artifact,
}
use codex_a2a_gateway.Broker.Events.{
  max_sequence, drop_events, drop_expired, insert_event, sort_events, as_snapshot, read_status,
  expire_result, purge_events, decrypt_events, page, events_body, events, add_receipt, is_result,
  receipt, purge_devices, drop_payloads, drop_artifacts, drop_results, purge,
}
use codex_a2a_gateway.Broker.Rows.{
  of_device, of_operation, of_payload, pending_of, active_in_flow, created_before, updated_before,
  polled_before, event_of, expired_event_of, event_up_to, event_after, artifact_of,
  expired_artifact_of, live_artifact, of_outbox, is_waiting, waiting, same_status, of_receipt,
}

abbrev pub demo_settings : BrokerSettings
demo_settings = record {
  payload_ttl_seconds = 100;
  artifact_ttl_seconds = 100;
  event_ttl_seconds = 200;
  result_ttl_seconds = 200;
  max_artifact_bytes = 64;
  device_quota_bytes = 100;
  max_pending_per_device = 2;
  max_result_bytes = 64;
  max_concurrent_streams = 2;
}

abbrev pub sum_bytes : List ℕ → ℕ
sum_bytes [] = 0
sum_bytes (b ∷ bytes) = b + sum_bytes bytes

-- A cipher that hides nothing, which meets the law of the parameter.
abbrev pub demo : Setup
demo = record {
  settings = demo_settings;
  Token = Plain;
  encrypt = λ iv v. v;
  decrypt = λ v. some v;
  decrypt-encrypt = λ iv v. refl;
  request_digest = λ req. req.operation_id + req.flow_id;
  content_digest = sum_bytes;
  outcome_size = λ o. 1;
}

abbrev pub at_time : ℕ → Tape
at_time n = record { clock = λ k. n + k; random = λ k. 1000 + n + k }

abbrev pub ask : ℕ → ℕ → Request
ask o flow = record { operation_id = o; flow_id = flow; prompt = "hi"; artifact_ids = [] }

abbrev pub succeed : Ending
succeed = record {
  state = State.completed;
  result = some (Outcome.reply "done" []);
  code = none;
  message = none;
}

-- Two operations of one flow: the second is dispatched when the first has ended.
abbrev pub history : List (Tape × Call)
history =
    (at_time 1, Call.acquire_dispatcher true)
    ∷ (at_time 2, Call.accept "laptop" (ask 7 1))
    ∷ (at_time 3, Call.accept "laptop" (ask 8 1))
    ∷ (at_time 4, Call.claim)
    ∷ (at_time 5, Call.claim)
    ∷ (at_time 6, Call.save_handle "laptop" 7 "task-1")
    ∷ (at_time 7, Call.finish "laptop" 7 succeed)
    ∷ (at_time 8, Call.claim)
    ∷ (at_time 9, Call.receipt "laptop" 7 1008 "stored")
    ∷ (at_time 10, Call.put_artifact "laptop" (1 ∷ 2 ∷ []) 3 "text/plain")
    ∷ []

abbrev pub later_history : List (Tape × Call)
later_history =
    (at_time 20, Call.cancel_intent "laptop" 8)
    ∷ (at_time 21, Call.recover)
    ∷ (at_time 300, Call.purge)
    ∷ []

abbrev pub served : Store demo
served = run demo history (empty demo)

-- Names what a call on the small broker computes with.
unfoldable pub computing : Unit {0}
unfolding emitted pure raise gets or_raise modify utcnow draw require ◌>>=◌ transaction attempt
    select_one select select_count update delete select_first accepted_row input_bytes
    insert_operation admit replay accept_body accept get is_accepted is_claimable candidate
    as_request failed_with claim_outbox start_row acquire_dispatcher read_artifacts refuse start
    dispatch claim_payload claim_row claim_body claim is_reconcilable insert_polled sort_polled
    mark_polled reconcilable before_semicolon is_space strip_left strip_right to_lower lower
    is_text_plain is_printable is_content_type lead_byte is_utf8 contains are_distinct is_handle
    utf8_size add_device append_event stored_error lock_device encrypt_value decrypt_value get_row
    live_cipher has_expired open_result read_result snapshot_of record_event perform run
    finished_row close_outbox has_handle handle_is is_running seal_result write_end finish_row
    bounded_end finish write_handle save_handle recover_rows require_dispatcher recover
    requested_row is_cancelable request_cancel cancel_row cancel_intent claim_cancel_row
    claim_cancel dispatched dispatches is_final is_terminal is_active is_pending descriptor
    total_size as_content read_artifact artifact store_artifact put_artifact max_sequence
    drop_events drop_expired insert_event sort_events as_snapshot read_status expire_result
    purge_events decrypt_events page events_body events add_receipt is_result receipt purge_devices
    drop_payloads drop_artifacts drop_results purge of_device of_operation of_payload pending_of
    active_in_flow created_before updated_before polled_before event_of expired_event_of event_up_to
    event_after artifact_of expired_artifact_of live_artifact of_outbox is_waiting waiting
    same_status of_receipt
computing = tt

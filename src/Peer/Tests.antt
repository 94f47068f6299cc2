-- ===== src/Peer/Tests.antt =====
-- The theorems about the client of the peer applied to a card and a failing peer.
use codex_a2a_gateway.Base.{
  zero, suc, ◌≤◌, ◌≡◌, refl, true, false, none, some, List, [], ◌∷◌, inl, if◌then◌else◌, Option, In,
}
use codex_a2a_gateway.Broker.Content.{codes, lower, to_lower}
use codex_a2a_gateway.Client.Texts.{is_white}
use codex_a2a_gateway.Texts.{Text, starts, drop, same_text, concat}
use codex_a2a_gateway.Peer.Json.{Json, Items, Members, get, get_truthy, is_truthy, str}
use codex_a2a_gateway.Peer.Urls.{
  UrlParsers, is_loopback_parts, is_loopback_url, hostname_of, strip, strip_start, strip_end,
  strip_slashes, validate_endpoint,
}
use codex_a2a_gateway.Peer.Requests.{
  Reply, Peer, http_error, read_card, has_key, rpc_code_of, rpc_error, read_payload, attempts,
  get_json,
}
use codex_a2a_gateway.Peer.Calls.{
  select_interface, candidate_url, tenant_of, take_candidate, take_interfaces, take_card, discover,
  post_rpc, get_task, cancel_task, read_stream_status, open_stream, Rpc, run_rpc, run_rpcs,
  new_peer,
}
use codex_a2a_gateway.Peer.Once.{posts, run_rpc-posts}
use codex_a2a_gateway.Peer.Tasks.{
  ParsedTask, unwrap_task, objects, objects_of, remove_all, find_state, task_state, join_lines,
  part_text, message_text, first_text, status_of, text_of, parse_unwrapped, parse_task, get_object,
  parse_stream_event,
}
use codex_a2a_gateway.Peer.Parts.{
  StreamSetup, set, merge, texts_of, keys_of, items_of, parts_of, get_text, append_item, join_raw,
  join_parts, append_part, append_parts, append_artifact,
}
use codex_a2a_gateway.Peer.Chunks.{
  find, put, as_items, identity_of, retain, retain_all, texts_of_all, yield_task, take_parsed,
  run_events, new_stream,
}
use codex_a2a_gateway.Peer.Envelopes.{
  envelope_effect, line_effect, read_events, IsResult, read_events-IsResult,
}
use codex_a2a_gateway.Peer.Handle.{AllYields, run_events-AllYields}
use codex_a2a_gateway.Peer.Updates.{update_event}
use codex_a2a_gateway.Peer.Guarded.{IsLoopback, run_rpcs-IsLoopback}

-- Every URL of the scheme is one of this host.
abbrev parsers : UrlParsers
parsers = record {
  urlparse = λ s. some (record {
    scheme = codes "http";
    hostname = if starts (codes "http://localhost:") s then codes "localhost" else [];
    username = [];
    password = [];
    query = [];
    fragment = [];
    path = [];
    port = none;
    has_port_error = false;
  });
  is_loopback_address = λ s. false;
}

abbrev shown : Json → Text
shown j = codes "null"

abbrev endpoint : Text
endpoint = codes "http://localhost:9900"

abbrev card : Json
card = Json.object (
    Members.member "supportedInterfaces"
      (Json.list (
        Items.item
          (Json.object (
            Members.member "protocolBinding" (Json.text (codes "JSONRPC"))
              (Members.member "url" (Json.text (codes "http://localhost:9901/")) Members.end)))
          Items.last))
      Members.end)

-- The card, and failures of the server from then on.
abbrev peer : Peer
peer zero = Reply.replied 200 (some card)
peer (suc n) = Reply.replied 503 none

abbrev rpcs : List Rpc
rpcs = Rpc.stream_rpc ∷ Rpc.get_task_rpc ∷ Rpc.cancel_task_rpc ∷ []

unfoldable peer_computing : Unit {0}
unfolding lower to_lower is_white starts same_text get get_truthy is_truthy str is_loopback_parts
    is_loopback_url hostname_of strip strip_start strip_end strip_slashes validate_endpoint
    http_error read_card has_key rpc_code_of rpc_error read_payload attempts get_json
    select_interface candidate_url tenant_of take_candidate take_interfaces take_card discover
    post_rpc get_task cancel_task read_stream_status open_stream run_rpc run_rpcs
peer_computing = tt

posts_test : posts (run_rpcs parsers shown endpoint peer rpcs (new_peer endpoint)).requests ≡ 5
unfolding peer_computing
posts_test = refl

run_rpc-posts_example :
    posts (run_rpc parsers shown endpoint Rpc.cancel_task_rpc peer (new_peer endpoint)).1.requests
    ≤ 1
unfolding peer_computing
run_rpc-posts_example =
    run_rpc-posts parsers shown endpoint peer Rpc.cancel_task_rpc (new_peer endpoint)

run_rpcs-IsLoopback_example : IsLoopback parsers (codes "http://localhost:9901/")
unfolding peer_computing
run_rpcs-IsLoopback_example =
    run_rpcs-IsLoopback parsers shown endpoint endpoint refl peer rpcs
      (codes "http://localhost:9901/") (inl refl)

abbrev setup : StreamSetup
setup = record {
  printers = record { show = shown; dumps = shown };
  b64decode = λ s. some s;
  b64encode = λ s. s;
  canonical_size = λ j. 10;
  max_snapshot_bytes = 20;
}

abbrev stream_events : List Members
stream_events =
    update_event false (codes "task-1") (codes "a") (codes "chunks ")
    ∷ update_event true (codes "task-1") (codes "a") (codes "of ")
    ∷ update_event true (codes "task-1") (codes "a") (codes "text")
    ∷ []

abbrev stream_texts : List ParsedTask → List Text
stream_texts [] = []
stream_texts (t ∷ tasks) = t.text ∷ stream_texts tasks

unfoldable stream_computing : Unit {0}
unfolding peer_computing unwrap_task objects objects_of remove_all find_state task_state join_lines
    part_text message_text first_text status_of text_of parse_unwrapped parse_task get_object
    parse_stream_event set merge texts_of keys_of items_of parts_of get_text append_item join_raw
    join_parts append_part append_parts append_artifact find put as_items identity_of retain
    retain_all texts_of_all yield_task take_parsed run_events concat
stream_computing = tt

run_events_test :
    stream_texts (run_events setup (codes "context") stream_events new_stream).0
    ≡ codes "chunks" ∷ codes "chunks of" ∷ codes "chunks of text" ∷ []
unfolding stream_computing
run_events_test = refl

run_events-AllYields_example :
    (h : Text) × AllYields setup h (run_events setup (codes "context") stream_events new_stream).0
run_events-AllYields_example = run_events-AllYields setup (codes "context") stream_events

-- What json.loads finds in the data of the lines.
abbrev found_event : Members
found_event = Members.member "statusUpdate" (Json.object Members.end) Members.end

abbrev response : Members
response = Members.member "jsonrpc" (Json.text (codes "2.0")) (
    Members.member "id" (Json.text (codes "bridge-1"))
      (Members.member "result" (Json.object found_event) Members.end))

abbrev loading : Text → Option Json
loading s = some (Json.object response)

abbrev data_line : Text
data_line = codes "data: {}"

read_events_test :
    read_events loading (codes "bridge-1") (data_line ∷ []) ≡ (found_event ∷ [], none)
unfolding peer_computing drop read_events line_effect envelope_effect
read_events_test = refl

read_events-IsResult_example :
    (line : Text) × In line (data_line ∷ []) × IsResult loading (codes "bridge-1") line found_event
unfolding peer_computing drop read_events line_effect envelope_effect
read_events-IsResult_example =
    read_events-IsResult loading (codes "bridge-1") (data_line ∷ []) found_event (inl refl)

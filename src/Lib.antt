-- ===== src/Lib.antt =====
-- The gateway between a Codex client and a Hermes agent over A2A: a broker keeps a durable ledger
-- of operations and hands each one to the peer, a client follows it by a stream of events.
--
-- Parts of the program, and the files that model them (paths from the repository's root):
-- - src/hermes_a2a_gateway/broker_store.py, class BrokerStore: the ledger. Its tables are the
--   record `Ledger` of Broker/Model.antt, one list of rows for each table of SCHEMA; the WHERE and
--   ORDER BY clauses are the tests of Broker/Rows.antt, the statements the functions of
--   Base/Tables.antt. Private steps (`_device`, `_encrypt`, `_decrypt`, `_row`, `_snapshot`,
--   `_event`) are in Broker/Snapshots.antt; `accept` and `get` in Broker/Accept.antt;
--   `acquire_dispatcher`, `claim` and `reconcilable` in Broker/Dispatch.antt; `_finish`, `finish`,
--   `save_handle` and `recover` in Broker/Finish.antt; `cancel_intent` and `claim_cancel` in
--   Broker/Cancel.antt; `events`, `receipt`, `_purge_events` and `purge` in Broker/Events.antt;
--   `put_artifact`, `_artifact` and `artifact` in Broker/Artifacts.antt; the tests of texts and
--   bytes in Broker/Content.antt. Broker/Calls.antt has the public methods as calls, and histories
--   as lists of calls.
-- - src/hermes_a2a_gateway/broker_settings.py: the bounds that the ledger reads are
--   `BrokerSettings` of Broker/Setup.antt. The fields with their bounds and `validate_policy` are
--   in Settings/Policy.antt. The parser of URLs and the test of a Fernet key are parameters.
-- - src/hermes_a2a_gateway/client_store.py, class ClientStore: the client's ledger. Its tables are
--   the record `ClientLedger` of Client/Model.antt; `row`, `create`, `payload`, `ids`, `advance`,
--   `mark_submission`, `cancel_state`, `receipts`, `receipt_sent` and `prune` are in
--   Client/Commands.antt, `accept_snapshot`, `_receipt`, `view` and `resolve_call` in
--   Client/Snapshots.antt, `release_inline`, `claim_delivery` and `finish_delivery`, with what
--   `__init__` does to a ledger that is opened again (`reopen`), in Client/Delivery.antt. The
--   statuses that client.py passes to `finish_delivery` are `DeliveryEnd`. Client/Calls.antt has
--   the methods that write as calls, and histories as lists of calls.
-- - src/hermes_a2a_gateway/native_delivery.py: `native_uuid` is `read_uuid` of Client/Texts.antt;
--   `_rpc` is in Native/Session.antt and Native/Queue.antt, with `enqueue` and `reconcile`. What
--   the host's app-server prints and which writes fail is given, and so is whether `capability`
--   returns; a log has the messages written.
-- - src/hermes_a2a_gateway/client_settings.py: the bounds that the client's ledger reads are
--   `ClientSettings` of Client/Setup.antt. `__post_init__` and `ssh_config` are in
--   Settings/Transport.antt, with the same parameters.
-- - src/hermes_a2a_gateway/models.py and diagnostics.py: task states, peer tasks,
--   `peer_error_details` and `peer_capabilities` are in Diagnostics.antt. A JSON value is told
--   apart as far as the code does; the parser of times is a parameter.
-- - src/hermes_a2a_gateway/broker.py: `_observe` and `_unknown` of the dispatcher are in
--   Dispatcher/Observe.antt; `_submit`, `_cancel`, `_reconcile` and the end of `aclose` in
--   Dispatcher/Submit.antt. A job (Dispatcher/Jobs.antt) is a sequence of calls of the store,
--   before each of which any other calls may happen. The tables of jobs are in
--   Dispatcher/Tables.antt, with what `step` does to them; `step`, `aclose` and `run` are in
--   Dispatcher/Step.antt. `DeviceAuthentication` is in Api/Authentication.antt, `bounded_body` in
--   Api/Bodies.antt, `db` in Api/Replies.antt, and the routes, each for its method, in
--   Api/Handlers.antt. The decoder of base64 and the parsers of request bodies are parameters. A
--   job is canceled only while it waits for the peer. A loop of `step` is given
--   `max_concurrent_streams` rounds, and is marked where they are not enough.
-- - broker.py, `events`: the polls of the event stream and its printing are in Stream/Polls.antt
--   and Stream/Printer.antt; `_events` of client.py, which reads it, is in Stream/Reader.antt. A
--   stream is a list of polls, between which any calls of the store may happen. The printer and the
--   parser of JSON are parameters. The lines are cut as `aiter_lines` cuts them
--   (Stream/Lines.antt). `int` reads ASCII digits.
-- - src/hermes_a2a_gateway/client.py, class ClientService: `ingest`, `refresh`, `recover`,
--   `dispatch_pending` and `flush_receipts` are in Bridge/Sync.antt, `deliver_ready` in
--   Bridge/Deliveries.antt, `submit`, `get`, `wait` and `cancel` in Bridge/Tools.antt, `_work` in
--   Bridge/Tasks.antt. A job (Bridge/Jobs.antt) keeps a log of its requests, during each of which
--   any calls of the client's ledger may happen; what the broker and the host's queue answer,
--   CancelledError included, is given. A wait is the list of its rounds,
--   each with the milliseconds of its work and those until a change ends its pause; a list that ends
--   is a cancellation.
-- - src/hermes_a2a_gateway/a2a.py, class A2AClient: `_http_error`, `_get_json` and an attempt of
--   `_post_rpc` are in Peer/Requests.antt, `discover` and the calls in Peer/Calls.antt, with a log
--   of the requests; the peer is a function from the number of a request to its reply. The loop of
--   `_sse` over lines is in Peer/Envelopes.antt. `parse_task` and `parse_stream_event` are in
--   Peer/Tasks.antt, `is_loopback_url` of settings.py in Peer/Urls.antt. A JSON value is a tree
--   (Peer/Json.antt); `urlparse`, `ipaddress`, str() of other values than texts and json.dumps are
--   parameters, and lower() is that of ASCII.
-- - src/hermes_a2a_gateway/broker_peer.py: the loop of `submit` over the events of a stream is in
--   Peer/Chunks.antt, and what it does with the chunks of an artifact in Peer/Parts.antt.
-- - src/hermes_a2a_gateway/ssh_tunnel.py: `SSHConfig` with its checks and arguments is in
--   Tunnel/Config.antt, the table of fatal messages in Tunnel/Failures.antt, a process, the
--   reader of its output and its cleanup in Tunnel/Process.antt, the inspection in
--   Tunnel/Inspections.antt, the supervising loop with its retries in Tunnel/Supervisor.antt. A run
--   is the list of its rounds, and a round the list of its looks at the process; a list that ends is
--   a cancellation. The state also counts the processes that run, which are the operating system's:
--   a process that was spawned ends by itself, within three seconds of SIGTERM if it obeys, or by
--   SIGKILL. The parser of addresses and `expanduser` are
--   parameters.
--
-- A transaction (`with self.transaction()`) is a function of Tx.antt from a tape and a session to a
-- result: the tape answers `utcnow()` and the random draws (`uuid.uuid4()`, the vectors of Fernet)
-- in the order of the calls, and an exception rolls the tables back. Transactions are atomic, as
-- the RLock and the database's transaction make them, so that an interleaving of the HTTP handlers
-- and the dispatcher is a list of calls. Where the code catches `BrokerError` around reads, the
-- readings of the caught body are answered again.
--
-- Broker/Spec.antt has the specification: the writes that a transaction may be made of, each with
-- its condition. Broker/Refines relates the code to it; Broker/Lifecycle, Broker/EventLog,
-- Broker/Dispatches, Broker/Cancellations, Broker/Pending, Broker/Quota and Broker/Receipts are
-- about invariants of the writes. Client/Onward relates the client's ledger before and after each
-- call, and Client/Enqueued follows what is handed to the host's queue; Bridge/Once does so for the
-- daemon's requests. Histories.antt has the argument that the broker and the client share, on what
-- is handed out over a history.
--
-- Representation: a UUID and a digest are numbers, a timestamp a number of seconds, a device
-- identity a text. Fernet, SHA-256 and the JSON encoder are not code of the repository: they are
-- the fields of `Setup` and `ClientSetup`, with the one law that decryption undoes encryption under
-- the configured key. The JSON values of results and errors are opaque to the client, with their
-- equality. Lists of rows are finite and every recursion is structural; only the printing of a
-- number (Texts.antt) has fuel, as many digits as the number, and one, and the loops of `step`.
--
-- Not modelled: failures of the database connection and `close`, the directory, the lock file and
-- the pragmas of the client's database, the foreign keys, the row locks (which read nothing), and
-- the order in which `purge` visits the devices (their parts are independent; here it is the order
-- of the table). Not modelled either are the cancellation of `step` at one of its own calls, the
-- lifespan of the application, the route to the peer's policy, calls of others between two lines of
-- one batch of the event stream, the status 410 of the stream, the bodies of the requests to the
-- peer, its attachments, the timeouts of its stream and the reading of its capabilities
-- (broker_peer.py, a2a.py), the start of the client's daemon, its socket, health and upload
-- (client.py, client_mcp.py), the check of the installed Codex and the metadata of native calls
-- (native_delivery.py), what ssh reads from its arguments, the tracking of the children of ssh, the signals to them and
-- the reader's end in `_cleanup`, a cancellation during a cleanup,
-- the reading of settings from the environment, and the scripts.
pub mod Base
pub mod Texts
pub mod Histories
pub mod Tx
pub mod Diagnostics
pub mod Broker
pub mod Client
pub mod Api
pub mod Dispatcher
pub mod Tunnel
pub mod Stream
pub mod Bridge
pub mod Peer
pub mod Native
pub mod Settings

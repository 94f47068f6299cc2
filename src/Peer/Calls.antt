-- ===== src/Peer/Calls.antt =====
-- `discover`, `_post_rpc`, `get_task`, `cancel_task` and the start of `_sse` of hermes_a2a_gateway/a2a.py. The bodies
-- of requests are left out; what comes after the status of a stream is in Peer/Envelopes.antt.
use codex_a2a_gateway.Base.{
  Bool, true, false, not, ◌&&◌, ◌||◌, Option, none, some, List, [], ◌∷◌, ◌++◌, leb, is_some,
  if◌then◌else◌,
}
use codex_a2a_gateway.Broker.Content.{codes}
use codex_a2a_gateway.Texts.{Text, same_text}
use codex_a2a_gateway.Peer.Json.{Json, Items, Members, get, get_truthy, str}
use codex_a2a_gateway.Peer.Urls.{
  UrlParsers, is_loopback_url, hostname_of, strip, strip_slashes, with_slash,
}
use codex_a2a_gateway.Peer.Requests.{
  Reply, PeerCode, PeerResult, peer_error, Request, PeerClient, Peer, is_success, http_error,
  is_not_found, Attempt, read_payload, attempts, get_json,
}

module _ (U : UrlParsers) (show : Json → Text) (endpoint : Text) where
  -- The first interface that is an object of binding JSONRPC with a URL.
  unfoldable pub select_interface : Items → Option Members
  unfolding get get_truthy
  select_interface Items.last = none
  select_interface (Items.item (Json.object m) rest) =
      let later = select_interface rest in
      elim (get "protocolBinding" m) [
        | some (Json.text t) ↦
            if same_text t (codes "JSONRPC") && is_some (get_truthy "url" m) then some m else later
        | some j ↦ later
        | none ↦ later
      ]
  select_interface (Items.item j rest) = select_interface rest

  -- card.get("supportedInterfaces") or []; none is what the loop cannot go over.
  abbrev pub interfaces_of : Members → Option Items
  interfaces_of card = elim (get_truthy "supportedInterfaces" card) [
    | none ↦ some Items.last
    | some (Json.list items) ↦ some items
    | some (Json.object m) ↦ some Items.last
    | some (Json.text t) ↦ some Items.last
    | some j ↦ none
  ]

  -- str((selected or {}).get("url") or card.get("url") or endpoint).strip(); a selected interface has a URL.
  unfoldable pub candidate_url : Option Members → Members → Text
  unfolding get_truthy str strip
  candidate_url selected card = elim selected [
    | some m ↦ elim (get_truthy "url" m) [ some j ↦ strip (str show j) | none ↦ strip endpoint ]
    | none ↦ elim (get_truthy "url" card) [ some j ↦ strip (str show j) | none ↦ strip endpoint ]
  ]

  -- str((selected or {}).get("tenant") or "").
  unfoldable pub tenant_of : Option Members → Text
  unfolding get_truthy str
  tenant_of none = []
  tenant_of (some m) = elim (get_truthy "tenant" m) [ none ↦ [] | some j ↦ str show j ]

  abbrev pub is_expected_host : Text → Bool
  is_expected_host host =
      same_text host (hostname_of U endpoint)
      || same_text host (codes "localhost")
      || same_text host (codes "127.0.0.1")
      || same_text host (codes "::1")

  abbrev pub take_checked :
      Bool → Text → Option Members → Members → PeerClient → PeerResult Members × PeerClient
  take_checked false candidate selected card s =
      (PeerResult.bad (peer_error PeerCode.unsafe_agent_card false), s)
  take_checked true candidate selected card s = (
    PeerResult.good card,
    record s {
      card = some card;
      rpc_url = with_slash (strip_slashes candidate);
      tenant = tenant_of selected;
    },
  )

  -- The card is taken where its URL is a loopback URL, and its host an expected one.
  unfoldable pub take_candidate :
      Text → Option Members → Members → PeerClient → PeerResult Members × PeerClient
  unfolding tenant_of is_loopback_url hostname_of same_text strip_slashes
  take_candidate candidate selected card s =
      take_checked (is_loopback_url U candidate && is_expected_host (hostname_of U candidate))
        candidate selected card s

  unfoldable pub take_interfaces :
      Option Items → Members → PeerClient → PeerResult Members × PeerClient
  unfolding select_interface candidate_url take_candidate
  take_interfaces none card s = (PeerResult.crashed, s)
  take_interfaces (some items) card s =
      let selected = select_interface items in
      take_candidate (candidate_url selected card) selected card s

  unfoldable pub take_card : Members → PeerClient → PeerResult Members × PeerClient
  unfolding take_interfaces
  take_card card s = take_interfaces (interfaces_of card) card s

  abbrev pub take_found : PeerResult Members × PeerClient → PeerResult Members × PeerClient
  take_found (PeerResult.good card, s) = take_card card s
  take_found (PeerResult.bad e, s) = (PeerResult.bad e, s)
  take_found (PeerResult.crashed, s) = (PeerResult.crashed, s)

  -- The legacy card is asked for where the card is not found.
  abbrev pub look_again : Peer → PeerResult Members × PeerClient → PeerResult Members × PeerClient
  look_again peer (PeerResult.bad e, s) =
      let legacy = get_json peer (endpoint ++ codes "/.well-known/agent.json") s in
      if is_not_found e.code then legacy else (PeerResult.bad e, s)
  look_again peer (PeerResult.good card, s) = (PeerResult.good card, s)
  look_again peer (PeerResult.crashed, s) = (PeerResult.crashed, s)

  -- `_card`, or what is fetched.
  abbrev pub known_or :
      Option Members
      → PeerClient
      → PeerResult Members × PeerClient
      → PeerResult Members × PeerClient
  known_or (some card) s fetched = (PeerResult.good card, s)
  known_or none s fetched = fetched

  unfoldable pub discover : Peer → PeerClient → PeerResult Members × PeerClient
  unfolding take_card get_json
  discover peer s =
      let got = get_json peer (endpoint ++ codes "/.well-known/agent-card.json") s in
      known_or s.card s (take_found (look_again peer got))

  module _ {A : Type 0} where
    -- What follows `await self.discover()`.
    abbrev pub once_discovered :
        (PeerClient → PeerResult A × PeerClient)
        → PeerResult Members × PeerClient
        → PeerResult A × PeerClient
    once_discovered f (PeerResult.good card, s) = f s
    once_discovered f (PeerResult.bad e, s) = (PeerResult.bad e, s)
    once_discovered f (PeerResult.crashed, s) = (PeerResult.crashed, s)

  unfoldable pub post_rpc : Bool → Peer → PeerClient → PeerResult (Option Json) × PeerClient
  unfolding discover attempts read_payload
  post_rpc read_only peer s =
      once_discovered
        (λ u.
          attempts (read_payload read_only) (Request.posted u.rpc_url) peer
            (if read_only then 3 else 1) u)
        (discover peer s)

  -- `get_task` and `cancel_task`, before the task is parsed.
  unfoldable pub get_task : Peer → PeerClient → PeerResult (Option Json) × PeerClient
  unfolding post_rpc
  get_task peer s = post_rpc true peer s

  unfoldable pub cancel_task : Peer → PeerClient → PeerResult (Option Json) × PeerClient
  unfolding post_rpc
  cancel_task peer s = post_rpc false peer s

-- The methods of the peer that the broker calls.
pub data Rpc : Type 0 where
  get_task_rpc cancel_task_rpc stream_rpc : Rpc

-- How the stream of SendStreamingMessage begins.
unfoldable pub read_stream_status : Bool → Reply → Attempt (Option Json)
unfolding http_error
read_stream_status final Reply.unreachable =
    Attempt.fails (peer_error PeerCode.a2a_transport_ambiguous false)
read_stream_status final (Reply.replied status body) =
    if not (is_success status)
    then (if leb 500 status
        then Attempt.fails (peer_error PeerCode.a2a_transport_ambiguous false)
        else Attempt.fails (http_error status))
    else Attempt.done body

module _ (U : UrlParsers) (show : Json → Text) (endpoint : Text) where
  -- `_sse`, up to its first event.
  unfoldable pub open_stream : Peer → PeerClient → PeerResult (Option Json) × PeerClient
  unfolding discover attempts read_stream_status
  open_stream peer s =
      once_discovered U show endpoint
        (λ u. attempts read_stream_status (Request.posted u.rpc_url) peer 1 u)
        (discover U show endpoint peer s)

  unfoldable pub run_rpc : Rpc → Peer → PeerClient → PeerResult (Option Json) × PeerClient
  unfolding get_task cancel_task open_stream
  run_rpc Rpc.get_task_rpc peer s = get_task U show endpoint peer s
  run_rpc Rpc.cancel_task_rpc peer s = cancel_task U show endpoint peer s
  run_rpc Rpc.stream_rpc peer s = open_stream peer s

  unfoldable pub run_rpcs : Peer → List Rpc → PeerClient → PeerClient
  unfolding run_rpc
  run_rpcs peer [] s = s
  run_rpcs peer (r ∷ rpcs) s = run_rpcs peer rpcs (run_rpc r peer s).1

-- A client at its start.
abbrev pub new_peer : Text → PeerClient
new_peer endpoint = record {
  card = none;
  rpc_url = with_slash endpoint;
  tenant = [];
  requests = [];
}

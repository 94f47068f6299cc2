-- ===== src/Peer/Guarded.antt =====
-- The client of the peer posts to loopback URLs alone.
use codex_a2a_gateway.Base.{
  ℕ, ◌≡◌, refl, subst, Bool, true, false, ◌&&◌, ◌⊎◌, Option, none, some, List, [], ◌∷◌, In, inl,
  inr, arith,
}
use codex_a2a_gateway.Texts.{Text}
use codex_a2a_gateway.Peer.Json.{Json, Items, Members}
use codex_a2a_gateway.Peer.Urls.{
  UrlParsers, is_loopback_url, hostname_of, with_slash, strip_slashes, validate_endpoint,
}
use codex_a2a_gateway.Peer.Requests.{
  Reply, Request, PeerClient, Peer, after, Attempt, read_payload, attempts,
}
use codex_a2a_gateway.Peer.Calls.{
  interfaces_of, is_expected_host, take_checked, take_candidate, take_interfaces, take_card,
  discover, once_discovered, post_rpc, get_task, cancel_task, read_stream_status, open_stream, Rpc,
  run_rpc, run_rpcs, new_peer,
}
use codex_a2a_gateway.Peer.Once.{
  attempts-Keeps, KeptByDiscovery, discover-Keeps, once_discovered-gives,
}

module _ (U : UrlParsers) where
  -- A URL that `is_loopback_url` takes, with its slash.
  abbrev pub IsLoopback : Text → Type 0
  IsLoopback url =
      (value : Text) × (is_loopback_url U value ≡ true)
      × ((url ≡ with_slash value) ⊎ (url ≡ with_slash (strip_slashes value)))

  -- The URL of the client, and those that it posted to.
  record IsGuarded (s : PeerClient) : Type 0 where
    rpc_url : IsLoopback s.rpc_url
    posted : (url : Text) → In (Request.posted url) s.requests → IsLoopback url

module _ (U : UrlParsers) (show : Json → Text) (endpoint : Text) where
  got-IsGuarded :
      (url : Text) (s : PeerClient) → IsGuarded U s → IsGuarded U (after (Request.got url) s)
  got-IsGuarded url s g = record {
    rpc_url = g.rpc_url;
    posted = λ u m. elim m [ inl e ↦ absurd cc | inr m' ↦ g.posted u m' ];
  }

  posted-IsGuarded :
      (url : Text) (s : PeerClient)
      → IsLoopback U url
      → IsGuarded U s
      → IsGuarded U (after (Request.posted url) s)
  posted-IsGuarded url s loopback g = record {
    rpc_url = g.rpc_url;
    posted = λ u m. elim m [
      | inl e ↦ (let same_url : url ≡ u = cc in subst (IsLoopback U) same_url loopback)
      | inr m' ↦ g.posted u m'
    ];
  }

  take_checked-IsGuarded :
      (b : Bool) (candidate : Text) (selected : Option Members) (card : Members) (s : PeerClient)
      → (b ≡ true → is_loopback_url U candidate ≡ true)
      → IsGuarded U s
      → IsGuarded U (take_checked U show endpoint b candidate selected card s).1
  take_checked-IsGuarded false candidate selected card s local g = g
  take_checked-IsGuarded true candidate selected card s local g = record {
    rpc_url = (candidate, local refl, inr refl);
    posted = g.posted;
  }

  take_candidate-IsGuarded :
      (candidate : Text) (selected : Option Members) (card : Members) (s : PeerClient)
      → IsGuarded U s
      → IsGuarded U (take_candidate U show endpoint candidate selected card s).1
  unfolding take_candidate
  take_candidate-IsGuarded candidate selected card s g =
      take_checked-IsGuarded
        (is_loopback_url U candidate && is_expected_host U show endpoint (hostname_of U candidate))
        candidate selected card s (λ taken. ground arith) g

  take_interfaces-IsGuarded :
      (items : Option Items) (card : Members) (s : PeerClient)
      → IsGuarded U s
      → IsGuarded U (take_interfaces U show endpoint items card s).1
  unfolding take_interfaces
  take_interfaces-IsGuarded none card s g = g
  take_interfaces-IsGuarded (some items) card s g = take_candidate-IsGuarded _ _ card s g

  IsGuarded-KeptByDiscovery : (peer : Peer) → KeptByDiscovery U show endpoint peer (IsGuarded U)
  unfolding take_card
  IsGuarded-KeptByDiscovery peer = record {
    by_get = λ url s g. got-IsGuarded url s g;
    by_card = λ card s g. take_interfaces-IsGuarded (interfaces_of U show endpoint card) card s g;
  }

  posting-IsGuarded :
      {A : Type 0} (peer : Peer) (reads : Bool → Reply → Attempt A) (most : ℕ) (s : PeerClient)
      → IsGuarded U s
      → IsGuarded U
          (once_discovered U show endpoint
            (λ u. attempts reads (Request.posted u.rpc_url) peer most u)
            (discover U show endpoint peer s)).1
  posting-IsGuarded peer reads most s g =
      let found = discover U show endpoint peer s in
      once_discovered-gives U show endpoint peer (IsGuarded U) (IsGuarded U) _ found.0 found.1
        (discover-Keeps U show endpoint peer (IsGuarded U) s (IsGuarded-KeptByDiscovery peer) g)
        λ u h. (
          h,
          attempts-Keeps reads peer (IsGuarded U) (Request.posted u.rpc_url)
              (λ v. posted-IsGuarded u.rpc_url v h.rpc_url) most u h,
        )

  run_rpc-IsGuarded :
      (peer : Peer) (r : Rpc) (s : PeerClient)
      → IsGuarded U s
      → IsGuarded U (run_rpc U show endpoint r peer s).1
  unfolding run_rpc get_task cancel_task post_rpc open_stream
  run_rpc-IsGuarded peer Rpc.get_task_rpc s g = posting-IsGuarded peer (read_payload true) 3 s g
  run_rpc-IsGuarded peer Rpc.cancel_task_rpc s g = posting-IsGuarded peer (read_payload false) 1 s g
  run_rpc-IsGuarded peer Rpc.stream_rpc s g = posting-IsGuarded peer read_stream_status 1 s g

  run_rpcs-IsGuarded :
      (peer : Peer) (rpcs : List Rpc) (s : PeerClient)
      → IsGuarded U s
      → IsGuarded U (run_rpcs U show endpoint peer rpcs s)
  unfolding run_rpcs
  run_rpcs-IsGuarded peer [] s g = g
  run_rpcs-IsGuarded peer (r ∷ rpcs) s g =
      run_rpcs-IsGuarded peer rpcs _ (run_rpc-IsGuarded peer r s g)

  new_peer-IsGuarded :
      (value : Text) → validate_endpoint U value ≡ some endpoint → IsGuarded U (new_peer endpoint)
  unfolding validate_endpoint
  new_peer-IsGuarded value e = record {
    rpc_url = (endpoint, ground arith, inl refl);
    posted = λ u m. elim m [ ];
  }

-- Over any calls of the peer, and whatever its cards and answers say: with an endpoint that the settings
-- accept, each POST goes to a URL that `is_loopback_url` accepts, with a slash added at its end, or put
-- there for the slashes at its end.
pub run_rpcs-IsLoopback :
    (U : UrlParsers) (show : Json → Text) (value endpoint : Text)
    → validate_endpoint U value ≡ some endpoint
    → (peer : Peer) (rpcs : List Rpc) (url : Text)
    → In (Request.posted url) (run_rpcs U show endpoint peer rpcs (new_peer endpoint)).requests
    → IsLoopback U url
run_rpcs-IsLoopback U show value endpoint accepted peer rpcs url sent =
    (run_rpcs-IsGuarded U show endpoint peer rpcs (new_peer endpoint)
        (new_peer-IsGuarded U show endpoint value accepted)).posted
      url sent

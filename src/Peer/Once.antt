-- ===== src/Peer/Once.antt =====
-- How often the client of the peer posts.
use codex_a2a_gateway.Base.{
  ℕ, zero, suc, ◌+◌, ◌≤◌, ◌≡◌, refl, Bool, true, false, Option, none, some, List, [], ◌∷◌, ◌++◌,
  arith, ◌&&◌, if◌then◌else◌,
}
use codex_a2a_gateway.Broker.Content.{codes}
use codex_a2a_gateway.Texts.{Text}
use codex_a2a_gateway.Peer.Json.{Json, Items, Members}
use codex_a2a_gateway.Peer.Urls.{UrlParsers, is_loopback_url, hostname_of}
use codex_a2a_gateway.Peer.Requests.{
  Reply, PeerResult, good, bad, crashed, Request, PeerClient, Peer, after, is_not_found, Attempt,
  done, fails, again, read_card, read_payload, end_attempt, attempts, get_json,
}
use codex_a2a_gateway.Peer.Calls.{
  interfaces_of, is_expected_host, take_checked, take_candidate, take_interfaces, take_card,
  take_found, look_again, known_or, discover, once_discovered, post_rpc, get_task, cancel_task,
  read_stream_status, open_stream, Rpc, run_rpc,
}

-- The number of POSTs.
abbrev pub posts : List Request → ℕ
posts [] = 0
posts (Request.posted url ∷ log) = suc (posts log)
posts (Request.got url ∷ log) = posts log

-- The POSTs that a call of a method makes at most.
abbrev pub most_posts : Rpc → ℕ
most_posts Rpc.get_task_rpc = 3
most_posts Rpc.cancel_task_rpc = 1
most_posts Rpc.stream_rpc = 1

module _ {A : Type 0} where
  end_attempt-Keeps :
      (Q : PeerClient → Type 0) (a : Attempt A) (s : PeerClient) (later : PeerResult A × PeerClient)
      → Q s
      → Q later.1
      → Q (end_attempt a s later).1
  end_attempt-Keeps Q (done v) s later q q' = q
  end_attempt-Keeps Q (fails e) s later q q' = q
  end_attempt-Keeps Q again s later q q' = q'

module _ {A : Type 0} (reads : Bool → Reply → Attempt A) (peer : Peer) where
  -- What a request keeps, the attempts keep.
  pub attempts-Keeps :
      (Q : PeerClient → Type 0) (r : Request)
      → ((s : PeerClient) → Q s → Q (after r s))
      → (left : ℕ) (s : PeerClient) → Q s
      → Q (attempts reads r peer left s).1
  unfolding attempts
  attempts-Keeps Q r keeps zero s q = q
  attempts-Keeps Q r keeps (suc left) s q =
      end_attempt-Keeps Q _ (after r s) _ (keeps s q)
        (attempts-Keeps Q r keeps left (after r s) (keeps s q))

  attempts-posts :
      (url : Text) (left : ℕ) (s : PeerClient)
      → posts (attempts reads (Request.posted url) peer left s).1.requests ≤ left + posts s.requests
  unfolding attempts
  attempts-posts url zero s = omega arith
  attempts-posts url (suc left) s =
      end_attempt-Keeps (λ u. posts u.requests ≤ suc left + posts s.requests) _
        (after (Request.posted url) s)
        (attempts reads (Request.posted url) peer left (after (Request.posted url) s)) (omega arith)
        (omega (arith, attempts-posts url left (after (Request.posted url) s)))

module _ {R : Type 0} where
  if-Keeps :
      (Q : PeerClient → Type 0) (b : Bool) (x y : R × PeerClient)
      → Q x.1
      → Q y.1
      → Q (if b then x else y).1
  if-Keeps Q true x y q q' = q
  if-Keeps Q false x y q q' = q'

module _ (U : UrlParsers) (show : Json → Text) (endpoint : Text) (peer : Peer) where
  -- A property that GETs keep, and the taking of a card.
  pub record KeptByDiscovery (Q : PeerClient → Type 0) : Type 0 where
    pub by_get : (url : Text) (s : PeerClient) → Q s → Q (after (Request.got url) s)
    pub by_card : (card : Members) (s : PeerClient) → Q s → Q (take_card U show endpoint card s).1

  take_found-Keeps :
      (Q : PeerClient → Type 0) (r : PeerResult Members) (s : PeerClient)
      → KeptByDiscovery Q
      → Q s
      → Q (take_found U show endpoint (r, s)).1
  take_found-Keeps Q (good card) s k q = k.by_card card s q
  take_found-Keeps Q (bad e) s k q = q
  take_found-Keeps Q crashed s k q = q

  get_json-Keeps :
      (Q : PeerClient → Type 0) (url : Text) (s : PeerClient)
      → KeptByDiscovery Q
      → Q s
      → Q (get_json peer url s).1
  unfolding get_json
  get_json-Keeps Q url s k q =
      attempts-Keeps read_card peer Q (Request.got url) (λ u. k.by_get url u) 3 s q

  look_again-Keeps :
      (Q : PeerClient → Type 0) (r : PeerResult Members) (s : PeerClient)
      → KeptByDiscovery Q
      → Q s
      → Q (look_again U show endpoint peer (r, s)).1
  look_again-Keeps Q (good card) s k q = q
  look_again-Keeps Q crashed s k q = q
  look_again-Keeps Q (bad e) s k q =
      if-Keeps Q (is_not_found e.code) _ _ (get_json-Keeps Q _ s k q) q

  known_or-Keeps :
      (Q : PeerClient → Type 0) (card : Option Members) (s : PeerClient)
      (fetched : PeerResult Members × PeerClient)
      → Q s
      → Q fetched.1
      → Q (known_or U show endpoint card s fetched).1
  known_or-Keeps Q (some c) s fetched q q' = q
  known_or-Keeps Q none s fetched q q' = q'

  pub discover-Keeps :
      (Q : PeerClient → Type 0) (s : PeerClient)
      → KeptByDiscovery Q
      → Q s
      → Q (discover U show endpoint peer s).1
  unfolding discover
  discover-Keeps Q s k q =
      let got = get_json peer (endpoint ++ codes "/.well-known/agent-card.json") s in
      let looked = look_again U show endpoint peer got in
      known_or-Keeps Q s.card s (take_found U show endpoint looked) q (
        take_found-Keeps Q looked.0 looked.1 k
          (look_again-Keeps Q got.0 got.1 k (get_json-Keeps Q _ s k q)))

  -- A call after the discovery: what the discovery keeps, and what the call makes of it.
  pub once_discovered-gives :
      {A : Type 0} (Q Q' : PeerClient → Type 0) (f : PeerClient → PeerResult A × PeerClient)
      (r : PeerResult Members) (s : PeerClient)
      → Q s
      → ((u : PeerClient) → Q u → Q' u × Q' (f u).1)
      → Q' (once_discovered U show endpoint f (r, s)).1
  once_discovered-gives Q Q' f (good card) s q h = (h s q).1
  once_discovered-gives Q Q' f (bad e) s q h = (h s q).0
  once_discovered-gives Q Q' f crashed s q h = (h s q).0

  take_checked-posts :
      (n : ℕ) (b : Bool) (candidate : Text) (selected : Option Members) (card : Members)
      (s : PeerClient)
      → posts s.requests ≡ n
      → posts (take_checked U show endpoint b candidate selected card s).1.requests ≡ n
  take_checked-posts n true candidate selected card s e = e
  take_checked-posts n false candidate selected card s e = e

  take_candidate-posts :
      (n : ℕ) (candidate : Text) (selected : Option Members) (card : Members) (s : PeerClient)
      → posts s.requests ≡ n
      → posts (take_candidate U show endpoint candidate selected card s).1.requests ≡ n
  unfolding take_candidate
  take_candidate-posts n candidate selected card s e =
      take_checked-posts n
        (is_loopback_url U candidate && is_expected_host U show endpoint (hostname_of U candidate))
        candidate selected card s e

  take_interfaces-posts :
      (n : ℕ) (items : Option Items) (card : Members) (s : PeerClient)
      → posts s.requests ≡ n
      → posts (take_interfaces U show endpoint items card s).1.requests ≡ n
  unfolding take_interfaces
  take_interfaces-posts n none card s e = e
  take_interfaces-posts n (some items) card s e = take_candidate-posts n _ _ card s e

  take_card-posts :
      (n : ℕ) (card : Members) (s : PeerClient)
      → posts s.requests ≡ n
      → posts (take_card U show endpoint card s).1.requests ≡ n
  unfolding take_card
  take_card-posts n card s e = take_interfaces-posts n (interfaces_of U show endpoint card) card s e

  posts-KeptByDiscovery : (n : ℕ) → KeptByDiscovery (λ s. posts s.requests ≡ n)
  posts-KeptByDiscovery n = record {
    by_get = λ url s e. e;
    by_card = λ card s e. take_card-posts n card s e;
  }

  posting :
      {A : Type 0} (reads : Bool → Reply → Attempt A) (most : ℕ) (s : PeerClient)
      → posts
          (once_discovered U show endpoint
            (λ u. attempts reads (Request.posted u.rpc_url) peer most u)
            (discover U show endpoint peer s)).1.requests
        ≤ most + posts s.requests
  posting reads most s =
      let found = discover U show endpoint peer s in
      once_discovered-gives (λ u. posts u.requests ≡ posts s.requests)
        (λ u. posts u.requests ≤ most + posts s.requests) _ found.0 found.1
        (discover-Keeps _ s (posts-KeptByDiscovery (posts s.requests)) refl)
        λ u e. (omega arith, omega (arith, attempts-posts reads peer u.rpc_url most u))

-- However the peer answers, and whether its card is known or asked for first: a cancellation and a
-- message are posted at most once, and a read of a task at most three times.
pub run_rpc-posts :
    (U : UrlParsers) (show : Json → Text) (endpoint : Text) (peer : Peer) (r : Rpc) (s : PeerClient)
    → posts (run_rpc U show endpoint r peer s).1.requests ≤ most_posts r + posts s.requests
unfolding run_rpc get_task cancel_task post_rpc open_stream
run_rpc-posts U show endpoint peer Rpc.get_task_rpc s =
    posting U show endpoint peer (read_payload true) 3 s
run_rpc-posts U show endpoint peer Rpc.cancel_task_rpc s =
    posting U show endpoint peer (read_payload false) 1 s
run_rpc-posts U show endpoint peer Rpc.stream_rpc s =
    posting U show endpoint peer read_stream_status 1 s

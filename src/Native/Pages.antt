-- ===== src/Native/Pages.antt =====
-- Looking for a delivery in the host's queue adds nothing to it, and ends.
use codex_a2a_gateway.Base.{
  ℕ, zero, suc, ◌≡◌, refl, sym, subst, ap, ◌∙◌, inl, inr, Bool-cases, Option, none, some, List, [],
  ◌∷◌, ◌++◌, arith,
}
use codex_a2a_gateway.Texts.{Text}
use codex_a2a_gateway.Peer.Json.{Json, Items, Members, get, get_truthy}
use codex_a2a_gateway.Native.Session.{Session, Written}
use codex_a2a_gateway.Native.Queue.{
  RpcEnd, answered, unsupported, outcome_unknown, crashed, canceled, Method, list_params, rpc,
  read_page, page_items, after_page, read_pages, reconcile, matching, sole,
}
use codex_a2a_gateway.Native.Adds.{adds, is_add, rpc-silent}

adds-append : (more log : Written) → adds more ≡ 0 → adds log ≡ 0 → adds (more ++ log) ≡ 0
adds-append [] log e e' = e'
adds-append (message ∷ more) log e e' = elim (Bool-cases (is_add message)) [
  | inl added ↦ ground (arith, adds-append more log)
  | inr silent ↦ ground (arith, adds-append more log)
]

module _ (client : Json) (sessions : ℕ → Session) (thread delivery t : Text) where
  -- The identities of the delivery's items in the queue, over the pages from the k-th one on, up to the
  -- last.
  pub data Found : ℕ → Json → List Text → Type 0 where
    last_page :
        (k : ℕ) (cursor : Json) (m : Members) (items : Items)
        → (rpc client (sessions k) Method.queue_list (list_params thread cursor)).0 ≡ answered m
        → page_items client sessions thread delivery t (get "data" m) ≡ some items
        → get_truthy "nextCursor" m ≡ none
        → Found k cursor (matching delivery t items)
    page :
        (k : ℕ) (cursor : Json) (m : Members) (items : Items) (next : Json) (ids : List Text)
        → (rpc client (sessions k) Method.queue_list (list_params thread cursor)).0 ≡ answered m
        → page_items client sessions thread delivery t (get "data" m) ≡ some items
        → get_truthy "nextCursor" m ≡ some next
        → Found (suc k) next ids
        → Found k cursor (matching delivery t items ++ ids)

  sole-some : (ids : List Text) (id : Text) → sole ids ≡ some id → ids ≡ id ∷ []
  sole-some [] id e = cc
  sole-some (a ∷ []) id e = cc
  sole-some (a ∷ b ∷ ids) id e = cc

  append_assoc : (a b c : List Text) → (a ++ b) ++ c ≡ a ++ (b ++ c)
  append_assoc [] b c = refl
  append_assoc (x ∷ a) b c = ap (λ rest. x ∷ rest) (append_assoc a b c)

  -- What a search that answers with an identity has read.
  abbrev Finds : ℕ → Json → List Text → Text → Type 0
  Finds k cursor matches id = (ids : List Text) × Found k cursor ids × (matches ++ ids ≡ id ∷ [])

  read_page-Finds :
      (k : ℕ) (cursor : Json) (m : Members) (matches : List Text) (id : Text)
      (later : Json → List Text → RpcEnd (Option Text) × Written) (items : Option Items)
      (next : Option Json)
      → (rpc client (sessions k) Method.queue_list (list_params thread cursor)).0 ≡ answered m
      → page_items client sessions thread delivery t (get "data" m) ≡ items
      → get_truthy "nextCursor" m ≡ next
      → ((next' : Json) (matches' : List Text)
          → (later next' matches').0 ≡ answered (some id)
          → Finds (suc k) next' matches' id)
      → (read_page client sessions thread delivery t items next matches later).0
        ≡ answered (some id)
      → Finds k cursor matches id
  read_page-Finds k cursor m matches id later none next called e e' rest h = cc
  read_page-Finds k cursor m matches id later (some items) none called e e' rest h = (
    matching delivery t items,
    last_page k cursor m items called e e',
    sole-some (matches ++ matching delivery t items) id (cc),
  )
  read_page-Finds k cursor m matches id later (some items) (some next) called e e' rest h =
      let (ids, found, whole) = rest next (matches ++ matching delivery t items) h in
      (
        matching delivery t items ++ ids,
        page k cursor m items next ids called e e' found,
        sym (append_assoc matches (matching delivery t items) ids) ∙ whole,
      )

  after_page-Finds :
      (k : ℕ) (cursor : Json) (matches : List Text) (id : Text)
      (later : Json → List Text → RpcEnd (Option Text) × Written) (called : RpcEnd Members)
      (log : Written)
      → (rpc client (sessions k) Method.queue_list (list_params thread cursor)).0 ≡ called
      → ((next' : Json) (matches' : List Text)
          → (later next' matches').0 ≡ answered (some id)
          → Finds (suc k) next' matches' id)
      → (after_page client sessions thread delivery t (called, log) matches later).0
        ≡ answered (some id)
      → Finds k cursor matches id
  after_page-Finds k cursor matches id later (answered m) log e rest h =
      read_page-Finds k cursor m matches id later
        (page_items client sessions thread delivery t (get "data" m)) (get_truthy "nextCursor" m) e
        refl refl rest h
  after_page-Finds k cursor matches id later unsupported log e rest h = cc
  after_page-Finds k cursor matches id later outcome_unknown log e rest h = cc
  after_page-Finds k cursor matches id later crashed log e rest h = cc
  after_page-Finds k cursor matches id later canceled log e rest h = cc

  read_pages-Finds :
      (left k : ℕ) (cursor : Json) (matches : List Text) (id : Text)
      → (read_pages client sessions thread delivery t left k cursor matches).0 ≡ answered (some id)
      → Finds k cursor matches id
  unfolding read_pages
  read_pages-Finds zero k cursor matches id h = cc
  read_pages-Finds (suc left) k cursor matches id h =
      let called = rpc client (sessions k) Method.queue_list (list_params thread cursor) in
      after_page-Finds k cursor matches id _ called.0 called.1 refl
        (λ next' matches'. read_pages-Finds left (suc k) next' matches' id) h

  read_page-adds :
      (items : Option Items) (next : Option Json) (matches : List Text)
      (later : Json → List Text → RpcEnd (Option Text) × Written)
      → ((next' : Json) (matches' : List Text) → adds (later next' matches').1 ≡ 0)
      → adds (read_page client sessions thread delivery t items next matches later).1 ≡ 0
  read_page-adds none next matches later rest = refl
  read_page-adds (some items) none matches later rest = refl
  read_page-adds (some items) (some next) matches later rest = rest next _

  after_page-adds :
      (matches : List Text) (later : Json → List Text → RpcEnd (Option Text) × Written)
      (called : RpcEnd Members) (log : Written)
      → adds log ≡ 0
      → ((next : Json) (matches' : List Text) → adds (later next matches').1 ≡ 0)
      → adds (after_page client sessions thread delivery t (called, log) matches later).1 ≡ 0
  after_page-adds matches later (answered m) log e rest =
      adds-append _ log
        (read_page-adds (page_items client sessions thread delivery t (get "data" m))
          (get_truthy "nextCursor" m) matches later rest)
        e
  after_page-adds matches later unsupported log e rest = e
  after_page-adds matches later outcome_unknown log e rest = e
  after_page-adds matches later crashed log e rest = e
  after_page-adds matches later canceled log e rest = e

  read_pages-adds :
      (left k : ℕ) (cursor : Json) (matches : List Text)
      → adds (read_pages client sessions thread delivery t left k cursor matches).1 ≡ 0
  unfolding read_pages
  read_pages-adds zero k cursor matches = refl
  read_pages-adds (suc left) k cursor matches =
      let called = rpc client (sessions k) Method.queue_list (list_params thread cursor) in
      after_page-adds matches _ called.0 called.1
        (rpc-silent client (sessions k) (list_params thread cursor))
        (λ next matches'. read_pages-adds left (suc k) next matches')

-- Whatever the host's app-server prints, and whichever reads and writes fail: `reconcile` writes no message
-- that adds to the queue, and where it answers with an identity, that is the identity of the one item of
-- this delivery and text over all pages of the queue.
pub reconcile-Found :
    (client : Json) (sessions : ℕ → Session) (thread delivery t : Text)
    → (adds (reconcile client sessions thread delivery t).1 ≡ 0)
      × ((id : Text)
          → (reconcile client sessions thread delivery t).0 ≡ answered (some id)
          → Found client sessions thread delivery t 0 Json.null (id ∷ []))
unfolding reconcile
reconcile-Found client sessions thread delivery t = (
  read_pages-adds client sessions thread delivery t 100 0 Json.null [],
  λ id h.
      let (ids, found, whole) =
        read_pages-Finds client sessions thread delivery t 100 0 Json.null [] id h in
      subst (Found client sessions thread delivery t 0 Json.null) whole found,
)

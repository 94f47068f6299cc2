-- ===== src/Client/Onward.antt =====
-- How the client's ledger may change over a history (hermes_a2a_gateway/client_store.py): the outcome
-- of an operation, once known, and its delivery move in one direction, and so does the cursor.
pub mod Rows
pub mod Accepted
pub mod Commands
pub mod Deliveries
pub mod Histories
use codex_a2a_gateway.Base.{
  ℕ, ◌≤◌, String, ◌≡◌, refl, ap, ◌∙◌, Bool, true, Option, none, some, List, arith, is_some,
  select_one,
}
use codex_a2a_gateway.Broker.Model.{State, is_final, is_terminal}
use codex_a2a_gateway.Client.Model.{Delivery, Reported, ClientOperation, ClientLedger, has_id}

-- inline_pending, then ready, then enqueueing, then an end.
unfoldable pub delivery_rank : Delivery → ℕ
delivery_rank Delivery.inline_pending = 0
delivery_rank Delivery.ready = 1
delivery_rank Delivery.enqueueing = 2
delivery_rank Delivery.queued = 3
delivery_rank Delivery.unsupported = 3
delivery_rank Delivery.inline_returned = 3
delivery_rank Delivery.delivery_outcome_unknown = 3

-- The terminal snapshot `s` is kept in its result identity; only an unknown outcome changes, to a
-- final state.
pub record Kept {Value : Type 0} (s : Reported Value) (new : Option (Reported Value)) : Type 0 where
  pub snapshot : Reported Value
  pub found : new ≡ some snapshot
  pub result_id : snapshot.result_id ≡ s.result_id
  pub terminal : is_terminal snapshot.state ≡ true
  pub settled : is_final s.state ≡ true → snapshot.state ≡ s.state

-- `new` is a later version of the row `old`.
pub record ClientLater {Token Value : Type 0} (old new : ClientOperation Token Value) : Type 0 where
  pub flow_id : new.flow_id ≡ old.flow_id
  pub thread_id : new.thread_id ≡ old.thread_id
  pub call_id : new.call_id ≡ old.call_id
  pub digest : new.digest ≡ old.digest
  pub onward : delivery_rank old.delivery_state ≤ delivery_rank new.delivery_state
  pub asked : is_some old.cancel_state ≡ true → is_some new.cancel_state ≡ true
  pub outcome :
      (s : Reported Value)
      → old.snapshot ≡ some s
      → is_terminal s.state ≡ true
      → Kept s new.snapshot

module _ {Token Value : Type 0} where
  abbrev pub seek : ℕ → List (ClientOperation Token Value) → Option (ClientOperation Token Value)
  seek o rows = select_one (has_id o) rows

  -- Every operation of `rows` has a later version in `rows'`.
  abbrev pub Advances :
      List (ClientOperation Token Value) → List (ClientOperation Token Value) → Type 0
  Advances rows rows' =
      (o : ℕ) (old : ClientOperation Token Value)
      → seek o rows ≡ some old
      → (new : ClientOperation Token Value) × (seek o rows' ≡ some new) × ClientLater old new

  pub record Onward (l u : ClientLedger Token Value) : Type 0 where
    pub rows : Advances l.operations u.operations
    pub cursor : l.cursor ≤ u.cursor

  -- A change that leaves the snapshot and the identities alone.
  pub ClientLater-same :
      (old new : ClientOperation Token Value)
      → (is_some old.cancel_state ≡ true → is_some new.cancel_state ≡ true)
      → new.flow_id ≡ old.flow_id
      → new.thread_id ≡ old.thread_id
      → new.call_id ≡ old.call_id
      → new.digest ≡ old.digest
      → new.snapshot ≡ old.snapshot
      → delivery_rank old.delivery_state ≤ delivery_rank new.delivery_state
      → ClientLater old new
  ClientLater-same old new asked flow thread call digest same_snapshot onward = record {
    flow_id = flow;
    thread_id = thread;
    call_id = call;
    digest = digest;
    onward = onward;
    asked = asked;
    outcome = λ s e terminal. record {
      snapshot = s;
      found = same_snapshot ∙ e;
      result_id = refl;
      terminal = terminal;
      settled = λ _. refl;
    };
  }

  pub ClientLater-refl : (row : ClientOperation Token Value) → ClientLater row row
  ClientLater-refl row = ClientLater-same row row (λ h. h) refl refl refl refl refl (omega arith)

  pub ClientLater-trans :
      {a b c : ClientOperation Token Value} → ClientLater a b → ClientLater b c → ClientLater a c
  ClientLater-trans {a} {b} {c} p q = record {
    flow_id = q.flow_id ∙ p.flow_id;
    thread_id = q.thread_id ∙ p.thread_id;
    call_id = q.call_id ∙ p.call_id;
    digest = q.digest ∙ p.digest;
    onward = omega arith;
    asked = λ h. q.asked (p.asked h);
    outcome = λ s e terminal.
        let k = p.outcome s e terminal in
        let k' = q.outcome k.snapshot k.found k.terminal in
        record {
          snapshot = k'.snapshot;
          found = k'.found;
          result_id = k'.result_id ∙ k.result_id;
          terminal = k'.terminal;
          settled = λ final. k'.settled (ap is_final (k.settled final) ∙ final) ∙ k.settled final;
        };
  }

  pub Advances-refl : (rows : List (ClientOperation Token Value)) → Advances rows rows
  Advances-refl rows o old found = (old, found, ClientLater-refl old)

  pub Onward-refl : (l : ClientLedger Token Value) → Onward l l
  Onward-refl l = record { rows = Advances-refl l.operations; cursor = omega arith }

  pub Onward-trans : {l u v : ClientLedger Token Value} → Onward l u → Onward u v → Onward l v
  Onward-trans {l} {u} {v} p q = record {
    rows = λ o old found.
        let (mid, found', later) = p.rows o old found in
        let (new, found'', later') = q.rows o mid found' in
        (new, found'', ClientLater-trans later later');
    cursor = omega arith;
  }

-- ===== src/Broker/Replays.antt =====
-- Repeated submissions: `accept` of hermes_a2a_gateway/broker_store.py on a known operation ID.
use codex_a2a_gateway.Base.{
  ℕ, String, ◌≡◌, refl, sym, subst, Bool, false, Option, none, some, arith, ==_iff, select_one,
}
use codex_a2a_gateway.Tx.Errors.{Result, ok}
use codex_a2a_gateway.Tx.{Tape, Session}
use codex_a2a_gateway.Tx.Ensures.{
  Ensures, Ensures-pure, Ensures-weaken, transaction_relates, transaction_returns,
}
use codex_a2a_gateway.Tx.Reads.{bind_reads}
use codex_a2a_gateway.Tx.Rules.{bind_gets, bind_modify, bind_require}
use codex_a2a_gateway.Broker.Model.{Request, Snapshot, Operation, Ledger}
use codex_a2a_gateway.Broker.Setup.{Setup}
use codex_a2a_gateway.Broker.Rows.{of_operation}
use codex_a2a_gateway.Broker.Snapshots.{Store, add_device, lock_device}
use codex_a2a_gateway.Broker.Accept.{accept, accept_body, admit, replay}
use codex_a2a_gateway.Broker.Refines.Reading.{snapshot_of-Reads}

-- The tables that an admission would write are as before.
pub record SameTables {Token : Type 0} (l u : Ledger Token) : Type 0 where
  pub operations : u.operations ≡ l.operations
  pub payloads : u.payloads ≡ l.payloads
  pub outbox : u.outbox ≡ l.outbox
  pub events : u.events ≡ l.events

SameTables-add_device :
    {Token : Type 0} (d : String) (l : Ledger Token) → SameTables l (add_device d l)
unfolding add_device
SameTables-add_device d l = ground arith

-- A submission under the identity of `previous` left the tables as they were, and is answered, if at
-- all, for the same request, as not created.
pub record IsReplay {Token : Type 0} (previous : Operation Token) (digest : ℕ) (l : Ledger Token)
    (answer : Result (Snapshot × Bool)) (u : Ledger Token) : Type 0 where
  pub tables : SameTables l u
  pub answered :
      (s : Snapshot) (created : Bool)
      → answer ≡ ok (s, created)
      → (created ≡ false) × (previous.digest ≡ digest)

module _ (P : Setup) (d : String) (req : Request) {t : Tape} {l : Store P}
    (previous : Operation P.Token) where
  replay-Ensures :
      (s : Session (Store P))
      → SameTables l s.store
      → Ensures
          (replay P previous (P.request_digest req))
          t
          s
          (λ x u. SameTables l u × ((x.1 ≡ false) × (previous.digest ≡ P.request_digest req)))
  unfolding replay
  replay-Ensures s w = bind_require _ _ _ λ agrees.
      bind_reads _ _ (snapshot_of-Reads P previous) λ snapshot n k.
        Ensures-pure _ (w, (refl, ground (arith, ==_iff previous.digest (P.request_digest req))))

  known-Ensures :
      (s : Session (Store P)) (known : Option (Operation P.Token))
      → known ≡ some previous
      → SameTables l s.store
      → Ensures {A = Snapshot × Bool}
          (elim known [
            | some previous ↦ replay P previous (P.request_digest req)
            | none ↦ admit P d req (P.request_digest req)
          ])
          t
          s
          (λ x u. SameTables l u × ((x.1 ≡ false) × (previous.digest ≡ P.request_digest req)))
  known-Ensures s none e w = absurd (ground arith)
  known-Ensures s (some row) e w =
      subst
        (λ r.
          Ensures (replay P r (P.request_digest req)) t s
            (λ x u. SameTables l u × ((x.1 ≡ false) × (previous.digest ≡ P.request_digest req))))
        (sym same_row) (replay-Ensures s w)
    where
      same_row : row ≡ previous
      same_row = cc

  accept_body-Ensures :
      (n k : ℕ)
      → select_one (of_operation d req.operation_id) l.operations ≡ some previous
      → Ensures
          (accept_body P d req)
          t
          (record { store = l; reads = n; draws = k })
          (λ x u. SameTables l u × ((x.1 ≡ false) × (previous.digest ≡ P.request_digest req)))
  unfolding accept_body lock_device
  accept_body-Ensures n k found =
      let same_tables = SameTables-add_device d l in
      bind_modify _ _
        (bind_gets _ _ (known-Ensures _ _ (rw same_tables.operations found) same_tables))

-- A submission under a known operation ID never writes an operation, a payload, an outbox row or an
-- event; it is answered only where the request is the same, and then as not created.
pub accept-IsReplay :
    (P : Setup) (d : String) (req : Request) (t : Tape) (l : Store P) (previous : Operation P.Token)
    → select_one (of_operation d req.operation_id) l.operations ≡ some previous
    → IsReplay previous (P.request_digest req) l (accept P d req t l).0 (accept P d req t l).1
unfolding accept
accept-IsReplay P d req t l previous found = record {
  tables =
      transaction_relates SameTables _ t l
        (record { operations = refl; payloads = refl; outbox = refl; events = refl })
        (λ n k. Ensures-weaken _ _ (λ x u q. q.0) (accept_body-Ensures P d req previous n k found));
  answered = λ s created e.
      (transaction_returns
        (λ x u. SameTables l u × ((x.1 ≡ false) × (previous.digest ≡ P.request_digest req))) _ t l
        (s, created) (λ n k. accept_body-Ensures P d req previous n k found) e).1;
}

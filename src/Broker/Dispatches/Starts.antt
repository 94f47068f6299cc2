-- ===== src/Broker/Dispatches/Starts.antt =====
-- What a claim that returns an operation has done.
use codex_a2a_gateway.Base.{
  ℕ, ◌≤◌, String, ◌≡◌, refl, sym, ◌∙◌, ap, subst, true, Option, none, some, List, arith, eq_iff,
  leb, In-select_one, All-In, select_one-holds, select_one,
}
use codex_a2a_gateway.Tx.Errors.{Code, ok}
use codex_a2a_gateway.Tx.{Tape, Session, pure}
use codex_a2a_gateway.Tx.Ensures.{
  Ensures, Ensures-pure, Ensures-if, Ensures-bind, Ensures-trivial, Ensures-weaken,
  transaction_returns,
}
use codex_a2a_gateway.Tx.Reads.{Reads-attempt, bind_reads}
use codex_a2a_gateway.Tx.Rules.{bind_gets, bind_or_raise, bind_modify, bind_utcnow}
use codex_a2a_gateway.Broker.Model.{State, Request, Descriptor, Plain, Operation, Payload, Ledger}
use codex_a2a_gateway.Broker.Setup.{Setup}
use codex_a2a_gateway.Broker.Rows.{of_payload}
use codex_a2a_gateway.Broker.Snapshots.{Store, decrypt_value, record_event}
use codex_a2a_gateway.Broker.Dispatch.{
  Claim, is_accepted, start_row, claim_outbox, refuse, start, dispatch, claim_payload, claim_row,
  claim_body, claim, as_request,
}
use codex_a2a_gateway.Broker.Spec.{nothing}
use codex_a2a_gateway.Broker.Refines.Reading.{read_artifacts-Reads, bind_row, bind_dispatcher}
use codex_a2a_gateway.Broker.Refines.Ends.{record_event-Writes, bind_lock}
use codex_a2a_gateway.Broker.Refines.Claims.{is_accepted-eq}
use codex_a2a_gateway.Broker.Lifecycle.{rank, Follows}
use codex_a2a_gateway.Broker.Lifecycle.Keyed.{find, find-update, same_key}
use codex_a2a_gateway.Broker.Lifecycle.Steps.{Writes-Follows}
use codex_a2a_gateway.Broker.Dispatches.{Key, claim_key, Started}
use codex_a2a_gateway.Broker.Dispatches.Sealed.{IsSealed, IsSealedRequest, Writes-IsSealed}

-- The operation is accepted and nothing more.
abbrev pub Waiting : {Token : Type 0} → Key → Ledger Token → Type 0
Waiting {Token} (d, o) l =
    (row : Operation Token) × (find d o l.operations ≡ some row) × (row.state ≡ State.accepted)

-- A claim that returns an operation found it accepted, and leaves it started.
abbrev pub Dispatches : {Token : Type 0} → Ledger Token → Option Claim → Ledger Token → Type 0
Dispatches l none u = Unit
Dispatches l (some c) u = Waiting (claim_key c) l × Started (claim_key c) u

pub Started-Follows :
    {Token : Type 0} (d : String) (o : ℕ) (l u : Ledger Token)
    → Follows l.operations u.operations
    → Started (d, o) l
    → Started (d, o) u
Started-Follows d o l u follows (row, found, high) =
    let (new, found', later) = follows d o row found in (new, found', omega arith)

start_row-started :
    {Token : Type 0} (now : ℕ) (row : Operation Token) → 1 ≤ rank (start_row now row).state
unfolding start_row rank
start_row-started now row = omega arith

pub same_key_refl : (d : String) (o : ℕ) → same_key d o d o ≡ true
same_key_refl d o = ground (arith, eq_iff d d)

record_event-Started :
    (P : Setup) {t : Tape} {s : Session (Store P)} (d : String) (o : ℕ)
    → Started (d, o) s.store
    → Ensures (record_event P d o) t s (λ _ u. Started (d, o) u)
record_event-Started P {t} {s} d o h =
    Ensures-weaken _ _ (λ _ u w. Started-Follows d o s.store u (Writes-Follows w) h)
      (record_event-Writes P nothing d o)

module _ (P : Setup) {t : Tape} {s : Session (Store P)} (l : Store P) where
  refuse-Dispatches :
      (d : String) (o : ℕ) (c : Code) (m : String) → Ensures (refuse P d o c m) t s (Dispatches l)
  unfolding refuse
  refuse-Dispatches d o c m =
      Ensures-bind (λ _ _. Unit) _ _ (Ensures-trivial _ _ _) (λ _ u _. Ensures-pure _ tt)

module _ (P : Setup) {t : Tape} {s : Session (Store P)} (l : Store P) (d : String) (o : ℕ)
    (waits : Waiting (d, o) l) (row : Operation P.Token)
    (found : find d o s.store.operations ≡ some row) where
  start-Dispatches :
      (req : Request) (attachments : List (Descriptor × List ℕ))
      → req.operation_id ≡ o
      → Ensures (start P d o req attachments) t s (Dispatches l)
  unfolding start claim_outbox start_row
  start-Dispatches req attachments mine = bind_utcnow _ λ now. bind_modify _ _ (
      bind_utcnow _ λ later. bind_modify _ _ (
        Ensures-bind (λ _ u. Started (d, o) u) _ _
          (record_event-Started P d o (
            start_row later row,
            rw
                (
                  find-update d d o o (start_row later)
                      (record { device = λ r. refl; operation = λ r. refl }) s.store.operations,
                  same_key_refl d o,
                  found,
                )
                refl,
            start_row-started later row,
          ))
          (λ _ u started. Ensures-pure _ (
            subst (λ x. Waiting (d, x) l) (sym mine) waits,
            subst (λ x. Started (d, x) u.store) (sym mine) started,
          ))))

module _ (P : Setup) {t : Tape} {s : Session (Store P)} (l : Store P) (d : String) (o : ℕ)
    (waits : Waiting (d, o) l) (row : Operation P.Token)
    (found : find d o s.store.operations ≡ some row) where
  attached_Dispatches :
      (req : Request) (attachments : Option (List (Descriptor × List ℕ)))
      → req.operation_id ≡ o
      → Ensures {A = Option Claim}
          (elim attachments [
            | none ↦ refuse P d o Code.artifact_expired "input artifact unavailable"
            | some given ↦ start P d o req given
          ])
          t
          s
          (Dispatches l)
  attached_Dispatches req none mine = refuse-Dispatches P l _ _ _ _
  attached_Dispatches req (some given) mine =
      start-Dispatches P l d o waits row found req given mine

payload_operation :
    {Token : Type 0} (d : String) (o : ℕ) (payload : Payload Token)
    → of_payload d o payload ≡ true
    → payload.operation_id ≡ o
unfolding of_payload
payload_operation d o payload h = ground arith

same_request : (r req : Request) → as_request (Plain.request r) ≡ some req → r ≡ req
unfolding as_request
same_request r req h = cc

-- The request of the payload of `o` is the request `o`.
own_request :
    (P : Setup) (u : Store P) (d : String) (o : ℕ) (payload : Payload P.Token) (v : Plain)
    (req : Request)
    → IsSealed P u
    → select_one (of_payload d o) u.payloads ≡ some payload
    → P.decrypt payload.cipher ≡ some v
    → as_request v ≡ some req
    → req.operation_id ≡ o
own_request P u d o payload v req sealed chosen opened read =
    let (r, opens, mine) =
      All-In (IsSealedRequest P) u.payloads payload sealed.payloads
        (In-select_one (of_payload d o) u.payloads payload chosen) in
    let same_value : v ≡ Plain.request r = cc in
    let same_req = same_request r req (subst (λ x. as_request x ≡ some req) same_value read) in
    ap (λ x. x.operation_id) (sym same_req)
    ∙ mine
    ∙ payload_operation d o payload (select_one-holds (of_payload d o) u.payloads chosen)

module _ (P : Setup) {t : Tape} {s : Session (Store P)} (l : Store P) (d : String) (o : ℕ)
    (waits : Waiting (d, o) l) (row : Operation P.Token)
    (found : find d o s.store.operations ≡ some row) (sealed : IsSealed P s.store) where
  dispatch-Dispatches :
      (payload : Payload P.Token)
      → select_one (of_payload d o) s.store.payloads ≡ some payload
      → Ensures (dispatch P d o payload) t s (Dispatches l)
  unfolding dispatch decrypt_value
  dispatch-Dispatches payload chosen = bind_or_raise _ _ _ λ v opened.
      bind_or_raise _ _ _ λ req read.
        bind_reads _ _ (Reads-attempt _ (read_artifacts-Reads P d req.artifact_ids))
          λ attachments n k.
            attached_Dispatches P l d o waits row found req attachments
              (own_request P s.store d o payload v req sealed chosen opened read)

module _ (P : Setup) {t : Tape} {s : Session (Store P)} (l : Store P) (d : String) (o : ℕ)
    (waits : Waiting (d, o) l) (row : Operation P.Token)
    (found : find d o s.store.operations ≡ some row) (sealed : IsSealed P s.store) where
  claim_payload-Dispatches :
      (payload : Option (Payload P.Token))
      → select_one (of_payload d o) s.store.payloads ≡ payload
      → Ensures (claim_payload P d o payload) t s (Dispatches l)
  unfolding claim_payload
  claim_payload-Dispatches none chosen = refuse-Dispatches P l _ _ _ _
  claim_payload-Dispatches (some payload) chosen = bind_utcnow _ λ now.
      Ensures-if (leb payload.expires_at now) _ _ (λ _. refuse-Dispatches P l _ _ _ _)
        (λ _. dispatch-Dispatches P l d o waits row found sealed payload chosen)

module _ (P : Setup) {t : Tape} where
  claim_row-Dispatches :
      (d : String) (o : ℕ) (s : Session (Store P))
      → IsSealed P s.store
      → Ensures (claim_row P d o) t s (Dispatches s.store)
  unfolding claim_row
  claim_row-Dispatches d o s sealed = bind_lock P nothing d _ λ u w same_rows.
      bind_row P d o _ λ row found.
        Ensures-if (is_accepted row.state) _ _
          (λ fresh. bind_gets _ _ (
            claim_payload-Dispatches P s.store d o
              (
                row,
                subst (λ rows. find d o rows ≡ some row) same_rows found,
                is_accepted-eq row.state fresh,
              )
              row found (Writes-IsSealed w sealed) _ refl))
          (λ _. Ensures-pure _ tt)

  chosen_Dispatches :
      (s : Session (Store P)) (chosen : Option (Operation P.Token))
      → IsSealed P s.store
      → Ensures {A = Option Claim}
          (elim chosen [ none ↦ pure none | some row ↦ claim_row P row.device_id row.operation_id ])
          t
          s
          (Dispatches s.store)
  chosen_Dispatches s none sealed = Ensures-pure _ tt
  chosen_Dispatches s (some best) sealed =
      claim_row-Dispatches best.device_id best.operation_id s sealed

-- A claim that returns an operation found that operation accepted, and leaves it past its
-- acceptance, where stored payloads are the sealed requests of their operations.
pub claim-Dispatches :
    (P : Setup) (t : Tape) (l : Store P) (c : Option Claim)
    → IsSealed P l
    → (claim P t l).0 ≡ ok c
    → Dispatches l c (claim P t l).1
unfolding claim claim_body
claim-Dispatches P t l c sealed =
    transaction_returns (Dispatches l) _ t l c
      λ n k. bind_dispatcher P _ (λ _. bind_gets _ _ (chosen_Dispatches P _ _ sealed))

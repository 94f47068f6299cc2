-- ===== src/Client/Enqueued.antt =====
-- What `claim_delivery` of hermes_a2a_gateway/client_store.py hands to the host's queue.
use codex_a2a_gateway.Base.{
  ℕ, ◌≤◌, ◌≡◌, refl, sym, ap, subst, true, not, ◌||◌, Option, none, some, List, [], ◌∷◌, arith, inl,
  inr, In, ltb, select_one-update_same,
}
use codex_a2a_gateway.Histories.{NoRepeat, HandsOut, emitted, emitted-NoRepeat}
use codex_a2a_gateway.Tx.Errors.{Result, ok, err}
use codex_a2a_gateway.Tx.{Tape, Session, pure}
use codex_a2a_gateway.Tx.Ensures.{Ensures, Ensures-pure, Ensures-if, transaction_returns}
use codex_a2a_gateway.Tx.Rules.{bind_modify, bind_utcnow, bind_draw}
use codex_a2a_gateway.Client.Model.{Delivery, ClientOperation, ClientLedger, has_id}
use codex_a2a_gateway.Client.Setup.{ClientSetup, ClientStore, ClientRow}
use codex_a2a_gateway.Client.Delivery.{
  is_ready, is_deliverable, start_delivery, claim_ready, claim_delivery_row, claim_delivery,
}
use codex_a2a_gateway.Client.Calls.{ClientCall, client_step}
use codex_a2a_gateway.Client.Onward.{delivery_rank, seek, Onward}
use codex_a2a_gateway.Client.Onward.Accepted.{bind_row}
use codex_a2a_gateway.Client.Onward.Deliveries.{own_row}
use codex_a2a_gateway.Client.Onward.Histories.{client_step-Onward}

abbrev pub claimed_id :
    {Token Value : Type 0} → Result (Option (ClientOperation Token Value)) → List ℕ
claimed_id (ok (some row)) = row.operation_id ∷ []
claimed_id (ok none) = []
claimed_id (err e) = []

module _ (P : ClientSetup) where
  -- What a call enqueues.
  unfoldable pub enqueued_by : ClientCall P.Value → Tape → ClientStore P → List ℕ
  enqueued_by (ClientCall.claim_delivery o) t l = claimed_id (claim_delivery P o t l).0
  enqueued_by _ t l = []

  -- A call with its tape, as a step and as what it enqueues.
  abbrev pub client_move : Tape × ClientCall P.Value → ClientStore P → ClientStore P
  client_move (t, c) l = client_step P c t l

  abbrev pub move_enqueued : Tape × ClientCall P.Value → ClientStore P → List ℕ
  move_enqueued (t, c) l = enqueued_by c t l

  -- What a history enqueues, in order.
  unfoldable pub enqueued : List (Tape × ClientCall P.Value) → ClientStore P → List ℕ
  enqueued = emitted client_move move_enqueued

module _ {Token Value : Type 0} where
  -- The delivery of the operation has not begun, or has.
  abbrev pub IsUndelivered : ℕ → ClientLedger Token Value → Type 0
  IsUndelivered o l =
      (row : ClientOperation Token Value) × (seek o l.operations ≡ some row)
      × (delivery_rank row.delivery_state ≤ 1)

  abbrev pub IsBegun : ℕ → ClientLedger Token Value → Type 0
  IsBegun o l =
      (row : ClientOperation Token Value) × (seek o l.operations ≡ some row)
      × (2 ≤ delivery_rank row.delivery_state)

  pub begun-not-IsUndelivered :
      (o : ℕ) (l : ClientLedger Token Value) → IsBegun o l → ¬ IsUndelivered o l
  begun-not-IsUndelivered o l (row, found, high) (row', found', low) =
      let same_row : row ≡ row' = cc in
      let same_rank : delivery_rank row.delivery_state ≡ delivery_rank row'.delivery_state =
        ap (λ r. delivery_rank r.delivery_state) same_row in
      absurd (omega arith)

  pub IsBegun-Onward :
      (o : ℕ) (l u : ClientLedger Token Value) → Onward l u → IsBegun o l → IsBegun o u
  IsBegun-Onward o l u onward (row, found, high) =
      let (new, found', later) = onward.rows o row found in
      let higher = later.onward in (new, found', omega arith)

  -- A claim that returns a row found its delivery not begun, and leaves it begun.
  abbrev pub Begins :
      ClientLedger Token Value
      → Option (ClientOperation Token Value)
      → ClientLedger Token Value
      → Type 0
  Begins l none u = Unit
  Begins l (some row) u = IsUndelivered row.operation_id l × IsBegun row.operation_id u

module _ (P : ClientSetup) where
  start_delivery-Begins :
      {t : Tape} {s : Session (ClientStore P)} (row : ClientRow P)
      → seek row.operation_id s.store.operations ≡ some row
      → is_ready row.delivery_state ≡ true
      → Ensures (start_delivery P row) t s (Begins s.store)
  unfolding start_delivery delivery_rank is_ready has_id
  start_delivery-Begins {t} {s} row found free = bind_draw _ λ id. bind_modify _ _ (
      Ensures-pure _ (
        (row, found, ground arith),
        (
          record row { delivery_state = Delivery.enqueueing; delivery_id = some id },
          rw
              (
                select_one-update_same (has_id row.operation_id) (has_id row.operation_id)
                    (λ r. record r { delivery_state = Delivery.enqueueing; delivery_id = some id })
                    (λ r. refl) (λ r. refl) s.store.operations,
                found,
              )
              refl,
          omega arith,
        ),
      ))

  -- A claim that returns an operation found it waiting for its delivery, and leaves the delivery begun.
  pub claim_delivery-Begins :
      (o : ℕ) (t : Tape) (l : ClientStore P) (claimed : Option (ClientRow P))
      → (claim_delivery P o t l).0 ≡ ok claimed
      → Begins l claimed (claim_delivery P o t l).1
  unfolding claim_delivery claim_delivery_row claim_ready
  claim_delivery-Begins o t l claimed = transaction_returns (Begins l) _ t l claimed λ n k.
      bind_row P o none _ λ row n' k' found.
        Ensures-if (row.expired || not (is_ready row.delivery_state)) (pure none)
          (claim_ready P row) (λ _. Ensures-pure _ tt)
          λ ready. bind_utcnow _ λ now.
            Ensures-if (ltb now row.inline_deadline || not (is_deliverable P row)) (pure none)
              (start_delivery P row) (λ _. Ensures-pure _ tt)
              λ _. start_delivery-Begins row (own_row P t l o l.operations row found) (ground arith)

  claimed-Begins :
      (k : ℕ) (l u : ClientStore P) (r : Result (Option (ClientRow P)))
      → ((claimed : Option (ClientRow P)) → r ≡ ok claimed → Begins l claimed u)
      → In k (claimed_id r)
      → IsUndelivered k l × IsBegun k u
  claimed-Begins k l u (ok none) h m = elim m [ ]
  claimed-Begins k l u (ok (some row)) h (inl e) =
      subst (λ x. IsUndelivered x l × IsBegun x u) (sym e) (h (some row) refl)
  claimed-Begins k l u (ok (some row)) h (inr m) = elim m [ ]
  claimed-Begins k l u (err e) h m = elim m [ ]

  enqueued_by-Begins :
      (k : ℕ) (c : ClientCall P.Value) (t : Tape) (l : ClientStore P)
      → In k (enqueued_by P c t l)
      → IsUndelivered k l × IsBegun k (client_step P c t l)
  unfolding enqueued_by client_step
  enqueued_by-Begins k (ClientCall.claim_delivery o) t l m =
      claimed-Begins k l (claim_delivery P o t l).1 (claim_delivery P o t l).0
        (λ claimed e. claim_delivery-Begins o t l claimed e) m
  enqueued_by-Begins k _ t l m = elim m [ ]

  claimed_id-NoRepeat : (r : Result (Option (ClientRow P))) → NoRepeat (claimed_id r)
  claimed_id-NoRepeat (ok none) = tt
  claimed_id-NoRepeat (ok (some row)) = (λ m. elim m [ ], tt)
  claimed_id-NoRepeat (err e) = tt

  enqueued_by-NoRepeat :
      (c : ClientCall P.Value) (t : Tape) (l : ClientStore P) → NoRepeat (enqueued_by P c t l)
  unfolding enqueued_by
  enqueued_by-NoRepeat (ClientCall.claim_delivery o) t l =
      claimed_id-NoRepeat (claim_delivery P o t l).0
  enqueued_by-NoRepeat _ t l = tt

  deliveries-HandsOut : HandsOut (client_move P) (move_enqueued P) (λ _. Unit) IsUndelivered IsBegun
  deliveries-HandsOut = record {
    kept = λ c l _. tt;
    stays = λ k (t, c) l begun.
        IsBegun-Onward k l (client_step P c t l) (client_step-Onward P c t l) begun;
    waited = λ k (t, c) l _ m. (enqueued_by-Begins k c t l m).0;
    begun = λ k (t, c) l _ m. (enqueued_by-Begins k c t l m).1;
    apart = λ k l begun. begun-not-IsUndelivered k l begun;
    single = λ (t, c) l. enqueued_by-NoRepeat c t l;
  }

-- Whatever the history of the client's ledger, restarts included, `claim_delivery` hands each
-- operation to the host's queue at most once.
pub enqueued-NoRepeat :
    (P : ClientSetup) (calls : List (Tape × ClientCall P.Value)) (l : ClientStore P)
    → NoRepeat (enqueued P calls l)
unfolding enqueued
enqueued-NoRepeat P calls l =
    emitted-NoRepeat (client_move P) (move_enqueued P) (deliveries-HandsOut P) calls l tt

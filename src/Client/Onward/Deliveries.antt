-- ===== src/Client/Onward/Deliveries.antt =====
-- Views and deliveries move the client's ledger onward.
use codex_a2a_gateway.Base.{
  ℕ, String, ◌≡◌, refl, sym, subst, Bool, true, false, not, ◌||◌, Option, none, some, List, arith,
  ltb, select_one-holds,
}
use codex_a2a_gateway.Tx.{Tape, Session, pure}
use codex_a2a_gateway.Tx.Ensures.{
  Ensures, Ensures-pure, Ensures-if, Ensures-bind, transaction_relates,
}
use codex_a2a_gateway.Tx.Rules.{bind_gets, bind_or_raise, bind_modify, bind_utcnow, bind_draw}
use codex_a2a_gateway.Broker.Model.{ReceiptStatus}
use codex_a2a_gateway.Client.Model.{Delivery, CancelState, NativeOrigin, has_id}
use codex_a2a_gateway.Client.Setup.{ClientSetup, ClientStore, ClientRow}
use codex_a2a_gateway.Client.Snapshots.{
  is_consumable, view_of, is_takeable, mark_taken, take_inline, consume_row, view_body, view,
  resolve_call,
}
use codex_a2a_gateway.Client.Delivery.{
  is_inline, is_ready, is_deliverable, is_enqueueing, DeliveryEnd, end_state, ready_row,
  release_inline, start_delivery, claim_ready, claim_delivery_row, claim_delivery, end_receipt,
  finish_delivery, unknown_deliveries, ready_deliveries, unknown_cancellations, reopen,
}
use codex_a2a_gateway.Client.Onward.{
  delivery_rank, ClientLater, ClientLater-same, seek, Onward, Onward-refl, Onward-trans,
}
use codex_a2a_gateway.Client.Onward.Rows.{update_any-Advances}
use codex_a2a_gateway.Client.Onward.Accepted.{
  rows-Onward, deliver-Onward, note_receipt-Onward, bind_row,
}

module _ (P : ClientSetup) (t : Tape) (l : ClientStore P) where
  mark_taken-Onward :
      {s : Session (ClientStore P)} (row : ClientRow P)
      → Onward l s.store
      → Ensures (mark_taken P row) t s (λ _ u. Onward l u)
  unfolding mark_taken delivery_rank
  mark_taken-Onward {s} row w = bind_modify _ _ (
      Ensures-pure _ (
        Onward-trans w (
          deliver-Onward s.store row.operation_id _ (record { id = λ r. refl })
            λ r _.
              ClientLater-same r (record r { delivery_state = Delivery.inline_returned }) (λ h. h)
                refl refl refl refl refl (ground arith))))

  take_inline-Onward :
      {s : Session (ClientStore P)} (row : ClientRow P)
      → Onward l s.store
      → Ensures (take_inline P row) t s (λ _ u. Onward l u)
  unfolding take_inline
  take_inline-Onward row w =
      Ensures-if (is_takeable row.delivery_state) (mark_taken P row) (pure row)
        (λ _. mark_taken-Onward row w) (λ _. Ensures-pure _ w)

  view_body-Onward :
      {s : Session (ClientStore P)} (o : ℕ) (origin : NativeOrigin) (consume : Bool)
      → Onward l s.store
      → Ensures (view_body P o origin consume) t s (λ _ u. Onward l u)
  unfolding view_body consume_row
  view_body-Onward o origin consume w = bind_row P o (some origin) _ λ row n k _.
      Ensures-if (is_consumable P consume row) (consume_row P row) (pure (view_of P row))
        (λ _.
          Ensures-bind (λ _ u. Onward l u) _ _ (take_inline-Onward row w)
            λ taken u w'.
              Ensures-bind (λ _ v. Onward l v) _ _
                (note_receipt-Onward P row.operation_id _ ReceiptStatus.delivered w')
                (λ _ v w''. Ensures-pure _ w''))
        (λ _. Ensures-pure _ w)

  pub view-Onward :
      (o : ℕ) (origin : NativeOrigin) (consume : Bool) → Onward l (view P o origin consume t l).1
  unfolding view
  view-Onward o origin consume =
      transaction_relates Onward _ t l (Onward-refl l)
        λ n k. view_body-Onward o origin consume (Onward-refl l)

  pub resolve_call-Onward : (origin : NativeOrigin) → Onward l (resolve_call P origin t l).1
  unfolding resolve_call
  resolve_call-Onward origin = transaction_relates Onward _ t l (Onward-refl l) λ n k.
      bind_gets _ _ (
        bind_or_raise _ _ _ λ row _. view_body-Onward row.operation_id origin false (Onward-refl l))

  pub release_inline-Onward : (o : ℕ) → Onward l (release_inline P o l)
  unfolding release_inline ready_row delivery_rank is_inline
  release_inline-Onward o = rows-Onward l _ (
      update_any-Advances _ (ready_row P) (record { id = λ r. refl }) l.operations
        λ r h. ClientLater-same r (ready_row P r) (λ h. h) refl refl refl refl refl (ground arith))

  -- A row is found under its own identity.
  pub own_row :
      (o : ℕ) (rows : List (ClientRow P)) (row : ClientRow P)
      → seek o rows ≡ some row
      → seek row.operation_id rows ≡ some row
  unfolding has_id
  own_row o rows row found =
      let same_id : row.operation_id ≡ o = ground (arith, select_one-holds (has_id o) rows found) in
      subst (λ x. seek x rows ≡ some row) (sym same_id) found

  start_delivery-Onward :
      {s : Session (ClientStore P)} (row : ClientRow P)
      → Onward l s.store
      → seek row.operation_id s.store.operations ≡ some row
      → is_ready row.delivery_state ≡ true
      → Ensures (start_delivery P row) t s (λ _ u. Onward l u)
  unfolding start_delivery delivery_rank is_ready
  start_delivery-Onward {s} row w found free = bind_draw _ λ id. bind_modify _ _ (
      Ensures-pure _ (
        Onward-trans w (
          deliver-Onward s.store row.operation_id _ (record { id = λ r. refl })
            λ r found'.
              let same_row : row ≡ r = cc in
              let free' : is_ready r.delivery_state ≡ true =
                subst (λ x. is_ready x.delivery_state ≡ true) same_row free in
              ClientLater-same r
                (record r { delivery_state = Delivery.enqueueing; delivery_id = some id }) (λ h. h)
                refl refl refl refl refl (ground arith))))

  pub claim_delivery-Onward : (o : ℕ) → Onward l (claim_delivery P o t l).1
  unfolding claim_delivery claim_delivery_row claim_ready
  claim_delivery-Onward o = transaction_relates Onward _ t l (Onward-refl l) λ n k.
      bind_row P o none _ λ row n' k' found.
        Ensures-if (row.expired || not (is_ready row.delivery_state)) (pure none)
          (claim_ready P row) (λ _. Ensures-pure _ (Onward-refl l))
          λ ready. bind_utcnow _ λ now.
            Ensures-if (ltb now row.inline_deadline || not (is_deliverable P row)) (pure none)
              (start_delivery P row) (λ _. Ensures-pure _ (Onward-refl l))
              λ _.
                start_delivery-Onward row (Onward-refl l) (own_row o l.operations row found)
                  (ground arith)

  end_receipt-Onward :
      {s : Session (ClientStore P)} (o : ℕ) (ending : DeliveryEnd)
      → Onward l s.store
      → Ensures (end_receipt P o ending) t s (λ _ u. Onward l u)
  unfolding end_receipt
  end_receipt-Onward o DeliveryEnd.queued w = Ensures-pure _ w
  end_receipt-Onward o DeliveryEnd.unsupported w = Ensures-pure _ w
  end_receipt-Onward o DeliveryEnd.delivery_outcome_unknown w = bind_row P o none _ λ row n k _.
      bind_or_raise _ _ _ λ s _. note_receipt-Onward P o _ ReceiptStatus.delivery_outcome_unknown w

  ended-ClientLater :
      (row : ClientRow P) (ending : DeliveryEnd) (queue : Option String)
      → ClientLater row (record row { delivery_state = end_state ending; queue_id = queue })
  unfolding delivery_rank end_state
  ended-ClientLater row ending queue =
      ClientLater-same row (record row { delivery_state = end_state ending; queue_id = queue })
        (λ h. h) refl refl refl refl refl (ground arith)

  pub finish_delivery-Onward :
      (o : ℕ) (ending : DeliveryEnd) (queue : Option String)
      → Onward l (finish_delivery P o ending queue t l).1
  unfolding finish_delivery
  finish_delivery-Onward o ending queue = transaction_relates Onward _ t l (Onward-refl l) λ n k.
      bind_modify _ _ (
        end_receipt-Onward o ending (
          deliver-Onward l o _ (record { id = λ r. refl }) λ r _. ended-ClientLater r ending queue))

  pub reopen-Onward : Onward l (reopen P l)
  unfolding reopen unknown_deliveries ready_deliveries unknown_cancellations ready_row delivery_rank
      is_inline is_enqueueing
  reopen-Onward =
      let a : Onward l (unknown_deliveries P l) = rows-Onward l _ (
        update_any-Advances _ _ (record { id = λ r. refl }) l.operations
          λ r h.
            ClientLater-same r (record r { delivery_state = Delivery.delivery_outcome_unknown })
              (λ h. h) refl refl refl refl refl (ground arith)) in
      let b : Onward (unknown_deliveries P l) (ready_deliveries P (unknown_deliveries P l)) =
        rows-Onward (unknown_deliveries P l) _ (
          update_any-Advances _ (ready_row P) (record { id = λ r. refl })
            (unknown_deliveries P l).operations
            λ r h.
              ClientLater-same r (ready_row P r) (λ h. h) refl refl refl refl refl
                (ground arith)) in
      let m = ready_deliveries P (unknown_deliveries P l) in
      let c : Onward m (unknown_cancellations P m) = rows-Onward m _ (
        update_any-Advances _ _ (record { id = λ r. refl }) m.operations
          λ r h.
            ClientLater-same r (record r { cancel_state = some CancelState.outcome_unknown })
              (λ h. refl) refl refl refl refl refl (omega arith)) in
      let all = Onward-trans a (Onward-trans b c) in record { rows = all.rows; cursor = all.cursor }

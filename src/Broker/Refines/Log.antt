-- ===== src/Broker/Refines/Log.antt =====
-- `events`, `receipt` and `purge`.
use codex_a2a_gateway.Base.{
  ap, ==_iff, ℕ, String, ◌≡◌, Bool, true, false, Option, none, some, List, [], ◌∷◌, is_some,
  if◌then◌else◌, select_one,
}
use codex_a2a_gateway.Tx.{Tape, Session, Tx, utcnow, modify, ◌>>=◌}
use codex_a2a_gateway.Tx.Ensures.{
  Ensures, Ensures-modify, Ensures-pure, Ensures-bind, transaction_relates,
}
use codex_a2a_gateway.Tx.Reads.{Reads, Reads-keeps, Reads-bind, Reads-or_raise, Reads-pure}
use codex_a2a_gateway.Tx.Rules.{bind_gets, bind_or_raise, bind_require, bind_modify, bind_utcnow}
use codex_a2a_gateway.Broker.Model.{Device, Event, Receipt, Operation}
use codex_a2a_gateway.Broker.Setup.{Setup}
use codex_a2a_gateway.Broker.Rows.{of_receipt, of_operation}
use codex_a2a_gateway.Broker.Snapshots.{Store}
use codex_a2a_gateway.Broker.Events.{
  purge_events, purge_devices, decrypt_events, events, events_body, receipt, add_receipt, is_result,
  purge, drop_payloads, drop_artifacts, drop_results,
}
use codex_a2a_gateway.Broker.Spec.{
  OperationWrite, ArtifactWrite, Write, Writes, nothing, then_write,
}
use codex_a2a_gateway.Broker.Refines.Reading.{decrypt_value-Reads, bind_row}
use codex_a2a_gateway.Broker.Refines.Ends.{bind_lock}

module _ (P : Setup) where
  decrypt_events-Reads : (rows : List (Event P.Token)) → Reads (decrypt_events P rows)
  unfolding decrypt_events
  decrypt_events-Reads [] = Reads-pure _
  decrypt_events-Reads (e ∷ rows) = Reads-bind _ _ (decrypt_value-Reads P e.cipher) λ v.
      Reads-bind _ _ (Reads-or_raise _ _)
        λ snapshot. Reads-bind _ _ (decrypt_events-Reads rows) (λ _. Reads-pure _)

  branch_Writes :
      {l u v : Store P} (b : Bool) → Writes P l u → Writes P l v → Writes P l (if b then u else v)
  branch_Writes true w x = w
  branch_Writes false w x = x

  known_result : (id : Option ℕ) (result : ℕ) → is_result P id result ≡ true → id ≡ some result
  unfolding is_result
  known_result none result h = cc
  known_result (some id) result h = ap some ((==_iff id result).0 h)

  receipt_added :
      (l u : Store P) (row : Receipt) (op : Operation P.Token)
      → Writes P l u
      → select_one (of_operation row.device_id row.operation_id) u.operations ≡ some op
      → op.result_id ≡ some row.result_id
      → Writes P l
          (add_receipt P row.device_id row.operation_id row.result_id row.status row.created_at u)
  unfolding add_receipt
  receipt_added l u row op w found known =
      branch_Writes
        (is_some (
          select_one (of_receipt row.device_id row.operation_id row.result_id row.status)
            u.receipts))
        w (then_write w (Write.receipt row op found known))

module _ (P : Setup) {l : Store P} {t : Tape} {s : Session (Store P)} (w : Writes P l s.store) where
  pub bind_purge :
      {B : Type 0} {Q : B → Store P → Type 0} (d : String) (f : Unit {0} → Tx (Store P) B)
      → ((u : Session (Store P)) → Writes P l u.store → Ensures (f tt) t u Q)
      → Ensures (purge_events P d >>= f) t s Q
  unfolding purge_events utcnow modify ◌>>=◌
  bind_purge d f h = record { at = (h _ (then_write w (Write.retire d _))).at }

module _ (P : Setup) {l : Store P} {t : Tape} where
  purge_devices-Writes :
      (rows : List Device) (s : Session (Store P))
      → Writes P l s.store
      → Ensures (purge_devices P rows) t s (λ _ u. Writes P l u)
  unfolding purge_devices
  purge_devices-Writes [] s w = Ensures-pure _ w
  purge_devices-Writes (row ∷ rows) s w =
      bind_lock P w row.device_id _
        λ u w' _. bind_purge P w' row.device_id _ (λ v w''. purge_devices-Writes rows v w'')

module _ (P : Setup) (t : Tape) (l : Store P) where
  pub purge-Writes : Writes P l (purge P t l).1
  unfolding purge drop_payloads drop_artifacts drop_results
  purge-Writes = transaction_relates (Writes P) _ t l nothing λ n k. bind_gets _ _ (
      Ensures-bind (λ _ u. Writes P l u) _ _ (purge_devices-Writes P _ _ nothing)
        λ _ u w. bind_utcnow _ λ now. bind_modify _ _ (
          bind_modify _ _ (
            Ensures-modify _ (
              then_write
                (then_write (then_write w (Write.drop_payloads _))
                  (Write.artifact (ArtifactWrite.expire _)))
                (Write.operation (OperationWrite.expire_results now))))))

  pub events-Writes : (d : String) (after limit : ℕ) → Writes P l (events P d after limit t l).1
  unfolding events events_body
  events-Writes d after limit = transaction_relates (Writes P) _ t l nothing λ n k.
      bind_lock P nothing d _ λ u w _. bind_purge P w d _ λ v w'. bind_gets _ _ (
        bind_or_raise _ _ _ λ device _. bind_require _ _ _ λ _.
          bind_require _ _ _
            λ _. bind_gets _ _ (Reads-keeps (Writes P l) _ (decrypt_events-Reads P _) w'))

  pub receipt-Writes :
      (d : String) (o result : ℕ) (status : String) → Writes P l (receipt P d o result status t l).1
  unfolding receipt
  receipt-Writes d o result status = transaction_relates (Writes P) _ t l nothing λ n k.
      bind_or_raise _ _ _ λ known _. bind_lock P nothing d _ λ u w _. bind_row P d o _ λ row found.
        bind_require _ _ _ λ agrees. bind_utcnow _ λ now. Ensures-modify _ (
          receipt_added P l u.store
            (record {
              device_id = d;
              operation_id = o;
              result_id = result;
              status = known;
              created_at = now;
            })
            row w found (known_result P row.result_id result agrees))

-- ===== src/Broker/EventLog/Steps.antt =====
-- Each write of the specification keeps the event logs gapless.
use mathlib.Core.Option
use codex_a2a_gateway.Base.{
  ℕ, suc, ◌≤◌, ◌<◌, String, ◌≡◌, refl, sym, ◌∙◌, subst, inl, inr, Bool, true, false, Option, none,
  some, List, [], max, arith, same, eq_iff, Bool-cases, Option-cases, if◌then◌else◌, select_one,
  select, update, select_one-update_same, select_one-update_other, select_one-insert,
}
use codex_a2a_gateway.Tx.{Tape}
use codex_a2a_gateway.Broker.Model.{Device, Event, Ledger}
use codex_a2a_gateway.Broker.Setup.{Setup}
use codex_a2a_gateway.Broker.Rows.{of_device, event_of, expired_event_of}
use codex_a2a_gateway.Broker.Snapshots.{Store, add_device, append_event}
use codex_a2a_gateway.Broker.Events.{max_sequence, drop_events, drop_expired}
use codex_a2a_gateway.Broker.Calls.{Call, run, empty}
use codex_a2a_gateway.Broker.Spec.{Write, Writes, nothing, then_write}
use codex_a2a_gateway.Broker.Refines.Histories.{run-Writes}
use codex_a2a_gateway.Broker.EventLog.{Consecutive, LogOf, IsGapless}
use codex_a2a_gateway.Broker.EventLog.Consecutive.{
  Consecutive-insert, Consecutive-above, delete-up_to, delete-other, select-insert,
  last_expired_bounds,
}

of_device-same : (d e : String) (row : Device) → same d e ≡ true → of_device d row ≡ of_device e row
unfolding of_device
of_device-same d e row h = ground (arith, eq_iff d e)

of_device-other :
    (d e : String) (row : Device)
    → same d e ≡ false
    → of_device e row ≡ true
    → of_device d row ≡ false
unfolding of_device
of_device-other d e row h m =
    ground (arith, eq_iff d e, eq_iff row.device_id d, eq_iff row.device_id e)

-- An UPDATE of one device, read by another.
device-update :
    (d e : String) (f : Device → Device)
    → ((row : Device) → (f row).device_id ≡ row.device_id)
    → (rows : List Device)
    → select_one (of_device e) (update (of_device d) f rows) ≡ (
        if same d e
        then Option.map f (select_one (of_device e) rows)
        else select_one (of_device e) rows)
unfolding of_device
device-update d e f k rows = elim (Bool-cases (same d e)) [
  | inl hit ↦ rw hit (
      select_one-update_same (of_device e) (of_device d) f (λ r. rw (k r))
        (λ r. of_device-same d e r hit) rows)
  | inr miss ↦ rw miss (
      select_one-update_other (of_device e) (of_device d) f (λ r. rw (k r))
        (λ r m. of_device-other d e r miss m) rows)
]

same_refl : (d : String) → same d d ≡ true
same_refl d = (eq_iff d d).1 refl

module _ {Token : Type 0} where
  -- A new device begins with no event.
  LogOf-insert :
      (o : Option Device) (fresh : Device) (b : Bool) (es : List (Event Token))
      → fresh.floor ≡ 0
      → fresh.sequence ≡ 0
      → LogOf o es
      → LogOf (elim o [ none ↦ (if b then some fresh else none) | some x ↦ some x ]) es
  LogOf-insert none fresh true es low high h = rw h (low ∙ sym high)
  LogOf-insert none fresh false es low high h = h
  LogOf-insert (some x) fresh b es low high h = h

module _ {Token : Type 0} (l : Ledger Token) (g : IsGapless l) where
  add_device-IsGapless : (d : String) → IsGapless (add_device d l)
  unfolding add_device
  add_device-IsGapless d = elim (Option-cases (select_one (of_device d) l.devices)) [
    | inl absent ↦ rw absent (record {
      of = λ e.
          rw (select_one-insert (of_device e) _ l.devices)
            (LogOf-insert (select_one (of_device e) l.devices) _ _ _ refl refl (g.of e));
    })
    | inr (row, known) ↦ rw known g
  ]

  module _ (d : String) (device : Device)
      (found : select_one (of_device d) l.devices ≡ some device) where
    -- What a write to the log of `d` leaves of the logs of `d` and of another device.
    by_device :
        (f : Device → Device) (es : List (Event Token))
        → ((row : Device) → (f row).device_id ≡ row.device_id)
        → Consecutive (f device).floor (select (event_of d) es) (f device).sequence
        → ((e : String) → same d e ≡ false → select (event_of e) es ≡ select (event_of e) l.events)
        → IsGapless (record l { devices = update (of_device d) f l.devices; events = es })
    by_device f es k mine others = record {
      of = λ e. elim (Bool-cases (same d e)) [
        | inl hit ↦
            subst
              (λ x.
                LogOf (select_one (of_device x) (update (of_device d) f l.devices))
                  (select (event_of x) es))
              ((eq_iff d e).0 hit) (rw (device-update d d f k l.devices, same_refl d, found) mine)
        | inr miss ↦ rw (device-update d e f k l.devices, miss, others e miss) (g.of e)
      ];
    }

    mine : Consecutive device.floor (select (event_of d) l.events) device.sequence
    mine = subst (λ o. LogOf o (select (event_of d) l.events)) found (g.of d)

    append_event-IsGapless :
        (c : Token) (expires : ℕ) → IsGapless (append_event d (suc device.sequence) c expires l)
    unfolding append_event event_of
    append_event-IsGapless c expires =
        by_device (λ row. record row { sequence = suc row.sequence }) _ (λ row. refl)
          (rw (select-insert (event_of d) l.events _, same_refl d)
            (Consecutive-insert device.floor device.sequence _ _ mine refl))
          (λ e miss. rw (select-insert (event_of e) l.events _, miss) refl)

    drop_events-IsGapless :
        (n : ℕ) → device.floor < n → n ≤ device.sequence → IsGapless (drop_events d n l)
    unfolding drop_events
    drop_events-IsGapless n low high =
        let raised : max device.floor n ≡ n = omega arith in
        by_device (λ row. record row { floor = max row.floor n }) _ (λ row. refl)
          (rw (delete-up_to d n l.events, raised)
            (Consecutive-above n device.floor device.sequence _ (omega arith) high mine))
          (λ e miss. delete-other d e n l.events miss)

module _ {Token : Type 0} (l : Ledger Token) (g : IsGapless l) (d : String) (now : ℕ) where
  expired-known :
      (n : ℕ)
      → max_sequence (select (expired_event_of d now) l.events) ≡ some n
      → (o : Option Device) → select_one (of_device d) l.devices ≡ o
      → IsGapless (drop_events d n l)
  expired-known n last none absent =
      let no_events : select (event_of d) l.events ≡ [] =
        subst (λ o. LogOf o (select (event_of d) l.events)) absent (g.of d) in
      let log : Consecutive 0 (select (event_of d) l.events) 0 = rw no_events refl in
      let bounds = last_expired_bounds d now 0 0 n l.events log last in absurd (omega arith)
  expired-known n last (some device) found =
      let bounds =
        last_expired_bounds d now device.floor device.sequence n l.events (mine l g d device found)
          last in
      drop_events-IsGapless l g d device found n bounds.0 bounds.1

  drop_expired-IsGapless : IsGapless (drop_expired d now l)
  unfolding drop_expired
  drop_expired-IsGapless =
      elim (Option-cases (max_sequence (select (expired_event_of d now) l.events))) [
        | inl fresh ↦ rw (fresh, drop_expired) g
        | inr (n, last) ↦
            rw (last, drop_expired) (expired-known n last (select_one (of_device d) l.devices) refl)
      ]

module _ {P : Setup} where
  Write-IsGapless : {l l' : Store P} → Write P l l' → IsGapless l → IsGapless l'
  Write-IsGapless {l = l} (Write.device d) g = add_device-IsGapless l g d
  Write-IsGapless {l = l} (Write.event d device iv snapshot expires found) g =
      append_event-IsGapless l g d device found _ expires
  Write-IsGapless {l = l} (Write.retire d now) g = drop_expired-IsGapless l g d now
  Write-IsGapless {l = l} _ g = record { of = g.of }

  pub Writes-IsGapless : {l l' : Store P} → Writes P l l' → IsGapless l → IsGapless l'
  Writes-IsGapless nothing g = g
  Writes-IsGapless (then_write w x) g = Write-IsGapless x (Writes-IsGapless w g)

pub empty-IsGapless : (P : Setup) → IsGapless (empty P)
unfolding select_one select
empty-IsGapless P = record { of = λ d. refl }

-- After any history of a new ledger, the events that each device still has carry consecutive
-- numbers, from the one after its floor up to its sequence.
pub run-IsGapless : (P : Setup) (calls : List (Tape × Call)) → IsGapless (run P calls (empty P))
run-IsGapless P calls = Writes-IsGapless (run-Writes P calls (empty P)) (empty-IsGapless P)

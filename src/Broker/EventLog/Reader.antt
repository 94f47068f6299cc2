-- ===== src/Broker/EventLog/Reader.antt =====
-- `events`: a reader whose cursor is in the log gets the events after it, with none missing.
use codex_a2a_gateway.Base.{
  ℕ, zero, suc, ◌-◌, ◌≤◌, String, ◌≡◌, refl, sym, ap, ◌∙◌, subst, some, List, [], ◌∷◌, map, take,
  min, arith, leb→le, select_one, select,
}
use codex_a2a_gateway.Tx.Errors.{ok}
use codex_a2a_gateway.Tx.{Tape, Session}
use codex_a2a_gateway.Tx.Ensures.{
  Ensures, Ensures-pure, Ensures-bind, Ensures-weaken, transaction_returns,
}
use codex_a2a_gateway.Tx.Reads.{bind_reads}
use codex_a2a_gateway.Tx.Rules.{bind_gets, bind_or_raise, bind_require}
use codex_a2a_gateway.Broker.Model.{Device, Event, Snapshot, Ledger}
use codex_a2a_gateway.Broker.Setup.{Setup}
use codex_a2a_gateway.Broker.Rows.{of_device, event_of, event_after}
use codex_a2a_gateway.Broker.Snapshots.{Store}
use codex_a2a_gateway.Broker.Events.{
  events, events_body, page, sort_events, insert_event, decrypt_events,
}
use codex_a2a_gateway.Broker.Spec.{nothing}
use codex_a2a_gateway.Broker.Refines.Reading.{decrypt_value-Reads}
use codex_a2a_gateway.Broker.Refines.Ends.{bind_lock}
use codex_a2a_gateway.Broker.Refines.Log.{bind_purge}
use codex_a2a_gateway.Broker.EventLog.{Consecutive, LogOf, IsGapless}
use codex_a2a_gateway.Broker.EventLog.Consecutive.{Consecutive-le, Consecutive-above, above}
use codex_a2a_gateway.Broker.EventLog.Steps.{Writes-IsGapless}

-- The `k` numbers after `n`.
abbrev pub numbers_after : ℕ → ℕ → List ℕ
numbers_after n zero = []
numbers_after n (suc k) = suc n ∷ numbers_after (suc n) k

abbrev pub numbers : List (ℕ × Snapshot) → List ℕ
numbers rows = map (λ row. row.0) rows

-- `rows` are the events of `d` after the cursor, up to `limit`, in the log of `l`.
pub record Delivers {Token : Type 0} (d : String) (after limit : ℕ) (rows : List (ℕ × Snapshot))
    (l : Ledger Token) : Type 0 where
  pub device : Device
  pub found : select_one (of_device d) l.devices ≡ some device
  pub kept : device.floor ≤ after
  pub reached : after ≤ device.sequence
  pub whole : numbers rows ≡ numbers_after after (min limit (device.sequence - after))

module _ {Token : Type 0} where
  select-after :
      (d : String) (n : ℕ) (es : List (Event Token))
      → select (event_after d n) es ≡ select (above n) (select (event_of d) es)
  unfolding select event_after event_of above
  select-after d n [] = refl
  select-after d n (e ∷ es) = ground (arith, select-after d n es)

  insert_event-first :
      (lo hi : ℕ) (e : Event Token) (es : List (Event Token))
      → e.sequence ≡ lo
      → Consecutive lo es hi
      → insert_event e es ≡ e ∷ es
  unfolding insert_event
  insert_event-first lo hi e [] h c = refl
  insert_event-first lo hi e (x ∷ es) h c = ground arith

  sort_events-Consecutive :
      (lo hi : ℕ) (es : List (Event Token)) → Consecutive lo es hi → sort_events es ≡ es
  unfolding sort_events
  sort_events-Consecutive lo hi [] c = refl
  sort_events-Consecutive lo hi (e ∷ es) c =
      rw (sort_events-Consecutive (suc lo) hi es c.1) (insert_event-first (suc lo) hi e es c.0 c.1)

  take-numbers :
      (limit lo hi : ℕ) (es : List (Event Token))
      → Consecutive lo es hi
      → map (λ e. e.sequence) (take limit es) ≡ numbers_after lo (min limit (hi - lo))
  take-numbers zero lo hi es c =
      let none_left : min zero (hi - lo) ≡ 0 = omega arith in rw none_left refl
  take-numbers (suc limit) lo hi [] c =
      let none_left : min (suc limit) (hi - lo) ≡ 0 = omega arith in rw none_left refl
  take-numbers (suc limit) lo hi (e ∷ es) c =
      let room = Consecutive-le (suc lo) hi es c.1 in
      let one_more : min (suc limit) (hi - lo) ≡ suc (min limit (hi - suc lo)) = omega arith in
      rw (one_more, c.0, take-numbers limit (suc lo) hi es c.1) refl

module _ (P : Setup) where
  -- Decryption keeps the numbers.
  decrypt_events-numbers :
      (rows : List (Event P.Token)) (t : Tape) (s : Session (Store P))
      → Ensures
          (decrypt_events P rows)
          t
          s
          (λ out u. (numbers out ≡ map (λ e. e.sequence) rows) × (u ≡ s.store))
  unfolding decrypt_events
  decrypt_events-numbers [] t s = Ensures-pure _ (refl, refl)
  decrypt_events-numbers (e ∷ rows) t s = bind_reads _ _ (decrypt_value-Reads P e.cipher) λ v n k.
      bind_or_raise _ _ _ λ snapshot _.
        Ensures-bind (λ out u. (numbers out ≡ map (λ x. x.sequence) rows) × (u ≡ s.store)) _ _
          (decrypt_events-numbers rows t _)
          (λ out u h. Ensures-pure _ (ap (◌∷◌ e.sequence) h.0, h.1))

  page-numbers :
      (d : String) (after limit : ℕ) (l : Store P) (device : Device)
      → IsGapless l
      → select_one (of_device d) l.devices ≡ some device
      → device.floor ≤ after
      → after ≤ device.sequence
      → map (λ e. e.sequence) (page P d after limit l)
        ≡ numbers_after after (min limit (device.sequence - after))
  unfolding page
  page-numbers d after limit l device g found low high =
      let log = subst (λ o. LogOf o (select (event_of d) l.events)) found (g.of d) in
      let tail = Consecutive-above after device.floor device.sequence _ low high log in
      rw (select-after d after l.events, sort_events-Consecutive after device.sequence _ tail)
        (take-numbers limit after device.sequence _ tail)

  events_body-Delivers :
      (d : String) (after limit : ℕ) (t : Tape) (s : Session (Store P))
      → IsGapless s.store
      → Ensures (events_body P d after limit) t s (λ rows u. Delivers d after limit rows u)
  unfolding events_body
  events_body-Delivers d after limit t s g = bind_lock P nothing d _ λ u w _.
      bind_purge P w d _ λ v w'. bind_gets _ _ (
        bind_or_raise _ _ _ λ device found. bind_require _ _ _ λ low. bind_require _ _ _ λ high.
          bind_gets _ _ (
            Ensures-weaken _ _
              (λ rows x h.
                subst (λ y. Delivers d after limit rows y) (sym h.1)
                  (record {
                    device = device;
                    found = found;
                    kept = leb→le _ _ low;
                    reached = leb→le _ _ high;
                    whole =
                        h.0
                        ∙ page-numbers d after limit v.store device (Writes-IsGapless w' g) found
                            (leb→le _ _ low) (leb→le _ _ high);
                  }))
              (decrypt_events-numbers (page P d after limit v.store) t v)))

-- When `events` returns, the cursor lies between the floor and the sequence of the device, and what
-- is returned are the numbers that follow the cursor, one after the other, up to the limit or the
-- last event: on a ledger with gapless logs no event is skipped.
pub events-Delivers :
    (P : Setup) (d : String) (after limit : ℕ) (t : Tape) (l : Store P) (rows : List (ℕ × Snapshot))
    → IsGapless l
    → (events P d after limit t l).0 ≡ ok rows
    → Delivers d after limit rows (events P d after limit t l).1
unfolding events
events-Delivers P d after limit t l rows g =
    transaction_returns (λ x u. Delivers d after limit x u) (events_body P d after limit) t l rows
      (λ n k. events_body-Delivers P d after limit t _ g)

-- ===== src/Broker/EventLog/Consecutive.antt =====
-- Runs of consecutive events, grown at the end and cut at the front.
use codex_a2a_gateway.Base.{
  Bool-cases, Option-cases, inl, inr, subst, same, eq_iff, In, ℕ, suc, ◌≤◌, ◌<◌, String, ◌≡◌, refl,
  Bool, false, some, List, [], ◌∷◌, arith, ltb, leb, if◌then◌else◌, select, delete, insert,
}
use codex_a2a_gateway.Broker.Model.{Event}
use codex_a2a_gateway.Broker.Rows.{event_of, event_up_to, expired_event_of}
use codex_a2a_gateway.Broker.Events.{max_sequence}
use codex_a2a_gateway.Broker.EventLog.{Consecutive}

module _ {Token : Type 0} where
  pub Consecutive-le : (lo hi : ℕ) (es : List (Event Token)) → Consecutive lo es hi → lo ≤ hi
  Consecutive-le lo hi [] c = omega arith
  Consecutive-le lo hi (e ∷ es) c = omega (arith, Consecutive-le (suc lo) hi es c.1)

  pub Consecutive-insert :
      (lo hi : ℕ) (es : List (Event Token)) (e : Event Token)
      → Consecutive lo es hi
      → e.sequence ≡ suc hi
      → Consecutive lo (insert e es) (suc hi)
  Consecutive-insert lo hi [] e c h = (omega arith, omega arith)
  Consecutive-insert lo hi (x ∷ es) e c h = (c.0, Consecutive-insert (suc lo) hi es e c.1 h)

  -- The events with a number above `n`.
  unfoldable pub above : ℕ → Event Token → Bool
  above n e = ltb n e.sequence

  above_all :
      (n lo hi : ℕ) (es : List (Event Token))
      → n ≤ lo
      → Consecutive lo es hi
      → select (above n) es ≡ es
  unfolding select above
  above_all n lo hi [] h c = refl
  above_all n lo hi (e ∷ es) h c = ground (arith, above_all n (suc lo) hi es (omega arith) c.1)

  pub Consecutive-above :
      (n lo hi : ℕ) (es : List (Event Token))
      → lo ≤ n
      → n ≤ hi
      → Consecutive lo es hi
      → Consecutive n (select (above n) es) hi
  unfolding select above
  Consecutive-above n lo hi [] h k c = omega arith
  Consecutive-above n lo hi (e ∷ es) h k c = elim (Bool-cases (ltb n e.sequence)) [
    | inl hit ↦
        let at_front : lo ≡ n = ground arith in
        rw (hit, above_all n (suc lo) hi es (ground arith) c.1)
          (omega arith, subst (λ m. Consecutive (suc m) es hi) at_front c.1)
    | inr miss ↦ rw miss (Consecutive-above n (suc lo) hi es (ground arith) k c.1)
  ]

  -- Deleting up to `n` keeps what is above.
  pub delete-up_to :
      (d : String) (n : ℕ) (es : List (Event Token))
      → select (event_of d) (delete (event_up_to d n) es)
        ≡ select (above n) (select (event_of d) es)
  unfolding select delete above event_of event_up_to
  delete-up_to d n [] = refl
  delete-up_to d n (e ∷ es) = ground (arith, delete-up_to d n es)

  -- Deleting the events of one device keeps those of another.
  pub delete-other :
      (d d' : String) (n : ℕ) (es : List (Event Token))
      → same d d' ≡ false
      → select (event_of d') (delete (event_up_to d n) es) ≡ select (event_of d') es
  unfolding select delete event_of event_up_to
  delete-other d d' n [] h = refl
  delete-other d d' n (e ∷ es) h =
      ground
        (arith, delete-other d d' n es h, eq_iff d d', eq_iff e.device_id d, eq_iff e.device_id d')

  pub select-insert :
      (p : Event Token → Bool) (es : List (Event Token)) (e : Event Token)
      → select p (insert e es) ≡ (if p e then insert e (select p es) else select p es)
  unfolding select
  select-insert p [] e = ground arith
  select-insert p (x ∷ es) e = ground (arith, select-insert p es e)

  -- The number of an event of the log is above its floor and at most its last number.
  Consecutive-bounds :
      (lo hi : ℕ) (es : List (Event Token)) (e : Event Token)
      → Consecutive lo es hi
      → In e es
      → (lo < e.sequence) × (e.sequence ≤ hi)
  Consecutive-bounds lo hi [] e c m = elim m [ ]
  Consecutive-bounds lo hi (x ∷ es) e c (inl same_event) =
      rw same_event (omega arith, omega (arith, Consecutive-le (suc lo) hi es c.1))
  Consecutive-bounds lo hi (x ∷ es) e c (inr later) =
      let bounds = Consecutive-bounds (suc lo) hi es e c.1 later in (omega arith, omega arith)

  In-max_sequence :
      (es : List (Event Token)) (n : ℕ)
      → max_sequence es ≡ some n
      → (e : Event Token) × In e es × (e.sequence ≡ n)
  unfolding max_sequence
  In-max_sequence [] n h = cc
  In-max_sequence (e ∷ es) n h = elim (Option-cases (max_sequence es)) [
    | inl nothing_else ↦ (e, inl refl, ground arith)
    | inr (m, rest) ↦
        let (x, x_in, x_is) = In-max_sequence es m rest in
        elim (Bool-cases (leb m e.sequence)) [
          | inl first ↦ (e, inl refl, ground arith)
          | inr second ↦ (x, inr x_in, ground arith)
        ]
  ]

  expired-In :
      (d : String) (now : ℕ) (es : List (Event Token)) (e : Event Token)
      → In e (select (expired_event_of d now) es)
      → In e (select (event_of d) es)
  unfolding select expired_event_of event_of
  expired-In d now [] e m = m
  expired-In d now (x ∷ es) e m = ground (arith, expired-In d now es e)

  -- The last expired number is one of the log.
  pub last_expired_bounds :
      (d : String) (now lo hi n : ℕ) (es : List (Event Token))
      → Consecutive lo (select (event_of d) es) hi
      → max_sequence (select (expired_event_of d now) es) ≡ some n
      → (lo < n) × (n ≤ hi)
  last_expired_bounds d now lo hi n es c h =
      let (e, e_in, e_is) = In-max_sequence _ n h in
      let bounds = Consecutive-bounds lo hi _ e c (expired-In d now es e e_in) in
      (omega arith, omega arith)

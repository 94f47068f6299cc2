-- ===== src/Bridge/Waits.antt =====
-- The wait of a tool ends by itself: `wait` and `submit` of hermes_a2a_gateway/client.py.
use codex_a2a_gateway.Base.{
  ℕ, ◌+◌, ◌-◌, ◌*◌, ◌≤◌, ◌<◌, String, ◌≡◌, refl, ◌∙◌, Bool, true, false, Option, none, some, List,
  [], ◌∷◌, leb, ◌||◌, arith, is_some, if◌then◌else◌,
}
use codex_a2a_gateway.Tx.Errors.{Result}
use codex_a2a_gateway.Tx.{Tape}
use codex_a2a_gateway.Client.Model.{NativeOrigin}
use codex_a2a_gateway.Client.Setup.{ClientSetup, ClientStore}
use codex_a2a_gateway.Client.Snapshots.{View, view}
use codex_a2a_gateway.Bridge.Jobs.{
  Outcome, returned, threw, Raised, World, Around, Job, give, throw, call, pause, continue_job,
  ◌>>=◌,
}
use codex_a2a_gateway.Bridge.Tools.{
  Seconds, WaitRound, waited, whole, improper, client_error, stops_waiting, find_own_row,
  validate_wait, await_result, wait_operation, with_release, submit_operation,
}

abbrev pub quiet : Option ℕ → ℕ
quiet none = 1
quiet (some after) = 0

-- How many rounds pause without a change.
abbrev pub quiet_rounds : List WaitRound → ℕ
quiet_rounds [] = 0
quiet_rounds (round ∷ rounds) = quiet round.changed + quiet_rounds rounds

-- A wait that returned a view or raised; the other waits were canceled.
abbrev pub IsEnded : {A : Type 0} → Outcome (Option A) → Type 0
IsEnded (returned none) = ⊥
IsEnded (returned (some a)) = Unit
IsEnded (threw e) = Unit

module _ {P : ClientSetup} where
  -- A job that sends no request.
  record Silent {A : Type 0} (m : Job P A) : Type 0 where
    at : (σ : Around P.Value) (w : World P) → (m σ w).1.sent ≡ w.sent

  -- A job that ends, and sends no request.
  pub record Ends {A : Type 0} (m : Job P (Option A)) : Type 0 where
    pub ended : (σ : Around P.Value) (w : World P) → IsEnded (m σ w).0
    pub silent : (σ : Around P.Value) (w : World P) → (m σ w).1.sent ≡ w.sent

  Silent-give : {A : Type 0} (a : A) → Silent (give a)
  unfolding give
  Silent-give a = record { at = λ σ w. refl }

  Silent-throw : {A : Type 0} (e : Raised) → Silent {A = A} (throw e)
  unfolding throw
  Silent-throw e = record { at = λ σ w. refl }

  Silent-call : {A : Type 0} (f : Tape → ClientStore P → Result A × ClientStore P) → Silent (call f)
  unfolding call
  Silent-call f = record { at = λ σ w. refl }

  Silent-pause : Silent pause
  unfolding pause
  Silent-pause = record { at = λ σ w. refl }

  Silent-if :
      {A : Type 0} (b : Bool) (m m' : Job P A) → Silent m → Silent m' → Silent (if b then m else m')
  Silent-if true m m' k k' = k
  Silent-if false m m' k k' = k'

  Ends-give : {A : Type 0} (a : A) → Ends (give (some a))
  unfolding give
  Ends-give a = record { ended = λ σ w. tt; silent = λ σ w. refl }

  Ends-given : {A B : Type 0} (a : A) (f : A → Job P (Option B)) → Ends (f a) → Ends (give a >>= f)
  unfolding give ◌>>=◌
  Ends-given a f k = record { ended = k.ended; silent = k.silent }

  Ends-thrown : {A B : Type 0} (e : Raised) (f : A → Job P (Option B)) → Ends (throw e >>= f)
  unfolding throw ◌>>=◌
  Ends-thrown e f = record { ended = λ σ w. tt; silent = λ σ w. refl }

  continue_job-Ends :
      {A B : Type 0} (σ : Around P.Value) (f : A → Job P (Option B)) (r : Outcome A) (w : World P)
      → ((a : A) → Ends (f a))
      → IsEnded (continue_job σ f (r, w)).0 × ((continue_job σ f (r, w)).1.sent ≡ w.sent)
  continue_job-Ends σ f (returned a) w k = ((k a).ended σ w, (k a).silent σ w)
  continue_job-Ends σ f (threw e) w k = (tt, refl)

  Ends-then :
      {A B : Type 0} (m : Job P A) (f : A → Job P (Option B))
      → Silent m
      → ((a : A) → Ends (f a))
      → Ends (m >>= f)
  unfolding ◌>>=◌
  Ends-then m f k k' = record {
    ended = λ σ w. (continue_job-Ends σ f (m σ w).0 (m σ w).1 k').0;
    silent = λ σ w. (continue_job-Ends σ f (m σ w).0 (m σ w).1 k').1 ∙ k.at σ w;
  }

  Ends-if :
      {A : Type 0} (b : Bool) (m m' : Job P (Option A))
      → Ends m
      → (b ≡ false → Ends m')
      → Ends (if b then m else m')
  Ends-if true m m' k k' = k
  Ends-if false m m' k k' = k' refl

module _ (P : ClientSetup) (identity : ℕ → String) where
  -- A pause that begins before the deadline ends by then.
  waited_until :
      (deadline time : ℕ) (changed : Option ℕ)
      → leb deadline time ≡ false
      → time + waited (deadline - time) changed ≤ deadline
  unfolding waited
  waited_until deadline time none early = ground arith
  waited_until deadline time (some after) early = ground arith

  -- After a pause before the deadline, the quiet rounds that are left still reach it.
  waited_still :
      (deadline now worked more : ℕ) (changed : Option ℕ)
      → leb deadline (now + worked) ≡ false
      → deadline + 1000 ≤ now + (quiet changed + more) * 1000
      → deadline + 1000
        ≤ ((now + worked) + waited (deadline - (now + worked)) changed) + more * 1000
  unfolding waited
  waited_still deadline now worked more none early enough = ground arith
  waited_still deadline now worked more (some after) early enough = ground arith

  await_result-Ends :
      (origin : NativeOrigin) (o deadline now : ℕ) (rounds : List WaitRound)
      → now ≤ deadline
      → deadline + 1000 ≤ now + quiet_rounds rounds * 1000
      → Ends (await_result P identity origin o deadline now rounds)
  unfolding await_result
  await_result-Ends origin o deadline now [] starts enough = absurd (omega arith)
  await_result-Ends origin o deadline now (round ∷ rounds) starts enough =
      let ends : Ends {P = P} (call (view P o origin true) >>= λ v. give (some v)) =
        Ends-then _ _ (Silent-call _) (λ v. Ends-give v) in
      Ends-then _ _ (Silent-call _) (λ shown.
        Ends-if (is_some shown.snapshot.result_id || stops_waiting shown.submission_state) _ _ ends
          (λ _. Ends-if (leb deadline (now + round.worked)) _ _ ends (λ early.
            Ends-then _ _ Silent-pause (λ _.
              await_result-Ends origin o deadline
                (now + round.worked + waited (deadline - (now + round.worked)) round.changed) rounds
                (waited_until deadline (now + round.worked) round.changed early)
                (waited_still deadline now round.worked (quiet_rounds rounds) round.changed early
                  enough)))))

  validate_wait-Silent : (seconds : Seconds) → Silent (validate_wait P identity seconds)
  unfolding validate_wait
  validate_wait-Silent improper = Silent-throw (client_error "invalid_wait")
  validate_wait-Silent (whole n) =
      Silent-if (leb n 60) _ _ (Silent-give n) (Silent-throw (client_error "invalid_wait"))

  waited_for-Ends :
      (origin : NativeOrigin) (o n started : ℕ) (rounds : List WaitRound)
      → n < quiet_rounds rounds
      → Ends {P = P} (
          find_own_row P identity o origin >>= λ row.
          await_result P identity origin o (started + n * 1000) started rounds)
  waited_for-Ends origin o n started rounds enough = Ends-then _ _ (Silent-call _) (λ row.
      await_result-Ends origin o (started + n * 1000) started rounds (omega arith) (omega arith))

  validated-Ends :
      {A : Type 0} (b : Bool) (n : ℕ) (f : ℕ → Job P (Option A))
      → Ends (f n)
      → Ends ((if b then give n else throw (client_error "invalid_wait")) >>= f)
  validated-Ends true n f k = Ends-given n f k
  validated-Ends false n f k = Ends-thrown _ f

  wait_operation-Ends :
      (origin : NativeOrigin) (o n started : ℕ) (rounds : List WaitRound)
      → n < quiet_rounds rounds
      → Ends (wait_operation P identity origin o (whole n) started rounds)
  unfolding wait_operation validate_wait
  wait_operation-Ends origin o n started rounds enough =
      validated-Ends (leb n 60) n _ (waited_for-Ends origin o n started rounds enough)

  with_release-Ends :
      (o : ℕ) (m : Job P (Option (View P.Value))) → Ends m → Ends (with_release P identity o m)
  unfolding with_release
  with_release-Ends o m k = record { ended = k.ended; silent = k.silent }

  checked-Ends :
      {A : Type 0} (b : Bool) (e : Raised) (m : Job P (Option A))
      → Ends m
      → Ends ((if b then give tt else throw e) >>= λ u. m)
  checked-Ends true e m k = Ends-given tt _ k
  checked-Ends false e m k = Ends-thrown e _

  submit_operation-Ends :
      (origin : NativeOrigin) (prompt : String) (artifact_ids : List String) (n started : ℕ)
      (rounds : List WaitRound)
      → n < quiet_rounds rounds
      → Ends (submit_operation P identity origin prompt artifact_ids (whole n) started rounds)
  unfolding submit_operation validate_wait
  submit_operation-Ends origin prompt artifact_ids n started rounds enough =
      validated-Ends (leb n 60) n _ (
        checked-Ends _ _ _ (
          checked-Ends _ _ _ (
            Ends-then _ _ (Silent-call _)
              (λ o. with_release-Ends o _ (wait_operation-Ends origin o n started rounds enough)))))

-- `submit` and `wait` for at most `n` seconds end where more than `n` of the wait's pauses see no change
-- of the ledger: the tool then returns a view or raises, whatever the ledger, the tapes, the times and
-- the calls of others are; and neither sends a request, for that is left to the daemon's cycles.
pub tools-Ends :
    (P : ClientSetup) (identity : ℕ → String) (origin : NativeOrigin) (prompt : String)
    (artifact_ids : List String) (n started : ℕ) (rounds : List WaitRound)
    → n < quiet_rounds rounds
    → Ends (submit_operation P identity origin prompt artifact_ids (whole n) started rounds)
      × ((o : ℕ) → Ends (wait_operation P identity origin o (whole n) started rounds))
tools-Ends P identity origin prompt artifact_ids n started rounds enough = (
  submit_operation-Ends P identity origin prompt artifact_ids n started rounds enough,
  λ o. wait_operation-Ends P identity origin o n started rounds enough,
)

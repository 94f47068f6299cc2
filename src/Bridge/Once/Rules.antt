-- ===== src/Bridge/Once/Rules.antt =====
-- The steps of a job keep the log of requests free of repetition.
use codex_a2a_gateway.Base.{
  ℕ, suc, ◌≡◌, refl, sym, subst, Bool, true, false, List, [], ◌∷◌, In, if◌then◌else◌,
}
use codex_a2a_gateway.Histories.{NoRepeat}
use codex_a2a_gateway.Tx.Errors.{broker, value_error, key_error, internal, Result}
use codex_a2a_gateway.Tx.{Tape}
use codex_a2a_gateway.Client.Setup.{ClientSetup, ClientStore}
use codex_a2a_gateway.Client.Calls.{client_run}
use codex_a2a_gateway.Client.Onward.{Onward}
use codex_a2a_gateway.Client.Onward.Histories.{client_run-Onward}
use codex_a2a_gateway.Client.Enqueued.{IsBegun-Onward}
use codex_a2a_gateway.Bridge.Jobs.{
  Sent, Outcome, returned, threw, Raised, http_error, canceled, python, World, Around, Job, give,
  throw, call, look, write, caught, tried, ask_broker, ask_queue, pause, note_reconciled,
  continue_job, ◌>>=◌, for_each, check_status,
}
use codex_a2a_gateway.Bridge.Once.{enqueues, cancels, IsAsked-Onward, IsOnce}

-- A request that neither enqueues nor cancels.
abbrev pub IsQuiet : Sent → Type 0
IsQuiet (Sent.enqueue o thread delivery result) = ⊥
IsQuiet (Sent.cancel o) = ⊥
IsQuiet _ = Unit

quiet-enqueues : (s : Sent) (log : List Sent) → IsQuiet s → enqueues (s ∷ log) ≡ enqueues log
quiet-enqueues (Sent.get o) log q = refl
quiet-enqueues (Sent.cancel o) log q = elim q [ ]
quiet-enqueues (Sent.submit command) log q = refl
quiet-enqueues (Sent.receipt row) log q = refl
quiet-enqueues (Sent.enqueue o thread delivery result) log q = elim q [ ]
quiet-enqueues (Sent.reconcile o thread delivery result) log q = refl

quiet-cancels : (s : Sent) (log : List Sent) → IsQuiet s → cancels (s ∷ log) ≡ cancels log
quiet-cancels (Sent.get o) log q = refl
quiet-cancels (Sent.cancel o) log q = elim q [ ]
quiet-cancels (Sent.submit command) log q = refl
quiet-cancels (Sent.receipt row) log q = refl
quiet-cancels (Sent.enqueue o thread delivery result) log q = elim q [ ]
quiet-cancels (Sent.reconcile o thread delivery result) log q = refl

module _ {P : ClientSetup} where
  -- A job keeps the log and the ledger together.
  pub record Keeps {A : Type 0} (m : Job P A) : Type 0 where
    pub at : (σ : Around P.Value) (w : World P) → IsOnce w → IsOnce (m σ w).1

  -- The ledger moves on, and the log stays.
  pub moved-IsOnce :
      (w : World P) (u : ClientStore P) (reconciled : List ℕ) (steps : ℕ)
      → Onward w.store u
      → IsOnce w
      → IsOnce {P = P} (record { store = u; sent = w.sent; reconciled = reconciled; steps = steps })
  moved-IsOnce w u reconciled steps onward i = record {
    enqueued = i.enqueued;
    begun = λ o m. IsBegun-Onward o w.store u onward (i.begun o m);
    canceled = i.canceled;
    asked = λ o m. IsAsked-Onward o w.store u onward (i.asked o m);
  }

  relog-IsOnce :
      (w : World P) (log : List Sent)
      → enqueues log ≡ enqueues w.sent
      → cancels log ≡ cancels w.sent
      → IsOnce w
      → IsOnce {P = P} (record w { sent = log })
  relog-IsOnce w log e c i = record {
    enqueued = subst NoRepeat (sym e) i.enqueued;
    begun = λ o m. i.begun o (subst (In o) e m);
    canceled = subst NoRepeat (sym c) i.canceled;
    asked = λ o m. i.asked o (subst (In o) c m);
  }

  quiet-IsOnce :
      (s : Sent) (w : World P) (u : ClientStore P) (steps : ℕ)
      → IsQuiet s
      → Onward w.store u
      → IsOnce w
      → IsOnce {P = P}
          (record { store = u; sent = s ∷ w.sent; reconciled = w.reconciled; steps = steps })
  quiet-IsOnce s w u steps q onward i =
      relog-IsOnce (record { store = u; sent = w.sent; reconciled = w.reconciled; steps = steps })
        (s ∷ w.sent) (quiet-enqueues s w.sent q) (quiet-cancels s w.sent q)
        (moved-IsOnce w u w.reconciled steps onward i)

  pub Keeps-give : {A : Type 0} (a : A) → Keeps (give a)
  unfolding give
  Keeps-give a = record { at = λ σ w i. i }

  pub Keeps-throw : {A : Type 0} (e : Raised) → Keeps {A = A} (throw e)
  unfolding throw
  Keeps-throw e = record { at = λ σ w i. i }

  pub Keeps-look : {A : Type 0} (f : ClientStore P → A) → Keeps (look f)
  unfolding look
  Keeps-look f = record { at = λ σ w i. i }

  pub Keeps-call :
      {A : Type 0} (f : Tape → ClientStore P → Result A × ClientStore P)
      → ((t : Tape) (l : ClientStore P) → Onward l (f t l).1)
      → Keeps (call f)
  unfolding call
  Keeps-call f onward = record {
    at = λ σ w i.
        moved-IsOnce w (f (σ.tape w.steps) w.store).1 w.reconciled (suc w.steps)
          (onward (σ.tape w.steps) w.store) i;
  }

  pub Keeps-write :
      (f : ClientStore P → ClientStore P) → ((l : ClientStore P) → Onward l (f l)) → Keeps (write f)
  unfolding write
  Keeps-write f onward = record {
    at = λ σ w i. moved-IsOnce w (f w.store) w.reconciled w.steps (onward w.store) i;
  }

  pub Keeps-ask_broker : (s : Sent) → IsQuiet s → Keeps (ask_broker s)
  unfolding ask_broker
  Keeps-ask_broker s q = record {
    at = λ σ w i.
        quiet-IsOnce s w (client_run P (σ.others w.steps) w.store) (suc w.steps) q
          (client_run-Onward P (σ.others w.steps) w.store) i;
  }

  pub Keeps-ask_queue : (s : Sent) → IsQuiet s → Keeps (ask_queue s)
  unfolding ask_queue
  Keeps-ask_queue s q = record {
    at = λ σ w i.
        quiet-IsOnce s w (client_run P (σ.others w.steps) w.store) (suc w.steps) q
          (client_run-Onward P (σ.others w.steps) w.store) i;
  }

  pub Keeps-pause : Keeps pause
  unfolding pause
  Keeps-pause = record {
    at = λ σ w i.
        moved-IsOnce w (client_run P (σ.others w.steps) w.store) w.reconciled (suc w.steps)
          (client_run-Onward P (σ.others w.steps) w.store) i;
  }

  pub Keeps-note_reconciled : (o : ℕ) → Keeps (note_reconciled o)
  unfolding note_reconciled
  Keeps-note_reconciled o = record {
    at = λ σ w i. record {
      enqueued = i.enqueued;
      begun = i.begun;
      canceled = i.canceled;
      asked = i.asked;
    };
  }

  pub continue_job-IsOnce :
      {A B : Type 0} (σ : Around P.Value) (f : A → Job P B) (r : Outcome A) (w : World P)
      → ((a : A) → Keeps (f a))
      → IsOnce w
      → IsOnce (continue_job σ f (r, w)).1
  continue_job-IsOnce σ f (returned a) w k i = (k a).at σ w i
  continue_job-IsOnce σ f (threw e) w k i = i

  pub Keeps-then :
      {A B : Type 0} (m : Job P A) (f : A → Job P B)
      → Keeps m
      → ((a : A) → Keeps (f a))
      → Keeps (m >>= f)
  unfolding ◌>>=◌
  Keeps-then m f k k' = record {
    at = λ σ w i. continue_job-IsOnce σ f (m σ w).0 (m σ w).1 k' (k.at σ w i);
  }

  pub caught-IsOnce :
      {A : Type 0} (r : Outcome A) (w : World P) → IsOnce w → IsOnce (caught (r, w)).1
  caught-IsOnce (returned a) w i = i
  caught-IsOnce (threw http_error) w i = i
  caught-IsOnce (threw canceled) w i = i
  caught-IsOnce (threw (python (value_error m))) w i = i
  caught-IsOnce (threw (python (broker e))) w i = i
  caught-IsOnce (threw (python (key_error m))) w i = i
  caught-IsOnce (threw (python internal)) w i = i

  pub Keeps-tried : {A : Type 0} (m : Job P A) → Keeps m → Keeps (tried m)
  unfolding tried
  Keeps-tried m k = record { at = λ σ w i. caught-IsOnce (m σ w).0 (m σ w).1 (k.at σ w i) }

  pub Keeps-if :
      {A : Type 0} (b : Bool) (m m' : Job P A) → Keeps m → Keeps m' → Keeps (if b then m else m')
  Keeps-if true m m' k k' = k
  Keeps-if false m m' k k' = k'

  pub Keeps-for_each :
      {A : Type 0} (f : A → Job P (Unit {0})) (items : List A)
      → ((a : A) → Keeps (f a))
      → Keeps (for_each f items)
  unfolding for_each
  Keeps-for_each f [] k = Keeps-give tt
  Keeps-for_each f (a ∷ items) k = Keeps-then (f a) _ (k a) (λ _. Keeps-for_each f items k)

  pub Keeps-check_status : (status : ℕ) → Keeps (check_status status)
  unfolding check_status
  Keeps-check_status status = Keeps-if _ _ _ (Keeps-give tt) (Keeps-throw http_error)

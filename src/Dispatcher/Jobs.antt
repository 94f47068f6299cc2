-- ===== src/Dispatcher/Jobs.antt =====
-- Jobs of the dispatcher (hermes_a2a_gateway/broker.py): sequences of calls of the store, each its
-- own transaction, between which any other calls may happen. What a call has written stays written
-- when a later one raises.
use codex_a2a_gateway.Base.{ℕ, suc, List}
use codex_a2a_gateway.Tx.Errors.{Error, Result, ok, err}
use codex_a2a_gateway.Tx.{Tape}
use codex_a2a_gateway.Broker.Setup.{Setup}
use codex_a2a_gateway.Broker.Snapshots.{Store}
use codex_a2a_gateway.Broker.Calls.{Call, run}

-- What happens around a job: the tape of its n-th call, and the calls of others before it.
pub record Surroundings : Type 0 where
  pub tape : ℕ → Tape
  pub others : ℕ → List (Tape × Call)

module _ (P : Setup) where
  -- The ledger, and how many calls the job has made.
  pub record World : Type 0 where
    pub store : Store P
    pub calls : ℕ

  abbrev pub Job : Type 0 → Type 0
  Job A = Surroundings → World → Result A × World

module _ {P : Setup} {A : Type 0} where
  unfoldable pub give : A → Job P A
  give a σ w = (ok a, w)

  unfoldable pub fail : Error → Job P A
  fail e σ w = (err e, w)

  abbrev pub answered : ℕ → Result A × Store P → Result A × World P
  answered n (r, l) = (r, record { store = l; calls = n })

  -- A call of the store, after what others did.
  unfoldable pub ask : (Tape → Store P → Result A × Store P) → Job P A
  ask f σ w = answered (suc w.calls) (f (σ.tape w.calls) (run P (σ.others w.calls) w.store))

  -- try: ... except: the exception as a value.
  abbrev pub reified : Result A × World P → Result (Result A) × World P
  reified (r, w) = (ok r, w)

  unfoldable pub tried : Job P A → Job P (Result A)
  tried m σ w = reified (m σ w)

module _ {P : Setup} {A B : Type 0} where
  abbrev pub continue_job : Surroundings → (A → Job P B) → Result A × World P → Result B × World P
  continue_job σ f (ok a, w) = f a σ w
  continue_job σ f (err e, w) = (err e, w)

  unfoldable pub and_then : Job P A → (A → Job P B) → Job P B
  and_then m f σ w = continue_job σ f (m σ w)

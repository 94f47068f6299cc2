-- ===== src/Bridge/Jobs.antt =====
-- Jobs of the client's daemon (hermes_a2a_gateway/client.py): calls of the ledger, which nothing
-- interrupts, and requests, during which any other calls of the ledger may happen. What the broker and
-- the host's queue answer is given by the surroundings.
use codex_a2a_gateway.Base.{
  ℕ, suc, String, ◌&&◌, if◌then◌else◌, ltb, leb, List, [], ◌∷◌, Option, none, some,
}
use codex_a2a_gateway.Tx.Errors.{Error, value_error, Result, ok, err}
use codex_a2a_gateway.Tx.{Tape}
use codex_a2a_gateway.Client.Model.{Command, ClientReceipt, Incoming}
use codex_a2a_gateway.Client.Setup.{ClientSetup, ClientStore}
use codex_a2a_gateway.Client.Calls.{ClientCall, client_run}

-- A request: to the broker, or to the host's queue for a thread, a delivery and a result.
pub data Sent : Type 0 where
  get cancel : ℕ → Sent
  submit : Command → Sent
  receipt : ClientReceipt → Sent
  enqueue reconcile : ℕ → String → Option ℕ → Option String → Sent

-- An answer of the broker: httpx.HTTPError, a status and a body, which is none where it is no JSON
-- object, or none, since the daemon was canceled before.
pub data Answer (Value : Type 0) : Type 0 where
  failed dropped : Answer Value
  replied : ℕ → Option (Incoming Value) → Answer Value

-- What `enqueue` and `reconcile` return or raise: a queue identity, none, NativeUnsupported,
-- NativeOutcomeUnknown, or CancelledError.
pub data QueueAnswer : Type 0 where
  accepted : String → QueueAnswer
  absent unsupported outcome_unknown dropped : QueueAnswer

-- What a job raises.
pub data Raised : Type 0 where
  http_error canceled : Raised
  python : Error → Raised

pub data Outcome (A : Type 0) : Type 0 where
  returned : A → Outcome A
  threw : Raised → Outcome A

-- Around the n-th step of a job: its tape, the calls of others during a request, and the answers.
pub record Around (Value : Type 0) : Type 0 where
  pub tape : ℕ → Tape
  pub others : ℕ → List (Tape × ClientCall Value)
  pub http : ℕ → Answer Value
  pub queue : ℕ → QueueAnswer

module _ (P : ClientSetup) where
  -- The ledger, the requests so far, the last first, `_unknown_reconciled`, and the steps made.
  pub record World : Type 0 where
    pub store : ClientStore P
    pub sent : List Sent
    pub reconciled : List ℕ
    pub steps : ℕ

  abbrev pub Job : Type 0 → Type 0
  Job A = Around P.Value → World → Outcome A × World

abbrev pub outcome_of : {A : Type 0} → Result A → Outcome A
outcome_of (ok a) = returned a
outcome_of (err e) = threw (python e)

module _ {P : ClientSetup} {A : Type 0} where
  unfoldable pub give : A → Job P A
  give a σ w = (returned a, w)

  unfoldable pub throw : Raised → Job P A
  throw e σ w = (threw e, w)

  abbrev pub stepped : World P → Result A × ClientStore P → Outcome A × World P
  stepped w (r, l) = (outcome_of r, record w { store = l; steps = suc w.steps })

  -- A call of the ledger.
  unfoldable pub call : (Tape → ClientStore P → Result A × ClientStore P) → Job P A
  call f σ w = stepped w (f (σ.tape w.steps) w.store)

  unfoldable pub look : (ClientStore P → A) → Job P A
  look f σ w = (returned (f w.store), w)

  -- try: ... except (httpx.HTTPError, ValueError), as none.
  abbrev pub caught : Outcome A × World P → Outcome (Option A) × World P
  caught (returned a, w) = (returned (some a), w)
  caught (threw http_error, w) = (returned none, w)
  caught (threw (python (value_error m)), w) = (returned none, w)
  caught (threw e, w) = (threw e, w)

  unfoldable pub tried : Job P A → Job P (Option A)
  tried m σ w = caught (m σ w)

module _ {P : ClientSetup} where
  -- A write of the ledger that raises nothing.
  unfoldable pub write : (ClientStore P → ClientStore P) → Job P (Unit {0})
  write f σ w = (returned tt, record w { store = f w.store })

  -- The request is out before others act.
  abbrev pub after_request : Around P.Value → Sent → World P → World P
  after_request σ s w = record w {
    store = client_run P (σ.others w.steps) w.store;
    sent = s ∷ w.sent;
    steps = suc w.steps;
  }

  unfoldable pub ask_broker : Sent → Job P (Answer P.Value)
  ask_broker s σ w = (returned (σ.http w.steps), after_request σ s w)

  unfoldable pub ask_queue : Sent → Job P QueueAnswer
  ask_queue s σ w = (returned (σ.queue w.steps), after_request σ s w)

  -- A wait, during which others act.
  unfoldable pub pause : Job P (Unit {0})
  pause σ w = (
    returned tt,
    record w { store = client_run P (σ.others w.steps) w.store; steps = suc w.steps },
  )

  unfoldable pub note_reconciled : ℕ → Job P (Unit {0})
  note_reconciled o σ w = (returned tt, record w { reconciled = o ∷ w.reconciled })

module _ {P : ClientSetup} {A B : Type 0} where
  abbrev pub continue_job :
      Around P.Value → (A → Job P B) → Outcome A × World P → Outcome B × World P
  continue_job σ f (returned a, w) = f a σ w
  continue_job σ f (threw e, w) = (threw e, w)

  infixl 5 ◌>>=◌
  unfoldable pub ◌>>=◌ : Job P A → (A → Job P B) → Job P B
  ◌>>=◌ m f σ w = continue_job σ f (m σ w)

module _ {P : ClientSetup} where
  infixl 5 ◌>>◌
  abbrev pub ◌>>◌ : {B : Type 0} → Job P (Unit {0}) → Job P B → Job P B
  m >> k = m >>= λ _. k

  -- for item in items.
  unfoldable pub for_each : {A : Type 0} → (A → Job P (Unit {0})) → List A → Job P (Unit {0})
  for_each f [] = give tt
  for_each f (a ∷ items) = f a >>= λ _. for_each f items

  -- response.raise_for_status().
  unfoldable pub check_status : ℕ → Job P (Unit {0})
  check_status status = if leb 200 status && ltb status 300 then give tt else throw http_error

-- ===== src/Tx.antt =====
-- Transactions of the ledger (`BrokerStore.transaction` in hermes_a2a_gateway/broker_store.py): a
-- body reads the clock, draws random identities, reads and writes the tables, and may raise. What
-- it wrote before it raised is rolled back.
pub mod Errors
pub mod Ensures
pub mod Reads
pub mod Rules
use codex_a2a_gateway.Base.{ℕ, suc, Bool, true, false, Option, none, some, if◌then◌else◌}
use Errors.{Result, ok, err, Error, broker}

-- What the world answers during one transaction: the readings of `utcnow()` and the draws of
-- `uuid.uuid4()` and of the cipher's random vectors, each in the order of the calls.
pub record Tape : Type 0 where
  pub clock : ℕ → ℕ
  pub random : ℕ → ℕ

pub record Session (S : Type 0) : Type 0 where
  pub store : S
  pub reads : ℕ
  pub draws : ℕ

abbrev pub Tx : Type 0 → Type 0 → Type 0
Tx S A = Tape → Session S → Result (A × Session S)

module _ {S A : Type 0} where
  unfoldable pub pure : A → Tx S A
  pure a t s = ok (a, s)

  unfoldable pub raise : Error → Tx S A
  raise e t s = err e

  unfoldable pub gets : (S → A) → Tx S A
  gets f t s = ok (f s.store, s)

  unfoldable pub or_raise : Error → Option A → Tx S A
  or_raise e none t s = err e
  or_raise e (some a) t s = ok (a, s)

module _ {S : Type 0} where
  unfoldable pub modify : (S → S) → Tx S (Unit {0})
  modify f t s = ok (tt, record s { store = f s.store })

  unfoldable pub utcnow : Tx S ℕ
  utcnow t s = ok (t.clock s.reads, record s { reads = suc s.reads })

  unfoldable pub draw : Tx S ℕ
  draw t s = ok (t.random s.draws, record s { draws = suc s.draws })

  unfoldable pub require : Bool → Error → Tx S (Unit {0})
  require true e t s = ok (tt, s)
  require false e t s = err e

module _ {S A B : Type 0} where
  abbrev pub resume : Tape → (A → Tx S B) → Result (A × Session S) → Result (B × Session S)
  resume t f (ok (a, s)) = f a t s
  resume t f (err e) = err e

  infixl 10 ◌>>=◌ ◌>>◌
  unfoldable pub ◌>>=◌ : Tx S A → (A → Tx S B) → Tx S B
  ◌>>=◌ m f t s = resume t f (m t s)

  abbrev pub ◌>>◌ : Tx S A → Tx S B → Tx S B
  m >> n = m >>= λ _. n

module _ {S A : Type 0} where
  abbrev pub commit : S → Result (A × Session S) → Result A × S
  commit s (ok (a, u)) = (ok a, u.store)
  commit s (err e) = (err e, s)

  -- `with self.transaction()`: commit on return, roll back on an exception.
  unfoldable pub transaction : Tx S A → Tape → S → Result A × S
  transaction m t s = commit s (m t (record { store = s; reads = 0; draws = 0 }))

  abbrev pub caught : Session S → Result (A × Session S) → Result (Option A × Session S)
  caught s (ok (a, u)) = ok (some a, u)
  caught s (err (broker e)) = ok (none, s)
  caught s (err e) = err e

  -- try: ... except BrokerError, around reads only. The readings of a caught body are read again.
  unfoldable pub attempt : Tx S A → Tx S (Option A)
  attempt m t s = caught s (m t s)

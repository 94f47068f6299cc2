-- ===== src/Api/Replies.antt =====
-- Replies of the routes of `create_broker_app` (hermes_a2a_gateway/broker.py), and `db`, which each
-- route asks for the ledger.
use codex_a2a_gateway.Base.{ℕ, String, Bool, true, Option, none, some, List, if◌then◌else◌}
use codex_a2a_gateway.Tx.Errors.{Code, BrokerError, Error, broker, Result, ok, err, broker_error}
use codex_a2a_gateway.Tx.{Tape}
use codex_a2a_gateway.Broker.Model.{Descriptor, Snapshot}
use codex_a2a_gateway.Broker.Setup.{Setup}
use codex_a2a_gateway.Broker.Snapshots.{Store}

-- `ReceiptRequest`.
pub record ReceiptRequest : Type 0 where
  pub operation_id : ℕ
  pub result_id : ℕ
  pub status : String

pub data Body : Type 0 where
  snapshot : Snapshot → Body
  descriptor : Descriptor → Body
  bytes : Descriptor → List ℕ → Body
  batch : List (ℕ × Snapshot) → Body
  done : Body
  problem : BrokerError → Body

pub record Response : Type 0 where
  pub status : ℕ
  pub body : Body

-- A response, or an exception that leaves the application as a server error.
unfoldable pub error_response : Error → Result Response
error_response (broker e) = ok (record { status = e.status; body = Body.problem e })
error_response e = err e

module _ {A : Type 0} where
  unfoldable pub respond : (A → Response) → Result A → Result Response
  unfolding error_response
  respond f (ok a) = ok (f a)
  respond f (err e) = error_response e

-- What `db` looks at: whether the ledger is there, and whether the dispatcher's task, where there is
-- one, has ended.
pub record Service : Type 0 where
  pub has_ledger : Bool
  pub worker_done : Option Bool

abbrev pub stopped : Option Bool → Option Error
stopped (some true) =
    some (broker_error Code.dispatcher_stopped "broker dispatcher stopped; restart is required" 503)
stopped _ = none

unfoldable pub db : Service → Option Error
db s =
    if s.has_ledger
    then stopped s.worker_done
    else some (broker_error Code.ledger_unavailable "broker ledger is not initialized" 503)

abbrev pub invalid_request : String → Error
invalid_request m = broker_error Code.invalid_request m 400

abbrev pub invalid_id : String → Error
invalid_id m = broker_error Code.invalid_id m 400

module _ (P : Setup) where
  abbrev pub Reply : Type 0
  Reply = Tape → Store P → Result Response × Store P

  -- A request that is refused before the store is called.
  unfoldable pub refuse_request : Error → Reply
  unfolding error_response
  refuse_request e t l = (error_response e, l)

  module _ {A : Type 0} where
    -- await asyncio.to_thread(...), and the response to what it returned or raised.
    unfoldable pub answer : (A → Response) → (Tape → Store P → Result A × Store P) → Reply
    unfolding respond
    answer f call t l = let out = call t l in (respond f out.0, out.1)

  -- The body, or the refusal of it, and its parse.
  unfoldable pub with_body : Result (List ℕ) → (List ℕ → Reply) → Reply
  with_body (ok body) k = k body
  with_body (err e) k = refuse_request e

  unfoldable pub with_parsed : {A : Type 0} → Error → Option A → (A → Reply) → Reply
  with_parsed e none k = refuse_request e
  with_parsed e (some a) k = k a

  -- db(), before the store is called.
  unfoldable pub with_db : Service → Reply → Reply
  unfolding db
  with_db service k = elim (db service) [ none ↦ k | some e ↦ refuse_request e ]

unfoldable pub accepted_response : Snapshot × Bool → Response
accepted_response (s, created) = record {
  status = if created then 202 else 200;
  body = Body.snapshot s;
}

unfoldable pub snapshot_response : Snapshot → Response
snapshot_response s = record { status = 200; body = Body.snapshot s }

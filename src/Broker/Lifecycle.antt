-- ===== src/Broker/Lifecycle.antt =====
-- How an operation may change over a history (hermes_a2a_gateway/broker_store.py): its state only
-- moves forward, and what was settled stays.
pub mod Keyed
pub mod Steps
use codex_a2a_gateway.Base.{
  ℕ, ◌<◌, ◌≤◌, String, ◌≡◌, refl, ap, ◌∙◌, Bool, true, false, Option, none, some, List, arith,
  select_one,
}
use codex_a2a_gateway.Broker.Model.{State, Operation, is_final}
use codex_a2a_gateway.Broker.Rows.{of_operation}
use codex_a2a_gateway.Broker.Finish.{has_handle}

-- accepted, then running, then of unknown outcome, then final.
unfoldable pub rank : State → ℕ
rank State.accepted = 0
rank State.running = 1
rank State.outcome_unknown = 2
rank State.completed = 3
rank State.failed = 3
rank State.canceled = 3

-- What a final operation keeps.
pub record SameOutcome {Token : Type 0} (old new : Operation Token) : Type 0 where
  pub state : new.state ≡ old.state
  pub error_code : new.error_code ≡ old.error_code
  pub error_message : new.error_message ≡ old.error_message
  pub result_expires_at : new.result_expires_at ≡ old.result_expires_at
  pub updated_at : new.updated_at ≡ old.updated_at

-- `new` is a later version of the operation `old`.
pub record Later {Token : Type 0} (old new : Operation Token) : Type 0 where
  pub flow_id : new.flow_id ≡ old.flow_id
  pub digest : new.digest ≡ old.digest
  pub created_at : new.created_at ≡ old.created_at
  pub onward : rank old.state ≤ rank new.state
  pub settled : is_final old.state ≡ true → SameOutcome old new
  pub result_id : (id : ℕ) → old.result_id ≡ some id → new.result_id ≡ some id
  pub handle : has_handle old.remote_task_id ≡ true → new.remote_task_id ≡ old.remote_task_id
  pub requested : old.cancel_requested ≡ true → new.cancel_requested ≡ true
  pub claimed : old.cancel_claimed ≡ true → new.cancel_claimed ≡ true

module _ {Token : Type 0} where
  -- Every operation of `rows` has a later version in `rows'`.
  abbrev pub Follows : List (Operation Token) → List (Operation Token) → Type 0
  Follows rows rows' =
      (d : String) (o : ℕ) (old : Operation Token)
      → select_one (of_operation d o) rows ≡ some old
      → (new : Operation Token) × (select_one (of_operation d o) rows' ≡ some new) × Later old new

  pub Later-refl : (row : Operation Token) → Later row row
  Later-refl row = record {
    flow_id = refl;
    digest = refl;
    created_at = refl;
    onward = omega arith;
    settled = λ _. record {
      state = refl;
      error_code = refl;
      error_message = refl;
      result_expires_at = refl;
      updated_at = refl;
    };
    result_id = λ id e. e;
    handle = λ _. refl;
    requested = λ e. e;
    claimed = λ e. e;
  }

  SameOutcome-trans :
      {a b c : Operation Token} → SameOutcome a b → SameOutcome b c → SameOutcome a c
  SameOutcome-trans p q = record {
    state = q.state ∙ p.state;
    error_code = q.error_code ∙ p.error_code;
    error_message = q.error_message ∙ p.error_message;
    result_expires_at = q.result_expires_at ∙ p.result_expires_at;
    updated_at = q.updated_at ∙ p.updated_at;
  }

  pub Later-trans : {a b c : Operation Token} → Later a b → Later b c → Later a c
  Later-trans {a} {b} {c} p q = record {
    flow_id = q.flow_id ∙ p.flow_id;
    digest = q.digest ∙ p.digest;
    created_at = q.created_at ∙ p.created_at;
    onward = omega arith;
    settled = λ final.
        SameOutcome-trans (p.settled final)
          (q.settled (ap is_final (p.settled final).state ∙ final));
    result_id = λ id e. q.result_id id (p.result_id id e);
    handle = λ e. q.handle (ap has_handle (p.handle e) ∙ e) ∙ p.handle e;
    requested = λ e. q.requested (p.requested e);
    claimed = λ e. q.claimed (p.claimed e);
  }

  pub Follows-refl : (rows : List (Operation Token)) → Follows rows rows
  Follows-refl rows d o old found = (old, found, Later-refl old)

  pub Follows-trans :
      (rows rows' rows'' : List (Operation Token))
      → Follows rows rows'
      → Follows rows' rows''
      → Follows rows rows''
  Follows-trans rows rows' rows'' f g d o old found =
      let (mid, found', p) = f d o old found in
      let (new, found'', q) = g d o mid found' in (new, found'', Later-trans p q)

-- ===== src/Api/Guarded.antt =====
-- What a request can do to the ledger (`create_broker_app` of hermes_a2a_gateway/broker.py).
use codex_a2a_gateway.Base.{ℕ, String, ◌≡◌, refl, ◌⊎◌, inl, inr, Option, none, some, List}
use codex_a2a_gateway.Tx.Errors.{BrokerError, Error, Result, ok, err}
use codex_a2a_gateway.Tx.{Tape}
use codex_a2a_gateway.Tx.Ensures.{transaction_rolls_back}
use codex_a2a_gateway.Broker.Setup.{Setup}
use codex_a2a_gateway.Broker.Snapshots.{Store}
use codex_a2a_gateway.Broker.Accept
use codex_a2a_gateway.Broker.Artifacts
use codex_a2a_gateway.Broker.Cancel
use codex_a2a_gateway.Broker.Events
use codex_a2a_gateway.Broker.Calls.{Call, perform}
use codex_a2a_gateway.Broker.Spec.{Writes}
use codex_a2a_gateway.Broker.Refines.Histories.{perform-Writes}
use codex_a2a_gateway.Api.Authentication.{
  Scope, AuthenticationSettings, Verdict, Presents, authenticate, authenticate-Presents,
}
use codex_a2a_gateway.Api.Bodies.{bounded_body}
use codex_a2a_gateway.Api.Replies.{
  Body, Response, respond, Service, db, Reply, refuse_request, answer, with_db, with_body,
  with_parsed, accepted_response, snapshot_response,
}
use codex_a2a_gateway.Api.Handlers.{
  valid_cursor, post_operation, get_operation, cancel_operation, post_receipt, get_events,
  post_artifact, get_artifact, health, Endpoint, Bodies, route, after_verdict, serve_request,
}

-- The answer is no error.
abbrev pub IsSuccess : Result Response → Type 0
IsSuccess (ok r) = (p : BrokerError) → ¬ (r.body ≡ Body.problem p)
IsSuccess (err e) = ⊥

module _ (P : Setup) (service : Service) where
  -- Either nothing has changed, or the service runs, the answer is no error, and the changes are
  -- writes of the specification.
  abbrev pub Changes : Store P → Result Response × Store P → Type 0
  Changes l (r, u) = (u ≡ l) ⊎ ((db service ≡ none) × IsSuccess r × Writes P l u)

  pub record IsGuarded (k : Reply P) : Type 0 where
    pub at : (t : Tape) (l : Store P) → Changes l (k t l)

  refuse-IsGuarded : (e : Error) → IsGuarded (refuse_request P e)
  unfolding refuse_request
  refuse-IsGuarded e = record { at = λ t l. inl refl }

  body-IsGuarded :
      (r : Result (List ℕ)) (k : List ℕ → Reply P)
      → ((body : List ℕ) → IsGuarded (k body))
      → IsGuarded (with_body P r k)
  unfolding with_body
  body-IsGuarded (ok body) k h = h body
  body-IsGuarded (err e) k h = refuse-IsGuarded e

  parsed-IsGuarded :
      {A : Type 0} (e : Error) (o : Option A) (k : A → Reply P)
      → ((a : A) → IsGuarded (k a))
      → IsGuarded (with_parsed P e o k)
  unfolding with_parsed
  parsed-IsGuarded e none k h = refuse-IsGuarded e
  parsed-IsGuarded e (some a) k h = h a

  db-IsGuarded : (k : Reply P) → (db service ≡ none → IsGuarded k) → IsGuarded (with_db P service k)
  unfolding with_db
  db-IsGuarded k h = looked (db service) h
    where
      looked :
          (o : Option Error)
          → (o ≡ none → IsGuarded k)
          → IsGuarded (elim o [ none ↦ k | some e ↦ refuse_request P e ])
      looked none h' = h' refl
      looked (some e) h' = refuse-IsGuarded e

  module _ {A : Type 0} where
    answered-Changes :
        (f : A → Response) (l : Store P) (out : Result A × Store P)
        → db service ≡ none
        → ((a : A) → IsSuccess (ok (f a)))
        → ((e : Error) → out.0 ≡ err e → out.1 ≡ l)
        → Writes P l out.1
        → Changes l (respond f out.0, out.1)
    unfolding respond
    answered-Changes f l (ok a, u) runs fine back w = inr (runs, fine a, w)
    answered-Changes f l (err e, u) runs fine back w = inl (back e refl)

    answer_running :
        db service ≡ none
        → (f : A → Response) (call : Tape → Store P → Result A × Store P)
        → ((a : A) → IsSuccess (ok (f a)))
        → ((t : Tape) (l : Store P) (e : Error) → (call t l).0 ≡ err e → (call t l).1 ≡ l)
        → ((t : Tape) (l : Store P) → Writes P l (call t l).1)
        → IsGuarded (answer P f call)
    unfolding answer
    answer_running runs f call fine back w = record {
      at = λ t l. answered-Changes f l (call t l) runs fine (back t l) (w t l);
    }

    -- A transaction that is answered.
    answer-IsGuarded :
        (f : A → Response) (call : Tape → Store P → Result A × Store P)
        → ((a : A) → IsSuccess (ok (f a)))
        → ((t : Tape) (l : Store P) (e : Error) → (call t l).0 ≡ err e → (call t l).1 ≡ l)
        → ((t : Tape) (l : Store P) → Writes P l (call t l).1)
        → IsGuarded (with_db P service (answer P f call))
    unfolding answer
    answer-IsGuarded f call fine back w =
        db-IsGuarded (answer P f call) λ runs. record {
          at = λ t l. answered-Changes f l (call t l) runs fine (back t l) (w t l);
        }

module _ (P : Setup) (B : Bodies) (service : Service) where
  route-IsGuarded : (e : Endpoint) (d : String) → IsGuarded P service (route P B service e d)
  unfolding route post_operation get_operation cancel_operation post_receipt get_events
      post_artifact get_artifact perform accepted_response snapshot_response Accept.accept
      Accept.get Cancel.cancel_intent Events.receipt Events.events Artifacts.put_artifact
      Artifacts.artifact
  route-IsGuarded (Endpoint.submit chunks) d =
      body-IsGuarded P service (bounded_body B.max_request_bytes chunks) _ λ body.
        parsed-IsGuarded P service _ (B.parse_operation body) _ λ command.
          answer-IsGuarded P service accepted_response (Accept.accept P d command) (λ a p e. cc)
            (λ t l e. transaction_rolls_back _ t l e)
            (λ t l. perform-Writes P (Call.accept d command) t l)
  route-IsGuarded (Endpoint.receive chunks) d =
      body-IsGuarded P service (bounded_body 4096 chunks) _ λ body.
        parsed-IsGuarded P service _ (B.parse_receipt body) _ λ c.
          answer-IsGuarded P service _ (Events.receipt P d c.operation_id c.result_id c.status)
            (λ a p e. cc) (λ t l e. transaction_rolls_back _ t l e)
            (λ t l. perform-Writes P (Call.receipt d c.operation_id c.result_id c.status) t l)
  route-IsGuarded (Endpoint.read id) d = db-IsGuarded P service _ λ runs.
      parsed-IsGuarded P service _ id _ λ o.
        answer_running P service runs snapshot_response (Accept.get P d o) (λ a p e. cc)
          (λ t l e. transaction_rolls_back _ t l e) (λ t l. perform-Writes P (Call.get d o) t l)
  route-IsGuarded (Endpoint.cancel id) d = db-IsGuarded P service _ λ runs.
      parsed-IsGuarded P service _ id _ λ o.
        answer_running P service runs (λ x. snapshot_response x.0) (Cancel.cancel_intent P d o)
          (λ a p e. cc) (λ t l e. transaction_rolls_back _ t l e)
          (λ t l. perform-Writes P (Call.cancel_intent d o) t l)
  route-IsGuarded (Endpoint.download id) d = parsed-IsGuarded P service _ id _ λ a.
      answer-IsGuarded P service _ (Artifacts.artifact P d a) (λ a p e. cc)
        (λ t l e. transaction_rolls_back _ t l e) (λ t l. perform-Writes P (Call.artifact d a) t l)
  route-IsGuarded (Endpoint.follow cursor) d =
      parsed-IsGuarded P service _ (valid_cursor cursor) _ λ after.
        answer-IsGuarded P service _ (Events.events P d after 100) (λ a p e. cc)
          (λ t l e. transaction_rolls_back _ t l e)
          (λ t l. perform-Writes P (Call.events d after 100) t l)
  route-IsGuarded (Endpoint.upload chunks digest kind) d =
      body-IsGuarded P service (bounded_body P.max_artifact_bytes chunks) _ λ body.
        answer-IsGuarded P service _ (Artifacts.put_artifact P d body digest kind) (λ a p e. cc)
          (λ t l e. transaction_rolls_back _ t l e)
          (λ t l. perform-Writes P (Call.put_artifact d body digest kind) t l)

module _ (P : Setup) (service : Service) where
  -- Where the request has changed something, a device has shown its token.
  abbrev pub ChangesAs :
      AuthenticationSettings → Scope → Store P → Result Response × Store P → Type 0
  ChangesAs settings scope l (r, u) =
      (u ≡ l)
      ⊎ ((d : String) × Presents settings scope d
          × (db service ≡ none)
          × IsSuccess r
          × Writes P l u)

  as_device_Changes :
      (settings : AuthenticationSettings) (scope : Scope) (l : Store P)
      (out : Result Response × Store P) (d : String)
      → Presents settings scope d
      → Changes P service l out
      → ChangesAs settings scope l out
  as_device_Changes settings scope l out d shown (inl kept) = inl kept
  as_device_Changes settings scope l out d shown (inr (runs, fine, written)) =
      inr (d, shown, runs, fine, written)

-- A request for any route, whatever the service's state: unless the ledger stays as it was, the request
-- presents the token of a device as `DeviceAuthentication` wants it, the ledger is there and the
-- dispatcher has not ended, the answer is no error, and the changes are writes of the specification.
-- An error, also one that the store raises in the middle of a transaction, leaves the ledger
-- unchanged.
pub serve_request-ChangesAs :
    (P : Setup) (B : Bodies) (service : Service) (settings : AuthenticationSettings) (scope : Scope)
    (e : Endpoint) (t : Tape) (l : Store P)
    → ChangesAs P service settings scope l (serve_request P B service settings scope e t l)
unfolding serve_request health with_db refuse_request
serve_request-ChangesAs P B service settings scope e t l =
    decided (authenticate settings scope) refl
  where
    health_reply : Option Error → Reply P
    health_reply o = elim o [
      | none ↦ (λ t' l'. (ok (record { status = 200; body = Body.done }), l'))
      | some x ↦ refuse_request P x
    ]

    unchanged : (o : Option Error) → (health_reply o t l).1 ≡ l
    unchanged none = refl
    unchanged (some x) = refl

    decided :
        (v : Verdict)
        → authenticate settings scope ≡ v
        → ChangesAs P service settings scope l (after_verdict P B service v e t l)
    decided Verdict.open_route h = inl (unchanged (db service))
    decided (Verdict.as_device d) h =
        as_device_Changes P service settings scope l _ d (authenticate-Presents settings scope d h)
          ((route-IsGuarded P B service e d).at t l)
    decided (Verdict.refused x) h = inl refl

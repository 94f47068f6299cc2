-- ===== src/Dispatcher/Closing.antt =====
-- The jobs that end a dispatcher (`aclose` of hermes_a2a_gateway/broker.py) make writes of the
-- specification alone.
use codex_a2a_gateway.Base.{ℕ, String, Option, List, [], ◌∷◌, if◌then◌else◌}
use codex_a2a_gateway.Broker.Model.{Snapshot}
use codex_a2a_gateway.Broker.Setup.{Setup}
use codex_a2a_gateway.Broker.Accept.{get}
use codex_a2a_gateway.Broker.Finish.{finish}
use codex_a2a_gateway.Broker.Calls.{Call, perform}
use codex_a2a_gateway.Broker.Refines.Histories.{perform-Writes}
use codex_a2a_gateway.Broker.Dispatches.{Key}
use codex_a2a_gateway.Dispatcher.Jobs.{Job, give, ask}
use codex_a2a_gateway.Dispatcher.Observe.{mark_unknown, submission_unknown}
use codex_a2a_gateway.Dispatcher.Submit.{is_running_state, close_streams}
use codex_a2a_gateway.Dispatcher.Written.{
  Written, Written-give, Written-if, Written-ask, Written-then,
}

module _ (P : Setup) (b64decode : String → Option (List ℕ))
    (read_instant : String → Option String) where
  pub mark_unknown-Written :
      (d : String) (o : ℕ) → Written P (mark_unknown P b64decode read_instant d o)
  unfolding mark_unknown perform
  mark_unknown-Written d o =
      Written-then P _ _
        (Written-ask P (finish P d o submission_unknown)
          (λ t l. perform-Writes P (Call.finish d o submission_unknown) t l))
        (λ _. Written-give P tt)

  pub get-Written : (d : String) (o : ℕ) → Written P (ask (get P d o))
  unfolding perform
  get-Written d o = Written-ask P (get P d o) (λ t l. perform-Writes P (Call.get d o) t l)

  -- What is done with the snapshot of a job's operation.
  abbrev pub closing : String → ℕ → Snapshot → Job P (Unit {0})
  closing d o snapshot =
      if is_running_state snapshot.state then mark_unknown P b64decode read_instant d o else give tt

  pub closing-Written :
      (d : String) (o : ℕ) (snapshot : Snapshot) → Written P (closing d o snapshot)
  closing-Written d o snapshot =
      Written-if P (is_running_state snapshot.state) _ _ (mark_unknown-Written d o)
        (Written-give P tt)

  pub close_streams-Written :
      (keys : List Key) → Written P (close_streams P b64decode read_instant keys)
  unfolding close_streams
  close_streams-Written [] = Written-give P tt
  close_streams-Written ((d, o) ∷ keys) = Written-then P _ _ (get-Written d o) λ snapshot.
      Written-then P _ _ (closing-Written d o snapshot) (λ _. close_streams-Written keys)

-- ===== src/Broker/Calls.antt =====
-- Histories of the ledger: the public methods of `BrokerStore`
-- (hermes_a2a_gateway/broker_store.py) as calls, each with what the world answers during it.
use codex_a2a_gateway.Base.{ℕ, String, Bool, false, List, [], ◌∷◌}
use codex_a2a_gateway.Tx.{Tape}
use codex_a2a_gateway.Broker.Model.{Request}
use codex_a2a_gateway.Broker.Setup.{Setup}
use codex_a2a_gateway.Broker.Snapshots.{Store}
use codex_a2a_gateway.Broker.Artifacts
use codex_a2a_gateway.Broker.Accept
use codex_a2a_gateway.Broker.Finish
use codex_a2a_gateway.Broker.Finish.{Ending}
use codex_a2a_gateway.Broker.Dispatch
use codex_a2a_gateway.Broker.Cancel
use codex_a2a_gateway.Broker.Events

pub data Call : Type 0 where
  acquire_dispatcher : Bool → Call
  accept : String → Request → Call
  get : String → ℕ → Call
  claim : Call
  finish : String → ℕ → Ending → Call
  save_handle : String → ℕ → String → Call
  recover : Call
  reconcilable : Call
  cancel_intent : String → ℕ → Call
  claim_cancel : Call
  events : String → ℕ → ℕ → Call
  receipt : String → ℕ → ℕ → String → Call
  put_artifact : String → List ℕ → ℕ → String → Call
  artifact : String → ℕ → Call
  purge : Call

-- The ledger of a new database.
abbrev pub empty : (P : Setup) → Store P
empty P = record {
  devices = [];
  operations = [];
  payloads = [];
  outbox = [];
  events = [];
  artifacts = [];
  receipts = [];
  dispatcher = false;
}

module _ (P : Setup) where
  -- The ledger after a call, whether it returned or raised.
  unfoldable pub perform : Call → Tape → Store P → Store P
  perform (acquire_dispatcher granted) t l = (Dispatch.acquire_dispatcher P granted t l).1
  perform (accept d req) t l = (Accept.accept P d req t l).1
  perform (get d o) t l = (Accept.get P d o t l).1
  perform claim t l = (Dispatch.claim P t l).1
  perform (finish d o e) t l = (Finish.finish P d o e t l).1
  perform (save_handle d o h) t l = (Finish.save_handle P d o h t l).1
  perform recover t l = (Finish.recover P t l).1
  perform reconcilable t l = (Dispatch.reconcilable P t l).1
  perform (cancel_intent d o) t l = (Cancel.cancel_intent P d o t l).1
  perform claim_cancel t l = (Cancel.claim_cancel P t l).1
  perform (events d after limit) t l = (Events.events P d after limit t l).1
  perform (receipt d o result status) t l = (Events.receipt P d o result status t l).1
  perform (put_artifact d bytes digest kind) t l =
      (Artifacts.put_artifact P d bytes digest kind t l).1
  perform (artifact d a) t l = (Artifacts.artifact P d a t l).1
  perform purge t l = (Events.purge P t l).1

  unfoldable pub run : List (Tape × Call) → Store P → Store P
  run [] l = l
  run ((t, c) ∷ calls) l = run calls (perform c t l)

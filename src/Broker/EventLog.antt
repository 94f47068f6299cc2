-- ===== src/Broker/EventLog.antt =====
-- The event log of a device (hermes_a2a_gateway/broker_store.py): what it holds, and what a reader
-- gets of it.
pub mod Consecutive
pub mod Steps
pub mod Reader
use codex_a2a_gateway.Base.{
  ℕ, suc, String, ◌≡◌, Option, none, some, List, [], ◌∷◌, select_one, select,
}
use codex_a2a_gateway.Broker.Model.{Device, Event, Ledger}
use codex_a2a_gateway.Broker.Rows.{of_device, event_of}

module _ {Token : Type 0} where
  -- The events carry the numbers from `low + 1` to `high`, each once and in this order.
  abbrev pub Consecutive : ℕ → List (Event Token) → ℕ → Type 0
  Consecutive low [] high = low ≡ high
  Consecutive low (e ∷ events) high = (e.sequence ≡ suc low) × Consecutive (suc low) events high

  -- The events of a device follow on from its floor up to its sequence; a device that is not in the
  -- ledger has none.
  abbrev pub LogOf : Option Device → List (Event Token) → Type 0
  LogOf none events = events ≡ []
  LogOf (some device) events = Consecutive device.floor events device.sequence

  pub record IsGapless (l : Ledger Token) : Type 0 where
    pub of :
        (d : String) → LogOf (select_one (of_device d) l.devices) (select (event_of d) l.events)

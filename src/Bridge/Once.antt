-- ===== src/Bridge/Once.antt =====
-- The daemon of hermes_a2a_gateway/client.py enqueues no result twice, and asks for no cancellation twice.
pub mod Rules
pub mod Exchange
pub mod Handing
pub mod Canceling
pub mod Runs
use codex_a2a_gateway.Base.{ℕ, ◌≡◌, refl, Bool, true, Option, some, List, [], ◌∷◌, is_some, In}
use codex_a2a_gateway.Histories.{NoRepeat}
use codex_a2a_gateway.Client.Model.{ClientOperation, ClientLedger}
use codex_a2a_gateway.Client.Setup.{ClientSetup, ClientStore}
use codex_a2a_gateway.Client.Onward.{seek, Onward}
use codex_a2a_gateway.Client.Enqueued.{IsBegun}
use codex_a2a_gateway.Bridge.Jobs.{Sent, World}

-- The operations whose results were enqueued, and those whose cancellation was asked for, the last first.
abbrev pub enqueues : List Sent → List ℕ
enqueues [] = []
enqueues (Sent.enqueue o thread delivery result ∷ log) = o ∷ enqueues log
enqueues (Sent.get o ∷ log) = enqueues log
enqueues (Sent.cancel o ∷ log) = enqueues log
enqueues (Sent.submit command ∷ log) = enqueues log
enqueues (Sent.receipt row ∷ log) = enqueues log
enqueues (Sent.reconcile o thread delivery result ∷ log) = enqueues log

abbrev pub cancels : List Sent → List ℕ
cancels [] = []
cancels (Sent.cancel o ∷ log) = o ∷ cancels log
cancels (Sent.get o ∷ log) = cancels log
cancels (Sent.enqueue o thread delivery result ∷ log) = cancels log
cancels (Sent.submit command ∷ log) = cancels log
cancels (Sent.receipt row ∷ log) = cancels log
cancels (Sent.reconcile o thread delivery result ∷ log) = cancels log

module _ {Token Value : Type 0} where
  -- The cancellation of the operation has been asked for.
  abbrev pub IsAsked : ℕ → ClientLedger Token Value → Type 0
  IsAsked o l =
      (row : ClientOperation Token Value) × (seek o l.operations ≡ some row)
      × (is_some row.cancel_state ≡ true)

  pub IsAsked-Onward :
      (o : ℕ) (l u : ClientLedger Token Value) → Onward l u → IsAsked o l → IsAsked o u
  IsAsked-Onward o l u onward (row, found, asked) =
      let (new, found', later) = onward.rows o row found in (new, found', later.asked asked)

pub record IsOnce {P : ClientSetup} (w : World P) : Type 0 where
  pub enqueued : NoRepeat (enqueues w.sent)
  pub begun : (o : ℕ) → In o (enqueues w.sent) → IsBegun o w.store
  pub canceled : NoRepeat (cancels w.sent)
  pub asked : (o : ℕ) → In o (cancels w.sent) → IsAsked o w.store

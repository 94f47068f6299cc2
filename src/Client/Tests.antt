-- ===== src/Client/Tests.antt =====
-- The theorems applied to a small client and its history, and a test of the deliveries.
use codex_a2a_gateway.Base.{◌≡◌, refl, [], ◌∷◌}
use codex_a2a_gateway.Histories.{NoRepeat}
use codex_a2a_gateway.Client.Calls.{client_run, new_client}
use codex_a2a_gateway.Client.Onward.{Onward}
use codex_a2a_gateway.Client.Onward.Histories.{client_run-Onward}
use codex_a2a_gateway.Client.Enqueued.{enqueued, enqueued-NoRepeat}
use codex_a2a_gateway.Client.Demo.{small_client, client_history, client_computing}

-- The result is handed to the queue once.
enqueued_test : enqueued small_client client_history (new_client small_client) ≡ 31 ∷ []
unfolding client_computing
enqueued_test = refl

client_run-Onward_example :
    Onward
      (new_client small_client)
      (client_run small_client client_history (new_client small_client))
client_run-Onward_example = client_run-Onward small_client client_history (new_client small_client)

enqueued-NoRepeat_example :
    NoRepeat (enqueued small_client client_history (new_client small_client))
enqueued-NoRepeat_example = enqueued-NoRepeat small_client client_history (new_client small_client)

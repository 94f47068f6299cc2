-- ===== src/Client/Setup.antt =====
-- What a client is set up with: the bounds of `ClientSettings`
-- (hermes_a2a_gateway/client_settings.py), and the code that it calls and does not contain: JSON
-- values, the Fernet cipher and SHA-256, as parameters.
use codex_a2a_gateway.Base.{ℕ, String, ◌≡◌, Bool, Option, some, List}
use codex_a2a_gateway.Client.Model.{Command, ClientOperation, ClientLedger}

pub record ClientSettings : Type 0 where
  pub retention_seconds : ℕ
  pub payload_ttl_seconds : ℕ
  pub max_pending : ℕ

pub record ClientSetup : Type 1 where
  pub settings : ClientSettings
  pub open settings use *
  -- JSON values, with `None` and `==`.
  pub Value : Type 0
  pub null : Value
  pub same_value : Value → Value → Bool
  -- Fernet under the configured key, as for the broker.
  pub Token : Type 0
  pub encrypt : ℕ → Command → Token
  pub decrypt : Token → Option Command
  pub decrypt-encrypt : (iv : ℕ) (v : Command) → decrypt (encrypt iv v) ≡ some v
  -- hashlib.sha256(canonical({"prompt": prompt, "artifact_ids": artifact_ids})).
  pub digest : String → List String → ℕ

abbrev pub ClientStore : ClientSetup → Type 0
ClientStore P = ClientLedger P.Token P.Value

abbrev pub ClientRow : ClientSetup → Type 0
ClientRow P = ClientOperation P.Token P.Value

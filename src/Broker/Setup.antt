-- ===== src/Broker/Setup.antt =====
-- What a broker is set up with: the bounds of `BrokerSettings`
-- (hermes_a2a_gateway/broker_settings.py), and the code that it calls and does not contain: the
-- Fernet cipher, SHA-256 and the JSON encoder, as parameters.
use codex_a2a_gateway.Base.{ℕ, ◌≡◌, Option, some, List}
use codex_a2a_gateway.Broker.Model.{Plain, Request, Outcome}

pub record BrokerSettings : Type 0 where
  pub payload_ttl_seconds : ℕ
  pub artifact_ttl_seconds : ℕ
  pub event_ttl_seconds : ℕ
  pub result_ttl_seconds : ℕ
  pub max_artifact_bytes : ℕ
  pub device_quota_bytes : ℕ
  pub max_pending_per_device : ℕ
  pub max_result_bytes : ℕ
  pub max_concurrent_streams : ℕ

pub record Setup : Type 1 where
  pub settings : BrokerSettings
  pub open settings use *
  pub Token : Type 0
  -- Fernet under the configured key: `encrypt` takes the random vector of the call, and `decrypt`
  -- is `none` where the library raises `InvalidToken`, or the JSON decoder `ValueError`.
  pub encrypt : ℕ → Plain → Token
  pub decrypt : Token → Option Plain
  pub decrypt-encrypt : (iv : ℕ) (v : Plain) → decrypt (encrypt iv v) ≡ some v
  -- hashlib.sha256(canonical(request)) and hashlib.sha256(content), as numbers.
  pub request_digest : Request → ℕ
  pub content_digest : List ℕ → ℕ
  -- len(canonical(result)).
  pub outcome_size : Outcome → ℕ

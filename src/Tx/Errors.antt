-- ===== src/Tx/Errors.antt =====
-- Exceptions: `BrokerError` of hermes_a2a_gateway/broker_store.py with its error codes, and the
-- Python errors that the modelled code raises.
use codex_a2a_gateway.Base.{ℕ, String, Option, none}

-- The codes of `BrokerError` and of the `error_code` column, spelled as in the source.
pub data Code : Type 0 where
  dispatcher_active dispatcher_required encryption_error not_found id_conflict : Code
  admission_full invalid_artifacts unsupported_artifact artifacts_too_large : Code
  payload_expired artifact_expired result_expired result_too_large restart_unknown : Code
  invalid_peer_handle peer_handle_conflict cancel_unconfirmed retention_gap : Code
  invalid_cursor invalid_receipt result_conflict artifact_too_large digest_mismatch : Code
  invalid_content_type artifact_quota artifact_corrupt submission_unknown : Code
  peer_requires_input peer_rejected unsupported_peer_artifact invalid_peer_artifact : Code
  https_required unauthorized request_too_large invalid_id invalid_request : Code
  ledger_unavailable dispatcher_stopped : Code

pub record BrokerError : Type 0 where
  pub code : Code
  pub message : String
  pub status : ℕ
  pub resume_after : Option ℕ

-- `internal` is any other Python exception, such as a failed `assert`.
pub data Error : Type 0 where
  broker : BrokerError → Error
  value_error : String → Error
  key_error : String → Error
  internal : Error

abbrev pub broker_error : Code → String → ℕ → Error
broker_error c m n = broker (record { code = c; message = m; status = n; resume_after = none })

pub data Result {ℓ} (A : Type ℓ) : Type ℓ where
  ok : A → Result A
  err : Error → Result A

-- ===== src/Broker/Artifacts.antt =====
-- Artifacts: `_artifact`, `artifact` and `put_artifact` of hermes_a2a_gateway/broker_store.py.
use codex_a2a_gateway.Base.{
  ℕ, ◌+◌, String, ◌&&◌, Option, none, some, List, [], ◌∷◌, length, leb, ◌==◌, select_one, select,
  delete, insert,
}
use codex_a2a_gateway.Tx.Errors.{Code, Result, broker_error}
use codex_a2a_gateway.Tx.{
  Tape, Tx, pure, gets, or_raise, modify, utcnow, draw, require, ◌>>=◌, ◌>>◌, transaction,
}
use codex_a2a_gateway.Broker.Model.{Plain, Descriptor, Artifact}
use codex_a2a_gateway.Broker.Setup.{Setup}
use codex_a2a_gateway.Broker.Rows.{live_artifact, artifact_of, expired_artifact_of}
use codex_a2a_gateway.Broker.Content.{is_content_type}
use codex_a2a_gateway.Broker.Snapshots.{Store, lock_device, encrypt_value}

unfoldable pub descriptor : {Token : Type 0} → Artifact Token → Descriptor
descriptor row = record {
  artifact_id = row.artifact_id;
  sha256 = row.sha256;
  size = row.size;
  content_type = row.content_type;
  expires_at = row.expires_at;
}

-- SELECT COALESCE(sum(size),0).
unfoldable pub total_size : {Token : Type 0} → List (Artifact Token) → ℕ
total_size [] = 0
total_size (row ∷ rows) = row.size + total_size rows

unfoldable pub as_content : Option Plain → Option (List ℕ)
as_content (some (Plain.content bytes)) = some bytes
as_content _ = none

module _ (P : Setup) where
  -- `_artifact`.
  unfoldable pub read_artifact : String → ℕ → Tx (Store P) (Descriptor × List ℕ)
  unfolding as_content
  read_artifact d a = do
    now ← utcnow
    rows ← gets (λ l. l.artifacts)
    row ←
        or_raise (broker_error Code.not_found "artifact not found or expired" 404)
          (select_one (live_artifact d a now) rows)
    bytes ←
        or_raise (broker_error Code.encryption_error "stored artifact cannot be decrypted" 503)
          (as_content (P.decrypt row.cipher))
    require ((length bytes == row.size) && (P.content_digest bytes == row.sha256))
        (broker_error Code.artifact_corrupt "stored artifact integrity check failed" 503)
    pure (descriptor row, bytes)

  unfoldable pub artifact : String → ℕ → Tape → Store P → Result (Descriptor × List ℕ) × Store P
  artifact d a = transaction (read_artifact d a)

  -- The INSERT of `put_artifact`, with the quota test before it.
  unfoldable pub store_artifact : String → List ℕ → ℕ → String → Tx (Store P) Descriptor
  store_artifact d bytes digest content_type = do
    lock_device P d
    now ← utcnow
    modify (λ l. record l { artifacts = delete (expired_artifact_of d now) l.artifacts })
    rows ← gets (λ l. l.artifacts)
    require (leb (total_size (select (artifact_of d) rows) + length bytes) P.device_quota_bytes)
        (broker_error Code.artifact_quota "device artifact quota exceeded" 429)
    id ← draw
    cipher ← encrypt_value P (Plain.content bytes)
    later ← utcnow
    let row : Artifact P.Token = record {
      device_id = d;
      artifact_id = id;
      sha256 = digest;
      size = length bytes;
      content_type = content_type;
      cipher = cipher;
      expires_at = later + P.artifact_ttl_seconds;
    }
    modify (λ l. record l { artifacts = insert row l.artifacts })
    pure (descriptor row)

  unfoldable pub put_artifact :
      String → List ℕ → ℕ → String → Tape → Store P → Result Descriptor × Store P
  put_artifact d bytes digest content_type = transaction do
    require (leb (length bytes) P.max_artifact_bytes)
        (broker_error Code.artifact_too_large "artifact exceeds configured size limit" 413)
    require (P.content_digest bytes == digest)
        (broker_error Code.digest_mismatch "artifact digest does not match bytes" 422)
    require (is_content_type content_type)
        (broker_error Code.invalid_content_type "invalid artifact content type" 400)
    store_artifact d bytes digest content_type

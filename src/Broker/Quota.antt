-- ===== src/Broker/Quota.antt =====
-- The artifact quota of `put_artifact` (hermes_a2a_gateway/broker_store.py), over histories.
use codex_a2a_gateway.Base.{
  ℕ, ◌+◌, ◌≤◌, String, ◌≡◌, subst, Bool, List, [], ◌∷◌, arith, Bool-cases, inl, inr, same, eq_iff,
  if◌then◌else◌, select, delete, insert,
}
use codex_a2a_gateway.Tx.{Tape}
use codex_a2a_gateway.Broker.Model.{Artifact, Ledger}
use codex_a2a_gateway.Broker.Setup.{Setup}
use codex_a2a_gateway.Broker.Rows.{artifact_of}
use codex_a2a_gateway.Broker.Snapshots.{Store, add_device, append_event}
use codex_a2a_gateway.Broker.Artifacts.{total_size}
use codex_a2a_gateway.Broker.Events.{drop_expired}
use codex_a2a_gateway.Broker.Calls.{Call, run, empty}
use codex_a2a_gateway.Broker.Spec.{ArtifactWrite, Write, Writes, nothing, then_write}
use codex_a2a_gateway.Broker.Refines.Histories.{run-Writes}

-- The bytes that the device `d` stores.
abbrev pub stored_bytes : {Token : Type 0} → String → List (Artifact Token) → ℕ
stored_bytes d rows = total_size (select (artifact_of d) rows)

-- Each device stores at most `quota` bytes.
abbrev pub IsWithin : {Token : Type 0} → ℕ → List (Artifact Token) → Type 0
IsWithin quota rows = (d : String) → stored_bytes d rows ≤ quota

module _ {Token : Type 0} where
  stored_bytes-insert :
      (d : String) (row : Artifact Token) (rows : List (Artifact Token))
      → stored_bytes d (insert row rows)
        ≡ stored_bytes d rows + (if same row.device_id d then row.size else 0)
  unfolding total_size select artifact_of
  stored_bytes-insert d row [] = ground arith
  stored_bytes-insert d row (x ∷ rows) = ground (arith, stored_bytes-insert d row rows)

  stored_bytes-delete :
      (d : String) (p : Artifact Token → Bool) (rows : List (Artifact Token))
      → stored_bytes d (delete p rows) ≤ stored_bytes d rows
  unfolding total_size select delete
  stored_bytes-delete d p [] = omega arith
  stored_bytes-delete d p (x ∷ rows) = ground (arith, stored_bytes-delete d p rows)

  store-IsWithin :
      (quota : ℕ) (row : Artifact Token) (rows : List (Artifact Token))
      → IsWithin quota rows
      → stored_bytes row.device_id rows + row.size ≤ quota
      → IsWithin quota (insert row rows)
  store-IsWithin quota row rows within fits d = elim (Bool-cases (same row.device_id d)) [
    | inl hit ↦
        let same_device : row.device_id ≡ d = ground (arith, eq_iff row.device_id d) in
        let fits' : stored_bytes d rows + row.size ≤ quota =
          subst (λ e. stored_bytes e rows + row.size ≤ quota) same_device fits in
        ground (arith, stored_bytes-insert d row rows)
    | inr miss ↦ ground (arith, stored_bytes-insert d row rows, within d)
  ]

  ArtifactWrite-IsWithin :
      {quota : ℕ} {rows rows' : List (Artifact Token)}
      → ArtifactWrite quota rows rows'
      → IsWithin quota rows
      → IsWithin quota rows'
  ArtifactWrite-IsWithin {quota} {rows} (ArtifactWrite.store row fits) within =
      store-IsWithin quota row rows within fits
  ArtifactWrite-IsWithin {quota} {rows} (ArtifactWrite.expire p) within =
      λ d. omega (arith, stored_bytes-delete d p rows, within d)

  artifacts-add_device : (d : String) (l : Ledger Token) → (add_device d l).artifacts ≡ l.artifacts
  unfolding add_device
  artifacts-add_device d l = ground arith

  artifacts-drop_expired :
      (d : String) (now : ℕ) (l : Ledger Token) → (drop_expired d now l).artifacts ≡ l.artifacts
  unfolding drop_expired
  artifacts-drop_expired d now l = ground arith

module _ {P : Setup} where
  Write-IsWithin :
      {l l' : Store P}
      → Write P l l'
      → IsWithin P.device_quota_bytes l.artifacts
      → IsWithin P.device_quota_bytes l'.artifacts
  unfolding append_event
  Write-IsWithin (Write.artifact w) within = ArtifactWrite-IsWithin w within
  Write-IsWithin {l} (Write.device d) within = rw (artifacts-add_device d l) within
  Write-IsWithin {l} (Write.retire d now) within = rw (artifacts-drop_expired d now l) within
  Write-IsWithin _ within = within

  Writes-IsWithin :
      {l l' : Store P}
      → Writes P l l'
      → IsWithin P.device_quota_bytes l.artifacts
      → IsWithin P.device_quota_bytes l'.artifacts
  Writes-IsWithin nothing within = within
  Writes-IsWithin (then_write w x) within = Write-IsWithin x (Writes-IsWithin w within)

-- After any history of a new ledger, the artifacts that a device stores hold at most the bytes of
-- the device's quota, in total.
pub run-IsWithin :
    (P : Setup) (calls : List (Tape × Call))
    → IsWithin P.device_quota_bytes (run P calls (empty P)).artifacts
unfolding total_size select
run-IsWithin P calls = Writes-IsWithin (run-Writes P calls (empty P)) (λ d. omega arith)

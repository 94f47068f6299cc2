-- ===== src/Broker/Refines/Admission.antt =====
-- `accept`, `put_artifact` and the reading transactions.
use codex_a2a_gateway.Base.{
  ℕ, String, ◌≡◌, refl, true, Option, none, some, List, ◌<◌, arith, ltb, leb→le, select_one,
  select_count,
}
use codex_a2a_gateway.Tx.{Tape, Session}
use codex_a2a_gateway.Tx.Ensures.{Ensures, Ensures-pure, Ensures-bind, transaction_relates}
use codex_a2a_gateway.Tx.Reads.{Reads-keeps, bind_reads}
use codex_a2a_gateway.Tx.Rules.{bind_gets, bind_require, bind_modify, bind_utcnow, bind_draw}
use codex_a2a_gateway.Broker.Model.{Request, Operation}
use codex_a2a_gateway.Broker.Setup.{Setup}
use codex_a2a_gateway.Broker.Rows.{of_operation, pending_of}
use codex_a2a_gateway.Broker.Snapshots.{Store}
use codex_a2a_gateway.Broker.Artifacts.{artifact, put_artifact, store_artifact}
use codex_a2a_gateway.Broker.Accept.{accept, accept_body, admit, replay, insert_operation, get}
use codex_a2a_gateway.Broker.Spec.{
  OperationWrite, ArtifactWrite, Write, Writes, nothing, then_write,
}
use codex_a2a_gateway.Broker.Refines.Reading.{
  encrypt_value-Reads, bind_encrypt, snapshot_of-Reads, read_artifact-Reads, input_bytes-Reads,
  bind_row,
}
use codex_a2a_gateway.Broker.Refines.Ends.{record_event-Writes, bind_lock}

below_bound : (a b : ℕ) → ltb a b ≡ true → a < b
below_bound a b h = ground arith

module _ (P : Setup) {l : Store P} {t : Tape} {s : Session (Store P)} (w : Writes P l s.store)
    (d : String) (req : Request) (digest : ℕ) where
  insert_operation-Writes :
      select_one (of_operation d req.operation_id) s.store.operations ≡ none
      → select_count (pending_of d) s.store.operations < P.max_pending_per_device
      → Ensures (insert_operation P d req digest) t s (λ _ u. Writes P l u)
  unfolding insert_operation
  insert_operation-Writes absent room = bind_utcnow _ λ now. bind_modify _ _ (
      bind_encrypt P _ _ λ iv. bind_modify _ _ (
        bind_modify _ _ (
          record_event-Writes P
            (then_write
              (then_write
                (then_write w (Write.operation (OperationWrite.admit d req digest now absent room)))
                (Write.payload d req iv _))
              (Write.outbox _))
            d req.operation_id)))

module _ (P : Setup) {l : Store P} {t : Tape} {s : Session (Store P)} (w : Writes P l s.store)
    (d : String) (req : Request) (digest : ℕ) where
  admit-Writes :
      select_one (of_operation d req.operation_id) s.store.operations ≡ none
      → Ensures (admit P d req digest) t s (λ _ u. Writes P l u)
  unfolding admit
  admit-Writes absent = bind_gets _ _ (
      bind_require _ _ _ λ room. bind_require _ _ _ λ _.
        bind_reads _ _ (input_bytes-Reads P d _ _) λ total n k. bind_require _ _ _ λ _.
          Ensures-bind (λ _ u. Writes P l u) _ _
            (insert_operation-Writes P w d req digest absent (below_bound _ _ room))
            (λ _ u w'. Ensures-pure _ w'))

module _ (P : Setup) {l : Store P} {t : Tape} {s : Session (Store P)} (w : Writes P l s.store)
    (d : String) (digest : ℕ) where
  replay-Writes :
      (previous : Operation P.Token) → Ensures (replay P previous digest) t s (λ _ u. Writes P l u)
  unfolding replay
  replay-Writes previous =
      bind_require _ _ _
        λ _. bind_reads _ _ (snapshot_of-Reads P previous) (λ _ n k. Ensures-pure _ w)

module _ (P : Setup) {l : Store P} {t : Tape} (d : String) where
  answer_Writes :
      (req : Request) (s : Session (Store P)) (found : Option (Operation P.Token))
      → Writes P l s.store
      → select_one (of_operation d req.operation_id) s.store.operations ≡ found
      → Ensures
          (elim found [
            | some previous ↦ replay P previous (P.request_digest req)
            | none ↦ admit P d req (P.request_digest req)
          ])
          t
          s
          (λ _ u. Writes P l u)
  answer_Writes req s none w e = admit-Writes P w d req _ e
  answer_Writes req s (some previous) w e = replay-Writes P w d _ previous

  store_artifact-Writes :
      (bytes : List ℕ) (digest : ℕ) (content_type : String) (s : Session (Store P))
      → Writes P l s.store
      → Ensures (store_artifact P d bytes digest content_type) t s (λ _ u. Writes P l u)
  unfolding store_artifact
  store_artifact-Writes bytes digest content_type s w = bind_lock P w d _ λ u w' _.
      bind_utcnow _ λ now. bind_modify _ _ (
        bind_gets _ _ (
          bind_require _ _ _ λ room. bind_draw _ λ id.
            bind_reads _ _ (encrypt_value-Reads P _) λ c n k. bind_utcnow _ λ later.
              bind_modify _ _ (
                Ensures-pure _ (
                  then_write (then_write w' (Write.artifact (ArtifactWrite.expire _)))
                    (Write.artifact (ArtifactWrite.store _ (leb→le _ _ room)))))))

module _ (P : Setup) (t : Tape) (l : Store P) (d : String) where
  pub accept-Writes : (req : Request) → Writes P l (accept P d req t l).1
  unfolding accept accept_body
  accept-Writes req =
      transaction_relates (Writes P) _ t l nothing
        λ n k. bind_lock P nothing d _ (λ u w _. bind_gets _ _ (answer_Writes P d req u _ w refl))

  pub get-Writes : (o : ℕ) → Writes P l (get P d o t l).1
  unfolding get
  get-Writes o = transaction_relates (Writes P) _ t l nothing λ n k.
      bind_row P d o _ (λ row found. Reads-keeps (Writes P l) _ (snapshot_of-Reads P row) nothing)

  pub artifact-Writes : (a : ℕ) → Writes P l (artifact P d a t l).1
  unfolding artifact
  artifact-Writes a =
      transaction_relates (Writes P) _ t l nothing
        λ n k. Reads-keeps (Writes P l) _ (read_artifact-Reads P d a) nothing

  pub put_artifact-Writes :
      (bytes : List ℕ) (digest : ℕ) (content_type : String)
      → Writes P l (put_artifact P d bytes digest content_type t l).1
  unfolding put_artifact
  put_artifact-Writes bytes digest content_type =
      transaction_relates (Writes P) _ t l nothing λ n k. bind_require _ _ _ λ _.
        bind_require _ _ _ λ _.
          bind_require _ _ _ (λ _. store_artifact-Writes P d bytes digest content_type _ nothing)

-- ===== src/Bridge/Once/Canceling.antt =====
-- Cancellations keep the log free of repetition.
use codex_a2a_gateway.Base.{
  ℕ, suc, String, ◌≡◌, refl, sym, ap, subst, ◌∙◌, Bool, true, false, some, ◌∷◌, In, inl, inr,
  is_some, if◌then◌else◌, select_one-update_same,
}
use codex_a2a_gateway.Tx.Errors.{Result, ok, err}
use codex_a2a_gateway.Tx.{transaction}
use codex_a2a_gateway.Tx.Ensures.{Ensures-weaken, transaction_returns}
use codex_a2a_gateway.Client.Model.{NativeOrigin, CancelState, has_id}
use codex_a2a_gateway.Client.Setup.{ClientSetup, ClientStore, ClientRow}
use codex_a2a_gateway.Client.Commands.{read_row, cancel_state}
use codex_a2a_gateway.Client.Snapshots.{view}
use codex_a2a_gateway.Client.Calls.{client_run}
use codex_a2a_gateway.Client.Onward.{seek, Onward}
use codex_a2a_gateway.Client.Onward.Accepted.{read_row-Ensures}
use codex_a2a_gateway.Client.Onward.Commands.{cancel_state-Onward}
use codex_a2a_gateway.Client.Onward.Histories.{client_run-Onward}
use codex_a2a_gateway.Bridge.Jobs.{
  Sent, Answer, failed, replied, World, Around, give, call, write, tried, caught, stepped,
  http_error, canceled, ask_broker, continue_job, ◌>>=◌,
}
use codex_a2a_gateway.Bridge.Tools.{after_cancel, cancel_outcome, send_cancel, cancel_operation}
use codex_a2a_gateway.Bridge.Once.{cancels, IsAsked, IsAsked-Onward, IsOnce}
use codex_a2a_gateway.Bridge.Once.Rules.{
  Keeps, moved-IsOnce, Keeps-throw, Keeps-write, continue_job-IsOnce, Keeps-then, caught-IsOnce,
  Keeps-check_status,
}
use codex_a2a_gateway.Bridge.Once.Exchange.{still, read_row-Onward, ingest_body-Keeps, view-Keeps}

module _ (P : ClientSetup) where
  canceled-IsOnce :
      (o : ℕ) (w : World P)
      → ¬ In o (cancels w.sent)
      → IsAsked o w.store
      → IsOnce w
      → IsOnce {P = P} (record w { sent = Sent.cancel o ∷ w.sent })
  canceled-IsOnce o w fresh asked i = record {
    enqueued = i.enqueued;
    begun = i.begun;
    canceled = (fresh, i.canceled);
    asked = λ p m. elim m [
      | inl e ↦ subst (λ x. IsAsked x w.store) (sym e) asked
      | inr m' ↦ i.asked p m'
    ];
  }

  cancel_state-IsAsked :
      (o : ℕ) (s : CancelState) (row : ClientRow P) (l : ClientStore P)
      → seek o l.operations ≡ some row
      → IsAsked o (cancel_state P o s l)
  unfolding cancel_state has_id
  cancel_state-IsAsked o s row l found = (
    record row { cancel_state = some s },
    rw
        (
          select_one-update_same (has_id o) (has_id o) (λ r. record r { cancel_state = some s })
              (λ r. refl) (λ r. refl) l.operations,
          found,
        )
        refl,
    refl,
  )

module _ (P : ClientSetup) (identity : ℕ → String) where
  after_cancel-Keeps : (o : ℕ) (a : Answer P.Value) → Keeps (after_cancel P identity o a)
  unfolding after_cancel
  after_cancel-Keeps o failed = Keeps-throw http_error
  after_cancel-Keeps o Answer.dropped = Keeps-throw canceled
  after_cancel-Keeps o (replied status body) =
      Keeps-then _ _ (Keeps-check_status status) (λ _. ingest_body-Keeps P identity o body)

  send_cancel-IsOnce :
      (o : ℕ) (row : ClientRow P) (σ : Around P.Value) (w : World P)
      → seek o w.store.operations ≡ some row
      → ¬ In o (cancels w.sent)
      → IsOnce w
      → IsOnce (send_cancel P identity o σ w).1
  unfolding send_cancel write tried ask_broker ◌>>=◌
  send_cancel-IsOnce o row σ w found fresh i =
      let u = cancel_state P o CancelState.sending w.store in
      let marked = cancel_state-Onward P still w.store o CancelState.sending in
      let others = client_run-Onward P (σ.others w.steps) u in
      let asked =
        IsAsked-Onward o u _ others
          (cancel_state-IsAsked P o CancelState.sending row w.store found) in
      let out = canceled-IsOnce P o _ fresh asked (
        moved-IsOnce (record w { store = u }) _ w.reconciled (suc w.steps) others
          (moved-IsOnce w u w.reconciled w.steps marked i)) in
      let asking : World P = record {
        store = client_run P (σ.others w.steps) u;
        sent = Sent.cancel o ∷ w.sent;
        reconciled = w.reconciled;
        steps = suc w.steps;
      } in
      let answered = after_cancel P identity o (σ.http w.steps) σ asking in
      continue_job-IsOnce σ _ (caught answered).0 (caught answered).1
        (λ done.
          Keeps-write _ (λ l. cancel_state-Onward P still l o (cancel_outcome P identity done)))
        (caught-IsOnce {A = Unit {0}} answered.0 answered.1
          ((after_cancel-Keeps o (σ.http w.steps)).at σ asking out))

  -- A cancellation is sent where none was asked for.
  unless_asked-IsOnce :
      (asked : Bool) (o : ℕ) (row : ClientRow P) (σ : Around P.Value) (w : World P)
      → seek o w.store.operations ≡ some row
      → is_some row.cancel_state ≡ asked
      → IsOnce w
      → IsOnce ((if asked then give tt else send_cancel P identity o) σ w).1
  unfolding give
  unless_asked-IsOnce true o row σ w found e i = i
  unless_asked-IsOnce false o row σ w found e i =
      send_cancel-IsOnce o row σ w found
        (λ m.
          let (row', found', asked) = i.asked o m in
          let same_row : row ≡ row' = cc in
          let same_state : is_some row.cancel_state ≡ is_some row'.cancel_state =
            ap (λ r. is_some r.cancel_state) same_row in
          absurd cc)
        i

  cancel_found-IsOnce :
      (origin : NativeOrigin) (o : ℕ) (r : Result (ClientRow P)) (σ : Around P.Value) (w : World P)
      (u : ClientStore P)
      → Onward w.store u
      → ((row : ClientRow P) → r ≡ ok row → seek o u.operations ≡ some row)
      → IsOnce w
      → IsOnce
          (continue_job σ
            (λ row.
              (if is_some row.cancel_state then give tt else send_cancel P identity o) >>= λ _.
              call (view P o origin false))
            (stepped w (r, u))).1
  unfolding ◌>>=◌
  cancel_found-IsOnce origin o (err e) σ w u onward h i =
      moved-IsOnce w u w.reconciled (suc w.steps) onward i
  cancel_found-IsOnce origin o (ok row) σ w u onward h i =
      let found : World P = record {
        store = u;
        sent = w.sent;
        reconciled = w.reconciled;
        steps = suc w.steps;
      } in
      let sending =
        (if is_some row.cancel_state then give tt else send_cancel P identity o) σ found in
      continue_job-IsOnce σ _ sending.0 sending.1 (λ _. view-Keeps P identity o origin false)
        (unless_asked-IsOnce (is_some row.cancel_state) o row σ found (h row refl) refl
          (moved-IsOnce w u w.reconciled (suc w.steps) onward i))

  pub cancel_operation-Keeps :
      (origin : NativeOrigin) (o : ℕ) → Keeps (cancel_operation P identity origin o)
  unfolding cancel_operation call ◌>>=◌
  cancel_operation-Keeps origin o = record {
    at = λ σ w i.
        let t = σ.tape w.steps in
        let l = w.store in
        let found = transaction (read_row P o (some origin)) t l in
        cancel_found-IsOnce origin o found.0 σ w found.1 (read_row-Onward P o (some origin) t l)
          (λ row.
            transaction_returns (λ row' u. seek o u.operations ≡ some row') _ t l row
              (λ n k.
                Ensures-weaken _ _ (λ row' u h. ap (λ v. seek o v.operations) h.0 ∙ h.1)
                  (read_row-Ensures P o (some origin))))
          i;
  }

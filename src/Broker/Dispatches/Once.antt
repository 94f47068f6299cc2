-- ===== src/Broker/Dispatches/Once.antt =====
-- No operation is dispatched twice.
use codex_a2a_gateway.Base.{
  ◌≡◌, refl, sym, ap, ◌∙◌, subst, inl, inr, Option, none, some, List, arith, In,
}
use codex_a2a_gateway.Histories.{NoRepeat, HandsOut, emitted-NoRepeat}
use codex_a2a_gateway.Tx.Errors.{Result, ok, err}
use codex_a2a_gateway.Tx.{Tape}
use codex_a2a_gateway.Broker.Setup.{Setup}
use codex_a2a_gateway.Broker.Snapshots.{Store}
use codex_a2a_gateway.Broker.Dispatch.{Claim, claim}
use codex_a2a_gateway.Broker.Calls.{Call, perform, empty}
use codex_a2a_gateway.Broker.Refines.Histories.{perform-Writes}
use codex_a2a_gateway.Broker.Lifecycle.{rank}
use codex_a2a_gateway.Broker.Lifecycle.Steps.{Writes-Follows}
use codex_a2a_gateway.Broker.Dispatches.{
  Key, claimed_keys, dispatched, step, step_dispatched, dispatches, Started,
}
use codex_a2a_gateway.Broker.Dispatches.Sealed.{IsSealed, Writes-IsSealed, empty-IsSealed}
use codex_a2a_gateway.Broker.Dispatches.Starts.{
  Waiting, Dispatches, Started-Follows, claim-Dispatches,
}

module _ (P : Setup) where
  Started-perform :
      (k : Key) (c : Call) (t : Tape) (l : Store P) → Started k l → Started k (perform P c t l)
  Started-perform (d, o) c t l h =
      Started-Follows d o l (perform P c t l) (Writes-Follows (perform-Writes P c t l)) h

  -- An operation that has started is not waiting.
  pub Started-not-Waiting : (k : Key) (l : Store P) → Started k l → ¬ Waiting k l
  unfolding rank
  Started-not-Waiting (d, o) l (row, found, high) (row', found', fresh) =
      let same_row : row ≡ row' = cc in
      let low : rank row.state ≡ 0 = ap (λ r. rank r.state) same_row ∙ ap rank fresh in
      absurd (omega arith)

  claimed-Dispatches :
      (k : Key) (l u : Store P) (r : Result (Option Claim))
      → ((c : Option Claim) → r ≡ ok c → Dispatches l c u)
      → In k (claimed_keys r)
      → Waiting k l × Started k u
  claimed-Dispatches k l u (ok none) h m = elim m [ ]
  claimed-Dispatches k l u (ok (some c)) h (inl e) =
      subst (λ x. Waiting x l × Started x u) (sym e) (h (some c) refl)
  claimed-Dispatches k l u (ok (some c)) h (inr m) = elim m [ ]
  claimed-Dispatches k l u (err e) h m = elim m [ ]

  dispatched-Dispatches :
      (k : Key) (c : Call) (t : Tape) (l : Store P)
      → IsSealed P l
      → In k (dispatched P c t l)
      → Waiting k l × Started k (perform P c t l)
  unfolding dispatched perform
  dispatched-Dispatches k Call.claim t l sealed m =
      claimed-Dispatches k l (claim P t l).1 (claim P t l).0
        (λ c e. claim-Dispatches P t l c sealed e) m
  dispatched-Dispatches k _ t l sealed m = elim m [ ]

  claimed-NoRepeat : (r : Result (Option Claim)) → NoRepeat (claimed_keys r)
  claimed-NoRepeat (ok none) = tt
  claimed-NoRepeat (ok (some c)) = (λ m. elim m [ ], tt)
  claimed-NoRepeat (err e) = tt

  dispatched-NoRepeat : (c : Call) (t : Tape) (l : Store P) → NoRepeat (dispatched P c t l)
  unfolding dispatched
  dispatched-NoRepeat Call.claim t l = claimed-NoRepeat (claim P t l).0
  dispatched-NoRepeat _ t l = tt

  claims-HandsOut : HandsOut (step P) (step_dispatched P) (IsSealed P) Waiting Started
  claims-HandsOut = record {
    kept = λ (t, c) l sealed. Writes-IsSealed (perform-Writes P c t l) sealed;
    stays = λ k (t, c) l started. Started-perform k c t l started;
    waited = λ k (t, c) l sealed m. (dispatched-Dispatches k c t l sealed m).0;
    begun = λ k (t, c) l sealed m. (dispatched-Dispatches k c t l sealed m).1;
    apart = λ k l started. Started-not-Waiting k l started;
    single = λ (t, c) l. dispatched-NoRepeat c t l;
  }

-- Whatever the history of a new ledger (restarts, cancellations, endings, expiry, and repeated
-- submissions included), `claim` hands out each operation of each device at most once.
pub dispatches-NoRepeat :
    (P : Setup) (calls : List (Tape × Call)) → NoRepeat (dispatches P calls (empty P))
unfolding dispatches
dispatches-NoRepeat P calls =
    emitted-NoRepeat (step P) (step_dispatched P) (claims-HandsOut P) calls (empty P)
      (empty-IsSealed P)

-- ===== src/Dispatcher/Tended.antt =====
-- What is true of the dispatcher's tables of jobs beside the ledger
-- (`BrokerDispatcher` of hermes_a2a_gateway/broker.py).
use codex_a2a_gateway.Base.{
  ℕ, ◌≤◌, ◌<◌, ◌≡◌, refl, sym, subst, false, List, [], ◌∷◌, length, leb, arith, inl, inr,
  Bool-cases, In,
}
use codex_a2a_gateway.Broker.Model.{Operation}
use codex_a2a_gateway.Broker.Setup.{Setup}
use codex_a2a_gateway.Broker.Snapshots.{Store}
use codex_a2a_gateway.Broker.Spec.{Writes}
use codex_a2a_gateway.Broker.Lifecycle.Steps.{Writes-Follows}
use codex_a2a_gateway.Broker.Dispatches.{Key, Started}
use codex_a2a_gateway.Broker.Dispatches.Sealed.{IsSealed, Writes-IsSealed}
use codex_a2a_gateway.Broker.Dispatches.Starts.{Waiting, Started-Follows}
use codex_a2a_gateway.Broker.Dispatches.Once.{Started-not-Waiting}
use codex_a2a_gateway.Broker.Cancellations.{
  IsUnclaimed, IsClaimed, IsClaimed-Follows, claimed-not-IsUnclaimed,
}
use codex_a2a_gateway.Broker.Pending.{IsAdmitted, Writes-IsAdmitted}
use codex_a2a_gateway.Dispatcher.Tables.{
  Tables, row_key, add_stream, add_cancel, add_read, is_busy, add_reads,
}
use codex_a2a_gateway.Dispatcher.Keys.{In-put_job, length-put_job, absent-In}

-- No table holds more jobs than the limit, and no operation is submitted and read at once.
pub record Orderly (limit : ℕ) (t : Tables) : Type 0 where
  pub streams_bound : length t.streams ≤ limit
  pub reads_bound : length t.reads ≤ limit
  pub cancels_bound : length t.cancels ≤ limit
  pub apart : (k : Key) → In k t.streams → ¬ In k t.reads

-- Moreover each job is about an operation of the ledger that has got so far.
pub record Tended (P : Setup) (l : Store P) (t : Tables) : Type 0 where
  pub admitted : IsAdmitted P.max_pending_per_device l.operations
  pub sealed : IsSealed P l
  pub streams : (k : Key) → In k t.streams → Started k l
  pub reads : (k : Key) → In k t.reads → Started k l
  pub cancels : (k : Key) → In k t.cancels → IsClaimed k l
  pub orderly : Orderly P.max_concurrent_streams t

module _ (P : Setup) {l u : Store P} (t : Tables) (w : Writes P l u) where
  -- Writes of the ledger leave it so.
  pub Tended-Writes : Tended P l t → Tended P u t
  Tended-Writes h = record {
    admitted = Writes-IsAdmitted w h.admitted;
    sealed = Writes-IsSealed w h.sealed;
    streams = λ k m. Started-Follows k.0 k.1 l u (Writes-Follows w) (h.streams k m);
    reads = λ k m. Started-Follows k.0 k.1 l u (Writes-Follows w) (h.reads k m);
    cancels = λ k m. IsClaimed-Follows k l u (Writes-Follows w) (h.cancels k m);
    orderly = h.orderly;
  }

module _ (P : Setup) {l : Store P} (t : Tables) where
  -- What a claim hands out has no job yet.
  pub Waiting-absent :
      (k : Key) → Tended P l t → Waiting k l → (¬ In k t.streams) × (¬ In k t.reads)
  Waiting-absent k h waits = (
    λ m. Started-not-Waiting P k l (h.streams k m) waits,
    λ m. Started-not-Waiting P k l (h.reads k m) waits,
  )

  pub IsUnclaimed-absent : (k : Key) → Tended P l t → IsUnclaimed k l → ¬ In k t.cancels
  IsUnclaimed-absent k h waits = λ m. claimed-not-IsUnclaimed k l (h.cancels k m) waits

  pub Tended-add_stream :
      (k : Key)
      → Tended P l t
      → Started k l
      → ¬ In k t.reads
      → length t.streams < P.max_concurrent_streams
      → Tended P l (add_stream k t)
  unfolding add_stream
  Tended-add_stream k h started unread room = record {
    admitted = h.admitted;
    sealed = h.sealed;
    streams = λ x m. elim (In-put_job x k t.streams m) [
      | inl there ↦ h.streams x there
      | inr same_key ↦ subst (λ y. Started y l) (sym same_key) started
    ];
    reads = h.reads;
    cancels = h.cancels;
    orderly = record {
      streams_bound = let grown = length-put_job k t.streams in omega arith;
      reads_bound = h.orderly.reads_bound;
      cancels_bound = h.orderly.cancels_bound;
      apart = λ x m. elim (In-put_job x k t.streams m) [
        | inl there ↦ h.orderly.apart x there
        | inr same_key ↦ subst (λ y. ¬ In y t.reads) (sym same_key) unread
      ];
    };
  }

  pub Tended-add_cancel :
      (k : Key)
      → Tended P l t
      → IsClaimed k l
      → length t.cancels < P.max_concurrent_streams
      → Tended P l (add_cancel k t)
  unfolding add_cancel
  Tended-add_cancel k h claimed room = record {
    admitted = h.admitted;
    sealed = h.sealed;
    streams = h.streams;
    reads = h.reads;
    cancels = λ x m. elim (In-put_job x k t.cancels m) [
      | inl there ↦ h.cancels x there
      | inr same_key ↦ subst (λ y. IsClaimed y l) (sym same_key) claimed
    ];
    orderly = record {
      streams_bound = h.orderly.streams_bound;
      reads_bound = h.orderly.reads_bound;
      cancels_bound = let grown = length-put_job k t.cancels in omega arith;
      apart = h.orderly.apart;
    };
  }

  Tended-add_read :
      (k : Key)
      → Tended P l t
      → Started k l
      → is_busy k t ≡ false
      → length t.reads < P.max_concurrent_streams
      → Tended P l (add_read k t)
  unfolding add_read is_busy
  Tended-add_read k h started idle room = record {
    admitted = h.admitted;
    sealed = h.sealed;
    streams = h.streams;
    reads = λ x m. elim (In-put_job x k t.reads m) [
      | inl there ↦ h.reads x there
      | inr same_key ↦ subst (λ y. Started y l) (sym same_key) started
    ];
    cancels = h.cancels;
    orderly = record {
      streams_bound = h.orderly.streams_bound;
      reads_bound = let grown = length-put_job k t.reads in omega arith;
      cancels_bound = h.orderly.cancels_bound;
      apart = λ x streamed m. elim (In-put_job x k t.reads m) [
        | inl there ↦ h.orderly.apart x streamed there
        | inr same_key ↦
            absent-In k t.streams (ground arith) (subst (λ y. In y t.streams) same_key streamed)
      ];
    };
  }

module _ (P : Setup) {l : Store P} where
  pub Tended-add_reads :
      (rows : List (Operation P.Token)) (t : Tables)
      → ((row : Operation P.Token) → In row rows → Started (row_key row) l)
      → length t.reads < P.max_concurrent_streams
      → Tended P l t
      → Tended P l (add_reads P.max_concurrent_streams rows t)
  unfolding add_reads
  Tended-add_reads [] t started room h = h
  Tended-add_reads (row ∷ rows) t started room h = elim (Bool-cases (is_busy (row_key row) t)) [
    | inl busy ↦ rw busy (Tended-add_reads rows t (λ r m. started r (inr m)) room h)
    | inr idle ↦
        let added = Tended-add_read P t (row_key row) h (started row (inl refl)) idle room in
        rw idle
          (elim (Bool-cases
            (leb P.max_concurrent_streams (length (add_read (row_key row) t).reads))) [
              | inl full ↦ rw full added
              | inr less ↦ rw less (
                  Tended-add_reads rows (add_read (row_key row) t) (λ r m. started r (inr m))
                    (ground arith) added)
            ])
  ]

  -- Tables that hold no other jobs.
  pub Tended-shrunk :
      (t t' : Tables)
      → ((k : Key) → In k t'.streams → In k t.streams)
      → ((k : Key) → In k t'.reads → In k t.reads)
      → ((k : Key) → In k t'.cancels → In k t.cancels)
      → length t'.streams ≤ length t.streams
      → length t'.reads ≤ length t.reads
      → length t'.cancels ≤ length t.cancels
      → Tended P l t
      → Tended P l t'
  Tended-shrunk t t' s r c s' r' c' h =
      let streams_bound = h.orderly.streams_bound in
      let reads_bound = h.orderly.reads_bound in
      let cancels_bound = h.orderly.cancels_bound in
      record {
        admitted = h.admitted;
        sealed = h.sealed;
        streams = λ k m. h.streams k (s k m);
        reads = λ k m. h.reads k (r k m);
        cancels = λ k m. h.cancels k (c k m);
        orderly = record {
          streams_bound = omega arith;
          reads_bound = omega arith;
          cancels_bound = omega arith;
          apart = λ k m m'. h.orderly.apart k (s k m) (r k m');
        };
      }

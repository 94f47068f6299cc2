-- ===== src/Dispatcher/Keys.antt =====
-- The keys of a table of jobs (`_streams`, `_reads` and `_cancels` of hermes_a2a_gateway/broker.py),
-- as jobs come and go.
use codex_a2a_gateway.Base.{
  suc, ◌≤◌, ◌≡◌, refl, sym, Bool, true, false, Option, none, some, List, [], ◌∷◌, ◌++◌, length,
  arith, inl, inr, ◌⊎◌, Bool-cases, In, if◌then◌else◌,
}
use codex_a2a_gateway.Tx.Errors.{Result, ok, err}
use codex_a2a_gateway.Broker.Lifecycle.Keyed.{same_key, same_key-eq}
use codex_a2a_gateway.Broker.Dispatches.{Key}
use codex_a2a_gateway.Broker.Dispatches.Starts.{same_key_refl}
use codex_a2a_gateway.Dispatcher.Tables.{Ended, Finished, has_job, put_job, reap_job, reap}

-- The test of membership.
In-has_job : (k : Key) (keys : List Key) → In k keys → has_job k keys ≡ true
unfolding has_job
In-has_job k [] m = elim m [ ]
In-has_job k (x ∷ keys) (inl e) = rw (sym e, same_key_refl k.0 k.1) refl
In-has_job k (x ∷ keys) (inr m) = ground (arith, In-has_job k keys m)

pub absent-In : (k : Key) (keys : List Key) → has_job k keys ≡ false → ¬ In k keys
absent-In k keys h = λ m. clash (In-has_job k keys m) h
  where
    clash : {b : Bool} → b ≡ true → b ≡ false → ⊥
    clash p q = cc

has_job-In : (k : Key) (keys : List Key) → has_job k keys ≡ true → In k keys
unfolding has_job
has_job-In k [] h = absurd (ground arith)
has_job-In k (x ∷ keys) h = elim (Bool-cases (same_key k.0 k.1 x.0 x.1)) [
  | inl hit ↦
      let (same_device, same_operation) = same_key-eq k.0 x.0 k.1 x.1 hit in
      inl (λ i. (same_device i, same_operation i))
  | inr miss ↦ inr (has_job-In k keys (ground arith))
]

In-snoc : (x k : Key) (keys : List Key) → In x (keys ++ (k ∷ [])) → In x keys ⊎ (x ≡ k)
In-snoc x k [] (inl e) = inr e
In-snoc x k [] (inr m) = elim m [ ]
In-snoc x k (y ∷ keys) (inl e) = inl (inl e)
In-snoc x k (y ∷ keys) (inr m) = elim (In-snoc x k keys m) [
  | inl there ↦ inl (inr there)
  | inr new ↦ inr new
]

pub In-put_job : (x k : Key) (keys : List Key) → In x (put_job k keys) → In x keys ⊎ (x ≡ k)
unfolding put_job
In-put_job x k keys = branch (has_job k keys)
  where
    branch : (b : Bool) → In x (if b then keys else keys ++ (k ∷ [])) → In x keys ⊎ (x ≡ k)
    branch true m = inl m
    branch false m = In-snoc x k keys m

length-snoc : (k : Key) (keys : List Key) → length (keys ++ (k ∷ [])) ≡ suc (length keys)
length-snoc k [] = refl
length-snoc k (x ∷ keys) = omega (arith, length-snoc k keys)

-- A table grows by one job at most, and by one when the key is new.
pub length-put_job : (k : Key) (keys : List Key) → length (put_job k keys) ≤ suc (length keys)
unfolding put_job
length-put_job k keys = ground (arith, length-snoc k keys)

pub length-put_new :
    (k : Key) (keys : List Key) → ¬ In k keys → length (put_job k keys) ≡ suc (length keys)
unfolding put_job
length-put_new k keys new = elim (Bool-cases (has_job k keys)) [
  | inl there ↦ absurd (new (has_job-In k keys there))
  | inr absent ↦ rw (absent, length-snoc k keys) refl
]

-- What is left when the jobs that are done have gone.
pub record Reaped (keys : List Key) (r : Ended × List Key) : Type 0 where
  pub ended : ¬ (r.0 ≡ Ended.cut_off)
  pub kept : (k : Key) → In k r.1 → In k keys
  pub bounded : length r.1 ≤ length keys

reap_job-Reaped :
    (k : Key) (keys : List Key) (rest : Ended × List Key) (o : Option (Result (Unit {0})))
    → Reaped keys rest
    → Reaped (k ∷ keys) (reap_job k keys rest o)
reap_job-Reaped k keys (e, left) none h = record {
  ended = h.ended;
  kept = λ x m. elim m [ inl e' ↦ inl e' | inr there ↦ inr (h.kept x there) ];
  bounded = let b = h.bounded in omega arith;
}
reap_job-Reaped k keys (e, left) (some (ok u)) h = record {
  ended = h.ended;
  kept = λ x m. inr (h.kept x m);
  bounded = let b = h.bounded in omega arith;
}
reap_job-Reaped k keys rest (some (err e)) h = record {
  ended = λ e'. cc;
  kept = λ x m. inr m;
  bounded = omega arith;
}

pub reap-Reaped : (done : Finished) (keys : List Key) → Reaped keys (reap done keys)
unfolding reap
reap-Reaped done [] = record { ended = λ e. cc; kept = λ k m. m; bounded = omega arith }
reap-Reaped done (k ∷ keys) =
    reap_job-Reaped k keys (reap done keys) (done k) (reap-Reaped done keys)

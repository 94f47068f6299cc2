-- ===== src/Tunnel/Settled.antt =====
-- What a run of the tunnel leaves (`_run` of hermes_a2a_gateway/ssh_tunnel.py).
use codex_a2a_gateway.Base.{
  ℕ, ◌+◌, ◌≤◌, ◌≡◌, refl, true, false, none, some, List, [], ◌∷◌, inl, inr, arith, is_some, ◌==◌,
  Bool-cases,
}
use codex_a2a_gateway.Tunnel.Config.{SshConfig}
use codex_a2a_gateway.Tunnel.Failures.{FailureCode}
use codex_a2a_gateway.Tunnel.Process.{
  TunnelState, Tunnel, available, cleanup, failure, os_error, canceled, AttemptEnd, connect,
}
use codex_a2a_gateway.Tunnel.Inspections.{Inspection, InspectionEnd, inspect_configuration}
use codex_a2a_gateway.Tunnel.Owned.{IsIdle, cleanup-IsIdle, connect-IsOwned}
use codex_a2a_gateway.Tunnel.Supervisor.{
  Round, RunEnd, give_up, back_off, next_failures, waiting_tunnel, end_attempt, begin_attempt,
  after_inspection, run_rounds, run_tunnel,
}
use codex_a2a_gateway.Tunnel.Confirmed.{Rises, connect-Rises}
use codex_a2a_gateway.Tunnel.Inspected.{
  Within, Rests, Rests-Within, Leaves, inspect_configuration-Leaves,
}

-- The end of a run that began with `t`: no process runs and the tunnel is not available; where it was
-- not canceled, it has failed with an error; and it was ready at most once for each attempt.
pub record Settles (t : Tunnel) (r : RunEnd × Tunnel) : Type 0 where
  pub idle : IsIdle r.1
  pub unavailable : available r.1 ≡ false
  pub given_up :
      r.0 ≡ RunEnd.gave_up → (r.1.state ≡ TunnelState.failed) × (is_some r.1.error ≡ true)
  pub ready_once : r.1.generation + t.attempts ≤ r.1.attempts + t.generation

give_up-Settles : (code : FailureCode) (t u : Tunnel) → Within t u → Settles t (give_up code u)
unfolding give_up available cleanup
give_up-Settles code t u w = record {
  idle = cleanup-IsIdle failed (record { children = w.owned.children });
  unavailable = refl;
  given_up = λ e. (refl, refl);
  ready_once = w.within;
}
  where
    failed : Tunnel
    failed = record u { state = TunnelState.failed; error = some code }

stopped-Settles : (t u : Tunnel) → Within t u → Settles t (RunEnd.stopped, cleanup u)
unfolding cleanup available
stopped-Settles t u w = record {
  idle = cleanup-IsIdle u w.owned;
  unavailable = refl;
  given_up = λ e. cc;
  ready_once = w.within;
}

-- What follows a wait settles.
abbrev Goes : Tunnel → (ℕ → Tunnel → RunEnd × Tunnel) → Type 0
Goes t next = (n : ℕ) (u : Tunnel) → Rests t u → Settles t (next n u)

back_off-Settles :
    (r : Round) (n : ℕ) (next : ℕ → Tunnel → RunEnd × Tunnel) (code : FailureCode) (t u : Tunnel)
    → Goes t next
    → Rests t u
    → Settles t (back_off r n next code u)
unfolding back_off
back_off-Settles r n next code t u goes w = elim (Bool-cases r.is_awaited) [
  | inl awaited ↦ rw awaited (goes (next_failures r n u) waiting rests)
  | inr stopped ↦ rw stopped (stopped-Settles t waiting (Rests-Within t waiting rests))
]
  where
    waiting : Tunnel
    waiting = waiting_tunnel r (next_failures r n u) code u

    rests : Rests t waiting
    rests = record {
      within = w.within;
      idle = record { process = w.idle.process; children = w.idle.children };
    }

end_attempt-Settles :
    (r : Round) (n : ℕ) (next : ℕ → Tunnel → RunEnd × Tunnel) (e : AttemptEnd) (t u : Tunnel)
    → Goes t next
    → Rests t u
    → Settles t (end_attempt r n next e u)
unfolding end_attempt
end_attempt-Settles r n next (failure f) t u goes w = elim (Bool-cases f.retryable) [
  | inl again ↦ rw again (back_off-Settles r n next f.code t u goes w)
  | inr final ↦ rw final (give_up-Settles f.code t u (Rests-Within t u w))
]
end_attempt-Settles r n next os_error t u goes w =
    give_up-Settles FailureCode.executable_unavailable t u (Rests-Within t u w)
end_attempt-Settles r n next canceled t u goes w = stopped-Settles t u (Rests-Within t u w)

begin_attempt-Settles :
    (c : SshConfig) (r : Round) (n : ℕ) (next : ℕ → Tunnel → RunEnd × Tunnel) (t u : Tunnel)
    → Goes t next
    → Rests t u
    → Settles t (begin_attempt c r n next u)
unfolding begin_attempt cleanup
begin_attempt-Settles c r n next t u goes w =
    end_attempt-Settles r n next (connect c r.attempt started).0 t
      (cleanup (connect c r.attempt started).1) goes
      (record {
        within = bound;
        idle = cleanup-IsIdle (connect c r.attempt started).1 (
            connect-IsOwned c r.attempt started
              (record { process = w.idle.process; children = w.idle.children }));
      })
  where
    started : Tunnel
    started = record u { state = TunnelState.starting; retry_at = none; attempts = u.attempts + 1 }

    rises : Rises started (connect c r.attempt started).1
    rises = connect-Rises c r.attempt started

    bound :
        (connect c r.attempt started).1.generation + t.attempts
        ≤ (connect c r.attempt started).1.attempts + t.generation
    bound = elim rises.generation [
      | inl same ↦ omega (arith, w.within, rises.attempts)
      | inr (one, confirmed) ↦ omega (arith, w.within, rises.attempts)
    ]

after_inspection-Settles :
    (next : Tunnel → RunEnd × Tunnel) (t : Tunnel) (r : InspectionEnd × Tunnel)
    → ((v : Tunnel) → Rests t v → Settles t (next v))
    → Leaves t r
    → Settles t (after_inspection next r)
unfolding after_inspection
after_inspection-Settles next t (InspectionEnd.accepted, u) goes k =
    goes u (record { within = k.within.within; idle = k.idle refl })
after_inspection-Settles next t (InspectionEnd.interrupted, u) goes k = stopped-Settles t u k.within
after_inspection-Settles next t (InspectionEnd.refused code, u) goes k =
    give_up-Settles code t u k.within

run_rounds-Settles :
    (c : SshConfig) (rounds : List Round) (n : ℕ) (t u : Tunnel)
    → Rests t u
    → Settles t (run_rounds c rounds n u)
unfolding run_rounds
run_rounds-Settles c [] n t u w = stopped-Settles t u (Rests-Within t u w)
run_rounds-Settles c (r ∷ rounds) n t u w =
    let later : Goes t (λ m v. run_rounds c rounds m v) =
      λ m v h. run_rounds-Settles c rounds m t v h in
    elim (Bool-cases (u.attempts == 0)) [
      | inl first ↦ rw first (begin_attempt-Settles c r n _ t u later w)
      | inr again ↦ rw again (
          after_inspection-Settles _ t (inspect_configuration c r.inspection u)
            (λ v h. begin_attempt-Settles c r n _ t v later h)
            (inspect_configuration-Leaves c r.inspection t u w))
    ]

-- However a run that began without a process ends, by giving up or by cancellation while it inspects,
-- spawns, connects, serves or waits, no process that it spawned runs any more, be it by itself, by SIGTERM
-- or by SIGKILL, and the tunnel is not available; where it gave up, it is in the failed state with an
-- error; and it was ready at most once for each attempt that it made.
pub run_tunnel-Settles :
    (c : SshConfig) (first : Inspection) (rounds : List Round) (t : Tunnel)
    → IsIdle t
    → Settles t (run_tunnel c first rounds t)
unfolding run_tunnel
run_tunnel-Settles c first rounds t idle =
    after_inspection-Settles _ t (inspect_configuration c first t)
      (λ u w. run_rounds-Settles c rounds 0 t u w)
      (inspect_configuration-Leaves c first t t (record { within = omega arith; idle = idle }))

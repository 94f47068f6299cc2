-- ===== src/Tunnel/Supervisor.antt =====
-- The loop of the tunnel (`_run`, `retry_delay`, `start` and `close` of
-- hermes_a2a_gateway/ssh_tunnel.py). A round is an inspection where one was made before, an attempt, and
-- a wait; a list of rounds that ends, and a wait that does not, is a cancellation by `close`. The random
-- factor of a delay is in thousandths, times are in milliseconds.
use Prim.Native.Nat.{◌^◌}
use codex_a2a_gateway.Base.{
  ℕ, ◌+◌, ◌-◌, ◌*◌, Bool, false, List, [], ◌∷◌, Option, none, some, leb, ◌==◌, if◌then◌else◌, min,
}
use codex_a2a_gateway.Tunnel.Config.{SshConfig}
use codex_a2a_gateway.Tunnel.Failures.{FailureCode}
use codex_a2a_gateway.Tunnel.Process.{
  TunnelState, Tunnel, cleanup, failure, os_error, canceled, AttemptEnd, Attempt, connect,
}
use codex_a2a_gateway.Tunnel.Inspections.{Inspection, InspectionEnd, inspect_configuration}

-- failures is positive where the delay is asked for.
unfoldable pub retry_delay : ℕ → ℕ → ℕ
retry_delay failures factor = min 30000 (factor * min 30 (2 ^ min (failures - 1) 5))

pub record Round : Type 0 where
  pub inspection : Inspection
  pub attempt : Attempt
  -- The time after the attempt, the random factor, the time of the wait, and whether it is awaited.
  pub ended : ℕ
  pub factor : ℕ
  pub waits_from : ℕ
  pub is_awaited : Bool

pub data RunEnd : Type 0 where
  gave_up stopped : RunEnd

abbrev pub stable_after : ℕ
stable_after = 30000

unfoldable pub is_stable : Option ℕ → ℕ → Bool
is_stable none now = false
is_stable (some since) now = leb stable_after (now - since)

-- state = "failed", error = code, and the return.
unfoldable pub give_up : FailureCode → Tunnel → RunEnd × Tunnel
unfolding cleanup
give_up code t =
    (RunEnd.gave_up, cleanup (record t { state = TunnelState.failed; error = some code }))

abbrev pub next_failures : Round → ℕ → Tunnel → ℕ
next_failures r failures t = if is_stable t.ready_since r.ended then 1 else failures + 1

-- The tunnel that waits for its next attempt.
abbrev pub waiting_tunnel : Round → ℕ → FailureCode → Tunnel → Tunnel
waiting_tunnel r failures code t = record t {
  error = some code;
  state = TunnelState.backoff;
  retry_at = some (r.waits_from + retry_delay failures r.factor);
}

-- A failure that is worth a retry: the wait, and what follows.
unfoldable pub back_off :
    Round → ℕ → (ℕ → Tunnel → RunEnd × Tunnel) → FailureCode → Tunnel → RunEnd × Tunnel
unfolding is_stable retry_delay cleanup
back_off r failures next code t =
    let failures' = next_failures r failures t in
    let waiting = waiting_tunnel r failures' code t in
    if r.is_awaited then next failures' waiting else (RunEnd.stopped, cleanup waiting)

unfoldable pub end_attempt :
    Round → ℕ → (ℕ → Tunnel → RunEnd × Tunnel) → AttemptEnd → Tunnel → RunEnd × Tunnel
unfolding cleanup give_up back_off
end_attempt r failures next (failure f) t =
    if f.retryable then back_off r failures next f.code t else give_up f.code t
end_attempt r failures next os_error t = give_up FailureCode.executable_unavailable t
end_attempt r failures next canceled t = (RunEnd.stopped, cleanup t)

unfoldable pub begin_attempt :
    SshConfig → Round → ℕ → (ℕ → Tunnel → RunEnd × Tunnel) → Tunnel → RunEnd × Tunnel
unfolding cleanup end_attempt connect
begin_attempt c r failures next t =
    let started = record t {
      state = TunnelState.starting;
      retry_at = none;
      attempts = t.attempts + 1;
    } in
    let (ending, u) = connect c r.attempt started in end_attempt r failures next ending (cleanup u)

-- What follows an inspection.
unfoldable pub after_inspection :
    (Tunnel → RunEnd × Tunnel) → InspectionEnd × Tunnel → RunEnd × Tunnel
unfolding give_up cleanup
after_inspection next (InspectionEnd.refused code, t) = give_up code t
after_inspection next (InspectionEnd.interrupted, t) = (RunEnd.stopped, cleanup t)
after_inspection next (InspectionEnd.accepted, t) = next t

unfoldable pub run_rounds : SshConfig → List Round → ℕ → Tunnel → RunEnd × Tunnel
unfolding cleanup begin_attempt after_inspection inspect_configuration
run_rounds c [] failures t = (RunEnd.stopped, cleanup t)
run_rounds c (r ∷ rounds) failures t =
    if t.attempts == 0
    then begin_attempt c r failures (λ n u. run_rounds c rounds n u) t
    else after_inspection (λ u. begin_attempt c r failures (λ n v. run_rounds c rounds n v) u)
        (inspect_configuration c r.inspection t)

unfoldable pub run_tunnel : SshConfig → Inspection → List Round → Tunnel → RunEnd × Tunnel
unfolding after_inspection run_rounds inspect_configuration
run_tunnel c first rounds t =
    after_inspection (λ u. run_rounds c rounds 0 u) (inspect_configuration c first t)

-- `close`, after the task has ended.
unfoldable pub close_tunnel : Tunnel → Tunnel
unfolding cleanup
close_tunnel t = record (cleanup t) { state = TunnelState.stopped; retry_at = none }

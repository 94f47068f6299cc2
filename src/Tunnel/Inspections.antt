-- ===== src/Tunnel/Inspections.antt =====
-- The inspection of ssh's configuration (`_inspect_configuration` of hermes_a2a_gateway/ssh_tunnel.py).
use codex_a2a_gateway.Base.{
  ℕ, ◌+◌, String, Bool, true, false, not, ◌&&◌, ◌||◌, List, [], ◌∷◌, Option, none, some, ltb, ◌==◌,
  length, is_some, if◌then◌else◌,
}
use codex_a2a_gateway.Broker.Content.{codes, lower}
use codex_a2a_gateway.Texts.{Text, same_text}
use codex_a2a_gateway.Tunnel.Config.{SshConfig}
use codex_a2a_gateway.Tunnel.Failures.{
  FailureCode, TunnelFailure, ExitStatus, classify_failure, fatally,
}
use codex_a2a_gateway.Tunnel.Process.{Tunnel, spawn, exits, read_stderr, cleanup}

-- What `ssh -G` does: whether it is spawned and ends after SIGTERM, the lines of its output, and whether
-- the time suffices; and whether `close` cancels while it is spawned or while its output is read.
pub record Inspection : Type 0 where
  pub identity_exists : Bool
  pub spawns : Bool
  pub is_canceled_spawning : Bool
  pub obeys : Bool
  pub is_canceled : Bool
  pub lines : List Text
  pub is_timely : Bool
  pub status : ExitStatus
  pub output : List Text

-- line.split(b" ", 1)[0].
unfoldable pub before_space : Text → Text
before_space [] = []
before_space (c ∷ s) = let rest = before_space s in if c == b' ' then [] else c ∷ rest

unfoldable pub is_forwarding : Text → Bool
unfolding before_space lower same_text
is_forwarding line =
    let word = lower (before_space line) in
    same_text word (codes "localforward")
    || (same_text word (codes "remoteforward") || same_text word (codes "dynamicforward"))

abbrev pub max_inspected : ℕ
max_inspected = 262144

unfoldable pub inspect_lines : ℕ → List Text → Option TunnelFailure
unfolding is_forwarding
inspect_lines total [] = none
inspect_lines total (line ∷ lines) =
    let total' = total + length line in
    let rest = inspect_lines total' lines in
    if ltb max_inspected total'
    then some (fatally FailureCode.configuration_failed)
    else if is_forwarding line
    then some (fatally FailureCode.configured_forwarding_not_allowed)
    else rest

abbrev pub named_identity : Option String → Bool
named_identity none = false
named_identity (some f) = ltb 0 (length (codes f))

abbrev pub is_zero : ExitStatus → Bool
is_zero ExitStatus.success = true
is_zero _ = false

-- The end of the inspection, after its output has been read.
unfoldable pub inspect_end : SshConfig → Inspection → Tunnel → Option TunnelFailure
unfolding inspect_lines classify_failure read_stderr
inspect_end c i t =
    if not i.is_timely
    then some (fatally FailureCode.configuration_failed)
    else if is_zero i.status
    then none
    else some (classify_failure (read_stderr c i.output t).stderr (some i.status))

unfoldable pub inspect_output : SshConfig → Inspection → Tunnel → Option TunnelFailure
unfolding inspect_lines inspect_end
inspect_output c i t = elim (inspect_lines 0 i.lines) [ some f ↦ some f | none ↦ inspect_end c i t ]

-- How an inspection ends: an error of the operating system counts as ssh_executable_unavailable.
pub data InspectionEnd : Type 0 where
  accepted interrupted : InspectionEnd
  refused : FailureCode → InspectionEnd

abbrev pub inspection_end : Option TunnelFailure → InspectionEnd
inspection_end none = InspectionEnd.accepted
inspection_end (some f) = InspectionEnd.refused f.code

-- The process has ended by itself where its output was read to the end in time.
unfoldable pub leave_inspection : Inspection → Tunnel → Tunnel
unfolding exits inspect_lines
leave_inspection i t =
    if i.is_timely && not (is_some (inspect_lines 0 i.lines)) then exits i.status t else t

unfoldable pub inspect_configuration : SshConfig → Inspection → Tunnel → InspectionEnd × Tunnel
unfolding inspect_output leave_inspection read_stderr spawn cleanup
inspect_configuration c i t =
    let spawned = spawn i.obeys t in
    let fresh = record spawned { stderr = [] } in
    let reader = read_stderr c i.output fresh in
    if named_identity c.identity_file && not i.identity_exists
    then (InspectionEnd.refused FailureCode.identity_file_unavailable, t)
    else if not i.spawns
    then (InspectionEnd.refused FailureCode.executable_unavailable, t)
    else if i.is_canceled_spawning
    then (InspectionEnd.interrupted, spawned)
    else if i.is_canceled
    then (InspectionEnd.interrupted, cleanup reader)
    else (inspection_end (inspect_output c i fresh), cleanup (leave_inspection i reader))

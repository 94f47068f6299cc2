-- ===== src/Tunnel/Inspected.antt =====
-- What an inspection of ssh's configuration leaves (`_inspect_configuration` of
-- hermes_a2a_gateway/ssh_tunnel.py).
use codex_a2a_gateway.Base.{
  ◌&&◌, not, ◌+◌, ◌≤◌, ◌≡◌, true, false, [], arith, is_some, Bool, if◌then◌else◌,
}
use codex_a2a_gateway.Tunnel.Config.{SshConfig}
use codex_a2a_gateway.Tunnel.Failures.{FailureCode}
use codex_a2a_gateway.Tunnel.Process.{Tunnel, read_stderr, cleanup, spawn, exits}
use codex_a2a_gateway.Tunnel.Inspections.{
  Inspection, InspectionEnd, inspect_lines, inspect_output, inspection_end, named_identity,
  leave_inspection, inspect_configuration,
}
use codex_a2a_gateway.Tunnel.Owned.{
  IsOwned, IsIdle, IsIdle-IsOwned, IsRunning-IsOwned, cleanup-IsIdle, read_stderr-IsRunning,
  spawn-IsRunning, exits-IsOwned, IsRunning,
}
use codex_a2a_gateway.Tunnel.Confirmed.{Kept, read_stderr-Kept}

-- `u` has made at most as many generations as attempts since `t`, and owns what runs.
pub record Within (t u : Tunnel) : Type 0 where
  pub within : u.generation + t.attempts ≤ u.attempts + t.generation
  pub owned : IsOwned u

-- The same where nothing runs.
pub record Rests (t u : Tunnel) : Type 0 where
  pub within : u.generation + t.attempts ≤ u.attempts + t.generation
  pub idle : IsIdle u

pub Rests-Within : (t u : Tunnel) → Rests t u → Within t u
Rests-Within t u r = record { within = r.within; owned = IsIdle-IsOwned u r.idle }

-- An inspection leaves what runs to the cleanup, and nothing where it is accepted.
pub record Leaves (t : Tunnel) (r : InspectionEnd × Tunnel) : Type 0 where
  pub within : Within t r.1
  pub idle : r.0 ≡ InspectionEnd.accepted → IsIdle r.1

Rests-Leaves : (t : Tunnel) (r : InspectionEnd × Tunnel) → Rests t r.1 → Leaves t r
Rests-Leaves t r k = record { within = Rests-Within t r.1 k; idle = λ e. k.idle }

interrupted-Leaves : (t u : Tunnel) → Within t u → Leaves t (InspectionEnd.interrupted, u)
interrupted-Leaves t u w = record { within = w; idle = λ e. absurd (not_accepted e) }
  where
    not_accepted : InspectionEnd.interrupted ≡ InspectionEnd.accepted → ⊥
    not_accepted e = cc

Leaves-if :
    (t : Tunnel) (b : Bool) (r r' : InspectionEnd × Tunnel)
    → Leaves t r
    → Leaves t r'
    → Leaves t (if b then r else r')
Leaves-if t true r r' k k' = k
Leaves-if t false r r' k k' = k'

-- The reader has moved in a process that was spawned, and the cleanup follows.
cleaned-Rests : (t u v : Tunnel) → Rests t u → Kept u v → IsOwned v → Rests t (cleanup v)
unfolding cleanup
cleaned-Rests t u v w k owned = record {
  within = omega (arith, w.within, k.generation, k.attempts);
  idle = cleanup-IsIdle v owned;
}

pub inspect_configuration-Leaves :
    (c : SshConfig) (i : Inspection) (t u : Tunnel)
    → Rests t u
    → Leaves t (inspect_configuration c i u)
unfolding inspect_configuration leave_inspection spawn exits
inspect_configuration-Leaves c i t u w =
    Leaves-if t (named_identity c.identity_file && not i.identity_exists) _ _
      (Rests-Leaves t (InspectionEnd.refused FailureCode.identity_file_unavailable, u) w)
      (Leaves-if t (not i.spawns) _ _
        (Rests-Leaves t (InspectionEnd.refused FailureCode.executable_unavailable, u) w)
        (Leaves-if t i.is_canceled_spawning _ _
          (interrupted-Leaves t spawned
            (record { within = w.within; owned = IsRunning-IsOwned spawned runs }))
          (Leaves-if t i.is_canceled _ _
            (Rests-Leaves t (InspectionEnd.interrupted, cleanup reader)
              (cleaned-Rests t u reader w read (IsRunning-IsOwned reader reads)))
            (Rests-Leaves t
              (inspection_end (inspect_output c i fresh), cleanup (leave_inspection i reader))
              (left (i.is_timely && not (is_some (inspect_lines 0 i.lines))))))))
  where
    spawned : Tunnel
    spawned = spawn i.obeys u

    runs : IsRunning spawned
    runs = spawn-IsRunning i.obeys u w.idle

    fresh : Tunnel
    fresh = record spawned { stderr = [] }

    reader : Tunnel
    reader = read_stderr c i.output fresh

    read : Kept u reader
    read =
        let k = read_stderr-Kept c i.output fresh in
        record { generation = k.generation; attempts = k.attempts; confirmed = k.confirmed }

    reads : IsRunning reader
    reads =
        read_stderr-IsRunning c i.output fresh
          (record { process = runs.process; children = runs.children })

    left : (b : Bool) → Rests t (cleanup (if b then exits i.status reader else reader))
    left true =
        cleaned-Rests t u (exits i.status reader) w
          (record {
            generation = read.generation;
            attempts = read.attempts;
            confirmed = read.confirmed;
          })
          (exits-IsOwned i.status reader reads)
    left false = cleaned-Rests t u reader w read (IsRunning-IsOwned reader reads)

-- ===== src/Tunnel/Owned.antt =====
-- The processes that the tunnel of hermes_a2a_gateway/ssh_tunnel.py spawned: whatever runs is the process
-- that the tunnel refers to, and the cleanup ends it.
use codex_a2a_gateway.Base.{
  ℕ, ◌+◌, ◌*◌, ◌≡◌, ◌∙◌, ap, sym, refl, Bool, true, false, not, ◌&&◌, ◌||◌, Option, none, some,
  List, [], ◌∷◌, inl, inr, arith, leb, is_some, Bool-cases,
}
use codex_a2a_gateway.Texts.{Text}
use codex_a2a_gateway.Tunnel.Config.{SshConfig}
use codex_a2a_gateway.Tunnel.Failures.{ExitStatus}
use codex_a2a_gateway.Tunnel.Process.{
  Tunnel, read_chunk, read_stderr, spawn, exits, terminate, kill, cleanup, Look, Attempt,
  end_process, leave_watch, set_ready, serve, watch, connect,
}

abbrev pub running : Option (Option ExitStatus) → ℕ
running none = 0
running (some none) = 1
running (some (some status)) = 0

-- No process runs but the one that the tunnel refers to.
pub record IsOwned (t : Tunnel) : Type 0 where
  pub children : t.children ≡ running t.process

-- No process runs, and the tunnel refers to none.
pub record IsIdle (t : Tunnel) : Type 0 where
  pub process : t.process ≡ none
  pub children : t.children ≡ 0

pub record IsRunning (t : Tunnel) : Type 0 where
  pub process : t.process ≡ some none
  pub children : t.children ≡ 1

pub IsIdle-IsOwned : (t : Tunnel) → IsIdle t → IsOwned t
IsIdle-IsOwned t i = record { children = i.children ∙ sym (ap running i.process) }

pub IsRunning-IsOwned : (t : Tunnel) → IsRunning t → IsOwned t
IsRunning-IsOwned t i = record { children = i.children ∙ sym (ap running i.process) }

-- SIGTERM ends the process, or SIGKILL does.
ended :
    (obeys : Bool) (p : Option (Option ExitStatus)) (n : ℕ)
    → n ≡ running p
    → (kill (terminate obeys (p, n))).1 ≡ 0
unfolding terminate kill
ended true none n h = h
ended true (some none) n h = omega arith
ended true (some (some status)) n h = h
ended false none n h = h
ended false (some none) n h = omega arith
ended false (some (some status)) n h = h

pub cleanup-IsIdle : (t : Tunnel) → IsOwned t → IsIdle (cleanup t)
unfolding cleanup
cleanup-IsIdle t o = record {
  process = refl;
  children = ended t.obeys t.process t.children o.children;
}

-- The reader changes neither.
record Keeps (t u : Tunnel) : Type 0 where
  process : u.process ≡ t.process
  children : u.children ≡ t.children

read_stderr-Keeps :
    (c : SshConfig) (chunks : List Text) (t : Tunnel) → Keeps t (read_stderr c chunks t)
unfolding read_stderr read_chunk
read_stderr-Keeps c [] t = record { process = refl; children = refl }
read_stderr-Keeps c (chunk ∷ chunks) t =
    let later = read_stderr-Keeps c chunks (read_chunk c chunk t) in
    record { process = later.process; children = later.children }

pub read_stderr-IsRunning :
    (c : SshConfig) (chunks : List Text) (t : Tunnel)
    → IsRunning t
    → IsRunning (read_stderr c chunks t)
read_stderr-IsRunning c chunks t r =
    let k = read_stderr-Keeps c chunks t in
    record { process = k.process ∙ r.process; children = k.children ∙ r.children }

pub spawn-IsRunning : (obeys : Bool) (t : Tunnel) → IsIdle t → IsRunning (spawn obeys t)
unfolding spawn
spawn-IsRunning obeys t i = record { process = refl; children = omega (arith, i.children) }

pub exits-IsOwned : (status : ExitStatus) (t : Tunnel) → IsRunning t → IsOwned (exits status t)
unfolding exits
exits-IsOwned status t r = record { children = omega (arith, r.children) }

end_process-IsOwned :
    (c : SshConfig) (rest : List Text) (status : ExitStatus) (t : Tunnel)
    → IsRunning t
    → IsOwned (end_process c rest status t).1
unfolding end_process
end_process-IsOwned c rest status t r =
    let k = read_stderr-Keeps c rest (exits status t) in
    let o = exits-IsOwned status t r in
    record { children = k.children ∙ o.children ∙ sym (ap running k.process) }

leave_watch-IsOwned :
    (c : SshConfig) (look : Look) (status : Option ExitStatus) (t : Tunnel)
    → IsRunning t
    → IsOwned (leave_watch c look status t).1
unfolding leave_watch
leave_watch-IsOwned c look none t r = IsRunning-IsOwned t r
leave_watch-IsOwned c look (some status) t r = end_process-IsOwned c look.rest status t r

serve-IsOwned :
    (c : SshConfig) (rest : List Text) (served : Option ExitStatus) (t : Tunnel)
    → IsRunning t
    → IsOwned (serve c rest served t).1
unfolding serve
serve-IsOwned c rest none t r = IsRunning-IsOwned t r
serve-IsOwned c rest (some status) t r = end_process-IsOwned c rest status t r

set_ready-IsRunning : (now : ℕ) (t : Tunnel) → IsRunning t → IsRunning (set_ready now t)
unfolding set_ready
set_ready-IsRunning now t r = record { process = r.process; children = r.children }

watch-IsOwned :
    (c : SshConfig) (deadline : ℕ) (looks : List Look) (t : Tunnel)
    → IsRunning t
    → IsOwned (watch c deadline looks t).1
unfolding watch
watch-IsOwned c deadline [] t r = IsRunning-IsOwned t r
watch-IsOwned c deadline (look ∷ looks) t r =
    elim (Bool-cases (is_some look.status || leb deadline look.now)) [
      | inl left ↦ rw left (leave_watch-IsOwned c look look.status after_output first)
      | inr stays ↦ rw stays (elim (Bool-cases (not look.accepted)) [
        | inl closed ↦ rw closed (watch-IsOwned c deadline looks after_output first)
        | inr open_port ↦ rw open_port (elim (Bool-cases (not look.closes)) [
          | inl broken ↦ rw broken (IsRunning-IsOwned after_output first)
          | inr closes ↦
              rw closes
                (elim (Bool-cases
                  (not (is_some look.later_status) && after_accept.forward_confirmed)) [
                    | inl served ↦ rw served (
                        serve-IsOwned c look.rest look.served (set_ready look.ready_at after_accept)
                          (set_ready-IsRunning look.ready_at after_accept second))
                    | inr unserved ↦
                        rw unserved (watch-IsOwned c deadline looks after_accept second)
                  ])
        ])
      ])
    ]
  where
    after_output : Tunnel
    after_output = read_stderr c look.output t

    after_accept : Tunnel
    after_accept = read_stderr c look.later_output after_output

    first : IsRunning after_output
    first = read_stderr-IsRunning c look.output t r

    second : IsRunning after_accept
    second = read_stderr-IsRunning c look.later_output after_output first

pub connect-IsOwned :
    (c : SshConfig) (a : Attempt) (t : Tunnel) → IsIdle t → IsOwned (connect c a t).1
unfolding connect
connect-IsOwned c a t i = elim (Bool-cases (not a.port_is_free)) [
  | inl busy ↦ rw busy (IsIdle-IsOwned _ (record { process = i.process; children = i.children }))
  | inr free ↦ rw free (elim (Bool-cases (not a.spawns)) [
    | inl missing ↦ rw missing (IsIdle-IsOwned fresh idle)
    | inr spawned ↦ rw spawned (
        watch-IsOwned c (a.begun + (c.connect_timeout + 1) * 1000) a.looks (spawn a.obeys fresh)
          (spawn-IsRunning a.obeys fresh idle))
  ])
]
  where
    fresh : Tunnel
    fresh = record t { ready_since = none; stderr = []; forward_confirmed = false }

    idle : IsIdle fresh
    idle = record { process = i.process; children = i.children }

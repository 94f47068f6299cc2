-- ===== src/Tunnel/Process.antt =====
-- The ssh process of hermes_a2a_gateway/ssh_tunnel.py: the reader of its output (`_read_stderr`), its
-- end (`_cleanup`) and one connection (`_connect`). What ssh,
-- the local port and the clock do at each look is the argument; a list of looks that ends is a
-- cancellation by `close`. Times are in milliseconds.
use codex_a2a_gateway.Base.{
  ℕ, ◌+◌, ◌-◌, ◌*◌, Bool, true, false, not, ◌&&◌, ◌||◌, List, [], ◌∷◌, ◌++◌, Option, none, some,
  ltb, leb, length, is_some, if◌then◌else◌,
}
use codex_a2a_gateway.Broker.Content.{codes}
use codex_a2a_gateway.Texts.{Text, occurs, decimal, drop}
use codex_a2a_gateway.Tunnel.Config.{SshConfig}
use codex_a2a_gateway.Tunnel.Failures.{
  FailureCode, TunnelFailure, ExitStatus, classify_failure, fatally, passing,
}

pub data TunnelState : Type 0 where
  stopped starting ready backoff failed : TunnelState

-- The fields of `SSHTunnel` that its behaviour depends on; `process` is none, or the return code of the
-- process, which has none while it runs. Two fields are the operating system's: how many processes that
-- the tunnel spawned run, and whether the last one ends within three seconds of SIGTERM.
pub record Tunnel : Type 0 where
  pub state : TunnelState
  pub error : Option FailureCode
  pub attempts : ℕ
  pub retry_at : Option ℕ
  pub generation : ℕ
  pub is_ready : Bool
  pub process : Option (Option ExitStatus)
  pub stderr : Text
  pub forward_confirmed : Bool
  pub ready_since : Option ℕ
  pub children : ℕ
  pub obeys : Bool

-- `__init__`.
abbrev pub new_tunnel : Tunnel
new_tunnel = record {
  state = TunnelState.stopped;
  error = none;
  attempts = 0;
  retry_at = none;
  generation = 0;
  is_ready = false;
  process = none;
  stderr = [];
  forward_confirmed = false;
  ready_since = none;
  children = 0;
  obeys = true;
}

unfoldable pub available : Tunnel → Bool
available t = t.is_ready && elim t.process [ some none ↦ true | _ ↦ false ]

abbrev pub kept_bytes : ℕ
kept_bytes = 16384

abbrev pub confirmation : SshConfig → Text
confirmation c =
    codes "Local forwarding listening on 127.0.0.1 port " ++ (decimal c.local_port ++ b'.' ∷ [])

-- del stderr[:-16384].
unfoldable pub last_bytes : Text → Text
unfolding drop
last_bytes s = if ltb kept_bytes (length s) then drop (length s - kept_bytes) s else s

-- One round of the reader's loop.
unfoldable pub read_chunk : SshConfig → Text → Tunnel → Tunnel
unfolding last_bytes occurs
read_chunk c chunk t =
    let seen = t.stderr ++ chunk in
    record t {
      forward_confirmed = t.forward_confirmed || occurs (confirmation c) seen;
      stderr = last_bytes seen;
    }

unfoldable pub read_stderr : SshConfig → List Text → Tunnel → Tunnel
unfolding read_chunk
read_stderr c [] t = t
read_stderr c (chunk ∷ chunks) t = read_stderr c chunks (read_chunk c chunk t)

-- `_spawn`: the process before is no longer referred to.
unfoldable pub spawn : Bool → Tunnel → Tunnel
spawn obeys t = record t { process = some none; children = t.children + 1; obeys = obeys }

-- The process ends.
unfoldable pub exits : ExitStatus → Tunnel → Tunnel
exits status t = record t { process = some (some status); children = t.children - 1 }

-- `_signal_owned_group` with SIGTERM and the wait of three seconds: what is known of the process, and how
-- many processes run.
unfoldable pub terminate : Bool → Option (Option ExitStatus) × ℕ → Option (Option ExitStatus) × ℕ
terminate true (some none, n) = (some (some (ExitStatus.signaled 15)), n - 1)
terminate _ p = p

-- SIGKILL, where the wait timed out, and the wait after it.
unfoldable pub kill : Option (Option ExitStatus) × ℕ → Option (Option ExitStatus) × ℕ
kill (some none, n) = (some (some (ExitStatus.signaled 9)), n - 1)
kill p = p

-- `_cleanup`; the reader stops with the process.
unfoldable pub cleanup : Tunnel → Tunnel
unfolding terminate kill
cleanup t = record t {
  is_ready = false;
  process = none;
  children = (kill (terminate t.obeys (t.process, t.children))).1;
}

-- How an attempt ends: by a failure, by an error of the operating system, or by cancellation.
pub data AttemptEnd : Type 0 where
  failure : TunnelFailure → AttemptEnd
  os_error canceled : AttemptEnd

-- A look of `_connect` at the process: what it wrote since the last one, whether it runs, the time,
-- whether the port took a connection, and whether its writer closed without an OSError; then, where it
-- did, the same again, the time when the tunnel is
-- set ready, and how the process that serves ends. `rest` is what the reader had still to read.
pub record Look : Type 0 where
  pub output : List Text
  pub status : Option ExitStatus
  pub now : ℕ
  pub accepted : Bool
  pub closes : Bool
  pub later_output : List Text
  pub later_status : Option ExitStatus
  pub ready_at : ℕ
  pub served : Option ExitStatus
  pub rest : List Text

unfoldable pub end_process : SshConfig → List Text → ExitStatus → Tunnel → AttemptEnd × Tunnel
unfolding read_stderr classify_failure exits
end_process c rest status t =
    let t' = read_stderr c rest (exits status t) in
    (failure (classify_failure t'.stderr (some status)), t')

-- The `while` loop is left while the process runs, or after it has ended.
unfoldable pub leave_watch : SshConfig → Look → Option ExitStatus → Tunnel → AttemptEnd × Tunnel
unfolding end_process
leave_watch c look none t = (failure (passing FailureCode.startup_timeout), t)
leave_watch c look (some status) t = end_process c look.rest status t

unfoldable pub set_ready : ℕ → Tunnel → Tunnel
set_ready now t = record t {
  state = TunnelState.ready;
  error = none;
  ready_since = some now;
  generation = t.generation + 1;
  is_ready = true;
}

-- await self.process.wait(), after which the loop is left.
unfoldable pub serve : SshConfig → List Text → Option ExitStatus → Tunnel → AttemptEnd × Tunnel
unfolding end_process
serve c rest none t = (canceled, t)
serve c rest (some status) t = end_process c rest status t

unfoldable pub watch : SshConfig → ℕ → List Look → Tunnel → AttemptEnd × Tunnel
unfolding read_stderr leave_watch set_ready serve
watch c deadline [] t = (canceled, t)
watch c deadline (look ∷ looks) t =
    let t' = read_stderr c look.output t in
    let t'' = read_stderr c look.later_output t' in
    let waits = watch c deadline looks t' in
    let waits_again = watch c deadline looks t'' in
    if is_some look.status || leb deadline look.now
    then leave_watch c look look.status t'
    else if not look.accepted
    then waits
    else if not look.closes
    then (os_error, t')
    else if not (is_some look.later_status) && t''.forward_confirmed
    then serve c look.rest look.served (set_ready look.ready_at t'')
    else waits_again

-- What happens around an attempt: whether the port is free and the process is spawned, and when its
-- looks begin.
pub record Attempt : Type 0 where
  pub port_is_free : Bool
  pub spawns : Bool
  pub obeys : Bool
  pub begun : ℕ
  pub looks : List Look

unfoldable pub connect : SshConfig → Attempt → Tunnel → AttemptEnd × Tunnel
unfolding watch spawn
connect c a t =
    let fresh = record t { ready_since = none; stderr = []; forward_confirmed = false } in
    if not a.port_is_free
    then (failure (fatally FailureCode.local_port_in_use), record t { ready_since = none })
    else if not a.spawns
    then (os_error, fresh)
    else watch c (a.begun + (c.connect_timeout + 1) * 1000) a.looks (spawn a.obeys fresh)

-- ===== src/Tunnel/Tests.antt =====
-- The theorems on the tunnel applied to a small configuration and one run, and tests of the code.
use codex_a2a_gateway.Base.{◌≡◌, refl, inl, inr, true, false, none, some, List, [], ◌∷◌, arith}
use codex_a2a_gateway.Broker.Content.{codes, lower}
use codex_a2a_gateway.Texts.{Text, starts, occurs, concat, decimal, drop}
use codex_a2a_gateway.Tunnel.Config.{SshConfig, ConfigError, check_config, mode_arguments}
use codex_a2a_gateway.Tunnel.Failures.{FailureCode, ExitStatus, classify_failure}
use codex_a2a_gateway.Tunnel.Process.{
  Tunnel, new_tunnel, confirmation, read_stderr, Look, Attempt, connect,
}
use codex_a2a_gateway.Tunnel.Inspections.{Inspection, inspect_configuration}
use codex_a2a_gateway.Tunnel.Supervisor.{Round, RunEnd, run_tunnel}
use codex_a2a_gateway.Tunnel.Output.{read_stderr-confirmed}
use codex_a2a_gateway.Tunnel.Fatal.{classify_failure-final}
use codex_a2a_gateway.Tunnel.Confirmed.{Rises, connect-Rises}
use codex_a2a_gateway.Tunnel.Settled.{Settles, run_tunnel-Settles}

abbrev small_config : SshConfig
small_config = record {
  host = "-evil";
  local_port = 18790;
  remote_host = "::1";
  remote_port = 443;
  user = some "me";
  port = none;
  identity_file = none;
  command = "ssh";
  connect_timeout = 10;
}

-- A host that begins with a dash is refused.
host_test : check_config (λ t. false) small_config ≡ some ConfigError.hosts
unfolding check_config
host_test = refl

config_test :
    check_config
      (λ t. false)
      (record small_config { host = "broker.example"; remote_host = "127.0.0.1" })
    ≡ none
unfolding check_config
config_test = refl

forward_test :
    mode_arguments false small_config ≡ codes "-L" ∷ codes "127.0.0.1:18790:[::1]:443" ∷ []
unfolding mode_arguments occurs starts decimal
forward_test = refl

abbrev chunks : List Text
chunks = codes "debug1: Local forwarding listening on 127.0" ∷ codes ".0.1 port 18790.\n" ∷ []

-- The confirmation is cut by the chunks.
read_stderr-confirmed_example :
    (read_stderr small_config chunks new_tunnel).forward_confirmed
    ≡ occurs (confirmation small_config) (concat chunks)
read_stderr-confirmed_example =
    read_stderr-confirmed small_config new_tunnel chunks (omega arith) refl refl

confirmed_test : (read_stderr small_config chunks new_tunnel).forward_confirmed ≡ true
unfolding read_stderr occurs starts drop decimal
confirmed_test = refl

classify_failure-final_example :
    (classify_failure (codes "me@host: Permission denied") (some ExitStatus.success)).retryable
    ≡ false
unfolding lower
classify_failure-final_example =
    classify_failure-final (codes "me@host: Permission denied") (codes "me@host: ") []
      "permission denied" (some ExitStatus.success) (inr (inl (inl refl))) refl

abbrev clean : Inspection
clean = record {
  identity_exists = true;
  spawns = true;
  is_canceled_spawning = false;
  obeys = false;
  is_canceled = false;
  lines = codes "hostname broker\n" ∷ [];
  is_timely = true;
  status = ExitStatus.success;
  output = [];
}

-- The process confirms, serves, and loses its connection.
abbrev served_look : Look
served_look = record {
  output = chunks;
  status = none;
  now = 100;
  accepted = true;
  closes = true;
  later_output = [];
  later_status = none;
  ready_at = 200;
  served = some (ExitStatus.exited 255);
  rest = codes "Connection reset\n" ∷ [];
}

abbrev served_attempt : Attempt
served_attempt = record {
  port_is_free = true;
  spawns = true;
  obeys = true;
  begun = 0;
  looks = served_look ∷ [];
}

connect-Rises_example : Rises new_tunnel (connect small_config served_attempt new_tunnel).1
connect-Rises_example = connect-Rises small_config served_attempt new_tunnel

abbrev first_round : Round
first_round = record {
  inspection = clean;
  attempt = served_attempt;
  ended = 5000;
  factor = 1000;
  waits_from = 5000;
  is_awaited = true;
}

abbrev busy_round : Round
busy_round = record first_round { attempt = record served_attempt { port_is_free = false } }

-- It is tried again, and gives up as the port is taken.
abbrev tunnel_run : RunEnd × Tunnel
tunnel_run = run_tunnel small_config clean (first_round ∷ busy_round ∷ first_round ∷ []) new_tunnel

run_test :
    (tunnel_run.0 ≡ RunEnd.gave_up)
    × (tunnel_run.1.attempts ≡ 2)
    × (tunnel_run.1.generation ≡ 1)
    × (tunnel_run.1.error ≡ some FailureCode.local_port_in_use)
unfolding run_tunnel classify_failure read_stderr occurs starts drop decimal connect
    inspect_configuration
run_test = (refl, refl, refl, refl)

run_tunnel-Settles_example : Settles new_tunnel tunnel_run
run_tunnel-Settles_example =
    run_tunnel-Settles small_config clean (first_round ∷ busy_round ∷ first_round ∷ []) new_tunnel
      (record { process = refl; children = refl })

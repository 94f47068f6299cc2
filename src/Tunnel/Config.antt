-- ===== src/Tunnel/Config.antt =====
-- `valid_host` and `SSHConfig` of hermes_a2a_gateway/ssh_tunnel.py: the checks of the configuration and
-- the arguments of ssh. `ipaddress.ip_address` and `Path.expanduser` are parameters. A port or a time
-- that is no natural number fails the checks as zero does.
use Prim.Native.String.{count}
use codex_a2a_gateway.Base.{
  ℕ, String, Bool, true, false, not, ◌&&◌, ◌||◌, List, [], ◌∷◌, ◌++◌, Option, none, some, ltb, leb,
  ◌==◌, if◌then◌else◌,
}
use codex_a2a_gateway.Broker.Content.{codes}
use codex_a2a_gateway.Texts.{Text, starts, occurs, decimal, same_text}

pub record SshConfig : Type 0 where
  pub host : String
  pub local_port : ℕ
  pub remote_host : String
  pub remote_port : ℕ
  pub user : Option String
  pub port : Option ℕ
  pub identity_file : Option String
  pub command : String
  pub connect_timeout : ℕ

unfoldable pub is_alphanumeric : ℕ → Bool
is_alphanumeric c =
    (leb b'0' c && leb c b'9') || ((leb b'A' c && leb c b'Z') || (leb b'a' c && leb c b'z'))

abbrev pub is_name_mark : ℕ → Bool
is_name_mark c = (c == b'.') || ((c == b'_') || (c == b'-'))

-- (?:[A-Za-z0-9._-]*[A-Za-z0-9])?, to the end.
unfoldable pub is_host_rest : Text → Bool
unfolding is_alphanumeric
is_host_rest [] = true
is_host_rest (c ∷ []) = is_alphanumeric c
is_host_rest (c ∷ d ∷ s) = (is_alphanumeric c || is_name_mark c) && is_host_rest (d ∷ s)

unfoldable pub is_host_name : Text → Bool
unfolding is_alphanumeric is_host_rest
is_host_name [] = false
is_host_name (c ∷ s) = is_alphanumeric c && is_host_rest s

unfoldable pub are_account_marks : Text → Bool
unfolding is_alphanumeric
are_account_marks [] = true
are_account_marks (c ∷ s) = (is_alphanumeric c || is_name_mark c) && are_account_marks s

-- [A-Za-z0-9_][A-Za-z0-9_.-]{0,63}.
unfoldable pub is_account : String → Bool
unfolding is_alphanumeric are_account_marks
is_account t = elim (codes t) [
  | [] ↦ false
  | c ∷ s ↦ (is_alphanumeric c || (c == b'_')) && (are_account_marks s && leb (count t) 64)
]

unfoldable pub has_line_mark : Text → Bool
has_line_mark [] = false
has_line_mark (c ∷ s) = ((c == 13) || ((c == 10) || (c == 0))) || has_line_mark s

unfoldable pub is_command : Text → Bool
unfolding has_line_mark
is_command [] = false
is_command (c ∷ s) = not (c == b'-') && not (has_line_mark (c ∷ s))

unfoldable pub is_path : Text → Bool
unfolding has_line_mark
is_path [] = false
is_path (c ∷ s) = not (has_line_mark (c ∷ s))

abbrev pub is_port : ℕ → ℕ → Bool
is_port minimum p = leb minimum p && leb p 65535

abbrev pub for_some : {A : Type 0} → (A → Bool) → Option A → Bool
for_some test none = true
for_some test (some a) = test a

-- What `__post_init__` raises.
pub data ConfigError : Type 0 where
  hosts user local_port remote_port port connect_timeout command identity_file : ConfigError

module _ (is_address : String → Bool) where
  unfoldable pub valid_host : String → Bool
  unfolding is_host_name
  valid_host t = (ltb 0 (count t) && leb (count t) 253) && (is_address t || is_host_name (codes t))

  unfoldable pub check_config : SshConfig → Option ConfigError
  unfolding valid_host is_account is_command is_path
  check_config c =
      if not (valid_host c.host && valid_host c.remote_host)
      then some ConfigError.hosts
      else if not (for_some is_account c.user)
      then some ConfigError.user
      else if not (is_port 1024 c.local_port)
      then some ConfigError.local_port
      else if not (is_port 1 c.remote_port)
      then some ConfigError.remote_port
      else if not (for_some (is_port 1) c.port)
      then some ConfigError.port
      else if not (leb 1 c.connect_timeout && leb c.connect_timeout 60)
      then some ConfigError.connect_timeout
      else if not (is_command (codes c.command))
      then some ConfigError.command
      else if not (for_some (λ f. is_path (codes f)) c.identity_file)
      then some ConfigError.identity_file
      else none

-- The options in their order.
unfoldable pub options : ℕ → List (Text × Text)
options timeout =
    (codes "LogLevel", codes "DEBUG1")
    ∷ (codes "BatchMode", codes "yes")
    ∷ (codes "StrictHostKeyChecking", codes "yes")
    ∷ (codes "ExitOnForwardFailure", codes "yes")
    ∷ (codes "ConnectTimeout", decimal timeout)
    ∷ (codes "ConnectionAttempts", codes "1")
    ∷ (codes "ServerAliveInterval", codes "15")
    ∷ (codes "ServerAliveCountMax", codes "3")
    ∷ (codes "ControlMaster", codes "no")
    ∷ (codes "ControlPath", codes "none")
    ∷ (codes "ControlPersist", codes "no")
    ∷ (codes "ForkAfterAuthentication", codes "no")
    ∷ (codes "PermitLocalCommand", codes "no")
    ∷ (codes "GatewayPorts", codes "no")
    ∷ (codes "ForwardAgent", codes "no")
    ∷ (codes "ForwardX11", codes "no")
    ∷ []

abbrev pub assign : Text → Text → Text
assign k v = k ++ b'=' ∷ v

unfoldable pub option_arguments : List (Text × Text) → List Text
option_arguments [] = []
option_arguments ((k, v) ∷ rest) = codes "-o" ∷ assign k v ∷ option_arguments rest

unfoldable pub port_arguments : Option ℕ → List Text
port_arguments none = []
port_arguments (some p) = codes "-p" ∷ decimal p ∷ []

-- An empty name counts as none.
unfoldable pub user_arguments : Option String → List Text
user_arguments none = []
user_arguments (some u) = if ltb 0 (count u) then codes "-l" ∷ codes u ∷ [] else []

unfoldable pub identity_arguments : (String → Text) → Option String → List Text
identity_arguments expand none = []
identity_arguments expand (some f) =
    if ltb 0 (count f)
    then codes "-i" ∷ expand f ∷ codes "-o" ∷ codes "IdentitiesOnly=yes" ∷ []
    else []

-- An address with colons stands in brackets.
unfoldable pub bracketed : Text → Text
unfolding occurs
bracketed h = if occurs (b':' ∷ []) h then b'[' ∷ (h ++ b']' ∷ []) else h

unfoldable pub forward_of : SshConfig → Text
unfolding bracketed
forward_of c =
    codes "127.0.0.1:"
    ++ (decimal c.local_port
        ++ b':' ∷ (bracketed (codes c.remote_host) ++ b':' ∷ decimal c.remote_port))

unfoldable pub mode_arguments : Bool → SshConfig → List Text
unfolding forward_of
mode_arguments true c = codes "-G" ∷ []
mode_arguments false c = codes "-L" ∷ forward_of c ∷ []

unfoldable pub argv : (String → Text) → Bool → SshConfig → List Text
unfolding options option_arguments port_arguments user_arguments identity_arguments mode_arguments
argv expand inspect c =
    codes c.command
    ∷ codes "-N"
    ∷ codes "-T"
    ∷ codes "-n"
    ∷ (option_arguments (options c.connect_timeout)
        ++ (port_arguments c.port
            ++ (user_arguments c.user
                ++ (identity_arguments expand c.identity_file
                    ++ (mode_arguments inspect c ++ codes "--" ∷ codes c.host ∷ [])))))

-- `SSHTunnel.environment`: what ssh inherits.
abbrev pub private_prefixes : List Text
private_prefixes =
    codes "CODEX_A2A_GATEWAY_"
    ∷ codes "HERMES_A2A_GATEWAY_"
    ∷ codes "CODEX_BRIDGE_"
    ∷ codes "HERMES_BRIDGE_"
    ∷ []

abbrev pub private_names : List Text
private_names = codes "HERMES_A2A_TOKEN" ∷ codes "A2A_GATEWAY_TOKEN" ∷ []

unfoldable pub starts_any : List Text → Text → Bool
unfolding starts
starts_any [] t = false
starts_any (p ∷ prefixes) t = starts p t || starts_any prefixes t

unfoldable pub is_one_of : List Text → Text → Bool
unfolding same_text
is_one_of [] t = false
is_one_of (name ∷ names) t = same_text name t || is_one_of names t

unfoldable pub environment : List (Text × Text) → List (Text × Text)
unfolding starts_any is_one_of
environment [] = []
environment ((key, value) ∷ rest) =
    let kept = environment rest in
    if not (starts_any private_prefixes key) && not (is_one_of private_names key)
    then (key, value) ∷ kept
    else kept

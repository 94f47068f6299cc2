-- ===== src/Settings/Transport.antt =====
-- `ClientSettings` of hermes_a2a_gateway/client_settings.py: `__post_init__` and `ssh_config`. The
-- splitter of URLs, `ipaddress` and the test of a Fernet key are parameters. A whole number that is
-- negative fails the bounds as zero does.
use codex_a2a_gateway.Base.{
  ℕ, String, Bool, false, not, ◌&&◌, ◌||◌, Option, none, some, ltb, ◌==◌, same, if◌then◌else◌,
}
use codex_a2a_gateway.Tx.Errors.{Result, ok, err, value_error}
use codex_a2a_gateway.Broker.Content.{codes, contains}
use codex_a2a_gateway.Texts.{Text, same_text}
use codex_a2a_gateway.Peer.Urls.{UrlParts, is_empty}
use codex_a2a_gateway.Tunnel.Config.{SshConfig, ConfigError, valid_host, check_config}
use codex_a2a_gateway.Settings.Policy.{
  Seconds, is_within, refuse_if, is_origin, has_no_path, between,
}

pub record ClientValues : Type 0 where
  pub broker_url : Text
  pub token : Text
  pub payload_key : Text
  pub allow_loopback_http : Bool
  pub inline_wait_seconds : Seconds
  pub request_timeout_seconds : Seconds
  pub max_upload_bytes : ℕ
  pub retention_seconds : Seconds
  pub payload_ttl_seconds : Seconds
  pub max_pending : ℕ
  pub transport_mode : String
  pub ssh_host : Option String
  pub ssh_user : Option String
  pub ssh_port : Option ℕ
  pub ssh_identity_file : Option String
  pub ssh_command : String
  pub ssh_local_port : ℕ
  pub ssh_remote_host : String
  pub ssh_remote_port : ℕ
  pub ssh_tls_server_name : Option String
  pub ssh_connect_timeout_seconds : ℕ

-- The code that the settings call.
pub record ClientParsers : Type 0 where
  -- none is a ValueError.
  pub urlsplit : Text → Option UrlParts
  -- ipaddress.ip_address(host).is_loopback, where the host is an address.
  pub ip_address : Text → Option Bool
  pub is_address : String → Bool
  pub is_fernet_key : Text → Bool

-- not math.isfinite(value) or value <= 0.
unfoldable pub is_positive : Seconds → Bool
is_positive (Seconds.fraction n d) = ltb 0 n
is_positive _ = false

unfoldable pub is_mode : String → Bool
is_mode s = same s "direct" || same s "ssh-tunnel"

abbrev pub is_tunneled : ClientValues → Bool
is_tunneled v = same v.transport_mode "ssh-tunnel"

abbrev pub has_port : ℕ → Option ℕ → Bool
has_port p none = false
has_port p (some q) = q == p

-- not token or "\n" in token or "\r" in token.
unfoldable pub is_bad_token : Text → Bool
unfolding contains
is_bad_token t = is_empty t || (contains 10 t || contains 13 t)

unfoldable pub make_config : SshConfig → Option ConfigError → Result SshConfig
make_config c none = ok c
make_config c (some e) = err (value_error "invalid SSH configuration")

abbrev pub config_of : ClientValues → String → SshConfig
config_of v host = record {
  host = host;
  local_port = v.ssh_local_port;
  remote_host = v.ssh_remote_host;
  remote_port = v.ssh_remote_port;
  user = v.ssh_user;
  port = v.ssh_port;
  identity_file = v.ssh_identity_file;
  command = v.ssh_command;
  connect_timeout = v.ssh_connect_timeout_seconds;
}

-- The URL of the tunnel's own end.
unfoldable pub is_local_end : ClientValues → UrlParts → Bool
unfolding same_text
is_local_end v u =
    same_text u.scheme (codes "https")
    && same_text u.hostname (codes "127.0.0.1")
    && has_port v.ssh_local_port u.port

unfoldable pub validate_numbers : ClientValues → Result ClientValues
unfolding is_positive is_within
validate_numbers v =
    refuse_if (not (is_positive v.request_timeout_seconds))
      "request_timeout_seconds must be finite and positive"
      (refuse_if (not (is_positive v.retention_seconds))
        "retention_seconds must be finite and positive"
        (refuse_if (not (is_positive v.payload_ttl_seconds))
          "payload_ttl_seconds must be finite and positive"
          (refuse_if (not (is_within 0 60000 v.inline_wait_seconds))
            "INLINE_WAIT_SECONDS must be finite and between 0 and 60"
            (refuse_if (not (is_within 0 300000 v.request_timeout_seconds))
              "client wait or request timeout exceeds limit"
              (refuse_if
                (not (between 1 33554432 v.max_upload_bytes) || not (between 1 10000 v.max_pending))
                "invalid client upload or admission bound" (ok v))))))

module _ (F : ClientParsers) where
  -- `ssh_config`, with the checks of `SSHConfig`.
  unfoldable pub ssh_config : ClientValues → Result SshConfig
  unfolding make_config
  ssh_config v = elim v.ssh_host [
    | none ↦ err (value_error "SSH_HOST is required in ssh-tunnel mode")
    | some host ↦ make_config (config_of v host) (check_config F.is_address (config_of v host))
  ]

  unfoldable pub is_loopback_host : Text → Bool
  unfolding same_text
  is_loopback_host host = elim (F.ip_address host) [
    | none ↦ same_text host (codes "localhost")
    | some loopback ↦ loopback
  ]

  unfoldable pub is_bad_server_name : ClientValues → Bool
  unfolding valid_host
  is_bad_server_name v = elim v.ssh_tls_server_name [
    | none ↦ false
    | some name ↦ not (is_tunneled v) || not (valid_host F.is_address name)
  ]

  unfoldable pub is_plain : ClientValues → UrlParts → Bool
  unfolding is_loopback_host same_text
  is_plain v u =
      not (same_text u.scheme (codes "https"))
      && not (
          same_text u.scheme (codes "http") && is_loopback_host u.hostname && v.allow_loopback_http)

  unfoldable pub validate_broker : ClientValues → UrlParts → Result ClientValues
  unfolding is_bad_server_name is_origin has_no_path is_plain is_bad_token validate_numbers
  validate_broker v u =
      refuse_if (is_bad_server_name v)
        "SSH_TLS_SERVER_NAME requires ssh-tunnel and a valid certificate hostname"
        (refuse_if (not (is_origin u))
          "BROKER_URL must be an origin without credentials, query or fragment"
          (refuse_if (not (has_no_path u)) "BROKER_URL must not contain a path" (
            refuse_if (is_plain v u)
              "BROKER_URL requires HTTPS; HTTP is restricted to explicit loopback development"
              (refuse_if (is_bad_token v.token)
                "CLIENT_TOKEN is required and must be a valid bearer token"
                (refuse_if (not (F.is_fernet_key v.payload_key))
                  "CLIENT_PAYLOAD_KEY must be an environment-provided Fernet key"
                  (validate_numbers v))))))

  unfoldable pub validate_tunnel : ClientValues → UrlParts → Result SshConfig → Result ClientValues
  unfolding is_local_end validate_broker
  validate_tunnel v u (err e) = err e
  validate_tunnel v u (ok config) =
      refuse_if (not (is_local_end v u) || u.has_port_error)
        "SSH tunnel BROKER_URL must be https://127.0.0.1:<SSH_LOCAL_PORT>" (validate_broker v u)

  unfoldable pub validate_parts : ClientValues → UrlParts → Result ClientValues
  unfolding validate_tunnel ssh_config
  validate_parts v u =
      if is_tunneled v then validate_tunnel v u (ssh_config v) else validate_broker v u

  -- `__post_init__`.
  unfoldable pub post_init : ClientValues → Result ClientValues
  unfolding is_mode validate_parts
  post_init v =
      refuse_if (not (is_mode v.transport_mode)) "TRANSPORT_MODE must be direct or ssh-tunnel"
        (elim (F.urlsplit v.broker_url) [
          | none ↦ err (value_error "invalid URL")
          | some u ↦ validate_parts v u
        ])

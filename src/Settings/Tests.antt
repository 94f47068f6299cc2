-- ===== src/Settings/Tests.antt =====
-- The theorems on settings applied to small ones.
use codex_a2a_gateway.Base.{
  String, ◌≡◌, refl, true, false, Bool, none, some, [], ◌∷◌, if◌then◌else◌,
}
use codex_a2a_gateway.Tx.Errors.{err, value_error}
use codex_a2a_gateway.Broker.Demo.{demo_settings}
use codex_a2a_gateway.Broker.Content.{codes, contains, lower}
use codex_a2a_gateway.Texts.{Text, starts, same_text}
use codex_a2a_gateway.Peer.Urls.{UrlParts, UrlParsers, is_loopback_parts, is_loopback_url}
use codex_a2a_gateway.Tunnel.Config.{
  is_alphanumeric, is_host_rest, is_host_name, are_account_marks, is_account, has_line_mark,
  is_command, is_path, valid_host, check_config,
}
use codex_a2a_gateway.Settings.Policy.{
  Seconds, is_within, BrokerValues, are_in_bounds, is_unfit, has_unfit, has_secret, has_repeated,
  host_url, is_origin, has_no_path, is_loopback_served, is_insecure, validate_origin, validate_url,
  validate_policy, read_settings,
}
use codex_a2a_gateway.Settings.Secure.{IsServed, read_settings-IsServed}
use codex_a2a_gateway.Settings.Transport.{
  ClientValues, ClientParsers, is_positive, is_mode, is_bad_token, make_config, is_local_end,
  validate_numbers, ssh_config, is_loopback_host, is_bad_server_name, is_plain, validate_broker,
  validate_tunnel, validate_parts, post_init,
}
use codex_a2a_gateway.Settings.Private.{IsPrivate, post_init-IsPrivate}

abbrev parts_of : Text → UrlParts
parts_of s = record {
  scheme = if starts (codes "https:") s then codes "https" else codes "http";
  hostname = if starts (codes "https:") s then codes "127.0.0.1" else codes "localhost";
  username = [];
  password = [];
  query = [];
  fragment = [];
  path = [];
  port = some 18790;
  has_port_error = false;
}

abbrev parsers : UrlParsers
parsers = record { urlparse = λ s. some (parts_of s); is_loopback_address = λ s. false }

abbrev any_key : Text → Bool
any_key s = true

abbrev laptop_token : String
laptop_token = "0123456789abcdef0123456789abcdef"

abbrev desktop_token : String
desktop_token = "fedcba9876543210fedcba9876543210"

abbrev values : BrokerValues
values = record {
  database_url = "postgresql:///broker";
  device_tokens = ("laptop", laptop_token) ∷ ("desktop", desktop_token) ∷ [];
  encryption_key = codes "key";
  public_url = codes "http://localhost:8790";
  host = codes "127.0.0.1";
  port = 8790;
  allow_loopback_http = true;
  bounds = record demo_settings { max_result_bytes = 1024 };
  max_request_bytes = 1024;
  poll_seconds = Seconds.fraction 1 0;
  peer_timeout_seconds = Seconds.fraction 300 0;
}

-- Names what these examples compute with.
unfoldable computing_settings : Unit {0}
unfolding starts same_text contains lower is_loopback_parts is_loopback_url is_within are_in_bounds
    is_unfit has_unfit has_secret has_repeated host_url is_origin has_no_path is_loopback_served
    is_insecure validate_origin validate_url validate_policy read_settings
computing_settings = tt

read_settings-IsServed_example : IsServed parsers values
unfolding computing_settings
read_settings-IsServed_example = read_settings-IsServed parsers any_key values values refl

-- Plain HTTP is refused where it is not allowed, also on a loopback host.
plain_refused :
    validate_policy parsers any_key (record values { allow_loopback_http = false })
    ≡ err (value_error "HTTPS is required except explicit loopback development")
unfolding computing_settings
plain_refused = refl

abbrev client_parsers : ClientParsers
client_parsers = record {
  urlsplit = λ s. some (parts_of s);
  ip_address = λ s. none;
  is_address = λ s. false;
  is_fernet_key = any_key;
}

abbrev client_values : ClientValues
client_values = record {
  broker_url = codes "https://127.0.0.1:18790";
  token = codes "secret";
  payload_key = codes "key";
  allow_loopback_http = false;
  inline_wait_seconds = Seconds.fraction 15 0;
  request_timeout_seconds = Seconds.fraction 20 0;
  max_upload_bytes = 8388608;
  retention_seconds = Seconds.fraction 604800 0;
  payload_ttl_seconds = Seconds.fraction 86400 0;
  max_pending = 256;
  transport_mode = "ssh-tunnel";
  ssh_host = some "broker.example";
  ssh_user = none;
  ssh_port = none;
  ssh_identity_file = none;
  ssh_command = "ssh";
  ssh_local_port = 18790;
  ssh_remote_host = "127.0.0.1";
  ssh_remote_port = 443;
  ssh_tls_server_name = some "broker.example";
  ssh_connect_timeout_seconds = 10;
}

post_init-IsPrivate_example : IsPrivate client_parsers client_values
unfolding starts same_text contains is_within is_origin has_no_path is_alphanumeric is_host_rest
    is_host_name are_account_marks is_account has_line_mark is_command is_path valid_host
    check_config is_positive is_mode is_bad_token make_config is_local_end validate_numbers
    ssh_config is_loopback_host is_bad_server_name is_plain validate_broker validate_tunnel
    validate_parts post_init
post_init-IsPrivate_example = post_init-IsPrivate client_parsers client_values client_values refl

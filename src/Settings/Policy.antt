-- ===== src/Settings/Policy.antt =====
-- `BrokerSettings` of hermes_a2a_gateway/broker_settings.py: the bounds of its fields and
-- `validate_policy`. The parser of URLs and the test of a Fernet key are parameters. A whole number
-- that is negative fails the bounds as zero does.
use Prim.Native.String.{count}
use codex_a2a_gateway.Base.{
  ℕ, suc, ◌*◌, String, Bool, true, false, not, ◌&&◌, ◌||◌, none, some, List, [], ◌∷◌, ◌++◌, ltb,
  leb, same, if◌then◌else◌,
}
use codex_a2a_gateway.Tx.Errors.{Result, ok, err, value_error}
use codex_a2a_gateway.Broker.Setup.{BrokerSettings}
use codex_a2a_gateway.Broker.Content.{codes, contains}
use codex_a2a_gateway.Texts.{Text, same_text}
use codex_a2a_gateway.Peer.Urls.{UrlParts, UrlParsers, is_empty, is_loopback_url}

-- A float: `fraction n d` is n / (d + 1), where it is finite and not negative.
pub data Seconds : Type 0 where
  not_finite negative : Seconds
  fraction : ℕ → ℕ → Seconds

-- Between bounds that are given in milliseconds.
unfoldable pub is_within : ℕ → ℕ → Seconds → Bool
is_within low high (Seconds.fraction n d) =
    leb (low * suc d) (n * 1000) && leb (n * 1000) (high * suc d)
is_within low high _ = false

-- What the fields are given.
pub record BrokerValues : Type 0 where
  pub database_url : String
  pub device_tokens : List (String × String)
  pub encryption_key : Text
  pub public_url : Text
  pub host : Text
  pub port : ℕ
  pub allow_loopback_http : Bool
  pub bounds : BrokerSettings
  pub max_request_bytes : ℕ
  pub poll_seconds : Seconds
  pub peer_timeout_seconds : Seconds

abbrev pub between : ℕ → ℕ → ℕ → Bool
between low high n = leb low n && leb n high

-- The `ge` and `le` of the fields.
unfoldable pub are_in_bounds : BrokerValues → Bool
unfolding is_within
are_in_bounds v =
    between 1 65535 v.port
    && leb 1 v.bounds.payload_ttl_seconds
    && leb 1 v.bounds.artifact_ttl_seconds
    && leb 1 v.bounds.event_ttl_seconds
    && leb 1 v.bounds.result_ttl_seconds
    && between 1 104857600 v.bounds.max_artifact_bytes
    && leb 1 v.bounds.device_quota_bytes
    && between 1 10000 v.bounds.max_pending_per_device
    && between 1024 16777216 v.max_request_bytes
    && between 1024 16777216 v.bounds.max_result_bytes
    && is_within 50 60000 v.poll_seconds
    && between 1 32 v.bounds.max_concurrent_streams
    && is_within 1000 3600000 v.peer_timeout_seconds

-- not k or len(k) > 128 or not v or len(v) < 32.
unfoldable pub is_unfit : String → String → Bool
is_unfit k v = (same k "" || ltb 128 (count k)) || (same v "" || ltb (count v) 32)

unfoldable pub has_unfit : List (String × String) → Bool
unfolding is_unfit
has_unfit [] = false
has_unfit ((k, v) ∷ tokens) = is_unfit k v || has_unfit tokens

-- len(set(tokens.values())) != len(tokens).
unfoldable pub has_secret : String → List (String × String) → Bool
has_secret s [] = false
has_secret s ((k, v) ∷ tokens) = same s v || has_secret s tokens

unfoldable pub has_repeated : List (String × String) → Bool
unfolding has_secret
has_repeated [] = false
has_repeated ((k, v) ∷ tokens) = has_secret v tokens || has_repeated tokens

abbrev pub no_tokens : List (String × String) → Bool
no_tokens [] = true
no_tokens (x ∷ tokens) = false

-- if ...: raise ValueError(...).
abbrev pub refuse_if : {A : Type 0} → Bool → String → Result A → Result A
refuse_if true m rest = err (value_error m)
refuse_if false m rest = rest

-- f"http://{self.host if ':' not in self.host else '[' + self.host + ']'}".
unfoldable pub host_url : Text → Text
unfolding contains
host_url host =
    codes "http://" ++ (if contains b':' host then b'[' ∷ (host ++ (b']' ∷ [])) else host)

unfoldable pub is_origin : UrlParts → Bool
is_origin u =
    not (is_empty u.hostname)
    && is_empty u.username
    && is_empty u.password
    && is_empty u.query
    && is_empty u.fragment

unfoldable pub has_no_path : UrlParts → Bool
unfolding same_text
has_no_path u = is_empty u.path || same_text u.path (codes "/")

module _ (U : UrlParsers) where
  unfoldable pub is_loopback_served : BrokerValues → Bool
  unfolding host_url is_loopback_url
  is_loopback_served v =
      v.allow_loopback_http
      && (is_loopback_url U v.public_url && is_loopback_url U (host_url v.host))

  -- parsed.scheme != "https" and not (...).
  unfoldable pub is_insecure : BrokerValues → UrlParts → Bool
  unfolding is_loopback_served same_text
  is_insecure v u =
      not (same_text u.scheme (codes "https"))
      && not (same_text u.scheme (codes "http") && is_loopback_served v)

  unfoldable pub validate_origin : BrokerValues → UrlParts → Result BrokerValues
  unfolding is_origin has_no_path is_insecure
  validate_origin v u = refuse_if (not (is_origin u)) "PUBLIC_URL must be an HTTPS origin" (
      refuse_if (not (has_no_path u)) "PUBLIC_URL must be an origin without a path" (
        refuse_if (is_insecure v u) "HTTPS is required except explicit loopback development"
          (ok v)))

  unfoldable pub validate_url : BrokerValues → Result BrokerValues
  unfolding validate_origin
  validate_url v = elim (U.urlparse v.public_url) [
    | none ↦ err (value_error "invalid URL")
    | some u ↦ validate_origin v u
  ]

module _ (U : UrlParsers) (is_fernet_key : Text → Bool) where
  unfoldable pub validate_policy : BrokerValues → Result BrokerValues
  unfolding has_unfit has_repeated is_loopback_served validate_url
  validate_policy v =
      refuse_if (same v.database_url "" || no_tokens v.device_tokens)
        "PostgreSQL and device credentials are required"
        (refuse_if (has_unfit v.device_tokens)
          "device IDs must be bounded and tokens must contain at least 32 characters"
          (refuse_if (has_repeated v.device_tokens) "each device requires a distinct token" (
            refuse_if (not (is_fernet_key v.encryption_key)) "ENCRYPTION_KEY must be a Fernet key" (
              refuse_if (v.allow_loopback_http && not (is_loopback_served U v))
                "ALLOW_LOOPBACK_HTTP requires a loopback bind and public URL" (validate_url U v)))))

  -- The fields come first, then the policy.
  unfoldable pub read_settings : BrokerValues → Result BrokerValues
  unfolding are_in_bounds validate_policy
  read_settings v = if are_in_bounds v then validate_policy v else err (value_error "out of bounds")

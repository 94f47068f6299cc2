-- ===== src/Settings/Secure.antt =====
-- What the accepted settings of the broker promise to `DeviceAuthentication`
-- (hermes_a2a_gateway/broker_settings.py and broker.py).
use text.Mathlib.TextLemmas.{append_cancel_left}
use Prim.Native.String.{◌++◌ as ◌+++◌, count}
use codex_a2a_gateway.Base.{
  ◌≤◌, String, ◌≡◌, refl, sym, ap, subst, Bool, true, false, not, ◌&&◌, ◌||◌, Option, none, some,
  List, [], ◌∷◌, arith, same, eq_iff, inl, inr, In, Bool-cases,
}
use codex_a2a_gateway.Tx.Errors.{Result, ok, err, value_error}
use codex_a2a_gateway.Broker.Content.{codes}
use codex_a2a_gateway.Texts.{Text, same_text}
use codex_a2a_gateway.Peer.Urls.{UrlParts, UrlParsers, is_loopback_url}
use codex_a2a_gateway.Settings.Policy.{
  BrokerValues, is_unfit, has_unfit, has_secret, has_repeated, refuse_if, host_url,
  is_loopback_served, is_origin, has_no_path, is_insecure, validate_origin, validate_url,
  validate_policy, read_settings, no_tokens,
}
use codex_a2a_gateway.Api.Authentication.{
  Scope, AuthenticationSettings, Verdict, authorizations, find_device, bearer, authenticate,
}

-- The rest of the checks was reached.
pub passed :
    {A : Type 0} (b : Bool) (m : String) (rest : Result A) (a : A)
    → refuse_if b m rest ≡ ok a
    → (b ≡ false) × (rest ≡ ok a)
passed true m rest a h = cc
passed false m rest a h = (refl, h)

-- What is said of the transport.
pub record IsSecure (U : UrlParsers) (v : BrokerValues) (u : UrlParts) : Type 0 where
  pub public : U.urlparse v.public_url ≡ some u
  pub plain : same_text u.scheme (codes "https") ≡ false → v.allow_loopback_http ≡ true
  pub loopback :
      v.allow_loopback_http ≡ true
      → (is_loopback_url U v.public_url ≡ true) × (is_loopback_url U (host_url v.host) ≡ true)

abbrev pub authentication : BrokerValues → AuthenticationSettings
authentication v = record {
  allow_loopback_http = v.allow_loopback_http;
  device_tokens = v.device_tokens;
}

-- A request that shows the secret, and comes by an allowed transport.
pub record Shows (v : BrokerValues) (secret : String) (scope : Scope) : Type 0 where
  pub kind : same scope.kind "http" ≡ true
  pub path : same scope.path "/healthz" ≡ false
  pub scheme : (same scope.scheme "https" || v.allow_loopback_http) ≡ true
  pub only : authorizations scope.headers ≡ ("Bearer " +++ secret) ∷ []

pub record IsServed (U : UrlParsers) (v : BrokerValues) : Type 0 where
  pub parts : UrlParts
  pub transport : IsSecure U v parts
  pub long : (d secret : String) → In (d, secret) v.device_tokens → 32 ≤ count secret
  pub identified :
      (d secret : String)
      → In (d, secret) v.device_tokens
      → (scope : Scope) → Shows v secret scope
      → authenticate (authentication v) scope ≡ Verdict.as_device d

fit_long :
    (tokens : List (String × String))
    → has_unfit tokens ≡ false
    → (d secret : String) → In (d, secret) tokens
    → 32 ≤ count secret
unfolding has_unfit is_unfit
fit_long [] fit d secret m = elim m [ ]
fit_long ((k, v) ∷ tokens) fit d secret (inl e) =
    let same_secret : secret ≡ v = ap (λ x. x.1) e in
    subst (λ x. 32 ≤ count x) (sym same_secret) (ground arith)
fit_long ((k, v) ∷ tokens) fit d secret (inr m) = fit_long tokens (ground arith) d secret m

-- A secret of the later tokens is found among them.
has_secret-In :
    (d secret : String) (tokens : List (String × String))
    → In (d, secret) tokens
    → has_secret secret tokens ≡ true
unfolding has_secret
has_secret-In d secret [] m = elim m [ ]
has_secret-In d secret ((k, v) ∷ tokens) (inl e) =
    let same_secret : secret ≡ v = ap (λ x. x.1) e in ground (arith, eq_iff secret v)
has_secret-In d secret ((k, v) ∷ tokens) (inr m) = ground (arith, has_secret-In d secret tokens m)

bearer_same : (a b : String) → same ("Bearer " +++ a) ("Bearer " +++ b) ≡ true → a ≡ b
bearer_same a b h =
    append_cancel_left "Bearer " a b (ground (arith, eq_iff ("Bearer " +++ a) ("Bearer " +++ b)))

-- No device is found by a secret that no token has.
find_device-none :
    (secret : String) (tokens : List (String × String))
    → has_secret secret tokens ≡ false
    → find_device ("Bearer " +++ secret) tokens ≡ none
unfolding find_device has_secret
find_device-none secret [] h = refl
find_device-none secret ((k, v) ∷ tokens) h =
    let rest = find_device-none secret tokens (ground arith) in
    elim (Bool-cases (same ("Bearer " +++ secret) ("Bearer " +++ v))) [
      | inl hit ↦
          let same_secret = bearer_same secret v hit in absurd (ground (arith, eq_iff secret v))
      | inr miss ↦ rw (rest, miss) refl
    ]

find_device-In :
    (d secret : String) (tokens : List (String × String))
    → has_repeated tokens ≡ false
    → In (d, secret) tokens
    → find_device ("Bearer " +++ secret) tokens ≡ some d
unfolding find_device has_repeated
find_device-In d secret [] distinct m = elim m [ ]
find_device-In d secret ((k, v) ∷ tokens) distinct (inl e) =
    let same_device : d ≡ k = ap (λ x. x.0) e in
    let same_secret : secret ≡ v = ap (λ x. x.1) e in
    let alone : has_secret secret tokens ≡ false =
      subst (λ x. has_secret x tokens ≡ false) (sym same_secret) (ground arith) in
    let presented = ap (λ x. "Bearer " +++ x) same_secret in
    let hit : same ("Bearer " +++ secret) ("Bearer " +++ v) ≡ true =
      ground (arith, eq_iff ("Bearer " +++ secret) ("Bearer " +++ v)) in
    rw (find_device-none secret tokens alone, hit) (ap some (sym same_device))
find_device-In d secret ((k, v) ∷ tokens) distinct (inr m) =
    rw (find_device-In d secret tokens (ground arith) m) refl

identify :
    (v : BrokerValues) (d secret : String)
    → has_repeated v.device_tokens ≡ false
    → In (d, secret) v.device_tokens
    → (scope : Scope) → Shows v secret scope
    → authenticate (authentication v) scope ≡ Verdict.as_device d
unfolding authenticate bearer
identify v d secret distinct m scope shows =
    let kind = shows.kind in
    let path = shows.path in
    let scheme = shows.scheme in
    let found = find_device-In d secret v.device_tokens distinct m in
    rw (kind, path, shows.only, found) (ground arith)

module _ (U : UrlParsers) (v : BrokerValues) where
  origin-IsSecure :
      (u : UrlParts) (w : BrokerValues)
      → U.urlparse v.public_url ≡ some u
      → (v.allow_loopback_http && not (is_loopback_served U v)) ≡ false
      → validate_origin U v u ≡ ok w
      → IsSecure U v u
  unfolding validate_origin is_insecure is_loopback_served
  origin-IsSecure u w public served h =
      let (origin, h1) = passed (not (is_origin u)) _ _ w h in
      let (no_path, h2) = passed (not (has_no_path u)) _ _ w h1 in
      let (secure, h3) = passed (is_insecure U v u) _ _ w h2 in
      record {
        public = public;
        plain = λ plain. ground arith;
        loopback = λ allowed. (ground arith, ground arith);
      }

  url-IsSecure :
      (w : BrokerValues)
      → (v.allow_loopback_http && not (is_loopback_served U v)) ≡ false
      → validate_url U v ≡ ok w
      → (u : UrlParts) × IsSecure U v u
  unfolding validate_url
  url-IsSecure w served h = parsed (U.urlparse v.public_url) refl h
    where
      parsed :
          (o : Option UrlParts)
          → U.urlparse v.public_url ≡ o
          → elim o [ none ↦ err (value_error "invalid URL") | some u ↦ validate_origin U v u ]
            ≡ ok w
          → (u : UrlParts) × IsSecure U v u
      parsed none e h' = cc
      parsed (some u) e h' = (u, origin-IsSecure u w e served h')

-- Settings that the broker accepts serve HTTPS, or plain HTTP only where loopback HTTP is allowed,
-- and then the bind and the public URL are loopback URLs; each device's token has at least 32
-- characters; and a request with one Authorization header, which is the bearer token of a device, is
-- let through as that very device, over HTTPS or where loopback HTTP is allowed, outside of
-- /healthz.
pub read_settings-IsServed :
    (U : UrlParsers) (is_fernet_key : Text → Bool) (v w : BrokerValues)
    → read_settings U is_fernet_key v ≡ ok w
    → IsServed U v
unfolding read_settings validate_policy
read_settings-IsServed U is_fernet_key v w h =
    let h0 : validate_policy U is_fernet_key v ≡ ok w = ground arith in
    let (given, h1) = passed (same v.database_url "" || no_tokens v.device_tokens) _ _ w h0 in
    let (fit, h2) = passed (has_unfit v.device_tokens) _ _ w h1 in
    let (distinct, h3) = passed (has_repeated v.device_tokens) _ _ w h2 in
    let (sealed, h4) = passed (not (is_fernet_key v.encryption_key)) _ _ w h3 in
    let (served, h5) = passed (v.allow_loopback_http && not (is_loopback_served U v)) _ _ w h4 in
    let (u, secure) = url-IsSecure U v w served h5 in
    record {
      parts = u;
      transport = secure;
      long = λ d secret m. fit_long v.device_tokens fit d secret m;
      identified = λ d secret m scope shows. identify v d secret distinct m scope shows;
    }

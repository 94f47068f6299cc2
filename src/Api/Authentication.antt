-- ===== src/Api/Authentication.antt =====
-- `DeviceAuthentication` of hermes_a2a_gateway/broker.py: which device a request is let through for.
use codex_a2a_gateway.Base.{
  String, ◌≡◌, refl, sym, ap, ◌∙◌, Bool, true, false, not, ◌&&◌, Option, none, some, List, [], ◌∷◌,
  arith, same, eq_iff, inl, inr, In, if◌then◌else◌, Bool-cases,
}
use codex_a2a_gateway.Tx.Errors.{Code, Error, broker_error}
use Prim.Native.String.{◌++◌ as ◌+++◌}

-- The ASGI scope, as far as the middleware reads it; header names are in lower case.
pub record Scope : Type 0 where
  pub kind : String
  pub path : String
  pub scheme : String
  pub headers : List (String × String)

pub record AuthenticationSettings : Type 0 where
  pub allow_loopback_http : Bool
  pub device_tokens : List (String × String)

-- The request goes on without a device, goes on as a device, or is answered with an error.
pub data Verdict : Type 0 where
  open_route : Verdict
  as_device : String → Verdict
  refused : Error → Verdict

-- [v for k, v in headers if k == b"authorization"].
unfoldable pub authorizations : List (String × String) → List String
authorizations [] = []
authorizations ((k, v) ∷ headers) =
    let rest = authorizations headers in if same k "authorization" then v ∷ rest else rest

-- The loop over the tokens: the last device whose secret is presented.
unfoldable pub find_device : String → List (String × String) → Option String
find_device presented [] = none
find_device presented ((device, secret) ∷ tokens) = elim (find_device presented tokens) [
  | some later ↦ some later
  | none ↦ if same presented ("Bearer " +++ secret) then some device else none
]

-- Exactly one header, which presents the secret of a device.
unfoldable pub bearer : List String → List (String × String) → Option String
unfolding find_device
bearer (value ∷ []) tokens = find_device value tokens
bearer _ tokens = none

abbrev pub verdict_of : Option String → Verdict
verdict_of none =
    Verdict.refused (broker_error Code.unauthorized "valid device bearer token required" 401)
verdict_of (some device) = Verdict.as_device device

unfoldable pub authenticate : AuthenticationSettings → Scope → Verdict
unfolding authorizations bearer
authenticate s scope =
    if not (same scope.kind "http")
    then Verdict.open_route
    else if same scope.path "/healthz"
    then Verdict.open_route
    else if not (same scope.scheme "https") && not s.allow_loopback_http
    then Verdict.refused (broker_error Code.https_required "HTTPS transport is required" 400)
    else verdict_of (bearer (authorizations scope.headers) s.device_tokens)

-- What a request that passes as a device has shown.
pub record Presents (s : AuthenticationSettings) (scope : Scope) (device : String) : Type 0 where
  pub secret : String
  pub known : In (device, secret) s.device_tokens
  pub only : authorizations scope.headers ≡ ("Bearer " +++ secret) ∷ []
  pub secure : (same scope.scheme "https" ≡ false) → s.allow_loopback_http ≡ true

find_device-known :
    (presented : String) (tokens : List (String × String)) (device : String)
    → find_device presented tokens ≡ some device
    → (secret : String) × In (device, secret) tokens × (presented ≡ "Bearer " +++ secret)
unfolding find_device
find_device-known presented [] device h = ground arith
find_device-known presented ((d, secret) ∷ tokens) device h =
    later (find_device presented tokens) (λ x e. find_device-known presented tokens x e) refl h
  where
    later :
        (o : Option String)
        → ((x : String)
            → find_device presented tokens ≡ some x
            → (token : String) × In (x, token) tokens × (presented ≡ "Bearer " +++ token))
        → find_device presented tokens ≡ o
        → elim o [
          | some x ↦ some x
          | none ↦ if same presented ("Bearer " +++ secret) then some d else none
        ]
          ≡ some device
        → (token : String) × In (device, token) ((d, secret) ∷ tokens)
          × (presented ≡ "Bearer " +++ token)
    later (some x) again e h' =
        let (token, known, shown) = again device (e ∙ h') in (token, inr known, shown)
    later none again e h' = elim (Bool-cases (same presented ("Bearer " +++ secret))) [
      | inl hit ↦
          let same_device : d ≡ device = ground arith in
          (
            secret,
            inl (ap (λ x. (x, secret)) (sym same_device)),
            ground (arith, eq_iff presented ("Bearer " +++ secret)),
          )
      | inr miss ↦ absurd (ground arith)
    ]

bearer-Presents :
    (values : List String) (tokens : List (String × String)) (device : String)
    → bearer values tokens ≡ some device
    → (secret : String) × In (device, secret) tokens × (values ≡ ("Bearer " +++ secret) ∷ [])
unfolding bearer
bearer-Presents [] tokens device h = ground arith
bearer-Presents (value ∷ []) tokens device h =
    let (secret, known, shown) = find_device-known value tokens device h in
    (secret, known, ap (λ v. v ∷ []) shown)
bearer-Presents (value ∷ more ∷ values) tokens device h = ground arith

verdict_of-device :
    (o : Option String) (device : String)
    → verdict_of o ≡ Verdict.as_device device
    → o ≡ some device
verdict_of-device none device h = ground arith
verdict_of-device (some d) device h = ground arith

-- A request is let through as a device only with one Authorization header, which is the bearer token
-- configured for that device, and only over HTTPS unless loopback HTTP is allowed.
pub authenticate-Presents :
    (s : AuthenticationSettings) (scope : Scope) (device : String)
    → authenticate s scope ≡ Verdict.as_device device
    → Presents s scope device
unfolding authenticate
authenticate-Presents s scope device h =
    let passed : verdict_of (bearer (authorizations scope.headers) s.device_tokens)
        ≡ Verdict.as_device device =
      ground arith in
    let (secret, known, only) =
      bearer-Presents (authorizations scope.headers) s.device_tokens device
        (verdict_of-device _ device passed) in
    record { secret = secret; known = known; only = only; secure = λ plain. ground arith }

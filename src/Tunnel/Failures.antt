-- ===== src/Tunnel/Failures.antt =====
-- `classify_failure` of hermes_a2a_gateway/ssh_tunnel.py: what ssh's output and its return code say of
-- a failure, and whether it is worth a retry.
use codex_a2a_gateway.Base.{
  ℕ, String, Bool, true, false, ◌&&◌, ◌||◌, List, [], ◌∷◌, Option, none, some, if◌then◌else◌, ◌≡◌,
  refl,
}
use codex_a2a_gateway.Broker.Content.{codes, lower}
use codex_a2a_gateway.Texts.{Text, occurs}

-- The codes of TunnelFailure.
pub data FailureCode : Type 0 where
  host_key_failed authentication_failed local_port_in_use configuration_failed : FailureCode
  identity_file_unavailable process_exited network_unavailable failed : FailureCode
  executable_unavailable startup_timeout configured_forwarding_not_allowed : FailureCode

pub record TunnelFailure : Type 0 where
  pub code : FailureCode
  pub retryable : Bool

-- A return code: zero, positive, or that of a signal, which is negative.
pub data ExitStatus : Type 0 where
  success : ExitStatus
  exited : ℕ → ExitStatus
  signaled : ℕ → ExitStatus

unfoldable pub occurs_any : List String → Text → Bool
occurs_any [] t = false
occurs_any (m ∷ markers) t = occurs (codes m) t || occurs_any markers t

abbrev pub host_key_markers : List String
host_key_markers =
    "host key verification failed" ∷ "remote host identification has changed"
    ∷ "no matching host key type" ∷ "offending" ∷ "host key is known" ∷ []

abbrev pub authentication_markers : List String
authentication_markers =
    "permission denied" ∷ "authentication failed" ∷ "too many authentication failures"
    ∷ "no supported authentication methods" ∷ []

abbrev pub local_port_markers : List String
local_port_markers =
    "address already in use" ∷ "cannot listen to port" ∷ "could not request local forwarding" ∷ []

abbrev pub configuration_markers : List String
configuration_markers =
    "bad configuration" ∷ "bad configuration option" ∷ "unknown option" ∷ "invalid port"
    ∷ "bad port" ∷ "no such identity" ∷ "bad owner" ∷ []

abbrev pub network_markers : List String
network_markers =
    "connection refused" ∷ "connection timed out" ∷ "operation timed out" ∷ "no route to host"
    ∷ "network is unreachable" ∷ "connection reset" ∷ "broken pipe" ∷ "connection closed"
    ∷ "closed by remote host" ∷ "could not resolve hostname" ∷ "temporary failure"
    ∷ "server not responding" ∷ "timeout, server" ∷ []

-- The dictionary `fatal`, in its order.
abbrev pub fatal : List (FailureCode × List String)
fatal =
    (FailureCode.host_key_failed, host_key_markers)
    ∷ (FailureCode.authentication_failed, authentication_markers)
    ∷ (FailureCode.local_port_in_use, local_port_markers)
    ∷ (FailureCode.configuration_failed, configuration_markers)
    ∷ []

unfoldable pub first_fatal : List (FailureCode × List String) → Text → Option FailureCode
unfolding occurs_any
first_fatal [] t = none
first_fatal ((code, markers) ∷ rest) t =
    let later = first_fatal rest t in if occurs_any markers t then some code else later

abbrev pub is_signaled : Option ExitStatus → Bool
is_signaled (some (ExitStatus.signaled n)) = true
is_signaled _ = false

abbrev pub is_success : Option ExitStatus → Bool
is_success (some ExitStatus.success) = true
is_success _ = false

abbrev pub fatally : FailureCode → TunnelFailure
fatally code = record { code = code; retryable = false }

abbrev pub passing : FailureCode → TunnelFailure
passing code = record { code = code; retryable = true }

-- What follows the fatal markers.
unfoldable pub classify_exit : Text → Option ExitStatus → TunnelFailure
unfolding occurs_any
classify_exit t status =
    if is_signaled status
    then passing FailureCode.process_exited
    else if is_success status || occurs_any network_markers t
    then passing FailureCode.network_unavailable
    else fatally FailureCode.failed

-- The code of a fatal marker, or what the return code and the network's markers say.
unfoldable pub fatal_or_exit : Option FailureCode → Text → Option ExitStatus → TunnelFailure
unfolding classify_exit
fatal_or_exit none t status = classify_exit t status
fatal_or_exit (some code) t status = fatally code

unfoldable pub classify_text : Text → Option ExitStatus → TunnelFailure
unfolding occurs first_fatal fatal_or_exit
classify_text t status =
    if occurs (codes "identity file") t && occurs (codes "not accessible") t
    then fatally FailureCode.identity_file_unavailable
    else fatal_or_exit (first_fatal fatal t) t status

unfoldable pub classify_failure : Text → Option ExitStatus → TunnelFailure
unfolding lower classify_text
classify_failure stderr status = classify_text (lower stderr) status

refused :
    classify_failure (codes "Connection REFUSED") (some (ExitStatus.exited 255))
    ≡ passing FailureCode.network_unavailable
unfolding classify_failure
refused = refl

-- ===== src/Tunnel/Fatal.antt =====
-- Failures that are final whatever else ssh wrote (`classify_failure` of
-- hermes_a2a_gateway/ssh_tunnel.py).
use codex_a2a_gateway.Base.{
  String, ◌≡◌, refl, Bool, true, false, Option, none, some, List, [], ◌∷◌, ◌++◌, ◌⊎◌, inl, inr, In,
  arith, if◌then◌else◌, ◌&&◌, Bool-cases,
}
use codex_a2a_gateway.Broker.Content.{codes, lower}
use codex_a2a_gateway.Texts.{Text, occurs, occurs-append}
use codex_a2a_gateway.Tunnel.Failures.{
  FailureCode, ExitStatus, occurs_any, fatal, first_fatal, fatal_or_exit, classify_text,
  classify_failure, fatally,
}

occurs_any-In :
    (m : String) (markers : List String) (before after : Text)
    → In m markers
    → occurs_any markers (before ++ (codes m ++ after)) ≡ true
unfolding occurs_any
occurs_any-In m [] before after h = elim h [ ]
occurs_any-In m (x ∷ markers) before after (inl e) =
    rw e (rw (occurs-append (codes x) before after) refl)
occurs_any-In m (x ∷ markers) before after (inr h) =
    rw (occurs_any-In m markers before after h) (ground arith)

-- Some entry has the marker.
abbrev pub Marks : String → List (FailureCode × List String) → Type 0
Marks m [] = ⊥
Marks m ((code, markers) ∷ rest) = In m markers ⊎ Marks m rest

first_fatal-Marks :
    (m : String) (entries : List (FailureCode × List String)) (before after : Text)
    → Marks m entries
    → (code : FailureCode) × (first_fatal entries (before ++ (codes m ++ after)) ≡ some code)
unfolding first_fatal
first_fatal-Marks m [] before after h = elim h [ ]
first_fatal-Marks m ((code, markers) ∷ rest) before after (inl h) =
    (code, rw (occurs_any-In m markers before after h) refl)
first_fatal-Marks m ((code, markers) ∷ rest) before after (inr h) =
    elim (Bool-cases (occurs_any markers (before ++ (codes m ++ after)))) [
      | inl here ↦ (code, rw here refl)
      | inr absent ↦
          let (later, found) = first_fatal-Marks m rest before after h in (later, rw absent found)
    ]

picked-final :
    (b : Bool) (found : Option FailureCode) (t : Text) (status : Option ExitStatus)
    (code : FailureCode)
    → found ≡ some code
    → (if b
        then fatally FailureCode.identity_file_unavailable
        else fatal_or_exit found t status).retryable
      ≡ false
unfolding fatal_or_exit
picked-final true found t status code e = refl
picked-final false none t status code e = cc
picked-final false (some other) t status code e = refl

classify_text-Marks :
    (t : Text) (status : Option ExitStatus) (code : FailureCode)
    → first_fatal fatal t ≡ some code
    → (classify_text t status).retryable ≡ false
unfolding classify_text
classify_text-Marks t status code found =
    picked-final (occurs (codes "identity file") t && occurs (codes "not accessible") t)
      (first_fatal fatal t) t status code found

-- Output in which a marker of the fatal table stands, in any case of letters and among any other
-- output, is never worth a retry, whatever the return code.
pub classify_failure-final :
    (stderr before after : Text) (m : String) (status : Option ExitStatus)
    → Marks m fatal
    → lower stderr ≡ before ++ (codes m ++ after)
    → (classify_failure stderr status).retryable ≡ false
unfolding classify_failure
classify_failure-final stderr before after m status marks e =
    let (code, found) = first_fatal-Marks m fatal before after marks in
    classify_text-Marks (lower stderr) status code (rw e found)

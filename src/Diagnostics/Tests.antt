-- ===== src/Diagnostics/Tests.antt =====
-- The bounds of diagnostics applied to small values.
use codex_a2a_gateway.Base.{some, refl, [], ◌∷◌, false}
use codex_a2a_gateway.Diagnostics.{
  Scalar, Entry, Policy, Capability, diagnostics_uri, peer_capabilities,
}
use codex_a2a_gateway.Diagnostics.Bounds.{IsWithinContract, peer_capabilities-IsWithinContract}

abbrev answer : Entry
answer = Entry.object (
    ("diagnostics_extension", Scalar.text diagnostics_uri)
    ∷ ("policy", Scalar.text "sliding_window")
    ∷ ("context_limit", Scalar.number 20)
    ∷ ("window_seconds", Scalar.number 60)
    ∷ [])

abbrev capability : Capability
capability = record {
  policy = Policy.sliding_window;
  context_limit = 20;
  window_seconds = some 60;
  has_patch = false;
}

peer_capabilities-IsWithinContract_example : IsWithinContract capability
unfolding peer_capabilities
peer_capabilities-IsWithinContract_example =
    peer_capabilities-IsWithinContract answer capability refl

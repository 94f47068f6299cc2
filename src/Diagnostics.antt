-- ===== src/Diagnostics.antt =====
-- Peer tasks and the allowlisted details of peer errors: hermes_a2a_gateway/models.py and
-- hermes_a2a_gateway/diagnostics.py. `datetime.fromisoformat(...).isoformat()` of a time with a zone
-- is a parameter, `none` where the parser refuses the text or finds no zone.
pub mod Bounds
mod Tests
use Prim.Native.Char.{code}
use Prim.Native.String.{count}
use codex_a2a_gateway.Base.{
  ℕ, zero, suc, ◌+◌, String, Bool, true, false, not, ◌&&◌, ◌||◌, Option, none, some, List, [], ◌∷◌,
  ◌++◌, leb, ◌==◌, same, is_some, if◌then◌else◌, ◌≡◌, refl,
}

-- `TaskState`, the states of a task of the peer.
pub data TaskState : Type 0 where
  queued submitted working input_required completed failed canceled rejected : TaskState
  outcome_unknown : TaskState

-- `REASONS`.
pub data Reason : Type 0 where
  context_rate_limited context_turn_limit input_required peer_rejected : Reason

-- `ACTIONS`.
pub data Action : Type 0 where
  wait_then_submit_new inspect_operation contact_operator provide_input : Action

-- What `peer_error_details` returns; an absent key is `none`.
pub record ErrorDetails : Type 0 where
  pub reason : Reason
  pub peer_state : TaskState
  pub recommended_action : Action
  pub execution_started : Option Bool
  pub retry_after_seconds : Option ℕ
  pub retry_at : Option String

-- A JSON value inside of the extension's object, as far as the code tells values apart; `other` is
-- a negative or fractional number, null, a list or an object.
pub data Scalar : Type 0 where
  flag : Bool → Scalar
  number : ℕ → Scalar
  text : String → Scalar
  other : Scalar

-- A value of the metadata: an object, or anything else.
pub data Entry : Type 0 where
  object : List (String × Scalar) → Entry
  scalar : Entry

-- A part of an artifact: `fields` that the dispatcher reads, or no object at all.
pub record PartFields : Type 0 where
  pub has_url : Bool
  -- `none` where the key is absent, `some none` where its value is no text.
  pub raw : Option (Option String)
  pub media_type : Option String

pub data Part : Type 0 where
  fields : PartFields → Part
  no_object : Part

-- `A2ATaskResult`, with the parts of its artifacts, and the metadata of its raw task if they are an
-- object.
pub record PeerTask : Type 0 where
  pub task_id : String
  pub context_id : String
  pub state : TaskState
  pub text : String
  pub artifacts : List (List Part)
  pub metadata : Option (List (String × Entry))

module _ {A : Type 0} where
  -- dict.get.
  unfoldable pub get_key : String → List (String × A) → Option A
  get_key k [] = none
  get_key k ((name, a) ∷ rest) = let later = get_key k rest in if same name k then some a else later

abbrev pub diagnostics_uri : String
diagnostics_uri = "https://github.com/phamviet86/hermes-a2a-gateway/extensions/diagnostics/v1"

unfoldable pub read_reason : String → Option Reason
read_reason s =
    if same s "context_rate_limited"
    then some Reason.context_rate_limited
    else if same s "context_turn_limit"
    then some Reason.context_turn_limit
    else if same s "input_required"
    then some Reason.input_required
    else if same s "peer_rejected"
    then some Reason.peer_rejected
    else none

unfoldable pub read_action : String → Option Action
read_action s =
    if same s "wait_then_submit_new"
    then some Action.wait_then_submit_new
    else if same s "inspect_operation"
    then some Action.inspect_operation
    else if same s "contact_operator"
    then some Action.contact_operator
    else if same s "provide_input"
    then some Action.provide_input
    else none

unfoldable pub wants_input : TaskState → Bool
wants_input TaskState.input_required = true
wants_input _ = false

unfoldable pub is_rejected : TaskState → Bool
is_rejected TaskState.rejected = true
is_rejected _ = false

abbrev text_codes : String → List ℕ
text_codes String.[] = []
text_codes (String.◌∷◌ c s) = code c ∷ text_codes s

abbrev drop_prefix : List ℕ → List ℕ → Option (List ℕ)
drop_prefix [] s = some s
drop_prefix (p ∷ ps) [] = none
drop_prefix (p ∷ ps) (c ∷ s) = let rest = drop_prefix ps s in if p == c then rest else none

abbrev drop_digits : List ℕ → List ℕ
drop_digits [] = []
drop_digits (c ∷ s) = let rest = drop_digits s in if leb b'0' c && leb c b'9' then rest else c ∷ s

-- The rest after a number that does not begin with zero.
abbrev drop_number : List ℕ → Option (List ℕ)
drop_number [] = none
drop_number (c ∷ s) = if leb b'1' c && leb c b'9' then some (drop_digits s) else none

abbrev equal_codes : List ℕ → List ℕ → Bool
equal_codes [] [] = true
equal_codes (a ∷ s) (b ∷ r) = (a == b) && equal_codes s r
equal_codes _ _ = false

abbrev legacy_end : String
legacy_end = " turns. Start a new context or increase A2A_MAX_PINGPONG_TURNS."

-- re.fullmatch(legacy, task.text).
unfoldable pub is_legacy_limit : String → String → Bool
is_legacy_limit context t =
    elim (drop_prefix (text_codes "Anti-loop protection: context ") (text_codes t)) [
      | none ↦ false
      | some a ↦ elim (drop_prefix (text_codes context) a) [
        | none ↦ false
        | some b ↦ elim (drop_prefix (text_codes " exceeded ") b) [
          | none ↦ false
          | some c ↦ elim (drop_number c) [
            | none ↦ false
            | some rest ↦ equal_codes rest (text_codes legacy_end)
          ]
        ]
      ]
    ]

-- The extension's object and its known reason.
unfoldable pub known_reason :
    Option (List (String × Entry)) → Option (List (String × Scalar) × Reason)
unfolding get_key read_reason
known_reason none = none
known_reason (some metadata) = elim (get_key diagnostics_uri metadata) [
  | none ↦ none
  | some Entry.scalar ↦ none
  | some (Entry.object value) ↦ elim (get_key "reason" value) [
    | some (Scalar.text s) ↦ elim (read_reason s) [ none ↦ none | some r ↦ some (value, r) ]
    | _ ↦ none
  ]
]

-- The details that the state alone gives.
unfoldable pub plain_details : PeerTask → ErrorDetails
unfolding wants_input
plain_details task = record {
  reason = if wants_input task.state then Reason.input_required else Reason.peer_rejected;
  peer_state = task.state;
  recommended_action =
      if wants_input task.state then Action.provide_input else Action.contact_operator;
  execution_started = none;
  retry_after_seconds = none;
  retry_at = none;
}

unfoldable pub started_of : Option Scalar → Option Bool
started_of (some (Scalar.flag b)) = some b
started_of _ = none

-- type(delay) is int and 0 <= delay <= 86400.
unfoldable pub delay_of : Option Scalar → Option ℕ
delay_of (some (Scalar.number n)) = if leb n 86400 then some n else none
delay_of _ = none

unfoldable pub action_of : Option Scalar → Action → Action
unfolding read_action
action_of (some (Scalar.text s)) default = elim (read_action s) [ none ↦ default | some a ↦ a ]
action_of _ default = default

-- Without a known reason, a legacy text of a rejected task still tells a turn limit.
unfoldable pub legacy_details : PeerTask → ErrorDetails
unfolding plain_details is_legacy_limit is_rejected
legacy_details task =
    if is_rejected task.state
      && (leb (count task.text) 1024 && is_legacy_limit task.context_id task.text)
    then record (plain_details task) { reason = Reason.context_turn_limit }
    else plain_details task

module _ (read_instant : String → Option String) where
  unfoldable pub instant_of : Option Scalar → Option String
  instant_of (some (Scalar.text s)) = if leb (count s) 40 then read_instant s else none
  instant_of _ = none

  unfoldable pub extended_details : PeerTask → List (String × Scalar) → Reason → ErrorDetails
  unfolding plain_details get_key started_of delay_of action_of instant_of
  extended_details task value r = record {
    reason = r;
    peer_state = task.state;
    recommended_action =
        action_of (get_key "recommended_action" value) (plain_details task).recommended_action;
    execution_started = started_of (get_key "execution_started" value);
    retry_after_seconds = delay_of (get_key "retry_after_seconds" value);
    retry_at = instant_of (get_key "retry_at" value);
  }

  unfoldable pub peer_error_details : PeerTask → ErrorDetails
  unfolding known_reason extended_details legacy_details
  peer_error_details task = elim (known_reason task.metadata) [
    | none ↦ legacy_details task
    | some (value, r) ↦ extended_details task value r
  ]

-- `peer_capabilities`: the policies and what it returns of them; `none` is the unknown capability.
pub data Policy : Type 0 where
  sliding_window legacy_turn_limit : Policy

pub record Capability : Type 0 where
  pub policy : Policy
  pub context_limit : ℕ
  pub window_seconds : Option ℕ
  pub has_patch : Bool

unfoldable pub read_policy : Option Scalar → Option Policy
read_policy (some (Scalar.text s)) =
    if same s "sliding_window"
    then some Policy.sliding_window
    else if same s "legacy_turn_limit"
    then some Policy.legacy_turn_limit
    else none
read_policy _ = none

-- type(n) is int and 1 <= n <= bound.
unfoldable pub bounded_number : ℕ → Option Scalar → Option ℕ
bounded_number bound (some (Scalar.number n)) = if leb 1 n && leb n bound then some n else none
bounded_number bound _ = none

unfoldable pub is_text : String → Option Scalar → Bool
is_text t (some (Scalar.text s)) = same s t
is_text t _ = false

unfoldable pub window_capability : List (String × Scalar) → Policy → ℕ → Option Capability
unfolding get_key bounded_number is_text
window_capability value Policy.legacy_turn_limit limit = some (record {
  policy = Policy.legacy_turn_limit;
  context_limit = limit;
  window_seconds = none;
  has_patch = is_text "0.8.0" (get_key "patch_version" value);
})
window_capability value Policy.sliding_window limit =
    elim (bounded_number 86400 (get_key "window_seconds" value)) [
      | none ↦ none
      | some window ↦ some (record {
        policy = Policy.sliding_window;
        context_limit = limit;
        window_seconds = some window;
        has_patch = is_text "0.8.0" (get_key "patch_version" value);
      })
    ]

unfoldable pub limit_capability : List (String × Scalar) → Policy → Option Capability
unfolding get_key bounded_number window_capability
limit_capability value policy = elim (bounded_number 100000 (get_key "context_limit" value)) [
  | none ↦ none
  | some limit ↦ window_capability value policy limit
]

unfoldable pub peer_capabilities : Entry → Option Capability
unfolding get_key is_text read_policy limit_capability
peer_capabilities Entry.scalar = none
peer_capabilities (Entry.object value) =
    if is_text diagnostics_uri (get_key "diagnostics_extension" value)
    then elim (read_policy (get_key "policy" value)) [
      | none ↦ none
      | some p ↦ limit_capability value p
    ]
    else none

legacy_text :
    is_legacy_limit "ctx"
      "Anti-loop protection: context ctx exceeded 20 turns. Start a new context or increase A2A_MAX_PINGPONG_TURNS."
    ≡ true
unfolding is_legacy_limit
legacy_text = refl

zero_turns :
    is_legacy_limit "ctx"
      "Anti-loop protection: context ctx exceeded 0 turns. Start a new context or increase A2A_MAX_PINGPONG_TURNS."
    ≡ false
unfolding is_legacy_limit
zero_turns = refl

-- ===== src/Peer/Tasks.antt =====
-- `_unwrap_task`, `_part_text`, `_message_text`, `parse_task` and `parse_stream_event` of
-- hermes_a2a_gateway/a2a.py. str() of a value that is no text, and json.dumps, are parameters.
use codex_a2a_gateway.Base.{
  ℕ, zero, suc, String, false, Option, none, some, List, [], ◌∷◌, ◌++◌, is_some, if◌then◌else◌,
}
use codex_a2a_gateway.Broker.Content.{codes, lower}
use codex_a2a_gateway.Texts.{Text, starts, same_text}
use codex_a2a_gateway.Peer.Json.{Json, Items, Members, get, get_truthy, str}
use codex_a2a_gateway.Peer.Urls.{strip}
use codex_a2a_gateway.Peer.Requests.{PeerCode, PeerResult, peer_error}

-- `A2ATaskResult`, without the raw task.
pub record ParsedTask : Type 0 where
  pub task_id : Text
  pub context_id : Text
  pub state : Text
  pub text : Text
  pub artifacts : List Members

pub record Printers : Type 0 where
  pub show : Json → Text
  pub dumps : Json → Text

unfoldable pub unwrap_task : Json → PeerResult Members
unfolding get
unwrap_task (Json.object m) = elim (get "task" m) [
  | some (Json.object task) ↦ PeerResult.good task
  | none ↦ unwrap_message m
  | some j ↦ unwrap_message m
]
  where
    unwrap_message : Members → PeerResult Members
    unwrap_message m' = elim (get "message" m') [
      | some (Json.object message) ↦ PeerResult.good message
      | none ↦ PeerResult.good m'
      | some j ↦ PeerResult.good m'
    ]
unwrap_task j = PeerResult.bad (peer_error PeerCode.a2a_invalid_response false)

-- The objects of a list.
unfoldable pub objects : Items → List Members
objects Items.last = []
objects (Items.item (Json.object m) rest) = m ∷ objects rest
objects (Items.item j rest) = objects rest

-- [x for x in (value or []) if isinstance(x, dict)]; none is a TypeError. Texts and objects hold texts.
unfoldable pub objects_of : Option Json → Option (List Members)
unfolding objects
objects_of none = some []
objects_of (some (Json.list items)) = some (objects items)
objects_of (some (Json.text s)) = some []
objects_of (some (Json.object m)) = some []
objects_of (some j) = none

-- s.replace(p, ""), for a `p` of `more` + 1 characters, with as many to be left out first.
unfoldable pub remove_all : ℕ → Text → ℕ → Text → Text
unfolding starts
remove_all more p left [] = []
remove_all more p (suc left) (c ∷ s) = remove_all more p left s
remove_all more p zero (c ∷ s) =
    let removed = remove_all more p more s in
    let kept = c ∷ remove_all more p zero s in if starts p (c ∷ s) then removed else kept

-- `A2A_STATE_MAP`.
abbrev state_map : List (String × String)
state_map =
    ("TASK_STATE_SUBMITTED", "submitted")
    ∷ ("TASK_STATE_WORKING", "working")
    ∷ ("TASK_STATE_INPUT_REQUIRED", "input_required")
    ∷ ("TASK_STATE_AUTH_REQUIRED", "input_required")
    ∷ ("TASK_STATE_COMPLETED", "completed")
    ∷ ("TASK_STATE_FAILED", "failed")
    ∷ ("TASK_STATE_CANCELED", "canceled")
    ∷ ("TASK_STATE_REJECTED", "rejected")
    ∷ []

unfoldable pub find_state : Text → List (String × String) → Option String
unfolding same_text
find_state raw [] = none
find_state raw ((name, state) ∷ rest) =
    let later = find_state raw rest in if same_text raw (codes name) then some state else later

unfoldable pub task_state : Text → Text
unfolding find_state remove_all lower
task_state raw = elim (find_state raw state_map) [
  | some state ↦ codes state
  | none ↦ remove_all 10 (codes "task_state_") zero (lower raw)
]

-- "\n".join(filter(None, texts)).
unfoldable pub join_lines : List Text → Text
join_lines [] = []
join_lines ([] ∷ more) = join_lines more
join_lines ((c ∷ s) ∷ more) = elim (join_lines more) [
  | [] ↦ c ∷ s
  | d ∷ rest ↦ (c ∷ s) ++ b'\n' ∷ d ∷ rest
]

abbrev pub or_text : Text → Text → Text
or_text [] other = other
or_text (c ∷ s) other = c ∷ s

module _ (R : Printers) where
  unfoldable pub part_text : Members → Text
  unfolding get
  part_text part = elim (get "text" part) [
    | some (Json.text s) ↦ s
    | none ↦ other_text part
    | some j ↦ other_text part
  ]
    where
      url_text : Option Json → Text
      url_text (some (Json.text s)) = s
      url_text j = []

      other_text : Members → Text
      other_text p = elim (get "data" p) [ some j ↦ R.dumps j | none ↦ url_text (get "url" p) ]

  abbrev pub part_texts : List Members → List Text
  part_texts [] = []
  part_texts (part ∷ parts) = part_text part ∷ part_texts parts

  -- none is a TypeError.
  unfoldable pub message_text : Members → Option Text
  unfolding get_truthy objects_of join_lines strip part_text
  message_text m = elim (objects_of (get_truthy "parts" m)) [
    | none ↦ none
    | some parts ↦ some (strip (join_lines (part_texts parts)))
  ]

  -- The same of a value that may be no object.
  abbrev pub value_text : Option Json → Option Text
  value_text (some (Json.object m)) = message_text m
  value_text j = some []

  -- The text of the first artifact that has one.
  unfoldable pub first_text : List Members → Option Text
  first_text [] = some []
  first_text (a ∷ artifacts) =
      let later = first_text artifacts in
      elim (message_text a) [ none ↦ none | some [] ↦ later | some (c ∷ s) ↦ some (c ∷ s) ]

  abbrev pub or_else : Option Text → Option Text → Option Text
  or_else none later = none
  or_else (some []) later = later
  or_else (some (c ∷ s)) later = some (c ∷ s)

  -- str(value or default).
  abbrev pub str_or : Option Json → Text → Text
  str_or none default_text = default_text
  str_or (some j) default_text = str R.show j

  -- status = task.get("status") or {}; none is an AttributeError.
  unfoldable pub status_of : Members → Option Members
  unfolding get_truthy
  status_of task = elim (get_truthy "status" task) [
    | none ↦ some Members.end
    | some (Json.object m) ↦ some m
    | some j ↦ none
  ]

  unfoldable pub text_of : Members → Members → List Members → Option Text
  unfolding first_text get message_text get_truthy
  text_of task status artifacts = or_else (first_text artifacts) (
      or_else (value_text (get "message" status))
        (if is_some (get_truthy "role" task) then message_text task else some []))

  unfoldable pub parse_unwrapped : Text → Members → PeerResult ParsedTask
  unfolding status_of objects_of text_of task_state get_truthy str
  parse_unwrapped fallback_context task = elim (status_of task) [
    | none ↦ PeerResult.crashed
    | some status ↦ elim (objects_of (get_truthy "artifacts" task)) [
      | none ↦ PeerResult.crashed
      | some artifacts ↦ elim (text_of task status artifacts) [
        | none ↦ PeerResult.crashed
        | some t ↦ PeerResult.good (record {
          task_id = str_or (get_truthy "id" task) (str_or (get_truthy "taskId" task) []);
          context_id = str_or (get_truthy "contextId" task) fallback_context;
          state = task_state (str_or (get_truthy "state" status) (codes "TASK_STATE_COMPLETED"));
          text = t;
          artifacts = artifacts;
        })
      ]
    ]
  ]

  unfoldable pub parse_task : Text → Json → PeerResult ParsedTask
  unfolding unwrap_task parse_unwrapped
  parse_task fallback_context result = elim (unwrap_task result) [
    | PeerResult.good task ↦ parse_unwrapped fallback_context task
    | PeerResult.bad e ↦ PeerResult.bad e
    | PeerResult.crashed ↦ PeerResult.crashed
  ]

-- value.get(key).
abbrev pub get_or_null : String → Members → Json
unfolding get
get_or_null k m = elim (get k m) [ none ↦ Json.null | some j ↦ j ]

abbrev or_object : Option Json → Json
or_object none = Json.object Members.end
or_object (some j) = j

abbrev pub status_task : Members → Members
unfolding get_or_null get_truthy
status_task update = Members.member "id" (get_or_null "taskId" update) (
    Members.member "contextId" (get_or_null "contextId" update) (
      Members.member "status" (or_object (get_truthy "status" update))
        (Members.member "metadata" (or_object (get "metadata" update)) Members.end)))

abbrev pub artifact_task : Members → Members
unfolding get_or_null get_truthy
artifact_task update = Members.member "id" (get_or_null "taskId" update) (
    Members.member "contextId" (get_or_null "contextId" update) (
      Members.member "status"
        (Json.object (Members.member "state" (Json.text (codes "TASK_STATE_WORKING")) Members.end))
        (Members.member "artifacts"
          (Json.list (Items.item (or_object (get_truthy "artifact" update)) Items.last))
          (Members.member "metadata" (or_object (get "metadata" update)) Members.end))))

-- event.get(key) where it is an object.
unfoldable pub get_object : String → Members → Option Members
unfolding get
get_object k m = elim (get k m) [
  | some (Json.object found) ↦ some found
  | none ↦ none
  | some j ↦ none
]

module _ (R : Printers) where
  -- none is an event of no known kind.
  unfoldable pub parse_stream_event : Text → Members → Option (PeerResult ParsedTask)
  unfolding get_object parse_task get get_truthy
  parse_stream_event fallback_context event = elim (get_object "task" event) [
    | some task ↦ some (parse_task R fallback_context (Json.object task))
    | none ↦ elim (get_object "statusUpdate" event) [
      | some update ↦ some (parse_task R fallback_context (Json.object (status_task update)))
      | none ↦ elim (get_object "artifactUpdate" event) [
        | some update ↦ some (parse_task R fallback_context (Json.object (artifact_task update)))
        | none ↦ none
      ]
    ]
  ]

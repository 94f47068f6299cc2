-- ===== src/Peer/Chunks.antt =====
-- The loop of `HermesBrokerPeer.submit` in hermes_a2a_gateway/broker_peer.py: the tasks that it yields for the
-- events of a stream.
use codex_a2a_gateway.Base.{
  ℕ, suc, Bool, true, false, not, ◌&&◌, ◌||◌, Option, none, some, List, [], ◌∷◌, ◌++◌, is_some, ltb,
  if◌then◌else◌,
}
use codex_a2a_gateway.Broker.Content.{codes}
use codex_a2a_gateway.Texts.{Text, same_text, decimal}
use codex_a2a_gateway.Peer.Json.{Json, Items, Members, get_truthy, str}
use codex_a2a_gateway.Peer.Requests.{PeerResult}
use codex_a2a_gateway.Peer.Tasks.{
  ParsedTask, message_text, join_lines, or_text, get_object, parse_stream_event,
}
use codex_a2a_gateway.Peer.Parts.{StreamFailure, StreamResult, ◌>>=◌, StreamSetup, append_artifact}

-- `artifacts`: the artifacts by identity, in the order of their insertion.
abbrev pub Retained : Type 0
Retained = List (Text × Members)

unfoldable pub find : Text → Retained → Option Members
unfolding same_text
find identity [] = none
find identity ((key, a) ∷ rest) =
    let later = find identity rest in if same_text key identity then some a else later

unfoldable pub put : Text → Members → Retained → Retained
unfolding same_text
put identity a [] = (identity, a) ∷ []
put identity a ((key, b) ∷ rest) =
    let later = (key, b) ∷ put identity a rest in
    if same_text key identity then (key, a) ∷ rest else later

abbrev pub values : Retained → List Members
values [] = []
values ((key, a) ∷ rest) = a ∷ values rest

unfoldable pub as_items : List Members → Items
as_items [] = Items.last
as_items (a ∷ rest) = Items.item (Json.object a) (as_items rest)

abbrev pub is_empty : {A : Type 0} → List A → Bool
is_empty [] = true
is_empty (a ∷ rest) = false

-- `handle` and `artifacts`.
pub record StreamState : Type 0 where
  pub handle : Option Text
  pub retained : Retained

module _ (S : StreamSetup) where
  -- str(artifact.get("artifactId") or f"part-{index}").
  unfoldable pub identity_of : ℕ → Members → Text
  unfolding get_truthy str decimal
  identity_of index a = elim (get_truthy "artifactId" a) [
    | none ↦ codes "part-" ++ decimal index
    | some j ↦ str S.printers.show j
  ]

  -- An artifact, and the one retained under its identity.
  abbrev pub retain_found :
      Bool → Text → Members → Retained → Option Members → StreamResult Retained
  retain_found appends identity a retained none = StreamResult.fine (put identity a retained)
  retain_found appends identity a retained (some previous) =
      if appends
      then (append_artifact S previous a >>= λ joined.
          StreamResult.fine (put identity joined retained))
      else StreamResult.fine (put identity a retained)

  unfoldable pub retain : Bool → ℕ → Members → Retained → StreamResult Retained
  unfolding identity_of find put append_artifact
  retain appends index a retained =
      let identity = identity_of index a in
      retain_found appends identity a retained (find identity retained)

  unfoldable pub retain_all : Bool → ℕ → List Members → Retained → StreamResult Retained
  unfolding retain
  retain_all appends index [] retained = StreamResult.fine retained
  retain_all appends index (a ∷ artifacts) retained =
      retain appends index a retained >>= λ more. retain_all appends (suc index) artifacts more

  -- none is a TypeError of a retained artifact's parts.
  unfoldable pub texts_of_all : List Members → Option (List Text)
  unfolding message_text
  texts_of_all [] = some []
  texts_of_all (a ∷ rest) = elim (message_text S.printers a) [
    | none ↦ none
    | some t ↦ elim (texts_of_all rest) [ none ↦ none | some texts ↦ some (t ∷ texts) ]
  ]

  -- {"artifacts": retained, "text": parsed.text}.
  abbrev pub snapshot_of : List Members → Text → Json
  snapshot_of artifacts t = Json.object (
      Members.member "artifacts" (Json.list (as_items artifacts))
        (Members.member "text" (Json.text t) Members.end))

  abbrev pub with_texts : ParsedTask → List Members → Option (List Text) → StreamResult ParsedTask
  with_texts parsed artifacts none = StreamResult.failed StreamFailure.exception
  with_texts parsed artifacts (some texts) =
      StreamResult.fine
        (record parsed { text = or_text (join_lines texts) parsed.text; artifacts = artifacts })

  -- The yield at the end of a round.
  unfoldable pub yield_task : ParsedTask → Retained → StreamResult ParsedTask
  unfolding texts_of_all join_lines as_items
  yield_task parsed retained =
      let artifacts = values retained in
      if ltb S.max_snapshot_bytes (S.canonical_size (snapshot_of artifacts parsed.text))
      then StreamResult.failed StreamFailure.result_too_large
      else with_texts parsed artifacts (texts_of_all artifacts)

  abbrev pub is_other_handle : Option Text → Text → Bool
  is_other_handle none t = false
  is_other_handle (some h) t = not (same_text t h)

  -- isinstance(update, dict) and update.get("append").
  abbrev pub is_append : Option Members → Bool
  is_append none = false
  is_append (some update) = is_some (get_truthy "append" update)

  abbrev pub yielding : ParsedTask → Retained → StreamResult (ParsedTask × StreamState)
  yielding parsed retained = yield_task parsed retained >>= λ yielded.
      StreamResult.fine (yielded, record { handle = some parsed.task_id; retained = retained })

  -- The artifacts that a round begins with: none where it has a whole task with artifacts.
  abbrev pub kept_before : Members → StreamState → ParsedTask → Retained
  kept_before event s parsed =
      if is_some (get_object "task" event) && not (is_empty parsed.artifacts)
      then []
      else s.retained

  -- What a round does with a parsed event.
  unfoldable pub take_parsed :
      Members → StreamState → ParsedTask → StreamResult (ParsedTask × StreamState)
  unfolding get_object get_truthy retain_all yield_task same_text
  take_parsed event s parsed =
      if is_empty parsed.task_id || is_other_handle s.handle parsed.task_id
      then StreamResult.failed StreamFailure.peer_handle_conflict
      else (retain_all (is_append (get_object "artifactUpdate" event)) 0 parsed.artifacts
            (kept_before event s parsed)
          >>= λ retained. yielding parsed retained)

  -- After a round, with what the rest of the stream comes to.
  abbrev pub end_round :
      StreamResult (ParsedTask × StreamState)
      → (StreamState → List ParsedTask × Option StreamFailure)
      → List ParsedTask × Option StreamFailure
  end_round (StreamResult.failed e) later = ([], some e)
  end_round (StreamResult.fine (yielded, u)) later = (yielded ∷ (later u).0, (later u).1)

  abbrev pub run_round :
      Members
      → StreamState
      → Option (PeerResult ParsedTask)
      → (StreamState → List ParsedTask × Option StreamFailure)
      → List ParsedTask × Option StreamFailure
  run_round event s none later = later s
  run_round event s (some PeerResult.crashed) later = ([], some StreamFailure.exception)
  run_round event s (some (PeerResult.bad e)) later = ([], some (StreamFailure.parser_error e))
  run_round event s (some (PeerResult.good parsed)) later =
      end_round (take_parsed event s parsed) later

  -- The tasks yielded for the events of a stream, and how the loop ends.
  unfoldable pub run_events :
      Text → List Members → StreamState → List ParsedTask × Option StreamFailure
  unfolding parse_stream_event take_parsed
  run_events fallback_context [] s = ([], none)
  run_events fallback_context (event ∷ events) s =
      run_round event s (parse_stream_event S.printers fallback_context event)
        (λ u. run_events fallback_context events u)

-- The stream of a submission, whose context the fallback is.
abbrev pub new_stream : StreamState
new_stream = record { handle = none; retained = [] }

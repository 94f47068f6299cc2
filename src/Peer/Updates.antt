-- ===== src/Peer/Updates.antt =====
-- What one update of a stream comes to, whose artifact has one part, which is a text: its parsed task and
-- the retained artifact.
use codex_a2a_gateway.Base.{ℕ, Bool, none, ◌≡◌, true, some, arith, refl, ap, ◌∙◌, [], ◌∷◌, ◌++◌}
use codex_a2a_gateway.Texts.{Text, same_text}
use codex_a2a_gateway.Broker.Content.{codes}
use codex_a2a_gateway.Peer.Json.{Json, Items, Members, get, get_truthy, is_truthy, str}
use codex_a2a_gateway.Peer.Requests.{PeerResult}
use codex_a2a_gateway.Peer.Urls.{strip}
use codex_a2a_gateway.Peer.Tasks.{
  ParsedTask, unwrap_task, objects, objects_of, find_state, task_state, join_lines, part_text,
  message_text, first_text, status_of, text_of, parse_unwrapped, parse_task, get_object, or_else,
  parse_stream_event,
}
use codex_a2a_gateway.Peer.Parts.{
  fine, StreamSetup, ◌>>=◌, set, merge, items_of, parts_of, get_text, join_parts, append_part,
  append_parts, append_artifact,
}
use codex_a2a_gateway.Peer.Chunks.{
  texts_of_all, find, put, identity_of, retain_found, retain, retain_all,
}

-- An artifact of one part, which is a text.
abbrev pub text_artifact : Text → Text → Members
text_artifact identity t = Members.member "artifactId" (Json.text identity) (
    Members.member "parts"
      (Json.list
        (Items.item (Json.object (Members.member "text" (Json.text t) Members.end)) Items.last))
      Members.end)

-- An update of the task, whose artifact has one part, which is a text.
abbrev pub update_event : Bool → Text → Text → Text → Members
update_event appends task identity t =
    Members.member "artifactUpdate"
      (Json.object (
        Members.member "taskId" (Json.text task) (
          Members.member "append" (Json.flag appends)
            (Members.member "artifact" (Json.object (text_artifact identity t)) Members.end))))
      Members.end

abbrev pub parsed_update : Text → Text → Text → Text → Text → ParsedTask
parsed_update fallback task identity t x = record {
  task_id = task;
  context_id = fallback;
  state = codes "working";
  text = x;
  artifacts = text_artifact identity t ∷ [];
}

pub same_text_refl : (s : Text) → same_text s s ≡ true
unfolding same_text
same_text_refl [] = refl
same_text_refl (c ∷ s) = ground (arith, same_text_refl s)

find_same : (identity : Text) (a : Members) → find identity ((identity, a) ∷ []) ≡ some a
unfolding find
find_same identity a = rw (same_text_refl identity) refl

put_same :
    (identity : Text) (a b : Members) → put identity a ((identity, b) ∷ []) ≡ (identity, a) ∷ []
unfolding put
put_same identity a b = rw (same_text_refl identity) refl

module _ (S : StreamSetup) where
  -- A chunk and the artifact that it is appended to.
  retain_found-text :
      (identity s t : Text)
      → retain_found S true identity
          (text_artifact identity t)
          ((identity, text_artifact identity s) ∷ [])
          (some (text_artifact identity s))
        ≡ fine ((identity, text_artifact identity (s ++ t)) ∷ [])
  unfolding append_artifact parts_of items_of get get_text append_parts append_part join_parts set
      merge
  retain_found-text identity s t =
      ap fine (put_same identity (text_artifact identity (s ++ t)) (text_artifact identity s))

  pub retain_all-text :
      (c : ℕ) (identity s t : Text)
      → retain_all S true 0
          (text_artifact (c ∷ identity) t ∷ [])
          ((c ∷ identity, text_artifact (c ∷ identity) s) ∷ [])
        ≡ fine ((c ∷ identity, text_artifact (c ∷ identity) (s ++ t)) ∷ [])
  unfolding retain_all retain identity_of get_truthy get is_truthy str
  retain_all-text c identity s t =
      let kept = (c ∷ identity, text_artifact (c ∷ identity) s) ∷ [] in
      ap (λ m. m >>= λ more. fine more)
        (ap (retain_found S true (c ∷ identity) (text_artifact (c ∷ identity) t) kept)
            (find_same (c ∷ identity) (text_artifact (c ∷ identity) s))
          ∙ retain_found-text (c ∷ identity) s t)

  -- The text of an update's artifact.
  first_text-text :
      (identity t : Text) → first_text S.printers (text_artifact identity t ∷ []) ≡ some (strip t)
  unfolding first_text message_text get_truthy get is_truthy objects_of objects join_lines part_text
      strip
  first_text-text identity [] = refl
  first_text-text identity (c ∷ t) = keep (strip (c ∷ t))
    where
      keep : (x : Text) → elim x [ [] ↦ some [] | d ∷ s ↦ some (d ∷ s) ] ≡ some x
      keep [] = refl
      keep (d ∷ s) = refl

  pub parse_update :
      (fallback h identity t : Text) (c : ℕ) (appends : Bool)
      → parse_stream_event S.printers fallback (update_event appends (c ∷ h) identity t)
        ≡ some (PeerResult.good (parsed_update fallback (c ∷ h) identity t (strip t)))
  unfolding parse_stream_event get_object get parse_task unwrap_task parse_unwrapped status_of
      text_of task_state find_state same_text get_truthy is_truthy str objects_of objects
  parse_update fallback h identity t c appends = rw (first_text-text identity t) (finish (strip t))
    where
      finish :
          (x : Text)
          → some (elim (or_else S.printers (some x) (some [])) [
            | none ↦ PeerResult.crashed
            | some y ↦ PeerResult.good (parsed_update fallback (c ∷ h) identity t y)
          ])
            ≡ some (PeerResult.good (parsed_update fallback (c ∷ h) identity t x))
      finish [] = refl
      finish (d ∷ s) = refl

  pub texts_of-text :
      (identity t : Text) → texts_of_all S (text_artifact identity t ∷ []) ≡ some (strip t ∷ [])
  unfolding texts_of_all message_text get_truthy get is_truthy objects_of objects join_lines
      part_text strip
  texts_of-text identity [] = refl
  texts_of-text identity (c ∷ t) = refl

  pub one_line : (x : Text) → join_lines (x ∷ []) ≡ x
  unfolding join_lines
  one_line [] = refl
  one_line (c ∷ x) = refl

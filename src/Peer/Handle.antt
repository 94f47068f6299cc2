-- ===== src/Peer/Handle.antt =====
-- The tasks that a stream yields are of one handle, and within the bound.
use codex_a2a_gateway.Base.{
  ℕ, ◌≤◌, ◌≡◌, refl, ap, sym, subst, ◌∙◌, Bool, true, false, ◌||◌, Option, none, some, List, [],
  ◌∷◌, arith, ltb, if◌then◌else◌,
}
use codex_a2a_gateway.Texts.{Text, same_text}
use codex_a2a_gateway.Peer.Json.{Members}
use codex_a2a_gateway.Peer.Requests.{PeerResult, good, bad, crashed}
use codex_a2a_gateway.Peer.Tasks.{ParsedTask, parse_stream_event, get_object}
use codex_a2a_gateway.Peer.Parts.{StreamFailure, StreamResult, fine, failed, StreamSetup, ◌>>=◌}
use codex_a2a_gateway.Peer.Chunks.{
  Retained, StreamState, values, texts_of_all, with_texts, snapshot_of, is_empty, is_other_handle,
  is_append, retain_all, yield_task, yielding, kept_before, take_parsed, end_round, run_round,
  run_events, new_stream,
}

-- What holds of a value, where there is one.
abbrev Holds : {A : Type 0} → (A → Type 0) → StreamResult A → Type 0
Holds Q (fine a) = Q a
Holds Q (failed e) = Unit

Holds-bind :
    {A B : Type 0} (Q : A → Type 0) (R : B → Type 0) (m : StreamResult A) (f : A → StreamResult B)
    → Holds Q m
    → ((a : A) → Q a → Holds R (f a))
    → Holds R (m >>= f)
Holds-bind Q R (fine a) f q h = h a q
Holds-bind Q R (failed e) f q h = tt

Holds-any : {A : Type 0} (m : StreamResult A) → Holds (λ _. Unit) m
Holds-any (fine a) = tt
Holds-any (failed e) = tt

Holds-guard :
    {A : Type 0} (Q : A → Type 0) (b : Bool) (e : StreamFailure) (m : StreamResult A)
    → (b ≡ false → Holds Q m)
    → Holds Q (if b then StreamResult.failed e else m)
Holds-guard Q true e m h = tt
Holds-guard Q false e m h = h refl

pub same_text_same : (s r : Text) → same_text s r ≡ true → s ≡ r
unfolding same_text
same_text_same [] [] h = refl
same_text_same [] (b ∷ r) h = absurd cc
same_text_same (a ∷ s) [] h = absurd cc
same_text_same (a ∷ s) (b ∷ r) h =
    let same_head : a ≡ b = ground arith in let same_rest = same_text_same s r (ground arith) in cc

module _ (S : StreamSetup) where
  -- A task of the handle `h`, whose artifacts are within the bound.
  pub record IsYield (h : Text) (t : ParsedTask) : Type 0 where
    pub task_id : t.task_id ≡ h
    pub bounded :
        (x : Text) × (S.canonical_size (snapshot_of S t.artifacts x) ≤ S.max_snapshot_bytes)

  abbrev pub AllYields : Text → List ParsedTask → Type 0
  AllYields h [] = Unit
  AllYields h (t ∷ tasks) = IsYield h t × AllYields h tasks

  texts-Holds :
      (parsed : ParsedTask) (artifacts : List Members) (texts : Option (List Text))
      → S.canonical_size (snapshot_of S artifacts parsed.text) ≤ S.max_snapshot_bytes
      → Holds (IsYield parsed.task_id) (with_texts S parsed artifacts texts)
  texts-Holds parsed artifacts none fits = tt
  texts-Holds parsed artifacts (some texts) fits = record {
    task_id = refl;
    bounded = (parsed.text, fits);
  }

  yield_task-Holds :
      (parsed : ParsedTask) (retained : Retained)
      → Holds (IsYield parsed.task_id) (yield_task S parsed retained)
  unfolding yield_task
  yield_task-Holds parsed retained =
      let artifacts = values retained in
      Holds-guard (IsYield parsed.task_id)
        (ltb S.max_snapshot_bytes (S.canonical_size (snapshot_of S artifacts parsed.text)))
        StreamFailure.result_too_large (with_texts S parsed artifacts (texts_of_all S artifacts))
        (λ within.
          texts-Holds parsed artifacts (texts_of_all S artifacts)
            (fits (S.canonical_size (snapshot_of S artifacts parsed.text)) within))
    where
      fits : (n : ℕ) → ltb S.max_snapshot_bytes n ≡ false → n ≤ S.max_snapshot_bytes
      fits n h = ground arith

  -- What a round leaves: the handle of its task, which is the handle there was.
  abbrev IsTaken : StreamState → ParsedTask × StreamState → Type 0
  IsTaken s (t, u) =
      IsYield t.task_id t
      × (u.handle ≡ some t.task_id)
      × ((h : Text) → s.handle ≡ some h → t.task_id ≡ h)

  other-same :
      (handle : Option Text) (t h : Text)
      → is_other_handle S handle t ≡ false
      → handle ≡ some h
      → t ≡ h
  other-same none t h e e' = cc
  other-same (some h') t h e e' =
      let same_handle : h' ≡ h = cc in same_text_same t h' (ground arith) ∙ same_handle

  yielding-Holds :
      (s : StreamState) (parsed : ParsedTask) (retained : Retained)
      → is_other_handle S s.handle parsed.task_id ≡ false
      → Holds (IsTaken s) (yielding S parsed retained)
  yielding-Holds s parsed retained same_handle =
      let found : Holds (IsTaken s) (yielding S parsed retained) =
        Holds-bind (IsYield parsed.task_id) (IsTaken s) (yield_task S parsed retained)
          (λ t. fine (t, record { handle = some parsed.task_id; retained = retained }))
          (yield_task-Holds parsed retained)
          (λ t y. (
            record { task_id = refl; bounded = y.bounded },
            ap some (sym y.task_id),
            λ h found. y.task_id ∙ other-same s.handle parsed.task_id h same_handle found,
          )) in
      found

  take_parsed-Holds :
      (event : Members) (s : StreamState) (parsed : ParsedTask)
      → Holds (IsTaken s) (take_parsed S event s parsed)
  unfolding take_parsed
  take_parsed-Holds event s parsed =
      let retains =
        retain_all S (is_append S (get_object "artifactUpdate" event)) 0 parsed.artifacts
          (kept_before S event s parsed) in
      Holds-guard (IsTaken s) (is_empty parsed.task_id || is_other_handle S s.handle parsed.task_id)
        StreamFailure.peer_handle_conflict (retains >>= λ retained. yielding S parsed retained)
        (λ same_handle.
          Holds-bind (λ _. Unit) (IsTaken s) retains (λ retained. yielding S parsed retained)
            (Holds-any retains)
            (λ retained _. yielding-Holds s parsed retained (second _ _ same_handle)))
    where
      second : (a b : Bool) → (a || b) ≡ false → b ≡ false
      second a b h = ground arith

  -- The tasks are of the handle there is, or of one that the first of them gives.
  abbrev Follows : Option Text → List ParsedTask → Type 0
  Follows none tasks = (h : Text) × AllYields h tasks
  Follows (some h) tasks = AllYields h tasks

  Follows-nil : (handle : Option Text) → Follows handle []
  Follows-nil none = ([], tt)
  Follows-nil (some h) = tt

  Follows-cons :
      (handle : Option Text) (t : ParsedTask) (tasks : List ParsedTask)
      → ((h : Text) → handle ≡ some h → t.task_id ≡ h)
      → AllYields t.task_id (t ∷ tasks)
      → Follows handle (t ∷ tasks)
  Follows-cons none t tasks same all = (t.task_id, all)
  Follows-cons (some h) t tasks same all = subst (λ k. AllYields k (t ∷ tasks)) (same h refl) all

  end_round-Follows :
      (s : StreamState) (r : StreamResult (ParsedTask × StreamState))
      (later : StreamState → List ParsedTask × Option StreamFailure)
      → Holds (IsTaken s) r
      → ((u : StreamState) → Follows u.handle (later u).0)
      → Follows s.handle (end_round S r later).0
  end_round-Follows s (failed e) later taken rest = Follows-nil s.handle
  end_round-Follows s (fine (t, u)) later (y, now, same) rest =
      Follows-cons s.handle t (later u).0 same (y, subst (λ k. Follows k (later u).0) now (rest u))

  run_round-Follows :
      (event : Members) (s : StreamState) (p : Option (PeerResult ParsedTask))
      (later : StreamState → List ParsedTask × Option StreamFailure)
      → ((u : StreamState) → Follows u.handle (later u).0)
      → Follows s.handle (run_round S event s p later).0
  run_round-Follows event s none later rest = rest s
  run_round-Follows event s (some crashed) later rest = Follows-nil s.handle
  run_round-Follows event s (some (bad e)) later rest = Follows-nil s.handle
  run_round-Follows event s (some (good parsed)) later rest =
      end_round-Follows s (take_parsed S event s parsed) later (take_parsed-Holds event s parsed)
        rest

  run_events-Follows :
      (fallback_context : Text) (events : List Members) (s : StreamState)
      → Follows s.handle (run_events S fallback_context events s).0
  unfolding run_events
  run_events-Follows fallback_context [] s = Follows-nil s.handle
  run_events-Follows fallback_context (event ∷ events) s =
      run_round-Follows event s (parse_stream_event S.printers fallback_context event) _
        (λ u. run_events-Follows fallback_context events u)

-- Whatever the peer streams: the tasks that a submission yields are all of one handle, and the JSON of
-- the artifacts of each, with some text, is no larger than the configured limit.
pub run_events-AllYields :
    (S : StreamSetup) (fallback_context : Text) (events : List Members)
    → (h : Text) × AllYields S h (run_events S fallback_context events new_stream).0
run_events-AllYields S fallback_context events =
    run_events-Follows S fallback_context events new_stream

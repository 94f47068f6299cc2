-- ===== src/Peer/Joined.antt =====
-- An artifact that comes in chunks of text is put together again.
use codex_a2a_gateway.Base.{◌≤◌, true, some, List, [], ◌∷◌, ◌++◌}
use codex_a2a_gateway.Texts.{Text}
use codex_a2a_gateway.Broker.Content.{codes}
use codex_a2a_gateway.Peer.Json.{Members}
use codex_a2a_gateway.Peer.Urls.{strip}
use codex_a2a_gateway.Peer.Tasks.{ParsedTask, or_text}
use codex_a2a_gateway.Peer.Parts.{StreamSetup}
use codex_a2a_gateway.Peer.Chunks.{snapshot_of, StreamState}
use codex_a2a_gateway.Peer.Updates.{text_artifact, update_event}

module _ (S : StreamSetup) where
  -- The task that is yielded after the chunk `t`, where the artifact holds `whole`.
  abbrev pub joined_task : Text → Text → Text → Text → Text → ParsedTask
  joined_task fallback task identity whole t = record {
    task_id = task;
    context_id = fallback;
    state = codes "working";
    text = or_text (strip whole) (strip t);
    artifacts = text_artifact identity whole ∷ [];
  }

  abbrev holding : Text → Text → Text → StreamState
  holding task identity whole = record {
    handle = some task;
    retained = (identity, text_artifact identity whole) ∷ [];
  }

  -- The snapshot after the chunk is within the bound.
  abbrev pub IsSmall : Text → Text → Text → Type 0
  IsSmall identity whole t =
      S.canonical_size (snapshot_of S (text_artifact identity whole ∷ []) (strip t))
      ≤ S.max_snapshot_bytes

  abbrev pub appended : Text → Text → List Text → List Members
  appended task identity [] = []
  appended task identity (t ∷ chunks) =
      update_event true task identity t ∷ appended task identity chunks

  -- What is yielded for chunks that follow the text `whole`.
  abbrev pub joined_tasks : Text → Text → Text → Text → List Text → List ParsedTask
  joined_tasks fallback task identity whole [] = []
  joined_tasks fallback task identity whole (t ∷ chunks) =
      joined_task fallback task identity (whole ++ t) t
      ∷ joined_tasks fallback task identity (whole ++ t) chunks

  abbrev pub AreSmall : Text → Text → List Text → Type 0
  AreSmall identity whole [] = Unit
  AreSmall identity whole (t ∷ chunks) =
      IsSmall identity (whole ++ t) t × AreSmall identity (whole ++ t) chunks

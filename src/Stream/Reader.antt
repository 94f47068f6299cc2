-- ===== src/Stream/Reader.antt =====
-- The reader of the event stream: `_events` of hermes_a2a_gateway/client.py, for a response that is no
-- 410, and `ingest`. `json.loads` is a parameter; `none` is its ValueError, and a value that is no object
-- is no snapshot.
use codex_a2a_gateway.Base.{
  ℕ, suc, ◌+◌, Bool, true, false, ◌&&◌, Option, none, some, List, [], ◌∷◌, ◌++◌, ltb, length,
  if◌then◌else◌,
}
use codex_a2a_gateway.Tx.Errors.{Result, ok, err}
use codex_a2a_gateway.Tx.{Tape}
use codex_a2a_gateway.Broker.Content.{codes}
use codex_a2a_gateway.Client.Model.{Incoming, Sequence}
use codex_a2a_gateway.Client.Setup.{ClientSetup, ClientStore}
use codex_a2a_gateway.Client.Snapshots.{accept_snapshot}
use codex_a2a_gateway.Texts.{Text, starts, same_text, drop}
use codex_a2a_gateway.Stream.Lines.{
  Integer, natural, negative, split_lines, strip, strip_spaces, read_int,
}

-- event_id, event_type, data and size.
pub record Frame : Type 0 where
  pub event_id : Option Integer
  pub event_type : Text
  pub chunks : List Text
  pub size : ℕ

abbrev pub message_type : Text
message_type = codes "message"

abbrev pub new_frame : Frame
new_frame = record { event_id = none; event_type = message_type; chunks = []; size = 0 }

abbrev pub max_event : ℕ
max_event = 2097152

-- "\n".join(data).
unfoldable pub join_lines : List Text → Text
join_lines [] = []
join_lines (line ∷ []) = line
join_lines (line ∷ other ∷ lines) = line ++ 10 ∷ join_lines (other ∷ lines)

module _ (P : ClientSetup) where
  -- The reader with the client's ledger, and how many snapshots it has ingested.
  pub record Reader : Type 0 where
    pub frame : Frame
    pub store : ClientStore P
    pub ingested : ℕ

  -- After a line, or once a ValueError has ended the reading.
  pub data Reading : Type 0 where
    goes_on : Reader → Reading
    raised : ClientStore P → Reading

  abbrev pub store_of : Reading → ClientStore P
  store_of (goes_on r) = r.store
  store_of (raised l) = l

module _ (P : ClientSetup) (loads : Text → Option (Incoming P.Value)) (tape : ℕ → Tape) where
  abbrev pub after_accept : Reader P → Result (Unit {0}) × ClientStore P → Reading P
  after_accept r (ok u, l) =
      goes_on (record { frame = new_frame; store = l; ingested = suc r.ingested })
  after_accept r (err e, l) = raised l

  -- self.ingest(snapshot, event_id).
  unfoldable pub ingest : Incoming P.Value → ℕ → Reader P → Reading P
  unfolding accept_snapshot
  ingest s n r = after_accept r (accept_snapshot P s (Sequence.at n) (tape r.ingested) r.store)

  unfoldable pub ingest_parsed : Option (Incoming P.Value) → ℕ → Reader P → Reading P
  unfolding ingest
  ingest_parsed none n r = raised r.store
  ingest_parsed (some s) n r = ingest s n r

  abbrev pub renewed : Reader P → Reading P
  renewed r = goes_on (record r { frame = new_frame })

  -- An event with data, by its cursor.
  unfoldable pub take_event : Option Integer → Reader P → Reading P
  unfolding ingest_parsed join_lines
  take_event none r = raised r.store
  take_event (some negative) r = renewed r
  take_event (some (natural n)) r =
      if ltb r.store.cursor n
      then ingest_parsed (loads (join_lines r.frame.chunks)) n r
      else renewed r

  abbrev pub has_chunks : List Text → Bool
  has_chunks [] = false
  has_chunks (chunk ∷ chunks) = true

  -- An empty line.
  unfoldable pub end_event : Reader P → Reading P
  unfolding take_event same_text
  end_event r =
      if has_chunks r.frame.chunks && same_text r.frame.event_type (codes "operation")
      then take_event r.frame.event_id r
      else renewed r

  abbrev pub with_id : Reader P → Option Integer → Reading P
  with_id r none = raised r.store
  with_id r (some n) = goes_on (record r { frame = record r.frame { event_id = some n } })

  -- A line that is not empty.
  unfoldable pub field_line : Text → Reader P → Reading P
  unfolding starts drop read_int strip strip_spaces
  field_line line r =
      if starts (codes "id:") line
      then with_id r (read_int (drop 3 line))
      else if starts (codes "event:") line
      then goes_on (record r { frame = record r.frame { event_type = strip (drop 6 line) } })
      else if starts (codes "data:") line
      then goes_on (record r {
        frame = record r.frame { chunks = r.frame.chunks ++ strip_spaces (drop 5 line) ∷ [] };
      })
      else goes_on r

  unfoldable pub counted_line : Text → Reader P → Reading P
  unfolding end_event field_line
  counted_line [] r = end_event r
  counted_line (c ∷ line) r = field_line (c ∷ line) r

  unfoldable pub read_line : Text → Reader P → Reading P
  unfolding counted_line
  read_line line r =
      let size = r.frame.size + length line in
      if ltb max_event size
      then raised r.store
      else counted_line line (record r { frame = record r.frame { size = size } })

  unfoldable pub read_lines : List Text → Reading P → Reading P
  unfolding read_line
  read_lines lines (raised l) = raised l
  read_lines [] (goes_on r) = goes_on r
  read_lines (line ∷ lines) (goes_on r) = read_lines lines (read_line line r)

  -- The whole text of a response, read with the ledger `l`.
  unfoldable pub read_stream : Text → ClientStore P → Reading P
  unfolding read_lines split_lines
  read_stream text l =
      read_lines (split_lines text)
        (goes_on (record { frame = new_frame; store = l; ingested = 0 }))

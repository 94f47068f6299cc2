-- ===== src/Stream/RoundTrip.antt =====
-- What the broker prints on the event stream, the client reads.
use mathlib.Core.List.{append_assoc}
use codex_a2a_gateway.Base.{
  ℕ, suc, ◌+◌, ◌≤◌, ◌≡◌, ◌∙◌, sym, ap, refl, false, Option, none, some, List, [], ◌∷◌, ◌++◌, All,
  ltb, length, length-append, arith, if◌then◌else◌, Bool-cases, inl, inr,
}
use codex_a2a_gateway.Tx.Errors.{Result, ok, err}
use codex_a2a_gateway.Tx.{Tape}
use codex_a2a_gateway.Broker.Content.{codes}
use codex_a2a_gateway.Broker.Model.{Snapshot}
use codex_a2a_gateway.Client.Model.{Incoming, Sequence}
use codex_a2a_gateway.Client.Snapshots.{accept_snapshot}
use codex_a2a_gateway.Client.Setup.{ClientSetup, ClientStore}
use codex_a2a_gateway.Texts.{Text, starts, same_text, drop, decimal, concat}
use codex_a2a_gateway.Stream.Lines.{natural, is_line_break, split_lines, strip, strip_spaces}
use codex_a2a_gateway.Stream.Numbers.{IsDigit, decimal-IsDigit, read_int-decimal}
use codex_a2a_gateway.Stream.Printer.{Encoder, print_event, print_batch}
use codex_a2a_gateway.Stream.Reader.{
  Frame, new_frame, max_event, join_lines, Reader, after_accept, Reading, goes_on, raised, ingest,
  ingest_parsed, take_event, end_event, field_line, counted_line, read_line, read_lines,
}

-- No character ends a line.
abbrev pub IsPlain : Text → Type 0
IsPlain s = All (λ c. is_line_break c ≡ false) s

pub split_lines-line :
    (line rest : Text) → IsPlain line → split_lines (line ++ 10 ∷ rest) ≡ line ∷ split_lines rest
unfolding split_lines
split_lines-line [] rest h = refl
split_lines-line (c ∷ line) rest h = rw (h.0, split_lines-line line rest h.1) refl

digits-IsPlain : (s : Text) → All IsDigit s → IsPlain s
unfolding is_line_break
digits-IsPlain [] h = tt
digits-IsPlain (c ∷ s) h = (ground (arith, h.0.0, h.0.1), digits-IsPlain s h.1)

abbrev pub event_line : Text
event_line = codes "event: operation"

pub id-IsPlain : (n : ℕ) → IsPlain (codes "id: " ++ decimal n)
unfolding is_line_break
id-IsPlain n = (refl, (refl, (refl, (refl, digits-IsPlain (decimal n) (decimal-IsDigit n)))))

pub data-IsPlain : (j : Text) → IsPlain j → IsPlain (codes "data: " ++ j)
unfolding is_line_break
data-IsPlain j h = (refl, (refl, (refl, (refl, (refl, (refl, h))))))

pub event-IsPlain : IsPlain event_line
unfolding is_line_break
event-IsPlain = (
  refl,
  (
    refl,
    (
      refl,
      (
        refl,
        (
          refl,
          (
            refl,
            (refl, (refl, (refl, (refl, (refl, (refl, (refl, (refl, (refl, (refl, tt)))))))))),
          ),
        ),
      ),
    ),
  ),
)

module _ (E : Encoder) where
  -- What is printed for an event, line by line.
  pub print_event-lines :
      (n : ℕ) (s : Snapshot) (rest : Text)
      → print_event E (n, s) ++ rest
        ≡ (codes "id: " ++ decimal n)
          ++ 10 ∷ (event_line ++ 10 ∷ ((codes "data: " ++ E.snapshot s) ++ 10 ∷ ([] ++ 10 ∷ rest)))
  unfolding print_event
  print_event-lines n s rest = simp append_assoc

  pub length-print_event :
      (n : ℕ) (s : Snapshot)
      → length (print_event E (n, s))
        ≡ length (codes "id: " ++ decimal n) + 20 + length (codes "data: " ++ E.snapshot s)
  unfolding print_event
  length-print_event n s = omega (
    arith,
    length-append (decimal n)
        (codes "\nevent: operation\ndata: " ++ (E.snapshot s ++ codes "\n\n")),
    length-append (E.snapshot s) (codes "\n\n"),
  )

module _ (P : ClientSetup) (E : Encoder) (loads : Text → Option (Incoming P.Value))
    (tape : ℕ → Tape) where
  pub read_line-fits :
      (line : Text) (r : Reader P)
      → r.frame.size + length line ≤ max_event
      → read_line P loads tape line r
        ≡ counted_line P loads tape line
            (record r { frame = record r.frame { size = r.frame.size + length line } })
  unfolding read_line
  read_line-fits line r h = ground arith

  pub id_line :
      (n : ℕ) (r : Reader P)
      → counted_line P loads tape (codes "id: " ++ decimal n) r
        ≡ goes_on (record r { frame = record r.frame { event_id = some (natural n) } })
  unfolding counted_line field_line starts drop
  id_line n r = rw (read_int-decimal n) refl

  pub type_line :
      (r : Reader P)
      → counted_line P loads tape event_line r
        ≡ goes_on (record r { frame = record r.frame { event_type = codes "operation" } })
  unfolding counted_line field_line starts drop strip
  type_line r = refl

  pub data_line :
      (j : Text) (r : Reader P)
      → counted_line P loads tape (codes "data: " ++ b'{' ∷ j) r
        ≡ goes_on
            (record r { frame = record r.frame { chunks = r.frame.chunks ++ (b'{' ∷ j) ∷ [] } })
  unfolding counted_line field_line starts drop strip_spaces
  data_line j r = refl

  abbrev pub at_start : ClientStore P → ℕ → Reader P
  at_start l k = record { frame = new_frame; store = l; ingested = k }

  -- The frame of an event before its empty line.
  abbrev pub whole_frame : ℕ → Text → ℕ → Frame
  whole_frame n j size = record {
    event_id = some (natural n);
    event_type = codes "operation";
    chunks = (b'{' ∷ j) ∷ [];
    size = size;
  }

  pub end_whole :
      (n : ℕ) (j : Text) (size : ℕ) (l : ClientStore P) (k : ℕ)
      → counted_line P loads tape []
          (record { frame = whole_frame n j size; store = l; ingested = k })
        ≡ (if ltb l.cursor n
            then ingest_parsed P loads tape (loads (b'{' ∷ j)) n (at_start l k)
            else goes_on (at_start l k))
  unfolding counted_line end_event take_event same_text join_lines ingest_parsed ingest
  end_whole n j size l k = elim (Bool-cases (ltb l.cursor n)) [
    | inl new ↦ rw new (same_parsed (loads (b'{' ∷ j)))
    | inr old ↦ rw old refl
  ]
    where
      same_parsed :
          (parsed : Option (Incoming P.Value))
          → ingest_parsed P loads tape parsed n
              (record { frame = whole_frame n j size; store = l; ingested = k })
            ≡ ingest_parsed P loads tape parsed n (at_start l k)
      same_parsed none = refl
      same_parsed (some s) = refl

  pub read_lines-step :
      (line : Text) (lines : List Text) (r : Reader P) (x : Reading P)
      → read_line P loads tape line r ≡ x
      → read_lines P loads tape (line ∷ lines) (goes_on r) ≡ read_lines P loads tape lines x
  unfolding read_lines
  read_lines-step line lines r x e = ap (read_lines P loads tape lines) e

  event_lines :
      (n : ℕ) (j : Text) (more : List Text) (l : ClientStore P) (k : ℕ)
      → length (codes "id: " ++ decimal n) + 16 + length (codes "data: " ++ b'{' ∷ j) ≤ max_event
      → read_lines P loads tape
          ((codes "id: " ++ decimal n) ∷ event_line ∷ (codes "data: " ++ b'{' ∷ j) ∷ [] ∷ more)
          (goes_on (at_start l k))
        ≡ read_lines P loads tape more (
            if ltb l.cursor n
            then ingest_parsed P loads tape (loads (b'{' ∷ j)) n (at_start l k)
            else goes_on (at_start l k))
  event_lines n j more l k h =
      read_lines-step (codes "id: " ++ decimal n) _ (at_start l k) _
        (read_line-fits (codes "id: " ++ decimal n) (at_start l k) (omega arith) ∙ id_line n _)
      ∙ (read_lines-step event_line _ _ _ (read_line-fits event_line _ (omega arith) ∙ type_line _)
          ∙ (read_lines-step (codes "data: " ++ b'{' ∷ j) _ _ _
                (read_line-fits (codes "data: " ++ b'{' ∷ j) _ (omega arith) ∙ data_line j _)
              ∙ read_lines-step [] more _ _
                  (read_line-fits [] _ (omega arith) ∙ end_whole n j _ l k)))

  abbrev pub continue_with :
      (ClientStore P → Reading P) → Result (Unit {0}) × ClientStore P → Reading P
  continue_with next (ok u, l) = next l
  continue_with next (err e, l) = raised l

  module _ (as_incoming : Snapshot → Incoming P.Value) where
    -- The events ingested one after the other, without those that the client has seen; `k` of them
    -- have been before.
    unfoldable pub apply_events : List (ℕ × Snapshot) → ClientStore P → ℕ → Reading P
    apply_events [] l k = goes_on (at_start l k)
    apply_events ((n, s) ∷ rows) l k =
        let seen = apply_events rows l k in
        let next = λ (u : ClientStore P). apply_events rows u (suc k) in
        if ltb l.cursor n
        then continue_with next (accept_snapshot P (as_incoming s) (Sequence.at n) (tape k) l)
        else seen

    -- The JSON of the snapshot is an object on one line, which json.loads reads, and the event is within
    -- the client's bound.
    pub record IsReadable (row : ℕ × Snapshot) : Type 0 where
      pub rest : Text
      pub object : E.snapshot row.1 ≡ b'{' ∷ rest
      pub plain : IsPlain (E.snapshot row.1)
      pub parsed : loads (E.snapshot row.1) ≡ some (as_incoming row.1)
      pub fits : length (print_event E row) ≤ max_event

    event_text :
        (n : ℕ) (s : Snapshot) (more : Text)
        → IsPlain (E.snapshot s)
        → split_lines (print_event E (n, s) ++ more)
          ≡ (codes "id: " ++ decimal n)
            ∷ event_line
            ∷ (codes "data: " ++ E.snapshot s)
            ∷ []
            ∷ split_lines more
    event_text n s more plain =
        ap split_lines (print_event-lines E n s more)
        ∙ (split_lines-line (codes "id: " ++ decimal n) _ (id-IsPlain n)
            ∙ ap (◌∷◌ (codes "id: " ++ decimal n)) (
                split_lines-line event_line _ event-IsPlain
                ∙ ap (◌∷◌ event_line) (
                    split_lines-line (codes "data: " ++ E.snapshot s) _ (data-IsPlain _ plain)
                    ∙ ap (◌∷◌ (codes "data: " ++ E.snapshot s)) (split_lines-line [] more tt))))

    -- After the snapshot of an event, by what its acceptance returned.
    accepted :
        (more : List Text) (k : ℕ) (next : ClientStore P → Reading P)
        → ((u : ClientStore P)
            → read_lines P loads tape more (goes_on (at_start u (suc k))) ≡ next u)
        → (l : ClientStore P) (x : Result (Unit {0}) × ClientStore P)
        → read_lines P loads tape more (after_accept P loads tape (at_start l k) x)
          ≡ continue_with next x
    unfolding read_lines
    accepted more k next h l (ok u, v) = h v
    accepted more k next h l (err e, v) = refl

    event_fits :
        (n : ℕ) (s : Snapshot) (h : IsReadable (n, s))
        → length (codes "id: " ++ decimal n) + 16 + length (codes "data: " ++ b'{' ∷ h.rest)
          ≤ max_event
    event_fits n s h =
        let same_length : length (codes "data: " ++ E.snapshot s)
            ≡ length (codes "data: " ++ b'{' ∷ h.rest) =
          ap (λ j. length (codes "data: " ++ j)) h.object in
        omega (arith, length-print_event E n s, h.fits)

    event_step :
        (n : ℕ) (s : Snapshot) (more : Text) (l : ClientStore P) (k : ℕ)
        → IsReadable (n, s)
        → read_lines P loads tape
            (split_lines (print_event E (n, s) ++ more))
            (goes_on (at_start l k))
          ≡ read_lines P loads tape (split_lines more) (
              if ltb l.cursor n
              then ingest P loads tape (as_incoming s) n (at_start l k)
              else goes_on (at_start l k))
    unfolding ingest_parsed
    event_step n s more l k h =
        ap (λ t. read_lines P loads tape t (goes_on (at_start l k))) (event_text n s more h.plain)
        ∙ rw h.object (
            event_lines n h.rest (split_lines more) l k (event_fits n s h)
            ∙ ap
                (λ (o : Option (Incoming P.Value)). read_lines P loads tape (split_lines more) (
                  if ltb l.cursor n
                  then ingest_parsed P loads tape o n (at_start l k)
                  else goes_on (at_start l k)))
                (ap loads (sym h.object) ∙ h.parsed))

    lines_nil : (r : Reader P) → read_lines P loads tape (split_lines []) (goes_on r) ≡ goes_on r
    unfolding read_lines split_lines
    lines_nil r = refl

    -- The client reads from what the broker prints for a batch of events exactly these events, in their
    -- order, ingesting each that is new to it until one is refused: whatever its ledger, for
    -- snapshots whose JSON is an object on one line and within the client's bound.
    pub read_lines-print_batch :
        (rows : List (ℕ × Snapshot)) (l : ClientStore P) (k : ℕ)
        → All IsReadable rows
        → read_lines P loads tape
            (split_lines (concat (print_batch E rows)))
            (goes_on (at_start l k))
          ≡ apply_events rows l k
    unfolding apply_events print_batch concat ingest
    read_lines-print_batch [] l k h = lines_nil (at_start l k)
    read_lines-print_batch ((n, s) ∷ rows) l k (h, hs) =
        let more = concat (print_batch E rows) in
        event_step n s more l k h ∙ elim (Bool-cases (ltb l.cursor n)) [
          | inl new ↦ rw new (
              accepted (split_lines more) k (λ u. apply_events rows u (suc k))
                (λ u. read_lines-print_batch rows u (suc k) hs) l
                (accept_snapshot P (as_incoming s) (Sequence.at n) (tape k) l))
          | inr seen ↦ rw seen (read_lines-print_batch rows l k hs)
        ]

-- ===== src/Stream/Broken.antt =====
-- An event that the client cannot read: the broker prints JSON with `ensure_ascii=False`, which leaves
-- a line separator of Unicode in a text as it is, and the client's lines end there.
use mathlib.Core.List.{append_assoc}
use codex_a2a_gateway.Base.{
  ℕ, ◌+◌, ◌≤◌, ◌<◌, ◌≡◌, ◌∙◌, ap, refl, true, false, Option, none, List, [], ◌∷◌, ◌++◌, ltb, ◌==◌,
  length, length-append, arith, if◌then◌else◌,
}
use codex_a2a_gateway.Tx.{Tape}
use codex_a2a_gateway.Broker.Content.{codes}
use codex_a2a_gateway.Broker.Model.{Snapshot}
use codex_a2a_gateway.Client.Model.{Incoming}
use codex_a2a_gateway.Client.Setup.{ClientSetup, ClientStore}
use codex_a2a_gateway.Texts.{Text, starts, decimal}
use codex_a2a_gateway.Stream.Lines.{is_line_break, split_lines}
use codex_a2a_gateway.Stream.Printer.{Encoder, print_event}
use codex_a2a_gateway.Stream.Reader.{
  max_event, Reader, goes_on, raised, ingest_parsed, field_line, counted_line, read_lines,
}
use codex_a2a_gateway.Stream.RoundTrip.{
  IsPlain, split_lines-line, event_line, print_event-lines, read_line-fits, id_line, type_line,
  data_line, at_start, end_whole, read_lines-step, id-IsPlain, data-IsPlain, event-IsPlain,
  length-print_event,
}

split_lines-break :
    (line rest : Text) (c : ℕ)
    → IsPlain line
    → is_line_break c ≡ true
    → (c == 13) ≡ false
    → split_lines (line ++ c ∷ rest) ≡ line ∷ split_lines rest
unfolding split_lines
split_lines-break [] rest c h ends other = rw (ends, other) refl
split_lines-break (x ∷ line) rest c h ends other =
    rw (h.0, split_lines-break line rest c h.1 ends other) refl

module _ (P : ClientSetup) (E : Encoder) (loads : Text → Option (Incoming P.Value))
    (tape : ℕ → Tape) where
  -- The JSON is cut at `mark`, where a line ends, into the opening of an object, which is no JSON value, and
  -- a line that is no field of an event.
  pub record IsCut (json : Text) : Type 0 where
    pub head : Text
    pub mark : ℕ
    pub tail : Text
    pub whole : json ≡ b'{' ∷ (head ++ mark ∷ tail)
    pub ends : is_line_break mark ≡ true
    pub no_return : (mark == 13) ≡ false
    pub head_plain : IsPlain (b'{' ∷ head)
    pub tail_plain : IsPlain tail
    pub unread : loads (b'{' ∷ head) ≡ none
    pub not_empty : 0 < length tail
    pub no_id : starts (codes "id:") tail ≡ false
    pub no_event : starts (codes "event:") tail ≡ false
    pub no_data : starts (codes "data:") tail ≡ false

  ignored_line :
      (tail : Text) (r : Reader P)
      → 0 < length tail
      → starts (codes "id:") tail ≡ false
      → starts (codes "event:") tail ≡ false
      → starts (codes "data:") tail ≡ false
      → counted_line P loads tape tail r ≡ goes_on r
  unfolding counted_line field_line
  ignored_line [] r some_text no_id no_event no_data = absurd (omega arith)
  ignored_line (c ∷ tail) r some_text no_id no_event no_data = rw (no_id, no_event, no_data) refl

  -- What follows the identity and the type.
  abbrev after_fields : ℕ → Text → Text
  after_fields n t = (codes "id: " ++ decimal n) ++ 10 ∷ (event_line ++ 10 ∷ t)

  cut_data :
      (s : Snapshot) (more : Text) (h : IsCut (E.snapshot s))
      → (codes "data: " ++ E.snapshot s) ++ 10 ∷ ([] ++ 10 ∷ more)
        ≡ (codes "data: " ++ b'{' ∷ h.head) ++ h.mark ∷ (h.tail ++ 10 ∷ ([] ++ 10 ∷ more))
  cut_data s more h = rw h.whole (simp append_assoc)

  cut_text :
      (n : ℕ) (s : Snapshot) (more : Text) (h : IsCut (E.snapshot s))
      → split_lines (print_event E (n, s) ++ more)
        ≡ (codes "id: " ++ decimal n)
          ∷ event_line
          ∷ (codes "data: " ++ b'{' ∷ h.head)
          ∷ h.tail
          ∷ []
          ∷ split_lines more
  cut_text n s more h =
      ap split_lines (print_event-lines E n s more ∙ ap (after_fields n) (cut_data s more h))
      ∙ (split_lines-line (codes "id: " ++ decimal n) _ (id-IsPlain n)
          ∙ ap (◌∷◌ (codes "id: " ++ decimal n)) (
              split_lines-line event_line _ event-IsPlain
              ∙ ap (◌∷◌ event_line) (
                  split_lines-break (codes "data: " ++ b'{' ∷ h.head) _ h.mark
                    (data-IsPlain (b'{' ∷ h.head) h.head_plain) h.ends h.no_return
                  ∙ ap (◌∷◌ (codes "data: " ++ b'{' ∷ h.head)) (
                      split_lines-line h.tail _ h.tail_plain
                      ∙ ap (◌∷◌ h.tail) (split_lines-line [] more tt)))))

  cut_fits :
      (n : ℕ) (s : Snapshot)
      → length (print_event E (n, s)) ≤ max_event
      → (h : IsCut (E.snapshot s))
      → length (codes "id: " ++ decimal n)
          + 16
          + length (codes "data: " ++ b'{' ∷ h.head)
          + length h.tail
        ≤ max_event
  cut_fits n s fits h =
      let same_length : length (codes "data: " ++ E.snapshot s)
          ≡ length (codes "data: " ++ b'{' ∷ (h.head ++ h.mark ∷ h.tail)) =
        ap (λ j. length (codes "data: " ++ j)) h.whole in
      omega (arith, length-print_event E n s, length-append h.head (h.mark ∷ h.tail), fits)

  unread_event :
      (n : ℕ) (l : ClientStore P) (k : ℕ) (head : Text)
      → l.cursor < n
      → loads (b'{' ∷ head) ≡ none
      → (if ltb l.cursor n
          then ingest_parsed P loads tape (loads (b'{' ∷ head)) n (at_start P E loads tape l k)
          else goes_on (at_start P E loads tape l k))
        ≡ raised l
  unfolding ingest_parsed
  unread_event n l k head new unread = rw (newer l.cursor n new, unread) refl
    where
      newer : (a b : ℕ) → a < b → ltb a b ≡ true
      newer a b h = ground arith

  read_lines-raised :
      (lines : List Text) (l : ClientStore P) → read_lines P loads tape lines (raised l) ≡ raised l
  unfolding read_lines
  read_lines-raised [] l = refl
  read_lines-raised (line ∷ lines) l = refl

  -- The client reads an event whose JSON is cut at a line separator as invalid, and stops with its ledger
  -- unchanged, its cursor included, whatever follows: it will ask for the same event again.
  pub read_lines-IsCut :
      (n : ℕ) (s : Snapshot) (more : Text) (l : ClientStore P) (k : ℕ)
      → l.cursor < n
      → length (print_event E (n, s)) ≤ max_event
      → IsCut (E.snapshot s)
      → read_lines P loads tape
          (split_lines (print_event E (n, s) ++ more))
          (goes_on (at_start P E loads tape l k))
        ≡ raised l
  read_lines-IsCut n s more l k new fits h =
      let sizes = cut_fits n s fits h in
      ap (λ t. read_lines P loads tape t (goes_on (at_start P E loads tape l k)))
        (cut_text n s more h)
      ∙ (read_lines-step P E loads tape (codes "id: " ++ decimal n) _ (at_start P E loads tape l k)
            _
            (read_line-fits P E loads tape (codes "id: " ++ decimal n) _ (omega arith)
              ∙ id_line P E loads tape n _)
          ∙ (read_lines-step P E loads tape event_line _ _ _ (
                read_line-fits P E loads tape event_line _ (omega arith)
                ∙ type_line P E loads tape _)
              ∙ (read_lines-step P E loads tape (codes "data: " ++ b'{' ∷ h.head) _ _ _ (
                    read_line-fits P E loads tape (codes "data: " ++ b'{' ∷ h.head) _ (omega arith)
                    ∙ data_line P E loads tape h.head _)
                  ∙ (read_lines-step P E loads tape h.tail _ _ _ (
                        read_line-fits P E loads tape h.tail _ (omega arith)
                        ∙ ignored_line h.tail _ h.not_empty h.no_id h.no_event h.no_data)
                      ∙ (read_lines-step P E loads tape [] _ _ _ (
                            read_line-fits P E loads tape [] _ (omega arith)
                            ∙ (end_whole P E loads tape n h.head _ l k
                                ∙ unread_event n l k h.head new h.unread))
                          ∙ read_lines-raised (split_lines more) l)))))

-- ===== src/Stream/Lines.antt =====
-- What Python does to the lines of a stream: `str.splitlines`, which is how the HTTP client of
-- hermes_a2a_gateway/client.py cuts a response into lines, `str.strip` and `int`, whose digits here are
-- those of ASCII.
use codex_a2a_gateway.Base.{
  ℕ, ◌+◌, ◌-◌, ◌*◌, Bool, true, false, not, ◌&&◌, ◌||◌, Option, none, some, List, [], ◌∷◌, leb,
  ◌==◌, if◌then◌else◌, ◌≡◌, refl,
}
use codex_a2a_gateway.Broker.Content.{codes}
use codex_a2a_gateway.Client.Texts.{is_white}
use codex_a2a_gateway.Texts.{Text}

-- Where str.splitlines ends a line.
unfoldable pub is_line_break : ℕ → Bool
is_line_break c =
    ((leb 10 c && leb c 13) || (leb 28 c && leb c 30))
    || ((c == 0x85) || ((c == 0x2028) || (c == 0x2029)))

abbrev pub prepend : ℕ → List Text → List Text
prepend c [] = (c ∷ []) ∷ []
prepend c (line ∷ lines) = (c ∷ line) ∷ lines

abbrev pub starts_feed : Text → Bool
starts_feed [] = false
starts_feed (c ∷ s) = c == 10

-- A carriage return before a line feed ends no line of its own.
unfoldable pub split_lines : Text → List Text
unfolding is_line_break
split_lines [] = []
split_lines (c ∷ s) =
    let rest = split_lines s in
    if not (is_line_break c)
    then prepend c rest
    else if (c == 13) && starts_feed s
    then rest
    else [] ∷ rest

unfoldable pub strip_left : Text → Text
unfolding is_white
strip_left [] = []
strip_left (c ∷ s) = let rest = strip_left s in if is_white c then rest else c ∷ s

unfoldable pub all_white : Text → Bool
unfolding is_white
all_white [] = true
all_white (c ∷ s) = is_white c && all_white s

unfoldable pub strip_right : Text → Text
unfolding all_white
strip_right [] = []
strip_right (c ∷ s) = let rest = strip_right s in if all_white (c ∷ s) then [] else c ∷ rest

unfoldable pub strip : Text → Text
unfolding strip_left strip_right
strip s = strip_right (strip_left s)

-- s.lstrip(" ").
unfoldable pub strip_spaces : Text → Text
strip_spaces [] = []
strip_spaces (c ∷ s) = let rest = strip_spaces s in if c == b' ' then rest else c ∷ s

-- An integer, as far as the client tells integers apart.
pub data Integer : Type 0 where
  natural : ℕ → Integer
  negative : Integer

-- Digits with single underscores between them; `after` says that the character before was a digit.
unfoldable pub read_digits : Bool → ℕ → Text → Option ℕ
read_digits after n [] = if after then some n else none
read_digits after n (c ∷ s) =
    let next = read_digits true (n * 10 + (c - b'0')) s in
    let separated = read_digits false n s in
    if leb b'0' c && leb c b'9' then next else if after && (c == b'_') then separated else none

abbrev pub as_natural : Option ℕ → Option Integer
as_natural none = none
as_natural (some n) = some (Integer.natural n)

abbrev pub as_negative : Option ℕ → Option Integer
as_negative none = none
as_negative (some n) = some (if n == 0 then Integer.natural 0 else Integer.negative)

abbrev pub read_signed : Text → Option Integer
unfolding read_digits
read_signed [] = none
read_signed (c ∷ s) =
    if c == b'-'
    then as_negative (read_digits false 0 s)
    else if c == b'+'
    then as_natural (read_digits false 0 s)
    else as_natural (read_digits false 0 (c ∷ s))

-- int(s); `none` is a ValueError.
unfoldable pub read_int : Text → Option Integer
unfolding strip read_digits
read_int s = read_signed (strip s)

lines_test : split_lines (codes "a\r\nb\n\nc") ≡ codes "a" ∷ codes "b" ∷ [] ∷ codes "c" ∷ []
unfolding split_lines
lines_test = refl

int_test : read_int (codes " 1_024 ") ≡ some (Integer.natural 1024)
unfolding read_int
int_test = refl

-- ===== src/Broker/Content.antt =====
-- The tests of inputs that the store makes on texts and bytes (`accept`, `put_artifact` and
-- `save_handle` of hermes_a2a_gateway/broker_store.py): media types, UTF-8, and distinct identities.
use Prim.Native.Char.{code}
use Prim.Native.String.{len, count}
use codex_a2a_gateway.Base.{
  ℕ, zero, suc, ◌+◌, String, Bool, true, false, not, ◌&&◌, ◌||◌, List, [], ◌∷◌, Option, none, some,
  ltb, leb, ◌==◌, if◌then◌else◌, ◌≡◌, refl,
}

-- The code points of a text.
abbrev pub codes : String → List ℕ
codes String.[] = []
codes (String.◌∷◌ c s) = code c ∷ codes s

abbrev same_codes : List ℕ → List ℕ → Bool
same_codes [] [] = true
same_codes (a ∷ s) (b ∷ r) = (a == b) && same_codes s r
same_codes _ _ = false

-- s.split(";", 1)[0].
unfoldable pub before_semicolon : List ℕ → List ℕ
before_semicolon [] = []
before_semicolon (c ∷ s) = let rest = before_semicolon s in if c == b';' then [] else c ∷ rest

-- The white space of ASCII; `put_artifact` stores no other character.
unfoldable pub is_space : ℕ → Bool
is_space c = (leb 9 c && leb c 13) || (leb 28 c && leb c 32)

unfoldable pub strip_left : List ℕ → List ℕ
unfolding is_space
strip_left [] = []
strip_left (c ∷ s) = let rest = strip_left s in if is_space c then rest else c ∷ s

abbrev all_space : List ℕ → Bool
unfolding is_space
all_space [] = true
all_space (c ∷ s) = is_space c && all_space s

unfoldable pub strip_right : List ℕ → List ℕ
unfolding is_space
strip_right [] = []
strip_right (c ∷ s) = let rest = strip_right s in if all_space (c ∷ s) then [] else c ∷ rest

-- c.lower(), in ASCII.
unfoldable pub to_lower : ℕ → ℕ
to_lower c = if leb b'A' c && leb c b'Z' then c + 32 else c

unfoldable pub lower : List ℕ → List ℕ
unfolding to_lower
lower [] = []
lower (c ∷ s) = to_lower c ∷ lower s

-- content_type.split(";", 1)[0].strip().lower() == "text/plain".
unfoldable pub is_text_plain : String → Bool
unfolding before_semicolon strip_left strip_right lower
is_text_plain t =
    same_codes (lower (strip_right (strip_left (before_semicolon (codes t))))) (codes "text/plain")

-- any(ord(c) < 32 or ord(c) > 126 for c in s), negated.
unfoldable pub is_printable : List ℕ → Bool
is_printable [] = true
is_printable (c ∷ s) = (leb 32 c && leb c 126) && is_printable s

-- len(content_type) > 128 or any(...), negated.
unfoldable pub is_content_type : String → Bool
unfolding is_printable
is_content_type t = leb (count t) 128 && is_printable (codes t)

-- Where a UTF-8 decoder stands: the continuation bytes still to come, and the bounds of the next.
pub record Decoder : Type 0 where
  pub due : ℕ
  pub low : ℕ
  pub high : ℕ

abbrev expects : ℕ → ℕ → ℕ → Option Decoder
expects n lo hi = some (record { due = n; low = lo; high = hi })

-- The first byte of a character (RFC 3629).
unfoldable pub lead_byte : ℕ → Option Decoder
lead_byte b =
    if ltb b 0x80
    then expects 0 0x80 0xbf
    else if ltb b 0xc2
    then none
    else if ltb b 0xe0
    then expects 1 0x80 0xbf
    else if b == 0xe0
    then expects 2 0xa0 0xbf
    else if b == 0xed
    then expects 2 0x80 0x9f
    else if ltb b 0xf0
    then expects 2 0x80 0xbf
    else if b == 0xf0
    then expects 3 0x90 0xbf
    else if ltb b 0xf4
    then expects 3 0x80 0xbf
    else if b == 0xf4
    then expects 3 0x80 0x8f
    else none

abbrev next_byte : ℕ → ℕ → ℕ → ℕ → Option Decoder
unfolding lead_byte
next_byte zero lo hi b = lead_byte b
next_byte (suc n) lo hi b = if leb lo b && leb b hi then expects n 0x80 0xbf else none

abbrev ends_whole : Option Decoder → List ℕ → Bool
unfolding lead_byte
ends_whole none bytes = false
ends_whole (some d) [] = d.due == 0
ends_whole (some d) (b ∷ bytes) = ends_whole (next_byte d.due d.low d.high b) bytes

-- content.decode("utf-8") raises nothing.
unfoldable pub is_utf8 : List ℕ → Bool
unfolding lead_byte
is_utf8 bytes = ends_whole (expects 0 0x80 0xbf) bytes

unfoldable pub contains : ℕ → List ℕ → Bool
contains a [] = false
contains a (b ∷ ids) = (a == b) || contains a ids

-- len(set(ids)) == len(ids).
unfoldable pub are_distinct : List ℕ → Bool
unfolding contains
are_distinct [] = true
are_distinct (a ∷ ids) = not (contains a ids) && are_distinct ids

-- handle and len(handle) <= 512.
unfoldable pub is_handle : String → Bool
is_handle h = ltb 0 (count h) && leb (count h) 512

-- len(prompt.encode("utf-8")).
unfoldable pub utf8_size : String → ℕ
utf8_size s = len s

media_type : is_text_plain " Text/Plain ; charset=utf-8" ≡ true
unfolding is_text_plain
media_type = refl

euro_sign : is_utf8 (0x41 ∷ 0xe2 ∷ 0x82 ∷ 0xac ∷ []) ≡ true
unfolding is_utf8
euro_sign = refl

surrogate : is_utf8 (0xed ∷ 0xa0 ∷ 0x80 ∷ []) ≡ false
unfolding is_utf8
surrogate = refl

-- ===== src/Client/Texts.antt =====
-- The tests that the client makes on texts: `native_uuid` of hermes_a2a_gateway/native_delivery.py,
-- and blank prompts.
use codex_a2a_gateway.Base.{
  ℕ, suc, ◌+◌, ◌-◌, ◌*◌, String, Bool, true, ◌&&◌, ◌||◌, Option, none, some, List, [], ◌∷◌, leb,
  ◌==◌, if◌then◌else◌, ◌≡◌, refl,
}
use codex_a2a_gateway.Broker.Content.{codes}

abbrev hex_digit : ℕ → Option ℕ
hex_digit c =
    if leb b'0' c && leb c b'9'
    then some (c - b'0')
    else if leb b'a' c && leb c b'f'
    then some (10 + (c - b'a'))
    else if leb b'A' c && leb c b'F'
    then some (10 + (c - b'A'))
    else none

abbrev is_hyphen_place : ℕ → Bool
is_hyphen_place i = ((i == 8) || (i == 13)) || ((i == 18) || (i == 23))

-- The number read so far, with the character at place `i`.
abbrev read_place : ℕ → ℕ → ℕ → Option ℕ
read_place i n c =
    if is_hyphen_place i
    then (if c == b'-' then some n else none)
    else elim (hex_digit c) [ none ↦ none | some v ↦ some (n * 16 + v) ]

unfoldable pub read_places : ℕ → ℕ → List ℕ → Option ℕ
read_places i n [] = if i == 36 then some n else none
read_places i n (c ∷ s) = elim (read_place i n c) [ none ↦ none | some m ↦ read_places (suc i) m s ]

-- str(UUID(value)) == value.lower() holds of the hyphenated form alone, in either case; the result
-- is the number of the identity.
unfoldable pub read_uuid : String → Option ℕ
unfolding read_places
read_uuid t = read_places 0 0 (codes t)

-- The white space that str.strip() removes.
unfoldable pub is_white : ℕ → Bool
is_white c =
    ((leb 9 c && leb c 13) || (leb 28 c && leb c 32))
    || (((c == 0x85) || (c == 0xa0)) || ((c == 0x1680) || (leb 0x2000 c && leb c 0x200a)))
    || (((c == 0x2028) || (c == 0x2029)) || ((c == 0x202f) || ((c == 0x205f) || (c == 0x3000))))

abbrev all_white : List ℕ → Bool
unfolding is_white
all_white [] = true
all_white (c ∷ s) = is_white c && all_white s

-- not prompt.strip().
unfoldable pub is_blank : String → Bool
unfolding is_white
is_blank t = all_white (codes t)

small_uuid : read_uuid "00000000-0000-0000-0000-00000000001F" ≡ some 31
unfolding read_uuid
small_uuid = refl

braced_uuid : read_uuid "{00000000-0000-0000-0000-00000000001f}" ≡ none
unfolding read_uuid
braced_uuid = refl

short_uuid : read_uuid "0000001f" ≡ none
unfolding read_uuid
short_uuid = refl

blank_prompt : is_blank " \n " ≡ true
unfolding is_blank
blank_prompt = refl

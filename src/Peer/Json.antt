-- ===== src/Peer/Json.antt =====
-- JSON values as hermes_a2a_gateway/a2a.py reads them: a number is told apart by its value, and
-- `fraction` is a number that is no integer. Texts are lists of code points.
use codex_a2a_gateway.Base.{
  ℕ, zero, suc, String, Bool, true, false, Option, none, some, [], ◌∷◌, same, if◌then◌else◌,
}
use codex_a2a_gateway.Texts.{Text}

mutual
  pub data Json : Type 0 where
    null fraction : Json
    flag : Bool → Json
    number negative : ℕ → Json
    text : Text → Json
    list : Items → Json
    object : Members → Json

  pub data Items : Type 0 where
    last : Items
    item : Json → Items → Items

  -- The keys are different, since the parser keeps the last value of each.
  pub data Members : Type 0 where
    end : Members
    member : String → Json → Members → Members

-- dict.get.
unfoldable pub get : String → Members → Option Json
get k Members.end = none
get k (Members.member name j rest) = let later = get k rest in if same name k then some j else later

-- bool(value).
unfoldable pub is_truthy : Json → Bool
is_truthy Json.null = false
is_truthy Json.fraction = true
is_truthy (Json.flag b) = b
is_truthy (Json.number zero) = false
is_truthy (Json.number (suc n)) = true
is_truthy (Json.negative n) = true
is_truthy (Json.text []) = false
is_truthy (Json.text (c ∷ s)) = true
is_truthy (Json.list Items.last) = false
is_truthy (Json.list (Items.item j rest)) = true
is_truthy (Json.object Members.end) = false
is_truthy (Json.object (Members.member k j rest)) = true

-- value.get(key) or None, and a value only where it is true.
unfoldable pub get_truthy : String → Members → Option Json
unfolding get is_truthy
get_truthy k m = elim (get k m) [ none ↦ none | some j ↦ if is_truthy j then some j else none ]

-- str(value); `show` is str of a value that is no text.
unfoldable pub str : (Json → Text) → Json → Text
str show (Json.text s) = s
str show j = show j

-- ===== src/Peer/Parts.antt =====
-- How `HermesBrokerPeer.submit` of hermes_a2a_gateway/broker_peer.py puts the chunks of an artifact together.
-- Base64 and the size of the canonical JSON are parameters.
use codex_a2a_gateway.Base.{
  ℕ, ◌+◌, String, Option, none, some, [], ◌∷◌, ◌++◌, same, length, ltb, if◌then◌else◌,
}
use codex_a2a_gateway.Broker.Content.{codes}
use codex_a2a_gateway.Texts.{Text}
use codex_a2a_gateway.Peer.Json.{Json, Items, Members, get}
use codex_a2a_gateway.Peer.Requests.{PeerError}
use codex_a2a_gateway.Peer.Tasks.{Printers}

-- How a stream ends before its events do.
pub data StreamFailure : Type 0 where
  peer_handle_conflict result_too_large invalid_peer_artifact : StreamFailure
  -- What the parser of events raises, and an exception that is none of the broker's.
  parser_error : PeerError → StreamFailure
  exception : StreamFailure

pub data StreamResult (A : Type 0) : Type 0 where
  fine : A → StreamResult A
  failed : StreamFailure → StreamResult A

module _ {A B : Type 0} where
  infixl 5 ◌>>=◌
  abbrev pub ◌>>=◌ : StreamResult A → (A → StreamResult B) → StreamResult B
  StreamResult.fine a >>= f = f a
  StreamResult.failed e >>= f = StreamResult.failed e

pub record StreamSetup : Type 0 where
  pub printers : Printers
  pub b64decode : Text → Option Text
  pub b64encode : Text → Text
  pub canonical_size : Json → ℕ
  pub max_snapshot_bytes : ℕ

-- {**m, k: j}.
unfoldable pub set : String → Json → Members → Members
set k j Members.end = Members.member k j Members.end
set k j (Members.member name old rest) =
    let later = Members.member name old (set k j rest) in
    if same name k then Members.member name j rest else later

-- {**m, **more}.
unfoldable pub merge : Members → Members → Members
unfolding set
merge m Members.end = m
merge m (Members.member k j rest) = merge (set k j m) rest

-- The values that list(value) and a loop over a value go through; none is a TypeError.
unfoldable pub texts_of : Text → Items
texts_of [] = Items.last
texts_of (c ∷ s) = Items.item (Json.text (c ∷ [])) (texts_of s)

unfoldable pub keys_of : Members → Items
keys_of Members.end = Items.last
keys_of (Members.member k j rest) = Items.item (Json.text (codes k)) (keys_of rest)

unfoldable pub items_of : Json → Option Items
unfolding texts_of keys_of
items_of (Json.list items) = some items
items_of (Json.text s) = some (texts_of s)
items_of (Json.object m) = some (keys_of m)
items_of j = none

-- value.get("parts", []).
unfoldable pub parts_of : Members → Option Items
unfolding get items_of
parts_of m = elim (get "parts" m) [ none ↦ some Items.last | some j ↦ items_of j ]

-- value.get(key) where it is a text.
unfoldable pub get_text : String → Members → Option Text
unfolding get
get_text k m = elim (get k m) [ some (Json.text s) ↦ some s | none ↦ none | some j ↦ none ]

-- items.append(j).
unfoldable pub append_item : Items → Json → Items
append_item Items.last j = Items.item j Items.last
append_item (Items.item i rest) j = Items.item i (append_item rest j)

module _ (S : StreamSetup) where
  -- What the last part becomes with the raw bytes of the next one.
  unfoldable pub join_raw : Members → Members → Text → Text → StreamResult Items
  unfolding set merge
  join_raw prior part a b =
      if ltb S.max_snapshot_bytes (length a + length b)
      then StreamResult.failed StreamFailure.result_too_large
      else elim (S.b64decode a) [
        | none ↦ StreamResult.failed StreamFailure.invalid_peer_artifact
        | some data_a ↦ elim (S.b64decode b) [
          | none ↦ StreamResult.failed StreamFailure.invalid_peer_artifact
          | some data_b ↦ StreamResult.fine (
              Items.item
                (Json.object
                  (set "raw" (Json.text (S.b64encode (data_a ++ data_b))) (merge prior part)))
                Items.last)
        ]
      ]

  abbrev apart : Members → Members → StreamResult Items
  apart prior part =
      StreamResult.fine (Items.item (Json.object prior) (Items.item (Json.object part) Items.last))

  abbrev join_raws : Members → Members → Option Text → Option Text → StreamResult Items
  unfolding join_raw
  join_raws prior part (some a) (some b) = join_raw prior part a b
  join_raws prior part none b = apart prior part
  join_raws prior part (some a) none = apart prior part

  abbrev join_texts : Members → Members → Option Text → Option Text → StreamResult Items
  unfolding join_raws get_text set merge
  join_texts prior part (some a) (some b) =
      StreamResult.fine
        (Items.item (Json.object (set "text" (Json.text (a ++ b)) (merge prior part))) Items.last)
  join_texts prior part none b = join_raws prior part (get_text "raw" prior) (get_text "raw" part)
  join_texts prior part (some a) none =
      join_raws prior part (get_text "raw" prior) (get_text "raw" part)

  -- The last part, which is `prior`, and the next one.
  unfoldable pub join_parts : Members → Members → StreamResult Items
  unfolding get_text join_texts
  join_parts prior part = join_texts prior part (get_text "text" prior) (get_text "text" part)

  -- One part of an appended artifact.
  unfoldable pub append_part : Items → Json → StreamResult Items
  unfolding join_parts append_item
  append_part Items.last part = StreamResult.fine (Items.item part Items.last)
  append_part (Items.item (Json.object prior) Items.last) (Json.object part) = join_parts prior part
  append_part (Items.item j Items.last) part =
      StreamResult.fine (Items.item j (Items.item part Items.last))
  append_part (Items.item j (Items.item i rest)) part =
      append_part (Items.item i rest) part >>= λ joined. StreamResult.fine (Items.item j joined)

  unfoldable pub append_parts : Items → Items → StreamResult Items
  unfolding append_part
  append_parts parts Items.last = StreamResult.fine parts
  append_parts parts (Items.item part rest) =
      append_part parts part >>= λ joined. append_parts joined rest

  -- {**previous, **artifact, "parts": parts}.
  unfoldable pub append_artifact : Members → Members → StreamResult Members
  unfolding parts_of append_parts set merge
  append_artifact previous artifact = elim (parts_of previous) [
    | none ↦ StreamResult.failed StreamFailure.exception
    | some parts ↦ elim (parts_of artifact) [
      | none ↦ StreamResult.failed StreamFailure.exception
      | some chunk ↦ append_parts parts chunk >>= λ joined.
          StreamResult.fine (set "parts" (Json.list joined) (merge previous artifact))
    ]
  ]

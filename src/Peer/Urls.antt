-- ===== src/Peer/Urls.antt =====
-- `is_loopback_url` and the check of the endpoint in hermes_a2a_gateway/settings.py. `urlparse`, with the
-- check of `port`, and `ipaddress.ip_address(...).is_loopback` are parameters.
use codex_a2a_gateway.Base.{
  ℕ, Bool, true, false, not, ◌&&◌, ◌||◌, Option, none, some, [], ◌∷◌, ◌++◌, ◌==◌, if◌then◌else◌,
}
use codex_a2a_gateway.Broker.Content.{codes, lower}
use codex_a2a_gateway.Client.Texts.{is_white}
use codex_a2a_gateway.Texts.{Text, same_text}

-- What `urlparse` and `urlsplit` find; an absent part is empty. `port` is `none` where the URL has none.
pub record UrlParts : Type 0 where
  pub scheme : Text
  pub hostname : Text
  pub username : Text
  pub password : Text
  pub query : Text
  pub fragment : Text
  pub path : Text
  pub port : Option ℕ
  pub has_port_error : Bool

pub record UrlParsers : Type 0 where
  -- none is a ValueError.
  pub urlparse : Text → Option UrlParts
  pub is_loopback_address : Text → Bool

abbrev pub is_empty : Text → Bool
is_empty [] = true
is_empty (c ∷ s) = false

-- value.strip().
unfoldable pub strip_start : Text → Text
unfolding is_white
strip_start [] = []
strip_start (c ∷ s) = let rest = strip_start s in if is_white c then rest else c ∷ s

unfoldable pub strip_end : Text → Text
unfolding is_white
strip_end [] = []
strip_end (c ∷ s) = elim (strip_end s) [
  | [] ↦ if is_white c then [] else c ∷ []
  | d ∷ rest ↦ c ∷ d ∷ rest
]

unfoldable pub strip : Text → Text
unfolding strip_start strip_end
strip s = strip_end (strip_start s)

-- value.rstrip("/").
unfoldable pub strip_slashes : Text → Text
strip_slashes [] = []
strip_slashes (c ∷ s) = elim (strip_slashes s) [
  | [] ↦ if c == b'/' then [] else c ∷ []
  | d ∷ rest ↦ c ∷ d ∷ rest
]

abbrev pub with_slash : Text → Text
with_slash s = s ++ b'/' ∷ []

module _ (U : UrlParsers) where
  unfoldable pub is_loopback_parts : UrlParts → Bool
  unfolding lower same_text
  is_loopback_parts u =
      (same_text u.scheme (codes "http") || same_text u.scheme (codes "https"))
      && not (is_empty u.hostname)
      && is_empty u.username
      && is_empty u.password
      && is_empty u.query
      && is_empty u.fragment
      && not u.has_port_error
      && (same_text (lower u.hostname) (codes "localhost") || U.is_loopback_address u.hostname)

  unfoldable pub is_loopback_url : Text → Bool
  unfolding is_loopback_parts
  is_loopback_url value = elim (U.urlparse value) [ none ↦ false | some u ↦ is_loopback_parts u ]

  -- The endpoint that the settings accept.
  unfoldable pub validate_endpoint : Text → Option Text
  unfolding strip strip_slashes is_loopback_url
  validate_endpoint value =
      let endpoint = strip_slashes (strip value) in
      if is_loopback_url endpoint then some endpoint else none

  -- urlparse(value).hostname.
  unfoldable pub hostname_of : Text → Text
  hostname_of value = elim (U.urlparse value) [ none ↦ [] | some u ↦ u.hostname ]

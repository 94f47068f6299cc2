-- ===== src/Peer/Envelopes.antt =====
-- The lines of the stream of SendStreamingMessage: the loop of `_sse` in hermes_a2a_gateway/a2a.py. `loads` is
-- json.loads, none where it refuses the text.
use codex_a2a_gateway.Base.{
  ◌≡◌, refl, sym, subst, ap, Bool, true, false, not, ◌&&◌, Option, none, some, List, [], ◌∷◌, In,
  inl, inr, arith, if◌then◌else◌,
}
use codex_a2a_gateway.Broker.Content.{codes}
use codex_a2a_gateway.Texts.{Text, starts, drop, same_text}
use codex_a2a_gateway.Peer.Json.{Json, Members, get}
use codex_a2a_gateway.Peer.Urls.{strip}
use codex_a2a_gateway.Peer.Requests.{PeerCode, PeerError, peer_error, has_key}

-- What a line does to the loop.
pub data LineEffect : Type 0 where
  skips : LineEffect
  yields : Members → LineEffect
  stops : PeerError → LineEffect

-- Whether a value is there and is the text.
abbrev pub is_text : Option Json → Text → Bool
is_text (some (Json.text s)) t = same_text s t
is_text j t = false

-- envelope.get("result", envelope), where it is an object.
abbrev pub result_of : Members → Option Json → LineEffect
result_of envelope none = LineEffect.yields envelope
result_of envelope (some (Json.object m)) = LineEffect.yields m
result_of envelope (some j) = LineEffect.skips

-- `request` is the identity in the body of the request.
abbrev pub is_response : Text → Members → Bool
is_response request envelope =
    is_text (get "jsonrpc" envelope) (codes "2.0") && is_text (get "id" envelope) request

unfoldable pub envelope_effect : Text → Members → LineEffect
unfolding get has_key same_text
envelope_effect request envelope =
    if not (is_response request envelope)
    then LineEffect.stops (peer_error PeerCode.correlation_mismatch false)
    else if has_key "error" envelope
    then LineEffect.stops (peer_error PeerCode.a2a_rpc_error false)
    else result_of envelope (get "result" envelope)

module _ (loads : Text → Option Json) where
  abbrev pub parsed_effect : Text → Option Json → LineEffect
  parsed_effect request none = LineEffect.stops (peer_error PeerCode.a2a_invalid_sse false)
  parsed_effect request (some (Json.object envelope)) = envelope_effect request envelope
  parsed_effect request (some j) = LineEffect.skips

  abbrev pub raw_effect : Text → Text → LineEffect
  raw_effect request [] = LineEffect.skips
  raw_effect request (c ∷ raw) = parsed_effect request (loads (c ∷ raw))

  -- Empty lines and comments are no data either.
  unfoldable pub line_effect : Text → Text → LineEffect
  unfolding starts drop strip envelope_effect
  line_effect request line =
      if starts (codes "data:") line
      then raw_effect request (strip (drop 5 line))
      else LineEffect.skips

  abbrev pub end_line :
      LineEffect → List Members × Option PeerError → List Members × Option PeerError
  end_line LineEffect.skips later = later
  end_line (LineEffect.yields event) later = (event ∷ later.0, later.1)
  end_line (LineEffect.stops e) later = ([], some e)

  -- The events of the lines, and the error that ends them.
  unfoldable pub read_events : Text → List Text → List Members × Option PeerError
  unfolding line_effect
  read_events request [] = ([], none)
  read_events request (line ∷ lines) =
      end_line (line_effect request line) (read_events request lines)

  -- The event is the result of a response to the request, which stands in the line and has no error.
  pub record IsResult (request line : Text) (event : Members) : Type 0 where
    pub envelope : Members
    pub parsed : loads (strip (drop 5 line)) ≡ some (Json.object envelope)
    pub response : is_response request envelope ≡ true
    pub sound : has_key "error" envelope ≡ false
    pub result : result_of envelope (get "result" envelope) ≡ LineEffect.yields event

  abbrev IsSourced : Text → Text → LineEffect → Type 0
  IsSourced request line LineEffect.skips = Unit
  IsSourced request line (LineEffect.yields event) = IsResult request line event
  IsSourced request line (LineEffect.stops e) = Unit

  guarded-IsSourced :
      (request line : Text) (b : Bool) (e e' : LineEffect)
      → IsSourced request line e
      → (b ≡ false → IsSourced request line e')
      → IsSourced request line (if b then e else e')
  guarded-IsSourced request line true e e' h h' = h
  guarded-IsSourced request line false e e' h h' = h' refl

  result_of-IsSourced :
      (request line : Text) (envelope : Members) (result : Option Json)
      → loads (strip (drop 5 line)) ≡ some (Json.object envelope)
      → is_response request envelope ≡ true
      → has_key "error" envelope ≡ false
      → get "result" envelope ≡ result
      → IsSourced request line (result_of envelope result)
  result_of-IsSourced request line envelope none p r s e = record {
    envelope = envelope;
    parsed = p;
    response = r;
    sound = s;
    result = ap (result_of envelope) e;
  }
  result_of-IsSourced request line envelope (some (Json.object m)) p r s e = record {
    envelope = envelope;
    parsed = p;
    response = r;
    sound = s;
    result = ap (result_of envelope) e;
  }
  result_of-IsSourced request line envelope (some Json.null) p r s e = tt
  result_of-IsSourced request line envelope (some Json.fraction) p r s e = tt
  result_of-IsSourced request line envelope (some (Json.flag b)) p r s e = tt
  result_of-IsSourced request line envelope (some (Json.number n)) p r s e = tt
  result_of-IsSourced request line envelope (some (Json.negative n)) p r s e = tt
  result_of-IsSourced request line envelope (some (Json.text t)) p r s e = tt
  result_of-IsSourced request line envelope (some (Json.list items)) p r s e = tt

  envelope_effect-IsSourced :
      (request line : Text) (envelope : Members)
      → loads (strip (drop 5 line)) ≡ some (Json.object envelope)
      → IsSourced request line (envelope_effect request envelope)
  unfolding envelope_effect
  envelope_effect-IsSourced request line envelope p =
      guarded-IsSourced request line (not (is_response request envelope))
        (LineEffect.stops (peer_error PeerCode.correlation_mismatch false))
        (if has_key "error" envelope
          then LineEffect.stops (peer_error PeerCode.a2a_rpc_error false)
          else result_of envelope (get "result" envelope))
        tt
        (λ matches.
          guarded-IsSourced request line (has_key "error" envelope)
            (LineEffect.stops (peer_error PeerCode.a2a_rpc_error false))
            (result_of envelope (get "result" envelope)) tt
            (λ sound.
              result_of-IsSourced request line envelope (get "result" envelope) p
                (is_true (is_response request envelope) matches) sound refl))
    where
      is_true : (b : Bool) → not b ≡ false → b ≡ true
      is_true b h = ground arith

  parsed_effect-IsSourced :
      (request line : Text) (found : Option Json)
      → loads (strip (drop 5 line)) ≡ found
      → IsSourced request line (parsed_effect request found)
  parsed_effect-IsSourced request line none p = tt
  parsed_effect-IsSourced request line (some (Json.object envelope)) p =
      envelope_effect-IsSourced request line envelope p
  parsed_effect-IsSourced request line (some Json.null) p = tt
  parsed_effect-IsSourced request line (some Json.fraction) p = tt
  parsed_effect-IsSourced request line (some (Json.flag b)) p = tt
  parsed_effect-IsSourced request line (some (Json.number n)) p = tt
  parsed_effect-IsSourced request line (some (Json.negative n)) p = tt
  parsed_effect-IsSourced request line (some (Json.text t)) p = tt
  parsed_effect-IsSourced request line (some (Json.list items)) p = tt

  raw_effect-IsSourced :
      (request line raw : Text)
      → strip (drop 5 line) ≡ raw
      → IsSourced request line (raw_effect request raw)
  raw_effect-IsSourced request line [] e = tt
  raw_effect-IsSourced request line (c ∷ raw) e =
      parsed_effect-IsSourced request line (loads (c ∷ raw)) (ap loads e)

  line_effect-IsSourced : (request line : Text) → IsSourced request line (line_effect request line)
  unfolding line_effect
  line_effect-IsSourced request line = data_line (starts (codes "data:") line)
    where
      data_line :
          (b : Bool)
          → IsSourced request line
              (if b then raw_effect request (strip (drop 5 line)) else LineEffect.skips)
      data_line true = raw_effect-IsSourced request line (strip (drop 5 line)) refl
      data_line false = tt

  end_line-IsResult :
      (request line : Text) (lines : List Text) (effect : LineEffect)
      (later : List Members × Option PeerError)
      → IsSourced request line effect
      → ((event : Members)
          → In event later.0
          → (line' : Text) × In line' lines × IsResult request line' event)
      → (event : Members) → In event (end_line effect later).0
      → (line' : Text) × In line' (line ∷ lines) × IsResult request line' event
  end_line-IsResult request line lines LineEffect.skips later sourced rest event m =
      let (line', m', r) = rest event m in (line', inr m', r)
  end_line-IsResult request line lines (LineEffect.yields e) later sourced rest event
        (inl same_event) =
      (line, inl refl, subst (IsResult request line) (sym same_event) sourced)
  end_line-IsResult request line lines (LineEffect.yields e) later sourced rest event (inr m) =
      let (line', m', r) = rest event m in (line', inr m', r)
  end_line-IsResult request line lines (LineEffect.stops e) later sourced rest event m = elim m [ ]

-- Whatever the peer streams: each event that a message's stream yields is the result of an envelope that
-- stands in a line of the stream, answers this very request, and has no error.
pub read_events-IsResult :
    (loads : Text → Option Json) (request : Text) (lines : List Text) (event : Members)
    → In event (read_events loads request lines).0
    → (line : Text) × In line lines × IsResult loads request line event
unfolding read_events
read_events-IsResult loads request [] event m = elim m [ ]
read_events-IsResult loads request (line ∷ lines) event m =
    end_line-IsResult loads request line lines (line_effect loads request line)
      (read_events loads request lines) (line_effect-IsSourced loads request line)
      (λ event' m'. read_events-IsResult loads request lines event' m') event m

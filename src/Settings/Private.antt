-- ===== src/Settings/Private.antt =====
-- What the accepted settings of the client promise (hermes_a2a_gateway/client_settings.py).
use codex_a2a_gateway.Base.{
  ◌∙◌, Bool-cases, eq_iff, String, ◌≡◌, refl, ap, Bool, true, false, not, ◌||◌, Option, none, some,
  [], In, inl, inr, ◌⊎◌, arith, if◌then◌else◌,
}
use codex_a2a_gateway.Tx.Errors.{Result, ok, err, value_error}
use codex_a2a_gateway.Broker.Content.{codes}
use codex_a2a_gateway.Texts.{Text, same_text}
use codex_a2a_gateway.Peer.Handle.{same_text_same}
use codex_a2a_gateway.Peer.Urls.{UrlParts}
use codex_a2a_gateway.Tunnel.Config.{SshConfig, valid_host}
use codex_a2a_gateway.Settings.Policy.{is_origin, has_no_path, is_within}
use codex_a2a_gateway.Settings.Secure.{passed}
use codex_a2a_gateway.Settings.Transport.{
  ClientValues, ClientParsers, is_positive, is_mode, is_tunneled, is_bad_token, ssh_config,
  is_local_end, is_loopback_host, is_bad_server_name, is_plain, validate_numbers, validate_broker,
  validate_tunnel, validate_parts, post_init,
}
use codex_a2a_gateway.Settings.Checks.{
  IsPositiveWithin, IsWithin, fraction-IsWithin, fraction-IsPositiveWithin, not_empty,
  not_contained, empty_text,
}
use codex_a2a_gateway.Settings.LocalEnd.{IsTunnel, own_end-IsTunnel}

module _ (F : ClientParsers) where
  -- The URL, the token and the times are fit for a request that carries the token.
  -- The URL, the token and the times are fit for a request that carries the token.
  pub record IsProtected (v : ClientValues) (u : UrlParts) : Type 0 where
    pub transport :
        (u.scheme ≡ codes "https")
        ⊎ ((u.scheme ≡ codes "http")
            × (v.allow_loopback_http ≡ true)
            × ((F.ip_address u.hostname ≡ some true)
                ⊎ ((F.ip_address u.hostname ≡ none) × (u.hostname ≡ codes "localhost"))))
    pub one_line : (¬ v.token ≡ []) × (¬ In 10 v.token) × (¬ In 13 v.token)
    pub no_credentials : (u.username ≡ []) × (u.password ≡ [])
    pub named :
        (name : String) → v.ssh_tls_server_name ≡ some name → v.transport_mode ≡ "ssh-tunnel"
    pub wait : IsWithin 60 v.inline_wait_seconds
    pub timeout : IsPositiveWithin 300 v.request_timeout_seconds

  pub record IsPrivate (v : ClientValues) : Type 0 where
    pub parts : UrlParts
    pub split : F.urlsplit v.broker_url ≡ some parts
    pub protected : IsProtected v parts
    pub tunnel : v.transport_mode ≡ "ssh-tunnel" → IsTunnel F v parts

  named_tunnel :
      (v : ClientValues) (name : String)
      → is_bad_server_name F v ≡ false
      → v.ssh_tls_server_name ≡ some name
      → is_tunneled v ≡ true
  unfolding is_bad_server_name
  named_tunnel v name fit given = named v.ssh_tls_server_name fit given
    where
      named :
          (o : Option String)
          → elim o [
            | none ↦ false
            | some n ↦ not (is_tunneled v) || not (valid_host F.is_address n)
          ]
            ≡ false
          → o ≡ some name
          → is_tunneled v ≡ true
      named none h e = cc
      named (some n) h e = ground arith

  loopback_host :
      (s : Text)
      → is_loopback_host F s ≡ true
      → (F.ip_address s ≡ some true) ⊎ ((F.ip_address s ≡ none) × (s ≡ codes "localhost"))
  unfolding is_loopback_host
  loopback_host s h = found (F.ip_address s) refl h
    where
      found :
          (o : Option Bool)
          → F.ip_address s ≡ o
          → elim o [ none ↦ same_text s (codes "localhost") | some loopback ↦ loopback ] ≡ true
          → (F.ip_address s ≡ some true) ⊎ ((F.ip_address s ≡ none) × (s ≡ codes "localhost"))
      found none e k = inr (e, same_text_same s (codes "localhost") k)
      found (some b) e k = inl (e ∙ ap some k)

  secure-transport :
      (v : ClientValues) (u : UrlParts)
      → is_plain F v u ≡ false
      → (u.scheme ≡ codes "https")
        ⊎ ((u.scheme ≡ codes "http")
            × (v.allow_loopback_http ≡ true)
            × ((F.ip_address u.hostname ≡ some true)
                ⊎ ((F.ip_address u.hostname ≡ none) × (u.hostname ≡ codes "localhost"))))
  unfolding is_plain
  secure-transport v u h = elim (Bool-cases (same_text u.scheme (codes "https"))) [
    | inl https ↦ inl (same_text_same u.scheme (codes "https") https)
    | inr other ↦ inr (
      same_text_same u.scheme (codes "http") (ground arith),
      ground arith,
      loopback_host u.hostname (ground arith),
    )
  ]

  tunneled_mode : (v : ClientValues) → is_tunneled v ≡ true → v.transport_mode ≡ "ssh-tunnel"
  tunneled_mode v h = (eq_iff v.transport_mode "ssh-tunnel").0 h

  broker-IsProtected :
      (v w : ClientValues) (u : UrlParts) → validate_broker F v u ≡ ok w → IsProtected v u
  unfolding validate_broker validate_numbers is_plain is_bad_token is_origin
  broker-IsProtected v w u h =
      let (server_name, h1) = passed (is_bad_server_name F v) _ _ w h in
      let (origin, h2) = passed (not (is_origin u)) _ _ w h1 in
      let (no_path, h3) = passed (not (has_no_path u)) _ _ w h2 in
      let (secure, h4) = passed (is_plain F v u) _ _ w h3 in
      let (token, h5) = passed (is_bad_token v.token) _ _ w h4 in
      let (key, h6) = passed (not (F.is_fernet_key v.payload_key)) _ _ w h5 in
      let (positive, h7) = passed (not (is_positive v.request_timeout_seconds)) _ _ w h6 in
      let (retained, h7') = passed (not (is_positive v.retention_seconds)) _ _ w h7 in
      let (kept, h7'') = passed (not (is_positive v.payload_ttl_seconds)) _ _ w h7' in
      let (wait, h8) = passed (not (is_within 0 60000 v.inline_wait_seconds)) _ _ w h7'' in
      let (timeout, h9) = passed (not (is_within 0 300000 v.request_timeout_seconds)) _ _ w h8 in
      record {
        transport = secure-transport v u secure;
        one_line = (
          not_empty v.token (ground arith),
          not_contained 10 v.token (ground arith),
          not_contained 13 v.token (ground arith),
        );
        no_credentials =
            (empty_text u.username (ground arith), empty_text u.password (ground arith));
        named = λ name e. tunneled_mode v (named_tunnel v name server_name e);
        wait = fraction-IsWithin 60 v.inline_wait_seconds (ground arith);
        timeout =
            fraction-IsPositiveWithin 300 v.request_timeout_seconds (ground arith) (ground arith);
      }

  validate_tunnel-IsTunnel :
      (v w : ClientValues) (u : UrlParts) (r : Result SshConfig)
      → ssh_config F v ≡ r
      → validate_tunnel F v u r ≡ ok w
      → IsTunnel F v u × IsProtected v u
  unfolding validate_tunnel
  validate_tunnel-IsTunnel v w u (err e) built h = cc
  validate_tunnel-IsTunnel v w u (ok config) built h =
      let (own_end, h1) = passed (not (is_local_end v u) || u.has_port_error) _ _ w h in
      (own_end-IsTunnel F v u config built (ground arith), broker-IsProtected v w u h1)

  parts-IsPrivate :
      (v w : ClientValues) (u : UrlParts)
      → F.urlsplit v.broker_url ≡ some u
      → validate_parts F v u ≡ ok w
      → IsPrivate v
  unfolding validate_parts
  parts-IsPrivate v w u split h = branch (is_tunneled v) refl h
    where
      branch :
          (b : Bool)
          → is_tunneled v ≡ b
          → (if b then validate_tunnel F v u (ssh_config F v) else validate_broker F v u) ≡ ok w
          → IsPrivate v
      branch true e h' =
          let (tunnel, protected) = validate_tunnel-IsTunnel v w u (ssh_config F v) refl h' in
          record { parts = u; split = split; protected = protected; tunnel = λ _. tunnel }
      branch false e h' = record {
        parts = u;
        split = split;
        protected = broker-IsProtected v w u h';
        tunnel = λ e'. absurd (ground (arith, eq_iff v.transport_mode "ssh-tunnel"));
      }

-- Settings that the client accepts send the token, which is one line, over HTTPS, or over plain HTTP
-- only where that is allowed and the host is a loopback address or localhost, to a URL without
-- credentials; a request's timeout is positive and at most five minutes, and an inline wait at most one;
-- and in ssh-tunnel mode the URL is https://127.0.0.1 at the tunnel's own port, ssh is given the host of
-- the settings, which is an address or no option, and a command that is none, and the tunnel's two ports
-- and its timeout are in range.
pub post_init-IsPrivate :
    (F : ClientParsers) (v w : ClientValues) → post_init F v ≡ ok w → IsPrivate F v
unfolding post_init
post_init-IsPrivate F v w h =
    let (mode, h1) = passed (not (is_mode v.transport_mode)) _ _ w h in
    parsed (F.urlsplit v.broker_url) refl h1
  where
    parsed :
        (o : Option UrlParts)
        → F.urlsplit v.broker_url ≡ o
        → elim o [ none ↦ err (value_error "invalid URL") | some u ↦ validate_parts F v u ] ≡ ok w
        → IsPrivate F v
    parsed none e h' = cc
    parsed (some u) e h' = parts-IsPrivate F v w u e h'

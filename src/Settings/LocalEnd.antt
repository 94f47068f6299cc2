-- ===== src/Settings/LocalEnd.antt =====
-- What accepted settings say of the tunnel (`ssh_config` of hermes_a2a_gateway/client_settings.py and
-- `SSHConfig` of hermes_a2a_gateway/ssh_tunnel.py).
use codex_a2a_gateway.Base.{
  ◌≤◌, ◌&&◌, ◌∙◌, sym, leb, Bool-cases, String, ◌≡◌, refl, ap, true, not, Option, none, some, inl,
  inr, ◌⊎◌, arith,
}
use codex_a2a_gateway.Tx.Errors.{ok, err, value_error}
use codex_a2a_gateway.Broker.Content.{codes}
use codex_a2a_gateway.Peer.Handle.{same_text_same}
use codex_a2a_gateway.Peer.Urls.{UrlParts}
use codex_a2a_gateway.Tunnel.Config.{
  SshConfig, ConfigError, is_command, is_account, is_port, for_some, check_config, valid_host,
}
use codex_a2a_gateway.Settings.Transport.{
  ClientValues, ClientParsers, make_config, config_of, ssh_config, is_local_end,
}
use codex_a2a_gateway.Settings.Checks.{
  IsProgram, command-IsProgram, equal_port, host_name-IsProgram, no_error,
}

module _ (F : ClientParsers) where
  -- Behind the tunnel, ssh is set up with checked values, and the URL is the tunnel's own end.
  pub record IsTunnel (v : ClientValues) (u : UrlParts) : Type 0 where
    pub host : String
    pub given : v.ssh_host ≡ some host
    pub built : ssh_config F v ≡ ok (config_of v host)
    pub program : IsProgram (codes v.ssh_command)
    pub no_option : (F.is_address host ≡ true) ⊎ IsProgram (codes host)
    pub local_port : (1024 ≤ v.ssh_local_port) × (v.ssh_local_port ≤ 65535)
    pub remote_port : (1 ≤ v.ssh_remote_port) × (v.ssh_remote_port ≤ 65535)
    pub connect_timeout : (1 ≤ v.ssh_connect_timeout_seconds) × (v.ssh_connect_timeout_seconds ≤ 60)
    pub local_end :
        (u.scheme ≡ codes "https")
        × (u.hostname ≡ codes "127.0.0.1")
        × (u.port ≡ some v.ssh_local_port)

  -- A configuration that is built is the given one, and has passed its checks.
  made-checked :
      (c d : SshConfig) (o : Option ConfigError) → make_config c o ≡ ok d → (c ≡ d) × (o ≡ none)
  unfolding make_config
  made-checked c d none h = (cc, refl)
  made-checked c d (some e) h = cc

  pub record IsBuilt (v : ClientValues) (c : SshConfig) : Type 0 where
    pub host : String
    pub given : v.ssh_host ≡ some host
    pub same : config_of v host ≡ c
    pub checked : check_config F.is_address (config_of v host) ≡ none

  ssh_config-IsBuilt : (v : ClientValues) (c : SshConfig) → ssh_config F v ≡ ok c → IsBuilt v c
  unfolding ssh_config
  ssh_config-IsBuilt v c h = built v.ssh_host refl h
    where
      built :
          (o : Option String)
          → v.ssh_host ≡ o
          → elim o [
            | none ↦ err (value_error "SSH_HOST is required in ssh-tunnel mode")
            | some host ↦
                make_config (config_of v host) (check_config F.is_address (config_of v host))
          ]
            ≡ ok c
          → IsBuilt v c
      built none g e = cc
      built (some host) g e =
          let (same_config, fit) = made-checked (config_of v host) c _ e in
          record { host = host; given = g; same = same_config; checked = fit }

  local_parts :
      (v : ClientValues) (u : UrlParts)
      → is_local_end v u ≡ true
      → (u.scheme ≡ codes "https")
        × (u.hostname ≡ codes "127.0.0.1")
        × (u.port ≡ some v.ssh_local_port)
  unfolding is_local_end
  local_parts v u h = (
    same_text_same u.scheme (codes "https") (ground arith),
    same_text_same u.hostname (codes "127.0.0.1") (ground arith),
    equal_port v.ssh_local_port u.port (ground arith),
  )

  -- What the checks of a configuration say of its values.
  record IsChecked (c : SshConfig) : Type 0 where
    program : IsProgram (codes c.command)
    no_option : (F.is_address c.host ≡ true) ⊎ IsProgram (codes c.host)
    local_port : (1024 ≤ c.local_port) × (c.local_port ≤ 65535)
    remote_port : (1 ≤ c.remote_port) × (c.remote_port ≤ 65535)
    connect_timeout : (1 ≤ c.connect_timeout) × (c.connect_timeout ≤ 60)

  host_no_option :
      (t : String)
      → valid_host F.is_address t ≡ true
      → (F.is_address t ≡ true) ⊎ IsProgram (codes t)
  unfolding valid_host
  host_no_option t h = elim (Bool-cases (F.is_address t)) [
    | inl address ↦ inl address
    | inr name ↦ inr (host_name-IsProgram (codes t) (ground arith))
  ]

  check_config-IsChecked : (c : SshConfig) → check_config F.is_address c ≡ none → IsChecked c
  unfolding check_config
  check_config-IsChecked c h =
      let (hosts, h1) =
        no_error (not (valid_host F.is_address c.host && valid_host F.is_address c.remote_host)) _ _
          h in
      let (user, h2) = no_error (not (for_some is_account c.user)) _ _ h1 in
      let (local, h3) = no_error (not (is_port 1024 c.local_port)) _ _ h2 in
      let (remote, h4) = no_error (not (is_port 1 c.remote_port)) _ _ h3 in
      let (port, h5) = no_error (not (for_some (is_port 1) c.port)) _ _ h4 in
      let (timeout, h6) =
        no_error (not (leb 1 c.connect_timeout && leb c.connect_timeout 60)) _ _ h5 in
      let (command, h7) = no_error (not (is_command (codes c.command))) _ _ h6 in
      record {
        program = command-IsProgram (codes c.command) (ground arith);
        no_option = host_no_option c.host (ground arith);
        local_port = (ground arith, ground arith);
        remote_port = (ground arith, ground arith);
        connect_timeout = (ground arith, ground arith);
      }

  pub own_end-IsTunnel :
      (v : ClientValues) (u : UrlParts) (c : SshConfig)
      → ssh_config F v ≡ ok c
      → is_local_end v u ≡ true
      → IsTunnel v u
  own_end-IsTunnel v u c built own_end =
      let b = ssh_config-IsBuilt v c built in
      let k = check_config-IsChecked (config_of v b.host) b.checked in
      record {
        host = b.host;
        given = b.given;
        built = built ∙ ap ok (sym b.same);
        program = k.program;
        no_option = k.no_option;
        local_port = k.local_port;
        remote_port = k.remote_port;
        connect_timeout = k.connect_timeout;
        local_end = local_parts v u own_end;
      }

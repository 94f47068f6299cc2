-- ===== src/Tunnel/Confirmed.antt =====
-- The tunnel counts as ready only after ssh has confirmed the forwarding (`_connect` of
-- hermes_a2a_gateway/ssh_tunnel.py).
use codex_a2a_gateway.Base.{
  ℕ, ◌+◌, ◌*◌, ◌≡◌, ◌∙◌, ap, refl, true, false, not, ◌&&◌, ◌||◌, Option, none, some, List, [], ◌∷◌,
  ◌⊎◌, inl, inr, arith, leb, is_some, Bool-cases,
}
use codex_a2a_gateway.Texts.{Text}
use codex_a2a_gateway.Tunnel.Config.{SshConfig}
use codex_a2a_gateway.Tunnel.Failures.{ExitStatus}
use codex_a2a_gateway.Tunnel.Process.{
  Tunnel, read_chunk, read_stderr, Look, Attempt, end_process, leave_watch, spawn, exits, set_ready,
  serve, watch, connect,
}

-- From `t` to `u` the reader alone has moved: what was confirmed stays so.
pub record Kept (t u : Tunnel) : Type 0 where
  pub generation : u.generation ≡ t.generation
  pub attempts : u.attempts ≡ t.attempts
  pub confirmed : t.forward_confirmed ≡ true → u.forward_confirmed ≡ true

Kept-trans : {t u v : Tunnel} → Kept t u → Kept u v → Kept t v
Kept-trans a b = record {
  generation = b.generation ∙ a.generation;
  attempts = b.attempts ∙ a.attempts;
  confirmed = λ h. b.confirmed (a.confirmed h);
}

read_chunk-Kept : (c : SshConfig) (chunk : Text) (t : Tunnel) → Kept t (read_chunk c chunk t)
unfolding read_chunk
read_chunk-Kept c chunk t = record {
  generation = refl;
  attempts = refl;
  confirmed = λ h. rw h refl;
}

pub read_stderr-Kept :
    (c : SshConfig) (chunks : List Text) (t : Tunnel) → Kept t (read_stderr c chunks t)
unfolding read_stderr
read_stderr-Kept c [] t = record { generation = refl; attempts = refl; confirmed = λ h. h }
read_stderr-Kept c (chunk ∷ chunks) t =
    Kept-trans (read_chunk-Kept c chunk t) (read_stderr-Kept c chunks (read_chunk c chunk t))

-- From `t` to `u` there is no new generation, or one, and then the forwarding was confirmed.
pub record Rises (t u : Tunnel) : Type 0 where
  pub attempts : u.attempts ≡ t.attempts
  pub generation :
      (u.generation ≡ t.generation)
      ⊎ ((u.generation ≡ t.generation + 1) × (u.forward_confirmed ≡ true))

Rises-Kept : {t u v : Tunnel} → Kept t u → Rises u v → Rises t v
Rises-Kept {t} {u} {v} k r = elim r.generation [
  | inl same ↦ record { attempts = r.attempts ∙ k.attempts; generation = inl (same ∙ k.generation) }
  | inr (one, confirmed) ↦ record {
    attempts = r.attempts ∙ k.attempts;
    generation = inr (one ∙ ap (λ (n : ℕ). n + 1) k.generation, confirmed);
  }
]

Rises-stay : {t u : Tunnel} → Kept t u → Rises t u
Rises-stay k = record { attempts = k.attempts; generation = inl k.generation }

end_process-Kept :
    (c : SshConfig) (rest : List Text) (status : ExitStatus) (t : Tunnel)
    → Kept t (end_process c rest status t).1
unfolding end_process exits
end_process-Kept c rest status t =
    Kept-trans (record { generation = refl; attempts = refl; confirmed = λ h. h })
      (read_stderr-Kept c rest (exits status t))

leave_watch-Kept :
    (c : SshConfig) (look : Look) (status : Option ExitStatus) (t : Tunnel)
    → Kept t (leave_watch c look status t).1
unfolding leave_watch
leave_watch-Kept c look none t = record { generation = refl; attempts = refl; confirmed = λ h. h }
leave_watch-Kept c look (some status) t = end_process-Kept c look.rest status t

serve-Kept :
    (c : SshConfig) (rest : List Text) (served : Option ExitStatus) (t : Tunnel)
    → Kept t (serve c rest served t).1
unfolding serve
serve-Kept c rest none t = record { generation = refl; attempts = refl; confirmed = λ h. h }
serve-Kept c rest (some status) t = end_process-Kept c rest status t

served-Rises :
    (c : SshConfig) (look : Look) (t : Tunnel)
    → t.forward_confirmed ≡ true
    → Rises t (serve c look.rest look.served (set_ready look.ready_at t)).1
unfolding set_ready
served-Rises c look t confirmed =
    let k = serve-Kept c look.rest look.served (set_ready look.ready_at t) in
    record { attempts = k.attempts; generation = inr (k.generation, k.confirmed confirmed) }

watch-Rises :
    (c : SshConfig) (deadline : ℕ) (looks : List Look) (t : Tunnel)
    → Rises t (watch c deadline looks t).1
unfolding watch
watch-Rises c deadline [] t = record { attempts = refl; generation = inl refl }
watch-Rises c deadline (look ∷ looks) t =
    elim (Bool-cases (is_some look.status || leb deadline look.now)) [
      | inl left ↦
          rw left (Rises-stay (Kept-trans first (leave_watch-Kept c look look.status after_output)))
      | inr stays ↦ rw stays (elim (Bool-cases (not look.accepted)) [
        | inl closed ↦ rw closed (Rises-Kept first (watch-Rises c deadline looks after_output))
        | inr open_port ↦ rw open_port (elim (Bool-cases (not look.closes)) [
          | inl broken ↦ rw broken (Rises-stay first)
          | inr closes ↦
              rw closes
                (elim (Bool-cases
                  (not (is_some look.later_status) && after_accept.forward_confirmed)) [
                    | inl served ↦
                        rw served
                          (Rises-Kept both (served-Rises c look after_accept (ground arith)))
                    | inr unserved ↦
                        rw unserved (Rises-Kept both (watch-Rises c deadline looks after_accept))
                  ])
        ])
      ])
    ]
  where
    after_output : Tunnel
    after_output = read_stderr c look.output t

    after_accept : Tunnel
    after_accept = read_stderr c look.later_output after_output

    first : Kept t after_output
    first = read_stderr-Kept c look.output t

    both : Kept t after_accept
    both = Kept-trans first (read_stderr-Kept c look.later_output after_output)

-- An attempt to connect leaves the count of attempts as it is, and brings at most one new generation of
-- the tunnel, and then only with the forwarding marked as confirmed.
pub connect-Rises : (c : SshConfig) (a : Attempt) (t : Tunnel) → Rises t (connect c a t).1
unfolding connect spawn
connect-Rises c a t = elim (Bool-cases (not a.port_is_free)) [
  | inl busy ↦ rw busy (record { attempts = refl; generation = inl refl })
  | inr free ↦ rw free (elim (Bool-cases (not a.spawns)) [
    | inl missing ↦ rw missing (record { attempts = refl; generation = inl refl })
    | inr spawned ↦
        rw spawned (record { attempts = watched.attempts; generation = watched.generation })
  ])
]
  where
    fresh : Tunnel
    fresh = spawn a.obeys (record t { ready_since = none; stderr = []; forward_confirmed = false })

    watched : Rises fresh (watch c (a.begun + (c.connect_timeout + 1) * 1000) a.looks fresh).1
    watched = watch-Rises c (a.begun + (c.connect_timeout + 1) * 1000) a.looks fresh

-- ===== src/Broker/Outcomes.antt =====
-- What single methods do on each branch: strangers, extensions, ends, mints and revoked workspaces.
use hermes_fleet.Prelude.{
  ℕ, suc, ◌+◌, ◌≤◌, ◌<◌, ◌≡◌, ◌≢◌, refl, sym, ap, ◌∙◌, true, ◌&&◌, some, List, [], ◌∷◌, arith,
  list_eq, nat_eq, pair_eq, option_eq, if◌then◌else◌, if_cases, &&-left, &&-right, list_beq_iff,
  pair_beq_iff, ltb, leb, ltb→lt, leb→le, length,
}
use mathlib.Core.Path.{subst}
use hermes_fleet.Prelude.Dict
use hermes_fleet.Prelude.Dict.{Dict, get-put, get-put_self, get-remove}
use hermes_fleet.Prelude.Text.{Text, strip, lower, is_nonempty}
use hermes_fleet.Broker.Types.{ended, Session, Broker, Env, AccessPrincipal}
use hermes_fleet.Broker.Exec.{Exn, ok, raise, broker_error, update_session}
use hermes_fleet.Broker.Policy.{default_workspace}
use hermes_fleet.Broker.Terminal.{prune_from, forget_session, begin_terminal, release_key}
use hermes_fleet.Broker.Handoff.{default_key}
use hermes_fleet.Broker.Viewer.{
  public_session, public_page, extend, end_session, confirm_takeover, acquire_takeover,
  acquire_takeover_if_current, release_to_observe,
}
use hermes_fleet.Broker.Reload.{
  publish, revokes, start_revoking, mark_revoking, finish_revoked, mark_revoked,
}
use hermes_fleet.Broker.Invariant.Kept.{key_of}
use hermes_fleet.Broker.Invariant.Store.{prune_terminal-Pruned, active-update_session}
use hermes_fleet.Broker.Steps.Operations.{public_session-state}

abbrev pub wrong_principal : Exn
wrong_principal = broker_error 403 "wrong principal"

public_session_stranger :
    (sid email : Text) (b : Broker) (s : Session)
    → Dict.get b.sessions sid ≡ some s
    → is_nonempty (strip email) ≡ true
    → lower (strip email) ≢ s.access_email
    → (public_session sid email b).0 ≡ raise wrong_principal
unfolding public_session
public_session_stranger sid email b s e known other =
    ground (arith, e, known, list_beq_iff (lower (strip email)) s.access_email)

module _ (env : Env) (now : ℕ) (sid email : Text) (b : Broker) (s : Session) where
  -- An authenticated address that is not the one the session is bound to gets 403 from every method of
  -- the viewer's side, and changes and calls nothing.
  pub stranger_refused :
      Dict.get b.sessions sid ≡ some s
      → is_nonempty (strip email) ≡ true
      → lower (strip email) ≢ s.access_email
      → (method : Text)
      → (public_page env now sid method email b ≡ (raise wrong_principal, b))
        × (extend now sid email b ≡ (raise wrong_principal, b))
        × (end_session env now sid email b ≡ (raise wrong_principal, b))
        × (confirm_takeover now sid email b ≡ (raise wrong_principal, b))
        × (acquire_takeover env now sid email b ≡ (raise wrong_principal, b))
        × (acquire_takeover_if_current env now sid email b ≡ (raise wrong_principal, b))
        × (release_to_observe env now sid email b ≡ (raise wrong_principal, b))
  unfolding public_page extend end_session confirm_takeover acquire_takeover
      acquire_takeover_if_current release_to_observe
  stranger_refused e known other method =
      let h = public_session_stranger sid email b s e known other in
      (
        rw (h, public_session-state sid email b) refl,
        rw (h, public_session-state sid email b) refl,
        rw (h, public_session-state sid email b) refl,
        rw (h, public_session-state sid email b) refl,
        rw (h, public_session-state sid email b) refl,
        rw (h, public_session-state sid email b) refl,
        rw (h, public_session-state sid email b) refl,
      )

limit-forget_session :
    (sid : Text) (b : Broker)
    → ((forget_session sid b).terminal_limit ≡ b.terminal_limit)
      × ((forget_session sid b).terminal_ttl ≡ b.terminal_ttl)
unfolding forget_session
limit-forget_session sid b = ground arith

-- The oldest record that is left, if any, is younger than the limit on age.
abbrev pub OldestFresh : ℕ → ℕ → Dict Text ℕ → Type 0
OldestFresh now ttl [] = Unit
OldestFresh now ttl ((sid, at) ∷ rest) = now < at + ttl

prune_from-limits :
    (now : ℕ) (d : Dict Text ℕ) (b : Broker)
    → (length (prune_from now d b).terminal ≤ b.terminal_limit)
      × OldestFresh now b.terminal_ttl (prune_from now d b).terminal
unfolding prune_from
prune_from-limits now [] b = (omega arith, tt)
prune_from-limits now ((sid, at) ∷ rest) b =
    if_cases
      (λ c. (length c.terminal ≤ b.terminal_limit) × OldestFresh now b.terminal_ttl c.terminal)
      (leb (suc (length rest)) b.terminal_limit && ltb now (at + b.terminal_ttl))
      (record b { terminal = (sid, at) ∷ rest }) (prune_from now rest (forget_session sid b))
      (λ t. (
        leb→le _ _ (&&-left _ _ t),
        ltb→lt _ _ (&&-right (leb (suc (length rest)) b.terminal_limit) _ t),
      ))
      (λ t.
        let same = limit-forget_session sid b in
        let more = prune_from-limits now rest (forget_session sid b) in
        (
          omega (arith, more.0, same.0),
          subst (λ t. OldestFresh now t (prune_from now rest (forget_session sid b)).terminal)
              same.1 more.1,
        ))

mark_revoking-get :
    (b : Broker) (principals : List AccessPrincipal) (d : Dict Text Session) (sid : Text)
    (s : Session)
    → Dict.get d sid ≡ some s
    → Dict.get (mark_revoking b principals d) sid
      ≡ some (if revokes b principals s then start_revoking s else s)
unfolding mark_revoking Dict.get
mark_revoking-get b principals [] sid s h = cc
mark_revoking-get b principals ((j, t) ∷ rest) sid s h =
    ground (arith, mark_revoking-get b principals rest sid s)

get-release_key_other :
    (key : Text × Text) (sid : Text) (b : Broker) (k : Text × Text)
    → key ≢ k
    → Dict.get (release_key key sid b).active_by_agent k ≡ Dict.get b.active_by_agent k
unfolding release_key
get-release_key_other key sid b k ne =
    ground (arith, get-remove b.active_by_agent key k, pair_beq_iff key k)

-- A grant that the reload withdraws does not stop an End that comes between the publication and the
-- revocation of that session: the session, marked as revoking, still begins a terminal transition.
pub revoking_may_end :
    (principals : List AccessPrincipal) (b : Broker) (sid : Text) (s : Session)
    → Dict.get b.sessions sid ≡ some s
    → revokes b principals s ≡ true
    → (begin_terminal sid ended true (publish principals b)).0 ≡ ok true
unfolding publish begin_terminal
revoking_may_end principals b sid s e r =
    rw (mark_revoking-get b principals b.sessions sid s e, r)
      (unfold begin_terminal start_revoking in refl)

-- The revocation of a session in a workspace other than the default leaves the index entry of that
-- workspace in place, where the session held it.
pub revoked_workspace_stays :
    (now : ℕ) (sid : Text) (s : Session) (b : Broker)
    → Dict.get b.active_by_agent (key_of s) ≡ some sid
    → s.browser_workspace_id ≢ default_workspace
    → Dict.get (finish_revoked now sid s b).active_by_agent (key_of s) ≡ some sid
unfolding finish_revoked release_key
revoked_workspace_stays now sid s b h other =
    let written = update_session sid mark_revoked b in
    let differ : default_key s.agent_id ≢ key_of s =
      λ p. other (sym (ap (λ (k : Text × Text). k.1) p)) in
    let held : Dict.get written.active_by_agent (key_of s) ≡ some sid =
      rw (active-update_session sid mark_revoked b) h in
    rw ((prune_terminal-Pruned now _).index)
      (get-release_key_other (default_key s.agent_id) sid written (key_of s) differ ∙ held)

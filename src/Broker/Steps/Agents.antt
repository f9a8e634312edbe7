-- ===== src/Broker/Steps/Agents.antt =====
-- What the agent's side calls, as runs of sections.
use hermes_fleet.Prelude.{
  ℕ, ◌≡◌, refl, inl, inr, Bool, true, false, ◌&&◌, ◌==◌, Option, none, some, Option-cases, list_eq,
  nat_eq, ltb, arith,
}
use hermes_fleet.Prelude.Dict
use hermes_fleet.Prelude.Text.{Text}
use hermes_fleet.Broker.Types.{
  ended, is_live, is_terminal, Session, Broker, Env, AccessPrincipal, Invocation, Held,
}
use hermes_fleet.Broker.Exec.{pure}
use hermes_fleet.Broker.Policy.{owner, authorized_principal, agent_allowed}
use hermes_fleet.Broker.Terminal.{prune_terminal, terminate, expire_in_background}
use hermes_fleet.Broker.Handoff.{
  debug_found, debug, minted, mint_found, mint, active_session, resource_key, current, expected,
  select, status, status_of, reply_found, held_or_missing, fits_owner, end_current,
  status_for_agent, default_key, end_for_agent,
}
use hermes_fleet.Broker.Viewer.{release_to_observe, observe_current}
use hermes_fleet.Broker.Steps.{prunes, inserts, done, Steps-trans, one}
use hermes_fleet.Broker.Steps.Rules.{
  RunsAt, bind-Steps, read-Steps, lift-Steps, option-Steps, require-Steps, if-Steps,
}
use hermes_fleet.Broker.Steps.Expiry.{terminate-Steps, expire_in_background-Steps}
use hermes_fleet.Broker.Steps.Controls.{release_to_observe-Steps}
use hermes_fleet.Broker.Invariant.Store.{prune_terminal-Pruned}
use hermes_fleet.Broker.Invariant.Kept.{Inv}

prune-fresh :
    (now : ℕ) (sid : Text) (b : Broker)
    → Dict.get b.sessions sid ≡ none
    → Dict.get (prune_terminal now b).sessions sid ≡ none
prune-fresh now sid b fresh = elim (Option-cases (Dict.get (prune_terminal now b).sessions sid)) [
  | inl e ↦ e
  | inr (s, e) ↦ cc (fresh, (prune_terminal-Pruned now b).kept sid s e)
]

mint_found-Steps :
    (env : Env) (now : ℕ) (sid : Text) (p : AccessPrincipal) (i : Invocation) (o : Option Session)
    (b : Broker)
    → active_session (resource_key i) b ≡ o
    → Dict.get b.sessions sid ≡ none
    → RunsAt (mint_found env now sid p i o) b
unfolding mint_found
mint_found-Steps env now sid p i (some old) b e fresh =
    if-Steps (old.owner == owner i && is_live old.state && ltb now old.expires_at)
      (pure (minted env old)) _ b (λ t. done) (λ t. done)
mint_found-Steps env now sid p i none b e fresh = one (inserts now sid p i b fresh e)

-- `uuid.uuid4()` gives an id that no session has.
pub mint-Steps :
    (env : Env) (now : ℕ) (sid : Text) (i : Invocation) (b : Broker)
    → Dict.get b.sessions sid ≡ none
    → RunsAt (mint env now sid i) b
unfolding mint
mint-Steps env now sid i b fresh = lift-Steps (authorized_principal b i) _ b λ p h.
    Steps-trans (one (prunes now b))
      (mint_found-Steps env now sid p i _ (prune_terminal now b) refl (prune-fresh now sid b fresh))

module _ (i : Invocation) (b : Broker) where
  current-state : (include_ended : Bool) → (current include_ended i b).1 ≡ b
  unfolding current
  current-state include_ended = ground arith

  expected-state : (sid : Text) → (expected sid i b).1 ≡ b
  unfolding expected
  expected-state sid = ground arith

  select-state : (o : Option Text) (include_ended : Bool) → (select o include_ended i b).1 ≡ b
  select-state none include_ended = current-state include_ended
  select-state (some sid) include_ended = expected-state sid

pub end_current-Steps :
    (env : Env) (now : ℕ) (i : Invocation) (o : Option Text) (b : Broker)
    → Inv b
    → RunsAt (end_current env now i o) b
unfolding end_current
end_current-Steps env now i o b v =
    read-Steps (select o true i) _ b (select-state i b o true) λ s h.
      bind-Steps (terminate env now s.session_id ended true) _ b
        (terminate-Steps env now s.session_id ended true b refl v) (λ u k. done)

pub observe_current-Steps :
    (env : Env) (now : ℕ) (i : Invocation) (o : Option Text) (b : Broker)
    → RunsAt (observe_current env now i o) b
unfolding observe_current
observe_current-Steps env now i o b =
    read-Steps (select o false i) _ b (select-state i b o false) λ s h.
      bind-Steps (release_to_observe env now s.session_id s.access_email) _ b
        (release_to_observe-Steps env now s.session_id s.access_email b) (λ u k. done)

held-Steps : (o : Option Held) (b : Broker) → RunsAt (held_or_missing o) b
held-Steps none b = done
held-Steps (some h) b = done

reply-Steps :
    (env : Env) (agent : Text) (o : Option Session) (b : Broker)
    → RunsAt (reply_found env agent o) b
reply-Steps env agent none b = held-Steps (env.on_hold_status agent) b
reply-Steps env agent (some s) b =
    if-Steps (is_terminal s.state) _ _ b (λ t. held-Steps (env.on_hold_status agent) b) (λ t. done)

status_of-Steps :
    (env : Env) (now : ℕ) (agent : Text) (o : Option Session) (b : Broker)
    → RunsAt (status_of env now agent o) b
status_of-Steps env now agent none b = held-Steps (env.on_hold_status agent) b
status_of-Steps env now agent (some s) b =
    bind-Steps (expire_in_background now s.session_id) _ b
      (expire_in_background-Steps now s.session_id b) λ u h. reply-Steps env agent _ _

debug_found-Steps : (env : Env) (o : Option Session) (b : Broker) → RunsAt (debug_found env o) b
debug_found-Steps env none b = done
debug_found-Steps env (some s) b = done

pub debug-Steps : (env : Env) (now : ℕ) (sid : Text) (b : Broker) → RunsAt (debug env now sid) b
unfolding debug
debug-Steps env now sid b =
    bind-Steps (expire_in_background now sid) _ b (expire_in_background-Steps now sid b)
      λ u h. debug_found-Steps env _ _

pub status-Steps : (env : Env) (now : ℕ) (i : Invocation) (b : Broker) → RunsAt (status env now i) b
unfolding status
status-Steps env now i b = lift-Steps (authorized_principal b i) _ b λ p h.
    require-Steps (fits_owner p i (active_session (resource_key i) b)) 403 "wrong handoff owner" _ b
      λ t. status_of-Steps env now i.profile _ b

pub status_for_agent-Steps :
    (env : Env) (now : ℕ) (agent : Text) (b : Broker) → RunsAt (status_for_agent env now agent) b
unfolding status_for_agent
status_for_agent-Steps env now agent b =
    require-Steps (agent_allowed b agent) 403 "agent denied" _ b
      λ t. status_of-Steps env now agent _ b

pub end_for_agent-Steps :
    (env : Env) (now : ℕ) (agent : Text) (b : Broker)
    → Inv b
    → RunsAt (end_for_agent env now agent) b
unfolding end_for_agent
end_for_agent-Steps env now agent b v =
    require-Steps (agent_allowed b agent) 403 "agent denied" _ b λ t.
      option-Steps (active_session (default_key agent) b) 404 "no active handoff" _ b λ s e.
        bind-Steps (terminate env now s.session_id ended true) _ b
          (terminate-Steps env now s.session_id ended true b refl v) (λ u k. done)

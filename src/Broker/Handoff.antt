-- ===== src/Broker/Handoff.antt =====
-- session_policy.py: what the agent's side calls (`mint`, `_current`, `status`, `end_current`,
-- `observe_current`, `status_for_agent`, `end_for_agent`, `debug`).
use hermes_fleet.Prelude.{
  ℕ, ◌+◌, Bool, true, false, not, ◌&&◌, Option, none, some, List, [], ◌∷◌, ◌++◌, ◌==◌, nat_eq,
  list_eq, pair_eq, option_eq, if◌then◌else◌, ltb,
}
use hermes_fleet.Prelude.Dict
use hermes_fleet.Prelude.Text.{Text, codes, lower}
use hermes_fleet.Broker.Types.{
  State, pending, ended, is_terminal, is_live, Mode, takeover, is_takeover, Invocation,
  AccessPrincipal, Session, Broker, Minted, Held, Env, max_ttl,
}
use hermes_fleet.Broker.Exec.{
  other, fail, Exec, pure, refuse, lift, gets, modify, ◌>>=◌, ◌>>◌, require, or_refuse,
}
use hermes_fleet.Broker.Policy.{
  owner, workspace_of, default_workspace, agent_allowed, authorized_principal,
}
use hermes_fleet.Broker.Terminal.{prune_terminal, terminate, expire_in_background}

abbrev slash : Text
slash = codes "/"

-- `_minted(sess).url`
unfoldable pub session_url : Text → Session → Text
session_url public_url s =
    if s.browser_workspace_id == default_workspace
    then public_url ++ (slash ++ (s.agent_id ++ (slash ++ s.session_id)))
    else public_url
      ++ (slash ++ (s.agent_id ++ (slash ++ (s.browser_workspace_id ++ (slash ++ s.session_id)))))

unfoldable pub minted : Env → Session → Minted
minted env s = record {
  session_id = s.session_id;
  url = session_url env.public_url s;
  expires_at = s.expires_at;
}

unfoldable pub new_session : ℕ → ℕ → Text → AccessPrincipal → Invocation → Session
new_session now ttl sid p i = record {
  session_id = sid;
  agent_id = i.profile;
  browser_workspace_id = workspace_of i;
  principal_id = p.principal_id;
  access_email = lower p.access_email;
  invocation = i;
  state = pending;
  created_at = now;
  expires_at = now + ttl;
  access_subject_sha256 = none;
  sockets = [];
  socket_preflights = [];
  expiry_timer = none;
  reaper_retry_at = 0;
  owner = owner i;
  terminal_target = ended;
  checkpoint_outcome = none;
  takeover_confirmed = false;
  mode = takeover;
}

abbrev pub resource_key : Invocation → Text × Text
resource_key i = (i.profile, workspace_of i)

abbrev pub lookup_session : Broker → Option Text → Option Session
lookup_session b none = none
lookup_session b (some sid) = Dict.get b.sessions sid

-- `self._sessions.get(self._active_by_agent.get(key))`
abbrev pub active_session : Text × Text → Broker → Option Session
active_session key b = lookup_session b (Dict.get b.active_by_agent key)

unfoldable pub insert_session : Text → Invocation → Session → Broker → Broker
insert_session sid i s b = record b {
  sessions = Dict.put b.sessions sid s;
  active_by_agent = Dict.put b.active_by_agent (resource_key i) sid;
  last_by_owner = Dict.put b.last_by_owner (owner i, workspace_of i) sid;
}

-- The section of `mint` behind the pruning, by the session that holds the resource.
unfoldable pub mint_found :
    Env → ℕ → Text → AccessPrincipal → Invocation → Option Session → Exec Minted
unfolding insert_session
mint_found env now sid p i (some old) b =
    (if old.owner == owner i && is_live old.state && ltb now old.expires_at
        then pure (minted env old)
        else refuse 409 "browser handoff already owned; end or recover it first")
      b
mint_found env now sid p i none b =
    let s = new_session now b.ttl sid p i in
    (do modify (insert_session sid i s); pure (minted env s)) b

-- `mint`; `sid` is the fresh `uuid.uuid4()`.
unfoldable pub mint : Env → ℕ → Text → Invocation → Exec Minted
mint env now sid i b =
    (do
      p ← lift (authorized_principal b i)
      modify (prune_terminal now)
      old ← gets (active_session (resource_key i))
      mint_found env now sid p i old)
      b

-- `sess.owner not in ((), owner)`, negated
abbrev pub owner_fits : List Text → List Text → Bool
owner_fits [] o = true
owner_fits (x ∷ xs) o = (x ∷ xs) == o

abbrev pub or_last : Bool → Option Text → Option Text → Option Text
or_last include_ended (some sid) last = some sid
or_last true none last = last
or_last false none last = none

unfoldable pub current : Bool → Invocation → Exec Session
current include_ended i b =
    (do
      p ← lift (authorized_principal b i)
      s ←
          or_refuse
            (lookup_session b (
              or_last include_ended (Dict.get b.active_by_agent (resource_key i))
                (Dict.get b.last_by_owner (owner i, workspace_of i))))
            404 "no active handoff"
      require (p.principal_id == s.principal_id && owner_fits s.owner (owner i)) 403
          "wrong handoff owner"
      pure s)
      b

-- `expected_session_id` given
unfoldable pub expected : Text → Invocation → Exec Session
expected sid i b =
    (do
      p ← lift (authorized_principal b i)
      s ← or_refuse (Dict.get b.sessions sid) 404 "unknown handoff"
      require (s.principal_id == p.principal_id && s.owner == owner i) 403 "wrong handoff owner"
      pure s)
      b

abbrev pub select : Option Text → Bool → Invocation → Exec Session
select none include_ended i = current include_ended i
select (some sid) include_ended i = expected sid i

pub record SessionStatus : Type 0 where
  pub session_id : Text
  pub state : State
  pub access_subject_sha256 : Option Text
  pub agent_id : Text
  pub browser_workspace_id : Text
  pub principal_id : Text
  pub expires_at : ℕ
  pub max_expires_at : ℕ
  pub url : Text
  pub automation_blocked : Bool
  pub checkpoint_outcome : Option Text
  pub takeover_confirmed : Bool
  pub mode : Mode

unfoldable pub session_status : Env → Session → SessionStatus
session_status env s = record {
  session_id = s.session_id;
  state = s.state;
  access_subject_sha256 = s.access_subject_sha256;
  agent_id = s.agent_id;
  browser_workspace_id = s.browser_workspace_id;
  principal_id = s.principal_id;
  expires_at = s.expires_at;
  max_expires_at = s.created_at + max_ttl;
  url = session_url env.public_url s;
  automation_blocked = not (is_terminal s.state) && is_takeover s.mode;
  checkpoint_outcome = s.checkpoint_outcome;
  takeover_confirmed = s.takeover_confirmed;
  mode = s.mode;
}

pub data StatusReply : Type 0 where
  held : Held → StatusReply
  session : SessionStatus → StatusReply

-- The held marker of the agent, or 404.
abbrev pub held_or_missing : Option Held → Exec StatusReply
held_or_missing (some h) = pure (held h)
held_or_missing none = refuse 404 "no active handoff"

abbrev pub reply_found : Env → Text → Option Session → Exec StatusReply
reply_found env agent none = held_or_missing (env.on_hold_status agent)
reply_found env agent (some s) =
    if is_terminal s.state
    then held_or_missing (env.on_hold_status agent)
    else pure (session (session_status env s))

-- Expire, then answer: the rest of `status` and `status_for_agent`.
abbrev pub status_of : Env → ℕ → Text → Option Session → Exec StatusReply
status_of env now agent none = held_or_missing (env.on_hold_status agent)
status_of env now agent (some s) = do
  expire_in_background now s.session_id
  found ← gets (λ b. Dict.get b.sessions s.session_id)
  reply_found env agent found

abbrev pub fits_owner : AccessPrincipal → Invocation → Option Session → Bool
fits_owner p i none = true
fits_owner p i (some s) = s.principal_id == p.principal_id && owner_fits s.owner (owner i)

unfoldable pub status : Env → ℕ → Invocation → Exec StatusReply
status env now i b =
    (do
      p ← lift (authorized_principal b i)
      found ← gets (active_session (resource_key i))
      require (fits_owner p i found) 403 "wrong handoff owner"
      status_of env now i.profile found)
      b

-- A missing id is a KeyError.
abbrev pub debug_found : Env → Option Session → Exec SessionStatus
debug_found env none = fail other
debug_found env (some s) = pure (session_status env s)

unfoldable pub debug : Env → ℕ → Text → Exec SessionStatus
debug env now sid = do
  expire_in_background now sid
  found ← gets (λ b. Dict.get b.sessions sid)
  debug_found env found

unfoldable pub end_current : Env → ℕ → Invocation → Option Text → Exec Text
end_current env now i expected_session_id = do
  s ← select expected_session_id true i
  terminate env now s.session_id ended true
  pure s.session_id

-- `_active_by_agent.get(agent)`: the index reads a bare agent as its default resource.
abbrev pub default_key : Text → Text × Text
default_key agent = (agent, default_workspace)

unfoldable pub status_for_agent : Env → ℕ → Text → Exec StatusReply
status_for_agent env now agent b =
    (do
      require (agent_allowed b agent) 403 "agent denied"
      found ← gets (active_session (default_key agent))
      status_of env now agent found)
      b

abbrev pub status_after : Env → Option Session → Session → SessionStatus
status_after env none s = session_status env s
status_after env (some s') s = session_status env s'

unfoldable pub end_for_agent : Env → ℕ → Text → Exec SessionStatus
end_for_agent env now agent b =
    (do
      require (agent_allowed b agent) 403 "agent denied"
      s ← or_refuse (active_session (default_key agent) b) 404 "no active handoff"
      terminate env now s.session_id ended true
      found ← gets (λ c. Dict.get c.sessions s.session_id)
      pure (status_after env found s))
      b

-- ===== src/Broker/Viewer.antt =====
-- session_policy.py: what the human's side calls (`_public_session` to `send_viewer_input`), and
-- `observe_current`. A section that holds the lifecycle lock is one function of the broker.
use hermes_fleet.Prelude.{
  ℕ, ◌+◌, Bool, true, false, not, ◌&&◌, Option, none, some, List, [], ◌∷◌, ◌++◌, ◌==◌, nat_eq,
  list_eq, if◌then◌else◌, ltb, min, max, contains,
}
use hermes_fleet.Prelude.Dict
use hermes_fleet.Prelude.Text.{Text, codes, is_nonempty, strip, lower, upper}
use hermes_fleet.Broker.Types.{
  pending, active, ended, is_live, is_recovery, is_ending, state_name, takeover, observe,
  is_takeover, Invocation, Session, Broker, Page, head, viewer, Event, observe_called,
  acquire_called, forwarded, action_called, closer_called, Answer, returned, type_error,
  broker_raised, raised, or_legacy, Env, max_ttl,
}
use hermes_fleet.Broker.Exec.{
  other, Exec, pure, fail, refuse, gets, modify, ◌>>=◌, ◌>>◌, require, or_refuse, update_session,
  emit,
}
use hermes_fleet.Broker.Terminal.{schedule_expiry, drop_socket, terminate, expire_in_background}
use hermes_fleet.Broker.Handoff.{SessionStatus, status_after, select}

-- `_public_session`; no session is 401, like no e-mail.
unfoldable pub public_session : Text → Text → Exec Session
public_session sid email b =
    (do
      require (is_nonempty (strip email)) 401 "missing access"
      s ← or_refuse (Dict.get b.sessions sid) 401 "unknown"
      require (lower (strip email) == s.access_email) 403 "wrong principal"
      pure s)
      b

unfoldable pub human_may_connect : ℕ → Session → Bool
human_may_connect now s =
    if is_recovery s.state then true else is_live s.state && ltb now s.expires_at

-- `is_active` and `viewer_may_send_input`
abbrev pub may_connect : ℕ → Option Session → Bool
may_connect now none = false
may_connect now (some s) = human_may_connect now s

abbrev pub may_send : ℕ → Option Session → Bool
may_send now none = false
may_send now (some s) = human_may_connect now s && is_takeover s.mode

unfoldable pub is_active : ℕ → Text → Broker → Bool
is_active now sid b = may_connect now (Dict.get b.sessions sid)

unfoldable pub viewer_may_send_input : ℕ → Text → Broker → Bool
viewer_may_send_input now sid b = may_send now (Dict.get b.sessions sid)

-- The assignments of `public_page` for a request that is not HEAD.
unfoldable pub open_page : Env → ℕ → ℕ → Session → Session
open_page env now ttl s = record s {
  state = elim s.state [ pending ↦ active | other_state ↦ other_state ];
  expires_at = if is_recovery s.state then max s.expires_at (now + ttl) else s.expires_at;
  access_subject_sha256 = some (env.sha256_hex s.access_email);
}

-- A session that the pruning has dropped was terminal.
abbrev pub page_found : Env → ℕ → Text → Text → Option Session → Exec Page
page_found env now method sid none b = refuse 410 "ended" b
page_found env now method sid (some s) b =
    (do
      require (human_may_connect now s) 410 (state_name s.state)
      if upper method == codes "HEAD"
          then pure head
          else (do modify (update_session sid (open_page env now b.ttl)); pure viewer))
      b

unfoldable pub page_section : Env → ℕ → Text → Text → Exec Page
page_section env now method sid b = page_found env now method sid (Dict.get b.sessions sid) b

unfoldable pub public_page : Env → ℕ → Text → Text → Text → Exec Page
public_page env now sid method email = do
  s ← public_session sid email
  expire_in_background now sid
  page_section env now method sid

-- The assignments of `extend`.
unfoldable pub extend_session : ℕ → ℕ → Session → Session
unfolding schedule_expiry
extend_session now ttl s =
    let longer : Session = record s {
      expires_at = min (s.created_at + max_ttl) (max s.expires_at (now + ttl));
    } in
    elim s.expiry_timer [ none ↦ longer | some t ↦ schedule_expiry now longer ]

abbrev pub extend_found : ℕ → Text → Option Session → Exec ℕ
extend_found now sid none b = refuse 410 "ended" b
extend_found now sid (some s) b =
    (do
      require (is_live s.state && ltb now s.expires_at) 410 (state_name s.state)
      modify (update_session sid (extend_session now b.ttl))
      pure (extend_session now b.ttl s).expires_at)
      b

unfoldable pub extend_section : ℕ → Text → Exec ℕ
extend_section now sid b = extend_found now sid (Dict.get b.sessions sid) b

unfoldable pub extend : ℕ → Text → Text → Exec ℕ
extend now sid email = do
  s ← public_session sid email
  expire_in_background now sid
  extend_section now sid

unfoldable pub end_session : Env → ℕ → Text → Text → Exec (Unit {0})
end_session env now sid email = do s ← public_session sid email; terminate env now sid ended true

unfoldable pub confirmed : Session → Session
confirmed s = record s { takeover_confirmed = true }

unfoldable pub confirm_takeover : ℕ → Text → Text → Exec (Unit {0})
confirm_takeover now sid email = do
  s ← public_session sid email
  require (human_may_connect now s) 410 (state_name s.state)
  modify (update_session sid confirmed)

-- `acquire()`, which may raise
unfoldable pub acquire : Env → Text → Exec (Unit {0})
acquire env sid = do
  modify (emit (acquire_called sid))
  if env.acquire_returns sid then pure tt else fail other

unfoldable pub take_over : Session → Session
take_over s = record s { takeover_confirmed = true; mode = takeover }

unfoldable pub acquire_takeover : Env → ℕ → Text → Text → Exec (Unit {0})
acquire_takeover env now sid email = do
  s ← public_session sid email
  live ← gets (is_active now sid)
  require live 410 "session ended"
  acquire env sid
  modify (update_session sid take_over)

unfoldable pub acquire_takeover_if_current : Env → ℕ → Text → Text → Exec Bool
acquire_takeover_if_current env now sid email = do
  s ← public_session sid email
  live ← gets (is_active now sid)
  require live 410 "session ended"
  if is_takeover s.mode
      then (do acquire env sid; modify (update_session sid confirmed); pure true)
      else pure false

-- The loop over the preflights; one that raises counts as unsafe.
abbrev pub is_safe : Option Bool → Bool
is_safe none = false
is_safe (some safe) = safe

unfoldable pub preflights_pass : Env → List ℕ → Bool
preflights_pass env [] = true
preflights_pass env (p ∷ ps) = is_safe (env.preflight p) && preflights_pass env ps

-- `except BrokerError: raise`, `except Exception: raise BrokerError(502)`
abbrev pub observe_answer : Answer (Option Text) → Exec (Option Text)
observe_answer (returned outcome) = pure outcome
observe_answer (broker_raised status message) = refuse status message
observe_answer type_error = refuse 502 "checkpoint failed; takeover remains locked"
observe_answer raised = refuse 502 "checkpoint failed; takeover remains locked"

abbrev pub observe_with :
    Env → Session → Option (Text → Text → Text → Answer (Option Text)) → Exec (Option Text)
observe_with env s none = refuse 503 "observe release lifecycle is unavailable"
observe_with env s (some callback) = do
  require (preflights_pass env (Dict.values s.socket_preflights)) 409
      "viewer RFB record is incomplete; takeover remains locked"
  modify (emit (observe_called s.session_id))
  observe_answer (
      or_legacy (callback s.agent_id s.browser_workspace_id s.session_id)
        (env.on_observe_legacy s.agent_id s.session_id))

unfoldable pub call_observe : Env → Session → Exec (Option Text)
unfolding or_legacy
call_observe env s = observe_with env s env.on_observe

unfoldable pub to_observe : Option Text → Session → Session
to_observe outcome s = record s { mode = observe; checkpoint_outcome = outcome }

unfoldable pub release_to_observe : Env → ℕ → Text → Text → Exec (Option Text)
release_to_observe env now sid email = do
  s ← public_session sid email
  live ← gets (is_active now sid)
  require live 410 "session ended"
  if is_takeover s.mode
      then (do
        outcome ← call_observe env s
        modify (update_session sid (to_observe outcome))
        pure outcome)
      else pure s.checkpoint_outcome

unfoldable pub observe_current : Env → ℕ → Invocation → Option Text → Exec SessionStatus
observe_current env now i expected_session_id = do
  s ← select expected_session_id false i
  outcome ← release_to_observe env now s.session_id s.access_email
  found ← gets (λ b. Dict.get b.sessions s.session_id)
  pure (status_after env found s)

abbrev pub add_preflight : ℕ → Option ℕ → Session → Session
add_preflight closer none s = s
add_preflight closer (some p) s = record s {
  socket_preflights = Dict.put s.socket_preflights closer p;
}

abbrev pub start_timer : ℕ → Session → Session
start_timer now s = elim s.expiry_timer [
  | none ↦ (if is_live s.state then schedule_expiry now s else s)
  | some t ↦ s
]

-- The assignments of `attach_socket` for a session that may connect.
unfoldable pub with_socket : ℕ → ℕ → Option ℕ → Session → Session
unfolding schedule_expiry
with_socket now closer preflight s =
    start_timer now
      (add_preflight closer preflight (record s { sockets = s.sockets ++ closer ∷ [] }))

-- A viewer that comes too late is closed at once.
unfoldable pub attach_socket : Env → ℕ → Text → ℕ → Option ℕ → Exec (Unit {0})
attach_socket env now sid closer preflight b =
    (do
      s ← or_refuse (Dict.get b.sessions sid) 401 "unknown"
      if human_may_connect now s
          then modify (update_session sid (with_socket now closer preflight))
          else (do
            modify (emit (closer_called closer))
            if env.closer_returns closer then refuse 410 "viewer revoked" else fail other))
      b

unfoldable pub detached : ℕ → Session → Session
unfolding drop_socket
detached closer s =
    if not (is_ending s.state) && contains closer s.sockets then drop_socket closer s else s

unfoldable pub detach_socket : Text → ℕ → Exec (Unit {0})
detach_socket sid closer = modify (update_session sid (detached closer))

-- `action()`, which may raise
unfoldable pub run_action : Env → Text → Event → Exec (Unit {0})
run_action env sid event = do
  modify (emit event)
  if env.action_returns sid then pure tt else fail other

-- `later` is the clock after the action.
unfoldable pub run_while_active : Env → ℕ → ℕ → Text → Exec (Unit {0})
run_while_active env now later sid b =
    (do
      s ← or_refuse (Dict.get b.sessions sid) 404 "unknown session"
      require (human_may_connect now s) 410 "session ended"
      run_action env sid (action_called sid)
      live ← gets (is_active later sid)
      require live 410 "session ended")
      b

-- One of the two actions, chosen by the mode.
unfoldable pub forward_viewer_rfb : Env → ℕ → Text → Exec (Unit {0})
forward_viewer_rfb env now sid b =
    (do
      s ← or_refuse (Dict.get b.sessions sid) 404 "unknown session"
      require (human_may_connect now s) 410 "session ended"
      run_action env sid (forwarded sid s.mode))
      b

unfoldable pub send_viewer_input : Env → ℕ → ℕ → Text → Exec (Unit {0})
send_viewer_input env now later sid b =
    (do
      s ← or_refuse (Dict.get b.sessions sid) 404 "unknown session"
      require (human_may_connect now s && is_takeover s.mode) 410 "viewer is observe-only"
      run_action env sid (forwarded sid takeover)
      live ← gets (is_active later sid)
      require live 410 "session ended")
      b

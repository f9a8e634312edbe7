-- ===== src/Broker/Terminal.antt =====
-- session_policy.py: how a session ends (`_prune_terminal_locked`, `_schedule_expiry_locked`,
-- `_begin_terminal`, `_finish_terminal`, `_terminate`, `_expire_session`, `expire_sessions`).
-- `now` is the clock in a section that holds the lifecycle lock.
use hermes_fleet.Prelude.{
  ℕ, suc, ◌+◌, ◌-◌, Bool, true, false, ◌&&◌, ◌||◌, Option, none, some, List, [], ◌∷◌, ◌++◌, ◌==◌,
  nat_eq, list_eq, pair_eq, option_eq, if◌then◌else◌, ltb, leb, length, remove_first,
}
use hermes_fleet.Prelude.Dict
use hermes_fleet.Prelude.Dict.{Dict}
use hermes_fleet.Prelude.Text.{Text, codes}
use hermes_fleet.Broker.Types.{
  State, recovery_required, ending, ended, expired, is_terminal, is_recovery, is_ending, Session,
  Broker, closer_called, transition_called, terminal_called, Answer, returned, type_error,
  broker_raised, raised, or_legacy, Env, reaper_retry_seconds,
}
use hermes_fleet.Broker.Exec.{
  other, Exec, pure, fail, refuse, gets, modify, ◌>>=◌, ◌>>◌, catching, update_session, emit,
}

-- Python's `self._last_by_owner.get(owner_key) == sid`, then `pop`
forget_last : Session → Text → Broker → Broker
forget_last sess sid b =
    if Dict.get b.last_by_owner (sess.owner, sess.browser_workspace_id) == some sid
    then record b {
      last_by_owner = Dict.remove b.last_by_owner (sess.owner, sess.browser_workspace_id);
    }
    else b

forget_found : Option Session → Text → Broker → Broker
unfolding forget_last
forget_found none sid b = b
forget_found (some sess) sid b =
    if is_terminal sess.state
    then forget_last sess sid (record b { sessions = Dict.remove b.sessions sid })
    else b

-- The body of the loop for the oldest entry.
unfoldable pub forget_session : Text → Broker → Broker
unfolding forget_found
forget_session sid b = forget_found (Dict.get b.sessions sid) sid b

-- The loop over `_terminal`, oldest first; `ended_at > now - ttl` is written without a negative time.
unfoldable pub prune_from : ℕ → Dict Text ℕ → Broker → Broker
prune_from now [] b = record b { terminal = [] }
prune_from now ((sid, ended_at) ∷ rest) b =
    if leb (suc (length rest)) b.terminal_limit && ltb now (ended_at + b.terminal_ttl)
    then record b { terminal = (sid, ended_at) ∷ rest }
    else prune_from now rest (forget_session sid b)

unfoldable pub prune_terminal : ℕ → Broker → Broker
prune_terminal now b = prune_from now b.terminal b

-- The timer is known by the time at which it fires.
unfoldable pub schedule_expiry : ℕ → Session → Session
schedule_expiry now s = record s { expiry_timer = some (now + (s.expires_at - now)) }

-- `_begin_terminal` on a session that is not terminal or ending
unfoldable pub enter_ending : State → Bool → Session → Session
enter_ending target explicit_end s = record s {
  state = ending;
  terminal_target = if is_recovery s.state then if explicit_end then ended else expired else target;
  expiry_timer = none;
}

abbrev pub begin_found : Option Session → Text → State → Bool → Exec Bool
begin_found none sid target explicit_end = pure false
begin_found (some s) sid target explicit_end =
    if is_terminal s.state
    then pure false
    else if is_ending s.state
    then refuse 409 "handoff ending"
    else (do modify (update_session sid (enter_ending target explicit_end)); pure true)

unfoldable pub begin_terminal : Text → State → Bool → Exec Bool
begin_terminal sid target explicit_end b =
    begin_found (Dict.get b.sessions sid) sid target explicit_end b

-- `sess.sockets.remove(closer)` and the preflight's `pop`
unfoldable pub drop_socket : ℕ → Session → Session
drop_socket closer s = record s {
  sockets = remove_first closer s.sockets;
  socket_preflights = Dict.remove s.socket_preflights closer;
}

-- `for closer in closers: closer(); remove`: an exception leaves the loop.
unfoldable pub close_all : Env → Text → List ℕ → Exec (Unit {0})
close_all env sid [] = pure tt
close_all env sid (closer ∷ rest) =
    let more = close_all env sid rest in
    (do
      modify (emit (closer_called closer))
      if env.closer_returns closer
          then (do modify (update_session sid (drop_socket closer)); more)
          else fail other)

-- What a callback's answer is inside the `try` of the caller.
abbrev pub answer : {A : Type 0} → Answer A → Exec A
answer (returned a) = pure a
answer type_error = fail other
answer (broker_raised status message) = refuse status message
answer raised = fail other

abbrev pub transition_with :
    Env → Session → Option (Text → Text → Text → State → Answer (Unit {0})) → Exec (Unit {0})
transition_with env s none = pure tt
transition_with env s (some callback) = do
  modify (emit (transition_called s.session_id s.terminal_target))
  answer (
      or_legacy (callback s.agent_id s.browser_workspace_id s.session_id s.terminal_target)
        (env.on_transition_legacy s.agent_id s.session_id s.terminal_target))

unfoldable pub call_transition : Env → Session → Exec (Unit {0})
unfolding or_legacy
call_transition env s = transition_with env s env.on_transition

abbrev pub terminal_with :
    Env → Session → Option (Text → Text → State → Answer (Option Text)) → Exec (Option Text)
terminal_with env s none = pure none
terminal_with env s (some callback) = do
  modify (emit (terminal_called s.agent_id s.browser_workspace_id s.terminal_target))
  answer (
      or_legacy (callback s.agent_id s.browser_workspace_id s.terminal_target)
        (env.on_terminal_legacy s.agent_id s.terminal_target))

unfoldable pub call_terminal : Env → Session → Exec (Option Text)
unfolding or_legacy
call_terminal env s = terminal_with env s env.on_terminal

-- `if self._active_by_agent.get(key) == sid: pop`
unfoldable pub release_key : Text × Text → Text → Broker → Broker
release_key key sid b =
    if Dict.get b.active_by_agent key == some sid
    then record b { active_by_agent = Dict.remove b.active_by_agent key }
    else b

unfoldable pub mark_finished : Option Text → Session → Session
mark_finished outcome s = record s { checkpoint_outcome = outcome; state = s.terminal_target }

-- The locked section after the callbacks have returned.
unfoldable pub settle : ℕ → Session → Option Text → Broker → Broker
unfolding release_key mark_finished
settle now s outcome b =
    let b' =
      release_key (s.agent_id, s.browser_workspace_id) s.session_id
        (update_session s.session_id (mark_finished outcome) b) in
    prune_terminal now (record b' { terminal = Dict.put b'.terminal s.session_id now })

unfoldable pub mark_recovery : ℕ → Session → Session
mark_recovery now s = record s {
  state = recovery_required;
  checkpoint_outcome = some (codes "save_failed");
  reaper_retry_at = now + reaper_retry_seconds;
}

unfoldable pub run_callbacks : Env → ℕ → Session → Exec (Unit {0})
unfolding call_transition call_terminal
run_callbacks env now s = do
  call_transition env s
  outcome ← call_terminal env s
  modify (settle now s outcome)

-- A failed close is not evidence of quiescence: it ends in recovery, like a failed callback.
unfoldable pub finish_terminal : Env → ℕ → Session → Exec (Unit {0})
finish_terminal env now s =
    catching (do close_all env s.session_id s.sockets; run_callbacks env now s)
      (λ e. do
        modify (update_session s.session_id (mark_recovery now))
        refuse 502 "viewer revoked; browser recovery required")

abbrev pub finish_found : Env → ℕ → Option Session → Exec (Unit {0})
finish_found env now none = pure tt
finish_found env now (some s) = finish_terminal env now s

-- `_finish_terminal` on the session as `_begin_terminal` left it
unfoldable pub finish_session : Env → ℕ → Text → Exec (Unit {0})
finish_session env now sid b = finish_found env now (Dict.get b.sessions sid) b

unfoldable pub terminate : Env → ℕ → Text → State → Bool → Exec (Unit {0})
terminate env now sid target explicit_end = do
  begun ← begin_terminal sid target explicit_end
  if begun then finish_session env now sid else pure tt

-- The tests of `_expire_session`: is the session to be expired now?
unfoldable pub expiry_due : ℕ → Session → Bool
expiry_due now s =
    if is_terminal s.state || is_ending s.state
    then false
    else if is_recovery s.state
    then leb s.reaper_retry_at now && (leb s.expires_at now || leb (length s.sockets) 0)
    else leb s.expires_at now

abbrev pub expire_found : ℕ → Option Session → Text → Exec Bool
expire_found now none sid = pure false
expire_found now (some s) sid =
    if expiry_due now s then begin_terminal sid expired false else pure false

unfoldable pub begin_expiry : ℕ → Text → Exec Bool
begin_expiry now sid b = expire_found now (Dict.get b.sessions sid) sid b

-- `background=True`: a thread is started, which finishes later.
unfoldable pub expire_in_background : ℕ → Text → Exec (Unit {0})
expire_in_background now sid = do
  begun ← begin_expiry now sid
  if begun then modify (λ b. record b { spawned = b.spawned ++ sid ∷ [] }) else pure tt

-- `finish`: the exception stays in the recovery state.
unfoldable pub finish_quietly : Env → ℕ → Text → Exec (Unit {0})
finish_quietly env now sid = catching (finish_session env now sid) (λ e. pure tt)

-- The thread that `expire_in_background` started.
unfoldable pub run_spawned : Env → ℕ → Text → Exec (Unit {0})
run_spawned env now sid = do
  modify (λ b. record b { spawned = remove_first sid b.spawned })
  finish_quietly env now sid

unfoldable pub expire_now : Env → ℕ → Text → Exec (Unit {0})
expire_now env now sid = do
  begun ← begin_expiry now sid
  if begun then finish_quietly env now sid else pure tt

unfoldable pub expire_all : Env → ℕ → List Text → Exec (Unit {0})
expire_all env now [] = pure tt
expire_all env now (sid ∷ rest) = do expire_now env now sid; expire_all env now rest

-- The reaper.
unfoldable pub expire_sessions : Env → ℕ → Exec (Unit {0})
expire_sessions env now = do
  modify (prune_terminal now)
  ids ← gets (λ b. Dict.values b.active_by_agent)
  expire_all env now ids

-- ===== src/Broker/Operation.antt =====
-- Every method of the broker that changes it, as one type of requests, and histories of requests.
use hermes_fleet.Prelude.{ℕ, ◌≡◌, Option, none, list_eq, nat_eq, List}
use hermes_fleet.Prelude.Dict
use hermes_fleet.Prelude.Text.{Text}
use hermes_fleet.Broker.Types.{Broker, Env, Invocation, AccessPrincipal}
use hermes_fleet.Broker.Terminal.{run_spawned, expire_sessions}
use hermes_fleet.Broker.Handoff.{mint, status, debug, end_current, status_for_agent, end_for_agent}
use hermes_fleet.Broker.Viewer.{
  public_page, extend, end_session, confirm_takeover, acquire_takeover, acquire_takeover_if_current,
  release_to_observe, observe_current, attach_socket, detach_socket, run_while_active,
  forward_viewer_rfb, send_viewer_input,
}
use hermes_fleet.Broker.Reload.{replace_principals}
use hermes_fleet.Broker.Steps.{Steps, done, Steps-trans}
use hermes_fleet.Broker.Steps.Ending.{EndingAt}
use hermes_fleet.Broker.Steps.Expiry.{run_spawned-Steps, expire_sessions-Steps}
use hermes_fleet.Broker.Steps.Operations.{
  public_page-Steps, extend-Steps, end_session-Steps, confirm_takeover-Steps,
}
use hermes_fleet.Broker.Steps.Controls.{
  acquire_takeover-Steps, acquire_takeover_if_current-Steps, release_to_observe-Steps,
  attach_socket-Steps, detach_socket-Steps, run_while_active-Steps, forward_viewer_rfb-Steps,
  send_viewer_input-Steps,
}
use hermes_fleet.Broker.Steps.Agents.{
  mint-Steps, status-Steps, debug-Steps, end_current-Steps, observe_current-Steps,
  status_for_agent-Steps, end_for_agent-Steps,
}
use hermes_fleet.Broker.Steps.Reloads.{replace_principals-Steps}
use hermes_fleet.Broker.Invariant.Kept.{Inv, Steps-Inv}

-- `mints` carries the fresh id, and `finishes` is a background thread that finishes an end.
pub data Operation : Type 0 where
  mints : Text → Invocation → Operation
  asks : Invocation → Operation
  asks_agent : Text → Operation
  debugs : Text → Operation
  ends_current : Invocation → Option Text → Operation
  ends_agent : Text → Operation
  observes_current : Invocation → Option Text → Operation
  pages : Text → Text → Text → Operation
  extends : Text → Text → Operation
  ends : Text → Text → Operation
  confirms : Text → Text → Operation
  acquires : Text → Text → Operation
  reacquires : Text → Text → Operation
  releases : Text → Text → Operation
  attaches : Text → ℕ → Option ℕ → Operation
  detaches : Text → ℕ → Operation
  runs : Text → ℕ → Operation
  forwards : Text → Operation
  sends : Text → ℕ → Operation
  reaps : Operation
  finishes : Text → Operation
  reloads : List AccessPrincipal → Operation

unfoldable pub perform : Env → ℕ → Operation → Broker → Broker
perform env now (mints sid i) b = (mint env now sid i b).1
perform env now (asks i) b = (status env now i b).1
perform env now (asks_agent agent) b = (status_for_agent env now agent b).1
perform env now (debugs sid) b = (debug env now sid b).1
perform env now (ends_current i o) b = (end_current env now i o b).1
perform env now (ends_agent agent) b = (end_for_agent env now agent b).1
perform env now (observes_current i o) b = (observe_current env now i o b).1
perform env now (pages sid method email) b = (public_page env now sid method email b).1
perform env now (extends sid email) b = (extend now sid email b).1
perform env now (ends sid email) b = (end_session env now sid email b).1
perform env now (confirms sid email) b = (confirm_takeover now sid email b).1
perform env now (acquires sid email) b = (acquire_takeover env now sid email b).1
perform env now (reacquires sid email) b = (acquire_takeover_if_current env now sid email b).1
perform env now (releases sid email) b = (release_to_observe env now sid email b).1
perform env now (attaches sid closer preflight) b = (attach_socket env now sid closer preflight b).1
perform env now (detaches sid closer) b = (detach_socket sid closer b).1
perform env now (runs sid later) b = (run_while_active env now later sid b).1
perform env now (forwards sid) b = (forward_viewer_rfb env now sid b).1
perform env now (sends sid later) b = (send_viewer_input env now later sid b).1
perform env now reaps b = (expire_sessions env now b).1
perform env now (finishes sid) b = (run_spawned env now sid b).1
perform env now (reloads principals) b = (replace_principals env now principals b).1

-- A minted id is fresh, as `uuid4` ids are; a thread finishes a session that is ending.
abbrev pub Allowed : Operation → Broker → Type 0
Allowed (mints sid i) b = Dict.get b.sessions sid ≡ none
Allowed (finishes sid) b = EndingAt sid b
Allowed _ b = Unit

-- Every method is a run of changes, on every branch and whatever the callbacks do.
pub perform-Steps :
    (env : Env) (now : ℕ) (op : Operation) (b : Broker)
    → Inv b
    → Allowed op b
    → Steps b (perform env now op b)
unfolding perform
perform-Steps env now (mints sid i) b v h = mint-Steps env now sid i b h
perform-Steps env now (asks i) b v h = status-Steps env now i b
perform-Steps env now (asks_agent agent) b v h = status_for_agent-Steps env now agent b
perform-Steps env now (debugs sid) b v h = debug-Steps env now sid b
perform-Steps env now (ends_current i o) b v h = end_current-Steps env now i o b v
perform-Steps env now (ends_agent agent) b v h = end_for_agent-Steps env now agent b v
perform-Steps env now (observes_current i o) b v h = observe_current-Steps env now i o b
perform-Steps env now (pages sid method email) b v h = public_page-Steps env now sid method email b
perform-Steps env now (extends sid email) b v h = extend-Steps now sid email b
perform-Steps env now (ends sid email) b v h = end_session-Steps env now sid email b v
perform-Steps env now (confirms sid email) b v h = confirm_takeover-Steps now sid email b
perform-Steps env now (acquires sid email) b v h = acquire_takeover-Steps env now sid email b
perform-Steps env now (reacquires sid email) b v h =
    acquire_takeover_if_current-Steps env now sid email b
perform-Steps env now (releases sid email) b v h = release_to_observe-Steps env now sid email b
perform-Steps env now (attaches sid closer preflight) b v h =
    attach_socket-Steps env now sid closer preflight b
perform-Steps env now (detaches sid closer) b v h = detach_socket-Steps sid closer b
perform-Steps env now (runs sid later) b v h = run_while_active-Steps env now later sid b
perform-Steps env now (forwards sid) b v h = forward_viewer_rfb-Steps env now sid b
perform-Steps env now (sends sid later) b v h = send_viewer_input-Steps env now later sid b
perform-Steps env now reaps b v h = expire_sessions-Steps env now b v
perform-Steps env now (finishes sid) b v h = run_spawned-Steps env now sid b v h
perform-Steps env now (reloads principals) b v h = replace_principals-Steps env now principals b

-- Requests one after the other, each with its own environment and time.
pub data History (b : Broker) : Broker → Type 0 where
  start : History b b
  next :
      {c : Broker} (env : Env) (now : ℕ) (op : Operation)
      → History b c
      → Allowed op c
      → History b (perform env now op c)

pub History-Steps : {b c : Broker} → Inv b → History b c → Steps b c
History-Steps v start = done
History-Steps v (next env now op h allowed) =
    let p = History-Steps v h in Steps-trans p (perform-Steps env now op _ (Steps-Inv p v) allowed)

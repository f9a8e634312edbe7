-- ===== src/Broker/Examples.antt =====
-- A broker with one principal, and each result at work on it.
pub mod Histories
pub mod Requests
use hermes_fleet.Prelude.{
  ℕ, ◌≡◌, ◌≢◌, refl, sym, Bool, true, false, Option, none, some, List, [], ◌∷◌, ◌++◌, All, arith,
  list_eq, nat_eq, pair_eq, length, ◌≤◌, ◌<◌, ◌↔◌,
}
use hermes_fleet.Prelude.Dict
use hermes_fleet.Prelude.Text.{Text, codes}
use hermes_fleet.Broker.Types.{
  State, pending, active, ended, Mode, takeover, observe, Session, Broker, Env, Invocation,
  AccessPrincipal, Minted, Answer, returned, init,
}
use hermes_fleet.Broker.Exec.{ok, raise, broker_error}
use hermes_fleet.Broker.Handoff.{mint, minted, new_session, insert_session, resource_key}
use hermes_fleet.Broker.Operation.{History, start, next, perform, mints, ends}

abbrev pub ada : Text
ada = codes "ada"

abbrev pub email : Text
email = codes "a@b.c"

abbrev pub session_1 : Text
session_1 = codes "s1"

abbrev pub slack_thread : Invocation
slack_thread = record {
  profile = ada;
  platform = codes "slack";
  user_id = codes "u";
  chat_id = codes "c";
  thread_id = codes "t";
  chat_type = codes "group";
  scope_id = codes "team";
  browser_control_provider = [];
  browser_control_subject = [];
  browser_workspace_id = [];
}

abbrev pub principal : AccessPrincipal
principal = record {
  principal_id = codes "p";
  access_email = email;
  routes = (codes "slack", (codes "u", some (codes "team"))) ∷ [];
  agents = ada ∷ [];
  group_routes = [];
  desktop_routes = [];
  browser_workspaces = codes "default" ∷ [];
}

abbrev pub env : Env
env = record {
  public_url = codes "https://h";
  sha256_hex = λ t. t;
  closer_returns = λ c. true;
  preflight = λ c. some true;
  on_transition = none;
  on_transition_legacy = λ a s t. returned tt;
  on_terminal = some (λ a w t. returned (some (codes "saved")));
  on_terminal_legacy = λ a t. returned none;
  on_observe = some (λ a w s. returned (some (codes "saved")));
  on_observe_legacy = λ a s. returned none;
  on_hold_status = λ a. none;
  on_policy_revoked = none;
  acquire_returns = λ a. true;
  action_returns = λ a. true;
}

abbrev pub principals : List AccessPrincipal
principals = principal ∷ []

abbrev pub workspaces : List Text
workspaces = codes "default" ∷ []

abbrev pub fresh : Broker
fresh = init principals 900 ada workspaces 8 60

-- The session that a mint at time 100 makes.
unfoldable pub minted_session : Session
unfolding new_session
minted_session = new_session 100 900 session_1 principal slack_thread

-- The same one, opened, in takeover, with a viewer.
unfoldable pub open_session : Session
unfolding minted_session
open_session = record minted_session {
  state = active;
  takeover_confirmed = true;
  mode = takeover;
  sockets = 7 ∷ [];
  socket_preflights = (7, 9) ∷ [];
}

unfoldable pub opened : Broker
unfolding init open_session
opened = record fresh {
  sessions = (session_1, open_session) ∷ [];
  active_by_agent = ((ada, codes "default"), session_1) ∷ [];
}

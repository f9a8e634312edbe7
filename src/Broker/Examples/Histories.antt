-- ===== src/Broker/Examples/Histories.antt =====
-- What holds after histories, at the broker of one principal.
use hermes_fleet.Prelude.{
  ◌≡◌, ◌+◌, ◌≤◌, ◌<◌, refl, [], none, true, false, some, arith, list_eq, nat_eq, pair_eq, option_eq,
}
use hermes_fleet.Prelude.Dict
use hermes_fleet.Prelude.Text.{codes, strip, lower, is_space, lstrip, lower_code}
use hermes_fleet.Broker.Types.{
  ended, is_terminal, is_live, is_finished, Session, Broker, init, clamp_ttl,
}
use hermes_fleet.Broker.Exec.{ok, update_session, emit}
use hermes_fleet.Broker.Policy.{
  owner, workspace_of, agent_allowed, desktop_matches, route_matches, workspace_allowed,
  chat_allowed, grant_desktop, grant_chat, find_principal, authorized_principal_from,
  authorized_principal,
}
use hermes_fleet.Broker.Terminal.{
  prune_terminal, prune_from, terminate, begin_terminal, enter_ending, close_all, drop_socket,
  call_transition, call_terminal, release_key, mark_finished, settle, run_callbacks,
  finish_terminal, finish_session,
}
use hermes_fleet.Broker.Handoff.{mint, mint_found, minted, new_session, insert_session, session_url}
use hermes_fleet.Broker.Viewer.{public_session, end_session}
use hermes_fleet.Broker.Invariant.Kept.{Inv, key_of}
use hermes_fleet.Broker.Operation.{mints, ends, perform, Allowed, History, start, next}
use hermes_fleet.Broker.Safety.{
  History-Inv, one_owner, live_lifetime, finished_closed, perform-index,
}
use hermes_fleet.Broker.Mints.{Holding, mint-Holding}
use hermes_fleet.Broker.Examples.{
  ada, email, session_1, slack_thread, principals, workspaces, env, fresh, minted_session,
}

unfoldable after_mint : Broker
after_mint = perform env 100 (mints session_1 slack_thread) fresh

fresh-Inv : Inv fresh
fresh-Inv = History-Inv principals 900 ada workspaces 8 60 start

mint-Allowed : Allowed (mints session_1 slack_thread) fresh
unfolding init Dict.get
mint-Allowed = refl

minting : History fresh after_mint
unfolding after_mint
minting = next env 100 (mints session_1 slack_thread) start mint-Allowed

minted_stored : Dict.get after_mint.sessions session_1 ≡ some minted_session
unfolding after_mint perform init clamp_ttl mint mint_found prune_terminal prune_from
    authorized_principal authorized_principal_from agent_allowed find_principal desktop_matches
    route_matches workspace_allowed workspace_of chat_allowed grant_desktop grant_chat new_session
    minted_session owner insert_session minted session_url Dict.get Dict.put Dict.remove
minted_stored = refl

minted_open : is_terminal minted_session.state ≡ false
unfolding minted_session new_session
minted_open = refl

one_owner_example : session_1 ≡ session_1
one_owner_example =
    one_owner principals 900 ada workspaces 8 60 session_1 session_1 minted_session minted_session
      minting minted_stored minted_stored minted_open minted_open refl

minted_live : is_live minted_session.state ≡ true
unfolding minted_session new_session
minted_live = refl

live_lifetime_example : minted_session.expires_at ≤ minted_session.created_at + 1800
live_lifetime_example =
    live_lifetime principals 900 ada workspaces 8 60 session_1 minted_session minting minted_stored
      minted_live

mint_returns : (mint env 100 session_1 slack_thread fresh).0 ≡ ok (minted env minted_session)
unfolding after_mint perform init clamp_ttl mint mint_found prune_terminal prune_from
    authorized_principal authorized_principal_from agent_allowed find_principal desktop_matches
    route_matches workspace_allowed workspace_of chat_allowed grant_desktop grant_chat new_session
    minted_session owner insert_session minted session_url Dict.get Dict.put Dict.remove
mint_returns = refl

lease_positive : 0 < fresh.ttl
unfolding init clamp_ttl
lease_positive = omega arith

mint-Holding_example :
    Holding 100 slack_thread
      (minted env minted_session)
      (mint env 100 session_1 slack_thread fresh).1
mint-Holding_example =
    mint-Holding env 100 session_1 slack_thread fresh (minted env minted_session) fresh-Inv
      lease_positive mint_returns

minted_performed :
    Dict.get (perform env 100 (mints session_1 slack_thread) fresh).sessions session_1
    ≡ some minted_session
unfolding after_mint
minted_performed = minted_stored

perform-index_example :
    (minted_session.session_id ≡ session_1)
    × (Dict.get
          (perform env 100 (mints session_1 slack_thread) fresh).active_by_agent
          (key_of minted_session)
        ≡ some session_1)
perform-index_example =
    perform-index env 100 (mints session_1 slack_thread) fresh session_1 minted_session fresh-Inv
      mint-Allowed minted_performed minted_open

-- The session is ended by the viewer at time 200.
unfoldable after_end : Broker
after_end = perform env 200 (ends session_1 email) after_mint

ending : History fresh after_end
unfolding after_end
ending = next env 200 (ends session_1 email) minting tt

unfoldable ended_session : Session
unfolding minted_session
ended_session = record minted_session {
  state = ended;
  terminal_target = ended;
  checkpoint_outcome = some (codes "saved");
}

ended_stored : Dict.get after_end.sessions session_1 ≡ some ended_session
unfolding after_end after_mint ended_session end_session public_session strip lower is_space lstrip
    lower_code terminate begin_terminal enter_ending close_all drop_socket call_transition
    call_terminal release_key mark_finished settle run_callbacks finish_terminal finish_session
    update_session emit perform init clamp_ttl mint mint_found prune_terminal prune_from
    authorized_principal authorized_principal_from agent_allowed find_principal desktop_matches
    route_matches workspace_allowed workspace_of chat_allowed grant_desktop grant_chat new_session
    minted_session owner insert_session minted session_url Dict.get Dict.put Dict.remove
ended_stored = refl

ended_finished : is_finished ended_session.state ≡ true
unfolding ended_session
ended_finished = refl

finished_closed_example : (ended_session.sockets ≡ []) × (ended_session.expiry_timer ≡ none)
finished_closed_example =
    finished_closed principals 900 ada workspaces 8 60 session_1 ended_session ending ended_stored
      ended_finished

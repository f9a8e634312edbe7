-- ===== src/Broker/Examples/Requests.antt =====
-- What single requests do, at the session that is opened in takeover.
use hermes_fleet.Prelude.{
  ◌≡◌, ◌≢◌, refl, sym, ◌∙◌, ap, true, some, List, [], ◌∷◌, ◌++◌, All, arith, list_eq, nat_eq,
  pair_eq, option_eq, length, ◌↔◌,
}
use hermes_fleet.Prelude.Dict
use hermes_fleet.Prelude.Text.{Text, codes, strip, lower, is_space, lstrip, lower_code, is_nonempty}
use hermes_fleet.Broker.Types.{ended, takeover, Session, Broker, AccessPrincipal, Event, init}
use hermes_fleet.Broker.Exec.{ok, raise, raises, emit}
use hermes_fleet.Broker.Policy.{
  owner, workspace_of, agent_allowed, desktop_matches, route_matches, workspace_allowed,
  chat_allowed, grant_desktop, grant_chat, find_principal, authorized_principal_from,
}
use hermes_fleet.Broker.Terminal.{begin_terminal}
use hermes_fleet.Broker.Handoff.{new_session}
use hermes_fleet.Broker.Viewer.{
  public_session, human_may_connect, is_active, viewer_may_send_input, send_viewer_input,
  call_observe, preflights_pass, release_to_observe, public_page, extend, end_session,
  confirm_takeover, acquire_takeover, acquire_takeover_if_current,
}
use hermes_fleet.Broker.Reload.{
  replace_principals, publish, mark_revoking, revokes, still_allowed, affected, revoke_all,
  finish_revoked,
}
use hermes_fleet.Broker.Steps.Reloads.{IsReloadEvent}
use hermes_fleet.Broker.Invariant.Kept.{key_of}
use hermes_fleet.Broker.Revocation.{reload_admits, reload_never_releases}
use hermes_fleet.Broker.Access.{Chosen, authorized_iff}
use hermes_fleet.Broker.Fence.{
  input_fenced, input_only_in_takeover, Released, release-Released, released_no_input,
}
use hermes_fleet.Broker.Outcomes.{
  wrong_principal, stranger_refused, revoking_may_end, revoked_workspace_stays,
}
use hermes_fleet.Broker.Examples.{
  ada, email, session_1, slack_thread, principal, principals, env, fresh, minted_session,
  open_session, opened,
}

reloaded_stored :
    Dict.get (replace_principals env 200 principals opened).1.sessions session_1 ≡ some open_session
unfolding replace_principals publish mark_revoking revokes still_allowed affected revoke_all opened
    open_session minted_session new_session Dict.get init authorized_principal_from agent_allowed
    find_principal desktop_matches route_matches workspace_allowed workspace_of grant_desktop
    grant_chat chat_allowed owner lower lower_code
reloaded_stored = refl

open_connects : human_may_connect 300 open_session ≡ true
unfolding human_may_connect open_session minted_session new_session
open_connects = refl

reload_admits_example :
    (p : AccessPrincipal) × (authorized_principal_from opened principals open_session.invocation
      ≡ ok p)
    × (p.principal_id ≡ open_session.principal_id)
    × (lower p.access_email ≡ open_session.access_email)
reload_admits_example =
    reload_admits env 200 principals opened session_1 open_session 300 reloaded_stored open_connects

-- The new policy is empty here.
reload_never_releases_example :
    (calls : List Event) × ((replace_principals env 200 [] opened).1.events
      ≡ opened.events ++ calls)
    × All IsReloadEvent calls
reload_never_releases_example = reload_never_releases env 200 [] opened

authorized_iff_example :
    (authorized_principal_from fresh principals slack_thread ≡ ok principal) ↔ (
      (agent_allowed fresh slack_thread.profile ≡ true)
      × Chosen fresh principals slack_thread principal)
authorized_iff_example = authorized_iff fresh principals slack_thread principal

sent_something : (send_viewer_input env 300 301 session_1 opened).1 ≢ opened
unfolding opened viewer_may_send_input open_session minted_session new_session init
    human_may_connect Dict.get emit
sent_something p =
    let same = sym (input_fenced env 300 301 session_1 opened) ∙ p in
    let counted : 1 ≡ 0 = ap (λ (b : Broker). length b.events) same in omega (arith, counted)

input_only_in_takeover_example :
    (s : Session) × (Dict.get opened.sessions session_1 ≡ some s)
    × (human_may_connect 300 s ≡ true)
    × (s.mode ≡ takeover)
input_only_in_takeover_example = input_only_in_takeover env 300 301 session_1 opened sent_something

released : (release_to_observe env 300 session_1 email opened).0 ≡ ok (some (codes "saved"))
unfolding release_to_observe public_session human_may_connect is_active call_observe preflights_pass
    opened open_session minted_session new_session init Dict.get strip lower is_space lstrip
    lower_code emit
released = refl

release-Released_example :
    Released env 300 session_1 email opened (release_to_observe env 300 session_1 email opened).1
release-Released_example =
    release-Released env 300 session_1 email opened (some (codes "saved")) released

released_no_input_example :
    let c = (release_to_observe env 300 session_1 email opened).1 in
    ((send_viewer_input env 310 311 session_1 c).1 ≡ c)
    × (raises (send_viewer_input env 310 311 session_1 c).0 ≡ true)
released_no_input_example =
    released_no_input env 300 session_1 email opened env (some (codes "saved")) 310 311 released

abbrev stranger : Text
stranger = codes "xx@y.z"

opened_stored : Dict.get opened.sessions session_1 ≡ some open_session
unfolding opened Dict.get
opened_stored = refl

stranger_known : is_nonempty (strip stranger) ≡ true
unfolding strip is_space lstrip
stranger_known = refl

stranger_other : lower (strip stranger) ≢ open_session.access_email
unfolding strip is_space lstrip lower lower_code open_session minted_session new_session
stranger_other p = let counted : 6 ≡ 5 = ap length p in omega (arith, counted)

stranger_refused_example :
    (public_page env 300 session_1 (codes "GET") stranger opened ≡ (raise wrong_principal, opened))
    × (extend 300 session_1 stranger opened ≡ (raise wrong_principal, opened))
    × (end_session env 300 session_1 stranger opened ≡ (raise wrong_principal, opened))
    × (confirm_takeover 300 session_1 stranger opened ≡ (raise wrong_principal, opened))
    × (acquire_takeover env 300 session_1 stranger opened ≡ (raise wrong_principal, opened))
    × (acquire_takeover_if_current env 300 session_1 stranger opened
        ≡ (raise wrong_principal, opened))
    × (release_to_observe env 300 session_1 stranger opened ≡ (raise wrong_principal, opened))
stranger_refused_example =
    stranger_refused env 300 session_1 stranger opened open_session opened_stored stranger_known
      stranger_other (codes "GET")

withdrawn : revokes opened [] open_session ≡ true
unfolding revokes still_allowed authorized_principal_from agent_allowed find_principal opened
    open_session minted_session new_session init
withdrawn = refl

revoking_may_end_example : (begin_terminal session_1 ended true (publish [] opened)).0 ≡ ok true
revoking_may_end_example = revoking_may_end [] opened session_1 open_session opened_stored withdrawn

-- The session of a second workspace.
unfoldable bench_session : Session
unfolding open_session
bench_session = record open_session { browser_workspace_id = codes "bench" }

unfoldable bench : Broker
unfolding opened
bench = record opened {
  sessions = (session_1, bench_session) ∷ [];
  active_by_agent = ((ada, codes "bench"), session_1) ∷ [];
}

bench_held : Dict.get bench.active_by_agent (key_of bench_session) ≡ some session_1
unfolding bench bench_session opened open_session minted_session new_session init Dict.get
bench_held = refl

bench_other : bench_session.browser_workspace_id ≢ codes "default"
unfolding bench_session
bench_other p = cc

revoked_workspace_stays_example :
    Dict.get
      (finish_revoked 300 session_1 bench_session bench).active_by_agent
      (key_of bench_session)
    ≡ some session_1
revoked_workspace_stays_example =
    revoked_workspace_stays 300 session_1 bench_session bench bench_held bench_other

-- ===== src/Origin/Examples.antt =====
-- One agent with two workspaces, one of them with a name that is also a state.
use hermes_fleet.Prelude.{
  ◌≡◌, ◌≢◌, refl, ap, arith, length, true, false, contains, none, some, List, [], ◌∷◌, nat_eq,
  list_eq, list_beq_iff,
}
use mathlib.Core.Bool.{false≢true}
use hermes_fleet.Prelude.Dict
use hermes_fleet.Prelude.Text.{Text, codes, strip, lstrip, is_space}
use hermes_fleet.Origin.Settings.{Resolver, resolve_single_bind}
use hermes_fleet.Broker.Exec.{ok}
use hermes_fleet.Origin.Routing.{Route, Tables, route_for, route_key, default_name}
use hermes_fleet.Origin.Lock.{
  World, Service, response, without, unlink, outcome_of, checkpoint_before_end, released_workspace,
  release_workspace, checkpoint_then_release, Gone, removed-Gone,
}
use hermes_fleet.Origin.Lifecycle.{
  Held, Call, transitions, retains, finishes, run, reports_recovery, inherited_stays, revoked_stays,
  legacy_name_keeps_lock,
}

abbrev ada : Text
ada = codes "ada"

abbrev bench : Text
bench = codes "observe"

abbrev tables : Tables
tables = record {
  upstreams = (ada, codes "h:1") ∷ (codes "ada/observe", codes "h:2") ∷ [];
  lock_files = (ada, codes "/l1") ∷ (codes "ada/observe", codes "/lock2") ∷ [];
  checkpoint_urls = (ada, codes "http://c1") ∷ (codes "ada/observe", codes "http://c2") ∷ [];
  environ = [];
}

abbrev saves : Service
saves = λ url posts. response 200

abbrev locked : World
locked = record { files = codes "/l1" ∷ codes "/lock2" ∷ []; posts = [] }

lock_gone :
    contains
      (codes "/l1")
      (checkpoint_then_release saves tables ada default_name (codes "ended") locked).1.files
    ≡ false
unfolding checkpoint_then_release release_workspace released_workspace checkpoint_before_end
    outcome_of route_for route_key Dict.get unlink without
lock_gone = refl

removed-Gone_example :
    Gone saves
      (codes "/l1")
      locked.posts
      (route_for tables ada (released_workspace default_name (codes "ended")))
removed-Gone_example =
    removed-Gone saves tables ada default_name (codes "ended") locked (codes "/l1") refl lock_gone

abbrev default_route : Route
default_route = record {
  upstream = codes "h:1";
  lock = codes "/l1";
  checkpoint = codes "http://c1";
}

routed : route_for tables ada (released_workspace default_name (codes "ended")) ≡ ok default_route
unfolding released_workspace route_for route_key Dict.get
routed = refl

another : codes "/lock2" ≢ default_route.lock
another p = let counted : 6 ≡ 3 = ap length p in omega (arith, counted)

-- An idle expiry, and an end that no takeover stands behind.
abbrev idle : List Call
idle =
    finishes ada (codes "expired")
    ∷ transitions ada (codes "s1") (codes "ended") false
    ∷ finishes ada (codes "ended")
    ∷ []

inherited_stays_example :
    let start : Held = record {
      lifecycle = record {
        agent = ada;
        workspace = default_name;
        inherited = true;
        eligible_session = none;
      };
      world = locked;
    } in
    ((run saves tables idle start).world ≡ locked)
    × (reports_recovery ada (run saves tables idle start).lifecycle ≡ true)
inherited_stays_example =
    inherited_stays saves tables ada default_name locked idle (refl, (refl, (refl, tt)))

-- A session that was eligible before the revocation.
abbrev eligible : Held
eligible = record {
  lifecycle = record {
    agent = ada;
    workspace = default_name;
    inherited = true;
    eligible_session = some (codes "s1");
  };
  world = locked;
}

revoked_stays_example :
    let after = run saves tables (retains ada ∷ finishes ada (codes "ended") ∷ []) eligible in
    (after.world ≡ locked) × (reports_recovery ada after.lifecycle ≡ true)
revoked_stays_example =
    revoked_stays saves tables eligible (finishes ada (codes "ended") ∷ []) (refl, tt)

routes_differ : codes "/lock2" ≢ codes "/l1"
routes_differ e = false≢true ((list_beq_iff (codes "/lock2") (codes "/l1")).1 e)

legacy_name_keeps_lock_example :
    contains
      (codes "/lock2")
      (checkpoint_then_release saves tables ada bench (codes "ended") locked).1.files
    ≡ true
unfolding route_for route_key Dict.get
legacy_name_keeps_lock_example =
    legacy_name_keeps_lock saves tables ada bench locked
      (record { upstream = codes "h:2"; lock = codes "/lock2"; checkpoint = codes "http://c2" })
      (record { upstream = codes "h:1"; lock = codes "/l1"; checkpoint = codes "http://c1" }) refl
      refl refl routes_differ refl

abbrev resolver : Resolver
resolver = λ name. some (codes "10.0.0.7" ∷ codes "10.0.0.7" ∷ [])

binds : resolve_single_bind resolver (codes " broker ") ≡ some (codes "10.0.0.7")
unfolding resolve_single_bind strip lstrip is_space
binds = refl

-- ===== src/Broker/Steps/Expiry.antt =====
-- The callers of `begin_terminal` and `finish_session`, as runs of sections.
use hermes_fleet.Prelude.{
  ℕ, ◌≡◌, refl, Bool, true, false, Option, none, some, List, [], ◌∷◌, if_cases, if◌then◌else◌,
  list_eq, nat_eq, remove_first,
}
use hermes_fleet.Prelude.Dict
use hermes_fleet.Prelude.Text.{Text}
use hermes_fleet.Broker.Types.{State, expired, is_finished, Session, Broker, Env}
use hermes_fleet.Broker.Exec.{ok, Exec, pure, ◌>>=◌}
use hermes_fleet.Broker.Terminal.{
  begin_terminal, finish_session, terminate, expiry_due, begin_expiry, expire_found,
  expire_in_background, finish_quietly, run_spawned, expire_now, expire_all, expire_sessions,
}
use hermes_fleet.Broker.Steps.{Section, prunes, spawns, done, Steps-trans, one}
use hermes_fleet.Broker.Steps.Rules.{RunsAt, bind-Steps, if-Steps}
use hermes_fleet.Broker.Invariant.Kept.{Inv, Steps-Inv}
use hermes_fleet.Broker.Steps.Ending.{
  EndingAt, begin_terminal-Steps, begin_terminal-EndingAt, finish_session-Steps, handle-Steps,
}

-- What starts an end: it runs sections, and where it returns true the session is ending.
pub record Starts (sid : Text) (m : Exec Bool) (b : Broker) : Type 0 where
  pub runs : RunsAt m b
  pub started : (m b).0 ≡ ok true → EndingAt sid (m b).1

begin_terminal-Starts :
    (sid : Text) (target : State) (explicit_end : Bool) (b : Broker)
    → is_finished target ≡ true
    → Starts sid (begin_terminal sid target explicit_end) b
begin_terminal-Starts sid target explicit_end b fin = record {
  runs = begin_terminal-Steps sid target explicit_end b fin;
  started = begin_terminal-EndingAt sid target explicit_end b fin;
}

begin_expiry-Starts : (now : ℕ) (sid : Text) (b : Broker) → Starts sid (begin_expiry now sid) b
unfolding begin_expiry
begin_expiry-Starts now sid b =
    let g = go (Dict.get b.sessions sid) in record { runs = g.runs; started = g.started }
  where
    go : (o : Option Session) → Starts sid (expire_found now o sid) b
    go none = record { runs = done; started = λ h. cc }
    go (some s) =
        if_cases (λ m. Starts sid m b) (expiry_due now s) _ _
          (λ t. begin_terminal-Starts sid expired false b refl)
          (λ t. record { runs = done; started = λ h. cc })

-- Start, then finish if it started: `terminate` and `expire_now`.
start-Steps :
    (sid : Text) (m : Exec Bool) (k : Exec (Unit {0})) (b : Broker)
    → Inv b
    → Starts sid m b
    → ((c : Broker) → Inv c → EndingAt sid c → RunsAt k c)
    → RunsAt (do begun ← m; if begun then k else pure tt) b
start-Steps sid m k b v s finish =
    bind-Steps m (λ begun. if begun then k else pure tt) b s.runs
      λ begun h.
        if-Steps begun k (pure tt) _ (λ t. finish _ (Steps-Inv s.runs v) (s.started (rw t at h)))
          (λ t. done)

-- An explicit end, and any other, is a run of sections.
pub terminate-Steps :
    (env : Env) (now : ℕ) (sid : Text) (target : State) (explicit_end : Bool) (b : Broker)
    → is_finished target ≡ true
    → Inv b
    → RunsAt (terminate env now sid target explicit_end) b
unfolding terminate
terminate-Steps env now sid target explicit_end b fin v =
    start-Steps sid _ (finish_session env now sid) b v
      (begin_terminal-Starts sid target explicit_end b fin) (finish_session-Steps env now sid)

finish_quietly-Steps :
    (env : Env) (now : ℕ) (sid : Text) (b : Broker)
    → Inv b
    → EndingAt sid b
    → RunsAt (finish_quietly env now sid) b
unfolding finish_quietly
finish_quietly-Steps env now sid b v h =
    handle-Steps (finish_session env now sid b).0 (λ e. pure tt) b _
      (finish_session-Steps env now sid b v h) (λ e x. done)

pub expire_in_background-Steps :
    (now : ℕ) (sid : Text) (b : Broker) → RunsAt (expire_in_background now sid) b
unfolding expire_in_background
expire_in_background-Steps now sid b =
    bind-Steps (begin_expiry now sid) _ b (begin_expiry-Starts now sid b).runs
      λ begun h. if-Steps begun _ (pure tt) _ (λ t. one (spawns _ _)) (λ t. done)

pub expire_now-Steps :
    (env : Env) (now : ℕ) (sid : Text) (b : Broker) → Inv b → RunsAt (expire_now env now sid) b
unfolding expire_now
expire_now-Steps env now sid b v =
    start-Steps sid _ (finish_quietly env now sid) b v (begin_expiry-Starts now sid b)
      (finish_quietly-Steps env now sid)

-- The background thread, on a session that is ending.
pub run_spawned-Steps :
    (env : Env) (now : ℕ) (sid : Text) (b : Broker)
    → Inv b
    → EndingAt sid b
    → RunsAt (run_spawned env now sid) b
unfolding run_spawned
run_spawned-Steps env now sid b v h =
    let first : Section b (record b { spawned = remove_first sid b.spawned }) = spawns _ b in
    Steps-trans (one first) (
      finish_quietly-Steps env now sid _ (Steps-Inv (one first) v)
        (record { session = h.session; stored = h.stored; ending = h.ending }))

expire_all-Steps :
    (env : Env) (now : ℕ) (ids : List Text) (b : Broker) → Inv b → RunsAt (expire_all env now ids) b
unfolding expire_all
expire_all-Steps env now [] b v = done
expire_all-Steps env now (sid ∷ rest) b v =
    let first = expire_now-Steps env now sid b v in
    bind-Steps (expire_now env now sid) (λ _. expire_all env now rest) b first
      λ u h. expire_all-Steps env now rest _ (Steps-Inv first v)

-- The reaper.
pub expire_sessions-Steps :
    (env : Env) (now : ℕ) (b : Broker) → Inv b → RunsAt (expire_sessions env now) b
unfolding expire_sessions
expire_sessions-Steps env now b v =
    let first : Section b _ = prunes now b in
    Steps-trans (one first) (expire_all-Steps env now _ _ (Steps-Inv (one first) v))

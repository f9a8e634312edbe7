-- ===== src/Broker/Steps/Controls.antt =====
-- Takeover, Observe, sockets and forwarding, as runs of sections.
use hermes_fleet.Prelude.{
  ℕ, ◌≡◌, inl, inr, Bool, true, false, ◌&&◌, Option, none, some, Bool-cases, if_cases,
  if◌then◌else◌, list_eq, nat_eq,
}
use hermes_fleet.Prelude.Dict
use hermes_fleet.Prelude.Text.{Text}
use hermes_fleet.Broker.Types.{
  is_takeover, Session, Broker, Env, Event, Answer, returned, type_error, broker_raised, raised,
  observe_called, acquire_called, action_called, forwarded, takeover,
}
use hermes_fleet.Broker.Exec.{
  other, Exec, pure, fail, modify, require, ◌>>=◌, ◌>>◌, update_session, emit,
}
use hermes_fleet.Broker.Viewer.{
  human_may_connect, is_active, confirmed, acquire, take_over, acquire_takeover,
  acquire_takeover_if_current, observe_with, call_observe, observe_answer, to_observe,
  release_to_observe, attach_socket, detached, detach_socket, run_action, run_while_active,
  forward_viewer_rfb, send_viewer_input, preflights_pass,
}
use hermes_fleet.Broker.Steps.{
  Change, unchanged, confirms, takes, observes, attaches, drops, Section, emits, changes, done,
  Steps-trans, one,
}
use hermes_fleet.Broker.Steps.Rules.{RunsAt, option-Steps, require-Steps, if-Steps, changes_at}
use Prim.Native.String.{String}
use hermes_fleet.Broker.Steps.Operations.{public-Steps}

-- A call that leaves its trace and may raise, and what follows it.
traced-Steps :
    {B : Type 0} (e : Event) (t : Bool) (m : Exec B) (b : Broker)
    → RunsAt m (emit e b)
    → RunsAt ((do modify (emit e); if t then pure tt else fail other) >> m) b
traced-Steps e t m b p =
    Steps-trans (one (emits e b))
      (if_cases (λ k. RunsAt (k >> m) (emit e b)) t (pure tt) (fail other) (λ _. p) (λ _. done))

traced_last-Steps :
    (e : Event) (t : Bool) (b : Broker)
    → RunsAt (do modify (emit e); if t then pure tt else fail other) b
traced_last-Steps e t b =
    Steps-trans (one (emits e b))
      (if-Steps t (pure tt) (fail other) (emit e b) (λ _. done) (λ _. done))

emit-stored :
    (e : Event) (b : Broker) (sid : Text) (s : Session)
    → Dict.get b.sessions sid ≡ some s
    → Dict.get (emit e b).sessions sid ≡ some s
unfolding emit
emit-stored e b sid s h = h

require_last-Steps :
    (t : Bool) (status : ℕ) (message : String) (b : Broker) → RunsAt (require t status message) b
require_last-Steps true status message b = done
require_last-Steps false status message b = done

acquired :
    (sid : Text) (f : Session → Session) (b : Broker) (s : Session)
    → Dict.get b.sessions sid ≡ some s
    → Change b.ttl s (f s)
    → Section (emit (acquire_called sid) b) (update_session sid f (emit (acquire_called sid) b))
unfolding emit
acquired sid f b s h c = changes_at sid f _ s h c

pub acquire_takeover-Steps :
    (env : Env) (now : ℕ) (sid email : Text) (b : Broker)
    → RunsAt (acquire_takeover env now sid email) b
unfolding acquire_takeover acquire
acquire_takeover-Steps env now sid email b = public-Steps sid email _ b λ s e.
    require-Steps (is_active now sid b) 410 "session ended" _ b λ may.
      traced-Steps (acquire_called sid) (env.acquire_returns sid) _ b
        (one (acquired sid take_over b s e (takes s)))

pub acquire_takeover_if_current-Steps :
    (env : Env) (now : ℕ) (sid email : Text) (b : Broker)
    → RunsAt (acquire_takeover_if_current env now sid email) b
unfolding acquire_takeover_if_current acquire
acquire_takeover_if_current-Steps env now sid email b = public-Steps sid email _ b λ s e.
    require-Steps (is_active now sid b) 410 "session ended" _ b λ may.
      if-Steps (is_takeover s.mode) _ (pure false) b
        (λ t.
          traced-Steps (acquire_called sid) (env.acquire_returns sid) _ b
            (one (acquired sid confirmed b s e (confirms s))))
        (λ t. done)

-- The answer of `on_observe` changes nothing by itself.
observe_answer-Steps :
    (a : Answer (Option Text)) (f : Option Text → Exec (Option Text)) (b : Broker)
    → ((o : Option Text) → RunsAt (f o) b)
    → RunsAt (observe_answer a >>= f) b
observe_answer-Steps (returned o) f b k = k o
observe_answer-Steps type_error f b k = done
observe_answer-Steps (broker_raised n m) f b k = done
observe_answer-Steps raised f b k = done

observe_with-Steps :
    (env : Env) (s : Session) (o : Option (Text → Text → Text → Answer (Option Text)))
    (f : Option Text → Exec (Option Text)) (b : Broker)
    → ((e : Event) (a : Option Text) → RunsAt (f a) (emit e b))
    → RunsAt (observe_with env s o >>= f) b
observe_with-Steps env s none f b k = done
observe_with-Steps env s (some callback) f b k =
    elim (Bool-cases (preflights_pass env (Dict.values s.socket_preflights))) [
      | inl t ↦ rw t (
          Steps-trans (one (emits (observe_called s.session_id) b))
            (observe_answer-Steps _ f _ (λ o. k (observe_called s.session_id) o)))
      | inr t ↦ rw t done
    ]

pub release_to_observe-Steps :
    (env : Env) (now : ℕ) (sid email : Text) (b : Broker)
    → RunsAt (release_to_observe env now sid email) b
unfolding release_to_observe call_observe
release_to_observe-Steps env now sid email b = public-Steps sid email _ b λ s e.
    require-Steps (is_active now sid b) 410 "session ended" _ b λ may.
      if-Steps (is_takeover s.mode) _ (pure s.checkpoint_outcome) b
        (λ t. observe_with-Steps env s env.on_observe _ b λ event o.
          one (changes_at sid (to_observe o) _ s (emit-stored event b sid s e) (observes o s)))
        (λ t. done)

pub attach_socket-Steps :
    (env : Env) (now : ℕ) (sid : Text) (closer : ℕ) (preflight : Option ℕ) (b : Broker)
    → RunsAt (attach_socket env now sid closer preflight) b
unfolding attach_socket
attach_socket-Steps env now sid closer preflight b =
    option-Steps (Dict.get b.sessions sid) 401 "unknown" _ b λ s e.
      if-Steps (human_may_connect now s) _ _ b
        (λ may. one (changes_at sid _ b s e (attaches now closer preflight s may)))
        (λ t.
          Steps-trans (one (emits _ b))
            (if-Steps (env.closer_returns closer) _ _ _ (λ _. done) (λ _. done)))

detached-Change : (ttl closer : ℕ) (s : Session) → Change ttl s (detached closer s)
unfolding detached
detached-Change ttl closer s =
    if_cases (Change ttl s) _ _ s (λ t. drops closer s) (λ t. unchanged s)

pub detach_socket-Steps :
    (sid : Text) (closer : ℕ) (b : Broker) → RunsAt (detach_socket sid closer) b
unfolding detach_socket
detach_socket-Steps sid closer b =
    one (changes sid (detached closer) b (λ s e. detached-Change b.ttl closer s))

pub run_while_active-Steps :
    (env : Env) (now later : ℕ) (sid : Text) (b : Broker)
    → RunsAt (run_while_active env now later sid) b
unfolding run_while_active run_action
run_while_active-Steps env now later sid b =
    option-Steps (Dict.get b.sessions sid) 404 "unknown session" _ b λ s e.
      require-Steps (human_may_connect now s) 410 "session ended" _ b λ may.
        traced-Steps (action_called sid) (env.action_returns sid) _ b (require_last-Steps _ _ _ _)

pub forward_viewer_rfb-Steps :
    (env : Env) (now : ℕ) (sid : Text) (b : Broker) → RunsAt (forward_viewer_rfb env now sid) b
unfolding forward_viewer_rfb run_action
forward_viewer_rfb-Steps env now sid b =
    option-Steps (Dict.get b.sessions sid) 404 "unknown session" _ b λ s e.
      require-Steps (human_may_connect now s) 410 "session ended" _ b
        λ may. traced_last-Steps (forwarded sid s.mode) (env.action_returns sid) b

pub send_viewer_input-Steps :
    (env : Env) (now later : ℕ) (sid : Text) (b : Broker)
    → RunsAt (send_viewer_input env now later sid) b
unfolding send_viewer_input run_action
send_viewer_input-Steps env now later sid b =
    option-Steps (Dict.get b.sessions sid) 404 "unknown session" _ b λ s e.
      require-Steps (human_may_connect now s && is_takeover s.mode) 410 "viewer is observe-only" _ b
        λ may.
          traced-Steps (forwarded sid takeover) (env.action_returns sid) _ b
            (require_last-Steps _ _ _ _)

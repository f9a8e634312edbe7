-- ===== src/Broker/Steps/Ending.antt =====
-- How a session ends, as runs of sections: `begin_terminal`, `finish_session` and their callers.
use hermes_fleet.Prelude.{
  ℕ, ◌≡◌, refl, inl, inr, Bool, true, false, Option, none, some, List, [], ◌∷◌, Option-cases,
  if_cases, arith, list_eq, nat_eq,
}
use hermes_fleet.Prelude.Dict
use hermes_fleet.Prelude.Text.{Text}
use hermes_fleet.Broker.Types.{
  State, is_terminal, is_ending, is_finished, Session, Broker, Env, Event, closer_called, Answer,
  returned, type_error, broker_raised, raised,
}
use hermes_fleet.Broker.Exec.{
  Exn, Result, ok, raise, other, Exec, pure, fail, refuse, modify, then_run, ◌>>=◌, ◌>>◌, handle,
  update_session, emit,
}
use hermes_fleet.Broker.Terminal.{
  enter_ending, begin_terminal, begin_found, drop_socket, close_all, answer, transition_with,
  terminal_with, call_transition, call_terminal, settle, mark_recovery, run_callbacks,
  finish_terminal, finish_session,
}
use hermes_fleet.Broker.Steps.{
  drops, begins, recovers, Section, emits, settles, Steps, done, step, Steps-trans, one,
}
use hermes_fleet.Broker.Steps.Rules.{RunsAt, if-Steps, changes_at}
use hermes_fleet.Broker.Invariant.Store.{get-update_session_self}
use hermes_fleet.Broker.Invariant.Kept.{Inv}

-- The session is stored and ending.
pub record EndingAt (sid : Text) (b : Broker) : Type 0 where
  pub session : Session
  pub stored : Dict.get b.sessions sid ≡ some session
  pub ending : is_ending session.state ≡ true

module _ (sid : Text) (target : State) (explicit_end : Bool) (b : Broker)
    (fin : is_finished target ≡ true) where
  begun-Steps :
      (s : Session)
      → Dict.get b.sessions sid ≡ some s
      → RunsAt (begin_found (some s) sid target explicit_end) b
  begun-Steps s e =
      if-Steps (is_terminal s.state) (pure false) _ b (λ t. done)
        (λ t.
          if-Steps (is_ending s.state) (refuse 409 "handoff ending") _ b (λ u. done)
            (λ u. one (changes_at sid _ b s e (begins target explicit_end s fin t u))))

  pub begin_terminal-Steps : RunsAt (begin_terminal sid target explicit_end) b
  unfolding begin_terminal
  begin_terminal-Steps = elim (Option-cases (Dict.get b.sessions sid)) [
    | inl e ↦ rw e done
    | inr (s, e) ↦ rw e (begun-Steps s e)
  ]

  begun-EndingAt :
      (s : Session)
      → Dict.get b.sessions sid ≡ some s
      → (begin_found (some s) sid target explicit_end b).0 ≡ ok true
      → EndingAt sid (begin_found (some s) sid target explicit_end b).1
  begun-EndingAt s e =
      if_cases (λ m. (m b).0 ≡ ok true → EndingAt sid (m b).1) (is_terminal s.state) (pure false) _
        (λ t h. cc)
        (λ t.
          if_cases (λ m. (m b).0 ≡ ok true → EndingAt sid (m b).1) (is_ending s.state)
            (refuse 409 "handoff ending") _ (λ u h. cc)
            (λ u h. record {
              session = enter_ending target explicit_end s;
              stored = get-update_session_self sid (enter_ending target explicit_end) b s e;
              ending = unfold enter_ending in refl;
            }))

  -- Where `begin_terminal` returns true the session is ending.
  pub begin_terminal-EndingAt :
      (begin_terminal sid target explicit_end b).0 ≡ ok true
      → EndingAt sid (begin_terminal sid target explicit_end b).1
  unfolding begin_terminal
  begin_terminal-EndingAt = elim (Option-cases (Dict.get b.sessions sid)) [
    | inl e ↦ rw e (λ h. cc)
    | inr (s, e) ↦ rw e (begun-EndingAt s e)
  ]

-- `m` runs sections, and where it raises the session is still ending.
pub record SafeAt (sid : Text) {A : Type 0} (m : Exec A) (b : Broker) : Type 0 where
  pub runs : RunsAt m b
  pub still : (e : Exn) → (m b).0 ≡ raise e → EndingAt sid (m b).1

then_run-SafeAt :
    {A B : Type 0} (sid : Text) (r : Result A) (f : A → Exec B) (b c : Broker)
    → Steps b c
    → ((e : Exn) → r ≡ raise e → EndingAt sid c)
    → ((a : A) → r ≡ ok a → SafeAt sid (f a) c)
    → Steps b (then_run r f c).1
      × ((e : Exn) → (then_run r f c).0 ≡ raise e → EndingAt sid (then_run r f c).1)
then_run-SafeAt sid (ok a) f b c p x k = (Steps-trans p (k a refl).runs, (k a refl).still)
then_run-SafeAt sid (raise e) f b c p x k = (p, λ e' h. x e refl)

bind-SafeAt :
    {A B : Type 0} (sid : Text) (m : Exec A) (f : A → Exec B) (b : Broker)
    → SafeAt sid m b
    → ((a : A) → (m b).0 ≡ ok a → SafeAt sid (f a) (m b).1)
    → SafeAt sid (m >>= f) b
bind-SafeAt sid m f b p k =
    let t = then_run-SafeAt sid (m b).0 f b (m b).1 p.runs p.still k in
    record { runs = t.0; still = t.1 }

-- The sockets that are left, where the session is stored and ending.
record Draining (sid : Text) (cs : List ℕ) (b : Broker) : Type 0 where
  at : EndingAt sid b
  left : at.session.sockets ≡ cs

emit-EndingAt : (sid : Text) (e : Event) (b : Broker) → EndingAt sid b → EndingAt sid (emit e b)
unfolding emit
emit-EndingAt sid e b h = record { session = h.session; stored = h.stored; ending = h.ending }

emit-Draining :
    (sid : Text) (e : Event) (cs : List ℕ) (b : Broker)
    → Draining sid cs b
    → Draining sid cs (emit e b)
unfolding emit-EndingAt
emit-Draining sid e cs b h = record { at = emit-EndingAt sid e b h.at; left = h.left }

drop-Draining :
    (sid : Text) (closer : ℕ) (rest : List ℕ) (b : Broker)
    → Draining sid (closer ∷ rest) b
    → Draining sid rest (update_session sid (drop_socket closer) b)
unfolding drop_socket
drop-Draining sid closer rest b h = record {
  at = record {
    session = drop_socket closer h.at.session;
    stored = get-update_session_self sid (drop_socket closer) b h.at.session h.at.stored;
    ending = h.at.ending;
  };
  left = rw h.left (ground arith);
}

-- What the loop over the closers leaves: it ends with no socket, or raises while still ending.
record Drained (sid : Text) (m : Exec (Unit {0})) (b : Broker) : Type 0 where
  safe : SafeAt sid m b
  empty : (m b).0 ≡ ok tt → Draining sid [] (m b).1

close_all-Drained :
    (env : Env) (sid : Text) (cs : List ℕ) (b : Broker)
    → Draining sid cs b
    → Drained sid (close_all env sid cs) b
unfolding close_all
close_all-Drained env sid [] b h = record {
  safe = record { runs = done; still = λ e x. cc };
  empty = λ x. h;
}
close_all-Drained env sid (closer ∷ rest) b h =
    let at = emit-Draining sid (closer_called closer) (closer ∷ rest) b h in
    let c = emit (closer_called closer) b in
    if_cases (λ m. Drained sid (modify (emit (closer_called closer)) >> m) b)
      (env.closer_returns closer)
      (do modify (update_session sid (drop_socket closer)); close_all env sid rest) (fail other)
      (λ t.
        let more = close_all-Drained env sid rest _ (drop-Draining sid closer rest c at) in
        let dropped : Section c (update_session sid (drop_socket closer) c) =
          changes_at sid _ c at.at.session at.at.stored (drops closer at.at.session) in
        record {
          safe = record {
            runs = Steps-trans (step (one (emits _ b)) dropped) more.safe.runs;
            still = more.safe.still;
          };
          empty = more.empty;
        })
      (λ t. record {
        safe = record { runs = one (emits _ b); still = λ e x. at.at };
        empty = λ x. cc;
      })

-- A callback only leaves its trace; where it raises, nothing else has changed.
call-SafeAt :
    {A : Type 0} (sid : Text) (e : Event) (a : Answer A) (b : Broker)
    → EndingAt sid b
    → SafeAt sid (modify (emit e) >> answer a) b
call-SafeAt sid e (returned a) b h = record { runs = one (emits e b); still = λ x p. cc }
call-SafeAt sid e type_error b h = record {
  runs = one (emits e b);
  still = λ x p. emit-EndingAt sid e b h;
}
call-SafeAt sid e (broker_raised n m) b h = record {
  runs = one (emits e b);
  still = λ x p. emit-EndingAt sid e b h;
}
call-SafeAt sid e raised b h = record {
  runs = one (emits e b);
  still = λ x p. emit-EndingAt sid e b h;
}

answer-state : {A : Type 0} (a : Answer A) (b : Broker) → (answer a b).1 ≡ b
answer-state (returned a) b = refl
answer-state type_error b = refl
answer-state (broker_raised n m) b = refl
answer-state raised b = refl

module _ (env : Env) (s : Session) (sid : Text) where
  -- Both callbacks: `on_transition`, then `on_terminal`.
  record Called {A : Type 0} (m : Exec A) (b : Broker) : Type 0 where
    safe : SafeAt sid m b
    drained : Draining sid [] (m b).1

  traced-Called :
      {A : Type 0} (e : Event) (a : Answer A) (b : Broker)
      → Draining sid [] b
      → Called (modify (emit e) >> answer a) b
  traced-Called e a b h = record {
    safe = call-SafeAt sid e a b h.at;
    drained = rw answer-state (emit-Draining sid e [] b h);
  }

  transition_with-Called :
      (o : Option (Text → Text → Text → State → Answer (Unit {0}))) (b : Broker)
      → Draining sid [] b
      → Called (transition_with env s o) b
  transition_with-Called none b h = record {
    safe = record { runs = done; still = λ x p. cc };
    drained = h;
  }
  transition_with-Called (some f) b h = traced-Called _ _ b h

  call_transition-Called : (b : Broker) → Draining sid [] b → Called (call_transition env s) b
  unfolding call_transition
  call_transition-Called b h = transition_with-Called env.on_transition b h

  terminal_with-Called :
      (o : Option (Text → Text → State → Answer (Option Text))) (b : Broker)
      → Draining sid [] b
      → Called (terminal_with env s o) b
  terminal_with-Called none b h = record {
    safe = record { runs = done; still = λ x p. cc };
    drained = h;
  }
  terminal_with-Called (some f) b h = traced-Called _ _ b h

  call_terminal-Called : (b : Broker) → Draining sid [] b → Called (call_terminal env s) b
  unfolding call_terminal
  call_terminal-Called b h = terminal_with-Called env.on_terminal b h

settle-Section :
    (now : ℕ) (s : Session) (outcome : Option Text) (b : Broker)
    → Draining s.session_id [] b
    → Section b (settle now s outcome b)
settle-Section now s outcome b h =
    settles now s outcome b
      λ t e. let same : h.at.session ≡ t = cc (e, h.at.stored) in rw (← same) (h.at.ending, h.left)

run_callbacks-SafeAt :
    (env : Env) (now : ℕ) (s : Session) (b : Broker)
    → Draining s.session_id [] b
    → SafeAt s.session_id (run_callbacks env now s) b
unfolding run_callbacks
run_callbacks-SafeAt env now s b h =
    let sid = s.session_id in
    let first = call_transition-Called env s sid b h in
    bind-SafeAt sid (call_transition env s) _ b first.safe λ u p.
      let second = call_terminal-Called env s sid _ first.drained in
      bind-SafeAt sid (call_terminal env s) _ _ second.safe λ outcome q. record {
        runs = one (settle-Section now s outcome _ second.drained);
        still = λ e x. cc;
      }

pub handle-Steps :
    {A : Type 0} (r : Result A) (f : Exn → Exec A) (b c : Broker)
    → Steps b c
    → ((e : Exn) → r ≡ raise e → RunsAt (f e) c)
    → Steps b (handle r f c).1
handle-Steps (ok a) f b c p k = p
handle-Steps (raise e) f b c p k = Steps-trans p (k e refl)

-- `_finish_terminal` on an ending session is a run of sections, whatever the callbacks do.
finish_terminal-Steps :
    (env : Env) (now : ℕ) (s : Session) (b : Broker)
    → Dict.get b.sessions s.session_id ≡ some s
    → is_ending s.state ≡ true
    → RunsAt (finish_terminal env now s) b
unfolding finish_terminal
finish_terminal-Steps env now s b e en =
    let sid = s.session_id in
    let at : Draining sid s.sockets b = record {
      at = record { session = s; stored = e; ending = en };
      left = refl;
    } in
    let loop = close_all-Drained env sid s.sockets b at in
    let body : SafeAt sid (do close_all env sid s.sockets; run_callbacks env now s) b =
      bind-SafeAt sid (close_all env sid s.sockets) _ b loop.safe
        λ u p. run_callbacks-SafeAt env now s _ (loop.empty p) in
    handle-Steps _ _ b _ body.runs λ x p.
      let left = body.still x p in
      one (
        changes_at sid (mark_recovery now) _ left.session left.stored
          (recovers now left.session left.ending))

pub finish_session-Steps :
    (env : Env) (now : ℕ) (sid : Text) (b : Broker)
    → Inv b
    → EndingAt sid b
    → RunsAt (finish_session env now sid) b
unfolding finish_session
finish_session-Steps env now sid b v h =
    let named : h.session.session_id ≡ sid = (v.entry sid h.session h.stored).named in
    rw (h.stored, finish_session)
      (finish_terminal-Steps env now h.session b (cc (named, h.stored)) h.ending)

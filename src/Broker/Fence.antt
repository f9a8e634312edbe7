-- ===== src/Broker/Fence.antt =====
-- Viewer input and the automation fence: `send_viewer_input`, `forward_viewer_rfb`, `release_to_observe`.
use hermes_fleet.Prelude.{
  ℕ, ◌≡◌, ◌≢◌, refl, sym, inl, inr, true, false, ◌&&◌, Option, none, some, arith, list_eq, nat_eq,
  if◌then◌else◌, if_cases, Bool-cases, Option-cases, &&-left, &&-right,
}
use hermes_fleet.Prelude.Dict
use hermes_fleet.Prelude.Text.{Text}
use hermes_fleet.Broker.Types.{
  takeover, observe, is_takeover, Session, Broker, Env, forwarded, Answer, returned, type_error,
  broker_raised, raised,
}
use hermes_fleet.Broker.Exec.{
  Exn, Result, Result-cases, ok, raise, raises, broker_error, update_session, emit,
}
use hermes_fleet.Broker.Viewer.{
  public_session, human_may_connect, viewer_may_send_input, is_active, call_observe, observe_with,
  observe_answer, to_observe, release_to_observe, preflights_pass, send_viewer_input, run_action,
}
use hermes_fleet.Broker.Invariant.Store.{get-update_session_self}
use hermes_fleet.Broker.Steps.Operations.{Found, public_session-state, public_session-Found}

takeover_mode : (s : Session) → is_takeover s.mode ≡ true → s.mode ≡ takeover
takeover_mode s h = ground arith

module _ (env : Env) (now later : ℕ) (sid : Text) (b : Broker) where
  -- An input payload is forwarded exactly when `viewer_may_send_input` holds at that time, as an action
  -- of takeover; where it does not, nothing at all is called or changed.
  pub input_fenced :
      (send_viewer_input env now later sid b).1
      ≡ (if viewer_may_send_input now sid b then emit (forwarded sid takeover) b else b)
  unfolding viewer_may_send_input send_viewer_input run_action is_active
  input_fenced = ground arith

  refused_input :
      viewer_may_send_input now sid b ≡ false
      → raises (send_viewer_input env now later sid b).0 ≡ true
  unfolding viewer_may_send_input send_viewer_input run_action is_active
  refused_input h = ground arith

  -- Where a payload is sent, or anything else changes, the session is stored, open and in takeover.
  pub input_only_in_takeover :
      (send_viewer_input env now later sid b).1 ≢ b
      → (s : Session) × (Dict.get b.sessions sid ≡ some s)
        × (human_may_connect now s ≡ true)
        × (s.mode ≡ takeover)
  unfolding viewer_may_send_input
  input_only_in_takeover changed = elim (Option-cases (Dict.get b.sessions sid)) [
    | inl e ↦ absurd (changed (rw (input_fenced, e) refl))
    | inr (s, e) ↦ elim (Bool-cases (human_may_connect now s && is_takeover s.mode)) [
      | inl t ↦ (s, e, &&-left _ _ t, takeover_mode s (&&-right (human_may_connect now s) _ t))
      | inr t ↦ absurd (changed (rw (input_fenced, e, t) refl))
    ]
  ]

-- `call_observe` only calls out.
observe_answer-state : (a : Answer (Option Text)) (b : Broker) → (observe_answer a b).1 ≡ b
observe_answer-state (returned o) b = refl
observe_answer-state type_error b = refl
observe_answer-state (broker_raised n m) b = refl
observe_answer-state raised b = refl

module _ (env : Env) (s : Session) where
  observe_with-sessions :
      (o : Option (Text → Text → Text → Answer (Option Text))) (b : Broker)
      → (observe_with env s o b).1.sessions ≡ b.sessions
  unfolding emit
  observe_with-sessions none b = refl
  observe_with-sessions (some f) b =
      elim (Bool-cases (preflights_pass env (Dict.values s.socket_preflights))) [
        | inl t ↦ rw (t, observe_answer-state) refl
        | inr t ↦ rw t refl
      ]

  observe_with-preflights :
      (o : Option (Text → Text → Text → Answer (Option Text))) (b : Broker) (r : Option Text)
      → (observe_with env s o b).0 ≡ ok r
      → preflights_pass env (Dict.values s.socket_preflights) ≡ true
  observe_with-preflights none b r h = cc
  observe_with-preflights (some f) b r h =
      elim (Bool-cases (preflights_pass env (Dict.values s.socket_preflights))) [
        | inl t ↦ t
        | inr t ↦ cc (rw t at h)
      ]

observing-no_input :
    (now : ℕ) (sid : Text) (c : Broker) (s : Session)
    → Dict.get c.sessions sid ≡ some s
    → s.mode ≡ observe
    → viewer_may_send_input now sid c ≡ false
unfolding viewer_may_send_input
observing-no_input now sid c s e m = ground (arith, e, m)

-- What a successful release leaves, and what it had to pass.
pub record Released (env : Env) (now : ℕ) (sid email : Text) (b c : Broker) : Type 0 where
  pub session : Session
  pub found : Found sid email b session
  pub open_to : human_may_connect now session ≡ true
  pub result : Session
  pub stored : Dict.get c.sessions sid ≡ some result
  pub observing : result.mode ≡ observe
  pub whole_records :
      session.mode ≡ takeover → preflights_pass env (Dict.values session.socket_preflights) ≡ true

module _ (env : Env) (now : ℕ) (sid email : Text) (b : Broker) where
  -- The last part of a release, by the answer of `call_observe`.
  abbrev finish_release : Result (Option Text) → Broker → Result (Option Text) × Broker
  finish_release (ok o) c = (ok o, update_session sid (to_observe o) c)
  finish_release (raise e) c = (raise e, c)

  abbrev release_found : Session → Result (Option Text) × Broker
  release_found s =
      if human_may_connect now s
      then if is_takeover s.mode
        then finish_release (call_observe env s b).0 (call_observe env s b).1
        else (ok s.checkpoint_outcome, b)
      else (raise (broker_error 410 "session ended"), b)

  release_found_lem :
      (s : Session) → Found sid email b s → release_to_observe env now sid email b ≡ release_found s
  unfolding release_to_observe public_session is_active
  release_found_lem s f = ground (arith, f.stored, f.named, f.bound)

  release-unknown :
      (e : Exn)
      → (public_session sid email b).0 ≡ raise e
      → release_to_observe env now sid email b ≡ (raise e, b)
  unfolding release_to_observe
  release-unknown e h = rw (h, public_session-state sid email b) refl

  abbrev Leaves : Result (Option Text) × Broker → Type 0
  Leaves r = (o : Option Text) → r.0 ≡ ok o → Released env now sid email b r.1

  finish_release-Leaves :
      (s : Session) (r : Result (Option Text)) (c : Broker)
      → Found sid email b s
      → human_may_connect now s ≡ true
      → r ≡ (call_observe env s b).0
      → c.sessions ≡ b.sessions
      → Leaves (finish_release r c)
  unfolding call_observe
  finish_release-Leaves s (ok o) c f may called same o' h = record {
    session = s;
    found = f;
    open_to = may;
    result = to_observe o s;
    stored = get-update_session_self sid (to_observe o) c s (rw same f.stored);
    observing = unfold to_observe in refl;
    whole_records = λ m. observe_with-preflights env s env.on_observe b o (sym called);
  }
  finish_release-Leaves s (raise e) c f may called same o' h = cc

  observing_already : (s : Session) → is_takeover s.mode ≡ false → s.mode ≡ observe
  observing_already s h = ground arith

  release_found-Leaves : (s : Session) → Found sid email b s → Leaves (release_found s)
  unfolding call_observe
  release_found-Leaves s f =
      if_cases Leaves (human_may_connect now s) _ _
        (λ may.
          if_cases Leaves (is_takeover s.mode) _ _
            (λ t.
              finish_release-Leaves s _ _ f may refl (observe_with-sessions env s env.on_observe b))
            (λ t o h. record {
              session = s;
              found = f;
              open_to = may;
              result = s;
              stored = f.stored;
              observing = observing_already s t;
              whole_records = λ m. cc;
            }))
        (λ t o h. cc)

  -- A release that returns was asked for by the bound e-mail address while the session was open; it
  -- leaves the session in Observe, and from takeover only with every viewer at a record boundary.
  pub release-Released :
      (o : Option Text)
      → (release_to_observe env now sid email b).0 ≡ ok o
      → Released env now sid email b (release_to_observe env now sid email b).1
  release-Released o h = elim (Result-cases (public_session sid email b).0) [
    | inl (s, e) ↦
        let f = public_session-Found sid email b s e in
        rw (release_found_lem s f) (release_found-Leaves s f o (rw (release_found_lem s f) at h))
    | inr (e, q) ↦ cc (h, release-unknown e q)
  ]

  -- After a release to Observe that returned, the next payload for the session is refused and sends nothing,
  -- whenever it was buffered and at whatever time it comes.
  pub released_no_input :
      (env' : Env) (o : Option Text) (at later : ℕ)
      → (release_to_observe env now sid email b).0 ≡ ok o
      → let c = (release_to_observe env now sid email b).1 in
        ((send_viewer_input env' at later sid c).1 ≡ c)
        × (raises (send_viewer_input env' at later sid c).0 ≡ true)
  released_no_input env' o at later h =
      let c = (release_to_observe env now sid email b).1 in
      let r = release-Released o h in
      let closed = observing-no_input at sid c r.result r.stored r.observing in
      (rw (input_fenced env' at later sid c, closed) refl, refused_input env' at later sid c closed)

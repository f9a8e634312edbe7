-- ===== src/Broker/Safety.antt =====
-- What holds after any history of requests: who owns a browser, for how long, and what an end leaves.
use hermes_fleet.Prelude.{
  ℕ, ◌+◌, ◌≤◌, ◌≡◌, true, false, none, some, List, [], arith, list_eq, nat_eq, pair_eq,
}
use hermes_fleet.Prelude.Dict
use hermes_fleet.Prelude.Text.{Text}
use hermes_fleet.Broker.Types.{
  is_terminal, is_live, is_finished, Session, Broker, AccessPrincipal, Env, max_ttl, clamp_ttl,
  init,
}
use hermes_fleet.Broker.Invariant.Kept.{Inv, Steps-Inv, key_of}
use hermes_fleet.Broker.Operation.{
  Operation, perform, perform-Steps, Allowed, History, History-Steps,
}

clamp_ttl-le : (ttl : ℕ) → clamp_ttl ttl ≤ max_ttl
unfolding clamp_ttl
clamp_ttl-le ttl = omega arith

-- The constructor's arguments.
module _ (principals : List AccessPrincipal) (ttl : ℕ) (agent : Text) (workspaces : List Text)
    (limit terminal_ttl : ℕ) where
  init-Inv : Inv (init principals ttl agent workspaces limit terminal_ttl)
  unfolding init Dict.get
  init-Inv = record { short = clamp_ttl-le ttl; entry = λ sid s h. cc }

  pub History-Inv :
      {b : Broker} → History (init principals ttl agent workspaces limit terminal_ttl) b → Inv b
  History-Inv h = Steps-Inv (History-Steps init-Inv h) init-Inv

  -- After any history of requests, one at a time and whatever the callbacks do, two sessions of one browser
  -- (agent and workspace) that have not ended are one session.
  pub one_owner :
      {b : Broker} (sid₁ sid₂ : Text) (s₁ s₂ : Session)
      → History (init principals ttl agent workspaces limit terminal_ttl) b
      → Dict.get b.sessions sid₁ ≡ some s₁
      → Dict.get b.sessions sid₂ ≡ some s₂
      → is_terminal s₁.state ≡ false
      → is_terminal s₂.state ≡ false
      → key_of s₁ ≡ key_of s₂
      → sid₁ ≡ sid₂
  one_owner sid₁ sid₂ s₁ s₂ h e₁ e₂ g₁ g₂ same =
      let v = History-Inv h in
      let h₁ = (v.entry sid₁ s₁ e₁).holds g₁ in
      let h₂ = (v.entry sid₂ s₂ e₂).holds g₂ in cc (h₁, h₂, same)

  -- After any history of requests a pending or active session expires at most 1800 seconds after it was
  -- created.
  pub live_lifetime :
      {b : Broker} (sid : Text) (s : Session)
      → History (init principals ttl agent workspaces limit terminal_ttl) b
      → Dict.get b.sessions sid ≡ some s
      → is_live s.state ≡ true
      → s.expires_at ≤ s.created_at + 1800
  live_lifetime sid s h e = ((History-Inv h).entry sid s e).fields.lifetime

  -- After any history of requests a session that ended or expired has no viewer socket and no timer left.
  pub finished_closed :
      {b : Broker} (sid : Text) (s : Session)
      → History (init principals ttl agent workspaces limit terminal_ttl) b
      → Dict.get b.sessions sid ≡ some s
      → is_finished s.state ≡ true
      → (s.sockets ≡ []) × (s.expiry_timer ≡ none)
  finished_closed sid s h e over =
      let o = ((History-Inv h).entry sid s e).fields in (o.closed over, o.timer (ground arith))

-- Every method, on every branch, leaves the tables of a well-formed broker in order: a session that is not
-- terminal stands under its own id, and the index names it for its browser.
pub perform-index :
    (env : Env) (now : ℕ) (op : Operation) (b : Broker) (sid : Text) (s : Session)
    → Inv b
    → Allowed op b
    → Dict.get (perform env now op b).sessions sid ≡ some s
    → is_terminal s.state ≡ false
    → (s.session_id ≡ sid) × (Dict.get (perform env now op b).active_by_agent (key_of s) ≡ some sid)
perform-index env now op b sid s v allowed e open_still =
    let o = (Steps-Inv (perform-Steps env now op b v allowed) v).entry sid s e in
    (o.named, o.holds open_still)

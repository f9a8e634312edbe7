-- ===== src/Broker/Steps/Reloads.antt =====
-- `replace_principals` as a run of sections: what it revokes is not live, and stays so.
use hermes_fleet.Prelude.{
  ℕ, ◌≡◌, refl, sym, inl, inr, Bool, true, false, Option, none, some, List, [], ◌∷◌, ◌++◌, ap, ◌∙◌,
  All, All-append, if_cases, if◌then◌else◌, list_eq, nat_eq, contains,
}
use mathlib.Core.List.{append-nil, append_assoc}
use hermes_fleet.Prelude.Dict
use hermes_fleet.Prelude.Dict.{Dict}
use hermes_fleet.Prelude.Text.{Text}
use hermes_fleet.Broker.Types.{
  is_live, Session, Broker, Env, AccessPrincipal, Event, closer_called, policy_revoked_called,
}
use hermes_fleet.Broker.Exec.{
  Result, ok, raise, then_run, Exec, pure, fail, other, update_session, emit,
}
use hermes_fleet.Broker.Terminal.{drop_socket}
use hermes_fleet.Broker.Handoff.{default_key}
use hermes_fleet.Broker.Reload.{
  revokes, revokes_found, affected, start_revoking, publish, close_each, mark_revoked,
  finish_revoked, revoked_with, call_policy_revoked, revoke_found, revoke_after_policy_change,
  revoke_all, replace_principals,
}
use hermes_fleet.Broker.Steps.{
  Change, unchanged, drops, emits, changes, publishes, revokes as revokes_section, Steps, done,
  Steps-trans, one,
}
use hermes_fleet.Broker.Steps.Rules.{RunsAt}
use hermes_fleet.Broker.Invariant.Store.{
  get-update_session, events-update_session, prune_terminal-Pruned,
}
use hermes_fleet.Broker.Invariant.Kept.{get-mark_revoking, sessions-release_key, events-release_key}

-- No live session is stored under `sid`.
abbrev pub NotLive : Text → Broker → Type 0
NotLive sid b = (t : Session) → Dict.get b.sessions sid ≡ some t → is_live t.state ≡ false

-- What holds of the session under `sid`, if there is one.
abbrev pub Holds : (Session → Type 0) → Text → Broker → Type 0
Holds P sid b = (t : Session) → Dict.get b.sessions sid ≡ some t → P t

-- A property that closing a socket and revoking do not break.
pub record Stable (P : Session → Type 0) : Type 0 where
  pub drop : (closer : ℕ) (s : Session) → P s → P (drop_socket closer s)
  pub revoke : (s : Session) → P s → P (mark_revoked s)

update-Holds :
    (P : Session → Type 0) (sid : Text) (f : Session → Session) (b : Broker) (j : Text)
    → ((s : Session) → P s → P (f s))
    → Holds P j b
    → Holds P j (update_session sid f b)
update-Holds P sid f b j keep h t e =
    let o = get-update_session sid f b j t e in
    elim o.2 [ inl (k, p) ↦ rw p (keep o.0 (h o.0 o.1)) | inr p ↦ rw p (h o.0 o.1) ]

-- The calls that a reload makes: closers, and the notice that a grant was withdrawn.
abbrev pub IsReloadEvent : Event → Type 0
IsReloadEvent (closer_called c) = Unit
IsReloadEvent (policy_revoked_called agent) = Unit
IsReloadEvent _ = ⊥

abbrev dropping : ℕ → Session → Session
dropping closer s = if contains closer s.sockets then drop_socket closer s else s

dropping-Change : (ttl closer : ℕ) (s : Session) → Change ttl s (dropping closer s)
dropping-Change ttl closer s =
    if_cases (Change ttl s) (contains closer s.sockets) _ s (λ t. drops closer s) (λ t. unchanged s)

-- A run that keeps what is stable, and calls out only as a reload does.
pub record Quiet (b c : Broker) : Type 1 where
  pub runs : Steps b c
  pub still : (P : Session → Type 0) → Stable P → (j : Text) → Holds P j b → Holds P j c
  pub calls : List Event
  pub trace : c.events ≡ b.events ++ calls
  pub only : All IsReloadEvent calls

Quiet-refl : (b : Broker) → Quiet b b
Quiet-refl b = record {
  runs = done;
  still = λ P st j h. h;
  calls = [];
  trace = sym (append-nil b.events);
  only = tt;
}

Quiet-trans : {b c d : Broker} → Quiet b c → Quiet c d → Quiet b d
Quiet-trans {b} p q = record {
  runs = Steps-trans p.runs q.runs;
  still = λ P st j h. q.still P st j (p.still P st j h);
  calls = p.calls ++ q.calls;
  trace = q.trace ∙ ap (λ es. es ++ q.calls) p.trace ∙ append_assoc b.events p.calls q.calls;
  only = All-append IsReloadEvent p.calls q.calls p.only q.only;
}

emit-Quiet : (e : Event) (b : Broker) → IsReloadEvent e → Quiet b (emit e b)
unfolding emit
emit-Quiet e b h = record {
  runs = one (unfold emit in emits e b);
  still = λ P st j k. k;
  calls = e ∷ [];
  trace = refl;
  only = (h, tt);
}

drop-Quiet :
    (sid : Text) (closer : ℕ) (c : Broker) → Quiet c (update_session sid (dropping closer) c)
drop-Quiet sid closer c = record {
  runs = one (changes sid (dropping closer) c (λ s e. dropping-Change c.ttl closer s));
  still = λ P st j.
      update-Holds P sid (dropping closer) c j
        λ s h. if_cases P (contains closer s.sockets) _ s (λ t. st.drop closer s h) (λ t. h);
  calls = [];
  trace = events-update_session sid (dropping closer) c ∙ sym (append-nil c.events);
  only = tt;
}

close_each-Quiet :
    (env : Env) (sid : Text) (cs : List ℕ) (b : Broker) → Quiet b (close_each env sid cs b)
unfolding close_each
close_each-Quiet env sid [] b = Quiet-refl b
close_each-Quiet env sid (closer ∷ rest) b =
    let c = emit (closer_called closer) b in
    let after : Broker =
      if env.closer_returns closer then update_session sid (dropping closer) c else c in
    let first : Quiet c after =
      if_cases (Quiet c) (env.closer_returns closer) (update_session sid (dropping closer) c) c
        (λ t. drop-Quiet sid closer c) (λ t. Quiet-refl c) in
    Quiet-trans (emit-Quiet (closer_called closer) b tt)
      (Quiet-trans first (close_each-Quiet env sid rest after))

finish_revoked-Quiet :
    (now : ℕ) (sid : Text) (s : Session) (b : Broker)
    → NotLive sid b
    → Quiet b (finish_revoked now sid s b)
unfolding finish_revoked
finish_revoked-Quiet now sid s b h =
    let written = update_session sid mark_revoked b in
    record {
      runs = one (unfold finish_revoked in revokes_section now sid s b h);
      still = λ P st j k t e. update-Holds P sid mark_revoked b j st.revoke k t (
          rw (sessions-release_key (default_key s.agent_id) sid written) at
            ((prune_terminal-Pruned now _).kept j t e));
      calls = [];
      trace =
          (prune_terminal-Pruned now _).silent
          ∙ events-release_key (default_key s.agent_id) sid written
          ∙ events-update_session sid mark_revoked b
          ∙ sym (append-nil b.events);
      only = tt;
    }

NotLive-Stable : Stable (λ s. is_live s.state ≡ false)
unfolding drop_socket mark_revoked
NotLive-Stable = record { drop = λ c s h. h; revoke = λ s h. refl }

call-Quiet : (s : Session) (o : Option (Text → Bool)) (b : Broker) → Quiet b (revoked_with s o b).1
call-Quiet s none b = Quiet-refl b
call-Quiet s (some returns) b = Quiet-trans (emit-Quiet (policy_revoked_called s.agent_id) b tt) (
    if_cases
      (λ (m : Exec (Unit {0})).
        Quiet (emit (policy_revoked_called s.agent_id) b)
          (m (emit (policy_revoked_called s.agent_id) b)).1)
      (returns s.agent_id) (pure tt) (fail other) (λ t. Quiet-refl _) (λ t. Quiet-refl _))

revoke_found-Quiet :
    (env : Env) (now : ℕ) (sid : Text) (o : Option Session) (b : Broker)
    → NotLive sid b
    → Quiet b (revoke_found env now sid o b).1
unfolding call_policy_revoked
revoke_found-Quiet env now sid none b h = Quiet-refl b
revoke_found-Quiet env now sid (some s) b h =
    let closed = close_each-Quiet env sid s.sockets b in
    let ended = finish_revoked-Quiet now sid s _ (closed.still _ NotLive-Stable sid h) in
    Quiet-trans closed (Quiet-trans ended (call-Quiet s env.on_policy_revoked _))

revoke-Quiet :
    (env : Env) (now : ℕ) (sid : Text) (b : Broker)
    → NotLive sid b
    → Quiet b (revoke_after_policy_change env now sid b).1
unfolding revoke_after_policy_change
revoke-Quiet env now sid b h = revoke_found-Quiet env now sid (Dict.get b.sessions sid) b h

still-All :
    {b c : Broker} (ids : List Text)
    → Quiet b c
    → All (λ sid. NotLive sid b) ids
    → All (λ sid. NotLive sid c) ids
still-All [] q h = tt
still-All (sid ∷ rest) q h = (q.still _ NotLive-Stable sid h.0, still-All rest q h.1)

revoke_step :
    (env : Env) (now : ℕ) (ids : List Text) (b c : Broker) (r : Result (Unit {0}))
    → Quiet b c
    → Quiet c (revoke_all env now ids c).1
    → Quiet b (then_run r (λ _. revoke_all env now ids) c).1
revoke_step env now ids b c (ok u) p q = Quiet-trans p q
revoke_step env now ids b c (raise e) p q = p

pub revoke_all-Quiet :
    (env : Env) (now : ℕ) (ids : List Text) (b : Broker)
    → All (λ sid. NotLive sid b) ids
    → Quiet b (revoke_all env now ids b).1
unfolding revoke_all
revoke_all-Quiet env now [] b h = Quiet-refl b
revoke_all-Quiet env now (sid ∷ rest) b h =
    let first = revoke-Quiet env now sid b h.0 in
    revoke_step env now rest b (revoke_after_policy_change env now sid b).1
      (revoke_after_policy_change env now sid b).0 first
      (revoke_all-Quiet env now rest _ (still-All rest first h.1))

-- What the publication revokes is not live afterwards.
revoked-NotLive :
    (b : Broker) (principals : List AccessPrincipal) (sid : Text)
    → revokes_found b principals (Dict.get b.sessions sid) ≡ true
    → NotLive sid (publish principals b)
unfolding publish
revoked-NotLive b principals sid r t e =
    let o = get-mark_revoking b principals b.sessions sid t e in
    let hit : revokes b principals o.0 ≡ true = rw o.1 at r in
    rw (o.2, hit) (unfold start_revoking in refl)

pub affected-NotLive :
    (b : Broker) (principals : List AccessPrincipal) (ids : List Text)
    → All (λ sid. NotLive sid (publish principals b)) (affected b principals ids)
unfolding affected
affected-NotLive b principals [] = tt
affected-NotLive b principals (sid ∷ rest) =
    if_cases (All (λ j. NotLive j (publish principals b)))
      (revokes_found b principals (Dict.get b.sessions sid)) _ _
      (λ t. (revoked-NotLive b principals sid t, affected-NotLive b principals rest))
      (λ t. affected-NotLive b principals rest)

-- A reload is a run of sections.
pub replace_principals-Steps :
    (env : Env) (now : ℕ) (principals : List AccessPrincipal) (b : Broker)
    → RunsAt (replace_principals env now principals) b
unfolding replace_principals
replace_principals-Steps env now principals b =
    Steps-trans (one (publishes principals b))
      (revoke_all-Quiet env now _ _ (affected-NotLive b principals _)).runs

-- ===== src/Broker/Mints.antt =====
-- What `mint` and `extend` return.
use hermes_fleet.Prelude.{
  ℕ, ◌<◌, ◌≡◌, refl, inl, inr, true, ◌&&◌, ◌==◌, Option, none, some, arith, list_eq, nat_eq,
  pair_eq, if_cases, Option-cases, &&-left, &&-right, list_beq_iff, ltb, ltb→lt,
}
use hermes_fleet.Prelude.Dict
use hermes_fleet.Prelude.Dict.{get-put_self}
use hermes_fleet.Prelude.Text.{Text}
use hermes_fleet.Broker.Types.{is_live, Session, Broker, Env, Invocation, AccessPrincipal, Minted}
use hermes_fleet.Broker.Exec.{Result, ok, raise, Exec, then_run}
use hermes_fleet.Broker.Policy.{owner, authorized_principal}
use hermes_fleet.Broker.Terminal.{prune_terminal}
use hermes_fleet.Broker.Handoff.{
  resource_key, active_session, mint, mint_found, minted, new_session, insert_session,
}
use hermes_fleet.Broker.Steps.{prunes, one}
use hermes_fleet.Broker.Invariant.Kept.{Inv, Steps-Inv}
use hermes_fleet.Broker.Invariant.Store.{prune_terminal-Pruned}

-- The session behind a minted handle.
pub record Holding (now : ℕ) (i : Invocation) (m : Minted) (c : Broker) : Type 0 where
  pub session : Session
  pub index : Dict.get c.active_by_agent (resource_key i) ≡ some m.session_id
  pub stored : Dict.get c.sessions m.session_id ≡ some session
  pub owned : session.owner ≡ owner i
  pub live : is_live session.state ≡ true
  pub unexpired : now < session.expires_at
  pub told : m.expires_at ≡ session.expires_at

active_session-found :
    (key : Text × Text) (b : Broker) (s : Session)
    → active_session key b ≡ some s
    → (k : Text) × (Dict.get b.active_by_agent key ≡ some k) × (Dict.get b.sessions k ≡ some s)
active_session-found key b s h = elim (Option-cases (Dict.get b.active_by_agent key)) [
  | inl e ↦ cc (rw e at h)
  | inr (k, e) ↦ (k, e, rw e at h)
]

-- Of a result: if it is a handle, there is a session behind it.
abbrev Backed : ℕ → Invocation → Result Minted × Broker → Type 0
Backed now i r = (m : Minted) → r.0 ≡ ok m → Holding now i m r.1

then_run-Backed :
    {A : Type 0} (now : ℕ) (i : Invocation) (r : Result A) (f : A → Exec Minted) (b : Broker)
    → ((a : A) → r ≡ ok a → Backed now i (f a b))
    → Backed now i (then_run r f b)
then_run-Backed now i (ok a) f b k = k a refl
then_run-Backed now i (raise e) f b k = λ m h. cc

module _ (env : Env) (now : ℕ) (sid : Text) (i : Invocation) where
  old-Backed :
      (old : Session) (b : Broker)
      → Inv b
      → active_session (resource_key i) b ≡ some old
      → (old.owner == owner i && is_live old.state && ltb now old.expires_at) ≡ true
      → Backed now i (ok (minted env old), b)
  unfolding minted
  old-Backed old b v e t m h =
      let f = active_session-found (resource_key i) b old e in
      let named : old.session_id ≡ f.0 = (v.entry f.0 old f.2).named in
      let same : minted env old ≡ m = cc in
      let first = &&-left (old.owner == owner i && is_live old.state) _ t in
      rw (← same) (record {
        session = old;
        index = cc (f.1, named);
        stored = cc (f.2, named);
        owned = (list_beq_iff old.owner (owner i)).0 (&&-left _ _ first);
        live = &&-right (old.owner == owner i) _ first;
        unexpired = ltb→lt _ _ (&&-right (old.owner == owner i && is_live old.state) _ t);
        told = refl;
      })

  new-Backed :
      (p : AccessPrincipal) (b : Broker)
      → 0 < b.ttl
      → let s = new_session now b.ttl sid p i in
        Backed now i (ok (minted env s), insert_session sid i s b)
  unfolding minted insert_session new_session
  new-Backed p b pos m h =
      let s = new_session now b.ttl sid p i in
      let same : minted env s ≡ m = cc in
      rw (← same) (record {
        session = s;
        index = get-put_self b.active_by_agent (resource_key i) sid;
        stored = get-put_self b.sessions sid s;
        owned = refl;
        live = refl;
        unexpired = omega arith;
        told = refl;
      })

  mint_found-Backed :
      (p : AccessPrincipal) (o : Option Session) (b : Broker)
      → Inv b
      → 0 < b.ttl
      → active_session (resource_key i) b ≡ o
      → Backed now i (mint_found env now sid p i o b)
  unfolding mint_found
  mint_found-Backed p (some old) b v pos e =
      if_cases (λ (k : Exec Minted). Backed now i (k b))
        (old.owner == owner i && is_live old.state && ltb now old.expires_at) _ _
        (λ t. old-Backed old b v e t) (λ t m h. cc)
  mint_found-Backed p none b v pos e = new-Backed p b pos

  -- A mint that returns gives the handle of the session that holds the browser: it is live and
  -- unexpired, belongs to the caller's route, and is the one that the index names.
  pub mint-Holding :
      (b : Broker) (m : Minted)
      → Inv b
      → 0 < b.ttl
      → (mint env now sid i b).0 ≡ ok m
      → Holding now i m (mint env now sid i b).1
  unfolding mint
  mint-Holding b m v pos h =
      let c = prune_terminal now b in
      let w = Steps-Inv (one (prunes now b)) v in
      then_run-Backed now i (authorized_principal b i) _ b
        (λ p e. mint_found-Backed p _ c w (rw (prune_terminal-Pruned now b).lease pos) refl) m h

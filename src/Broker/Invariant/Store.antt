-- ===== src/Broker/Invariant/Store.antt =====
-- The table of sessions under the writes that the sections make.
use hermes_fleet.Prelude.{
  ℕ, ◌≡◌, refl, ◌∙◌, ◌⊎◌, inl, inr, false, some, [], ◌∷◌, arith, list_eq, nat_eq, pair_eq,
  option_eq, ◌==◌, ==_refl, Option-cases, Bool-cases, if_cases, list_beq_iff,
}
use hermes_fleet.Prelude.Dict
use hermes_fleet.Prelude.Dict.{Dict, get-put, get-remove}
use hermes_fleet.Prelude.Text.{Text}
use hermes_fleet.Broker.Types.{is_terminal, Session, Broker}
use hermes_fleet.Broker.Exec.{update_session}
use hermes_fleet.Broker.Terminal.{forget_session, prune_from, prune_terminal}

-- Where a session of the updated table comes from.
abbrev pub Origin : Text → (Session → Session) → Broker → Text → Session → Type 0
Origin sid f b j s' =
    (s : Session) × (Dict.get b.sessions j ≡ some s) × (((sid ≡ j) × (s' ≡ f s)) ⊎ (s' ≡ s))

module _ (sid : Text) (f : Session → Session) (b : Broker) where
  pub get-update_session :
      (j : Text) (s' : Session)
      → Dict.get (update_session sid f b).sessions j ≡ some s'
      → Origin sid f b j s'
  unfolding update_session
  get-update_session j s' h = elim (Option-cases (Dict.get b.sessions sid)) [
    | inl e ↦ (s', ground (arith, h, e), inr refl)
    | inr (s, e) ↦ elim (Bool-cases (sid == j)) [
      | inl same ↦
          let k : sid ≡ j = (list_beq_iff sid j).0 same in
          (s, rw (← k) e, inl (k, ground (arith, h, e, get-put b.sessions sid j (f s))))
      | inr differ ↦ (s', ground (arith, h, e, get-put b.sessions sid j (f s)), inr refl)
    ]
  ]

  pub get-update_session_self :
      (s : Session)
      → Dict.get b.sessions sid ≡ some s
      → Dict.get (update_session sid f b).sessions sid ≡ some (f s)
  unfolding update_session
  get-update_session_self s e = ground (arith, e, get-put b.sessions sid sid (f s), ==_refl sid)

  -- The session that was written.
  pub get-update_session_at :
      (t : Session)
      → Dict.get (update_session sid f b).sessions sid ≡ some t
      → (s : Session) × (Dict.get b.sessions sid ≡ some s) × (t ≡ f s)
  get-update_session_at t h =
      let o = get-update_session sid t h in (o.0, o.1, cc (h, get-update_session_self o.0 o.1))

  pub active-update_session : (update_session sid f b).active_by_agent ≡ b.active_by_agent
  unfolding update_session
  active-update_session = ground arith

  pub events-update_session : (update_session sid f b).events ≡ b.events
  unfolding update_session
  events-update_session = ground arith

  pub ttl-update_session : (update_session sid f b).ttl ≡ b.ttl
  unfolding update_session
  ttl-update_session = ground arith

-- What pruning leaves was there before, and what it takes away was terminal.
pub record Pruned (b c : Broker) : Type 0 where
  pub kept :
      (j : Text) (s : Session) → Dict.get c.sessions j ≡ some s → Dict.get b.sessions j ≡ some s
  pub gone :
      (j : Text) (s : Session)
      → Dict.get b.sessions j ≡ some s
      → is_terminal s.state ≡ false
      → Dict.get c.sessions j ≡ some s
  pub index : c.active_by_agent ≡ b.active_by_agent
  pub lease : c.ttl ≡ b.ttl
  pub silent : c.events ≡ b.events

forget_session-Pruned : (sid : Text) (b : Broker) → Pruned b (forget_session sid b)
unfolding forget_session
forget_session-Pruned sid b = record {
  kept = λ j s h. ground (arith, h, get-remove b.sessions sid j, list_beq_iff sid j);
  gone = λ j s h live. ground (arith, h, get-remove b.sessions sid j, list_beq_iff sid j);
  index = ground arith;
  lease = ground arith;
  silent = ground arith;
}

Pruned-trans : {b c d : Broker} → Pruned b c → Pruned c d → Pruned b d
Pruned-trans p q = record {
  kept = λ j s h. p.kept j s (q.kept j s h);
  gone = λ j s h live. q.gone j s (p.gone j s h live) live;
  index = q.index ∙ p.index;
  lease = q.lease ∙ p.lease;
  silent = q.silent ∙ p.silent;
}

same-Pruned : (b : Broker) (t : Dict Text ℕ) → Pruned b (record b { terminal = t })
same-Pruned b t = record {
  kept = λ j s h. h;
  gone = λ j s h live. h;
  index = refl;
  lease = refl;
  silent = refl;
}

prune_from-Pruned : (now : ℕ) (d : Dict Text ℕ) (b : Broker) → Pruned b (prune_from now d b)
unfolding prune_from
prune_from-Pruned now [] b = same-Pruned b []
prune_from-Pruned now ((sid, ended_at) ∷ rest) b =
    if_cases (Pruned b) _ _ _ (λ t. same-Pruned b ((sid, ended_at) ∷ rest))
      (λ t.
        Pruned-trans (forget_session-Pruned sid b)
          (prune_from-Pruned now rest (forget_session sid b)))

pub prune_terminal-Pruned : (now : ℕ) (b : Broker) → Pruned b (prune_terminal now b)
unfolding prune_terminal
prune_terminal-Pruned now b = prune_from-Pruned now b.terminal b

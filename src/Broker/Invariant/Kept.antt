-- ===== src/Broker/Invariant/Kept.antt =====
-- The invariant: sessions are in order, and one that is not terminal holds its resource.
use hermes_fleet.Prelude.{
  ℕ, ◌≤◌, ◌≡◌, ◌≢◌, refl, sym, ◌∙◌, inl, inr, true, false, Option, none, some, List, [], ◌∷◌, arith,
  list_eq, nat_eq, pair_eq, option_eq, ◌==◌, Bool-cases, list_beq_iff, pair_beq_iff, option_beq_iff,
  if_cases, if◌then◌else◌,
}
use mathlib.Core.Bool.{false≢true}
use hermes_fleet.Prelude.Dict
use hermes_fleet.Prelude.Dict.{Dict, get-put, get-put_self, get-remove}
use hermes_fleet.Prelude.Text.{Text}
use hermes_fleet.Broker.Types.{
  is_terminal, is_live, is_ending, Invocation, AccessPrincipal, Session, Broker, max_ttl,
}
use hermes_fleet.Broker.Exec.{update_session, emit}
use hermes_fleet.Broker.Terminal.{release_key, settle, mark_finished}
use hermes_fleet.Broker.Handoff.{
  new_session, insert_session, active_session, resource_key, default_key,
}
use hermes_fleet.Broker.Reload.{
  publish, finish_revoked, mark_revoking, mark_revoked, start_revoking, revokes,
}
use hermes_fleet.Broker.Steps.{
  Change, Section, prunes, emits, spawns, inserts, changes, settles, publishes,
  revokes as revokes_section, Steps, done, step,
}
use hermes_fleet.Broker.Invariant.Session.{
  SessionOk, Change-SessionOk, Change-identity, Change-terminal, mark_finished-SessionOk,
  start_revoking-SessionOk, mark_revoked-SessionOk,
}
use hermes_fleet.Broker.Invariant.Store.{
  get-update_session, get-update_session_at, active-update_session, ttl-update_session, Pruned,
  prune_terminal-Pruned,
}

abbrev pub key_of : Session → Text × Text
key_of s = (s.agent_id, s.browser_workspace_id)

-- What holds of the session that is stored under `sid`.
pub record EntryOk (b : Broker) (sid : Text) (s : Session) : Type 0 where
  pub fields : SessionOk s
  pub named : s.session_id ≡ sid
  pub holds : is_terminal s.state ≡ false → Dict.get b.active_by_agent (key_of s) ≡ some sid

pub record Inv (b : Broker) : Type 0 where
  pub short : b.ttl ≤ max_ttl
  pub entry : (sid : Text) (s : Session) → Dict.get b.sessions sid ≡ some s → EntryOk b sid s

-- The index and the lease alone matter to an entry.
EntryOk-same :
    (b c : Broker) (sid : Text) (s : Session)
    → c.active_by_agent ≡ b.active_by_agent
    → EntryOk b sid s
    → EntryOk c sid s
EntryOk-same b c sid s e h = record {
  fields = h.fields;
  named = h.named;
  holds = λ live. rw e (h.holds live);
}

Pruned-Inv : {b c : Broker} → Pruned b c → Inv b → Inv c
Pruned-Inv {b} {c} p v = record {
  short = rw p.lease v.short;
  entry = λ sid s h. EntryOk-same b c sid s p.index (v.entry sid s (p.kept sid s h));
}

-- A write to one session keeps the invariant if it keeps what holds of the session.
update-Inv :
    (sid : Text) (f : Session → Session) (b : Broker)
    → ((s : Session) → Dict.get b.sessions sid ≡ some s → EntryOk b sid s → EntryOk b sid (f s))
    → Inv b
    → Inv (update_session sid f b)
update-Inv sid f b keep v = record {
  short = rw (ttl-update_session sid f b) v.short;
  entry = λ j s' h.
      let o = get-update_session sid f b j s' h in
      EntryOk-same b (update_session sid f b) j s' (active-update_session sid f b) (elim o.2 [
        | inl (k, e) ↦ rw (e, ← k) (keep o.0 (rw k o.1) (v.entry sid o.0 (rw k o.1)))
        | inr e ↦ rw e (v.entry j o.0 o.1)
      ]);
}

Change-EntryOk :
    (b : Broker) (sid : Text) (s t : Session)
    → b.ttl ≤ max_ttl
    → Change b.ttl s t
    → EntryOk b sid s
    → EntryOk b sid t
Change-EntryOk b sid s t short c h =
    let i = Change-identity short c in
    record {
      fields = Change-SessionOk short c h.fields;
      named = i.0 ∙ h.named;
      holds = λ live. elim (Bool-cases (is_terminal s.state)) [
        | inl over ↦ cc (Change-terminal c over)
        | inr going ↦ rw (i.1, i.2) (h.holds going)
      ];
    }

Change-Inv :
    (sid : Text) (f : Session → Session) (b : Broker)
    → ((s : Session) → Dict.get b.sessions sid ≡ some s → Change b.ttl s (f s))
    → Inv b
    → Inv (update_session sid f b)
Change-Inv sid f b g v =
    update-Inv sid f b (λ s e h. Change-EntryOk b sid s (f s) v.short (g s e) h) v

-- What the invariant does not mention may change.
same-Inv :
    (b c : Broker)
    → c.ttl ≡ b.ttl
    → c.sessions ≡ b.sessions
    → c.active_by_agent ≡ b.active_by_agent
    → Inv b
    → Inv c
same-Inv b c t e a v = record {
  short = rw t v.short;
  entry = λ sid s h. EntryOk-same b c sid s a (v.entry sid s (rw e at h));
}

ttl-release_key :
    (key : Text × Text) (sid : Text) (b : Broker) → (release_key key sid b).ttl ≡ b.ttl
unfolding release_key
ttl-release_key key sid b = ground arith

pub events-release_key :
    (key : Text × Text) (sid : Text) (b : Broker) → (release_key key sid b).events ≡ b.events
unfolding release_key
events-release_key key sid b = ground arith

pub sessions-release_key :
    (key : Text × Text) (sid : Text) (b : Broker) → (release_key key sid b).sessions ≡ b.sessions
unfolding release_key
sessions-release_key key sid b = ground arith

get-release_key :
    (key : Text × Text) (sid : Text) (b : Broker) (k : Text × Text) (j : Text)
    → Dict.get b.active_by_agent k ≡ some j
    → j ≢ sid
    → Dict.get (release_key key sid b).active_by_agent k ≡ some j
unfolding release_key
get-release_key key sid b k j h ne =
    if_cases (λ c. Dict.get c.active_by_agent k ≡ some j)
      (Dict.get b.active_by_agent key == some sid)
      (record b { active_by_agent = Dict.remove b.active_by_agent key }) b
      (λ t. elim (Bool-cases (key == k)) [
        | inl same ↦
            let e : key ≡ k = (pair_beq_iff key k).0 same in
            let o : Dict.get b.active_by_agent key ≡ some sid = (option_beq_iff _ _).0 t in
            absurd (ne (cc (e, o, h)))
        | inr differ ↦ rw (get-remove b.active_by_agent key k, differ) h
      ])
      (λ t. h)

-- A terminal session gives up the key that it holds.
release-Inv :
    (key : Text × Text) (sid : Text) (b : Broker)
    → ((s : Session) → Dict.get b.sessions sid ≡ some s → is_terminal s.state ≡ true)
    → Inv b
    → Inv (release_key key sid b)
release-Inv key sid b over v = record {
  short = rw (ttl-release_key key sid b) v.short;
  entry = λ j s h.
      let e = rw (sessions-release_key key sid b) at h in
      let o = v.entry j s e in
      record {
        fields = o.fields;
        named = o.named;
        holds = λ going.
            get-release_key key sid b (key_of s) j (o.holds going)
              (λ same. false≢true (sym going ∙ over s (rw same at e)));
      };
}

target-terminal : (s : Session) → SessionOk s → is_terminal s.terminal_target ≡ true
target-terminal s h = ground (arith, h.target)

settle-Inv :
    (now : ℕ) (s : Session) (outcome : Option Text) (b : Broker)
    → ((t : Session)
        → Dict.get b.sessions s.session_id ≡ some t
        → (is_ending t.state ≡ true) × (t.sockets ≡ []))
    → Inv b
    → Inv (settle now s outcome b)
unfolding settle mark_finished
settle-Inv now s outcome b g v =
    let sid = s.session_id in
    let written =
      update-Inv sid (mark_finished outcome) b
        (λ t e h. record {
          fields = mark_finished-SessionOk outcome t h.fields (g t e).0 (g t e).1;
          named = h.named;
          holds = λ going. absurd (false≢true (sym going ∙ target-terminal t h.fields));
        })
        v in
    Pruned-Inv (prune_terminal-Pruned now _) (
      same-Inv _ _ refl refl refl (
        release-Inv (key_of s) sid _
          (λ t e.
            let o = get-update_session_at sid (mark_finished outcome) b t e in
            rw o.2 (target-terminal o.0 (v.entry sid o.0 o.1).fields))
          written))

revoked-Inv :
    (now : ℕ) (sid : Text) (s : Session) (b : Broker)
    → ((t : Session) → Dict.get b.sessions sid ≡ some t → is_live t.state ≡ false)
    → Inv b
    → Inv (finish_revoked now sid s b)
unfolding finish_revoked mark_revoked
revoked-Inv now sid s b g v =
    let written =
      update-Inv sid mark_revoked b
        (λ t e h. record {
          fields = mark_revoked-SessionOk t h.fields (h.fields.timer (g t e));
          named = h.named;
          holds = λ going. cc;
        })
        v in
    Pruned-Inv (prune_terminal-Pruned now _) (
      same-Inv _ _ refl refl refl (
        release-Inv (default_key s.agent_id) sid _
          (λ t e. let o = get-update_session_at sid mark_revoked b t e in rw o.2 refl) written))

pub get-mark_revoking :
    (b : Broker) (principals : List AccessPrincipal) (d : Dict Text Session) (sid : Text)
    (t : Session)
    → Dict.get (mark_revoking b principals d) sid ≡ some t
    → (s : Session) × (Dict.get d sid ≡ some s)
      × (t ≡ (if revokes b principals s then start_revoking s else s))
unfolding mark_revoking Dict.get
get-mark_revoking b principals [] sid t h = cc
get-mark_revoking b principals ((j, s) ∷ rest) sid t h = elim (Bool-cases (j == sid)) [
  | inl same ↦ (s, ground (arith, same), ground (arith, same))
  | inr differ ↦
      let o = get-mark_revoking b principals rest sid t (ground (arith, differ)) in
      (o.0, rw differ o.1, o.2)
]

-- Only a session that is live or in recovery is revoked.
watched-going :
    (b : Broker) (principals : List AccessPrincipal) (s : Session)
    → revokes b principals s ≡ true
    → is_terminal s.state ≡ false
unfolding revokes
watched-going b principals s h = ground arith

revoking-EntryOk :
    (b : Broker) (principals : List AccessPrincipal) (sid : Text) (s : Session)
    → EntryOk b sid s
    → EntryOk b sid (if revokes b principals s then start_revoking s else s)
revoking-EntryOk b principals sid s h =
    if_cases (EntryOk b sid) (revokes b principals s) _ _
      (λ t.
        unfold start_revoking in
        record {
          fields = start_revoking-SessionOk s h.fields;
          named = h.named;
          holds = λ going. h.holds (watched-going b principals s t);
        })
      (λ t. h)

publish-Inv : (principals : List AccessPrincipal) (b : Broker) → Inv b → Inv (publish principals b)
unfolding publish
publish-Inv principals b v = record {
  short = v.short;
  entry = λ sid t h.
      let o = get-mark_revoking b principals b.sessions sid t h in
      EntryOk-same b (publish principals b) sid t refl
        (rw o.2 (revoking-EntryOk b principals sid o.0 (v.entry sid o.0 o.1)));
}

new-SessionOk :
    (now ttl : ℕ) (sid : Text) (p : AccessPrincipal) (i : Invocation)
    → ttl ≤ max_ttl
    → SessionOk (new_session now ttl sid p i)
unfolding new_session
new-SessionOk now ttl sid p i short = ground arith

module _ (now : ℕ) (sid : Text) (p : AccessPrincipal) (i : Invocation) (b : Broker)
    (free : active_session (resource_key i) b ≡ none) (v : Inv b) where
  abbrev inserted : Broker
  inserted = insert_session sid i (new_session now b.ttl sid p i) b

  new-EntryOk : EntryOk inserted sid (new_session now b.ttl sid p i)
  unfolding insert_session
  new-EntryOk = record {
    fields = new-SessionOk now b.ttl sid p i v.short;
    named = unfold new_session in refl;
    holds = λ going. unfold new_session in get-put_self b.active_by_agent (resource_key i) sid;
  }

  -- The key was free, so no session that is going holds it.
  other_key :
      (j : Text) (s : Session)
      → Dict.get b.sessions j ≡ some s
      → Dict.get b.active_by_agent (key_of s) ≡ some j
      → resource_key i ≢ key_of s
  other_key j s e h same = cc (rw (same, h) at free, e)

  other-EntryOk : (j : Text) (s : Session) → Dict.get b.sessions j ≡ some s → EntryOk inserted j s
  unfolding insert_session
  other-EntryOk j s e =
      let o = v.entry j s e in
      record {
        fields = o.fields;
        named = o.named;
        holds = λ going. rw (get-put b.active_by_agent (resource_key i) (key_of s) sid) (
            if_cases (λ r. r ≡ some j) (resource_key i == key_of s) (some sid) _
              (λ t. absurd (other_key j s e (o.holds going) ((pair_beq_iff _ _).0 t)))
              (λ t. o.holds going));
      }

  insert-Inv : Inv inserted
  unfolding insert_session
  insert-Inv = record {
    short = v.short;
    entry = λ j s h. elim (Bool-cases (sid == j)) [
      | inl same ↦
          let k : sid ≡ j = (list_beq_iff sid j).0 same in
          let e : s ≡ new_session now b.ttl sid p i =
            cc (h, k, get-put_self b.sessions sid (new_session now b.ttl sid p i)) in
          rw (e, ← k) new-EntryOk
      | inr differ ↦
          other-EntryOk j s
            (rw (get-put b.sessions sid j (new_session now b.ttl sid p i), differ) at h)
    ];
  }

-- Every section keeps the invariant.
pub Section-Inv : {b c : Broker} → Section b c → Inv b → Inv c
unfolding emit
Section-Inv (prunes now b) v = Pruned-Inv (prune_terminal-Pruned now b) v
Section-Inv (emits e b) v = same-Inv b _ refl refl refl v
Section-Inv (spawns sids b) v = same-Inv b _ refl refl refl v
Section-Inv (inserts now sid p i b fresh free) v = insert-Inv now sid p i b free v
Section-Inv (changes sid f b g) v = Change-Inv sid f b g v
Section-Inv (settles now s outcome b g) v = settle-Inv now s outcome b g v
Section-Inv (publishes principals b) v = publish-Inv principals b v
Section-Inv (revokes_section now sid s b g) v = revoked-Inv now sid s b g v

pub Steps-Inv : {b c : Broker} → Steps b c → Inv b → Inv c
Steps-Inv done v = v
Steps-Inv (step p s) v = Section-Inv s (Steps-Inv p v)

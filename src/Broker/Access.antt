-- ===== src/Broker/Access.antt =====
-- Who is authorised, in terms of the policy's lists, for `_authorized_principal_from`.
use hermes_fleet.Prelude.{
  ◌≡◌, sym, ap, ◌∙◌, ◌⊎◌, ◌↔◌, inl, inr, Bool, true, false, ◌&&◌, ◌||◌, ◌==◌, List, [], ◌∷◌, ◌++◌,
  All, Elem, contains, contains_iff, arith, list_eq, nat_eq, pair_eq, option_eq, if◌then◌else◌,
  Bool-cases, list_beq_iff, &&-left, &&-right, &&-true, ||-cases, ||-left, ||-right,
}
use mathlib.Core.Bool.{false≢true}
use hermes_fleet.Prelude.Text.{codes, is_nonempty}
use hermes_fleet.Broker.Types.{Invocation, AccessPrincipal, Broker}
use hermes_fleet.Broker.Exec.{Result, ok}
use hermes_fleet.Broker.Policy.{
  workspace_of, scope_of, granted_workspaces, agent_allowed, desktop_matches, route_matches,
  workspace_allowed, chat_allowed, grant_desktop, grant_chat, find_principal,
  authorized_principal_from,
}

abbrev pub IsDesktop : Invocation → Type 0
IsDesktop i = i.platform ≡ codes "desktop"

-- The principal has a route for the invocation: a desktop claim, or a platform, user and scope.
pub record HasRoute (p : AccessPrincipal) (i : Invocation) : Type 0 where
  pub desktop :
      IsDesktop i → Elem (i.browser_control_provider, i.browser_control_subject) p.desktop_routes
  pub chat : ¬ IsDesktop i → Elem (i.platform, (i.user_id, scope_of i.scope_id)) p.routes

-- The policy grants the principal this agent, workspace and kind of chat.
pub record Grants (b : Broker) (p : AccessPrincipal) (i : Invocation) : Type 0 where
  pub agent : Elem i.profile p.agents
  pub configured : Elem (workspace_of i) b.configured_workspaces
  pub granted : Elem (workspace_of i) (granted_workspaces p.browser_workspaces)
  pub kind :
      ¬ IsDesktop i
      → Elem i.chat_type (codes "dm" ∷ codes "private" ∷ [])
        ⊎ ((i.chat_type ≡ codes "group") × (is_nonempty i.thread_id ≡ true))

-- `p` is the first of the principals that has a route, and the policy grants it.
pub record Chosen (b : Broker) (ps : List AccessPrincipal) (i : Invocation) (p : AccessPrincipal)
    : Type 0 where
  pub before : List AccessPrincipal
  pub after : List AccessPrincipal
  pub split : ps ≡ before ++ (p ∷ after)
  pub none_before : All (λ q. ¬ HasRoute q i) before
  pub route : HasRoute p i
  pub grants : Grants b p i

abbrev is_desktop : Invocation → Bool
is_desktop i = i.platform == codes "desktop"

abbrev hits : AccessPrincipal → Invocation → Bool
hits p i = if is_desktop i then desktop_matches p i else route_matches p i

module _ (p : AccessPrincipal) (i : Invocation) where
  hits-HasRoute : hits p i ≡ true → HasRoute p i
  unfolding desktop_matches route_matches
  hits-HasRoute h = elim (Bool-cases (is_desktop i)) [
    | inl d ↦ record {
      desktop = λ e. (contains_iff _ _).0 (rw d at h);
      chat = λ ne. absurd (ne ((list_beq_iff _ _).0 d));
    }
    | inr d ↦ record {
      desktop = λ e. absurd (false≢true (sym d ∙ (list_beq_iff _ _).1 e));
      chat = λ ne. (contains_iff _ _).0 (rw d at h);
    }
  ]

  HasRoute-hits : HasRoute p i → hits p i ≡ true
  unfolding desktop_matches route_matches
  HasRoute-hits r = elim (Bool-cases (is_desktop i)) [
    | inl d ↦ rw d ((contains_iff _ _).1 (r.desktop ((list_beq_iff _ _).0 d)))
    | inr d ↦
        rw d ((contains_iff _ _).1 (r.chat (λ e. false≢true (sym d ∙ (list_beq_iff _ _).1 e))))
  ]

-- What the loop does with a principal that has a route.
abbrev grant : Broker → AccessPrincipal → Invocation → Result AccessPrincipal
grant b p i = if is_desktop i then grant_desktop b p i else grant_chat b p i

module _ (b : Broker) (p : AccessPrincipal) (i : Invocation) where
  abbrev passes : Bool
  passes =
      contains i.profile p.agents && workspace_allowed b p i && (is_desktop i || chat_allowed i)

  grant-passes : (q : AccessPrincipal) → grant b p i ≡ ok q → (q ≡ p) × (passes ≡ true)
  unfolding grant_desktop grant_chat
  grant-passes q h = ground arith

  passes-grant : passes ≡ true → grant b p i ≡ ok p
  unfolding grant_desktop grant_chat
  passes-grant h = ground arith

  chat_kind :
      chat_allowed i ≡ true
      → Elem i.chat_type (codes "dm" ∷ codes "private" ∷ [])
        ⊎ ((i.chat_type ≡ codes "group") × (is_nonempty i.thread_id ≡ true))
  unfolding chat_allowed
  chat_kind h =
      elim (||-cases (contains i.chat_type (codes "dm" ∷ codes "private" ∷ []))
        (i.chat_type == codes "group" && is_nonempty i.thread_id) h) [
          | inl direct ↦
              inl ((contains_iff i.chat_type (codes "dm" ∷ codes "private" ∷ [])).0 direct)
          | inr group ↦ inr (
            (list_beq_iff _ _).0 (&&-left _ _ group),
            &&-right (i.chat_type == codes "group") _ group,
          )
        ]

  kind_chat :
      Elem i.chat_type (codes "dm" ∷ codes "private" ∷ [])
        ⊎ ((i.chat_type ≡ codes "group") × (is_nonempty i.thread_id ≡ true))
      → chat_allowed i ≡ true
  unfolding chat_allowed
  kind_chat (inl direct) =
      ||-left _ (i.chat_type == codes "group" && is_nonempty i.thread_id)
        ((contains_iff i.chat_type (codes "dm" ∷ codes "private" ∷ [])).1 direct)
  kind_chat (inr (group, thread)) =
      ||-right (contains i.chat_type (codes "dm" ∷ codes "private" ∷ [])) _
        (&&-true _ _ ((list_beq_iff _ _).1 group) thread)

  passes-Grants : passes ≡ true → Grants b p i
  unfolding workspace_allowed
  passes-Grants h =
      let c = &&-left (contains i.profile p.agents && workspace_allowed b p i) _ h in
      let w = &&-right (contains i.profile p.agents) _ c in
      record {
        agent = (contains_iff _ _).0 (&&-left _ _ c);
        configured = (contains_iff _ _).0 (&&-left _ _ w);
        granted =
            (contains_iff _ _).0 (&&-right (contains (workspace_of i) b.configured_workspaces) _ w);
        kind = λ ne.
            elim (||-cases (is_desktop i) (chat_allowed i)
              (&&-right (contains i.profile p.agents && workspace_allowed b p i) _ h)) [
                | inl d ↦ absurd (ne ((list_beq_iff _ _).0 d))
                | inr k ↦ chat_kind k
              ];
      }

  Grants-passes : Grants b p i → passes ≡ true
  unfolding workspace_allowed
  Grants-passes g =
      &&-true _ _
        (&&-true _ _ ((contains_iff _ _).1 g.agent)
          (&&-true _ _ ((contains_iff _ _).1 g.configured) ((contains_iff _ _).1 g.granted)))
        (elim (Bool-cases (is_desktop i)) [
          | inl d ↦ ||-left _ _ d
          | inr d ↦
              ||-right (is_desktop i) _
                (kind_chat (g.kind (λ e. false≢true (sym d ∙ (list_beq_iff _ _).1 e))))
        ])

  -- The loop is the first principal with a route, and what is done with it.
  find_principal-step :
      (ps : List AccessPrincipal)
      → find_principal b (p ∷ ps) i ≡ (if hits p i then grant b p i else find_principal b ps i)
  unfolding find_principal
  find_principal-step ps = ground arith

find_principal-Chosen :
    (b : Broker) (ps : List AccessPrincipal) (i : Invocation) (q : AccessPrincipal)
    → find_principal b ps i ≡ ok q
    → Chosen b ps i q
find_principal-Chosen b [] i q h = unfold find_principal in cc
find_principal-Chosen b (p ∷ ps) i q h = elim (Bool-cases (hits p i)) [
  | inl hit ↦
      let g : grant b p i ≡ ok q = rw (find_principal-step b p i ps, hit) at h in
      let (same, pass) = grant-passes b p i q g in
      record {
        before = [];
        after = ps;
        split = rw same;
        none_before = tt;
        route = rw same (hits-HasRoute p i hit);
        grants = rw same (passes-Grants b p i pass);
      }
  | inr miss ↦
      let c = find_principal-Chosen b ps i q (rw (find_principal-step b p i ps, miss) at h) in
      record {
        before = p ∷ c.before;
        after = c.after;
        split = ap (λ r. p ∷ r) c.split;
        none_before = ((λ r. false≢true (sym miss ∙ HasRoute-hits p i r)), c.none_before);
        route = c.route;
        grants = c.grants;
      }
]

chosen-find_principal :
    (b : Broker) (before after : List AccessPrincipal) (i : Invocation) (q : AccessPrincipal)
    → All (λ p. ¬ HasRoute p i) before
    → HasRoute q i
    → Grants b q i
    → find_principal b (before ++ (q ∷ after)) i ≡ ok q
chosen-find_principal b [] after i q none_before route grants =
    rw (find_principal-step b q i after, HasRoute-hits q i route)
      (passes-grant b q i (Grants-passes b q i grants))
chosen-find_principal b (p ∷ before) after i q none_before route grants =
    elim (Bool-cases (hits p i)) [
      | inl hit ↦ absurd (none_before.0 (hits-HasRoute p i hit))
      | inr miss ↦
          rw (find_principal-step b p i (before ++ (q ∷ after)), miss)
            (chosen-find_principal b before after i q none_before.1 route grants)
    ]

refused_not_ok :
    (b : Broker) (ps : List AccessPrincipal) (i : Invocation) (q : AccessPrincipal)
    → agent_allowed b i.profile ≡ false
    → authorized_principal_from b ps i ≡ ok q
    → ⊥
unfolding authorized_principal_from
refused_not_ok b ps i q t h = ground arith

-- An invocation is authorised as `q` exactly when the broker serves its agent, and `q` is the first
-- principal with a route for it and is granted that agent, a configured workspace, and, off the
-- desktop, a direct chat or a thread of a group.
pub authorized_iff :
    (b : Broker) (ps : List AccessPrincipal) (i : Invocation) (q : AccessPrincipal)
    → (authorized_principal_from b ps i ≡ ok q)
      ↔ ((agent_allowed b i.profile ≡ true) × Chosen b ps i q)
unfolding authorized_principal_from
authorized_iff b ps i q = (
  (λ h. elim (Bool-cases (agent_allowed b i.profile)) [
    | inl t ↦ (t, find_principal-Chosen b ps i q (rw t at h))
    | inr t ↦ absurd (refused_not_ok b ps i q t h)
  ]),
  (λ c.
      let k = c.1 in
      rw (c.0, k.split)
        (chosen-find_principal b k.before k.after i q k.none_before k.route k.grants)),
)

-- ===== src/Origin/Policy.antt =====
-- What the routes that `load_principals` accepts satisfy.
use mathlib.Core.Path.{subst}
use mathlib.Core.Bool.{false≢true}
use mathlib.Core.List.{append_assoc, append-nil}
use hermes_fleet.Prelude.{
  ◌≡◌, ◌≢◌, refl, sym, ap, ◌∙◌, inl, inr, true, ◌&&◌, not, Option, none, some, List, [], ◌∷◌, ◌++◌,
  map, nat_eq, list_eq, pair_eq, option_eq, ◌==◌, All, All-append, Elem, contains, contains_iff,
  Bool-cases, &&-left, &&-right, list_beq_iff, Eq,
}
use hermes_fleet.Prelude.Text.{Text, codes, strip, is_nonempty}
use hermes_fleet.Broker.Types.{Route}
use hermes_fleet.Prelude.Json.{Json, string, null, as_list}
use hermes_fleet.Origin.Checks.{bind-some, check-some, Distinct, append-Distinct, run_all_lem}
use hermes_fleet.Origin.Principals.{
  run_all, scoped, route_item, load_route, load_desktop_route, desktop_item, is_token,
  synthetic_desktop_routes,
}

-- A loop that puts each key that it accepts behind those it has seen.
abbrev pub Appends : {K B : Type 0} → (B → K) → List K → List K → List B → Type 0
Appends key start seen bs = (seen ≡ start ++ map key bs) × (Distinct start → Distinct seen)

pub not_seen :
    {K : Type 0} ⦃e : Eq K⦄ (k : K) (seen : List K) → not (contains k seen) ≡ true → ¬ Elem k seen
not_seen k seen h e = absurd (false≢true (sym (ap not ((contains_iff k seen).1 e)) ∙ h))

map-snoc :
    {K B : Type 0} (key : B → K) (bs : List B) (b : B)
    → map key (bs ++ (b ∷ [])) ≡ map key bs ++ (key b ∷ [])
map-snoc key [] b = refl
map-snoc key (x ∷ bs) b = ap (λ r. key x ∷ r) (map-snoc key bs b)

pub Appends-more :
    {K B : Type 0} (key : B → K) (start seen : List K) (bs : List B) (b : B)
    → Appends key start seen bs
    → ¬ Elem (key b) seen
    → Appends key start (seen ++ (key b ∷ [])) (bs ++ (b ∷ []))
Appends-more key start seen bs b a fresh = (
  ap (λ r. r ++ (key b ∷ [])) a.0
      ∙ append_assoc start (map key bs) (key b ∷ [])
      ∙ ap (λ r. start ++ r) (sym (map-snoc key bs b)),
  (λ d. append-Distinct seen (key b) (a.1 d) fresh),
)

-- A Slack route names its team, and no other route has a scope.
abbrev pub ScopeOk : Text → Option Text → Type 0
ScopeOk platform none = platform ≢ codes "slack"
ScopeOk platform (some s) = (platform ≡ codes "slack") × (is_nonempty s ≡ true)

pub record RouteOk (r : Route) : Type 0 where
  pub platform : is_nonempty r.0 ≡ true
  pub user : is_nonempty r.1.0 ≡ true
  pub scope : ScopeOk r.0 r.1.1

scoped-ScopeOk :
    (platform user : Text) (j : Json) (r : Route)
    → scoped platform user j ≡ some r
    → ScopeOk r.0 r.1.1
scoped-ScopeOk platform user (string s) r h =
    elim (Bool-cases (platform == codes "slack" && is_nonempty (strip s))) [
      | inl t ↦
          let e : (platform, (user, some (strip s))) ≡ r = cc (rw t at h) in
          subst (λ (r : Route). ScopeOk r.0 r.1.1) e
            ((list_beq_iff _ _).0 (&&-left _ _ t), &&-right (platform == codes "slack") _ t)
      | inr t ↦ cc (rw t at h)
    ]
scoped-ScopeOk platform user null r h = elim (Bool-cases (platform == codes "slack")) [
  | inl t ↦ cc (rw t at h)
  | inr t ↦
      let e : (platform, (user, none)) ≡ r = cc (rw t at h) in
      subst (λ (r : Route). ScopeOk r.0 r.1.1) e
        (λ same. false≢true (sym t ∙ (list_beq_iff _ _).1 same))
]
scoped-ScopeOk platform user _ r h = cc

route_item-ScopeOk : (parts : List Json) (r : Route) → route_item parts ≡ some r → ScopeOk r.0 r.1.1
route_item-ScopeOk (string platform ∷ string user ∷ scope ∷ []) r h =
    scoped-ScopeOk (strip platform) (strip user) scope r h
route_item-ScopeOk _ r h = cc

-- What one accepted route adds.
record Loaded (r : Route) (seen seen' : List Route) : Type 0 where
  pub fine : RouteOk r
  pub fresh : ¬ Elem r seen
  pub grown : seen' ≡ seen ++ (r ∷ [])

load_route-Loaded :
    (j : Json) (seen : List Route) (r : Route) (seen' : List Route)
    → load_route j seen ≡ some (r, seen')
    → Loaded r seen seen'
unfolding load_route
load_route-Loaded j seen r seen' h =
    let (parts, listed, h₁) = bind-some (as_list j) _ (r, seen') h in
    let (r₁, item, h₂) = bind-some (route_item parts) _ (r, seen') h₁ in
    let tests = is_nonempty r₁.0 && is_nonempty r₁.1.0 && not (contains r₁ seen) in
    let (t, last) = check-some tests (λ u. some (r₁, seen ++ (r₁ ∷ []))) (r, seen') h₂ in
    let same : r₁ ≡ r = cc in
    let grown : seen ++ (r₁ ∷ []) ≡ seen' = cc in
    let named = &&-left (is_nonempty r₁.0 && is_nonempty r₁.1.0) _ t in
    subst (λ r. Loaded r seen seen') same
      (record {
        fine = record {
          platform = &&-left (is_nonempty r₁.0) _ named;
          user = &&-right (is_nonempty r₁.0) _ named;
          scope = route_item-ScopeOk parts r₁ item;
        };
        fresh = not_seen r₁ seen (&&-right (is_nonempty r₁.0 && is_nonempty r₁.1.0) _ t);
        grown = sym grown;
      })

-- All routes of one row.
abbrev pub Routes : List Route → List Route → List Route → Type 0
Routes start seen rs = Appends (λ (r : Route). r) start seen rs × All RouteOk rs

Routes-more :
    (start : List Route) (j : Json) (seen rs : List Route) (r : Route) (seen' : List Route)
    → Routes start seen rs
    → load_route j seen ≡ some (r, seen')
    → Routes start seen' (rs ++ (r ∷ []))
Routes-more start j seen rs r seen' i h =
    let l = load_route-Loaded j seen r seen' h in
    (
      subst (λ s. Appends (λ (r : Route). r) start s (rs ++ (r ∷ []))) (sym l.grown)
          (Appends-more (λ (r : Route). r) start seen rs r i.0 l.fresh),
      All-append RouteOk rs (r ∷ []) i.1 (l.fine, tt),
    )

pub map_self : {A : Type 0} (xs : List A) → map (λ (x : A). x) xs ≡ xs
map_self [] = refl
map_self (x ∷ xs) = ap (λ r. x ∷ r) (map_self xs)

pub start-Appends : {K B : Type 0} (key : B → K) (start : List K) → Appends key start start []
start-Appends key start = (sym (append-nil start), λ d. d)

pub routes_lem :
    (rows : List Json) (start rs seen : List Route)
    → run_all load_route rows start ≡ some (rs, seen)
    → Routes start seen rs
routes_lem rows start rs seen h =
    run_all_lem load_route (Routes start) (Routes-more start) rows start [] rs seen
      (start-Appends (λ (r : Route). r) start, tt) h

desktop_more :
    (start : List (Text × Text)) (j : Json) (seen rs : List (Text × Text)) (r : Text × Text)
    (seen' : List (Text × Text))
    → Appends (λ (r : Text × Text). r) start seen rs
    → load_desktop_route j seen ≡ some (r, seen')
    → Appends (λ (r : Text × Text). r) start seen' (rs ++ (r ∷ []))
unfolding load_desktop_route
desktop_more start j seen rs r seen' i h =
    let (parts, listed, h₁) = bind-some (as_list j) _ (r, seen') h in
    let (r₁, item, h₂) = bind-some (desktop_item parts) _ (r, seen') h₁ in
    let front = is_token r₁.0 && is_token r₁.1 && not (contains r₁ synthetic_desktop_routes) in
    let (t, last) =
      check-some (front && not (contains r₁ seen)) (λ u. some (r₁, seen ++ (r₁ ∷ []))) (r, seen')
        h₂ in
    let same : r₁ ≡ r = cc in
    let grown : seen ++ (r₁ ∷ []) ≡ seen' = cc in
    subst (λ s. Appends (λ (r : Text × Text). r) start s (rs ++ (r ∷ []))) grown
      (subst (λ r. Appends (λ (r : Text × Text). r) start (seen ++ (r₁ ∷ [])) (rs ++ (r ∷ []))) same
        (Appends-more (λ (r : Text × Text). r) start seen rs r₁ i
          (not_seen r₁ seen (&&-right front _ t))))

pub desktop_lem :
    (rows : List Json) (start rs seen : List (Text × Text))
    → run_all load_desktop_route rows start ≡ some (rs, seen)
    → Appends (λ (r : Text × Text). r) start seen rs
desktop_lem rows start rs seen h =
    run_all_lem load_desktop_route (Appends (λ (r : Text × Text). r) start) (desktop_more start)
      rows start [] rs seen (start-Appends (λ (r : Text × Text). r) start) h

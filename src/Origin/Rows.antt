-- ===== src/Origin/Rows.antt =====
-- What a policy that `load_principals` of origin.py accepts satisfies.
use mathlib.Core.Path.{subst}
use mathlib.Core.List.{append_assoc, append-nil}
use hermes_fleet.Prelude.{
  ◌≡◌, ◌≤◌, refl, sym, ap, ◌∙◌, ◌&&◌, not, Option, some, List, [], ◌∷◌, ◌++◌, map, nat_eq, list_eq,
  pair_eq, option_eq, All, All-append, Elem, contains, &&-left, &&-right, length, leb, leb→le,
}
use hermes_fleet.Prelude.Text.{Text, codes, strip, lower, is_nonempty}
use hermes_fleet.Broker.Types.{Route, AccessPrincipal}
use hermes_fleet.Prelude.Json.{Json, string, null, as_list, as_string, as_object, value_or, lookup}
use hermes_fleet.Origin.Routing.{is_agent, default_name}
use hermes_fleet.Origin.Checks.{
  some_pair, bind-some, check-some, Distinct, append-Distinct, run_all_lem,
}
use hermes_fleet.Origin.Principals.{
  run_all, load_route, load_desktop_route, workspace_name, load_row, load_principals, Seen,
  nonempty_list, list_at, group_items, load_group_route, text_or_empty, is_only,
}
use hermes_fleet.Origin.Policy.{
  Appends, Appends-more, not_seen, start-Appends, map_self, RouteOk, Routes, routes_lem,
  desktop_lem,
}

workspace_more :
    (j : Json) (seen ws : List Text) (w : Text) (seen' : List Text)
    → Appends (λ (t : Text). t) [] seen ws
    → workspace_name j seen ≡ some (w, seen')
    → Appends (λ (t : Text). t) [] seen' (ws ++ (w ∷ []))
workspace_more j seen ws w seen' i h =
    let (s, named, h₁) = bind-some (as_string j) _ (w, seen') h in
    let (t, last) =
      check-some (is_agent s && not (contains s seen)) (λ u. some (s, seen ++ (s ∷ []))) (w, seen')
        h₁ in
    let same : s ≡ w = cc in
    let grown : seen ++ (s ∷ []) ≡ seen' = cc in
    subst (λ v. Appends (λ (t : Text). t) [] v (ws ++ (w ∷ []))) grown
      (subst (λ w. Appends (λ (t : Text). t) [] (seen ++ (s ∷ [])) (ws ++ (w ∷ []))) same
        (Appends-more (λ (t : Text). t) [] seen ws s i
          (not_seen s seen (&&-right (is_agent s) _ t))))

workspaces_lem :
    (rows : List Json) (ws seen : List Text)
    → run_all workspace_name rows [] ≡ some (ws, seen)
    → Distinct ws
workspaces_lem rows ws seen h =
    let a =
      run_all_lem workspace_name (Appends (λ (t : Text). t) []) workspace_more rows [] [] ws seen
        (start-Appends (λ (t : Text). t) []) h in
    subst Distinct (a.0 ∙ map_self ws) (a.1 tt)

-- What one accepted row adds.
pub record RowLoaded (configured : Text) (p : AccessPrincipal) (seen seen' : Seen) : Type 0 where
  pub fresh : ¬ Elem p.principal_id seen.ids
  pub ids : seen'.ids ≡ seen.ids ++ (p.principal_id ∷ [])
  pub routes : Routes seen.routes seen'.routes p.routes
  pub some_route : 1 ≤ length p.routes
  pub desktop : Appends (λ (r : Text × Text). r) seen.desktop seen'.desktop p.desktop_routes
  pub agent : p.agents ≡ configured ∷ []
  pub workspaces : Distinct p.browser_workspaces

load_row-RowLoaded :
    (text_of : Json → Text) (configured : Text) (j : Json) (seen : Seen) (p : AccessPrincipal)
    (seen' : Seen)
    → load_row text_of configured j seen ≡ some (p, seen')
    → RowLoaded configured p seen seen'
unfolding load_row
load_row-RowLoaded text_of configured j seen p seen' h =
    let out : AccessPrincipal × Seen = (p, seen') in
    let (fs, row, h₁) = bind-some (as_object j) _ out h in
    let pid = strip (text_or_empty text_of (lookup (codes "principal_id") fs)) in
    let email = lower (strip (text_or_empty text_of (lookup (codes "access_email") fs))) in
    let (route_rows, listed, h₂) =
      bind-some (as_list (value_or (lookup (codes "routes") fs) null)) _ out h₁ in
    let identity = is_nonempty pid && is_nonempty email && not (contains pid seen.ids) in
    let (t, h₃) =
      check-some
        (identity && is_only configured (as_list (value_or (lookup (codes "agents") fs) null))) _
        out h₂ in
    let (workspace_rows, given, h₄) =
      bind-some (list_at (codes "browser_workspaces") fs (string default_name ∷ [])) _ out h₃ in
    let (t₁, h₅) = check-some (leb 1 (length workspace_rows)) _ out h₄ in
    let (workspaces, ws, h₆) = bind-some (run_all workspace_name workspace_rows []) _ out h₅ in
    let (routes, rs, h₇) = bind-some (run_all load_route route_rows seen.routes) _ out h₆ in
    let (t₂, h₈) = check-some (leb 1 (length routes.0)) _ out h₇ in
    let (desktop_rows, drs, h₉) = bind-some (list_at (codes "desktop_routes") fs []) _ out h₈ in
    let (desktop, ds, h₁₀) =
      bind-some (run_all load_desktop_route desktop_rows seen.desktop) _ out h₉ in
    let (group_rows, grs, h₁₁) =
      bind-some (group_items (lookup (codes "group_routes") fs)) _ out h₁₀ in
    let (groups, gs, last) =
      bind-some (run_all (load_group_route configured) group_rows []) _ out h₁₁ in
    let made : AccessPrincipal = record {
      principal_id = pid;
      access_email = email;
      routes = routes.0;
      agents = configured ∷ [];
      group_routes = groups.0;
      desktop_routes = desktop.0;
      browser_workspaces = workspaces.0;
    } in
    let left : Seen = record {
      ids = seen.ids ++ (pid ∷ []);
      routes = routes.1;
      desktop = desktop.1;
    } in
    let ends = some_pair made p left seen' last in
    subst (λ s. RowLoaded configured p seen s) ends.1
      (subst (λ p. RowLoaded configured p seen left) ends.0
        (record {
          fresh =
              not_seen pid seen.ids
                (&&-right (is_nonempty pid && is_nonempty email) _ (&&-left identity _ t));
          ids = refl;
          routes = routes_lem route_rows seen.routes routes.0 routes.1 rs;
          some_route = leb→le 1 (length routes.0) t₂;
          desktop = desktop_lem desktop_rows seen.desktop desktop.0 desktop.1 ds;
          agent = refl;
          workspaces = workspaces_lem workspace_rows workspaces.0 workspaces.1 ws;
        }))

abbrev pub all_routes : List AccessPrincipal → List Route
all_routes [] = []
all_routes (p ∷ ps) = p.routes ++ all_routes ps

abbrev pub all_desktop_routes : List AccessPrincipal → List (Text × Text)
all_desktop_routes [] = []
all_desktop_routes (p ∷ ps) = p.desktop_routes ++ all_desktop_routes ps

abbrev pub ids : List AccessPrincipal → List Text
ids ps = map (λ (p : AccessPrincipal). p.principal_id) ps

pub record PrincipalOk (configured : Text) (p : AccessPrincipal) : Type 0 where
  pub agent : p.agents ≡ configured ∷ []
  pub some_route : 1 ≤ length p.routes
  pub routes : All RouteOk p.routes
  pub workspaces : Distinct p.browser_workspaces

-- A policy of one agent: no id, no route of a chat and no route of the desktop stands twice in it.
pub record Policy (configured : Text) (ps : List AccessPrincipal) : Type 0 where
  pub distinct_ids : Distinct (ids ps)
  pub distinct_routes : Distinct (all_routes ps)
  pub distinct_desktop_routes : Distinct (all_desktop_routes ps)
  pub principals : All (PrincipalOk configured) ps

record Rows (configured : Text) (seen : Seen) (ps : List AccessPrincipal) : Type 0 where
  pub same_ids : seen.ids ≡ ids ps
  pub same_routes : seen.routes ≡ all_routes ps
  pub same_desktop : seen.desktop ≡ all_desktop_routes ps
  pub policy : Policy configured ps

all_routes-snoc :
    (ps : List AccessPrincipal) (p : AccessPrincipal)
    → all_routes (ps ++ (p ∷ [])) ≡ all_routes ps ++ p.routes
all_routes-snoc [] p = append-nil p.routes
all_routes-snoc (q ∷ ps) p =
    ap (λ r. q.routes ++ r) (all_routes-snoc ps p)
    ∙ sym (append_assoc q.routes (all_routes ps) p.routes)

all_desktop_routes-snoc :
    (ps : List AccessPrincipal) (p : AccessPrincipal)
    → all_desktop_routes (ps ++ (p ∷ [])) ≡ all_desktop_routes ps ++ p.desktop_routes
all_desktop_routes-snoc [] p = append-nil p.desktop_routes
all_desktop_routes-snoc (q ∷ ps) p =
    ap (λ r. q.desktop_routes ++ r) (all_desktop_routes-snoc ps p)
    ∙ sym (append_assoc q.desktop_routes (all_desktop_routes ps) p.desktop_routes)

ids-snoc :
    (ps : List AccessPrincipal) (p : AccessPrincipal)
    → ids (ps ++ (p ∷ [])) ≡ ids ps ++ (p.principal_id ∷ [])
ids-snoc [] p = refl
ids-snoc (q ∷ ps) p = ap (λ r. q.principal_id ∷ r) (ids-snoc ps p)

Rows-more :
    (text_of : Json → Text) (configured : Text) (j : Json) (seen : Seen) (ps : List AccessPrincipal)
    (p : AccessPrincipal) (seen' : Seen)
    → Rows configured seen ps
    → load_row text_of configured j seen ≡ some (p, seen')
    → Rows configured seen' (ps ++ (p ∷ []))
Rows-more text_of configured j seen ps p seen' i h =
    let l = load_row-RowLoaded text_of configured j seen p seen' h in
    let i_ids : seen'.ids ≡ ids (ps ++ (p ∷ [])) =
      l.ids ∙ ap (λ r. r ++ (p.principal_id ∷ [])) i.same_ids ∙ sym (ids-snoc ps p) in
    let i_routes : seen'.routes ≡ all_routes (ps ++ (p ∷ [])) =
      l.routes.0.0
      ∙ ap (λ r. seen.routes ++ r) (map_self p.routes)
      ∙ ap (λ r. r ++ p.routes) i.same_routes
      ∙ sym (all_routes-snoc ps p) in
    let i_desktop : seen'.desktop ≡ all_desktop_routes (ps ++ (p ∷ [])) =
      l.desktop.0
      ∙ ap (λ r. seen.desktop ++ r) (map_self p.desktop_routes)
      ∙ ap (λ r. r ++ p.desktop_routes) i.same_desktop
      ∙ sym (all_desktop_routes-snoc ps p) in
    let v = i.policy in
    record {
      same_ids = i_ids;
      same_routes = i_routes;
      same_desktop = i_desktop;
      policy = record {
        distinct_ids = subst Distinct (sym l.ids ∙ i_ids) (
            append-Distinct seen.ids p.principal_id (subst Distinct (sym i.same_ids) v.distinct_ids)
              l.fresh);
        distinct_routes =
            subst Distinct i_routes
              (l.routes.0.1 (subst Distinct (sym i.same_routes) v.distinct_routes));
        distinct_desktop_routes =
            subst Distinct i_desktop
              (l.desktop.1 (subst Distinct (sym i.same_desktop) v.distinct_desktop_routes));
        principals = All-append (PrincipalOk configured) ps (p ∷ []) v.principals (
          record {
            agent = l.agent;
            some_route = l.some_route;
            routes = l.routes.1;
            workspaces = l.workspaces;
          },
          tt,
        );
      };
    }

no_Rows : (configured : Text) → Rows configured (record { ids = []; routes = []; desktop = [] }) []
no_Rows configured = record {
  same_ids = refl;
  same_routes = refl;
  same_desktop = refl;
  policy = record {
    distinct_ids = tt;
    distinct_routes = tt;
    distinct_desktop_routes = tt;
    principals = tt;
  };
}

-- A policy file that the loader accepts serves the configured agent alone; no principal's id, and no
-- route of a chat or of the desktop, stands in it twice, so that a route names one principal; every
-- principal has a route, and a route has a scope exactly where its platform is Slack.
pub load_principals-Policy :
    (text_of : Json → Text) (configured : Text) (document : Option Json) (ps : List AccessPrincipal)
    → load_principals text_of configured document ≡ some ps
    → Policy configured ps
unfolding load_principals
load_principals-Policy text_of configured document ps h =
    let (j, read, h₁) = bind-some document _ ps h in
    let (rows, listed, h₂) = bind-some (nonempty_list j) _ ps h₁ in
    let (r, ran, last) =
      bind-some
        (run_all (load_row text_of configured) rows
          (record { ids = []; routes = []; desktop = [] }))
        _ ps h₂ in
    let same : r.0 ≡ ps = cc in
    let all =
      run_all_lem (load_row text_of configured) (Rows configured) (Rows-more text_of configured)
        rows _ [] r.0 r.1 (no_Rows configured) ran in
    subst (Policy configured) same all.policy

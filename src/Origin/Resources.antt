-- ===== src/Origin/Resources.antt =====
-- `load_workspace_routes`, `split_host` and `load_capabilities` of origin.py. A SystemExit is `none`.
-- `urlsplit`, `int` and `Path.resolve` are parameters.
use mathlib.Core.Path.{subst}
use mathlib.Core.Bool.{false≢true}
use mathlib.Core.List.{map, map-append}
use hermes_fleet.Prelude.{
  ℕ, ◌≡◌, refl, sym, ap, ◌∙◌, Bool, true, false, arith, ◌&&◌, ◌||◌, not, Option, none, some, List,
  [], ◌∷◌, ◌++◌, nat_eq, list_eq, ◌==◌, if◌then◌else◌, leb, nat_beq, contains, contains_iff, Elem,
  &&-right,
}
use hermes_fleet.Prelude.Text.{Text, codes, strip, is_nonempty, is_space}
use hermes_fleet.Prelude.Json.{
  Json, null, Fields, field_names, lookup, as_string, as_object, value_or,
}
use hermes_fleet.Origin.Routing.{Route, is_agent, default_name, route_key}
use hermes_fleet.Origin.Principals.{◌>>=◌, check_that, run_all, all_in, nonempty_list}
use hermes_fleet.Origin.Checks.{
  some_pair, bind-some, check-some, Distinct, append-Distinct, run_all_lem,
}

pub record Url : Type 0 where
  pub scheme : Text
  pub netloc : Text
  pub has_user : Bool
  pub has_query : Bool
  pub has_fragment : Bool

pub record Parsers : Type 0 where
  pub url : Text → Option Url
  pub int : Text → Option ℕ
  pub resolve : Text → Text

abbrev pub or_here : Option (Text × Text) → ℕ → Text → Option (Text × Text)
or_here (some (host, port)) c s = some (c ∷ host, port)
or_here none c s = if nat_beq c b':' then some ([], s) else none

-- `value.rsplit(":", 1)` in two parts
unfoldable pub rsplit_colon : Text → Option (Text × Text)
rsplit_colon [] = none
rsplit_colon (c ∷ s) = or_here (rsplit_colon s) c s

unfoldable pub split_host : Parsers → Text → Option (Text × ℕ)
split_host parse value =
    rsplit_colon value >>= λ parts. parse.int parts.1 >>= λ port. some (parts.0, port)

abbrev pub has_space : Text → Bool
has_space [] = false
has_space (c ∷ s) = is_space c || has_space s

abbrev pub is_absolute : Text → Bool
is_absolute [] = false
is_absolute (c ∷ s) = nat_beq c b'/'

abbrev pub resource_keys : List Text
resource_keys =
    codes "id" ∷ codes "novnc_upstream" ∷ codes "lock_file" ∷ codes "checkpoint_url" ∷ []

abbrev pub nonempty_at : Text → Fields → Option Text
nonempty_at key fs =
    as_string (value_or (lookup key fs) null) >>= λ s. check_that (is_nonempty s) >>= λ u. some s

-- What the rows before have used.
pub record Used : Type 0 where
  pub names : List Text
  pub upstreams : List Text
  pub locks : List Text
  pub checkpoints : List Text

abbrev pub endpoints_ok : Text × ℕ → Text → Text → Url → Bool
endpoints_ok host upstream lock url =
    is_nonempty host.0
    && leb 1 host.1
    && leb host.1 65535
    && not (has_space upstream)
    && is_absolute lock
    && not (has_space lock)
    && contains url.scheme (codes "http" ∷ codes "https" ∷ [])
    && is_nonempty url.netloc
    && not url.has_user
    && not url.has_query
    && not url.has_fragment

-- A resource gives a name, and an entry of the three tables.
unfoldable pub load_resource : Parsers → Text → Json → Used → Option ((Text × Route) × Used)
unfolding split_host
load_resource parse configured j used = as_object j >>= λ fs.
    check_that (all_in (field_names fs) resource_keys && all_in resource_keys (field_names fs))
    >>= λ u. as_string (value_or (lookup (codes "id") fs) null) >>= λ name.
        check_that (is_agent name && not (contains name used.names)) >>= λ u₁.
        nonempty_at (codes "novnc_upstream") fs >>= λ upstream.
        nonempty_at (codes "lock_file") fs >>= λ lock.
        nonempty_at (codes "checkpoint_url") fs >>= λ checkpoint.
        split_host parse upstream >>= λ host. parse.url checkpoint >>= λ url.
        check_that (endpoints_ok host upstream lock url) >>= λ u₂.
        check_that (
          not (contains upstream used.upstreams)
          && not (contains (parse.resolve lock) used.locks)
          && not (contains checkpoint used.checkpoints))
        >>= λ u₃. some (
          (
            route_key configured name,
            record { upstream = upstream; lock = parse.resolve lock; checkpoint = checkpoint },
          ),
          record {
            names = used.names ++ (name ∷ []);
            upstreams = used.upstreams ++ (upstream ∷ []);
            locks = used.locks ++ (parse.resolve lock ∷ []);
            checkpoints = used.checkpoints ++ (checkpoint ∷ []);
          },
        )

-- The names, and what the rows put into the tables; a file that is not configured is the default alone.
unfoldable pub load_workspace_routes :
    Parsers → Text → Option (Option Json) → Option (Used × List (Text × Route))
unfolding load_resource
load_workspace_routes parse configured none =
    some (record { names = default_name ∷ []; upstreams = []; locks = []; checkpoints = [] }, [])
load_workspace_routes parse configured (some document) = document >>= λ j.
    nonempty_list j >>= λ rows.
    run_all (load_resource parse configured) rows
      (record { names = []; upstreams = []; locks = []; checkpoints = [] })
    >>= λ r. check_that (contains default_name r.1.names) >>= λ u. some (r.1, r.0)

-- `{token: configured_agent}` is the token. The file's text, or none where it cannot be read.
unfoldable pub load_capabilities : Text → Text → Text → Option Text → Option Text
load_capabilities configured cap_path cap_agent content =
    check_that (is_nonempty (strip cap_path) && strip cap_agent == configured) >>= λ u.
    content >>= λ text.
    check_that (is_nonempty (strip text) && not (has_space (strip text))) >>= λ u₁.
    some (strip text)

abbrev pub column : (Route → Text) → List (Text × Route) → List Text
column f tables = map (λ (t : Text × Route). f t.1) tables

-- The tables have an entry for each name, and no two entries share a physical endpoint.
pub record Separate (configured : Text) (names : List Text) (tables : List (Text × Route))
    : Type 0 where
  pub keys : map (λ (t : Text × Route). t.0) tables ≡ map (route_key configured) names
  pub names_differ : Distinct names
  pub upstreams : Distinct (column (λ r. r.upstream) tables)
  pub locks : Distinct (column (λ r. r.lock) tables)
  pub checkpoints : Distinct (column (λ r. r.checkpoint) tables)

-- What the loop has seen is what it has put into the tables.
record Tracked (configured : Text) (used : Used) (tables : List (Text × Route)) : Type 0 where
  pub separate : Separate configured used.names tables
  pub upstreams : column (λ r. r.upstream) tables ≡ used.upstreams
  pub locks : column (λ r. r.lock) tables ≡ used.locks
  pub checkpoints : column (λ r. r.checkpoint) tables ≡ used.checkpoints

map-snoc :
    {A B : Type 0} (f : A → B) (xs : List A) (y : A) (ys : List B)
    → map f xs ≡ ys
    → map f (xs ++ (y ∷ [])) ≡ ys ++ (f y ∷ [])
map-snoc f xs y ys e = map-append f xs (y ∷ []) ∙ ap (λ (zs : List _). zs ++ (f y ∷ [])) e

-- One more value that has not been seen
snoc-Distinct :
    (f : Text × Route → Text) (tables : List (Text × Route)) (entry : Text × Route)
    (seen : List Text)
    → map f tables ≡ seen
    → Distinct (map f tables)
    → contains (f entry) seen ≡ false
    → Distinct (map f (tables ++ (entry ∷ [])))
snoc-Distinct f tables entry seen e d fresh =
    subst Distinct (sym (map-snoc f tables entry (map f tables) refl)) (
      append-Distinct (map f tables) (f entry) d (λ k.
        false≢true (sym fresh ∙ (contains_iff (f entry) seen).1 (subst (Elem (f entry)) e k))))

not-true : (a : Bool) → not a ≡ true → a ≡ false
not-true a h = ground (arith, h)

three_unseen :
    (a b c : Bool) → (not a && not b && not c) ≡ true → (a ≡ false) × (b ≡ false) × (c ≡ false)
three_unseen a b c h = (ground (arith, h), ground (arith, h), ground (arith, h))

entered :
    (configured : Text) (used : Used) (tables : List (Text × Route)) (name : Text)
    (entry : Text × Route)
    → entry.0 ≡ route_key configured name
    → Tracked configured used tables
    → contains name used.names ≡ false
    → contains entry.1.upstream used.upstreams ≡ false
    → contains entry.1.lock used.locks ≡ false
    → contains entry.1.checkpoint used.checkpoints ≡ false
    → Tracked configured
        (record {
          names = used.names ++ (name ∷ []);
          upstreams = used.upstreams ++ (entry.1.upstream ∷ []);
          locks = used.locks ++ (entry.1.lock ∷ []);
          checkpoints = used.checkpoints ++ (entry.1.checkpoint ∷ []);
        })
        (tables ++ (entry ∷ []))
entered configured used tables name entry key v n u l c =
    let names' = used.names ++ (name ∷ []) in
    let s = v.separate in
    record {
      separate = record {
        keys =
            map-snoc (λ (t : Text × Route). t.0) tables entry _ s.keys
            ∙ ap (λ k. map (route_key configured) used.names ++ (k ∷ [])) key
            ∙ sym (map-snoc (route_key configured) used.names name _ refl);
        names_differ =
            append-Distinct used.names name s.names_differ
              (λ k. false≢true (sym n ∙ (contains_iff name used.names).1 k));
        upstreams =
            snoc-Distinct (λ (t : Text × Route). t.1.upstream) tables entry used.upstreams
              v.upstreams s.upstreams u;
        locks =
            snoc-Distinct (λ (t : Text × Route). t.1.lock) tables entry used.locks v.locks s.locks
              l;
        checkpoints =
            snoc-Distinct (λ (t : Text × Route). t.1.checkpoint) tables entry used.checkpoints
              v.checkpoints s.checkpoints c;
      };
      upstreams = map-snoc (λ (t : Text × Route). t.1.upstream) tables entry _ v.upstreams;
      locks = map-snoc (λ (t : Text × Route). t.1.lock) tables entry _ v.locks;
      checkpoints = map-snoc (λ (t : Text × Route). t.1.checkpoint) tables entry _ v.checkpoints;
    }

load_resource-Tracked :
    (parse : Parsers) (configured : Text) (j : Json) (used : Used) (tables : List (Text × Route))
    (out : Text × Route) (used' : Used)
    → Tracked configured used tables
    → load_resource parse configured j used ≡ some (out, used')
    → Tracked configured used' (tables ++ (out ∷ []))
unfolding load_resource
load_resource-Tracked parse configured j used tables out used' v h =
    let r : (Text × Route) × Used = (out, used') in
    let (fs, row, h₁) = bind-some (as_object j) _ r h in
    let (t, h₂) =
      check-some (all_in (field_names fs) resource_keys && all_in resource_keys (field_names fs)) _
        r h₁ in
    let (name, named, h₃) = bind-some (as_string (value_or (lookup (codes "id") fs) null)) _ r h₂ in
    let (t₁, h₄) = check-some (is_agent name && not (contains name used.names)) _ r h₃ in
    let (upstream, u, h₅) = bind-some (nonempty_at (codes "novnc_upstream") fs) _ r h₄ in
    let (lock, l, h₆) = bind-some (nonempty_at (codes "lock_file") fs) _ r h₅ in
    let (checkpoint, c, h₇) = bind-some (nonempty_at (codes "checkpoint_url") fs) _ r h₆ in
    let (host, s, h₈) = bind-some (split_host parse upstream) _ r h₇ in
    let (url, p, h₉) = bind-some (parse.url checkpoint) _ r h₈ in
    let (t₂, h₁₀) = check-some (endpoints_ok host upstream lock url) _ r h₉ in
    let (t₃, last) =
      check-some
        (not (contains upstream used.upstreams)
          && not (contains (parse.resolve lock) used.locks)
          && not (contains checkpoint used.checkpoints))
        _ r h₁₀ in
    let left : Used = record {
      names = used.names ++ (name ∷ []);
      upstreams = used.upstreams ++ (upstream ∷ []);
      locks = used.locks ++ (parse.resolve lock ∷ []);
      checkpoints = used.checkpoints ++ (checkpoint ∷ []);
    } in
    let entry : Text × Route = (
      route_key configured name,
      record { upstream = upstream; lock = parse.resolve lock; checkpoint = checkpoint },
    ) in
    let (unseen, u₁, u₂) = three_unseen _ _ _ t₃ in
    let same = some_pair entry out left used' last in
    subst (λ (e : Text × Route). Tracked configured used' (tables ++ (e ∷ []))) same.0
      (subst (λ (n : Used). Tracked configured n (tables ++ (entry ∷ []))) same.1
        (entered configured used tables name entry refl v
          (not-true (contains name used.names) (&&-right (is_agent name) _ t₁)) unseen u₁ u₂))

-- A resources file that the loader accepts keeps the default workspace; the tables have the key of each of its
-- workspaces, no name stands twice, and no two entries of the tables share a viewer's upstream, a lock file or a
-- checkpoint address.
pub load_workspace_routes-Separate :
    (parse : Parsers) (configured : Text) (document : Option Json) (used : Used)
    (tables : List (Text × Route))
    → load_workspace_routes parse configured (some document) ≡ some (used, tables)
    → Separate configured used.names tables × Elem default_name used.names
unfolding load_workspace_routes
load_workspace_routes-Separate parse configured document used tables h =
    let out : Used × List (Text × Route) = (used, tables) in
    let (j, read, h₁) = bind-some document _ out h in
    let (rows, listed, h₂) = bind-some (nonempty_list j) _ out h₁ in
    let empty : Used = record { names = []; upstreams = []; locks = []; checkpoints = [] } in
    let (r, ran, h₃) = bind-some (run_all (load_resource parse configured) rows empty) _ out h₂ in
    let (t, last) = check-some (contains default_name r.1.names) _ out h₃ in
    let start : Tracked configured empty [] = record {
      separate = record {
        keys = refl;
        names_differ = tt;
        upstreams = tt;
        locks = tt;
        checkpoints = tt;
      };
      upstreams = refl;
      locks = refl;
      checkpoints = refl;
    } in
    let v =
      run_all_lem (load_resource parse configured) (Tracked configured)
        (λ x s bs b s' i k. load_resource-Tracked parse configured x s bs b s' i k) rows empty []
        r.0 r.1 start ran in
    let same = some_pair r.1 used r.0 tables last in
    subst (λ (s : Used). Separate configured s.names tables × Elem default_name s.names) same.0
      (
        subst (Separate configured r.1.names) same.1 v.separate,
        (contains_iff default_name r.1.names).0 t,
      )

-- ===== src/Origin/Principals.antt =====
-- `load_principals` of origin.py: the policy file, checked row by row. A SystemExit is `none`.
-- `text_of` is Python's `str`, which the loader applies to a principal's id and address.
use hermes_fleet.Prelude.{
  ℕ, Bool, true, false, ◌&&◌, ◌||◌, not, Option, none, some, List, [], ◌∷◌, ◌++◌, nat_eq, list_eq,
  pair_eq, option_eq, ◌==◌, if◌then◌else◌, leb, nat_beq, length, contains,
}
use hermes_fleet.Prelude.Text.{Text, codes, strip, lower, is_nonempty, is_space}
use hermes_fleet.Broker.Types.{Route, AccessPrincipal, ChannelThreadGrant}
use hermes_fleet.Prelude.Json.{
  Json, null, boolean, number, string, array, object, Fields, items, field_names, lookup, as_list,
  as_string, as_object, value_or, is_true,
}
use hermes_fleet.Origin.Routing.{is_agent, default_name}

infixl 5 ◌>>=◌
abbrev pub ◌>>=◌ : {A B : Type 0} → Option A → (A → Option B) → Option B
none >>= f = none
some a >>= f = f a

abbrev pub check_that : Bool → Option (Unit {0})
check_that true = some tt
check_that false = none

-- One element after the other, with what has been seen so far.
abbrev pub run_all : {A S B : Type 0} → (A → S → Option (B × S)) → List A → S → Option (List B × S)
run_all f [] seen = some ([], seen)
run_all f (x ∷ xs) seen = f x seen >>= λ r. run_all f xs r.1 >>= λ rest. some (r.0 ∷ rest.0, rest.1)

-- `platform, user_id, scope_id = route`, with its types, and the item that it gives
abbrev pub scoped : Text → Text → Json → Option Route
scoped platform user (string s) =
    if platform == codes "slack" && is_nonempty (strip s)
    then some (platform, (user, some (strip s)))
    else none
scoped platform user null =
    if platform == codes "slack" then none else some (platform, (user, none))
scoped platform user _ = none

abbrev pub route_item : List Json → Option Route
route_item (string platform ∷ string user ∷ scope ∷ []) = scoped (strip platform) (strip user) scope
route_item _ = none

unfoldable pub load_route : Json → List Route → Option (Route × List Route)
load_route j seen = as_list j >>= λ parts. route_item parts >>= λ r.
    check_that (is_nonempty r.0 && is_nonempty r.1.0 && not (contains r seen)) >>= λ u.
    some (r, seen ++ (r ∷ []))

-- `DESKTOP_TOKEN_RE.fullmatch`: 1 to 256 characters, none of them white space, a control or a star.
abbrev pub token_char : ℕ → Bool
token_char c = not (is_space c) && leb 32 c && not (nat_beq c b'*')

abbrev pub all_token : Text → Bool
all_token [] = true
all_token (c ∷ s) = token_char c && all_token s

unfoldable pub is_token : Text → Bool
is_token s = leb 1 (length s) && leb (length s) 256 && all_token s

abbrev pub synthetic_desktop_routes : List (Text × Text)
synthetic_desktop_routes = (codes "server-internal", codes "server-internal") ∷ []

abbrev pub desktop_item : List Json → Option (Text × Text)
desktop_item (string provider ∷ string subject ∷ []) = some (provider, subject)
desktop_item _ = none

-- The routes seen before are those of all principals, this one's among them.
unfoldable pub load_desktop_route :
    Json → List (Text × Text) → Option ((Text × Text) × List (Text × Text))
unfolding is_token
load_desktop_route j seen = as_list j >>= λ parts. desktop_item parts >>= λ r.
    check_that (
      is_token r.0
      && is_token r.1
      && not (contains r synthetic_desktop_routes)
      && not (contains r seen))
    >>= λ u. some (r, seen ++ (r ∷ []))

abbrev pub group_keys : List Text
group_keys =
    codes "agent"
    ∷ codes "platform"
    ∷ codes "scope_id"
    ∷ codes "channel_id"
    ∷ codes "chat_type"
    ∷ codes "require_thread"
    ∷ []

abbrev pub all_in : List Text → List Text → Bool
all_in [] ys = true
all_in (x ∷ xs) ys = contains x ys && all_in xs ys

-- A string that is not blank, at a key.
abbrev pub filled : Text → Fields → Option Text
filled key fs = as_string (value_or (lookup key fs) null) >>= λ s.
    check_that (is_nonempty (strip s)) >>= λ u. some s

abbrev pub same_grant : ChannelThreadGrant → ChannelThreadGrant → Bool
same_grant g h =
    g.agent == h.agent
    && g.platform == h.platform
    && g.scope_id == h.scope_id
    && g.channel_id == h.channel_id
    && g.chat_type == h.chat_type

abbrev pub has_grant : ChannelThreadGrant → List ChannelThreadGrant → Bool
has_grant g [] = false
has_grant g (h ∷ rest) = same_grant g h || has_grant g rest

unfoldable pub load_group_route :
    Text → Json → List ChannelThreadGrant → Option (ChannelThreadGrant × List ChannelThreadGrant)
load_group_route configured j seen = as_object j >>= λ fs.
    check_that (all_in (field_names fs) group_keys && all_in group_keys (field_names fs)) >>= λ u.
    filled (codes "agent") fs >>= λ agent. filled (codes "platform") fs >>= λ platform.
    filled (codes "scope_id") fs >>= λ scope_id. filled (codes "channel_id") fs >>= λ channel_id.
    filled (codes "chat_type") fs >>= λ chat_type.
    check_that (
      agent == configured
      && platform == codes "slack"
      && not (contains chat_type (codes "dm" ∷ codes "private" ∷ []))
      && is_true (value_or (lookup (codes "require_thread") fs) null))
    >>= λ v.
        let g : ChannelThreadGrant = record {
          agent = agent;
          platform = platform;
          scope_id = scope_id;
          channel_id = channel_id;
          chat_type = chat_type;
          require_thread = true;
        } in
        check_that (not (has_grant g seen)) >>= λ w. some (g, seen ++ (g ∷ []))

abbrev pub nonempty_list : Json → Option (List Json)
nonempty_list j = as_list j >>= λ xs. check_that (leb 1 (length xs)) >>= λ u. some xs

-- An absent key is no list; an explicit null is refused.
abbrev pub group_items : Option Json → Option (List Json)
group_items none = some []
group_items (some j) = nonempty_list j

abbrev pub workspace_name : Json → List Text → Option (Text × List Text)
workspace_name j seen = as_string j >>= λ s.
    check_that (is_agent s && not (contains s seen)) >>= λ u. some (s, seen ++ (s ∷ []))

-- `str(value or "")`
abbrev pub text_or_empty : (Json → Text) → Option Json → Text
text_or_empty text_of none = []
text_or_empty text_of (some null) = []
text_or_empty text_of (some (boolean false)) = []
text_or_empty text_of (some (boolean true)) = codes "True"
text_or_empty text_of (some (string s)) = s
text_or_empty text_of (some (number n)) = if nat_beq n 0 then [] else text_of (number n)
text_or_empty text_of (some (array xs)) =
    if leb 1 (length (items xs)) then text_of (array xs) else []
text_or_empty text_of (some (object fs)) =
    if leb 1 (length (field_names fs)) then text_of (object fs) else []

abbrev pub is_only : Text → Option (List Json) → Bool
is_only configured (some (string s ∷ [])) = s == configured
is_only configured _ = false

-- What the rows before have used.
pub record Seen : Type 0 where
  pub ids : List Text
  pub routes : List Route
  pub desktop : List (Text × Text)

-- `row.get(key, default)` as a list
abbrev pub list_at : Text → Fields → List Json → Option (List Json)
list_at key fs d = elim (lookup key fs) [ none ↦ some d | some j ↦ as_list j ]

unfoldable pub load_row : (Json → Text) → Text → Json → Seen → Option (AccessPrincipal × Seen)
unfolding load_route load_desktop_route load_group_route
load_row text_of configured j seen = as_object j >>= λ fs.
    let pid = strip (text_or_empty text_of (lookup (codes "principal_id") fs)) in
    let email = lower (strip (text_or_empty text_of (lookup (codes "access_email") fs))) in
    as_list (value_or (lookup (codes "routes") fs) null) >>= λ route_rows.
    check_that (
      is_nonempty pid
      && is_nonempty email
      && not (contains pid seen.ids)
      && is_only configured (as_list (value_or (lookup (codes "agents") fs) null)))
    >>= λ u.
        list_at (codes "browser_workspaces") fs (string default_name ∷ []) >>= λ workspace_rows.
        check_that (leb 1 (length workspace_rows)) >>= λ u₁.
        run_all workspace_name workspace_rows [] >>= λ workspaces.
        run_all load_route route_rows seen.routes >>= λ routes.
        check_that (leb 1 (length routes.0)) >>= λ u₂.
        list_at (codes "desktop_routes") fs [] >>= λ desktop_rows.
        run_all load_desktop_route desktop_rows seen.desktop >>= λ desktop.
        group_items (lookup (codes "group_routes") fs) >>= λ group_rows.
        run_all (load_group_route configured) group_rows [] >>= λ groups. some (
          record {
            principal_id = pid;
            access_email = email;
            routes = routes.0;
            agents = configured ∷ [];
            group_routes = groups.0;
            desktop_routes = desktop.0;
            browser_workspaces = workspaces.0;
          },
          record { ids = seen.ids ++ (pid ∷ []); routes = routes.1; desktop = desktop.1 },
        )

-- The decoded file, or none where it cannot be read.
unfoldable pub load_principals : (Json → Text) → Text → Option Json → Option (List AccessPrincipal)
unfolding load_row
load_principals text_of configured document = document >>= λ j. nonempty_list j >>= λ rows.
    run_all (load_row text_of configured) rows (record { ids = []; routes = []; desktop = [] })
    >>= λ r. some r.0

-- ===== src/Broker/Policy.antt =====
-- session_policy.py: who may use the browser (`_owner`, `_require_configured_agent`,
-- `_authorized_principal_from`).
use hermes_fleet.Prelude.{
  Bool, not, ◌&&◌, ◌||◌, Option, none, some, List, [], ◌∷◌, ◌==◌, nat_eq, list_eq, pair_eq,
  option_eq, contains, if◌then◌else◌,
}
use hermes_fleet.Prelude.Text.{Text, codes, is_nonempty, or_else}
use hermes_fleet.Broker.Types.{Invocation, AccessPrincipal, Broker}
use hermes_fleet.Broker.Exec.{broker_error, Result, ok, raise}

unfoldable pub owner : Invocation → List Text
owner i =
    i.profile ∷ i.platform ∷ i.scope_id ∷ i.user_id ∷ i.chat_id ∷ i.thread_id ∷ i.chat_type ∷ []

-- `invocation.browser_workspace_id or "default"`
abbrev pub default_workspace : Text
default_workspace = codes "default"

unfoldable pub workspace_of : Invocation → Text
workspace_of i = or_else i.browser_workspace_id default_workspace

-- `invocation.scope_id or None`
abbrev pub scope_of : Text → Option Text
scope_of [] = none
scope_of (c ∷ s) = some (c ∷ s)

-- `principal.browser_workspaces or ("default",)`
abbrev pub granted_workspaces : List Text → List Text
granted_workspaces [] = default_workspace ∷ []
granted_workspaces (w ∷ ws) = w ∷ ws

-- `not (self.configured_agent and agent != self.configured_agent)`
unfoldable pub agent_allowed : Broker → Text → Bool
agent_allowed b agent = not (is_nonempty b.configured_agent) || agent == b.configured_agent

unfoldable pub desktop_matches : AccessPrincipal → Invocation → Bool
desktop_matches p i =
    contains (i.browser_control_provider, i.browser_control_subject) p.desktop_routes

unfoldable pub route_matches : AccessPrincipal → Invocation → Bool
route_matches p i = contains (i.platform, (i.user_id, scope_of i.scope_id)) p.routes

unfoldable pub workspace_allowed : Broker → AccessPrincipal → Invocation → Bool
workspace_allowed b p i =
    contains (workspace_of i) b.configured_workspaces
    && contains (workspace_of i) (granted_workspaces p.browser_workspaces)

-- A direct chat, or a thread of a group.
unfoldable pub chat_allowed : Invocation → Bool
chat_allowed i =
    contains i.chat_type (codes "dm" ∷ codes "private" ∷ [])
    || (i.chat_type == codes "group" && is_nonempty i.thread_id)

-- What the loop does with a principal whose route matched.
unfoldable pub grant_desktop : Broker → AccessPrincipal → Invocation → Result AccessPrincipal
grant_desktop b p i =
    if contains i.profile p.agents
    then if workspace_allowed b p i
      then ok p
      else raise (broker_error 403 "browser workspace denied")
    else raise (broker_error 403 "agent denied")

unfoldable pub grant_chat : Broker → AccessPrincipal → Invocation → Result AccessPrincipal
grant_chat b p i =
    if contains i.profile p.agents
    then if workspace_allowed b p i
      then if chat_allowed i then ok p else raise (broker_error 403 "route denied")
      else raise (broker_error 403 "browser workspace denied")
    else raise (broker_error 403 "agent denied")

-- The loop over the principals.
unfoldable pub find_principal : Broker → List AccessPrincipal → Invocation → Result AccessPrincipal
unfolding grant_desktop grant_chat
find_principal b [] i = raise (broker_error 403 "unknown principal")
find_principal b (p ∷ ps) i =
    let rest = find_principal b ps i in
    if i.platform == codes "desktop"
    then if desktop_matches p i then grant_desktop b p i else rest
    else if route_matches p i
    then grant_chat b p i
    else rest

unfoldable pub authorized_principal_from :
    Broker → List AccessPrincipal → Invocation → Result AccessPrincipal
authorized_principal_from b principals i =
    if agent_allowed b i.profile
    then find_principal b principals i
    else raise (broker_error 403 "agent denied")

unfoldable pub authorized_principal : Broker → Invocation → Result AccessPrincipal
unfolding authorized_principal_from
authorized_principal b i = authorized_principal_from b b.principals i

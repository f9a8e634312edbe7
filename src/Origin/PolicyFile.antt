-- ===== src/Origin/PolicyFile.antt =====
-- A policy file of one principal with one route of a chat.
use hermes_fleet.Prelude.{◌≡◌, refl, some, none, [], ◌∷◌}
use hermes_fleet.Prelude.Text.{Text, codes, strip, lstrip, is_space, lower, lower_code}
use hermes_fleet.Broker.Types.{AccessPrincipal}
use hermes_fleet.Prelude.Json.{Json, string, array, object, null, no_items, item, no_fields, field}
use hermes_fleet.Origin.Routing.{is_agent}
use hermes_fleet.Origin.Principals.{
  load_route, load_desktop_route, load_group_route, is_token, load_row, load_principals,
}
use hermes_fleet.Origin.Rows.{Policy, load_principals-Policy}

abbrev agent : Text
agent = codes "ada"

abbrev document : Json
document = array (
    item
      (object (
        field (codes "principal_id") (string (codes "p")) (
          field (codes "access_email") (string (codes " A@b.c")) (
            field (codes "routes")
              (array (
                item
                  (array
                    (item (string (codes "tg")) (item (string (codes "u")) (item null no_items))))
                  no_items))
              (field (codes "agents") (array (item (string agent) no_items)) no_fields)))))
      no_items)

abbrev accepted : AccessPrincipal
accepted = record {
  principal_id = codes "p";
  access_email = codes "a@b.c";
  routes = (codes "tg", (codes "u", none)) ∷ [];
  agents = agent ∷ [];
  group_routes = [];
  desktop_routes = [];
  browser_workspaces = codes "default" ∷ [];
}

loads : load_principals (λ j. []) agent (some document) ≡ some (accepted ∷ [])
unfolding load_principals load_row load_route load_desktop_route load_group_route is_token is_agent
    strip lstrip is_space lower lower_code
loads = refl

load_principals-Policy_example : Policy agent (accepted ∷ [])
load_principals-Policy_example =
    load_principals-Policy (λ j. []) agent (some document) (accepted ∷ []) loads

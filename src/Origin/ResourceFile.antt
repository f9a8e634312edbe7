-- ===== src/Origin/ResourceFile.antt =====
-- A resources file of the default workspace alone.
use hermes_fleet.Prelude.{◌≡◌, refl, some, List, [], ◌∷◌, Elem, false}
use hermes_fleet.Prelude.Text.{Text, codes, is_space}
use hermes_fleet.Prelude.Json.{Json, string, array, object, no_items, item, no_fields, field}
use hermes_fleet.Origin.Routing.{Route, is_agent, route_key, default_name}
use hermes_fleet.Origin.Resources.{
  Parsers, Used, rsplit_colon, split_host, load_resource, load_workspace_routes, Separate,
  load_workspace_routes-Separate,
}

abbrev parsers : Parsers
parsers = record {
  url = λ t. some (record {
    scheme = codes "http";
    netloc = codes "c";
    has_user = false;
    has_query = false;
    has_fragment = false;
  });
  int = λ t. some 80;
  resolve = λ t. t;
}

abbrev document : Json
document = array (
    item
      (object (
        field (codes "id") (string (codes "default")) (
          field (codes "novnc_upstream") (string (codes "h:80")) (
            field (codes "lock_file") (string (codes "/l"))
              (field (codes "checkpoint_url") (string (codes "http://c")) no_fields)))))
      no_items)

abbrev used : Used
used = record {
  names = codes "default" ∷ [];
  upstreams = codes "h:80" ∷ [];
  locks = codes "/l" ∷ [];
  checkpoints = codes "http://c" ∷ [];
}

abbrev tables : List (Text × Route)
tables =
    (
      codes "ada",
      record { upstream = codes "h:80"; lock = codes "/l"; checkpoint = codes "http://c" },
    )
    ∷ []

loads : load_workspace_routes parsers (codes "ada") (some (some document)) ≡ some (used, tables)
unfolding load_workspace_routes load_resource split_host rsplit_colon is_agent is_space route_key
loads = refl

load_workspace_routes-Separate_example :
    Separate (codes "ada") used.names tables × Elem default_name used.names
load_workspace_routes-Separate_example =
    load_workspace_routes-Separate parsers (codes "ada") (some document) used tables loads

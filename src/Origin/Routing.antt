-- ===== src/Origin/Routing.antt =====
-- origin_routing.py, and `_route_key` and `route_for` of origin.py: names of agents, settings and routes.
-- The process environment and the three tables of routes are the arguments.
use hermes_fleet.Prelude.{
  ℕ, Bool, true, false, ◌&&◌, ◌||◌, Option, none, some, [], ◌∷◌, ◌++◌, nat_eq, list_eq, ◌==◌,
  if◌then◌else◌, leb, nat_beq, length,
}
use hermes_fleet.Prelude.Dict
use hermes_fleet.Prelude.Dict.{Dict}
use hermes_fleet.Prelude.Text.{Text, codes, upper, strip, is_nonempty, or_else}
use hermes_fleet.Broker.Exec.{Result, ok, raise, broker_error, other}
use mathlib.Core.List.{map}

abbrev is_lower : ℕ → Bool
is_lower c = leb b'a' c && leb c b'z'

abbrev is_tail : ℕ → Bool
is_tail c = is_lower c || (leb b'0' c && leb c b'9') || nat_beq c b'-'

abbrev all_tail : Text → Bool
all_tail [] = true
all_tail (c ∷ s) = is_tail c && all_tail s

-- `AGENT_RE.fullmatch(agent)`
unfoldable pub is_agent : Text → Bool
is_agent [] = false
is_agent (c ∷ s) = is_lower c && leb (length s) 63 && all_tail s

abbrev pub dash_to_underscore : ℕ → ℕ
dash_to_underscore c = if nat_beq c b'-' then b'_' else c

-- A ValueError where the name is not an agent's.
unfoldable pub agent_env_suffix : Text → Result Text
agent_env_suffix agent =
    if is_agent agent then ok (map dash_to_underscore (upper agent)) else raise other

abbrev pub key_of_suffix : Text → Result Text → Result Text
key_of_suffix prefix (ok suffix) = ok (prefix ++ (b'_' ∷ suffix))
key_of_suffix prefix (raise e) = raise e

unfoldable pub env_key : Text → Text → Result Text
env_key prefix agent = key_of_suffix prefix (agent_env_suffix agent)

-- `env.get(key) or ""`
abbrev pub get_or_empty : Dict Text Text → Text → Text
get_or_empty env key = elim (Dict.get env key) [ none ↦ [] | some v ↦ v ]

abbrev pub nonempty_or_raise : Text → Result Text
nonempty_or_raise value = if is_nonempty value then ok value else raise other

abbrev pub value_at : Dict Text Text → Text → Result Text → Result Text
value_at env prefix (ok key) =
    nonempty_or_raise (strip (or_else (get_or_empty env key) (get_or_empty env prefix)))
value_at env prefix (raise e) = raise e

unfoldable pub required_agent_value : Text → Text → Dict Text Text → Result Text
required_agent_value prefix agent env = value_at env prefix (env_key prefix agent)

pub record Route : Type 0 where
  pub upstream : Text
  pub lock : Text
  pub checkpoint : Text

abbrev pub route_of : Result Text → Result Text → Result Text → Result Route
route_of (ok u) (ok l) (ok c) = ok (record { upstream = u; lock = l; checkpoint = c })
route_of (raise e) l c = raise e
route_of (ok u) (raise e) c = raise e
route_of (ok u) (ok l) (raise e) = raise e

unfoldable pub route_for_agent : Text → Dict Text Text → Result Route
route_for_agent agent env =
    route_of (required_agent_value (codes "NOVNC_UPSTREAM") agent env)
      (required_agent_value (codes "HANDOFF_LOCK_FILE") agent env)
      (required_agent_value (codes "CHECKPOINT_URL") agent env)

-- A capability is bound to one agent by its name.
unfoldable pub cap_may_mint : Text → Text → Bool
cap_may_mint cap_agent profile = is_agent cap_agent && cap_agent == profile

-- `UPSTREAMS`, `LOCK_FILES` and `CHECKPOINT_URLS`, and the environment
pub record Tables : Type 0 where
  pub upstreams : Dict Text Text
  pub lock_files : Dict Text Text
  pub checkpoint_urls : Dict Text Text
  pub environ : Dict Text Text

abbrev pub default_name : Text
default_name = codes "default"

unfoldable pub route_key : Text → Text → Text
route_key agent workspace = if workspace == default_name then agent else agent ++ (b'/' ∷ workspace)

abbrev pub all_found : Option Text → Option Text → Option Text → Option Route
all_found (some u) (some l) (some c) = some (record { upstream = u; lock = l; checkpoint = c })
all_found _ _ _ = none

abbrev pub find_route : Tables → Text → Option Route
find_route t key =
    all_found (Dict.get t.upstreams key) (Dict.get t.lock_files key)
      (Dict.get t.checkpoint_urls key)

abbrev pub agent_route : Result Route → Result Route
agent_route (ok r) = ok r
agent_route (raise e) = raise (broker_error 503 "agent route unavailable")

abbrev pub or_unavailable : Option Route → Bool → Result Route → Result Route
or_unavailable (some r) is_default fallback = ok r
or_unavailable none false fallback = raise (broker_error 503 "browser workspace route unavailable")
or_unavailable none true fallback = fallback

abbrev pub found_or : Option Route → Result Route → Result Route
found_or (some r) fallback = ok r
found_or none fallback = fallback

unfoldable pub route_for : Tables → Text → Text → Result Route
route_for t agent workspace =
    or_unavailable (find_route t (route_key agent workspace)) (workspace == default_name)
      (found_or (find_route t agent) (agent_route (route_for_agent agent t.environ)))

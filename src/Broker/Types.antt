-- ===== src/Broker/Types.antt =====
-- session_policy.py: the records, and the environment that the broker calls out to.
-- Times are natural numbers of one unit; the source's clock is a float that is only compared and added.
use hermes_fleet.Prelude.{
  ℕ, Bool, true, false, ◌&&◌, Option, List, [], min, max, ◌==◌, list_eq, nat_eq,
}
use hermes_fleet.Prelude.Dict.{Dict}
use hermes_fleet.Prelude.Text.{Text, is_nonempty}
use Prim.Native.String.{String}

abbrev pub max_ttl : ℕ
max_ttl = 1800

abbrev pub default_ttl : ℕ
default_ttl = 900

abbrev pub reaper_retry_seconds : ℕ
reaper_retry_seconds = 15

-- The values of `_Session.state`.
pub data State : Type 0 where
  pending active recovery_required revoking ending ended expired revoked : State

-- `state in TERMINAL_STATES`
abbrev pub is_terminal : State → Bool
is_terminal ended = true
is_terminal expired = true
is_terminal revoked = true
is_terminal _ = false

-- The states that `_finish_terminal` leaves behind: its targets.
abbrev pub is_finished : State → Bool
is_finished ended = true
is_finished expired = true
is_finished _ = false

-- `state in ACTIVE_STATES`
abbrev pub is_live : State → Bool
is_live pending = true
is_live active = true
is_live _ = false

abbrev pub is_recovery : State → Bool
is_recovery recovery_required = true
is_recovery _ = false

abbrev pub is_ending : State → Bool
is_ending ending = true
is_ending _ = false

abbrev pub state_name : State → String
state_name pending = "pending"
state_name active = "active"
state_name recovery_required = "recovery_required"
state_name revoking = "revoking"
state_name ending = "ending"
state_name ended = "ended"
state_name expired = "expired"
state_name revoked = "revoked"

pub data Mode : Type 0 where
  takeover observe : Mode

abbrev pub is_takeover : Mode → Bool
is_takeover takeover = true
is_takeover observe = false

pub record Invocation : Type 0 where
  pub profile : Text
  pub platform : Text
  pub user_id : Text
  pub chat_id : Text
  pub thread_id : Text
  pub chat_type : Text
  pub scope_id : Text
  pub browser_control_provider : Text
  pub browser_control_subject : Text
  pub browser_workspace_id : Text

-- (platform, user, scope), the scope being None where the platform has none
abbrev pub Route : Type 0
Route = Text × (Text × Option Text)

pub record ChannelThreadGrant : Type 0 where
  pub agent : Text
  pub platform : Text
  pub scope_id : Text
  pub channel_id : Text
  pub chat_type : Text
  pub require_thread : Bool

unfoldable pub matches : ChannelThreadGrant → Invocation → Bool
matches g i =
    g.agent == i.profile
    && g.platform == i.platform
    && g.scope_id == i.scope_id
    && g.channel_id == i.chat_id
    && g.chat_type == i.chat_type
    && g.require_thread
    && is_nonempty i.thread_id

pub record AccessPrincipal : Type 0 where
  pub principal_id : Text
  pub access_email : Text
  pub routes : List Route
  pub agents : List Text
  pub group_routes : List ChannelThreadGrant
  pub desktop_routes : List (Text × Text)
  pub browser_workspaces : List Text

pub record Minted : Type 0 where
  pub session_id : Text
  pub url : Text
  pub expires_at : ℕ

pub data Page : Type 0 where
  head viewer : Page

-- A closer and a preflight are known by a number each, as Python knows them by `id`.
pub record Session : Type 0 where
  pub session_id : Text
  pub agent_id : Text
  pub browser_workspace_id : Text
  pub principal_id : Text
  pub access_email : Text
  pub invocation : Invocation
  pub state : State
  pub created_at : ℕ
  pub expires_at : ℕ
  pub access_subject_sha256 : Option Text
  pub sockets : List ℕ
  pub socket_preflights : Dict ℕ ℕ
  pub expiry_timer : Option ℕ
  pub reaper_retry_at : ℕ
  pub owner : List Text
  pub terminal_target : State
  pub checkpoint_outcome : Option Text
  pub takeover_confirmed : Bool
  pub mode : Mode

abbrev pub ResourceKey : Type 0
ResourceKey = Text × Text

abbrev pub OwnerKey : Type 0
OwnerKey = List Text × Text

-- The calls that leave the broker, in the order in which it makes them.
pub data Event : Type 0 where
  closer_called : ℕ → Event
  transition_called : Text → State → Event
  terminal_called : Text → Text → State → Event
  observe_called : Text → Event
  policy_revoked_called : Text → Event
  acquire_called : Text → Event
  forwarded : Text → Mode → Event
  action_called : Text → Event

-- `HandoffBroker`. `spawned` are the background threads that have yet to run `_finish_terminal`,
-- and `events` the calls made so far, oldest first.
pub record Broker : Type 0 where
  pub principals : List AccessPrincipal
  pub ttl : ℕ
  pub configured_agent : Text
  pub configured_workspaces : List Text
  pub terminal_limit : ℕ
  pub terminal_ttl : ℕ
  pub sessions : Dict Text Session
  pub active_by_agent : Dict ResourceKey Text
  pub last_by_owner : Dict OwnerKey Text
  pub terminal : Dict Text ℕ
  pub spawned : List Text
  pub events : List Event

-- `min(max(int(ttl_seconds), 1), MAX_TTL)`
unfoldable pub clamp_ttl : ℕ → ℕ
clamp_ttl ttl_seconds = min (max ttl_seconds 1) max_ttl

-- `HandoffBroker.__init__` on arguments that pass its checks
unfoldable pub init : List AccessPrincipal → ℕ → Text → List Text → ℕ → ℕ → Broker
unfolding clamp_ttl
init principals ttl_seconds agent workspaces terminal_limit terminal_ttl = record {
  principals = principals;
  ttl = clamp_ttl ttl_seconds;
  configured_agent = agent;
  configured_workspaces = workspaces;
  terminal_limit = terminal_limit;
  terminal_ttl = terminal_ttl;
  sessions = [];
  active_by_agent = [];
  last_by_owner = [];
  terminal = [];
  spawned = [];
  events = [];
}

-- What a callback does: it returns, or raises a TypeError, a BrokerError or another exception.
pub data Answer (A : Type 0) : Type 0 where
  returned : A → Answer A
  type_error : Answer A
  broker_raised : ℕ → String → Answer A
  raised : Answer A

-- `except TypeError:` calls once more with the legacy arguments.
unfoldable pub or_legacy : {A : Type 0} → Answer A → Answer A → Answer A
or_legacy type_error legacy = legacy
or_legacy (returned a) legacy = returned a
or_legacy (broker_raised s m) legacy = broker_raised s m
or_legacy raised legacy = raised

pub record Held : Type 0 where
  pub state : State
  pub automation_blocked : Bool
  pub checkpoint_outcome : Text

-- The answers of the code that the broker is given: closers, preflights, callbacks (absent, or with
-- their current and legacy calling forms), the public URL and the digest of an e-mail address.
pub record Env : Type 0 where
  pub public_url : Text
  pub sha256_hex : Text → Text
  pub closer_returns : ℕ → Bool
  pub preflight : ℕ → Option Bool
  pub on_transition : Option (Text → Text → Text → State → Answer (Unit {0}))
  pub on_transition_legacy : Text → Text → State → Answer (Unit {0})
  pub on_terminal : Option (Text → Text → State → Answer (Option Text))
  pub on_terminal_legacy : Text → State → Answer (Option Text)
  pub on_observe : Option (Text → Text → Text → Answer (Option Text))
  pub on_observe_legacy : Text → Text → Answer (Option Text)
  pub on_hold_status : Text → Option Held
  pub on_policy_revoked : Option (Text → Bool)
  pub acquire_returns : Text → Bool
  pub action_returns : Text → Bool

-- ===== src/Broker/Steps.antt =====
-- A device of the proofs, and no translation of code: what the methods of the broker do to its tables when one
-- method runs at a time, cut into the changes that keep the tables well formed. A change names what the method
-- has made sure of by then, where the source's section does not test it again.
pub mod Rules
pub mod Ending
pub mod Expiry
pub mod Operations
pub mod Controls
pub mod Agents
pub mod Reloads
use hermes_fleet.Prelude.{ℕ, ◌≡◌, Bool, true, false, ◌&&◌, Option, none, some, List, [], ◌∷◌, ltb}
use hermes_fleet.Prelude.Dict
use hermes_fleet.Prelude.{list_eq, nat_eq, pair_eq}
use hermes_fleet.Prelude.Text.{Text}
use hermes_fleet.Broker.Types.{
  State, is_terminal, is_finished, is_ending, is_live, Invocation, AccessPrincipal, Session, Broker,
  Event, Env,
}
use hermes_fleet.Broker.Exec.{ok, update_session, emit}
use hermes_fleet.Broker.Policy.{authorized_principal}
use hermes_fleet.Broker.Terminal.{prune_terminal, enter_ending, drop_socket, mark_recovery, settle}
use hermes_fleet.Broker.Handoff.{new_session, insert_session, active_session, resource_key}
use hermes_fleet.Broker.Viewer.{
  human_may_connect, open_page, extend_session, confirmed, take_over, to_observe, with_socket,
}
use hermes_fleet.Broker.Reload.{publish, finish_revoked}

-- What a section may do to one session, with the tests that the code makes before.
pub data Change (ttl : ℕ) : Session → Session → Type 0 where
  unchanged : (s : Session) → Change ttl s s
  opens :
      (env : Env) (now : ℕ) (s : Session)
      → human_may_connect now s ≡ true
      → Change ttl s (open_page env now ttl s)
  extends :
      (now : ℕ) (s : Session) → is_live s.state ≡ true → Change ttl s (extend_session now ttl s)
  confirms : (s : Session) → Change ttl s (confirmed s)
  takes : (s : Session) → Change ttl s (take_over s)
  observes : (outcome : Option Text) (s : Session) → Change ttl s (to_observe outcome s)
  attaches :
      (now closer : ℕ) (preflight : Option ℕ) (s : Session)
      → human_may_connect now s ≡ true
      → Change ttl s (with_socket now closer preflight s)
  drops : (closer : ℕ) (s : Session) → Change ttl s (drop_socket closer s)
  begins :
      (target : State) (explicit_end : Bool) (s : Session)
      → is_finished target ≡ true
      → is_terminal s.state ≡ false
      → is_ending s.state ≡ false
      → Change ttl s (enter_ending target explicit_end s)
  recovers : (now : ℕ) (s : Session) → is_ending s.state ≡ true → Change ttl s (mark_recovery now s)

pub data Section : Broker → Broker → Type 0 where
  prunes : (now : ℕ) (b : Broker) → Section b (prune_terminal now b)
  emits : (e : Event) (b : Broker) → Section b (emit e b)
  spawns : (sids : List Text) (b : Broker) → Section b (record b { spawned = sids })
  inserts :
      (now : ℕ) (sid : Text) (p : AccessPrincipal) (i : Invocation) (b : Broker)
      → Dict.get b.sessions sid ≡ none
      → active_session (resource_key i) b ≡ none
      → Section b (insert_session sid i (new_session now b.ttl sid p i) b)
  changes :
      (sid : Text) (f : Session → Session) (b : Broker)
      → ((s : Session) → Dict.get b.sessions sid ≡ some s → Change b.ttl s (f s))
      → Section b (update_session sid f b)
  settles :
      (now : ℕ) (s : Session) (outcome : Option Text) (b : Broker)
      → ((t : Session)
          → Dict.get b.sessions s.session_id ≡ some t
          → (is_ending t.state ≡ true) × (t.sockets ≡ []))
      → Section b (settle now s outcome b)
  publishes : (principals : List AccessPrincipal) (b : Broker) → Section b (publish principals b)
  revokes :
      (now : ℕ) (sid : Text) (s : Session) (b : Broker)
      → ((t : Session) → Dict.get b.sessions sid ≡ some t → is_live t.state ≡ false)
      → Section b (finish_revoked now sid s b)

pub data Steps (b : Broker) : Broker → Type 0 where
  done : Steps b b
  step : {c d : Broker} → Steps b c → Section c d → Steps b d

pub Steps-trans : {b c d : Broker} → Steps b c → Steps c d → Steps b d
Steps-trans p done = p
Steps-trans p (step q s) = step (Steps-trans p q) s

pub one : {b c : Broker} → Section b c → Steps b c
one s = step done s

-- ===== src/Broker/Invariant/Session.antt =====
-- What holds of every session, by itself, and is kept by every change to it.
use hermes_fleet.Prelude.{ℕ, ◌+◌, ◌≤◌, ◌≡◌, refl, true, false, Option, none, [], arith}
use hermes_fleet.Prelude.Text.{Text}
use hermes_fleet.Broker.Types.{is_terminal, is_finished, is_live, is_ending, Session, max_ttl}
use hermes_fleet.Broker.Terminal.{enter_ending, drop_socket, mark_recovery, mark_finished}
use hermes_fleet.Broker.Viewer.{
  human_may_connect, open_page, extend_session, confirmed, take_over, to_observe, with_socket,
}
use hermes_fleet.Broker.Reload.{start_revoking, mark_revoked}
use hermes_fleet.Broker.Steps.{
  Change, unchanged, opens, extends, confirms, takes, observes, attaches, drops, begins, recovers,
}

pub record SessionOk (s : Session) : Type 0 where
  pub lifetime : is_live s.state ≡ true → s.expires_at ≤ s.created_at + max_ttl
  pub timer : is_live s.state ≡ false → s.expiry_timer ≡ none
  pub target : is_finished s.terminal_target ≡ true
  pub closed : is_finished s.state ≡ true → s.sockets ≡ []

module _ {ttl : ℕ} (short : ttl ≤ max_ttl) where
  pub Change-SessionOk : {s t : Session} → Change ttl s t → SessionOk s → SessionOk t
  unfolding open_page human_may_connect extend_session confirmed take_over to_observe with_socket
      drop_socket enter_ending mark_recovery
  Change-SessionOk (unchanged s) h = h
  Change-SessionOk (opens env now s may) h = ground arith
  Change-SessionOk (extends now s live) h = ground arith
  Change-SessionOk (confirms s) h = record {
    lifetime = h.lifetime;
    timer = h.timer;
    closed = h.closed;
    target = h.target;
  }
  Change-SessionOk (takes s) h = record {
    lifetime = h.lifetime;
    timer = h.timer;
    closed = h.closed;
    target = h.target;
  }
  Change-SessionOk (observes o s) h = record {
    lifetime = h.lifetime;
    timer = h.timer;
    closed = h.closed;
    target = h.target;
  }
  Change-SessionOk (attaches now c p s may) h = ground arith
  Change-SessionOk (drops c s) h = ground arith
  Change-SessionOk (begins g e s fin nt ne) h = ground arith
  Change-SessionOk (recovers now s en) h = ground arith

  -- A change leaves the identity of the session alone.
  pub Change-identity :
      {s t : Session}
      → Change ttl s t
      → (t.session_id ≡ s.session_id)
        × (t.agent_id ≡ s.agent_id)
        × (t.browser_workspace_id ≡ s.browser_workspace_id)
  unfolding open_page extend_session confirmed take_over to_observe with_socket drop_socket
      enter_ending mark_recovery
  Change-identity (unchanged s) = (refl, refl, refl)
  Change-identity (opens env now s may) = (refl, refl, refl)
  Change-identity (extends now s live) = ground arith
  Change-identity (confirms s) = (refl, refl, refl)
  Change-identity (takes s) = (refl, refl, refl)
  Change-identity (observes o s) = (refl, refl, refl)
  Change-identity (attaches now c p s may) = ground arith
  Change-identity (drops c s) = (refl, refl, refl)
  Change-identity (begins g e s fin nt ne) = (refl, refl, refl)
  Change-identity (recovers now s en) = (refl, refl, refl)

-- No change takes a terminal session out of its state.
pub Change-terminal :
    {ttl : ℕ} {s t : Session} → Change ttl s t → is_terminal s.state ≡ true → t.state ≡ s.state
unfolding open_page human_may_connect extend_session confirmed take_over to_observe with_socket
    drop_socket enter_ending mark_recovery
Change-terminal (unchanged s) h = refl
Change-terminal (opens env now s may) h = ground arith
Change-terminal (extends now s live) h = ground arith
Change-terminal (confirms s) h = refl
Change-terminal (takes s) h = refl
Change-terminal (observes o s) h = refl
Change-terminal (attaches now c p s may) h = ground arith
Change-terminal (drops c s) h = refl
Change-terminal (begins g e s fin nt ne) h = cc
Change-terminal (recovers now s en) h = ground arith

-- A session that is not terminal does not become so by a change: only a finish or a revocation ends it.
pub Change-not_terminal :
    {ttl : ℕ} {s t : Session}
    → Change ttl s t
    → is_terminal s.state ≡ false
    → is_terminal t.state ≡ false
unfolding open_page human_may_connect extend_session confirmed take_over to_observe with_socket
    drop_socket enter_ending mark_recovery
Change-not_terminal (unchanged s) h = h
Change-not_terminal (opens env now s may) h = ground arith
Change-not_terminal (extends now s live) h = ground arith
Change-not_terminal (confirms s) h = h
Change-not_terminal (takes s) h = h
Change-not_terminal (observes o s) h = h
Change-not_terminal (attaches now c p s may) h = ground arith
Change-not_terminal (drops c s) h = h
Change-not_terminal (begins g e s fin nt ne) h = refl
Change-not_terminal (recovers now s en) h = refl

pub mark_finished-SessionOk :
    (outcome : Option Text) (s : Session)
    → SessionOk s
    → is_ending s.state ≡ true
    → s.sockets ≡ []
    → SessionOk (mark_finished outcome s)
unfolding mark_finished
mark_finished-SessionOk outcome s h en none_left = ground arith

pub start_revoking-SessionOk : (s : Session) → SessionOk s → SessionOk (start_revoking s)
unfolding start_revoking
start_revoking-SessionOk s h = ground arith

pub mark_revoked-SessionOk :
    (s : Session) → SessionOk s → s.expiry_timer ≡ none → SessionOk (mark_revoked s)
unfolding mark_revoked
mark_revoked-SessionOk s h stopped = ground arith

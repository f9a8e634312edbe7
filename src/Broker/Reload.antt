-- ===== src/Broker/Reload.antt =====
-- session_policy.py: `replace_principals` and `_revoke_after_policy_change`.
use hermes_fleet.Prelude.{
  ℕ, Bool, false, not, ◌&&◌, ◌||◌, Option, none, some, List, [], ◌∷◌, ◌==◌, nat_eq, list_eq,
  if◌then◌else◌, contains,
}
use hermes_fleet.Prelude.Dict
use hermes_fleet.Prelude.Dict.{Dict}
use hermes_fleet.Prelude.Text.{Text, codes, lower}
use hermes_fleet.Broker.Types.{
  State, revoking, revoked, is_live, is_recovery, AccessPrincipal, Session, Broker, closer_called,
  policy_revoked_called, Env,
}
use hermes_fleet.Broker.Exec.{
  Result, ok, raise, other, Exec, pure, fail, modify, ◌>>◌, update_session, emit,
}
use hermes_fleet.Broker.Policy.{authorized_principal_from}
use hermes_fleet.Broker.Terminal.{prune_terminal, release_key, drop_socket}
use hermes_fleet.Broker.Handoff.{default_key}

-- `allowed`, with `except BrokerError: allowed = False`
abbrev pub identity_fits : Result AccessPrincipal → Session → Bool
identity_fits (raise e) s = false
identity_fits (ok p) s = p.principal_id == s.principal_id && lower p.access_email == s.access_email

unfoldable pub still_allowed : Broker → List AccessPrincipal → Session → Bool
still_allowed b principals s = identity_fits (authorized_principal_from b principals s.invocation) s

-- The sessions that a reload looks at.
abbrev pub is_watched : State → Bool
is_watched st = is_live st || is_recovery st

unfoldable pub revokes : Broker → List AccessPrincipal → Session → Bool
revokes b principals s = is_watched s.state && not (still_allowed b principals s)

unfoldable pub start_revoking : Session → Session
start_revoking s = record s { state = revoking; expiry_timer = none }

-- The loop over `_sessions.values()`, which changes sessions in place.
unfoldable pub mark_revoking : Broker → List AccessPrincipal → Dict Text Session → Dict Text Session
mark_revoking b principals [] = []
mark_revoking b principals ((sid, s) ∷ rest) =
    (sid, (if revokes b principals s then start_revoking s else s))
    ∷ mark_revoking b principals rest

abbrev pub revokes_found : Broker → List AccessPrincipal → Option Session → Bool
revokes_found b principals none = false
revokes_found b principals (some s) = revokes b principals s

-- `affected`, by the keys of `_sessions`
unfoldable pub affected : Broker → List AccessPrincipal → List Text → List Text
affected b principals [] = []
affected b principals (sid ∷ rest) =
    let more = affected b principals rest in
    if revokes_found b principals (Dict.get b.sessions sid) then sid ∷ more else more

-- The section that publishes the new policy.
unfoldable pub publish : List AccessPrincipal → Broker → Broker
publish principals b = record b {
  principals = principals;
  sessions = mark_revoking b principals b.sessions;
}

-- A closer that raises stays recorded, and the loop goes on.
unfoldable pub close_each : Env → Text → List ℕ → Broker → Broker
close_each env sid [] b = b
close_each env sid (closer ∷ rest) b = close_each env sid rest (
    let called = emit (closer_called closer) b in
    if env.closer_returns closer
    then update_session sid (λ s. if contains closer s.sockets then drop_socket closer s else s)
        called
    else called)

unfoldable pub mark_revoked : Session → Session
mark_revoked s = record s {
  state = revoked;
  checkpoint_outcome = some (codes "policy_revoked_fence_retained");
}

-- The last section: `_active_by_agent` is read by the bare agent, so at its default resource.
unfoldable pub finish_revoked : ℕ → Text → Session → Broker → Broker
finish_revoked now sid s b =
    let b' = release_key (default_key s.agent_id) sid (update_session sid mark_revoked b) in
    prune_terminal now (record b' { terminal = Dict.put b'.terminal sid now })

abbrev pub revoked_with : Session → Option (Text → Bool) → Exec (Unit {0})
revoked_with s none = pure tt
revoked_with s (some returns) = do
  modify (emit (policy_revoked_called s.agent_id))
  if returns s.agent_id then pure tt else fail other

unfoldable pub call_policy_revoked : Env → Session → Exec (Unit {0})
call_policy_revoked env s = revoked_with s env.on_policy_revoked

abbrev pub revoke_found : Env → ℕ → Text → Option Session → Exec (Unit {0})
revoke_found env now sid none = pure tt
revoke_found env now sid (some s) = do
  modify (close_each env sid s.sockets)
  modify (finish_revoked now sid s)
  call_policy_revoked env s

unfoldable pub revoke_after_policy_change : Env → ℕ → Text → Exec (Unit {0})
revoke_after_policy_change env now sid b = revoke_found env now sid (Dict.get b.sessions sid) b

unfoldable pub revoke_all : Env → ℕ → List Text → Exec (Unit {0})
revoke_all env now [] = pure tt
revoke_all env now (sid ∷ rest) = do revoke_after_policy_change env now sid; revoke_all env now rest

unfoldable pub replace_principals : Env → ℕ → List AccessPrincipal → Exec (Unit {0})
replace_principals env now principals b =
    (do
      modify (publish principals)
      revoke_all env now (affected b principals (Dict.keys b.sessions)))
      b

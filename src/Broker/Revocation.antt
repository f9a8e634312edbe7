-- ===== src/Broker/Revocation.antt =====
-- What a policy reload guarantees (`replace_principals`).
use hermes_fleet.Prelude.{
  ℕ, ◌≡◌, refl, ◌∙◌, true, ◌&&◌, some, List, ◌++◌, All, arith, list_eq, nat_eq, if_cases, not,
  list_beq_iff, &&-left, &&-right,
}
use hermes_fleet.Prelude.Dict
use hermes_fleet.Prelude.Text.{Text, lower}
use hermes_fleet.Broker.Types.{Session, Broker, Env, AccessPrincipal, Event}
use hermes_fleet.Broker.Exec.{Result, ok, raise}
use hermes_fleet.Broker.Policy.{authorized_principal_from}
use hermes_fleet.Broker.Terminal.{drop_socket}
use hermes_fleet.Broker.Viewer.{human_may_connect}
use hermes_fleet.Broker.Reload.{
  identity_fits, still_allowed, is_watched, revokes, start_revoking, publish, mark_revoked,
  replace_principals,
}
use hermes_fleet.Broker.Steps.Reloads.{
  Holds, Stable, IsReloadEvent, Quiet, revoke_all-Quiet, affected-NotLive,
}
use hermes_fleet.Broker.Invariant.Kept.{get-mark_revoking}

identity_fits-drop_socket :
    (r : Result AccessPrincipal) (c : ℕ) (s : Session)
    → identity_fits r (drop_socket c s) ≡ identity_fits r s
unfolding drop_socket
identity_fits-drop_socket (ok p) c s = refl
identity_fits-drop_socket (raise e) c s = refl

identity_of_fits :
    (r : Result AccessPrincipal) (s : Session)
    → identity_fits r s ≡ true
    → (p : AccessPrincipal) × (r ≡ ok p)
      × (p.principal_id ≡ s.principal_id)
      × (lower p.access_email ≡ s.access_email)
identity_of_fits (ok p) s h =
    (p, refl, (list_beq_iff _ _).0 (&&-left _ _ h), (list_beq_iff _ _).0 (&&-right _ _ h))
identity_of_fits (raise e) s h = cc

module _ (env : Env) (now : ℕ) (principals : List AccessPrincipal) (b : Broker) where
  -- What a session satisfies once the reload has gone over it.
  abbrev Admitted : Session → Type 0
  Admitted s = is_watched s.state ≡ true → still_allowed b principals s ≡ true

  Admitted-Stable : Stable Admitted
  unfolding drop_socket mark_revoked still_allowed
  Admitted-Stable = record {
    drop = λ c s h w. identity_fits-drop_socket _ c s ∙ h w;
    revoke = λ s h w. cc;
  }

  reload-Quiet : Quiet (publish principals b) (replace_principals env now principals b).1
  unfolding replace_principals
  reload-Quiet = revoke_all-Quiet env now _ _ (affected-NotLive b principals _)

  publish-Admitted : (sid : Text) → Holds Admitted sid (publish principals b)
  unfolding publish start_revoking revokes
  publish-Admitted sid t e =
      let o = get-mark_revoking b principals b.sessions sid t e in
      rw o.2 (
        if_cases Admitted (is_watched o.0.state && not (still_allowed b principals o.0))
          (start_revoking o.0) o.0 (λ hit w. cc) (λ miss w. ground arith))

  -- When a reload has returned, every session that a human may still connect to is admitted by the new
  -- policy: its route is authorised, for the same principal and the same e-mail address.
  pub reload_admits :
      (sid : Text) (s : Session) (later : ℕ)
      → Dict.get (replace_principals env now principals b).1.sessions sid ≡ some s
      → human_may_connect later s ≡ true
      → (p : AccessPrincipal) × (authorized_principal_from b principals s.invocation ≡ ok p)
        × (p.principal_id ≡ s.principal_id)
        × (lower p.access_email ≡ s.access_email)
  unfolding human_may_connect still_allowed
  reload_admits sid s later e may =
      let w : is_watched s.state ≡ true = ground arith in
      let allowed = reload-Quiet.still Admitted Admitted-Stable sid (publish-Admitted sid) s e w in
      identity_of_fits _ s allowed

  -- A reload closes viewers and gives notice, and makes no other call: the reload itself asks for no
  -- transition, no terminal checkpoint and no release to Observe.
  pub reload_never_releases :
      (calls : List Event) × ((replace_principals env now principals b).1.events
        ≡ b.events ++ calls)
      × All IsReloadEvent calls
  unfolding publish
  reload_never_releases = (reload-Quiet.calls, reload-Quiet.trace, reload-Quiet.only)

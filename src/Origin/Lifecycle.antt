-- ===== src/Origin/Lifecycle.antt =====
-- `InheritedLockLifecycle` of origin.py: a marker that a previous process left, or whose grant was
-- withdrawn, stays until a human who took the browser over ends or releases it.
use hermes_fleet.Prelude.{
  ◌≡◌, ◌≢◌, refl, ap, ◌∙◌, Bool, true, false, ◌&&◌, ◌||◌, not, Option, none, some, List, [], ◌∷◌,
  arith, nat_eq, list_eq, ◌==◌, if◌then◌else◌, contains, All, list_beq_iff,
}
use hermes_fleet.Prelude.Text.{Text, codes}
use hermes_fleet.Broker.Exec.{Result, ok, raise, raises, broker_error}
use hermes_fleet.Origin.Routing.{Route, Tables, route_for, default_name}
use hermes_fleet.Origin.Lock.{
  Service, World, checkpoint_then_release, legacy_states, released_workspace, others_stay,
}

pub record Lifecycle : Type 0 where
  pub agent : Text
  pub workspace : Text
  pub inherited : Bool
  pub eligible_session : Option Text

pub record Held : Type 0 where
  pub lifecycle : Lifecycle
  pub world : World

unfoldable pub transition : Text → Text → Text → Bool → Lifecycle → Lifecycle
transition agent session_id state takeover_confirmed l =
    if agent == l.agent && state == codes "ended" && takeover_confirmed
    then record l { eligible_session = some session_id }
    else l

unfoldable pub retain_after_policy_revocation : Text → Lifecycle → Lifecycle
retain_after_policy_revocation agent l =
    if agent == l.agent then record l { inherited = true; eligible_session = none } else l

abbrev pub retained_text : Text
retained_text = codes "inherited_lock_retained"

-- What follows a checkpoint: the marker is let go only where it returned.
abbrev pub let_go : Lifecycle → Result Text × World → Result Text × Held
let_go l (ok outcome, w) =
    (ok outcome, record { lifecycle = record l { inherited = false }; world = w })
let_go l (raise e, w) = (raise e, record { lifecycle = l; world = w })

abbrev pub is_some : Option Text → Bool
is_some none = false
is_some (some x) = true

unfoldable pub finish : Service → Tables → Text → Text → Held → Result Text × Held
finish service t agent state h =
    let l = h.lifecycle in
    if l.inherited
    then if not (state == codes "ended") || not (is_some l.eligible_session)
      then (ok retained_text, h)
      else let_go (record l { eligible_session = none })
          (checkpoint_then_release service t agent l.workspace state h.world)
    else let_go l (checkpoint_then_release service t agent l.workspace state h.world)

unfoldable pub release_to_observe :
    Service → Tables → Text → Text → Bool → Held → Result Text × Held
release_to_observe service t agent session_id takeover_confirmed h =
    let l = h.lifecycle in
    if l.inherited && (not (agent == l.agent) || not takeover_confirmed)
    then (
      raise (broker_error 409 "inherited takeover lock requires fresh takeover before release"),
      h,
    )
    else let_go l (checkpoint_then_release service t agent l.workspace (codes "observe") h.world)

-- `status`: is the marker reported as a recovery that blocks automation?
unfoldable pub reports_recovery : Text → Lifecycle → Bool
reports_recovery agent l = agent == l.agent && l.inherited

-- The calls that the broker's callbacks make.
pub data Call : Type 0 where
  transitions : Text → Text → Text → Bool → Call
  retains : Text → Call
  finishes : Text → Text → Call
  releases : Text → Text → Bool → Call

unfoldable pub call : Service → Tables → Call → Held → Held
call service t (transitions agent sid state confirmed) h = record h {
  lifecycle = transition agent sid state confirmed h.lifecycle;
}
call service t (retains agent) h = record h {
  lifecycle = retain_after_policy_revocation agent h.lifecycle;
}
call service t (finishes agent state) h = (finish service t agent state h).1
call service t (releases agent sid confirmed) h =
    (release_to_observe service t agent sid confirmed h).1

unfoldable pub run : Service → Tables → List Call → Held → Held
run service t [] h = h
run service t (c ∷ rest) h = run service t rest (call service t c h)

-- A call that no confirmed takeover of this agent stands behind: idle expiry, a retry of the reaper,
-- the end or release of a session whose takeover was not confirmed, another agent's, a revocation.
abbrev pub is_unconfirmed : Text → Call → Bool
is_unconfirmed own (transitions agent sid state confirmed) =
    not (agent == own && state == codes "ended" && confirmed)
is_unconfirmed own (retains agent) = true
is_unconfirmed own (finishes agent state) = true
is_unconfirmed own (releases agent sid confirmed) = not (agent == own && confirmed)

-- Fenced: the marker is held, and nobody is eligible to end it.
abbrev pub Fenced : World → Text → Held → Type 0
Fenced w own h =
    (h.world ≡ w)
    × (h.lifecycle.agent ≡ own)
    × (h.lifecycle.inherited ≡ true)
    × (h.lifecycle.eligible_session ≡ none)

module _ (service : Service) (t : Tables) where
  call-Fenced :
      (c : Call) (w : World) (own : Text) (h : Held)
      → Fenced w own h
      → is_unconfirmed own c ≡ true
      → Fenced w own (call service t c h)
  unfolding call transition retain_after_policy_revocation finish release_to_observe
  call-Fenced (transitions agent sid state confirmed) w own h f u = ground (arith, f)
  call-Fenced (retains agent) w own h f u = ground (arith, f)
  call-Fenced (finishes agent state) w own h f u = ground (arith, f)
  call-Fenced (releases agent sid confirmed) w own h f u = ground (arith, f)

  run-Fenced :
      (calls : List Call) (w : World) (own : Text) (h : Held)
      → Fenced w own h
      → All (λ c. is_unconfirmed own c ≡ true) calls
      → Fenced w own (run service t calls h)
  unfolding run
  run-Fenced [] w own h f u = f
  run-Fenced (c ∷ rest) w own h f u =
      run-Fenced rest w own (call service t c h) (call-Fenced c w own h f u.0) u.1

  reports-Fenced :
      (w : World) (own : Text) (h : Held) → Fenced w own h → reports_recovery own h.lifecycle ≡ true
  unfolding reports_recovery
  reports-Fenced w own h f = ground (arith, f, list_beq_iff own h.lifecycle.agent)

  -- A marker that a broker inherits at its start stays through any calls behind which no takeover of its
  -- agent was confirmed: no lock file is removed, the checkpoint service is not asked, and the status
  -- still reports that automation is blocked.
  pub inherited_stays :
      (own workspace : Text) (w : World) (calls : List Call)
      → All (λ c. is_unconfirmed own c ≡ true) calls
      → let start : Held = record {
        lifecycle = record {
          agent = own;
          workspace = workspace;
          inherited = true;
          eligible_session = none;
        };
        world = w;
      } in
        ((run service t calls start).world ≡ w)
        × (reports_recovery own (run service t calls start).lifecycle ≡ true)
  inherited_stays own workspace w calls u =
      let f = run-Fenced calls w own _ (refl, refl, refl, refl) u in (f.0, reports-Fenced w own _ f)

  retained-Fenced :
      (h : Held) → Fenced h.world h.lifecycle.agent (call service t (retains h.lifecycle.agent) h)
  unfolding call retain_after_policy_revocation
  retained-Fenced h = ground (arith, list_beq_iff h.lifecycle.agent h.lifecycle.agent)

  -- After a policy revocation, through any calls behind which no takeover of the agent was confirmed, no lock
  -- file is removed, the checkpoint service is not asked, and the status reports that automation is blocked, even
  -- where an earlier takeover was eligible to end the marker.
  pub revoked_stays :
      (h : Held) (calls : List Call)
      → All (λ c. is_unconfirmed h.lifecycle.agent c ≡ true) calls
      → let after = run service t (retains h.lifecycle.agent ∷ calls) h in
        (after.world ≡ h.world) × (reports_recovery h.lifecycle.agent after.lifecycle ≡ true)
  unfolding run
  revoked_stays h calls u =
      let own = h.lifecycle.agent in
      let f = run-Fenced calls h.world own (call service t (retains own) h) (retained-Fenced h) u in
      (f.0, reports-Fenced h.world own _ f)

  abbrev Kept : Held → Result Text × Held → Type 0
  Kept h r =
      raises r.0 ≡ true
      → (r.1.world.files ≡ h.world.files) × (r.1.lifecycle.inherited ≡ h.lifecycle.inherited)

-- A workspace that is named "ended", "expired" or "observe" keeps its lock file when a session in it ends,
-- whatever the checkpoint service answers, where its lock is not the one of the default workspace.
pub legacy_name_keeps_lock :
    (service : Service) (t : Tables) (agent workspace : Text) (w : World) (own default : Route)
    → contains workspace legacy_states ≡ true
    → route_for t agent workspace ≡ ok own
    → route_for t agent default_name ≡ ok default
    → own.lock ≢ default.lock
    → contains own.lock w.files ≡ true
    → contains own.lock
        (checkpoint_then_release service t agent workspace (codes "ended") w).1.files
      ≡ true
legacy_name_keeps_lock service t agent workspace w own default legacy routed by_default other held =
    let released : released_workspace workspace (codes "ended") ≡ default_name =
      unfold released_workspace in rw legacy refl in
    others_stay service t agent workspace (codes "ended") w own.lock default
      (ap (route_for t agent) released ∙ by_default) other held

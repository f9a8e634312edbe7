-- ===== src/Origin/Lock.antt =====
-- `checkpoint_before_end` and `checkpoint_then_release` of origin.py: a takeover lock is a file, which is
-- removed only after the checkpoint service has answered.
use hermes_fleet.Prelude.{
  ℕ, ◌≡◌, ◌≢◌, ◌≤◌, ◌<◌, refl, sym, ap, ◌∙◌, inl, inr, true, false, ◌&&◌, List, [], ◌∷◌, ◌++◌,
  arith, nat_eq, list_eq, ◌==◌, if◌then◌else◌, if_cases, leb, ltb, nat_beq, nat_beq_iff, contains,
  Bool-cases, list_beq_iff,
}
use mathlib.Core.Path.{subst}
use mathlib.Core.Bool.{false≢true}
use hermes_fleet.Prelude.Text.{Text, codes}
use hermes_fleet.Broker.Exec.{Result, ok, raise, broker_error}
use hermes_fleet.Origin.Routing.{Route, Tables, route_for, default_name}

-- What a POST to the checkpoint service comes to.
pub data Post : Type 0 where
  response : ℕ → Post
  http_error : ℕ → Post
  unreachable : Post

-- The lock files that exist, and the addresses that were posted to, oldest first.
pub record World : Type 0 where
  pub files : List Text
  pub posts : List Text

unfoldable pub without : Text → List Text → List Text
without path [] = []
without path (x ∷ xs) = let rest = without path xs in if x == path then rest else x ∷ rest

-- `unlink(missing_ok=True)`
unfoldable pub unlink : Text → World → World
unlink path w = record w { files = without path w.files }

abbrev pub checkpoint_no_live_session : ℕ
checkpoint_no_live_session = 409

-- The service is asked with what it has been posted before; its answer may be anything.
abbrev pub Service : Type 0
Service = Text → List Text → Post

-- The outcome of a POST: confirmed, corroborated as absent, or a 502.
unfoldable pub outcome_of : Post → Result Text
outcome_of (response status) =
    if leb 200 status && ltb status 300
    then ok (codes "saved")
    else raise (broker_error 502 "checkpoint failed; takeover remains locked")
outcome_of (http_error code) =
    if nat_beq code checkpoint_no_live_session
    then ok (codes "no_live_session")
    else raise (broker_error 502 "checkpoint failed; takeover remains locked")
outcome_of unreachable = raise (broker_error 502 "checkpoint failed; takeover remains locked")

abbrev pub checkpoint_route : Service → Result Route → World → Result Text × World
checkpoint_route service (raise e) w = (raise e, w)
checkpoint_route service (ok r) w =
    if contains r.lock w.files
    then (
      outcome_of (service r.checkpoint w.posts),
      record w { posts = w.posts ++ r.checkpoint ∷ [] },
    )
    else (ok (codes "not_needed"), w)

unfoldable pub checkpoint_before_end : Service → Tables → Text → Text → World → Result Text × World
unfolding outcome_of
checkpoint_before_end service t agent workspace w =
    checkpoint_route service (route_for t agent workspace) w

-- The old form of the call had the state in the second place.
abbrev pub legacy_states : List Text
legacy_states = codes "ended" ∷ codes "expired" ∷ codes "observe" ∷ []

unfoldable pub released_workspace : Text → Text → Text
released_workspace workspace state =
    if contains workspace legacy_states && state == codes "ended" then default_name else workspace

-- `lock_for(...).unlink(missing_ok=True)`, then the outcome
abbrev pub unlink_route : Result Route → Text → World → Result Text × World
unlink_route (raise e) outcome w = (raise e, w)
unlink_route (ok r) outcome w = (ok outcome, unlink r.lock w)

abbrev pub after_checkpoint : Result Route → Result Text × World → Result Text × World
after_checkpoint route (raise e, w) = (raise e, w)
after_checkpoint route (ok outcome, w) = unlink_route route outcome w

unfoldable pub release_workspace : Service → Tables → Text → Text → World → Result Text × World
unfolding checkpoint_before_end unlink
release_workspace service t agent workspace w =
    after_checkpoint (route_for t agent workspace)
      (checkpoint_before_end service t agent workspace w)

unfoldable pub checkpoint_then_release :
    Service → Tables → Text → Text → Text → World → Result Text × World
unfolding release_workspace released_workspace
checkpoint_then_release service t agent workspace state w =
    release_workspace service t agent (released_workspace workspace state) w

-- An answer that lets a lock go: a save, or a corroborated absence of a session.
pub data Confirms : Post → Type 0 where
  saved : (status : ℕ) → 200 ≤ status → status < 300 → Confirms (response status)
  absent : Confirms (http_error 409)

contains-without :
    (path q : Text) (xs : List Text)
    → contains path xs ≡ true
    → contains path (without q xs) ≡ false
    → path ≡ q
unfolding without
contains-without path q [] h gone = cc
contains-without path q (x ∷ xs) h gone =
    ground (arith, list_beq_iff x q, list_beq_iff path x, contains-without path q xs)

outcome-Confirms : (p : Post) (o : Text) → outcome_of p ≡ ok o → Confirms p
unfolding outcome_of
outcome-Confirms (response status) o h = elim (Bool-cases (leb 200 status && ltb status 300)) [
  | inl t ↦ saved status (ground arith) (ground arith)
  | inr t ↦ cc (rw t at h)
]
outcome-Confirms (http_error code) o h = elim (Bool-cases (nat_beq code 409)) [
  | inl t ↦
      let same : 409 ≡ code = omega (arith, (nat_beq_iff code 409).0 t) in
      subst (λ c. Confirms (http_error c)) same absent
  | inr t ↦ cc (rw t at h)
]
outcome-Confirms unreachable o h = cc

-- The lock of a route went, and the service had confirmed.
pub record Gone (service : Service) (path : Text) (posts : List Text) (route : Result Route)
    : Type 0 where
  pub route_taken : Route
  pub routed : route ≡ ok route_taken
  pub own_lock : path ≡ route_taken.lock
  pub confirmed : Confirms (service route_taken.checkpoint posts)

module _ (service : Service) (path : Text) (w : World) (held : contains path w.files ≡ true) where
  abbrev Loses : Result Route → Result Text × World → Type 0
  Loses route r = contains path r.1.files ≡ false → Gone service path w.posts route

  unlinked-Loses :
      (r : Route) (o : Result Text) (v : World)
      → v.files ≡ w.files
      → ((t : Text) → o ≡ ok t → Confirms (service r.checkpoint w.posts))
      → Loses (ok r) (after_checkpoint (ok r) (o, v))
  unlinked-Loses r (raise e) v same h gone = cc (gone, held, same)
  unlinked-Loses r (ok t) v same h gone = record {
    route_taken = r;
    routed = refl;
    own_lock = contains-without path r.lock v.files (rw same held) (unfold unlink in gone);
    confirmed = h t refl;
  }

  route-Loses :
      (route : Result Route)
      → Loses route (after_checkpoint route (checkpoint_route service route w))
  unfolding unlink
  route-Loses (raise e) = λ gone. cc (gone, held)
  route-Loses (ok r) =
      if_cases (λ k. Loses (ok r) (after_checkpoint (ok r) k)) (contains r.lock w.files)
        (
          outcome_of (service r.checkpoint w.posts),
          record w { posts = w.posts ++ r.checkpoint ∷ [] },
        )
        (ok (codes "not_needed"), w)
        (λ t.
          unlinked-Loses r (outcome_of (service r.checkpoint w.posts)) _ refl (outcome-Confirms _))
        (λ t gone.
          let own = contains-without path r.lock w.files held gone in
          absurd (false≢true (sym t ∙ subst (λ q. contains q w.files ≡ true) own held)))

module _ (service : Service) (t : Tables) (agent workspace state : Text) (w : World) where
  abbrev after : Result Text × World
  after = checkpoint_then_release service t agent workspace state w

  -- A lock file that a release removed is the one of the released workspace's route, and the checkpoint
  -- service had answered for that route that the session is saved (a status from 200 to 299) or that
  -- there is none (409).
  pub removed-Gone :
      (path : Text)
      → contains path w.files ≡ true
      → contains path after.1.files ≡ false
      → Gone service path w.posts (route_for t agent (released_workspace workspace state))
  unfolding checkpoint_then_release
  removed-Gone path held gone = route-Loses service path w held _ gone

  -- No other lock file goes.
  pub others_stay :
      (path : Text) (r : Route)
      → route_for t agent (released_workspace workspace state) ≡ ok r
      → path ≢ r.lock
      → contains path w.files ≡ true
      → contains path after.1.files ≡ true
  others_stay path r routed other held = elim (Bool-cases (contains path after.1.files)) [
    | inl stays ↦ stays
    | inr gone ↦
        let g = removed-Gone path held gone in
        let same : r ≡ g.route_taken = cc (routed, g.routed) in
        absurd (other (g.own_lock ∙ sym (ap (λ (r : Route). r.lock) same)))
  ]

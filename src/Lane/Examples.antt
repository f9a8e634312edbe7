-- ===== src/Lane/Examples.antt =====
-- A lane of one place: a job that is called in time, and a close.
use hermes_fleet.Prelude.{◌≡◌, ◌≤◌, refl, true, false, [], ◌∷◌, length, nat_eq}
use hermes_fleet.Prelude.Dict
use hermes_fleet.Lane.Work.{
  Lane, Job, running, init, submit, check, begin, close, Steps, done, one_more, submits, takes,
  checks, begins, calls, closes,
}
use hermes_fleet.Lane.Kept.{InTime, waits}
use hermes_fleet.Lane.Promises.{bound_and_deadlines, closed_lane_forgets_none}

abbrev job : Job
job = record { future = 5; deadline = 30 }

-- After the job was submitted at time 10 with a timeout of 20, taken, checked, found in time at 12 and called.
unfoldable begun : Lane
unfolding init
begun = record (init 1) { futures = (5, running) ∷ []; started = (job, 12) ∷ [] }

begun-Steps : Steps (init 1) begun
unfolding begun init submit check begin Dict.get Dict.put
begun-Steps =
    one_more
      (one_more
        (one_more (one_more (one_more done (submits 5 10 20 (init 1) refl)) (takes job [] _ refl))
          (checks [] job [] _ refl))
        (begins [] job [] 12 _ refl))
      (calls [] job 12 [] _ refl)

bound_and_deadlines_example : (length begun.queue ≤ 1) × InTime begun.started
bound_and_deadlines_example = bound_and_deadlines 1 begun-Steps

unfoldable shut : Lane
unfolding begun
shut = close begun

shut-Steps : Steps (init 1) shut
unfolding shut
shut-Steps = one_more begun-Steps (closes begun)

shut_closed : shut.closed ≡ true
unfolding shut close
shut_closed = refl

shut_idle : shut.hands ≡ []
unfolding shut close begun init
shut_idle = refl

shut_unready : shut.ready ≡ []
unfolding shut close begun init
shut_unready = refl

closed_lane_forgets_none_example : waits shut.futures 5 ≡ false
closed_lane_forgets_none_example =
    closed_lane_forgets_none 1 5 shut-Steps shut_closed shut_idle shut_unready

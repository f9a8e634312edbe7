-- ===== src/Lane/Promises.antt =====
-- What a lane promises however its threads interleave: bounds, deadlines, and no forgotten future.
use mathlib.Core.Bool.{false≢true}
use hermes_fleet.Prelude.{
  ℕ, ◌≡◌, ◌≤◌, sym, ap, ◌∙◌, inl, inr, true, false, [], arith, length, nat_eq, Bool-cases,
}
use hermes_fleet.Lane.Work.{Lane, init, Steps}
use hermes_fleet.Lane.Kept.{waits, holds, InTime, somewhere, init-Good, Steps-Good}

-- However callers, workers and a close interleave, the queue of a lane holds at most `pending` jobs, and a
-- job's function was called only after a worker had tested the time and found it before the job's deadline.
pub bound_and_deadlines :
    {l : Lane} (pending : ℕ)
    → Steps (init pending) l
    → (length l.queue ≤ pending) × InTime l.started
bound_and_deadlines pending p =
    let g = Steps-Good pending p (init-Good pending) in (g.short, g.called)

-- In a closed lane in which no worker holds a job whose future it has not yet tested, no future still waits to
-- be run.
pub closed_lane_forgets_none :
    {l : Lane} (pending future : ℕ)
    → Steps (init pending) l
    → l.closed ≡ true
    → l.hands ≡ []
    → l.ready ≡ []
    → waits l.futures future ≡ false
closed_lane_forgets_none {l} pending future p shut idle unready =
    let g = Steps-Good pending p (init-Good pending) in
    elim (Bool-cases (waits l.futures future)) [
      | inl w ↦
          let nowhere : somewhere future l ≡ false = ground (
            arith,
            ap (holds future) (g.drained shut),
            ap (holds future) idle,
            ap (holds future) unready,
          ) in
          absurd (false≢true (sym nowhere ∙ g.known future w))
      | inr w ↦ w
    ]

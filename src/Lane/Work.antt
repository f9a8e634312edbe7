-- ===== src/Lane/Work.antt =====
-- `WorkLane`: `submit`, `_work`, `_execute` and `close`, and the calls on a future.
use hermes_fleet.Prelude.{
  ℕ, ◌+◌, ◌≡◌, Bool, true, false, Option, none, some, List, [], ◌∷◌, ◌++◌, if◌then◌else◌, ltb, leb,
  length, nat_eq, nat_beq, ◌||◌,
}
use hermes_fleet.Prelude.Dict
use hermes_fleet.Prelude.Dict.{Dict}

-- The state of a `Future`. The last two are `set_result`, and `set_exception` with the function's own.
pub data Future : Type 0 where
  waiting cancelled running deadline_expired result exception : Future

abbrev pub is_waiting : Future → Bool
is_waiting waiting = true
is_waiting _ = false

-- A job is known by its future.
pub record Job : Type 0 where
  pub future : ℕ
  pub deadline : ℕ

-- `hands` are the jobs that a worker has taken from the queue, `ready` those that it has found the lane
-- open for, `in_time` those whose deadline it has found ahead, each with the time of that test, and `started`
-- the jobs whose function was called, with the time of their test again.
pub record Lane : Type 0 where
  pub pending : ℕ
  pub queue : List Job
  pub closed : Bool
  pub hands : List Job
  pub ready : List Job
  pub in_time : List (Job × ℕ)
  pub futures : Dict ℕ Future
  pub started : List (Job × ℕ)

unfoldable pub init : ℕ → Lane
init pending = record {
  pending = pending;
  queue = [];
  closed = false;
  hands = [];
  ready = [];
  in_time = [];
  futures = [];
  started = [];
}

pub data Submitted : Type 0 where
  submitted : Submitted
  value_error : Submitted
  closing : Submitted
  at_capacity : Submitted

abbrev pub enqueue : ℕ → ℕ → Lane → Lane
enqueue future deadline l = record l {
  queue = l.queue ++ (record { future = future; deadline = deadline } ∷ []);
  futures = Dict.put l.futures future waiting;
}

-- `submit`, with the new future, the time and the timeout.
unfoldable pub submit : ℕ → ℕ → ℕ → Lane → Submitted × Lane
submit future now timeout l =
    if leb timeout 0
    then (value_error, l)
    else if l.closed
    then (closing, l)
    else if ltb (length l.queue) l.pending
    then (submitted, enqueue future (now + timeout) l)
    else (at_capacity, l)

-- `future.cancel()`: it has an effect on a future that waits.
abbrev pub cancel_found : Option Future → ℕ → Dict ℕ Future → Dict ℕ Future
cancel_found (some waiting) f d = Dict.put d f cancelled
cancel_found _ f d = d

unfoldable pub cancel : ℕ → Dict ℕ Future → Dict ℕ Future
cancel f d = cancel_found (Dict.get d f) f d

-- `set_running_or_notify_cancel`, and the test of the deadline that follows it.
abbrev pub start_found : Option Future → Job → ℕ → Lane → Lane
start_found (some waiting) job now l =
    if leb job.deadline now
    then record l { futures = Dict.put l.futures job.future deadline_expired }
    else record l {
      futures = Dict.put l.futures job.future running;
      in_time = l.in_time ++ ((job, now) ∷ []);
    }
start_found _ job now l = l

-- The first test of `_execute`.
unfoldable pub check : Job → Lane → Lane
unfolding cancel
check job l =
    if l.closed
    then record l { futures = cancel job.future l.futures }
    else record l { ready = l.ready ++ (job ∷ []) }

-- `_execute` from there to the test of the deadline. The function is called later, as a step of its own.
unfoldable pub begin : Job → ℕ → Lane → Lane
begin job now l = start_found (Dict.get l.futures job.future) job now l

-- The drain of `close`.
unfoldable pub cancel_all : List Job → Dict ℕ Future → Dict ℕ Future
cancel_all [] d = d
cancel_all (job ∷ rest) d = cancel_all rest (cancel job.future d)

unfoldable pub close : Lane → Lane
close l = record l { closed = true; queue = []; futures = cancel_all l.queue l.futures }

-- The function of the future's job was called.
abbrev pub is_called : ℕ → List (Job × ℕ) → Bool
is_called f [] = false
is_called f ((job, tested) ∷ rest) = nat_beq job.future f || is_called f rest

-- A `BaseException` of the function, or its result.
abbrev pub settled : Bool → Future
settled true = exception
settled false = result

-- One step of a worker or a caller. A future that `submit` makes is new.
pub data Step : Lane → Lane → Type 0 where
  submits :
      (future now timeout : ℕ) (l : Lane)
      → Dict.get l.futures future ≡ none
      → Step l (submit future now timeout l).1
  takes :
      (job : Job) (rest : List Job) (l : Lane)
      → l.queue ≡ job ∷ rest
      → Step l (record l { queue = rest; hands = l.hands ++ (job ∷ []) })
  checks :
      (before : List Job) (job : Job) (behind : List Job) (l : Lane)
      → l.hands ≡ before ++ (job ∷ behind)
      → Step l (check job (record l { hands = before ++ behind }))
  begins :
      (before : List Job) (job : Job) (behind : List Job) (now : ℕ) (l : Lane)
      → l.ready ≡ before ++ (job ∷ behind)
      → Step l (begin job now (record l { ready = before ++ behind }))
  calls :
      (before : List (Job × ℕ)) (job : Job) (tested : ℕ) (behind : List (Job × ℕ)) (l : Lane)
      → l.in_time ≡ before ++ ((job, tested) ∷ behind)
      → Step l
          (record l { in_time = before ++ behind; started = l.started ++ ((job, tested) ∷ []) })
  settles :
      (future : ℕ) (raised : Bool) (l : Lane)
      → is_called future l.started ≡ true
      → Dict.get l.futures future ≡ some running
      → Step l (record l { futures = Dict.put l.futures future (settled raised) })
  cancels : (future : ℕ) (l : Lane) → Step l (record l { futures = cancel future l.futures })
  closes : (l : Lane) → Step l (close l)

pub data Steps (l : Lane) : Lane → Type 0 where
  done : Steps l l
  one_more : {m n : Lane} → Steps l m → Step m n → Steps l n

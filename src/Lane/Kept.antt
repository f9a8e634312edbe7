-- ===== src/Lane/Kept.antt =====
-- What every step of a lane (`WorkLane`) keeps: its bound, its deadlines, and the place of each waiting future.
use mathlib.Core.Path.{subst}
use mathlib.Core.Bool.{false≢true}
use hermes_fleet.Prelude.{
  ℕ, suc, ◌+◌, ◌≡◌, ◌≤◌, ◌<◌, refl, sym, ap, ◌∙◌, inl, inr, Bool, true, false, ◌||◌, Option, none,
  some, List, [], ◌∷◌, ◌++◌, arith, if◌then◌else◌, if_cases, ltb, leb, ltb→lt, nat_beq, nat_beq_iff,
  length, length-append, nat_eq, All, All-append, Bool-cases,
}
use hermes_fleet.Prelude.Dict
use hermes_fleet.Prelude.Dict.{Dict, get-put}
use hermes_fleet.Lane.Work.{
  Future, waiting, cancelled, running, deadline_expired, result, exception, is_waiting, Job, Lane,
  init, Submitted, submit, enqueue, cancel, start_found, check, begin, cancel_all, close, settled,
  Step, submits, takes, checks, begins, calls, settles, cancels, closes, Steps, done, one_more,
}

abbrev pub waits : Dict ℕ Future → ℕ → Bool
waits d f = elim (Dict.get d f) [ none ↦ false | some s ↦ is_waiting s ]

-- A job of the future is in the list.
abbrev pub holds : ℕ → List Job → Bool
holds f [] = false
holds f (job ∷ rest) = nat_beq job.future f || holds f rest

holds-append : (f : ℕ) (xs ys : List Job) → holds f (xs ++ ys) ≡ (holds f xs || holds f ys)
holds-append f [] ys = refl
holds-append f (x ∷ xs) ys = ground (arith, holds-append f xs ys)

-- Of a list with one job taken out.
holds-taken :
    (f : ℕ) (before : List Job) (job : Job) (behind : List Job)
    → holds f (before ++ (job ∷ behind)) ≡ true
    → nat_beq job.future f ≡ false
    → holds f (before ++ behind) ≡ true
holds-taken f [] job behind h other = ground arith
holds-taken f (x ∷ before) job behind h other = ground (arith, holds-taken f before job behind)

waits-put :
    (d : Dict ℕ Future) (g : ℕ) (s : Future) (f : ℕ)
    → waits (Dict.put d g s) f ≡ (if nat_beq g f then is_waiting s else waits d f)
waits-put d g s f = ground (arith, get-put d g f s)

waits-cancel :
    (d : Dict ℕ Future) (g f : ℕ)
    → waits (cancel g d) f ≡ true
    → (waits d f ≡ true) × (nat_beq g f ≡ false)
unfolding cancel
waits-cancel d g f h = ground (arith, get-put d g f cancelled, nat_beq_iff g f)

waits-cancel_all :
    (jobs : List Job) (d : Dict ℕ Future) (f : ℕ)
    → waits (cancel_all jobs d) f ≡ true
    → (waits d f ≡ true) × (holds f jobs ≡ false)
unfolding cancel_all
waits-cancel_all [] d f h = (h, refl)
waits-cancel_all (job ∷ rest) d f h =
    let more = waits-cancel_all rest (cancel job.future d) f h in
    let here = waits-cancel d job.future f more.0 in (here.0, rw (here.1, more.1) refl)

abbrev pub InTime : List (Job × ℕ) → Type 0
InTime = All (λ p. p.1 < p.0.deadline)

-- Where a future that waits is known.
abbrev pub somewhere : ℕ → Lane → Bool
somewhere f l = holds f l.queue || (holds f l.hands || holds f l.ready)

pub record Good (n : ℕ) (l : Lane) : Type 0 where
  pub bound : l.pending ≡ n
  pub short : length l.queue ≤ n
  pub tested : InTime l.in_time
  pub called : InTime l.started
  pub known : (f : ℕ) → waits l.futures f ≡ true → somewhere f l ≡ true
  pub drained : l.closed ≡ true → l.queue ≡ []

pub init-Good : (n : ℕ) → Good n (init n)
unfolding init Dict.get
init-Good n = record {
  bound = refl;
  short = omega arith;
  tested = tt;
  called = tt;
  known = λ f h. cc;
  drained = λ h. refl;
}

enqueue-Good :
    (n future deadline : ℕ) (l : Lane)
    → Good n l
    → l.closed ≡ false
    → length l.queue < l.pending
    → Good n (enqueue future deadline l)
enqueue-Good n future deadline l g is_open room =
    let job : Job = record { future = future; deadline = deadline } in
    record {
      bound = g.bound;
      short = omega (arith, length-append l.queue (job ∷ []), room, g.bound);
      tested = g.tested;
      called = g.called;
      known = λ f h. ground (
        arith,
        g.known f,
        waits-put l.futures future waiting f,
        h,
        holds-append f l.queue (job ∷ []),
      );
      drained = λ h. cc;
    }

submit-Good :
    (n future now timeout : ℕ) (l : Lane) → Good n l → Good n (submit future now timeout l).1
unfolding submit
submit-Good n future now timeout l g =
    if_cases (λ (r : Submitted × Lane). Good n r.1) (leb timeout 0) _ _ (λ t. g)
      λ _.
        if_cases (λ (r : Submitted × Lane). Good n r.1) l.closed _ _ (λ t. g)
          λ open_still.
            if_cases (λ (r : Submitted × Lane). Good n r.1) (ltb (length l.queue) l.pending) _ _
              (λ t. enqueue-Good n future (now + timeout) l g open_still (ltb→lt _ _ t)) (λ t. g)

take-Good :
    (n : ℕ) (job : Job) (rest : List Job) (l : Lane)
    → Good n l
    → l.queue ≡ job ∷ rest
    → Good n (record l { queue = rest; hands = l.hands ++ (job ∷ []) })
take-Good n job rest l g e =
    let shorter : length l.queue ≡ suc (length rest) = ap (λ (q : List Job). length q) e in
    record {
      bound = g.bound;
      short = omega (arith, shorter, g.short);
      tested = g.tested;
      called = g.called;
      known = λ f h. ground (arith, g.known f h, holds-append f l.hands (job ∷ []), ap (holds f) e);
      drained = λ h. cc (g.drained h, e);
    }

check-Good :
    (n : ℕ) (before : List Job) (job : Job) (behind : List Job) (l : Lane)
    → Good n l
    → l.hands ≡ before ++ (job ∷ behind)
    → Good n (check job (record l { hands = before ++ behind }))
unfolding check
check-Good n before job behind l g e =
    if_cases (Good n) l.closed _ _
      (λ shut. record {
        bound = g.bound;
        short = g.short;
        tested = g.tested;
        called = g.called;
        known = λ f h.
            let w = waits-cancel l.futures job.future f h in
            ground (arith, g.known f w.0, ap (holds f) e, holds-taken f before job behind, w.1);
        drained = g.drained;
      })
      (λ shut. record {
        bound = g.bound;
        short = g.short;
        tested = g.tested;
        called = g.called;
        known = λ f h. ground (
          arith,
          g.known f h,
          ap (holds f) e,
          holds-taken f before job behind,
          holds-append f l.ready (job ∷ []),
        );
        drained = g.drained;
      })

-- The job that is begun has left `ready`, and its future does not wait any more.
module _ (n : ℕ) (before : List Job) (job : Job) (behind : List Job) (now : ℕ) (l : Lane)
    (g : Good n l) (e : l.ready ≡ before ++ (job ∷ behind)) where
  abbrev left : Lane
  left = record l { ready = before ++ behind }

  other_known :
      (f : ℕ) → waits l.futures f ≡ true → nat_beq job.future f ≡ false → somewhere f left ≡ true
  other_known f w other =
      ground (arith, g.known f w, ap (holds f) e, holds-taken f before job behind, other)

  put_known :
      (s : Future)
      → is_waiting s ≡ false
      → (f : ℕ) → waits (Dict.put l.futures job.future s) f ≡ true
      → somewhere f left ≡ true
  put_known s over f h =
      let p = waits-put l.futures job.future s f in
      elim (Bool-cases (nat_beq job.future f)) [
        | inl same ↦ absurd (
            false≢true (
              sym over
              ∙ ap (λ b. if b then is_waiting s else waits l.futures f) (sym same)
              ∙ sym p
              ∙ h))
        | inr other ↦
            other_known f
              (ap (λ b. if b then is_waiting s else waits l.futures f) (sym other) ∙ sym p ∙ h)
              other
      ]

  unchanged-Good : waits l.futures job.future ≡ false → Good n left
  unchanged-Good over = record {
    bound = g.bound;
    short = g.short;
    tested = g.tested;
    called = g.called;
    known = λ f h. elim (Bool-cases (nat_beq job.future f)) [
      | inl same ↦
          absurd
            (false≢true (sym over ∙ ap (waits l.futures) ((nat_beq_iff job.future f).0 same) ∙ h))
      | inr other ↦ other_known f h other
    ];
    drained = g.drained;
  }

  begun-Good :
      (o : Option Future) → Dict.get l.futures job.future ≡ o → Good n (start_found o job now left)
  begun-Good (some waiting) is =
      if_cases (Good n) (leb job.deadline now) _ _
        (λ late. record {
          bound = g.bound;
          short = g.short;
          tested = g.tested;
          called = g.called;
          known = put_known deadline_expired refl;
          drained = g.drained;
        })
        (λ early. record {
          bound = g.bound;
          short = g.short;
          tested =
              All-append (λ (p : Job × ℕ). p.1 < p.0.deadline) l.in_time ((job, now) ∷ []) g.tested
                (ground arith, tt);
          called = g.called;
          known = put_known running refl;
          drained = g.drained;
        })
  begun-Good none is = unchanged-Good (ground (arith, is))
  begun-Good (some cancelled) is = unchanged-Good (ground (arith, is))
  begun-Good (some running) is = unchanged-Good (ground (arith, is))
  begun-Good (some deadline_expired) is = unchanged-Good (ground (arith, is))
  begun-Good (some result) is = unchanged-Good (ground (arith, is))
  begun-Good (some exception) is = unchanged-Good (ground (arith, is))

All-taken :
    {A : Type 0} (P : A → Type 0) (before : List A) (x : A) (behind : List A)
    → All P (before ++ (x ∷ behind))
    → P x × All P (before ++ behind)
All-taken P [] x behind h = h
All-taken P (y ∷ before) x behind h = let r = All-taken P before x behind h.1 in (r.0, (h.0, r.1))

call-Good :
    (n : ℕ) (before : List (Job × ℕ)) (job : Job) (tested : ℕ) (behind : List (Job × ℕ)) (l : Lane)
    → Good n l
    → l.in_time ≡ before ++ ((job, tested) ∷ behind)
    → Good n (record l { in_time = before ++ behind; started = l.started ++ ((job, tested) ∷ []) })
call-Good n before job tested behind l g e =
    let r =
      All-taken (λ (p : Job × ℕ). p.1 < p.0.deadline) before (job, tested) behind
        (subst InTime e g.tested) in
    record {
      bound = g.bound;
      short = g.short;
      tested = r.1;
      called =
          All-append (λ (p : Job × ℕ). p.1 < p.0.deadline) l.started ((job, tested) ∷ []) g.called
            (r.0, tt);
      known = g.known;
      drained = g.drained;
    }

settle-Good :
    (n future : ℕ) (raised : Bool) (l : Lane)
    → Good n l
    → Good n (record l { futures = Dict.put l.futures future (settled raised) })
settle-Good n future raised l g = record {
  bound = g.bound;
  short = g.short;
  tested = g.tested;
  called = g.called;
  known = λ f h. ground (arith, g.known f, waits-put l.futures future (settled raised) f, h);
  drained = g.drained;
}

cancel-Good :
    (n future : ℕ) (l : Lane) → Good n l → Good n (record l { futures = cancel future l.futures })
cancel-Good n future l g = record {
  bound = g.bound;
  short = g.short;
  tested = g.tested;
  called = g.called;
  known = λ f h. g.known f (waits-cancel l.futures future f h).0;
  drained = g.drained;
}

close-Good : (n : ℕ) (l : Lane) → Good n l → Good n (close l)
unfolding close
close-Good n l g = record {
  bound = g.bound;
  short = omega arith;
  tested = g.tested;
  called = g.called;
  known =
      λ f h. let w = waits-cancel_all l.queue l.futures f h in ground (arith, g.known f w.0, w.1);
  drained = λ h. refl;
}

Step-Good : (n : ℕ) {l m : Lane} → Step l m → Good n l → Good n m
unfolding begin
Step-Good n (submits future now timeout l fresh) g = submit-Good n future now timeout l g
Step-Good n (takes job rest l e) g = take-Good n job rest l g e
Step-Good n (checks before job behind l e) g = check-Good n before job behind l g e
Step-Good n (begins before job behind now l e) g = begun-Good n before job behind now l g e _ refl
Step-Good n (calls before job tested behind l e) g = call-Good n before job tested behind l g e
Step-Good n (settles future raised l called e) g = settle-Good n future raised l g
Step-Good n (cancels future l) g = cancel-Good n future l g
Step-Good n (closes l) g = close-Good n l g

pub Steps-Good : (n : ℕ) {l m : Lane} → Steps l m → Good n l → Good n m
Steps-Good n done g = g
Steps-Good n (one_more p step) g = Step-Good n step (Steps-Good n p g)

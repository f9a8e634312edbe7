-- ===== src/Linear/Acceptance/Passing.antt =====
-- When every outcome of a required check is a success: what that says of the jobs under its name.
use mathlib.Core.Path.{subst}
use hermes_fleet.Prelude.{
  ◌≡◌, ◌≢◌, refl, sym, ap, ◌∙◌, inl, inr, Bool, true, false, ◌&&◌, ◌||◌, none, some, List, [], ◌∷◌,
  ◌++◌, if◌then◌else◌, if_cases, arith, All, Elem, list_eq, nat_eq,
}
use hermes_fleet.Prelude.Dict.{Dict}
use hermes_fleet.Prelude.Text.{Text}
use hermes_fleet.Linear.Acceptance.Reads.{returned, each, then-returned, returned_inj}
use hermes_fleet.Linear.Acceptance.Runs.{
  Class, success, failure, infra, pending, missing, stale, classify,
}
use hermes_fleet.Linear.Acceptance.Collect.{Required, Found, Evidence, named}
use hermes_fleet.Linear.Acceptance.Judge.{
  Judged, judge, counts, is_success, counted, refusing, is_none, Verdict, judge_check, job_classes,
  verdict_outcomes, outcomes,
}
use hermes_fleet.Linear.Acceptance.Fallback.{first_other, overall}

abbrev pub Successes : List Class → Type 0
Successes cs = All (λ (c : Class). c ≡ success) cs

-- All jobs under the check's name succeeded on the commit, and one of them counts as evidence.
pub record Passed (sha : Text) (e : Evidence) (r : Required) : Type 0 where
  pub all_succeeded : All (λ (f : Found). classify sha f.job ≡ returned success) (named r.0 e.found)
  pub evidence : Found
  pub is_named : Elem evidence (named r.0 e.found)
  pub is_counted : counts e.on_base evidence ≡ true

-- A job that counts is kept by the one list, and one that neither counts nor succeeded by the other.
split_classes :
    (c : Bool) (j : Judged) (xs ys : List Judged)
    → Successes (job_classes (if c then j ∷ xs else xs))
    → Successes (job_classes (if c || is_success j.1 then ys else j ∷ ys))
    → (j.1 ≡ success) × Successes (job_classes xs) × Successes (job_classes ys)
split_classes true j xs ys h k = (h.0, h.1, k)
split_classes false (f, success) xs ys h k = (refl, h, k)
split_classes false (f, failure) xs ys h k = (k.0, h, k.1)
split_classes false (f, infra) xs ys h k = (k.0, h, k.1)
split_classes false (f, pending) xs ys h k = (k.0, h, k.1)
split_classes false (f, missing) xs ys h k = (k.0, h, k.1)
split_classes false (f, stale) xs ys h k = (k.0, h, k.1)

module _ (b : Dict Text Bool) where
  none_refuse :
      (js : List Judged) → Successes (job_classes (refusing b js)) → is_none (refusing b js) ≡ true
  none_refuse [] = λ h. refl
  none_refuse (j ∷ js) =
      if_cases (λ l. Successes (job_classes l) → is_none l ≡ true) (counts b j.0 || is_success j.1)
        _ _ (λ t. none_refuse js) (λ t h. ground (arith, h.0))

  all_success :
      (js : List Judged)
      → Successes (job_classes (counted b js))
      → Successes (job_classes (refusing b js))
      → Successes (job_classes js)
  all_success [] h k = tt
  all_success (j ∷ js) h k =
      let (one, hs, ks) = split_classes (counts b j.0) j (counted b js) (refusing b js) h k in
      (one, all_success js hs ks)

  one_counted :
      (js : List Judged)
      → is_none (counted b js) ≡ false
      → (j : Judged) × Elem j js × (counts b j.0 ≡ true)
  one_counted [] = λ h. cc
  one_counted (j ∷ js) =
      if_cases (λ l. is_none l ≡ false → (i : Judged) × Elem i (j ∷ js) × (counts b i.0 ≡ true))
        (counts b j.0) _ _ (λ t h. (j, inl refl, t))
        (λ t h. let (i, e, c) = one_counted js h in (i, inr e, c))

-- An unmet check has an outcome that is no success.
only_jobs :
    (t w : Bool) (cs : List Class)
    → Successes (elim (if t then some (if w then pending else missing) else none) [
      | some c ↦ c ∷ []
      | none ↦ cs
    ])
    → (t ≡ false) × Successes cs
only_jobs false w cs h = (refl, h)
only_jobs true true cs h = cc
only_jobs true false cs h = cc

All-split : (xs ys : List Class) → Successes (xs ++ ys) → Successes xs × Successes ys
All-split [] ys h = (tt, h)
All-split (x ∷ xs) ys h = let (a, b) = All-split xs ys h.1 in ((h.0, a), b)

Successes-append :
    (xs ys : List Judged)
    → Successes (job_classes (xs ++ ys))
    → Successes (job_classes xs) × Successes (job_classes ys)
Successes-append [] ys h = (tt, h)
Successes-append (x ∷ xs) ys h = let (a, b) = Successes-append xs ys h.1 in ((h.0, a), b)

module _ (sha : Text) where
  judged_passed :
      (fs : List Found) (js : List Judged)
      → each (judge sha) fs ≡ returned js
      → Successes (job_classes js)
      → All (λ (f : Found). classify sha f.job ≡ returned success) fs
  judged_passed [] js h k = tt
  judged_passed (f ∷ fs) js h k =
      let (j, one, h₁) = then-returned (judge sha f) _ js h in
      let (others, more, last) = then-returned (each (judge sha) fs) _ js h₁ in
      let (c, classified, made) = then-returned (classify sha f.job) _ j one in
      let same : js ≡ (f, c) ∷ others = cc in
      let k' = subst (λ l. Successes (job_classes l)) same k in
      (classified ∙ ap returned k'.0, judged_passed fs others more k'.1)

  judged_Elem :
      (fs : List Found) (js : List Judged) (j : Judged)
      → each (judge sha) fs ≡ returned js
      → Elem j js
      → Elem j.0 fs
  judged_Elem [] js j h e = let same : js ≡ [] = cc in absurd (subst (Elem j) same e)
  judged_Elem (f ∷ fs) js j h e =
      let (i, one, h₁) = then-returned (judge sha f) _ js h in
      let (others, more, last) = then-returned (each (judge sha) fs) _ js h₁ in
      let (c, classified, made) = then-returned (classify sha f.job) _ i one in
      let same : js ≡ (f, c) ∷ others = cc in
      elim (subst (Elem j) same e) [
        | inl first ↦ inl (ap (λ (p : Judged). p.0) first)
        | inr rest ↦ inr (judged_Elem fs others j more rest)
      ]

  -- Where a required check has nothing but successes among its outcomes, it passed.
  judge_check-Passed :
      (e : Evidence) (r : Required) (v : Verdict)
      → judge_check sha e r ≡ returned v
      → Successes (verdict_outcomes v)
      → Passed sha e r
  unfolding judge_check
  judge_check-Passed e r v h k =
      let (jobs, judged, made) = then-returned (each (judge sha) (named r.0 e.found)) _ v h in
      let b = e.on_base in
      let k' = subst (λ v. Successes (verdict_outcomes v)) (sym (returned_inj _ v made)) k in
      let (met, classes) =
        only_jobs (is_none (counted b jobs) && is_none (refusing b jobs)) _
          (job_classes (counted b jobs ++ refusing b jobs)) k' in
      let (used, against) = Successes-append (counted b jobs) (refusing b jobs) classes in
      let (j, among, counts) =
        one_counted b jobs (ground (arith, met, none_refuse b jobs against)) in
      record {
        all_succeeded =
            judged_passed (named r.0 e.found) jobs judged (all_success b jobs used against);
        evidence = j.0;
        is_named = judged_Elem (named r.0 e.found) jobs j judged among;
        is_counted = counts;
      }

  -- The same for every check, where there is nothing but successes among all outcomes.
  pub all-Passed :
      (e : Evidence) (rs : List Required) (vs : List Verdict)
      → each (judge_check sha e) rs ≡ returned vs
      → Successes (outcomes vs)
      → All (Passed sha e) rs
  all-Passed e [] vs h k = tt
  all-Passed e (r ∷ rs) vs h k =
      let (v, one, h₁) = then-returned (judge_check sha e r) _ vs h in
      let (others, more, last) = then-returned (each (judge_check sha e) rs) _ vs h₁ in
      let k' = subst (λ l. Successes (outcomes l)) (sym (returned_inj (v ∷ others) vs last)) k in
      let (mine, theirs) = All-split (verdict_outcomes v) (outcomes others) k' in
      (judge_check-Passed e r v one mine, all-Passed e rs others more theirs)

-- No other outcome is first: all are successes.
pub first_other_lem : (cs : List Class) → first_other cs ≡ success → Successes cs
first_other_lem [] h = tt
first_other_lem (success ∷ cs) h = (refl, first_other_lem cs h)
first_other_lem (failure ∷ cs) h = cc
first_other_lem (infra ∷ cs) h = cc
first_other_lem (pending ∷ cs) h = cc
first_other_lem (missing ∷ cs) h = cc
first_other_lem (stale ∷ cs) h = cc

pub is_success→≡ : (c : Class) → is_success c ≡ true → c ≡ success
is_success→≡ success h = refl
is_success→≡ failure h = cc
is_success→≡ infra h = cc
is_success→≡ pending h = cc
is_success→≡ missing h = cc
is_success→≡ stale h = cc

pub overall_lem : (cs : List Class) → is_success (overall cs) ≡ true → Successes cs × (cs ≢ [])
overall_lem [] h = cc
overall_lem (c ∷ cs) h =
    (first_other_lem (c ∷ cs) (is_success→≡ (first_other (c ∷ cs)) h), (λ e. cc))

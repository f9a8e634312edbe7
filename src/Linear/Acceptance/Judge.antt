-- ===== src/Linear/Acceptance/Judge.antt =====
-- How `actions_fallback` of acceptance.py judges the jobs that it read under each required check.
use hermes_fleet.Prelude.{
  Bool, true, false, ◌&&◌, ◌||◌, not, Option, none, some, List, [], ◌∷◌, ◌++◌, map, if◌then◌else◌,
  list_eq, nat_eq,
}
use hermes_fleet.Prelude.Dict.{Dict, get}
use hermes_fleet.Prelude.Text.{Text}
use hermes_fleet.Prelude.Json.{Fields}
use hermes_fleet.Linear.Acceptance.Reads.{Result, returned, raised, ◌>>-◌, each}
use hermes_fleet.Linear.Acceptance.Runs.{concat, Class, success, pending, missing, classify}
use hermes_fleet.Linear.Acceptance.Collect.{Required, Found, Evidence, named, run_path}

-- A job beside its class; each is classified once, and no exception can come between.
abbrev pub Judged : Type 0
Judged = Found × Class

abbrev pub judge : Text → Found → Result Judged
judge sha f = classify sha f.job >>- λ c. returned (f, c)

-- `on_base[path]`: the paths of all trusted jobs are keys.
abbrev pub is_there : Option Bool → Bool
is_there none = false
is_there (some b) = b

abbrev pub path_there : Dict Text Bool → Result Text → Bool
path_there on_base (raised e) = false
path_there on_base (returned path) = is_there (get on_base path)

abbrev pub path_on_base : Dict Text Bool → Fields → Bool
path_on_base on_base run = path_there on_base (run_path run)

abbrev pub counts : Dict Text Bool → Found → Bool
counts on_base f = f.trusted && path_on_base on_base f.run

abbrev pub is_success : Class → Bool
is_success success = true
is_success _ = false

abbrev pub counted : Dict Text Bool → List Judged → List Judged
counted on_base [] = []
counted on_base (j ∷ js) =
    let rest = counted on_base js in if counts on_base j.0 then j ∷ rest else rest

-- Not evidence of success, but a refusal where it failed or has not finished.
abbrev pub refusing : Dict Text Bool → List Judged → List Judged
refusing on_base [] = []
refusing on_base (j ∷ js) =
    let rest = refusing on_base js in
    if counts on_base j.0 || is_success j.1 then rest else j ∷ rest

abbrev pub is_none : {A : Type 0} → List A → Bool
is_none [] = true
is_none (x ∷ xs) = false

abbrev pub any_trusted : List Judged → Bool
any_trusted [] = false
any_trusted (j ∷ js) = j.0.trusted || any_trusted js

-- What one required check gives: its outcomes with what each is of, and whether it ran only as untrusted.
pub record Verdict : Type 0 where
  pub context : Text
  pub jobs : List Judged
  pub unmet : Option Class
  pub untrusted_only : Bool

unfoldable pub judge_check : Text → Evidence → Required → Result Verdict
judge_check sha e (context, app) = each (judge sha) (named context e.found) >>- λ jobs.
    let used = counted e.on_base jobs in
    let against = refusing e.on_base jobs in
    let untrusted =
      not (is_none jobs)
      && is_none used
      && is_none against
      && (any_trusted jobs || not e.waiting) in
    returned (record {
      context = context;
      jobs = used ++ against;
      unmet =
          if is_none used && is_none against
          then some (if e.waiting && not untrusted then pending else missing)
          else none;
      untrusted_only = untrusted;
    })

abbrev pub job_classes : List Judged → List Class
job_classes js = map (λ (j : Judged). j.1) js

abbrev pub verdict_outcomes : Verdict → List Class
verdict_outcomes v = elim v.unmet [ some c ↦ c ∷ [] | none ↦ job_classes v.jobs ]

abbrev pub outcomes : List Verdict → List Class
outcomes vs = concat (map verdict_outcomes vs)

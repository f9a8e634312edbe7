-- ===== src/Linear/Acceptance/Collect.antt =====
-- What `actions_fallback` of acceptance.py reads: the required checks, and the jobs of the Actions runs.
-- `found` is a list of the jobs in the order read; a look-up of a name keeps those of that name.
use hermes_fleet.Prelude.{
  ℕ, suc, Bool, true, false, ◌&&◌, ◌||◌, not, none, some, List, [], ◌∷◌, ◌++◌, map, if◌then◌else◌,
  leb, list_eq, nat_eq, ◌==◌, contains,
}
use hermes_fleet.Prelude.Dict.{Dict}
use hermes_fleet.Prelude.Text.{Text, codes}
use hermes_fleet.Prelude.Json.{
  Json, null, number, string, object, Fields, get_field, truthy, as_int, json_beq,
}
use hermes_fleet.Linear.Acceptance.Reads.{
  denied, malformed, unexpected, Result, returned, raised, World, Act, pure, lift, read, ◌>>=◌,
  ◌>>-◌, each, each_act, at_key, iterate, fields_of, hashable, to_int,
}
use hermes_fleet.Linear.Acceptance.Receipt.{is_text, str}
use hermes_fleet.Linear.Acceptance.Runs.{concat, rows, trusted_run}

abbrev pub actions_app_id : ℕ
actions_app_id = 15368

-- A required check: its context and the app that it is pinned to.
abbrev pub Required : Type 0
Required = Text × Json

abbrev pub required_row : World → Json → Result Required
required_row w row = fields_of row >>- λ fs. at_key (codes "context") row >>- λ context.
    hashable (get_field (codes "app_id") fs) >>- λ app. returned (str w context, app)

abbrev pub same_required : Required → Required → Bool
same_required (s, a) (t, b) = s == t && json_beq a b

abbrev pub member_by : {A : Type 0} → (A → A → Bool) → A → List A → Bool
member_by same x [] = false
member_by same x (y ∷ ys) = same x y || member_by same x ys

-- `{*xs}`
abbrev pub set_by : {A : Type 0} → (A → A → Bool) → List A → List A
set_by same [] = []
set_by same (x ∷ xs) = let rest = set_by same xs in if member_by same x rest then rest else x ∷ rest

abbrev pub text_leb : Text → Text → Bool
text_leb [] t = true
text_leb (c ∷ s) [] = false
text_leb (c ∷ s) (d ∷ t) = leb c d && (not (leb d c) || text_leb s t)

abbrev pub insert_by : {A : Type 0} → (A → Text) → A → List A → List A
insert_by key x [] = x ∷ []
insert_by key x (y ∷ ys) =
    let rest = insert_by key x ys in if text_leb (key x) (key y) then x ∷ y ∷ ys else y ∷ rest

-- `sorted(xs, key=key)`
abbrev pub sorted_by : {A : Type 0} → (A → Text) → List A → List A
sorted_by key [] = []
sorted_by key (x ∷ xs) = insert_by key x (sorted_by key xs)

unfoldable pub required_checks : World → Json → Result (List Required)
required_checks w listed = iterate listed >>- λ entries. each (required_row w) entries >>- λ pairs.
    returned (sorted_by w.pair_text (set_by same_required pairs))

-- A job that was read: its name, the run it is of, and whether the run is trusted evidence.
pub record Found : Type 0 where
  pub name : Json
  pub run : Fields
  pub job : Fields
  pub trusted : Bool

-- What the reads of runs and jobs leave.
pub record Evidence : Type 0 where
  pub found : List Found
  -- does the workflow file stand on the base branch?
  pub on_base : Dict Text Bool
  -- the pull request is open, and a trusted run has not finished, or there is none
  pub waiting : Bool

abbrev pub runs_endpoint : Text → Text → Text
runs_endpoint repo sha =
    codes "repos/" ++ (repo ++ (codes "/actions/runs?head_sha=" ++ (sha ++ codes "&per_page=100")))

abbrev pub jobs_endpoint : World → Text → ℕ → Text
jobs_endpoint w repo run =
    codes "repos/"
    ++ (repo
        ++ (codes "/actions/runs/"
            ++ (w.text_of (number run) ++ codes "/jobs?filter=latest&per_page=100")))

abbrev pub contents_endpoint : World → Text → Text → Text → Text
contents_endpoint w repo path branch =
    codes "repos/"
    ++ (repo
        ++ (codes "/contents/"
            ++ (w.quote path (codes "/") ++ (codes "?ref=" ++ w.quote branch []))))

abbrev pub on_head : Text → List Fields → List Fields
on_head sha [] = []
on_head sha (run ∷ runs) =
    let rest = on_head sha runs in
    if is_text sha (get_field (codes "head_sha") run) then run ∷ rest else rest

abbrev pub run_id : World → Fields → Result ℕ
run_id w run = at_key (codes "id") (object run) >>- to_int w

-- The ids of the runs that are trusted evidence
abbrev pub trusted_ids : World → Text → Text → List Fields → Result (List ℕ)
trusted_ids w repo sha [] = returned []
trusted_ids w repo sha (run ∷ runs) =
    let rest = trusted_ids w repo sha runs in
    trusted_run run repo sha >>- λ t.
    if t then (run_id w run >>- λ i. rest >>- λ is. returned (i ∷ is)) else rest

abbrev pub unfinished : Fields → Bool
unfinished run =
    let status = get_field (codes "status") run in
    not (json_beq status null || is_text (codes "completed") status)

-- `any(... for run in on_head if int(run["id"]) in trusted)`, which stops at the first
abbrev pub any_unfinished : World → List ℕ → List Fields → Result Bool
any_unfinished w trusted [] = returned false
any_unfinished w trusted (run ∷ runs) =
    let rest = any_unfinished w trusted runs in
    run_id w run >>- λ i. if contains i trusted && unfinished run then returned true else rest

abbrev pub is_running : World → List ℕ → List Fields → Result Bool
is_running w [] runs = returned true
is_running w (i ∷ is) runs = any_unfinished w (i ∷ is) runs

-- An earlier attempt of a run that was run again is history.
abbrev pub earlier_attempt : Fields → Fields → Bool
earlier_attempt run job =
    let attempt = get_field (codes "run_attempt") run in
    elim (as_int attempt) [
      | none ↦ false
      | some n ↦ not (json_beq (get_field (codes "run_attempt") job) attempt)
    ]

abbrev pub found_jobs : Fields → Bool → List Fields → Result (List Found)
found_jobs run trusted [] = returned []
found_jobs run trusted (job ∷ jobs) =
    let rest = found_jobs run trusted jobs in
    if earlier_attempt run job
    then rest
    else hashable (get_field (codes "name") job) >>- λ name. rest >>- λ others.
        returned (record { name = name; run = run; job = job; trusted = trusted } ∷ others)

abbrev pub jobs_of_run : World → Text → List ℕ → Fields → Act (List Found)
jobs_of_run w repo trusted run = do
  i ← lift (run_id w run)
  pages ← read w (jobs_endpoint w repo i) true
  jobs ← lift (rows pages (codes "jobs"))
  lift (found_jobs run (contains i trusted) jobs)

-- `found.get(context, [])`
abbrev pub named : Text → List Found → List Found
named context [] = []
named context (f ∷ fs) =
    let rest = named context fs in if is_text context f.name then f ∷ rest else rest

abbrev pub run_path : Fields → Result Text
run_path run = at_key (codes "path") (object run) >>- λ path. elim path [
  | string s ↦ returned s
  | _ ↦ raised malformed
]

abbrev pub trusted_runs : List Found → List Fields
trusted_runs [] = []
trusted_runs (f ∷ fs) = let rest = trusted_runs fs in if f.trusted then f.run ∷ rest else rest

abbrev pub evidence_paths : List Required → List Found → Result (List Text)
evidence_paths required found =
    each run_path (concat (map (λ (r : Required). trusted_runs (named r.0 found)) required))
    >>- λ paths. returned (sorted_by (λ p. p) (set_by (λ p q. p == q) paths))

abbrev pub is_file : Text → Json → Bool
is_file path (object fs) =
    is_text (codes "file") (get_field (codes "type") fs)
    && is_text path (get_field (codes "path") fs)
is_file path _ = false

-- A 404 is the answer that the file is not there.
abbrev pub file_reply : Text → Result Json → Result Bool
file_reply path (returned body) = returned (is_file path body)
file_reply path (raised (denied (some status))) =
    if status == codes "404" then returned false else raised (denied (some status))
file_reply path (raised e) = raised e

abbrev pub text_branch : Json → Result Text
text_branch (string s) = returned s
text_branch _ = raised malformed

abbrev pub workflow_on_base : World → Text → Json → Text → Act (Text × Bool)
workflow_on_base w repo branch path = do
  ref ← lift (text_branch branch)
  there ← λ n. (file_reply path (w.gh n (contents_endpoint w repo path ref) false), suc n)
  pure (path, there)

-- `(pr["head"].get("repo") or {}).get("full_name")`
abbrev pub head_repo : Json → Result Json
head_repo repo =
    if truthy repo
    then elim repo [
      | object fs ↦ returned (get_field (codes "full_name") fs)
      | _ ↦ raised unexpected
    ]
    else returned null

abbrev pub head_full_name : Fields → Result Json
head_full_name pr = at_key (codes "head") (object pr) >>- λ head.
    fields_of head >>- λ fs. head_repo (get_field (codes "repo") fs)

abbrev pub base_and_open : Fields → Result (Json × Bool)
base_and_open pr = at_key (codes "base") (object pr) >>- λ base.
    at_key (codes "ref") base >>- λ ref.
    at_key (codes "state") (object pr) >>- λ state. returned (ref, is_text (codes "open") state)

-- The reads between the two of the pull request.
unfoldable pub collect : World → Text → Text → Json → Bool → List Required → Act Evidence
collect w repo sha branch still_open required = do
  pages ← read w (runs_endpoint repo sha) true
  runs ← lift (rows pages (codes "workflow_runs"))
  trusted ← lift (trusted_ids w repo sha (on_head sha runs))
  running ← lift (is_running w trusted (on_head sha runs))
  found ← each_act (jobs_of_run w repo trusted) (on_head sha runs)
  paths ← lift (evidence_paths required (concat found))
  on_base ← each_act (workflow_on_base w repo branch) paths
  pure (record { found = concat found; on_base = on_base; waiting = still_open && running })

-- ===== src/Linear/Acceptance/Examples.antt =====
-- A pull request whose one required check ran once in Actions, and what the functions do with it.
use hermes_fleet.Prelude.{
  ◌+◌, refl, inl, true, false, none, some, List, [], ◌∷◌, ◌++◌, if◌then◌else◌, nat_eq, list_eq,
  ◌==◌,
}
use hermes_fleet.Prelude.Dict
use hermes_fleet.Prelude.Text.{Text, codes, lower, upper_code}
use hermes_fleet.Prelude.Json.{
  Json, null, boolean, number, string, array, object, Fields, set_field, remove_field,
}
use hermes_fleet.Linear.Acceptance.Reads.{denied, Result, returned, raised, World}
use hermes_fleet.Linear.Acceptance.Receipt.{
  pr_match, is_sha, checks_denied, checks_read_denied, pulls,
}
use hermes_fleet.Linear.Acceptance.Runs.{
  rows, trusted_run, trusted_workflow_path, classify, current_pr,
}
use hermes_fleet.Linear.Acceptance.Collect.{
  Required, required_checks, Evidence, Found, collect, runs_endpoint,
}
use hermes_fleet.Linear.Acceptance.Judge.{judge_check}
use hermes_fleet.Linear.Acceptance.Fallback.{fields, items_of, prove, actions_fallback, settle}
use hermes_fleet.Linear.Acceptance.Settled.{Rests, settle-Proved}
use hermes_fleet.Linear.Acceptance.Sources.{Counted, collect-Counted}

abbrev commit : Text
commit = codes "00112233445566778899aabbccddeeff00112233"

abbrev repo : Text
repo = codes "o/r"

abbrev address : Text
address = codes "https://github.com/o/r/pull/7"

abbrev obj : List (Text × Json) → Json
obj fs = object (fields fs)

abbrev str_field : Text → Text → Text × Json
str_field k s = (k, string s)

abbrev pull_request : Json
pull_request = obj (
    str_field (codes "state") (codes "open")
    ∷ (
      codes "head",
      obj (
          str_field (codes "sha") commit
          ∷ (codes "repo", obj (str_field (codes "full_name") repo ∷ []))
          ∷ []),
    )
    ∷ (codes "base", obj (str_field (codes "ref") (codes "main") ∷ []))
    ∷ [])

abbrev path : Text
path = codes ".github/workflows/ci.yml"

abbrev run : List (Text × Json)
run =
    (codes "id", number 5)
    ∷ str_field (codes "head_sha") commit
    ∷ str_field (codes "event") (codes "push")
    ∷ str_field (codes "path") path
    ∷ (codes "head_repository", obj (str_field (codes "full_name") repo ∷ []))
    ∷ (codes "run_attempt", number 1)
    ∷ str_field (codes "status") (codes "completed")
    ∷ []

abbrev job : List (Text × Json)
job =
    (codes "id", number 9)
    ∷ str_field (codes "name") (codes "test")
    ∷ str_field (codes "head_sha") commit
    ∷ str_field (codes "status") (codes "completed")
    ∷ str_field (codes "conclusion") (codes "success")
    ∷ (codes "run_attempt", number 1)
    ∷ []

abbrev pages : Text → Json → Json
pages key row = array (
    items_of (obj ((codes "total_count", number 1) ∷ (key, array (items_of (row ∷ []))) ∷ []) ∷ []))

abbrev workflow : Json
workflow = obj (str_field (codes "type") (codes "file") ∷ str_field (codes "path") path ∷ [])

-- GitHub, by the endpoint; what it does not know is a 404.
abbrev answers : Text → Result Json
answers endpoint =
    if endpoint == pulls repo (codes "7")
    then returned pull_request
    else (if endpoint == runs_endpoint repo commit
        then returned (pages (codes "workflow_runs") (obj run))
        else (if endpoint == codes "repos/o/r/actions/runs/5/jobs?filter=latest&per_page=100"
            then returned (pages (codes "jobs") (obj job))
            else (if endpoint == (codes "repos/o/r/contents/" ++ (path ++ codes "?ref=main"))
                then returned workflow
                else raised (denied (some (codes "404"))))))

abbrev number_text : Json → Text
number_text (number n) = (b'0' + n) ∷ []
number_text _ = []

abbrev github : World
github = record {
  gh = λ n endpoint paginate. answers endpoint;
  text_of = number_text;
  pair_text = λ p. p.0;
  error_text = λ e. [];
  int_of = λ s. none;
  quote = λ s safe. s;
}

abbrev receipt : Fields
receipt = fields (
    (codes "ok", boolean false)
    ∷ str_field (codes "classification") (codes "auth")
    ∷ str_field (codes "detail")
        (codes "(HTTP 403) on repos/o/r/commits/" ++ (commit ++ codes "/check-runs)"))
    ∷ str_field (codes "head_sha") commit
    ∷ (
      codes "required",
      array (
          items_of (
            obj (str_field (codes "context") (codes "test") ∷ (codes "app_id", number 15368) ∷ [])
            ∷ [])),
    )
    ∷ [])

abbrev json_of : Result Json → Json
json_of (returned j) = j
json_of (raised e) = null

abbrev settled : Json
settled = json_of (settle github (object receipt) address 0).0

settle-Proved_example : Rests github (object receipt) address 5
unfolding settle actions_fallback prove collect checks_read_denied checks_denied pr_match is_sha
    required_checks rows trusted_run trusted_workflow_path classify current_pr judge_check set_field
    remove_field Dict.get lower upper_code
settle-Proved_example = settle-Proved github (object receipt) address 0 5 settled refl refl

abbrev required : List Required
required = (codes "test", number 15368) ∷ []

abbrev found : Found
found = record { name = string (codes "test"); run = fields run; job = fields job; trusted = true }

abbrev evidence : Evidence
evidence = record { found = found ∷ []; on_base = (path, true) ∷ []; waiting = false }

collect-Counted_example : Counted github repo commit (string (codes "main")) found
unfolding collect rows trusted_run trusted_workflow_path Dict.get
collect-Counted_example =
    collect-Counted github repo commit (string (codes "main")) true required 1 4 evidence found refl
      (inl refl) refl

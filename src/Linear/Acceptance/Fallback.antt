-- ===== src/Linear/Acceptance/Fallback.antt =====
-- `actions_fallback` and `settle` of acceptance.py: the required checks, proved from GitHub Actions jobs.
use hermes_fleet.Prelude.{
  Bool, true, false, ◌&&◌, not, Option, none, some, List, [], ◌∷◌, ◌++◌, map, if◌then◌else◌, take,
  all_true, list_eq, nat_eq,
}
use hermes_fleet.Prelude.Text.{Text, codes}
use hermes_fleet.Prelude.Json.{
  Json, null, boolean, number, string, array, object, Items, no_items, item, Fields, field,
  no_fields, get_field, set_field, remove_field, json_beq,
}
use hermes_fleet.Linear.Acceptance.Reads.{
  denied, unavailable, malformed, out_of_range, unexpected, Result, returned, raised, World, Act,
  pure, lift, ◌>>=◌, each,
}
use hermes_fleet.Linear.Acceptance.Receipt.{
  is_text, with_detail, is_sha, pr_match, checks_read_denied, unverified, closed_check,
}
use hermes_fleet.Linear.Acceptance.Runs.{
  concat, Class, success, failure, infra, pending, missing, stale, Refusal, closed, moved,
  current_pr,
}
use hermes_fleet.Linear.Acceptance.Collect.{
  actions_app_id, Required, required_checks, collect, head_full_name, base_and_open,
}
use hermes_fleet.Linear.Acceptance.Judge.{
  Judged, Verdict, judge_check, is_success, is_none, outcomes,
}

abbrev pub class_text : Class → Text
class_text success = codes "success"
class_text failure = codes "failure"
class_text infra = codes "infra"
class_text pending = codes "pending"
class_text missing = codes "missing"
class_text stale = codes "stale"

abbrev pub refusal_text : Refusal → Text
refusal_text closed = codes "closed"
refusal_text moved = codes "pending"

abbrev pub items_of : List Json → Items
items_of [] = no_items
items_of (j ∷ js) = item j (items_of js)

-- An entry of "checks"
abbrev pub fields : List (Text × Json) → Fields
fields [] = no_fields
fields ((k, j) ∷ rest) = field k j (fields rest)

abbrev pub unmet_entry : Text → Text → Class → Json
unmet_entry sha context c = object (
    fields (
      (codes "name", string context)
      ∷ (codes "classification", string (class_text c))
      ∷ (codes "head_sha", string sha)
      ∷ (codes "evidence_source", string (codes "actions"))
      ∷ []))

abbrev pub job_entry : Text → Judged → Json
job_entry context (f, c) = object (
    fields (
      (codes "name", string context)
      ∷ (codes "id", get_field (codes "id") f.job)
      ∷ (codes "url", get_field (codes "html_url") f.job)
      ∷ (codes "head_sha", get_field (codes "head_sha") f.job)
      ∷ (codes "classification", string (class_text c))
      ∷ (codes "conclusion", get_field (codes "conclusion") f.job)
      ∷ (codes "evidence_source", string (codes "actions"))
      ∷ (codes "workflow", get_field (codes "path") f.run)
      ∷ (codes "run_attempt", get_field (codes "run_attempt") f.run)
      ∷ []))

abbrev pub entries : Text → Verdict → List Json
entries sha v = elim v.unmet [
  | some c ↦ unmet_entry sha v.context c ∷ []
  | none ↦ map (job_entry v.context) v.jobs
]

abbrev pub checks_of : Text → List Verdict → Json
checks_of sha vs = array (items_of (concat (map (entries sha) vs)))

abbrev pub started : Fields → Fields
started receipt =
    set_field (codes "evidence_source") (string (codes "actions"))
      (set_field (codes "checks") (array no_items) (set_field (codes "ok") (boolean false) receipt))

-- `result(classification, detail, checks)`
abbrev pub result : Fields → Json → Text → Text → Fields
result out checks classification detail = with_detail detail (
    set_field (codes "classification") (string classification)
      (set_field (codes "checks") checks out))

abbrev pub no_checks : Json
no_checks = array no_items

-- `", ".join(names)[:200]`
abbrev pub joined : List Text → Text
joined [] = []
joined (s ∷ []) = s
joined (s ∷ t ∷ rest) = s ++ (codes ", " ++ joined (t ∷ rest))

abbrev pub foreign : List Required → List Text
foreign [] = []
foreign (r ∷ rs) =
    let others = foreign rs in if json_beq r.1 (number actions_app_id) then others else r.0 ∷ others

abbrev pub foreign_detail : List Text → Text
foreign_detail names =
    codes "the agent's GitHub access cannot read check results, and the required checks "
    ++ (take 200 (joined names)
        ++ codes " are not GitHub Actions jobs, so they cannot be confirmed another way")

abbrev pub refusal_detail : Refusal → Text
refusal_detail closed = codes "the pull request was closed without being merged"
refusal_detail moved = codes "the pull request changed while its checks were being read"

abbrev pub fork_detail : Text
fork_detail =
    codes "the pull request comes from a fork, and the agent's GitHub access can only "
    ++ codes "confirm checks from the repository's own Actions runs"

-- `x in ("success", "missing")`
abbrev pub success_or_missing : Class → Bool
success_or_missing success = true
success_or_missing missing = true
success_or_missing _ = false

abbrev pub untrusted_only : List Verdict → List Text
untrusted_only [] = []
untrusted_only (v ∷ vs) =
    let others = untrusted_only vs in if v.untrusted_only then v.context ∷ others else others

abbrev pub untrusted_detail : List Text → Text
untrusted_detail names =
    codes "the required checks "
    ++ (take 200 (joined names)
        ++ (codes
              " ran only in GitHub Actions runs that are not trusted evidence (manually started, "
            ++ codes "from another repository, or from a workflow that is not on the base branch)"))

-- The first outcome that is not a success
abbrev pub first_other : List Class → Class
first_other [] = success
first_other (c ∷ cs) = let later = first_other cs in if is_success c then later else c

abbrev pub overall : List Class → Class
overall cs = if is_none cs then missing else first_other cs

-- The last verdict: core's detail no longer describes this receipt.
abbrev pub final : Fields → Json → Class → Fields
final out checks c = remove_field (codes "detail") (
    set_field (codes "ok") (boolean (is_success c)) (
      set_field (codes "classification") (string (class_text c))
        (set_field (codes "checks") checks out)))

module _ (w : World) (out : Fields) (repo pull sha : Text) where
  abbrev pub after_reread : List Verdict → Option Refusal → Fields
  after_reread vs (some refusal) =
      result out (checks_of sha vs) (refusal_text refusal) (refusal_detail refusal)
  after_reread vs none = final out (checks_of sha vs) (overall (outcomes vs))

  -- The verdicts are there; the pull request is read again.
  abbrev pub conclude : Json → List Verdict → Act Fields
  conclude branch vs =
      if not (is_none (untrusted_only vs)) && all_true success_or_missing (outcomes vs)
      then pure (
          result out (checks_of sha vs) (codes "unprovable") (untrusted_detail (untrusted_only vs)))
      else current_pr w repo pull sha branch >>= λ again. pure (after_reread vs again.0)

  abbrev pub read_jobs : List Required → Fields → Act Fields
  read_jobs required pr = do
    (branch, still_open) ← lift (base_and_open pr)
    evidence ← collect w repo sha branch still_open required
    verdicts ← lift (each (judge_check sha evidence) required)
    conclude branch verdicts

  abbrev pub own_repository : List Required → Fields → Act Fields
  own_repository required pr = lift (head_full_name pr) >>= λ owner.
      if is_text repo owner
      then read_jobs required pr
      else pure (result out no_checks (codes "unprovable") fork_detail)

  abbrev pub if_current : List Required → Option Refusal × Fields → Act Fields
  if_current required (some refusal, pr) =
      pure (result out no_checks (refusal_text refusal) (refusal_detail refusal))
  if_current required (none, pr) = own_repository required pr

  -- The body of the `try`
  unfoldable pub prove : List Required → Act Fields
  prove required = current_pr w repo pull sha null >>= if_current required

abbrev pub bracketed : Text → Text
bracketed s = codes " (" ++ (s ++ codes ")")

-- The `except` clauses
abbrev pub fallback_reply : World → Fields → Result Fields → Result Fields
fallback_reply w out (returned fs) = returned fs
fallback_reply w out (raised (denied status)) = returned (
    result out no_checks (codes "auth") (
      codes "GitHub refused the agent's access to the pull request's Actions runs"
      ++ bracketed (w.error_text (denied status))))
fallback_reply w out (raised unavailable) = returned (
    result out no_checks (codes "infra") (
      codes "GitHub did not return the pull request's Actions runs"
      ++ bracketed (w.error_text unavailable)))
fallback_reply w out (raised malformed) = returned (
    result out no_checks (codes "infra")
      (codes "GitHub returned incomplete Actions runs" ++ bracketed (w.error_text malformed)))
fallback_reply w out (raised out_of_range) = returned (
    result out no_checks (codes "infra")
      (codes "GitHub returned incomplete Actions runs" ++ bracketed (w.error_text out_of_range)))
fallback_reply w out (raised unexpected) = raised unexpected

abbrev pub with_required : World → Fields → Text → Text → Text → Result (List Required) → Act Fields
with_required w out repo pull sha (raised e) = pure (
    result out no_checks (codes "infra")
      (codes "GitHub returned an unreadable list of required checks"))
with_required w out repo pull sha (returned required) =
    if is_none (foreign required)
    then (λ n. let (r, k) = prove w out repo pull sha required n in (fallback_reply w out r, k))
    else pure (result out no_checks (codes "unprovable") (foreign_detail (foreign required)))

abbrev pub no_head : Fields → Fields
no_head out =
    result out no_checks (codes "infra")
      (codes "GitHub returned no exact head commit for the pull request")

abbrev pub with_head : World → Fields → Text → Text → Fields → Json → Act Fields
with_head w out repo pull receipt (string sha) =
    if is_sha sha
    then with_required w out repo pull sha
        (required_checks w (get_field (codes "required") receipt))
    else pure (no_head out)
with_head w out repo pull receipt _ = pure (no_head out)

abbrev pub with_match : World → Fields → Option (Text × Text) → Act Fields
with_match w receipt none = lift (raised unexpected)
with_match w receipt (some (repo, pull)) =
    with_head w (started receipt) repo pull receipt (get_field (codes "head_sha") receipt)

-- Called for a receipt with a "head_sha" and a "required" list, and the address of a pull request.
unfoldable pub actions_fallback : World → Fields → Text → Act Fields
unfolding prove pr_match is_sha
actions_fallback w receipt url = with_match w receipt (pr_match url)

unfoldable pub settle : World → Json → Text → Act Json
settle w (object fs) url =
    if checks_read_denied w (object fs) url
    then (actions_fallback w fs url >>= λ out. pure (object out))
    else (if unverified (object fs) then closed_check w fs url else pure (object fs))
settle w receipt url = pure receipt

-- ===== src/Linear/Acceptance/Accepted.antt =====
-- What an accepted receipt rests on, from `prove` up to `settle`.
use mathlib.Core.Path.{subst}
use hermes_fleet.Prelude.{
  ℕ, ◌≡◌, ◌≢◌, sym, ap, ◌∙◌, Bool, true, false, ◌&&◌, not, Option, none, some, List, [], if_cases,
  All, list_eq, nat_eq, all_true,
}
use hermes_fleet.Prelude.Text.{Text, codes}
use hermes_fleet.Prelude.Json.{
  Json, null, boolean, string, object, Fields, get_field, is_true, get_field-set_field,
  get_field-remove_field,
}
use hermes_fleet.Linear.Acceptance.Reads.{
  denied, unavailable, malformed, out_of_range, unexpected, Result, returned, raised, World, Act,
  each, bind-returned, run-returned, returned_inj,
}
use hermes_fleet.Linear.Acceptance.Receipt.{is_text}
use hermes_fleet.Linear.Acceptance.Runs.{Refusal, current_pr, Class}
use hermes_fleet.Linear.Acceptance.Collect.{
  Required, Evidence, collect, base_and_open, head_full_name,
}
use hermes_fleet.Linear.Acceptance.Judge.{Verdict, judge_check, is_success, outcomes, is_none}
use hermes_fleet.Linear.Acceptance.Fallback.{
  started, result, final, overall, checks_of, conclude, read_jobs, own_repository, if_current,
  prove, fallback_reply, untrusted_only, success_or_missing, after_reread,
}
use hermes_fleet.Linear.Acceptance.Passing.{Passed, all-Passed, overall_lem}

-- `receipt.get("ok") is True`
abbrev pub accepted : Json → Bool
accepted (object fs) = is_true (get_field (codes "ok") fs)
accepted _ = false

-- One proof of the required checks of a pull request, between two reads of it.
pub record Proof (w : World) (repo pull sha : Text) (required : List Required) (k : ℕ)
    : Type 0 where
  pub branch : Json
  pub still_open : Bool
  pub start : ℕ
  pub evidence : Evidence
  pub last : ℕ
  pub collected : collect w repo sha branch still_open required start ≡ (returned evidence, last)
  pub some_check : required ≢ []
  pub passed : All (Passed sha evidence) required
  pub pr : Fields
  pub reread : current_pr w repo pull sha branch last ≡ (returned (none, pr), k)

result-ok :
    (out : Fields) (checks : Json) (c detail : Text)
    → get_field (codes "ok") (result out checks c detail) ≡ get_field (codes "ok") out
result-ok out checks c detail =
    get_field-set_field (codes "detail") (codes "ok") (string detail) _
    ∙ get_field-set_field (codes "classification") (codes "ok") (string c) _
    ∙ get_field-set_field (codes "checks") (codes "ok") checks out

final-ok :
    (out : Fields) (checks : Json) (c : Class)
    → get_field (codes "ok") (final out checks c) ≡ boolean (is_success c)
final-ok out checks c =
    get_field-remove_field (codes "detail") (codes "ok") _
    ∙ get_field-set_field (codes "ok") (codes "ok") (boolean (is_success c)) _

pub started-ok : (fs : Fields) → get_field (codes "ok") (started fs) ≡ boolean false
started-ok fs =
    get_field-set_field (codes "evidence_source") (codes "ok") _ _
    ∙ get_field-set_field (codes "checks") (codes "ok") _ _
    ∙ get_field-set_field (codes "ok") (codes "ok") (boolean false) fs

module _ (w : World) (out : Fields) (repo pull sha : Text) (required : List Required)
    (no : get_field (codes "ok") out ≡ boolean false) where
  -- A refusal keeps the "ok" that was set at the start.
  pub refused :
      {P : Type 0} (checks : Json) (c detail : Text) (fs : Fields) (n k : ℕ)
      → ◌≡◌ {A = Result Fields × ℕ} (returned (result out checks c detail), n) (returned fs, k)
      → accepted (object fs) ≡ true
      → P
  refused checks c detail fs n k h ok =
      let same : result out checks c detail ≡ fs = cc in
      let ok' = subst (λ f. accepted (object f) ≡ true) (sym same) ok in
      let r = result-ok out checks c detail in
      let no_ok : false ≡ true = subst (λ (j : Json). is_true j ≡ true) (r ∙ no) ok' in cc

  -- What a conclusion that accepts has behind it.
  abbrev Concluded : Json → List Verdict → ℕ → ℕ → Type 0
  Concluded branch vs last k =
      (pr : Fields) × (current_pr w repo pull sha branch last ≡ (returned (none, pr), k))
      × (is_success (overall (outcomes vs)) ≡ true)

  after_reread-Concluded :
      (branch : Json) (vs : List Verdict) (n j k : ℕ) (fs : Fields) (o : Option Refusal)
      (pr : Fields)
      → current_pr w repo pull sha branch n ≡ (returned (o, pr), j)
      → ◌≡◌ {A = Result Fields × ℕ}
          (returned (after_reread w out repo pull sha vs o), j)
          (returned fs, k)
      → accepted (object fs) ≡ true
      → Concluded branch vs n k
  after_reread-Concluded branch vs n j k fs (some refusal) pr r h ok =
      refused (checks_of sha vs) _ _ fs j k h ok
  after_reread-Concluded branch vs n j k fs none pr r h ok =
      let same : final out (checks_of sha vs) (overall (outcomes vs)) ≡ fs = cc in
      let ends : j ≡ k = cc in
      let ok' = subst (λ f. accepted (object f) ≡ true) (sym same) ok in
      let f = final-ok out (checks_of sha vs) (overall (outcomes vs)) in
      (
        pr,
        r ∙ ap (λ i. (returned (none, pr), i)) ends,
        subst (λ (j : Json). is_true j ≡ true) f ok',
      )

  conclude-Concluded :
      (branch : Json) (vs : List Verdict) (n k : ℕ) (fs : Fields)
      → conclude w out repo pull sha branch vs n ≡ (returned fs, k)
      → accepted (object fs) ≡ true
      → Concluded branch vs n k
  conclude-Concluded branch vs n k fs h ok =
      if_cases (λ (m : Act Fields). m n ≡ (returned fs, k) → Concluded branch vs n k)
        (not (is_none (untrusted_only vs)) && all_true success_or_missing (outcomes vs)) _ _
        (λ t g. refused (checks_of sha vs) _ _ fs n k g ok)
        (λ t g.
          let (again, j, read, rest) =
            bind-returned (current_pr w repo pull sha branch) _ n k fs g in
          after_reread-Concluded branch vs n j k fs again.0 again.1 read rest ok)
        h

  read_jobs-Proof :
      (pr : Fields) (n k : ℕ) (fs : Fields)
      → read_jobs w out repo pull sha required pr n ≡ (returned fs, k)
      → accepted (object fs) ≡ true
      → Proof w repo pull sha required k
  read_jobs-Proof pr n k fs h ok =
      let (base, based, h₁) = run-returned (base_and_open pr) _ n k fs h in
      let (e, m, got, h₂) = bind-returned (collect w repo sha base.0 base.1 required) _ n k fs h₁ in
      let (vs, judged, h₃) = run-returned (each (judge_check sha e) required) _ m k fs h₂ in
      let (again, reread, all) = conclude-Concluded base.0 vs m k fs h₃ ok in
      let (classes, some_outcome) = overall_lem (outcomes vs) all in
      record {
        branch = base.0;
        still_open = base.1;
        start = n;
        evidence = e;
        last = m;
        collected = got;
        some_check = λ none.
            let empty = subst (λ rs. each (judge_check sha e) rs ≡ returned vs) none judged in
            some_outcome (ap outcomes (sym (returned_inj [] vs empty)));
        passed = all-Passed sha e required vs judged classes;
        pr = again;
        reread = reread;
      }

  own_repository-Proof :
      (pr : Fields) (n k : ℕ) (fs : Fields)
      → own_repository w out repo pull sha required pr n ≡ (returned fs, k)
      → accepted (object fs) ≡ true
      → Proof w repo pull sha required k
  own_repository-Proof pr n k fs h ok =
      let (owner, named, h₁) = run-returned (head_full_name pr) _ n k fs h in
      if_cases (λ (m : Act Fields). m n ≡ (returned fs, k) → Proof w repo pull sha required k)
        (is_text repo owner) _ _ (λ t g. read_jobs-Proof pr n k fs g ok)
        (λ t g. refused _ _ _ fs n k g ok) h₁

  if_current-Proof :
      (first : Option Refusal × Fields) (n k : ℕ) (fs : Fields)
      → if_current w out repo pull sha required first n ≡ (returned fs, k)
      → accepted (object fs) ≡ true
      → Proof w repo pull sha required k
  if_current-Proof (some refusal, pr) n k fs h ok = refused _ _ _ fs n k h ok
  if_current-Proof (none, pr) n k fs h ok = own_repository-Proof pr n k fs h ok

  prove-Proof :
      (n k : ℕ) (fs : Fields)
      → prove w out repo pull sha required n ≡ (returned fs, k)
      → accepted (object fs) ≡ true
      → Proof w repo pull sha required k
  unfolding prove
  prove-Proof n k fs h ok =
      let (first, m, read, h₁) = bind-returned (current_pr w repo pull sha null) _ n k fs h in
      if_current-Proof first m k fs h₁ ok

  pub fallback_reply-Proof :
      (r : Result Fields) (n j k : ℕ) (fs : Fields)
      → prove w out repo pull sha required n ≡ (r, j)
      → ◌≡◌ {A = Result Fields × ℕ} (fallback_reply w out r, j) (returned fs, k)
      → accepted (object fs) ≡ true
      → Proof w repo pull sha required k
  fallback_reply-Proof (returned gs) n j k fs p h ok = prove-Proof n k fs (p ∙ h) ok
  fallback_reply-Proof (raised (denied status)) n j k fs p h ok = refused _ _ _ fs j k h ok
  fallback_reply-Proof (raised unavailable) n j k fs p h ok = refused _ _ _ fs j k h ok
  fallback_reply-Proof (raised malformed) n j k fs p h ok = refused _ _ _ fs j k h ok
  fallback_reply-Proof (raised out_of_range) n j k fs p h ok = refused _ _ _ fs j k h ok
  fallback_reply-Proof (raised unexpected) n j k fs p h ok = cc

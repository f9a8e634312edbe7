-- ===== src/Linear/Acceptance/Settled.antt =====
-- What a receipt that `settle` of acceptance.py returns as accepted rests on.
use mathlib.Core.Path.{subst}
use hermes_fleet.Prelude.{
  ℕ, ◌≡◌, Bool, refl, sym, ap, ◌∙◌, ◌⊎◌, inl, inr, true, false, Option, none, some, List, [],
  if_cases,
}
use hermes_fleet.Prelude.Text.{Text, codes}
use hermes_fleet.Prelude.Json.{
  Json, null, boolean, number, string, array, object, Fields, get_field, is_true,
  get_field-set_field,
}
use hermes_fleet.Linear.Acceptance.Reads.{
  Result, returned, raised, unexpected, denied, unavailable, malformed, out_of_range, World, Act,
  bind-returned, returned_inj,
}
use hermes_fleet.Linear.Acceptance.Receipt.{
  is_sha, pr_match, checks_read_denied, unverified, closed_reply, closed_match, mark_closed,
  closed_check,
}
use hermes_fleet.Linear.Acceptance.Collect.{Required, required_checks}
use hermes_fleet.Linear.Acceptance.Judge.{is_none}
use hermes_fleet.Linear.Acceptance.Fallback.{
  started, foreign, prove, with_required, with_head, with_match, actions_fallback, settle,
}
use hermes_fleet.Linear.Acceptance.Accepted.{
  accepted, Proof, started-ok, refused, fallback_reply-Proof,
}

-- The receipt names an exact commit, all its required checks are pinned to GitHub Actions, and each is
-- proved from jobs on that commit, read between two reads of the pull request.
pub record Proved (w : World) (receipt : Fields) (url : Text) (k : ℕ) : Type 0 where
  pub repo : Text
  pub pull : Text
  pub sha : Text
  pub required : List Required
  pub address : pr_match url ≡ some (repo, pull)
  pub head : get_field (codes "head_sha") receipt ≡ string sha
  pub exact : is_sha sha ≡ true
  pub listed : required_checks w (get_field (codes "required") receipt) ≡ returned required
  pub pinned : is_none (foreign required) ≡ true
  pub proof : Proof w repo pull sha required k

module _ (w : World) (receipt : Fields) (repo pull sha : Text) where
  with_required-Proof :
      (r : Result (List Required)) (n k : ℕ) (fs : Fields)
      → with_required w (started receipt) repo pull sha r n ≡ (returned fs, k)
      → accepted (object fs) ≡ true
      → (required : List Required) × (r ≡ returned required)
        × (is_none (foreign required) ≡ true)
        × Proof w repo pull sha required k
  with_required-Proof (raised e) n k fs h ok =
      refused w (started receipt) repo pull sha [] (started-ok receipt) _ _ _ fs n k h ok
  with_required-Proof (returned required) n k fs h ok =
      let out = started receipt in
      let no = started-ok receipt in
      let (pinned, proof) =
        if_cases
          (λ (m : Act Fields).
            m n ≡ (returned fs, k)
            → (is_none (foreign required) ≡ true) × Proof w repo pull sha required k)
          (is_none (foreign required)) _ _
          (λ t g. (
            t,
            fallback_reply-Proof w out repo pull sha required no
                (prove w out repo pull sha required n).0 n (prove w out repo pull sha required n).1
                k fs refl g ok,
          ))
          (λ t g. refused w out repo pull sha required no _ _ _ fs n k g ok) h in
      (required, refl, pinned, proof)

with_head-Proved :
    (w : World) (receipt : Fields) (url repo pull : Text) (head : Json) (n k : ℕ) (fs : Fields)
    → pr_match url ≡ some (repo, pull)
    → get_field (codes "head_sha") receipt ≡ head
    → with_head w (started receipt) repo pull receipt head n ≡ (returned fs, k)
    → accepted (object fs) ≡ true
    → Proved w receipt url k
with_head-Proved w receipt url repo pull (string sha) n k fs m e h ok =
    let no = started-ok receipt in
    if_cases (λ (a : Act Fields). a n ≡ (returned fs, k) → Proved w receipt url k) (is_sha sha) _ _
      (λ t g.
        let (required, listed, pinned, proof) =
          with_required-Proof w receipt repo pull sha
            (required_checks w (get_field (codes "required") receipt)) n k fs g ok in
        record {
          repo = repo;
          pull = pull;
          sha = sha;
          required = required;
          address = m;
          head = e;
          exact = t;
          listed = listed;
          pinned = pinned;
          proof = proof;
        })
      (λ t g. refused w (started receipt) repo pull sha [] no _ _ _ fs n k g ok) h
with_head-Proved w receipt url repo pull _ n k fs m e h ok =
    refused w (started receipt) repo pull [] [] (started-ok receipt) _ _ _ fs n k h ok

with_match-Proved :
    (w : World) (receipt : Fields) (url : Text) (m : Option (Text × Text)) (n k : ℕ) (fs : Fields)
    → pr_match url ≡ m
    → with_match w receipt m n ≡ (returned fs, k)
    → accepted (object fs) ≡ true
    → Proved w receipt url k
with_match-Proved w receipt url none n k fs e h ok = cc
with_match-Proved w receipt url (some (repo, pull)) n k fs e h ok =
    with_head-Proved w receipt url repo pull _ n k fs e refl h ok

actions_fallback-Proved :
    (w : World) (receipt : Fields) (url : Text) (n k : ℕ) (fs : Fields)
    → actions_fallback w receipt url n ≡ (returned fs, k)
    → accepted (object fs) ≡ true
    → Proved w receipt url k
unfolding actions_fallback
actions_fallback-Proved w receipt url n k fs h ok =
    with_match-Proved w receipt url (pr_match url) n k fs refl h ok

mark_closed-ok : (fs : Fields) → get_field (codes "ok") (mark_closed fs) ≡ boolean false
mark_closed-ok fs =
    get_field-set_field (codes "detail") (codes "ok") _ _
    ∙ get_field-set_field (codes "classification") (codes "ok") _ _
    ∙ get_field-set_field (codes "ok") (codes "ok") (boolean false) fs

-- Looking for a pull request that was closed without a merge accepts nothing that was not accepted.
closed_reply-accepted :
    (receipt : Fields) (r : Result Bool) (j : Json)
    → closed_reply receipt r ≡ returned j
    → accepted j ≡ true
    → accepted (object receipt) ≡ true
closed_reply-accepted receipt (returned true) j h ok =
    let same = returned_inj _ j h in
    let ok' = subst (λ j. accepted j ≡ true) (sym same) ok in
    let no : false ≡ true = subst (λ (j : Json). is_true j ≡ true) (mark_closed-ok receipt) ok' in
    cc
closed_reply-accepted receipt (returned false) j h ok =
    subst (λ j. accepted j ≡ true) (sym (returned_inj _ j h)) ok
closed_reply-accepted receipt (raised unexpected) j h ok = cc
closed_reply-accepted receipt (raised out_of_range) j h ok = cc
closed_reply-accepted receipt (raised malformed) j h ok =
    subst (λ j. accepted j ≡ true) (sym (returned_inj _ j h)) ok
closed_reply-accepted receipt (raised unavailable) j h ok =
    subst (λ j. accepted j ≡ true) (sym (returned_inj _ j h)) ok
closed_reply-accepted receipt (raised (denied status)) j h ok =
    subst (λ j. accepted j ≡ true) (sym (returned_inj _ j h)) ok

closed_match-accepted :
    (w : World) (receipt : Fields) (m : Option (Text × Text)) (n k : ℕ) (j : Json)
    → closed_match w receipt m n ≡ (returned j, k)
    → accepted j ≡ true
    → accepted (object receipt) ≡ true
closed_match-accepted w receipt none n k j h ok =
    let same : object receipt ≡ j = cc in subst (λ j. accepted j ≡ true) (sym same) ok
closed_match-accepted w receipt (some (repo, pull)) n k j h ok =
    closed_reply-accepted receipt _ j (ap (λ (p : Result Json × ℕ). p.0) h) ok

same_receipt :
    (fs : Fields) (n k : ℕ) (out : Json)
    → ◌≡◌ {A = Result Json × ℕ} (returned (object fs), n) (returned out, k)
    → accepted out ≡ true
    → accepted (object fs) ≡ true
same_receipt fs n k out h ok =
    let same : object fs ≡ out = cc in subst (λ j. accepted j ≡ true) (sym same) ok

abbrev pub Rests : World → Json → Text → ℕ → Type 0
Rests w receipt url k =
    (accepted receipt ≡ true)
    ⊎ ((fs : Fields) × (receipt ≡ object fs)
        × (checks_read_denied w receipt url ≡ true)
        × Proved w fs url k)

-- A receipt that comes back accepted was accepted before, or only the read of its check results had been
-- refused and its required checks are proved: on the exact commit that it names, every one of them is pinned
-- to GitHub Actions and has a counted job, all jobs of its name succeeded, and the pull request, read again
-- after the last page, still has that head and base and was not closed without a merge.
pub settle-Proved :
    (w : World) (receipt : Json) (url : Text) (n k : ℕ) (out : Json)
    → settle w receipt url n ≡ (returned out, k)
    → accepted out ≡ true
    → Rests w receipt url k
unfolding settle closed_check
settle-Proved w (object fs) url n k out h ok =
    if_cases (λ (m : Act Json). m n ≡ (returned out, k) → Rests w (object fs) url k)
      (checks_read_denied w (object fs) url) _ _
      (λ t g.
        let (gs, j, ran, last) = bind-returned (actions_fallback w fs url) _ n k out g in
        let same : object gs ≡ out = cc in
        let ends : j ≡ k = cc in
        let ok' = subst (λ j. accepted j ≡ true) (sym same) ok in
        inr (
          fs,
          refl,
          t,
          subst (Proved w fs url) ends (actions_fallback-Proved w fs url n j gs ran ok'),
        ))
      (λ t g. inl (
        if_cases (λ (m : Act Json). m n ≡ (returned out, k) → accepted (object fs) ≡ true)
          (unverified (object fs)) _ _
          (λ u g. closed_match-accepted w fs (pr_match url) n k out g ok)
          (λ u g. same_receipt fs n k out g ok) g))
      h
settle-Proved w null url n k out h ok = cc
settle-Proved w (boolean b) url n k out h ok = cc
settle-Proved w (number m) url n k out h ok = cc
settle-Proved w (string s) url n k out h ok = cc
settle-Proved w (array xs) url n k out h ok = cc

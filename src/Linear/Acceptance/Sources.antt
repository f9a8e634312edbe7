-- ===== src/Linear/Acceptance/Sources.antt =====
-- Where the jobs come from that `actions_fallback` of acceptance.py counts as evidence.
use mathlib.Core.Path.{subst}
use hermes_fleet.Prelude.{
  ℕ, suc, ◌≡◌, refl, sym, ap, ◌∙◌, inl, inr, Bool, true, false, Option, none, some, List, [], ◌∷◌,
  if_cases, if_split, arith, Elem, Elem-append, list_eq, nat_eq, ◌==◌, list_beq_iff, contains,
  contains-Elem, &&-left, &&-right,
}
use hermes_fleet.Prelude.Dict.{Dict, get}
use hermes_fleet.Prelude.Text.{Text, codes}
use hermes_fleet.Prelude.Json.{Json, Fields, get_field}
use hermes_fleet.Linear.Acceptance.Reads.{
  Result, returned, raised, World, Act, read, each_act, hashable, bind-returned, run-returned,
  then-returned, returned_inj,
}
use hermes_fleet.Linear.Acceptance.Receipt.{is_text}
use hermes_fleet.Linear.Acceptance.Runs.{concat, rows, trusted_run}
use hermes_fleet.Linear.Acceptance.Collect.{
  Required, Found, Evidence, runs_endpoint, jobs_endpoint, contents_endpoint, on_head, run_id,
  trusted_ids, is_running, earlier_attempt, found_jobs, jobs_of_run, run_path, evidence_paths,
  file_reply, text_branch, workflow_on_base, collect,
}
use hermes_fleet.Linear.Acceptance.Judge.{counts, is_there, path_there}

-- The run stands on the commit, the job is of its latest attempt; and where the job is trusted, a run of
-- that id passed the test of trust.
record Sound (w : World) (repo sha : Text) (f : Found) : Type 0 where
  pub on_commit : is_text sha (get_field (codes "head_sha") f.run) ≡ true
  pub latest : earlier_attempt f.run f.job ≡ false
  pub tested :
      f.trusted ≡ true
      → (run : Fields) × (trusted_run run repo sha ≡ returned true)
        × (i : ℕ) × (run_id w run ≡ returned i)
        × (run_id w f.run ≡ returned i)

Elem-concat :
    {A : Type 0} (x : A) (xss : List (List A))
    → Elem x (concat xss)
    → (xs : List A) × Elem xs xss × Elem x xs
Elem-concat x [] e = absurd e
Elem-concat x (xs ∷ xss) e = elim (Elem-append x xs (concat xss) e) [
  | inl k ↦ (xs, inl refl, k)
  | inr k ↦ let (ys, a, b) = Elem-concat x xss k in (ys, inr a, b)
]

-- An element of the result of a loop is what one turn returned.
each_act-Elem :
    {A B : Type 0} (f : A → Act B) (xs : List A) (n k : ℕ) (ys : List B) (y : B)
    → each_act f xs n ≡ (returned ys, k)
    → Elem y ys
    → (x : A) × (i : ℕ) × (j : ℕ) × Elem x xs × (f x i ≡ (returned y, j))
each_act-Elem f [] n k ys y h e = let same : ys ≡ [] = cc in absurd (subst (Elem y) same e)
each_act-Elem f (x ∷ xs) n k ys y h e =
    let (z, j, one, h₁) = bind-returned (f x) _ n k ys h in
    let (zs, m, more, last) = bind-returned (each_act f xs) _ j k ys h₁ in
    let same : ys ≡ z ∷ zs = cc in
    elim (subst (Elem y) same e) [
      | inl first ↦ (x, n, j, inl refl, subst (λ v. f x n ≡ (returned v, j)) (sym first) one)
      | inr rest ↦
          let (x', a, b, among, ran) = each_act-Elem f xs j m zs y more rest in
          (x', a, b, inr among, ran)
    ]

on_head-sha :
    (sha : Text) (runs : List Fields) (run : Fields)
    → Elem run (on_head sha runs)
    → is_text sha (get_field (codes "head_sha") run) ≡ true
on_head-sha sha [] run e = absurd e
on_head-sha sha (r ∷ runs) run e =
    if_cases (λ l. Elem run l → is_text sha (get_field (codes "head_sha") run) ≡ true)
      (is_text sha (get_field (codes "head_sha") r)) (r ∷ on_head sha runs) (on_head sha runs)
      (λ t e. elim e [
        | inl same ↦ subst (λ r. is_text sha (get_field (codes "head_sha") r) ≡ true) (sym same) t
        | inr k ↦ on_head-sha sha runs run k
      ])
      (λ t e. on_head-sha sha runs run e) e

trusted_ids-Elem :
    (w : World) (repo sha : Text) (runs : List Fields) (is : List ℕ) (i : ℕ)
    → trusted_ids w repo sha runs ≡ returned is
    → Elem i is
    → (run : Fields) × (trusted_run run repo sha ≡ returned true) × (run_id w run ≡ returned i)
trusted_ids-Elem w repo sha [] is i h e = let same : is ≡ [] = cc in absurd (subst (Elem i) same e)
trusted_ids-Elem w repo sha (run ∷ runs) is i h e =
    let rest = trusted_ids w repo sha runs in
    let (t, tested, h₁) = then-returned (trusted_run run repo sha) _ is h in
    elim (if_split t _ _ (returned is) h₁) [
      | inl (trusts, g) ↦
          let (j, named, g₁) = then-returned (run_id w run) _ is g in
          let (js, others, last) = then-returned rest _ is g₁ in
          elim (subst (Elem i) (sym (returned_inj (j ∷ js) is last)) e) [
            | inl same ↦ (run, tested ∙ ap returned trusts, named ∙ ap returned (sym same))
            | inr k ↦ trusted_ids-Elem w repo sha runs js i others k
          ]
      | inr (fails, g) ↦ trusted_ids-Elem w repo sha runs is i g e
    ]

found_jobs-Elem :
    (run : Fields) (trusted : Bool) (jobs : List Fields) (fs : List Found) (f : Found)
    → found_jobs run trusted jobs ≡ returned fs
    → Elem f fs
    → (f.run ≡ run) × (f.trusted ≡ trusted) × (earlier_attempt run f.job ≡ false)
found_jobs-Elem run trusted [] fs f h e = let same : fs ≡ [] = cc in absurd (subst (Elem f) same e)
found_jobs-Elem run trusted (job ∷ jobs) fs f h e =
    elim (if_split (earlier_attempt run job) _ _ (returned fs) h) [
      | inl (t, g) ↦ found_jobs-Elem run trusted jobs fs f g e
      | inr (t, g) ↦
          let (name, named, g₁) = then-returned (hashable (get_field (codes "name") job)) _ fs g in
          let (others, more, last) = then-returned (found_jobs run trusted jobs) _ fs g₁ in
          let mine : Found = record { name = name; run = run; job = job; trusted = trusted } in
          elim (subst (Elem f) (sym (returned_inj (mine ∷ others) fs last)) e) [
            | inl same ↦ (
              ap (λ (f : Found). f.run) same,
              ap (λ (f : Found). f.trusted) same,
              subst (λ (f : Found). earlier_attempt run f.job ≡ false) (sym same) t,
            )
            | inr k ↦ found_jobs-Elem run trusted jobs others f more k
          ]
    ]

jobs_of_run-Sound :
    (w : World) (repo sha : Text) (trusted : List ℕ) (runs : List Fields) (run : Fields) (n k : ℕ)
    (fs : List Found) (f : Found)
    → trusted_ids w repo sha (on_head sha runs) ≡ returned trusted
    → Elem run (on_head sha runs)
    → jobs_of_run w repo trusted run n ≡ (returned fs, k)
    → Elem f fs
    → Sound w repo sha f
jobs_of_run-Sound w repo sha trusted runs run n k fs f ids of_head h among =
    let (i, named, h₁) = run-returned (run_id w run) _ n k fs h in
    let (pages, m, got, h₂) = bind-returned (read w (jobs_endpoint w repo i) true) _ n k fs h₁ in
    let (jobs, listed, h₃) = run-returned (rows pages (codes "jobs")) _ m k fs h₂ in
    let found = ap (λ (q : Result (List Found) × ℕ). q.0) h₃ in
    let (of_run, trust, latest) = found_jobs-Elem run (contains i trusted) jobs fs f found among in
    let here = subst (λ r. run_id w r ≡ returned i) (sym of_run) named in
    record {
      on_commit =
          subst (λ r. is_text sha (get_field (codes "head_sha") r) ≡ true) (sym of_run)
            (on_head-sha sha runs run of_head);
      latest = subst (λ r. earlier_attempt r f.job ≡ false) (sym of_run) latest;
      tested = λ t.
          let (tester, passed, same) =
            trusted_ids-Elem w repo sha (on_head sha runs) trusted i ids
              (contains-Elem i trusted (sym trust ∙ t)) in
          (tester, passed, i, same, here);
    }

get-Elem : (d : Dict Text Bool) (path : Text) (b : Bool) → get d path ≡ some b → Elem (path, b) d
unfolding get
get-Elem [] path b h = cc
get-Elem ((p, c) ∷ d) path b h = elim (if_split (p == path) _ _ (some b) h) [
  | inl (t, g) ↦ inl (ground (arith, list_beq_iff p path))
  | inr (t, g) ↦ inr (get-Elem d path b g)
]

-- A read of the workflow file on the base branch found it.
pub record OnBase (w : World) (repo : Text) (branch : Json) (run : Fields) : Type 0 where
  pub path : Text
  pub of_run : run_path run ≡ returned path
  pub ref : Text
  pub is_ref : text_branch branch ≡ returned ref
  pub turn : ℕ
  pub is_file :
      file_reply path (w.gh turn (contents_endpoint w repo path ref) false) ≡ returned true

file-OnBase :
    (w : World) (repo : Text) (branch : Json) (run : Fields) (path : Text) (paths : List Text)
    (on_base : Dict Text Bool) (n k : ℕ)
    → each_act (workflow_on_base w repo branch) paths n ≡ (returned on_base, k)
    → run_path run ≡ returned path
    → get on_base path ≡ some true
    → OnBase w repo branch run
file-OnBase w repo branch run path paths on_base n k h of_run there =
    let (asked, i, j, among, ran) =
      each_act-Elem (workflow_on_base w repo branch) paths n k on_base (path, true) h
        (get-Elem on_base path true there) in
    let (ref, is_ref, h₁) = run-returned (text_branch branch) _ i j (path, true) ran in
    let (found, m, reply, last) =
      bind-returned
        (λ n. (file_reply asked (w.gh n (contents_endpoint w repo asked ref) false), suc n)) _ i j
        (path, true) h₁ in
    let same : asked ≡ path = cc in
    let yes_there : found ≡ true = cc in
    let said = ap (λ (q : Result Bool × ℕ). q.0) reply ∙ ap returned yes_there in
    record {
      path = path;
      of_run = of_run;
      ref = ref;
      is_ref = is_ref;
      turn = i;
      is_file =
          subst (λ p. file_reply p (w.gh i (contents_endpoint w repo p ref) false) ≡ returned true)
            same said;
    }

is_there_lem : (o : Option Bool) → is_there o ≡ true → o ≡ some true
is_there_lem none h = cc
is_there_lem (some b) h = ap some h

path_there_lem :
    (d : Dict Text Bool) (r : Result Text)
    → path_there d r ≡ true
    → (path : Text) × (r ≡ returned path) × (get d path ≡ some true)
path_there_lem d (raised e) h = cc
path_there_lem d (returned path) h = (path, refl, is_there_lem (get d path) h)

-- A job that counts as evidence. `tester` is the trusted run of its run's id.
pub record Counted (w : World) (repo sha : Text) (branch : Json) (f : Found) : Type 0 where
  pub on_commit : is_text sha (get_field (codes "head_sha") f.run) ≡ true
  pub latest : earlier_attempt f.run f.job ≡ false
  pub tester : Fields
  pub trusted : trusted_run tester repo sha ≡ returned true
  pub ident : ℕ
  pub same_ident : (run_id w tester ≡ returned ident) × (run_id w f.run ≡ returned ident)
  pub on_base : OnBase w repo branch f.run

-- A job that counts after the reads is of a run on the commit and of its latest attempt; a run of its run's
-- id is of a trusted event, a workflow file and the repository itself, on the commit, with an attempt; and
-- its workflow was read as a file on the base branch.
pub collect-Counted :
    (w : World) (repo sha : Text) (branch : Json) (still_open : Bool) (required : List Required)
    (n k : ℕ) (e : Evidence) (f : Found)
    → collect w repo sha branch still_open required n ≡ (returned e, k)
    → Elem f e.found
    → counts e.on_base f ≡ true
    → Counted w repo sha branch f
unfolding collect
collect-Counted w repo sha branch still_open required n k e f h among c =
    let (pages, n₁, r, h₁) = bind-returned (read w (runs_endpoint repo sha) true) _ n k e h in
    let (runs, listed, h₂) = run-returned (rows pages (codes "workflow_runs")) _ n₁ k e h₁ in
    let heads = on_head sha runs in
    let (trusted, ids, h₃) = run-returned (trusted_ids w repo sha heads) _ n₁ k e h₂ in
    let (running, t, h₄) = run-returned (is_running w trusted heads) _ n₁ k e h₃ in
    let (found, n₂, jobs, h₅) =
      bind-returned (each_act (jobs_of_run w repo trusted) heads) _ n₁ k e h₄ in
    let (paths, p, h₆) = run-returned (evidence_paths required (concat found)) _ n₂ k e h₅ in
    let (on_base, n₃, files, last) =
      bind-returned (each_act (workflow_on_base w repo branch) paths) _ n₂ k e h₆ in
    let whole = returned_inj _ e (ap (λ (q : Result Evidence × ℕ). q.0) last) in
    let gathered = ap (λ (e : Evidence). e.found) whole in
    let based : on_base ≡ e.on_base = ap (λ (e : Evidence). e.on_base) whole in
    let (fs, of_run, in_run) = Elem-concat f found (subst (Elem f) (sym gathered) among) in
    let (run, i, j, of_head, ran) =
      each_act-Elem (jobs_of_run w repo trusted) heads n₁ n₂ found fs jobs of_run in
    let s = jobs_of_run-Sound w repo sha trusted runs run i j fs f ids of_head ran in_run in
    let (tester, passed, i, of_tester, of_f) = s.tested (&&-left f.trusted _ c) in
    let (path, of_path, there) =
      path_there_lem e.on_base (run_path f.run) (&&-right f.trusted _ c) in
    record {
      on_commit = s.on_commit;
      latest = s.latest;
      tester = tester;
      trusted = passed;
      ident = i;
      same_ident = (of_tester, of_f);
      on_base =
          file-OnBase w repo branch f.run path paths on_base n₂ n₃ files of_path
            (subst (λ d. get d path ≡ some true) (sym based) there);
    }

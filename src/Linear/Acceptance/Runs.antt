-- ===== src/Linear/Acceptance/Runs.antt =====
-- The Actions runs and jobs that acceptance.py reads: `_rows`, `_trusted_workflow_path`, `_trusted_run`, `_classify`
-- and `_current_pr`.
use mathlib.Core.List.{reverse}
use hermes_fleet.Prelude.{
  ℕ, suc, Bool, true, false, ◌&&◌, ◌||◌, not, Option, none, some, List, [], ◌∷◌, ◌++◌,
  if◌then◌else◌, nat_beq, leb, list_eq, nat_eq, option_eq, ◌==◌, contains,
}
use hermes_fleet.Prelude.Text.{Text, codes}
use hermes_fleet.Prelude.Json.{
  Json, null, string, array, object, Fields, items, get_field, truthy, as_int, json_beq,
}
use hermes_fleet.Linear.Acceptance.Reads.{
  malformed, Result, returned, raised, World, Act, pure, lift, read, ◌>>=◌, ◌>>-◌, each,
  or_malformed, at_key, iterate, fields_of, hashable, starts_with,
}
use hermes_fleet.Linear.Acceptance.Receipt.{is_text, one_of, pulls}

-- A member of a set: 1 and True are one.
pub data Key : Type 0 where
  absent : Key
  count : ℕ → Key
  name : Text → Key

abbrev pub key_beq : Key → Key → Bool
key_beq absent absent = true
key_beq (count m) (count n) = nat_beq m n
key_beq (name s) (name t) = s == t
key_beq _ _ = false

abbrev pub scalar_key : Json → Key
scalar_key (string s) = name s
scalar_key j = elim (as_int j) [ some n ↦ count n | none ↦ absent ]

abbrev pub key_of : Json → Result Key
key_of j = hashable j >>- λ k. returned (scalar_key k)

abbrev pub has_key : Key → List Key → Bool
has_key k [] = false
has_key k (j ∷ js) = key_beq k j || has_key k js

-- `len(set(keys))`
abbrev pub distinct_count : List Key → ℕ
distinct_count [] = 0
distinct_count (k ∷ ks) = let n = distinct_count ks in if has_key k ks then n else suc n

abbrev pub concat : {A : Type 0} → List (List A) → List A
concat [] = []
concat (xs ∷ xss) = xs ++ concat xss

abbrev pub page_rows : Text → Json → Result (List Json)
page_rows key page = at_key key page >>- iterate

abbrev pub row_id : Json → Result Key
row_id row = at_key (codes "id") row >>- key_of

-- `pages[0].get("total_count")`, where there is a first page and it is a dict
abbrev pub total_of : List Json → Result Json
total_of (object fs ∷ pages) = returned (get_field (codes "total_count") fs)
total_of _ = raised malformed

abbrev pub pages_of : Json → Result (List Json)
pages_of (array xs) = returned (items xs)
pages_of _ = raised malformed

-- A row whose "id" was read is a dict.
unfoldable pub rows : Json → Text → Result (List Fields)
rows pages key = pages_of pages >>- λ listed. total_of listed >>- λ total.
    each (page_rows key) listed >>- λ parts. each row_id (concat parts) >>- λ ids.
    or_malformed (as_int total) >>- λ n.
    if nat_beq (distinct_count ids) n then each fields_of (concat parts) else raised malformed

-- `path.split("/")`
abbrev pub push_char : ℕ → List Text → List Text
push_char c [] = (c ∷ []) ∷ []
push_char c (part ∷ parts) = (c ∷ part) ∷ parts

abbrev pub split_slash : Text → List Text
split_slash [] = [] ∷ []
split_slash (c ∷ s) =
    let parts = split_slash s in if nat_beq c b'/' then [] ∷ parts else push_char c parts

abbrev pub ends_with : Text → Text → Bool
ends_with suffix s = starts_with (reverse suffix) (reverse s)

unfoldable pub trusted_workflow_path : Json → Bool
trusted_workflow_path (string path) =
    starts_with (codes ".github/workflows/") path
    && not (contains (codes "..") (split_slash path))
    && (ends_with (codes ".yml") path || ends_with (codes ".yaml") path)
trusted_workflow_path _ = false

abbrev pub trusted_events : List Text
trusted_events = codes "merge_group" ∷ codes "pull_request" ∷ codes "push" ∷ []

abbrev pub full_name : Json → Json
full_name (object fs) = get_field (codes "full_name") fs
full_name _ = null

-- A required-check event of the protected repository itself, on the exact head.
abbrev pub evidence_run : Fields → Text → Text → Bool
evidence_run run repo sha =
    one_of trusted_events (get_field (codes "event") run)
    && trusted_workflow_path (get_field (codes "path") run)
    && is_text repo (full_name (get_field (codes "head_repository") run))

abbrev pub attempted : Json → Result Bool
attempted j = or_malformed (as_int j) >>- λ n. if leb 1 n then returned true else raised malformed

unfoldable pub trusted_run : Fields → Text → Text → Result Bool
unfolding trusted_workflow_path
trusted_run run repo sha =
    if not (is_text sha (get_field (codes "head_sha") run))
    then returned false
    else hashable (get_field (codes "event") run) >>- λ event.
        if evidence_run run repo sha
        then attempted (get_field (codes "run_attempt") run)
        else returned false

pub data Class : Type 0 where
  success failure infra pending missing stale : Class

abbrev pub conclusion_class : Json → Class
conclusion_class j =
    if is_text (codes "success") j
    then success
    else if is_text (codes "failure") j
    then failure
    else infra

unfoldable pub classify : Text → Fields → Result Class
classify sha job =
    if not (is_text sha (get_field (codes "head_sha") job))
    then returned stale
    else if not (is_text (codes "completed") (get_field (codes "status") job))
    then returned pending
    else hashable (get_field (codes "conclusion") job) >>- λ conclusion.
        returned (conclusion_class conclusion)

-- Why the pull request refuses: closed without a merge, or its head or base moved.
pub data Refusal : Type 0 where
  closed moved : Refusal

abbrev pub is_null : Json → Bool
is_null null = true
is_null _ = false

abbrev pub same_branch : Json → Fields → Result Bool
same_branch branch pr =
    if is_null branch
    then returned true
    else at_key (codes "base") (object pr) >>- λ base.
        at_key (codes "ref") base >>- λ ref. returned (json_beq ref branch)

abbrev pub pr_refusal : Text → Json → Fields → Result (Option Refusal)
pr_refusal sha branch pr = at_key (codes "state") (object pr) >>- λ state.
    if is_text (codes "closed") state && not (truthy (get_field (codes "merged") pr))
    then returned (some closed)
    else at_key (codes "head") (object pr) >>- λ head. at_key (codes "sha") head >>- λ head_sha.
        if not (is_text sha head_sha)
        then returned (some moved)
        else same_branch branch pr >>- λ same. returned (if same then none else some moved)

unfoldable pub current_pr : World → Text → Text → Text → Json → Act (Option Refusal × Fields)
current_pr w repo pull sha branch = do
  reply ← read w (pulls repo pull) false
  pr ← lift (fields_of reply)
  refusal ← lift (pr_refusal sha branch pr)
  pure (refusal, pr)

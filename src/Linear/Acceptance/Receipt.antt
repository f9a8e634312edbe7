-- ===== src/Linear/Acceptance/Receipt.antt =====
-- The receipts of acceptance.py, and what is read from them: `_PR`, `_SHA`, `_CHECKS_DENIED`,
-- `checks_read_denied`, `unverified` and `_closed_unmerged`.
use hermes_fleet.Prelude.{
  ℕ, Bool, true, false, ◌&&◌, ◌||◌, not, Option, none, some, List, [], ◌∷◌, ◌++◌, if◌then◌else◌,
  nat_beq, leb, length, take, drop, list_eq, nat_eq, ◌==◌, all_true, any_true,
}
use hermes_fleet.Prelude.Text.{Text, codes}
use hermes_fleet.Prelude.Json.{
  Json, boolean, string, array, object, Items, Fields, items, get_field, set_field, is_true, truthy,
  json_beq,
}
use hermes_fleet.Linear.Acceptance.Reads.{
  malformed, out_of_range, unexpected, Result, returned, raised, World, Act, lift, read, ◌>>=◌,
  at_key, starts_with,
}

abbrev pub in_range : ℕ → ℕ → ℕ → Bool
in_range a b c = leb a c && leb c b

-- `[A-Za-z0-9_.-]`, `[0-9]` and `[0-9a-f]`
abbrev pub is_name : ℕ → Bool
is_name c =
    in_range b'A' b'Z' c
    || in_range b'a' b'z' c
    || in_range b'0' b'9' c
    || nat_beq c b'_'
    || nat_beq c b'.'
    || nat_beq c b'-'

abbrev pub is_digit : ℕ → Bool
is_digit c = in_range b'0' b'9' c

abbrev pub is_hex : ℕ → Bool
is_hex c = is_digit c || in_range b'a' b'f' c

-- The longest prefix of such characters, and what follows it.
abbrev pub span : (ℕ → Bool) → Text → Text × Text
span p [] = ([], [])
span p (c ∷ s) = let rest = span p s in if p c then (c ∷ rest.0, rest.1) else ([], c ∷ s)

abbrev pub after : Text → Text → Option Text
after prefix s = if starts_with prefix s then some (drop (length prefix) s) else none

-- `([A-Za-z0-9_.-]+/[A-Za-z0-9_.-]+)`: neither part can hold the slash, so the longest match is the only one.
abbrev pub repository : Text → Option (Text × Text)
repository s =
    let owner = span is_name s in
    let name = span is_name (drop 1 owner.1) in
    if leb 1 (length owner.0) && starts_with (codes "/") owner.1 && leb 1 (length name.0)
    then some (owner.0 ++ (b'/' ∷ name.0), name.1)
    else none

-- `[1-9][0-9]*\Z`
abbrev pub is_positive : Text → Bool
is_positive [] = false
is_positive (c ∷ s) = in_range b'1' b'9' c && all_true is_digit s

abbrev pub pull_of : Text × Text → Option (Text × Text)
pull_of (repo, s) = elim (after (codes "/pull/") s) [
  | none ↦ none
  | some number ↦ if is_positive number then some (repo, number) else none
]

-- `_PR.fullmatch(url)`: the repository and the number. The number's text is also that of its `int`.
unfoldable pub pr_match : Text → Option (Text × Text)
pr_match url = elim (after (codes "https://github.com/") url) [
  | none ↦ none
  | some s ↦ elim (repository s) [ none ↦ none | some r ↦ pull_of r ]
]

-- `_SHA.fullmatch`
unfoldable pub is_sha : Text → Bool
is_sha s = nat_beq (length s) 40 && all_true is_hex s

abbrev pub commit_of : Text × Text → Option (Text × Text)
commit_of (repo, s) = elim (after (codes "/commits/") s) [
  | none ↦ none
  | some rest ↦
      if is_sha (take 40 rest) && starts_with (codes "/check-runs)") (drop 40 rest)
      then some (repo, take 40 rest)
      else none
]

-- `_CHECKS_DENIED` at the head of a text, and `.search`: the repository and the commit
abbrev pub denied_here : Text → Option (Text × Text)
denied_here s =
    if starts_with (codes "(HTTP 401) on repos/") s || starts_with (codes "(HTTP 403) on repos/") s
    then elim (repository (drop 20 s)) [ none ↦ none | some r ↦ commit_of r ]
    else none

unfoldable pub checks_denied : Text → Option (Text × Text)
unfolding is_sha
checks_denied [] = none
checks_denied (c ∷ s) =
    let later = checks_denied s in elim (denied_here (c ∷ s)) [ some m ↦ some m | none ↦ later ]

-- `str(value or "")`
abbrev pub str : World → Json → Text
str w (string s) = s
str w j = w.text_of j

abbrev pub str_or_empty : World → Json → Text
str_or_empty w j = if truthy j then str w j else []

abbrev pub is_text : Text → Json → Bool
is_text s j = json_beq j (string s)

abbrev pub both_match : Option (Text × Text) → Option (Text × Text) → Json → Bool
both_match (some (repo, sha)) (some (repo', number)) head = repo == repo' && is_text sha head
both_match _ _ head = false

abbrev pub some_items : Json → Bool
some_items (array (Items.item j rest)) = true
some_items _ = false

-- Refused only at the check-runs read of the recorded head?
unfoldable pub checks_read_denied : World → Json → Text → Bool
unfolding checks_denied pr_match
checks_read_denied w (object fs) url =
    if is_true (get_field (codes "ok") fs)
      || not (is_text (codes "auth") (get_field (codes "classification") fs))
    then false
    else both_match (checks_denied (str_or_empty w (get_field (codes "detail") fs))) (pr_match url)
        (get_field (codes "head_sha") fs)
      && some_items (get_field (codes "required") fs)
checks_read_denied w _ url = false

-- `value in (...)` for texts
abbrev pub one_of : List Text → Json → Bool
one_of [] j = false
one_of (s ∷ ss) j = is_text s j || one_of ss j

abbrev pub unverified_classes : List Text
unverified_classes = codes "auth" ∷ codes "infra" ∷ codes "pending" ∷ []

abbrev pub definite_check : Json → Bool
definite_check (object fs) =
    one_of (codes "failure" ∷ codes "infra" ∷ []) (get_field (codes "classification") fs)
definite_check _ = false

abbrev pub listed : Json → List Json
listed (array xs) = items xs
listed _ = []

-- GitHub could not be asked, as opposed to answering no.
unfoldable pub unverified : Json → Bool
unverified (object fs) =
    if is_true (get_field (codes "ok") fs)
      || not (one_of unverified_classes (get_field (codes "classification") fs))
    then false
    else not (any_true definite_check (listed (get_field (codes "checks") fs)))
unverified _ = false

abbrev pub pulls : Text → Text → Text
pulls repo number = codes "repos/" ++ (repo ++ (codes "/pulls/" ++ number))

-- `pr["state"] == "closed" and not pr.get("merged")`
abbrev pub closed_unmerged : Json → Result Bool
closed_unmerged (object fs) = elim (at_key (codes "state") (object fs)) [
  | returned state ↦
      returned (is_text (codes "closed") state && not (truthy (get_field (codes "merged") fs)))
  | raised e ↦ raised e
]
closed_unmerged j = raised malformed

abbrev pub with_detail : Text → Fields → Fields
with_detail text fs = set_field (codes "detail") (string text) fs

abbrev pub mark_closed : Fields → Fields
mark_closed fs = with_detail (codes "the pull request was closed without being merged") (
    set_field (codes "classification") (string (codes "closed"))
      (set_field (codes "ok") (boolean false) fs))

-- What it read of the pull request, or the exception: the clause, which keeps the receipt, names no IndexError.
abbrev pub closed_reply : Fields → Result Bool → Result Json
closed_reply fs (returned closed) = returned (object (if closed then mark_closed fs else fs))
closed_reply fs (raised unexpected) = raised unexpected
closed_reply fs (raised out_of_range) = raised out_of_range
closed_reply fs (raised e) = returned (object fs)

abbrev pub closed_match : World → Fields → Option (Text × Text) → Act Json
closed_match w fs none n = (returned (object fs), n)
closed_match w fs (some (repo, pull)) n =
    let (r, k) = (do pr ← read w (pulls repo pull) false; lift (closed_unmerged pr)) n in
    (closed_reply fs r, k)

unfoldable pub closed_check : World → Fields → Text → Act Json
unfolding pr_match
closed_check w fs url = closed_match w fs (pr_match url)

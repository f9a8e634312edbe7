-- ===== src/Linear/Outbox/Payload.antt =====
-- What store.py reads off a kind and a payload: `unlinked_content`, `conversation_reply`, `reporting_notice`,
-- `_targets`, and `advisory` with the SQL test of the same name. An issue's id is a text.
use hermes_fleet.Prelude.{
  Bool-cases, ◌⊎◌, inl, inr, ◌≡◌, refl, Bool, true, false, ◌&&◌, ◌||◌, not, Option, none, some,
  List, [], ◌∷◌, ◌++◌, if◌then◌else◌, nat_beq, list_eq, nat_eq, ◌==◌, any_true, arith,
}
use hermes_fleet.Prelude.Text.{Text, codes, is_nonempty}
use hermes_fleet.Prelude.Json.{
  Json, null, boolean, number, string, array, object, Fields, field, no_fields, get_field, is_true,
  truthy, json_beq,
}

-- `key in (...)` for the value at a key
abbrev pub is_text : Text → Json → Bool
is_text s j = json_beq j (string s)

abbrev pub one_of : List Text → Json → Bool
one_of [] j = false
one_of (s ∷ ss) j = is_text s j || one_of ss j

abbrev pub any_field : List Text → Fields → Bool
any_field keys payload = any_true (λ k. truthy (get_field k payload)) keys

abbrev pub execution_keys : List Text
execution_keys =
    codes "work_owner"
    ∷ codes "session_key"
    ∷ codes "admission_id"
    ∷ codes "claim"
    ∷ codes "release"
    ∷ codes "stop_intent_id"
    ∷ []

abbrev pub linked_keys : List Text
linked_keys =
    execution_keys ++ (codes "task_id" ∷ codes "requires_status_id" ∷ codes "terminal" ∷ [])

abbrev pub is_null : Json → Bool
is_null null = true
is_null _ = false

abbrev pub is_one : Json → Bool
is_one j = json_beq j (number 1)

abbrev pub filled_text : Json → Bool
filled_text (string s) = is_nonempty s
filled_text _ = false

abbrev pub some_text : Json → Bool
some_text (string s) = true
some_text _ = false

-- `payload.get("content") or {}`, where it is a dict
abbrev pub object_or_empty : Json → Fields
object_or_empty (object fs) = fs
object_or_empty _ = no_fields

abbrev pub content : Fields → Fields
content payload = object_or_empty (get_field (codes "content") payload)

abbrev pub content_type : Fields → Json
content_type payload = get_field (codes "type") (content payload)

-- `{issue_id: session_id}`
abbrev pub single : Json → Json → Json
single (string s) v = object (field s v no_fields)
single _ v = null

abbrev pub is_version_1 : Json → Bool
is_version_1 (number n) = nat_beq n 1
is_version_1 _ = false

abbrev pub reply_body : Fields → Fields → Bool
reply_body payload c =
    (one_of (codes "response" ∷ codes "error" ∷ codes "thought" ∷ codes "elicitation" ∷ [])
        (get_field (codes "type") c)
      && some_text (get_field (codes "body") c))
    || (is_text (codes "action") (get_field (codes "type") c)
        && is_true (get_field (codes "ephemeral") payload)
        && some_text (get_field (codes "action") c)
        && some_text (get_field (codes "parameter") c))

unfoldable pub conversation_reply : Text → Fields → Bool
conversation_reply kind payload =
    kind == codes "activity"
    && is_version_1 (get_field (codes "native_reply_version") payload)
    && is_true (get_field (codes "content_action") payload)
    && is_true (get_field (codes "unlinked_content") payload)
    && not (any_field linked_keys payload)
    && filled_text (get_field (codes "issue_id") payload)
    && filled_text (get_field (codes "session_id") payload)
    && json_beq (get_field (codes "requester_sessions") payload)
        (single (get_field (codes "issue_id") payload) (get_field (codes "session_id") payload))
    && reply_body payload (content payload)

unfoldable pub unlinked_content : Text → Fields → Bool
unfolding conversation_reply
unlinked_content kind payload =
    (kind == codes "comment" || kind == codes "description" || conversation_reply kind payload)
    && is_true (get_field (codes "content_action") payload)
    && is_true (get_field (codes "unlinked_content") payload)
    && not (any_field linked_keys payload)

unfoldable pub reporting_notice : Text → Fields → Bool
reporting_notice kind payload =
    kind == codes "activity"
    && is_one (get_field (codes "reporting_notice_version") payload)
    && is_true (get_field (codes "one_try") payload)
    && truthy (get_field (codes "session_id") payload)
    && one_of (codes "response" ∷ codes "error" ∷ codes "thought" ∷ []) (content_type payload)
    && not (any_field (execution_keys ++ (codes "task_id" ∷ codes "terminal" ∷ [])) payload)

abbrev pub ident : Json → List Text
ident (string (c ∷ s)) = (c ∷ s) ∷ []
ident _ = []

abbrev pub starts_with : Text → Text → Bool
starts_with [] s = true
starts_with (c ∷ p) [] = false
starts_with (c ∷ p) (d ∷ s) = nat_beq c d && starts_with p s

-- An "update:" id stands for a project update and is no issue.
abbrev pub own_issue : Json → List Text
own_issue (string s) = if starts_with (codes "update:") s then [] else ident (string s)
own_issue _ = []

abbrev pub idents : Fields → List Text
idents no_fields = []
idents (field k j rest) = ident j ++ idents rest

unfoldable pub targets : Fields → List Text
targets payload =
    ident (get_field (codes "owner_issue_id") payload)
    ++ (ident (get_field (codes "resolve") payload)
        ++ (idents (object_or_empty (get_field (codes "line_issues") payload))
            ++ own_issue (get_field (codes "issue_id") payload)))

-- The ids of the rows that a row waits for.
unfoldable pub dependencies : Fields → List Text
dependencies payload =
    ident (get_field (codes "requires_status_id") payload)
    ++ idents (object_or_empty (get_field (codes "terminal_lines") payload))

abbrev pub is_false : Json → Bool
is_false (boolean b) = not b
is_false _ = false

-- `advisory(row)`
unfoldable pub advisory : Text → Fields → Bool
advisory kind payload =
    kind == codes "activity"
    && ((one_of (codes "thought" ∷ codes "action" ∷ []) (content_type payload)
          && is_null (get_field (codes "native_reply_version") payload))
        || (is_true (get_field (codes "one_try") payload)
            && not (
                is_one (get_field (codes "native_reply_version") payload)
                && not (is_false (get_field (codes "write_started") payload)))))

-- `COALESCE(json_extract(...), 1) != 0`
abbrev pub not_zero : Json → Bool
not_zero (boolean b) = b
not_zero (number n) = not (nat_beq n 0)
not_zero _ = true

-- The truth of SQL: none is NULL.
abbrev pub sql_and : Option Bool → Option Bool → Option Bool
sql_and (some true) q = q
sql_and (some false) q = some false
sql_and none (some false) = some false
sql_and none q = none

abbrev pub sql_or : Option Bool → Option Bool → Option Bool
sql_or (some false) q = q
sql_or (some true) q = some true
sql_or none (some true) = some true
sql_or none q = none

abbrev pub sql_in : List Text → Json → Option Bool
sql_in ss j = if is_null j then none else some (one_of ss j)

-- `ADVISORY`, the test of the database
unfoldable pub advisory_sql : Text → Fields → Option Bool
advisory_sql kind payload = sql_and (some (kind == codes "activity")) (
    sql_or
      (sql_and (sql_in (codes "thought" ∷ codes "action" ∷ []) (content_type payload))
        (some (is_null (get_field (codes "native_reply_version") payload))))
      (some (
        is_one (get_field (codes "one_try") payload)
        && not (
            is_one (get_field (codes "native_reply_version") payload)
            && not_zero (get_field (codes "write_started") payload)))))

-- A flag of a payload: absent, null or a Boolean.
abbrev pub IsFlag : Json → Type 0
IsFlag null = Unit
IsFlag (boolean b) = Unit
IsFlag _ = ⊥

flag_one : (j : Json) → IsFlag j → is_one j ≡ is_true j
flag_one null f = refl
flag_one (boolean true) f = refl
flag_one (boolean false) f = refl
flag_one (number n) f = absurd f
flag_one (string s) f = absurd f
flag_one (array xs) f = absurd f
flag_one (object fs) f = absurd f

flag_zero : (j : Json) → IsFlag j → not_zero j ≡ not (is_false j)
flag_zero null f = refl
flag_zero (boolean b) f = ground arith
flag_zero (number n) f = absurd f
flag_zero (string s) f = absurd f
flag_zero (array xs) f = absurd f
flag_zero (object fs) f = absurd f

sql_lem :
    (k a b c : Bool)
    → sql_and (some k) (sql_or (sql_and (some a) (some b)) (some c)) ≡ some (k && ((a && b) || c))
sql_lem true true true c = refl
sql_lem true true false c = refl
sql_lem true false b c = refl
sql_lem false a b c = refl

-- A test of the database that is the one of Python, or NULL where Python says no
abbrev pub SameOrNull : Text → Fields → Type 0
SameOrNull kind payload =
    (advisory_sql kind payload ≡ some (advisory kind payload))
    ⊎ ((advisory_sql kind payload ≡ none)
        × (advisory kind payload ≡ false)
        × ((kind == codes "activity") ≡ true)
        × (is_null (content_type payload) ≡ true)
        × (is_null (get_field (codes "native_reply_version") payload) ≡ true))

untyped : (j : Json) → is_null j ≡ true → one_of (codes "thought" ∷ codes "action" ∷ []) j ≡ false
untyped null h = refl
untyped (boolean b) h = cc
untyped (number n) h = cc
untyped (string s) h = cc
untyped (array xs) h = cc
untyped (object fs) h = cc

untyped_lem :
    (k b c : Bool)
    → let q = sql_and (some k) (sql_or (sql_and none (some b)) (some c)) in
      (q ≡ some (k && ((false && b) || c)))
      ⊎ ((q ≡ none) × ((k && ((false && b) || c)) ≡ false) × (k ≡ true) × (b ≡ true))
untyped_lem false b c = inl refl
untyped_lem true false c = inl refl
untyped_lem true true true = inl refl
untyped_lem true true false = inr (refl, refl, refl, refl)

-- Of a row whose two marks that are read as a truth value, "one_try" and "write_started", are absent, null or a
-- Boolean, the test of the database is the one of Python, except for an activity whose content has no type and
-- that has no "native_reply_version": there it may be NULL, and Python's is false.
pub advisory_sql_lem :
    (kind : Text) (payload : Fields)
    → IsFlag (get_field (codes "one_try") payload)
    → IsFlag (get_field (codes "write_started") payload)
    → SameOrNull kind payload
unfolding advisory advisory_sql
advisory_sql_lem kind payload once started = elim (Bool-cases (is_null (content_type payload))) [
  | inr typed ↦ inl (
      rw
        (
          typed,
          flag_one (get_field (codes "one_try") payload) once,
          flag_zero (get_field (codes "write_started") payload) started,
        )
        (sql_lem _ _ _ _))
  | inl no_type ↦
      let here = untyped (content_type payload) no_type in
      let version = get_field (codes "native_reply_version") payload in
      let once_only =
        is_true (get_field (codes "one_try") payload)
        && not (is_one version && not (is_false (get_field (codes "write_started") payload))) in
      let same = untyped_lem (kind == codes "activity") (is_null version) once_only in
      rw
        (
          no_type,
          here,
          flag_one (get_field (codes "one_try") payload) once,
          flag_zero (get_field (codes "write_started") payload) started,
        )
        (elim same [ inl e ↦ inl e | inr (e, python_not, k, b) ↦ inr (e, python_not, k, refl, b) ])
]

-- ===== src/Linear/Outbox/Effects.antt =====
-- The writes of an issue whose effect is not known: `uncertain`, `_unresolved_terminal`, `_effect_admitted`,
-- and the tests of store.py on the other rows that a send depends on. Where the source indexes a payload or a
-- transfer by a key, the key is there.
use hermes_fleet.Prelude.{
  Bool, true, false, ◌&&◌, ◌||◌, not, Option, none, some, List, [], ◌∷◌, if◌then◌else◌, list_eq,
  nat_eq, ◌==◌, ltb, nat_beq, any_true, all_true, contains,
}
use hermes_fleet.Prelude.Dict.{Dict, get}
use hermes_fleet.Prelude.Text.{Text, codes, is_nonempty}
use hermes_fleet.Prelude.Json.{
  Json, number, string, Fields, lookup, get_field, is_true, truthy, json_beq,
}
use hermes_fleet.Linear.Outbox.Payload.{
  is_text, one_of, is_null, is_one, is_false, starts_with, object_or_empty,
}
use hermes_fleet.Linear.Outbox.Table.{pending, sent, failed, Row, Work, Store, admitted, unheld}
use hermes_fleet.Linear.Outbox.Operations.{same_state, find_row, is_object}

abbrev pub is_present : Text → Fields → Bool
is_present key payload = elim (lookup key payload) [ none ↦ false | some j ↦ true ]

abbrev pub write_started : Fields → Json
write_started payload = get_field (codes "write_started") payload

abbrev pub in_kinds : List Text → Row → Bool
in_kinds kinds r = contains r.kind kinds

-- An attempted terminal or content write whose effect is not known
unfoldable pub uncertain : Row → Bool
uncertain r =
    (truthy (get_field (codes "terminal") r.payload)
      || truthy (get_field (codes "content_action") r.payload)
      || (r.kind == codes "status"
          && (is_true (write_started r.payload)
              || truthy (get_field (codes "reconcile_required") r.payload))))
    && not (truthy (get_field (codes "reconciliation") r.payload))
    && (truthy (get_field (codes "reconcile_required") r.payload)
        || ((same_state r.state pending || same_state r.state failed)
            && (is_true (write_started r.payload)
                || (ltb 0 r.attempts && not (is_present (codes "write_started") r.payload)))))

abbrev pub issue_kinds : List Text
issue_kinds = codes "status" ∷ codes "description" ∷ codes "delegate" ∷ []

abbrev pub unresolved_row : Text → Text → Row → Bool
unresolved_row issue except_id r =
    in_kinds issue_kinds r
    && is_text issue (get_field (codes "issue_id") r.payload)
    && not (r.id == except_id)
    && uncertain r

-- `_unresolved_terminal`, as a truth value
abbrev pub unresolved_terminal : Store → Text → Text → Bool
unresolved_terminal s issue except_id =
    is_nonempty issue
    && not (starts_with (codes "update:") issue)
    && any_true (unresolved_row issue except_id) s.outbox

-- The values of the keys that begin with "chat-transfer:"
abbrev pub any_transfer : (Fields → Bool) → Dict Text Json → Bool
any_transfer p [] = false
any_transfer p ((key, j) ∷ rest) =
    (starts_with (codes "chat-transfer:") key && p (object_or_empty j)) || any_transfer p rest

abbrev pub pending_chat_transfer : Store → Text → Bool
pending_chat_transfer s issue =
    any_transfer
      (λ t.
        is_text issue (get_field (codes "issue_id") t)
        && one_of (codes "prepared" ∷ codes "committed" ∷ []) (get_field (codes "state") t))
      s.metadata

abbrev pub predecessor_transfer_blocks : Store → Text → Fields → Bool
predecessor_transfer_blocks s issue payload =
    any_transfer
      (λ t.
        let before = object_or_empty (get_field (codes "predecessor") t) in
        is_text issue (get_field (codes "issue_id") t)
        && (json_beq (get_field (codes "work_owner") payload)
              (get_field (codes "ownership_id") before)
            || json_beq (get_field (codes "session_key") payload)
                (get_field (codes "owner_ref") before)))
      s.metadata

abbrev pub effect_admitted : Store → List Text → Text → Bool
effect_admitted s issues except_id =
    admitted s issues
    && all_true (λ i. not (unresolved_terminal s i except_id) && not (pending_chat_transfer s i))
        issues

abbrev pub row_at : Json → List Row → Option Row
row_at (string s) table = find_row s table
row_at _ table = none

abbrev pub is_comment_of : Fields → Option Row → Bool
is_comment_of payload none = false
is_comment_of payload (some c) =
    c.kind == codes "comment"
    && same_state c.state sent
    && unheld c
    && is_one (get_field (codes "applied") c.payload)
    && json_beq (get_field (codes "issue_id") c.payload) (get_field (codes "issue_id") payload)
    && (json_beq (get_field (codes "native_completion") c.payload)
          (get_field (codes "native_completion") payload)
        || (is_true (get_field (codes "outcome_assessment") payload)
            && is_true (get_field (codes "assessment") c.payload)))

abbrev pub outcome_comment_applied : Store → Fields → Bool
outcome_comment_applied s payload =
    is_comment_of payload (row_at (get_field (codes "requires_comment_id") payload) s.outbox)

-- `json_extract(payload, key)=?`, which no missing value satisfies
abbrev pub sql_equal : Json → Json → Bool
sql_equal a b = not (is_null a || is_null b) && json_beq a b

abbrev pub unsettled_step : Fields → Row → Bool
unsettled_step payload r =
    r.kind == codes "activity"
    && (same_state r.state pending || same_state r.state failed)
    && (is_object (get_field (codes "worker_step") r.payload)
        || is_one (get_field (codes "worker_step_repair") r.payload))
    && is_one (write_started r.payload)
    && not (is_present (codes "applied") r.payload)
    && sql_equal (get_field (codes "issue_id") r.payload) (get_field (codes "issue_id") payload)
    && sql_equal (get_field (codes "session_id") r.payload) (get_field (codes "session_id") payload)

abbrev pub unsettled_worker_action : Store → Fields → Bool
unsettled_worker_action s payload = any_true (unsettled_step payload) s.outbox

abbrev pub is_zero_value : Json → Bool
is_zero_value j = json_beq j (number 0)

abbrev pub history_status_settled : Option Row → Bool
history_status_settled none = false
history_status_settled (some r) =
    let applied = get_field (codes "applied") r.payload in
    r.kind == codes "status"
    && unheld r
    && ((same_state r.state sent && is_one applied)
        || (is_false (write_started r.payload)
            && ((same_state r.state sent && is_zero_value applied)
                || (same_state r.state failed && nat_beq r.attempts 0))))

abbrev pub work_at : Store → Json → Option Work
work_at s (string issue) = get s.work issue
work_at s _ = none

abbrev pub later_owner : Row → List Row → Bool
later_owner r table =
    let owner = get_field (codes "work_owner") r.payload in
    any_true
      (λ l.
        let other = get_field (codes "work_owner") l.payload in
        l.kind == codes "status"
        && ltb r.rowid l.rowid
        && sql_equal (get_field (codes "issue_id") l.payload)
            (get_field (codes "issue_id") r.payload)
        && not (is_null other)
        && (is_null owner || not (json_beq other owner)))
      table

abbrev pub superseded_work : Store → Row → Option Work → Bool
superseded_work s r none = later_owner r s.outbox
superseded_work s r (some work) =
    let task = get_field (codes "task_id") r.payload in
    let owner = get_field (codes "work_owner") r.payload in
    if work.origin == codes "native"
    then truthy task && not (json_beq task work.task_id)
    else not (truthy owner) || not (json_beq work.ownership_id owner)

abbrev pub superseded : Store → Row → Bool
superseded s r = superseded_work s r (work_at s (get_field (codes "issue_id") r.payload))

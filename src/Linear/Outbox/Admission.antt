-- ===== src/Linear/Outbox/Admission.antt =====
-- The marker of a send: `admit_mutation` of store.py. Where the source indexes a payload by a key, the key is
-- there.
use hermes_fleet.Prelude.{
  Bool, true, false, ◌&&◌, ◌||◌, not, Option, none, some, [], ◌∷◌, if◌then◌else◌, list_eq, nat_eq,
  ◌==◌, any_true,
}
use hermes_fleet.Prelude.Text.{Text, codes, is_nonempty}
use hermes_fleet.Prelude.Json.{
  Json, boolean, string, Fields, get_field, set_field, is_true, truthy, json_beq,
}
use hermes_fleet.Linear.Outbox.Payload.{
  one_of, is_false, content_type, conversation_reply, unlinked_content, reporting_notice, targets,
}
use hermes_fleet.Linear.Outbox.Table.{pending, Row, Store, admitted, unheld, hold_legacy}
use hermes_fleet.Linear.Outbox.Operations.{same_state, find_row, updated}
use hermes_fleet.Linear.Outbox.Effects.{
  write_started, in_kinds, unresolved_terminal, predecessor_transfer_blocks, effect_admitted,
  row_at, outcome_comment_applied, unsettled_worker_action, history_status_settled, superseded,
}

-- The arguments of `admit_mutation`; `fresh` is what `uuid4` gives.
pub record Send : Type 0 where
  pub row_id : Text
  pub terminal : Bool
  pub expected_content : Option Json
  pub conversation_attempt_id : Text
  pub require_unattempted : Bool
  pub mutation_attempt_id : Text
  pub fresh : Text

abbrev pub is_history : Fields → Bool
is_history payload =
    is_true (get_field (codes "native_history") payload)
    || is_true (get_field (codes "native_progress") payload)

abbrev pub content_matches : Option Json → Fields → Bool
content_matches none payload = true
content_matches (some c) payload = json_beq (get_field (codes "content") payload) c

-- A closing publication waits for the session's step in flight.
abbrev pub closes : Row → Bool
closes r =
    r.kind == codes "activity"
    && one_of (codes "response" ∷ codes "error" ∷ []) (content_type r.payload)

-- The sole pointer of an outcome waits for its comment.
abbrev pub pointer_ready : Store → Row → Bool
pointer_ready s r = not (
    truthy (get_field (codes "native_outcome_pointer") r.payload)
    && not (outcome_comment_applied s r.payload))

-- Another sender has not started.
abbrev pub unattempted_ready : Send → Row → Bool
unattempted_ready a r = not (a.require_unattempted && not (is_false (write_started r.payload)))

abbrev pub closing_ready : Store → Row → Bool
closing_ready s r = not (closes r && unsettled_worker_action s r.payload)

abbrev pub history_ready : Store → Row → Bool
history_ready s r =
    let status = get_field (codes "requires_status_id") r.payload in
    not (
      is_history r.payload
      && truthy status
      && not (history_status_settled (row_at status s.outbox)))

abbrev pub scope_ready : Store → Row → Bool
scope_ready s r = conversation_reply r.kind r.payload || admitted s (targets r.payload)

-- The tests of this row alone, of its outcome's comment and of its status
abbrev pub row_ready : Store → Send → Row → Bool
row_ready s a r =
    pointer_ready s r
    && content_matches a.expected_content r.payload
    && unattempted_ready a r
    && closing_ready s r
    && history_ready s r
    && scope_ready s r

abbrev pub independent_message : Row → Bool
independent_message r =
    (r.kind == codes "comment" || conversation_reply r.kind r.payload)
    && unlinked_content r.kind r.payload

abbrev pub ordinary_ready : Store → Row → Bool
ordinary_ready s r =
    effect_admitted s (targets r.payload) r.id
    && not (any_true (λ i. predecessor_transfer_blocks s i r.payload) (targets r.payload))
    && not (truthy (get_field (codes "work_owner") r.payload) && superseded s r)

-- The tests against the other writes of its issues
abbrev pub effects_ready : Store → Row → Bool
effects_ready s r =
    if reporting_notice r.kind r.payload
    then true
    else (if truthy (get_field (codes "content_action") r.payload)
        then independent_message r
          || not (any_true (λ i. unresolved_terminal s i r.id) (targets r.payload))
        else ordinary_ready s r)

abbrev pub marks_start : Send → Row → Bool
marks_start a r =
    a.terminal
    || (truthy (get_field (codes "terminal") r.payload)
        && in_kinds (codes "comment" ∷ codes "activity" ∷ []) r)
    || (in_kinds (codes "comment" ∷ codes "activity" ∷ []) r
        && is_history r.payload
        && truthy (get_field (codes "task_id") r.payload))
    || conversation_reply r.kind r.payload
    || in_kinds
        (codes "status" ∷ codes "description" ∷ codes "delegate" ∷ codes "project_update" ∷ []) r

abbrev pub or_fresh : Text → Text → Text
or_fresh [] fresh = fresh
or_fresh (c ∷ s) fresh = c ∷ s

abbrev pub attempt_of : Send → Text
attempt_of a = or_fresh a.mutation_attempt_id a.fresh

abbrev pub with_conversation : Send → Row → Fields → Fields
with_conversation a r payload =
    if conversation_reply r.kind r.payload && is_nonempty a.conversation_attempt_id
    then set_field (codes "conversation_attempt_id") (string a.conversation_attempt_id) payload
    else payload

abbrev pub started : Send → Row → Row
started a r = record r {
  payload = with_conversation a r (
      set_field (codes "mutation_attempt_id") (string (attempt_of a))
        (set_field (codes "write_started") (boolean true) r.payload));
}

abbrev pub allowed : Option Row → Bool
allowed none = false
allowed (some r) = unheld r

abbrev pub admit_held : Send → Row → Store → Bool × Store
admit_held a r h =
    if allowed (find_row a.row_id h.outbox) && row_ready h a r && effects_ready h r
    then (true, if marks_start a r then updated a.row_id (started a) h else h)
    else (false, h)

abbrev pub admit_found : Send → Option Row → Store → Bool × Store
admit_found a none s = (false, s)
admit_found a (some r) s =
    if same_state r.state pending then admit_held a r (hold_legacy (hold_legacy s)) else (false, s)

unfoldable pub admit_mutation : Send → Store → Bool × Store
admit_mutation a s = admit_found a (find_row a.row_id s.outbox) s

-- ===== src/Linear/Outbox/Withdrawal.antt =====
-- The marker of a send that was not attempted: `mutation_not_attempted` of store.py, and
-- `_sequence_native_history`, which it calls.
use hermes_fleet.Prelude.{
  Bool, true, false, ◌&&◌, ◌||◌, Option, none, some, List, [], ◌∷◌, if◌then◌else◌, list_eq, nat_eq,
  ◌==◌, nat_beq,
}
use hermes_fleet.Prelude.Dict.{get}
use hermes_fleet.Prelude.Text.{Text, codes}
use hermes_fleet.Prelude.Json.{Json, boolean, string, get_field, set_field, is_true}
use hermes_fleet.Linear.Outbox.Payload.{is_text, is_one, is_false}
use hermes_fleet.Linear.Outbox.Table.{pending, Row, Work, Store, unheld}
use hermes_fleet.Linear.Outbox.Operations.{same_state, find_row, updated}
use hermes_fleet.Linear.Outbox.Effects.{write_started, in_kinds, sql_equal}
use hermes_fleet.Linear.Outbox.Admission.{is_history}

-- `_sequence_native_history`: history that has not started waits for the task's latest pending status.
abbrev pub status_of : Text → Json → Row → Bool
status_of issue task r =
    r.kind == codes "status"
    && same_state r.state pending
    && unheld r
    && is_text issue (get_field (codes "issue_id") r.payload)
    && sql_equal (get_field (codes "task_id") r.payload) task

abbrev pub last_row : (Row → Bool) → List Row → Option Row
last_row p [] = none
last_row p (r ∷ rs) = elim (last_row p rs) [ some l ↦ some l | none ↦ if p r then some r else none ]

abbrev pub waits_for_status : Text → Json → Row → Bool
waits_for_status issue task r =
    same_state r.state pending
    && unheld r
    && in_kinds (codes "comment" ∷ codes "activity" ∷ []) r
    && nat_beq r.attempts 0
    && (is_one (get_field (codes "native_history") r.payload)
        || is_one (get_field (codes "native_progress") r.payload))
    && is_false (write_started r.payload)
    && is_text issue (get_field (codes "issue_id") r.payload)
    && sql_equal (get_field (codes "task_id") r.payload) task

abbrev pub wait_for : Text → Text → Json → List Row → List Row
wait_for key issue task [] = []
wait_for key issue task (r ∷ rs) =
    (if waits_for_status issue task r
      then record r { payload = set_field (codes "requires_status_id") (string key) r.payload }
      else r)
    ∷ wait_for key issue task rs

abbrev pub sequence_after : Store → Text → Json → Option Row → Store
sequence_after s issue task none = s
sequence_after s issue task (some status) = record s {
  outbox = wait_for status.id issue task s.outbox;
}

abbrev pub sequence_work : Store → Text → Option Work → Store
sequence_work s issue none = s
sequence_work s issue (some work) =
    if work.origin == codes "native"
    then sequence_after s issue work.task_id (last_row (status_of issue work.task_id) s.outbox)
    else s

abbrev pub sequence_history : Json → Store → Store
sequence_history (string issue) s = sequence_work s issue (get s.work issue)
sequence_history _ s = s

abbrev pub not_started : Row → Row
not_started r = record r { payload = set_field (codes "write_started") (boolean false) r.payload }

-- The row is pending, and the marker is of this attempt.
abbrev pub is_attempt : Text → Row → Bool
is_attempt attempt r =
    same_state r.state pending
    && is_true (write_started r.payload)
    && is_text attempt (get_field (codes "mutation_attempt_id") r.payload)

abbrev pub undo_start : Text → Row → Store → Store
undo_start key r s =
    let restored = updated key not_started s in
    if is_history r.payload
    then sequence_history (get_field (codes "issue_id") r.payload) restored
    else restored

abbrev pub undo_found : Text → Text → Option Row → Store → Bool × Store
undo_found key attempt none s = (false, s)
undo_found key attempt (some r) s =
    if is_attempt attempt r then (true, undo_start key r s) else (false, s)

unfoldable pub mutation_not_attempted : Text → Text → Store → Bool × Store
mutation_not_attempted key attempt s = undo_found key attempt (find_row key s.outbox) s

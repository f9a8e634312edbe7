-- ===== src/Linear/Outbox/Examples.antt =====
-- An outbox with a report that depends on a retained delivery, and what the operations do with it.
use mathlib.Core.Bool.{false≢true}
use hermes_fleet.Prelude.{
  Bool, ℕ, ◌+◌, ◌<◌, ◌≡◌, ◌≤◌, refl, inl, inr, true, false, none, some, List, [], ◌∷◌, ◌++◌, nat_eq,
  list_eq, list_beq_iff,
}
use hermes_fleet.Prelude.Dict
use hermes_fleet.Prelude.Text.{Text, codes}
use hermes_fleet.Prelude.Json.{
  Json, null, boolean, number, string, object, Fields, field, no_fields, set_field,
}
use hermes_fleet.Linear.Outbox.Payload.{
  unlinked_content, conversation_reply, reporting_notice, targets, dependencies, SameOrNull,
  advisory_sql, advisory_sql_lem,
}
use hermes_fleet.Linear.Outbox.Table.{
  pending, execution_derived, Row, Store, delivery_hold_reason, hold_legacy,
}
use hermes_fleet.Linear.Outbox.Holding.{Closed, Verified, AllKept, hold_legacy_lem}
use hermes_fleet.Linear.Outbox.Operations.{retry, find_row, count_or_zero, count_at}
use hermes_fleet.Linear.Outbox.Fenced
use hermes_fleet.Linear.Outbox.Fenced.{StaysHeld, apply_all-StaysHeld}
use hermes_fleet.Linear.Outbox.Prompts
use hermes_fleet.Linear.Outbox.Prompts.{
  reserve_prompt_answer, release_prompt_answer, prompt_disposition, ordinary, first_value,
  one_answer, released_is_ordinary, Prompt,
}
use hermes_fleet.Linear.Outbox.Timing.{Retried, retry_lem, revived-again}
use hermes_fleet.Linear.Outbox.Due.{due}
use hermes_fleet.Linear.Outbox.Order.{due-oldest}
use hermes_fleet.Linear.Outbox.Effects.{uncertain}
use hermes_fleet.Linear.Outbox.Admission.{Send, admit_mutation}
use hermes_fleet.Linear.Outbox.Withdrawal.{mutation_not_attempted}
use hermes_fleet.Linear.Outbox.Blocking.{second_effect_refused, one_unattempted_send}
use hermes_fleet.Linear.Outbox.Undo.{own_marker_only, Unstarted}

abbrev fields : List (Text × Json) → Fields
fields [] = no_fields
fields ((k, j) ∷ rest) = field k j (fields rest)

abbrev at : Text → Text → Text × Json
at k s = (k, string s)

abbrev row : Text → Text → List (Text × Json) → ℕ → Row
row id kind payload rowid = record {
  id = id;
  kind = kind;
  payload = fields payload;
  attempts = 0;
  next_at = 100;
  state = pending;
  hold = none;
  rowid = rowid;
}

-- A retained release, and a status of the bound task that depends on it; a comment of its own, and another
-- status of the same task.
abbrev release : Row
release =
    row (codes "a") (codes "status")
      (at (codes "issue_id") (codes "I") ∷ (codes "release", boolean true) ∷ []) 1

abbrev dependent : Row
dependent =
    row (codes "b") (codes "status")
      (at (codes "issue_id") (codes "I")
        ∷ at (codes "task_id") (codes "T")
        ∷ at (codes "requires_status_id") (codes "a")
        ∷ [])
      2

abbrev status : Row
status =
    row (codes "c") (codes "status")
      (at (codes "issue_id") (codes "I")
        ∷ at (codes "task_id") (codes "T")
        ∷ (codes "enqueued_at", number 100)
        ∷ [])
      3

abbrev comment : Row
comment =
    row (codes "d") (codes "comment")
      (at (codes "issue_id") (codes "I") ∷ at (codes "task_id") (codes "T") ∷ []) 4

abbrev store : Store
store = record {
  outbox = release ∷ dependent ∷ status ∷ comment ∷ [];
  work =
      (
        codes "I",
        record { origin = codes "native"; task_id = string (codes "T"); ownership_id = null },
      )
      ∷ [];
  metadata =
      (
        codes "native-binding:I",
        object (
            fields (
              at (codes "issue_id") (codes "I")
              ∷ at (codes "task_id") (codes "T")
              ∷ at (codes "profile") (codes "p")
              ∷ at (codes "board") (codes "b")
              ∷ [])),
      )
      ∷ [];
  fenced = [];
}

hold_legacy_lem_example :
    Closed (hold_legacy store).outbox
    × Verified store (hold_legacy store).outbox
    × AllKept store.outbox (hold_legacy store).outbox
hold_legacy_lem_example = hold_legacy_lem store

-- A thought that is kept as a native reply is not advisory by its type.
abbrev thought : Fields
thought = fields (
    (codes "content", object (fields (at (codes "type") (codes "thought") ∷ [])))
    ∷ (codes "native_reply_version", number 1)
    ∷ (codes "one_try", boolean true)
    ∷ (codes "write_started", boolean false)
    ∷ [])

advisory_sql_lem_example : SameOrNull (codes "activity") thought
advisory_sql_lem_example = advisory_sql_lem (codes "activity") thought tt tt

abbrev held_release : Row
held_release = record release { hold = some execution_derived }

abbrev held : Store
held = record store { outbox = held_release ∷ status ∷ [] }

abbrev calls : List Fenced.Call
calls =
    Fenced.marks_sent (codes "a") true
    ∷ Fenced.retries status 200 none
    ∷ Fenced.revives 5000
    ∷ Fenced.drops (codes "a")
    ∷ []

apply_all-StaysHeld_example : StaysHeld held_release (Fenced.apply_all calls held).outbox
apply_all-StaysHeld_example = apply_all-StaysHeld calls held_release held (inl refl) refl

retry_lem_example :
    (out : Bool × Store) × (q : Row) × (retry status 200 none store ≡ some out)
    × (find_row (codes "c") out.1.outbox ≡ some q)
    × (q.attempts ≡ 1)
    × Retried 0 200 100 status q out.0
unfolding hold_legacy delivery_hold_reason unlinked_content conversation_reply reporting_notice
    targets dependencies Dict.get
retry_lem_example = retry_lem status 200 100 none store status refl refl refl

revived-again_example :
    (100 + 3600 ≤ 4000) × (count_or_zero (count_at (codes "revivals") status.payload) + 1 < 3)
unfolding advisory_sql set_field
revived-again_example = revived-again 100 4000 1 none [] status refl

abbrev joined : List Text → Text
joined [] = []
joined (s ∷ ss) = s ++ (b',' ∷ joined ss)

abbrev prompt : Prompt
prompt = (codes "I", (codes "S", codes "A"))

abbrev answers : List Prompts.Call
answers =
    Prompts.releases prompt (codes "t")
    ∷ Prompts.remembers prompt
    ∷ Prompts.reserves prompt (codes "v")
    ∷ []

one_answer_example :
    (reserve_prompt_answer joined prompt
      (codes "u")
      (Prompts.apply_all joined answers (reserve_prompt_answer joined prompt (codes "t") []).1)).0
    ≡ none
unfolding reserve_prompt_answer first_value Dict.get Dict.put
one_answer_example =
    one_answer joined prompt (codes "t") (codes "u") answers [] refl
      (λ e. false≢true ((list_beq_iff (codes "u") (codes "t")).1 e))
      (λ e. false≢true ((list_beq_iff (codes "u") ordinary).1 e))

released_is_ordinary_example :
    prompt_disposition joined prompt (
      Prompts.apply_all joined answers (
        release_prompt_answer joined prompt
          (codes "t")
          (reserve_prompt_answer joined prompt (codes "t") []).1))
    ≡ some ordinary
unfolding reserve_prompt_answer first_value Dict.get Dict.put
released_is_ordinary_example = released_is_ordinary joined prompt (codes "t") answers [] refl

due-oldest_example : 3 ≤ 4
unfolding due hold_legacy delivery_hold_reason unlinked_content conversation_reply reporting_notice
    targets dependencies advisory_sql Dict.get
due-oldest_example =
    due-oldest 200 store status comment (inl refl) refl (inr (inr (inr (inl refl)))) refl refl

abbrev send : Text → Text → Send
send id attempt = record {
  row_id = id;
  terminal = false;
  expected_content = none;
  conversation_attempt_id = [];
  require_unattempted = true;
  mutation_attempt_id = attempt;
  fresh = codes "f";
}

-- A status whose sender has saved that no send of it has begun
abbrev unsent : Row
unsent = record status {
  payload = fields (
      at (codes "issue_id") (codes "I")
      ∷ at (codes "task_id") (codes "T")
      ∷ (codes "write_started", boolean false)
      ∷ []);
}

abbrev sending : Store
sending = record store { outbox = unsent ∷ comment ∷ [] }

second_effect_refused_example :
    (admit_mutation
      (send (codes "d") (codes "v"))
      (admit_mutation (send (codes "c") (codes "u")) sending).1).0
    ≡ false
unfolding admit_mutation uncertain hold_legacy delivery_hold_reason unlinked_content
    conversation_reply reporting_notice targets dependencies Dict.get set_field
second_effect_refused_example =
    second_effect_refused (send (codes "c") (codes "u")) (send (codes "d") (codes "v")) unsent
      comment (codes "I") sending refl refl refl refl refl refl refl refl refl refl refl refl

one_unattempted_send_example :
    (admit_mutation
      (send (codes "c") (codes "v"))
      (admit_mutation (send (codes "c") (codes "u")) sending).1).0
    ≡ false
unfolding admit_mutation uncertain hold_legacy delivery_hold_reason unlinked_content
    conversation_reply reporting_notice targets dependencies Dict.get set_field
one_unattempted_send_example =
    one_unattempted_send (send (codes "c") (codes "u")) (send (codes "c") (codes "v")) unsent
      sending refl refl refl refl refl

own_marker_only_example :
    ((mutation_not_attempted
        (codes "c")
        (codes "u")
        (admit_mutation (send (codes "c") (codes "u")) sending).1).0
      ≡ true)
    × Unstarted
        (codes "c")
        (mutation_not_attempted
          (codes "c")
          (codes "u")
          (admit_mutation (send (codes "c") (codes "u")) sending).1).1.outbox
    × (mutation_not_attempted
          (codes "c")
          (codes "v")
          (admit_mutation (send (codes "c") (codes "u")) sending).1
        ≡ (false, (admit_mutation (send (codes "c") (codes "u")) sending).1))
unfolding admit_mutation uncertain hold_legacy delivery_hold_reason unlinked_content
    conversation_reply reporting_notice targets dependencies Dict.get set_field
own_marker_only_example =
    own_marker_only (send (codes "c") (codes "u")) unsent sending (codes "v") refl refl refl refl

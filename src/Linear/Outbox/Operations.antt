-- ===== src/Linear/Outbox/Operations.antt =====
-- The operations of store.py on rows of the outbox. Times are whole numbers of seconds.
use hermes_fleet.Prelude.{
  ◌-◌, ℕ, ◌+◌, ◌*◌, ◌^◌, min, Bool, true, false, ◌&&◌, ◌||◌, not, Option, none, some, List, [], ◌∷◌,
  if◌then◌else◌, list_eq, nat_eq, ◌==◌, leb, ltb, nat_beq, any_true,
}
use hermes_fleet.Prelude.Text.{Text, codes}
use hermes_fleet.Prelude.Json.{
  lookup, Json, number, string, object, Fields, get_field, set_field, as_int, json_beq,
}
use hermes_fleet.Linear.Outbox.Payload.{
  is_text, is_null, is_one, conversation_reply, targets, advisory_sql,
}
use hermes_fleet.Linear.Outbox.Table.{
  State, pending, sent, failed, Row, Store, admitted, unheld, hold_legacy,
}

abbrev pub same_state : State → State → Bool
same_state pending pending = true
same_state sent sent = true
same_state failed failed = true
same_state _ _ = false

-- `SELECT ... WHERE id=?`
abbrev pub find_row : Text → List Row → Option Row
find_row key [] = none
find_row key (r ∷ rs) = if r.id == key then some r else find_row key rs

-- `UPDATE outbox SET ... WHERE id=?`
abbrev pub update_row : Text → (Row → Row) → List Row → List Row
update_row key f [] = []
update_row key f (r ∷ rs) =
    let rest = update_row key f rs in if r.id == key then f r ∷ rs else r ∷ rest

-- `DELETE FROM outbox WHERE id=?`
abbrev pub delete_row : Text → List Row → List Row
delete_row key [] = []
delete_row key (r ∷ rs) = let rest = delete_row key rs in if r.id == key then rs else r ∷ rest

abbrev pub updated : Text → (Row → Row) → Store → Store
updated key f s = record s { outbox = update_row key f s.outbox }

abbrev pub row_free : Store → Option Row → Bool
row_free s none = false
row_free s (some r) =
    unheld r && (conversation_reply r.kind r.payload || admitted s (targets r.payload))

-- `_row_admitted`, after the holding that it starts with
abbrev pub row_admitted : Store → Text → Bool
row_admitted s key = row_free s (find_row key s.outbox)

-- `if not self._row_admitted(...): return`, and the change
abbrev pub if_admitted : Text → (Store → Store) → Store → Store
if_admitted key f s = let h = hold_legacy s in if row_admitted h key then f h else h

abbrev pub noted : Option Text → Fields → Fields
noted none payload = payload
noted (some error) payload = set_field (codes "last_error") (string error) payload

abbrev pub rejected : State → Fields → Fields
rejected failed payload = set_field (codes "failure_kind") (string (codes "rejected")) payload
rejected _ payload = payload

abbrev pub marked : State → Option Text → Row → Row
marked state error r = record r { state = state; payload = noted error (rejected state r.payload) }

unfoldable pub mark : Text → State → Option Text → Store → Store
mark key state error = if_admitted key (updated key (marked state error))

abbrev pub sent_as : Bool → Row → Row
sent_as applied r = record r {
  state = sent;
  payload = set_field (codes "applied") (number (if applied then 1 else 0)) r.payload;
}

unfoldable pub mark_sent : Text → Bool → Store → Store
mark_sent key applied = if_admitted key (updated key (sent_as applied))

abbrev pub without : Text → Store → Store
without key s = record s { outbox = delete_row key s.outbox }

unfoldable pub drop : Text → Store → Store
drop key = if_admitted key (without key)

abbrev pub deferred : ℕ → Row → Row
deferred until r = record r { next_at = until }

unfoldable pub defer : Text → ℕ → Store → Store
defer key until = if_admitted key (updated key (deferred until))

abbrev pub reported : Row → Row
reported r = record r { payload = set_field (codes "reported") (number 1) r.payload }

unfoldable pub report : Text → Store → Store
report key = if_admitted key (updated key reported)

-- A payload that a caller hands over is admitted as its kind and targets are.
abbrev pub new_payload_free : Store → Option Row → Fields → Bool
new_payload_free s none payload = false
new_payload_free s (some r) payload =
    conversation_reply r.kind payload || admitted s (targets payload)

abbrev pub rewritten : Fields → ℕ → Row → Row
rewritten payload next_at r = record r { payload = payload; next_at = next_at }

abbrev pub if_new_free : Text → Fields → ℕ → Store → Store
if_new_free key payload next_at s =
    if new_payload_free s (find_row key s.outbox) payload
    then updated key (rewritten payload next_at) s
    else s

unfoldable pub rewrite : Text → Fields → ℕ → Store → Store
rewrite key payload next_at = if_admitted key (if_new_free key payload next_at)

abbrev pub sql_true : Option Bool → Bool
sql_true (some b) = b
sql_true none = false

abbrev pub sql_false : Option Bool → Bool
sql_false (some b) = not b
sql_false none = false

abbrev pub is_object : Json → Bool
is_object (object fs) = true
is_object _ = false

-- A due, unsent thought is retired; a step of a worker that may have been sent is not.
abbrev pub retires : ℕ → Row → Bool
retires now r =
    same_state r.state pending
    && unheld r
    && leb r.next_at now
    && sql_true (advisory_sql r.kind r.payload)
    && not (
        is_object (get_field (codes "worker_step") r.payload)
        && is_one (get_field (codes "write_started") r.payload))

abbrev pub retired : ℕ → Row → Row
retired now r = if retires now r then record r { state = failed } else r

unfoldable pub retire_advisory : Text → ℕ → Store → Store
retire_advisory key now = updated key (retired now)

abbrev pub min_backoff : ℕ
min_backoff = 60

abbrev pub max_backoff : ℕ
max_backoff = 3600

abbrev pub give_up_after : ℕ
give_up_after = 86400

abbrev pub read_digits : Text → ℕ → Option ℕ
read_digits [] n = some n
read_digits (c ∷ s) n = if leb 48 c && leb c 57 then read_digits s (10 * n + (c - 48)) else none

-- `float(j)`, or none where it raises; of a text, that of one that is not all digits.
unfoldable pub read_time : Json → Option ℕ
read_time (string []) = none
read_time (string (c ∷ s)) = read_digits (c ∷ s) 0
read_time j = as_int j

-- `float(payload.get("enqueued_at", now))`
abbrev pub enqueued_at : Fields → ℕ → Option ℕ
enqueued_at payload now = elim (lookup (codes "enqueued_at") payload) [
  | some j ↦ read_time j
  | none ↦ some now
]

abbrev pub timed_out : Option Text → Fields → Fields
timed_out error payload =
    set_field (codes "failure_kind") (string (codes "timeout")) (noted error payload)

abbrev pub gives_up : ℕ → ℕ → Bool
gives_up since now = leb (since + give_up_after) now

abbrev pub given_up : ℕ → Option Text → Row → Row
given_up attempts error r = record r {
  state = failed;
  attempts = attempts + 1;
  payload = timed_out error r.payload;
}

abbrev pub give_up : Row → Option Text → Store → Store
give_up row error = if_admitted row.id (updated row.id (given_up row.attempts error))

abbrev pub delay : Row → ℕ
delay row = min (min_backoff * 2 ^ row.attempts) max_backoff

abbrev pub backed_off : ℕ → ℕ → Row → Row
backed_off attempts next_at r = record r { attempts = attempts + 1; next_at = next_at }

abbrev pub back_off : Row → ℕ → Store → Store
back_off row now = if_admitted row.id (updated row.id (backed_off row.attempts (now + delay row)))

abbrev pub retry_since : ℕ → Row → ℕ → Option Text → Store → Bool × Store
retry_since since row now error s =
    if gives_up since now
    then (row_admitted (hold_legacy s) row.id, give_up row error s)
    else (false, back_off row now s)

abbrev pub retry_read : Option ℕ → Row → ℕ → Option Text → Store → Option (Bool × Store)
retry_read none row now error s = none
retry_read (some since) row now error s = some (retry_since since row now error s)

-- `retry` of a row as its caller read it: what it returns is whether the row was given up. A time that `float`
-- refuses raises before the store is opened.
unfoldable pub retry : Row → ℕ → Option Text → Store → Option (Bool × Store)
unfolding read_time
retry row now error s = retry_read (enqueued_at row.payload now) row now error s

-- The store behind the call
abbrev pub store_or : Option (Bool × Store) → Store → Store
store_or none s = s
store_or (some out) s = out.1

abbrev pub revive_limit : ℕ
revive_limit = 3

abbrev pub revive_every : ℕ
revive_every = 3600

-- `COALESCE(json_extract(payload, ...), 0)`, where it is a number
abbrev pub count_at : Text → Fields → Option ℕ
count_at key payload = let j = get_field key payload in if is_null j then some 0 else as_int j

abbrev pub below : Option ℕ → ℕ → Bool
below none limit = false
below (some n) limit = ltb n limit

abbrev pub rested : Json → ℕ → Bool
rested j now = is_null j || elim (as_int j) [ none ↦ false | some t ↦ leb (t + revive_every) now ]

abbrev pub zero_at : Text → Fields → Bool
zero_at key payload = elim (count_at key payload) [ none ↦ false | some n ↦ nat_beq n 0 ]

-- `json_extract(a, '$.issue_id') = json_extract(b, '$.issue_id')`, which a missing id does not satisfy
abbrev pub same_issue : Fields → Fields → Bool
same_issue a b =
    let i = get_field (codes "issue_id") a in
    let j = get_field (codes "issue_id") b in not (is_null i || is_null j) && json_beq i j

abbrev pub superseded_by : Row → List Row → Bool
superseded_by r table =
    any_true
      (λ l. l.kind == codes "status" && ltb r.rowid l.rowid && same_issue l.payload r.payload) table

-- Failed after an attempt, and not because Linear refused it
abbrev pub failed_unsure : Row → Bool
failed_unsure r =
    same_state r.state failed
    && unheld r
    && ltb 0 r.attempts
    && not (is_text (codes "rejected") (get_field (codes "failure_kind") r.payload))

abbrev pub in_time : ℕ → Row → Bool
in_time now r =
    below (count_at (codes "revivals") r.payload) revive_limit
    && rested (get_field (codes "revived_at") r.payload) now

abbrev pub worth_another : List Row → Row → Bool
worth_another table r =
    zero_at (codes "reconcile_required") r.payload
    && sql_false (advisory_sql r.kind r.payload)
    && not (r.kind == codes "status" && superseded_by r table)

abbrev pub may_revive : ℕ → List Row → Row → Bool
may_revive now table r = (failed_unsure r && in_time now r) && worth_another table r

abbrev pub count_or_zero : Option ℕ → ℕ
count_or_zero none = 0
count_or_zero (some n) = n

abbrev pub revived : ℕ → Row → Row
revived now r = record r {
  state = pending;
  next_at = now;
  payload = set_field (codes "revived_at") (number now) (
      set_field (codes "revivals")
        (number (count_or_zero (count_at (codes "revivals") r.payload) + 1)) r.payload);
}

-- The rows are chosen before any is changed.
abbrev pub revive_rows : Store → ℕ → List Row → List Row → List Row
revive_rows s now table [] = []
revive_rows s now table (r ∷ rs) =
    (if may_revive now table r && admitted s (targets r.payload) then revived now r else r)
    ∷ revive_rows s now table rs

unfoldable pub revive_failed : ℕ → Store → Store
revive_failed now s =
    let h = hold_legacy s in record h { outbox = revive_rows h now h.outbox h.outbox }

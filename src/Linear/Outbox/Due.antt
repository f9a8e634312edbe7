-- ===== src/Linear/Outbox/Due.antt =====
-- `due` of store.py: the rows to send now, in order.
use hermes_fleet.Prelude.{
  ℕ, Bool, true, false, ◌&&◌, ◌||◌, not, Option, none, some, List, [], ◌∷◌, ◌++◌, if◌then◌else◌,
  list_eq, nat_eq, ◌==◌, any_true, ltb, leb, nat_beq,
}
use hermes_fleet.Prelude.Text.{Text, codes}
use hermes_fleet.Prelude.Json.{Json, Fields, lookup, get_field, json_beq}
use hermes_fleet.Linear.Outbox.Payload.{is_text, is_null, is_one, advisory_sql}
use hermes_fleet.Linear.Outbox.Table.{pending, sent, failed, Row, Store, unheld, hold_legacy}
use hermes_fleet.Linear.Outbox.Operations.{same_state, sql_true, sql_false, same_issue, is_object}

abbrev pub requires : Row → Json
requires r = get_field (codes "requires_status_id") r.payload

-- `EXISTS (SELECT 1 FROM outbox h WHERE h.id=... AND ...)`
abbrev pub some_row : List Row → Json → (Row → Bool) → Bool
some_row table key p = any_true (λ h. is_text h.id key && p h) table

-- A dependency that wants reconciling holds a row back; a project update, only where it is of the issue.
abbrev pub wants_reconciling : Row → Row → Bool
wants_reconciling r h =
    is_one (get_field (codes "reconcile_required") h.payload)
    && (not (r.kind == codes "project_update") || same_issue r.payload h.payload)

abbrev pub later_sent : List Row → Row → Bool
later_sent table s =
    any_true
      (λ l.
        l.kind == codes "status"
        && same_state l.state sent
        && ltb s.rowid l.rowid
        && same_issue l.payload s.payload)
      table

-- Sent, or failed without an attempt, or failed with a later status of the issue sent
abbrev pub settled : List Row → Row → Bool
settled table s =
    same_state s.state sent
    || (same_state s.state failed && (nat_beq s.attempts 0 || later_sent table s))

-- `COALESCE(..., '') = ''`
abbrev pub no_text : Json → Bool
no_text j = is_null j || is_text [] j

abbrev pub eligible : List Row → Row → Bool
eligible table r =
    unheld r
    && not (some_row table (requires r) (wants_reconciling r))
    && (r.kind == codes "project_update"
        || no_text (requires r)
        || some_row table (requires r) (settled table))

-- `json_type(payload, ...) IS NULL`
abbrev pub absent : Text → Fields → Bool
absent key payload = elim (lookup key payload) [ none ↦ true | some j ↦ false ]

-- Only an undecided send of an older version is taken up again, to be read back.
abbrev pub undecided : Row → Bool
undecided r =
    same_state r.state failed
    && r.kind == codes "activity"
    && unheld r
    && ((is_one (get_field (codes "native_reply_version") r.payload)
          && is_one (get_field (codes "one_try") r.payload))
        || is_object (get_field (codes "worker_step") r.payload))
    && is_one (get_field (codes "write_started") r.payload)
    && absent (codes "failure_kind") r.payload
    && absent (codes "applied") r.payload

abbrev pub taken_up : List Row → List Row
taken_up [] = []
taken_up (r ∷ rs) = (if undecided r then record r { state = pending } else r) ∷ taken_up rs

abbrev pub is_pending : List Row → Row → Bool
is_pending table r = same_state r.state pending && eligible table r

-- A write that goes out in its order
abbrev pub ordered : List Row → Row → Bool
ordered table p =
    is_pending table p
    && sql_false (advisory_sql p.kind p.payload)
    && not (is_one (get_field (codes "worker_step_repair") p.payload))
    && not (is_one (get_field (codes "native_outcome_pointer") p.payload))

-- `json_extract(p.payload, '$.issue_id') IS json_extract(o.payload, '$.issue_id')`
abbrev pub of_issue : Row → Row → Bool
of_issue o p =
    json_beq (get_field (codes "issue_id") p.payload) (get_field (codes "issue_id") o.payload)

abbrev pub smaller : ℕ → Option ℕ → Option ℕ
smaller n none = some n
smaller n (some m) = some (if leb n m then n else m)

-- `SELECT MIN(p.rowid) FROM outbox p WHERE ...`
abbrev pub oldest : List Row → Row → List Row → Option ℕ
oldest table o [] = none
oldest table o (p ∷ ps) =
    let rest = oldest table o ps in
    if ordered table p && of_issue o p then smaller p.rowid rest else rest

abbrev pub is_oldest : ℕ → Option ℕ → Bool
is_oldest n none = false
is_oldest n (some m) = nat_beq n m

-- Thoughts, native messages and the pointer of an outcome wait for no write of an issue.
abbrev pub unordered : Row → Bool
unordered o =
    sql_true (advisory_sql o.kind o.payload)
    || (o.kind == codes "activity"
        && (is_one (get_field (codes "native_reply_version") o.payload)
            || is_one (get_field (codes "native_outcome_pointer") o.payload)))

abbrev pub is_due : ℕ → List Row → Row → Bool
is_due now table o =
    (is_pending table o && leb o.next_at now)
    && (unordered o || is_oldest o.rowid (oldest table o table))

abbrev pub select_due : ℕ → List Row → List Row → List Row
select_due now table [] = []
select_due now table (o ∷ os) =
    let rest = select_due now table os in if is_due now table o then o ∷ rest else rest

-- `ORDER BY COALESCE(initial_ack, 0) DESC, rowid`
abbrev pub first_acks : List Row → List Row
first_acks [] = []
first_acks (r ∷ rs) =
    let rest = first_acks rs in
    if is_one (get_field (codes "initial_ack") r.payload) then r ∷ rest else rest

abbrev pub no_acks : List Row → List Row
no_acks [] = []
no_acks (r ∷ rs) =
    let rest = no_acks rs in
    if is_one (get_field (codes "initial_ack") r.payload) then rest else r ∷ rest

abbrev pub in_order : List Row → List Row
in_order rs = first_acks rs ++ no_acks rs

unfoldable pub due : ℕ → Store → List Row × Store
due now s =
    let h = hold_legacy s in
    let table = taken_up h.outbox in
    (in_order (select_due now table table), record h { outbox = table })

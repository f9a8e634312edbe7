-- ===== src/Linear/Outbox/Table.antt =====
-- The tables of store.py, and the holding of old deliveries: `_admitted`, `_delivery_hold_reason` and
-- `_hold_legacy_outbox`. A row's id is the primary key. A table stands in the order of its rowids, and the values
-- of "metadata" that are JSON texts stand decoded.
use hermes_fleet.Prelude.{
  ℕ, zero, suc, Bool, true, false, ◌&&◌, ◌||◌, not, Option, none, some, List, [], ◌∷◌, ◌++◌,
  if◌then◌else◌, list_eq, nat_eq, ◌==◌, any_true, all_true, contains,
}
use hermes_fleet.Prelude.Dict.{Dict, get}
use hermes_fleet.Prelude.Text.{Text, codes}
use hermes_fleet.Prelude.Json.{Json, object, Fields, get_field, truthy, json_beq}
use hermes_fleet.Linear.Outbox.Payload.{
  is_text, any_field, execution_keys, unlinked_content, reporting_notice, targets, dependencies,
}

pub data State : Type 0 where
  pending sent failed : State

-- Why a row is held.
pub data Hold : Type 0 where
  execution_derived unverified missing_work other_binding no_binding dependency : Hold

-- A row of "outbox"
pub record Row : Type 0 where
  pub id : Text
  pub kind : Text
  pub payload : Fields
  pub attempts : ℕ
  pub next_at : ℕ
  pub state : State
  pub hold : Option Hold
  pub rowid : ℕ

-- What is read of a row of "work"
pub record Work : Type 0 where
  pub origin : Text
  pub task_id : Json
  pub ownership_id : Json

pub record Store : Type 0 where
  pub outbox : List Row
  pub work : Dict Text Work
  pub metadata : Dict Text Json
  -- "specialist_scope_fence"
  pub fenced : List Text

abbrev pub admitted : Store → List Text → Bool
admitted s issues = all_true (λ i. not (contains i s.fenced)) issues

abbrev pub bound : Text → Work → Json → Bool
bound issue work (object saved) =
    is_text issue (get_field (codes "issue_id") saved)
    && json_beq (get_field (codes "task_id") saved) work.task_id
    && truthy (get_field (codes "profile") saved)
    && truthy (get_field (codes "board") saved)
bound issue work _ = false

abbrev pub native_work : Option Work → Option Json → Option (Work × Json)
native_work (some work) (some saved) =
    if work.origin == codes "native" then some (work, saved) else none
native_work _ _ = none

-- One target: a reason, or does the payload's task match?
pub data Look : Type 0 where
  refused : Hold → Look
  seen : Bool → Look

abbrev pub look_bound : Text → Text → Fields → Option (Work × Json) → Look
look_bound kind issue payload none = refused missing_work
look_bound kind issue payload (some (work, saved)) =
    let same = json_beq (get_field (codes "task_id") payload) work.task_id in
    if not (bound issue work saved)
    then refused other_binding
    else (if not (kind == codes "project_update") && not same
        then refused other_binding
        else seen same)

abbrev pub look : Store → Text → Fields → Text → Look
look s kind payload issue =
    look_bound kind issue payload
      (native_work (get s.work issue) (get s.metadata (codes "native-binding:" ++ issue)))

abbrev pub look_all : Store → Text → Fields → List Text → Bool → Option Hold
look_all s kind payload [] matched = if matched then none else some no_binding
look_all s kind payload (i ∷ is) matched = elim (look s kind payload i) [
  | refused h ↦ some h
  | seen b ↦ look_all s kind payload is (matched || b)
]

abbrev pub no_targets : List Text → Bool
no_targets [] = true
no_targets (i ∷ is) = false

unfoldable pub delivery_hold_reason : Store → Text → Fields → Option Hold
unfolding unlinked_content reporting_notice targets get
delivery_hold_reason s kind payload =
    if unlinked_content kind payload
    then none
    else (if any_field execution_keys payload
        then some execution_derived
        else (if reporting_notice kind payload
            then none
            else (if no_targets (targets payload)
                  || not (truthy (get_field (codes "task_id") payload))
                then some unverified
                else look_all s kind payload (targets payload) false)))

-- `hold_reason IS NULL`
abbrev pub unheld : Row → Bool
unheld r = elim r.hold [ none ↦ true | some h ↦ false ]

abbrev pub held_by : Option Hold → Hold → Row → Row
held_by (some h) reason r = r
held_by none reason r = record r { hold = some reason }

abbrev pub with_reason : Option Hold → Row → Row
with_reason none r = r
with_reason (some reason) r = held_by r.hold reason r

-- The first loop, over the rows without a reason
abbrev pub hold_unverified : Store → List Row → List Row
hold_unverified s [] = []
hold_unverified s (r ∷ rs) =
    with_reason (delivery_hold_reason s r.kind r.payload) r ∷ hold_unverified s rs

-- Is there a held row of this id?
abbrev pub held_id : List Row → Text → Bool
held_id [] key = false
held_id (r ∷ rs) key = (r.id == key && not (unheld r)) || held_id rs key

-- `UPDATE outbox SET hold_reason=? WHERE id=?`
abbrev pub set_hold : Text → List Row → List Row
set_hold key [] = []
set_hold key (r ∷ rs) =
    (if r.id == key then record r { hold = some dependency } else r) ∷ set_hold key rs

abbrev pub unheld_rows : List Row → List Row
unheld_rows [] = []
unheld_rows (r ∷ rs) = let rest = unheld_rows rs in if unheld r then r ∷ rest else rest

abbrev pub depends_held : List Row → Row → Bool
depends_held table r = any_true (held_id table) (dependencies r.payload)

-- One pass: the rows were read before it, and each test sees what the pass has changed.
abbrev pub pass : List Row → List Row → Bool → List Row × Bool
pass [] table changed = (table, changed)
pass (r ∷ rs) table changed =
    let held = depends_held table r in
    pass rs (if held then set_hold r.id table else table) (held || changed)

-- The `while` loop, on a bound for its passes
abbrev pub hold_loop : ℕ → List Row → List Row
hold_loop zero table = table
hold_loop (suc n) table =
    let (after, changed) = pass (unheld_rows table) table false in
    let rest = hold_loop n after in if changed then rest else after

abbrev pub count_unheld : List Row → ℕ
count_unheld [] = 0
count_unheld (r ∷ rs) = let n = count_unheld rs in if unheld r then suc n else n

unfoldable pub hold_legacy : Store → Store
hold_legacy s =
    let first = hold_unverified s s.outbox in
    record s { outbox = hold_loop (suc (count_unheld first)) first }

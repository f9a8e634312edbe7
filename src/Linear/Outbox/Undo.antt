-- ===== src/Linear/Outbox/Undo.antt =====
-- `mutation_not_attempted` of store.py after `admit_mutation`: a sender takes back its own marker alone.
use mathlib.Core.Path.{subst}
use hermes_fleet.Prelude.{
  ◌≡◌, refl, sym, ap, ◌∙◌, inl, inr, Bool, true, false, ◌&&◌, Option, none, some, List, [], ◌∷◌,
  if◌then◌else◌, if_split, by_test, arith, list_eq, nat_eq, ◌==◌, ==_refl,
}
use hermes_fleet.Prelude.Dict.{get}
use hermes_fleet.Prelude.Text.{Text, codes}
use hermes_fleet.Prelude.Json.{
  Json, null, boolean, number, string, array, object, get_field, set_field, is_true,
  get_field-set_field,
}
use hermes_fleet.Linear.Outbox.Payload.{is_text}
use hermes_fleet.Linear.Outbox.Table.{Row, Work, Store, pending}
use hermes_fleet.Linear.Outbox.Operations.{same_state, find_row, updated}
use hermes_fleet.Linear.Outbox.Timing.{find_row-update_row}
use hermes_fleet.Linear.Outbox.Effects.{write_started}
use hermes_fleet.Linear.Outbox.Admission.{Send, marks_start, attempt_of, admit_mutation, is_history}
use hermes_fleet.Linear.Outbox.Withdrawal.{
  waits_for_status, wait_for, last_row, status_of, sequence_after, sequence_work, sequence_history,
  not_started, is_attempt, undo_start, undo_found, mutation_not_attempted,
}
use hermes_fleet.Linear.Outbox.Marker.{
  admit_mutation-Marked, started-write_started, started-attempt,
}

-- The row of an id is one whose send has not begun.
abbrev pub Unstarted : Text → List Row → Type 0
Unstarted key t = (q : Row) × (find_row key t ≡ some q) × (write_started q.payload ≡ boolean false)

module _ (key : Text) where
  wait_for-Unstarted :
      (id issue : Text) (task : Json) (t : List Row)
      → Unstarted key t
      → Unstarted key (wait_for id issue task t)
  wait_for-Unstarted id issue task [] u = u
  wait_for-Unstarted id issue task (p ∷ ps) (q, found, off) =
      let rest = wait_for id issue task ps in
      let Out : Row → Type 0 = λ x. Unstarted key (x ∷ rest) in
      let waiting = record p {
        payload = set_field (codes "requires_status_id") (string id) p.payload;
      } in
      elim (if_split (p.id == key) (some p) (find_row key ps) (some q) found) [
        | inl (t, g) ↦
            let first : p ≡ q = cc in
            let off_p : write_started p.payload ≡ boolean false =
              ap (λ (r : Row). write_started r.payload) first ∙ off in
            let here : (x : Row) → x.id ≡ p.id → write_started x.payload ≡ boolean false → Out x =
              λ x i w. (
                x,
                subst (λ b. (if b then some x else find_row key rest) ≡ some x)
                    (sym (ap (λ k. k == key) i ∙ t)) refl,
                w,
              ) in
            by_test (λ b. Out (if b then waiting else p)) (waits_for_status issue task p)
              (λ e. here waiting refl (
                get_field-set_field (codes "requires_status_id") (codes "write_started") _ p.payload
                ∙ off_p))
              (λ e. here p refl off_p)
        | inr (t, g) ↦
            let (x, there, w) = wait_for-Unstarted id issue task ps (q, g, off) in
            let later : (y : Row) → y.id ≡ p.id → Out y = λ y i. (
              x,
              subst (λ b. (if b then some y else find_row key rest) ≡ some x)
                  (sym (ap (λ k. k == key) i ∙ t)) there,
              w,
            ) in
            by_test (λ b. Out (if b then waiting else p)) (waits_for_status issue task p)
              (λ e. later waiting refl) (λ e. later p refl)
      ]

  sequence_after-Unstarted :
      (issue : Text) (task : Json) (found : Option Row) (s : Store)
      → Unstarted key s.outbox
      → Unstarted key (sequence_after s issue task found).outbox
  sequence_after-Unstarted issue task none s u = u
  sequence_after-Unstarted issue task (some status) s u =
      wait_for-Unstarted status.id issue task s.outbox u

  sequence_work-Unstarted :
      (issue : Text) (found : Option Work) (s : Store)
      → Unstarted key s.outbox
      → Unstarted key (sequence_work s issue found).outbox
  sequence_work-Unstarted issue none s u = u
  sequence_work-Unstarted issue (some work) s u =
      let after =
        sequence_after s issue work.task_id (last_row (status_of issue work.task_id) s.outbox) in
      by_test (λ b. Unstarted key (if b then after else s).outbox) (work.origin == codes "native")
        (λ e.
          sequence_after-Unstarted issue work.task_id
            (last_row (status_of issue work.task_id) s.outbox) s u)
        (λ e. u)

  sequence_history-Unstarted :
      (j : Json) (s : Store) → Unstarted key s.outbox → Unstarted key (sequence_history j s).outbox
  sequence_history-Unstarted (string issue) s u =
      sequence_work-Unstarted issue (get s.work issue) s u
  sequence_history-Unstarted null s u = u
  sequence_history-Unstarted (boolean b) s u = u
  sequence_history-Unstarted (number n) s u = u
  sequence_history-Unstarted (array js) s u = u
  sequence_history-Unstarted (object fs) s u = u

  undo_start-Unstarted :
      (r q : Row) (s : Store)
      → find_row key s.outbox ≡ some q
      → Unstarted key (undo_start key r s).outbox
  undo_start-Unstarted r q s found =
      let restored = updated key not_started s in
      let off : Unstarted key restored.outbox = (
        not_started q,
        find_row-update_row key not_started s.outbox q found (λ q. refl),
        get_field-set_field (codes "write_started") (codes "write_started") (boolean false)
            q.payload,
      ) in
      by_test
        (λ b.
          let out : Store =
            if b
            then sequence_history (get_field (codes "issue_id") r.payload) restored
            else restored in
          Unstarted key out.outbox)
        (is_history r.payload)
        (λ e. sequence_history-Unstarted (get_field (codes "issue_id") r.payload) restored off)
        (λ e. off)

all_three : (a b c : Bool) → a ≡ true → b ≡ true → c ≡ true → (a && b && c) ≡ true
all_three a b c x y z = ground (arith, x, y, z)

third_of_three : (a b c : Bool) → c ≡ false → (a && b && c) ≡ false
third_of_three a b c z = ground (arith, z)

-- Directly after a send of a row has begun with a marker, its own attempt can take it back, after which the row's send has
-- not begun; any other attempt is told no and changes nothing.
pub own_marker_only :
    (a : Send) (r : Row) (s : Store) (other : Text)
    → find_row a.row_id s.outbox ≡ some r
    → marks_start a r ≡ true
    → (admit_mutation a s).0 ≡ true
    → (attempt_of a == other) ≡ false
    → ((mutation_not_attempted a.row_id (attempt_of a) (admit_mutation a s).1).0 ≡ true)
      × Unstarted a.row_id
          (mutation_not_attempted a.row_id (attempt_of a) (admit_mutation a s).1).1.outbox
      × (mutation_not_attempted a.row_id other (admit_mutation a s).1
          ≡ (false, (admit_mutation a s).1))
unfolding mutation_not_attempted
own_marker_only a r s other found marks ok differs =
    let s₁ = (admit_mutation a s).1 in
    let m = admit_mutation-Marked a r s found marks ok in
    let q = m.row in
    let begun : is_true (write_started q.payload) ≡ true =
      ap is_true (ap write_started m.payload ∙ started-write_started a r) in
    let marker : get_field (codes "mutation_attempt_id") q.payload ≡ string (attempt_of a) =
      ap (get_field (codes "mutation_attempt_id")) m.payload ∙ started-attempt a r in
    let waits = same_state q.state pending in
    let own : is_attempt (attempt_of a) q ≡ true =
      all_three waits (is_true (write_started q.payload)) _ m.is_pending begun
        (ap (is_text (attempt_of a)) marker ∙ ==_refl (attempt_of a)) in
    let foreign : is_attempt other q ≡ false =
      third_of_three waits (is_true (write_started q.payload)) _
        (ap (is_text other) marker ∙ differs) in
    let undone : undo_found a.row_id (attempt_of a) (some q) s₁ ≡ (true, undo_start a.row_id q s₁) =
      ap (λ b. if b then (true, undo_start a.row_id q s₁) else (false, s₁)) own in
    let kept : undo_found a.row_id other (some q) s₁ ≡ (false, s₁) =
      ap (λ b. if b then (true, undo_start a.row_id q s₁) else (false, s₁)) foreign in
    let mine = ap (λ o. undo_found a.row_id (attempt_of a) o s₁) m.found ∙ undone in
    (
      ap (λ (out : Bool × Store). out.0) mine,
      subst (λ (out : Bool × Store). Unstarted a.row_id out.1.outbox) (sym mine)
          (undo_start-Unstarted a.row_id q q s₁ m.found),
      ap (λ o. undo_found a.row_id other o s₁) m.found ∙ kept,
    )

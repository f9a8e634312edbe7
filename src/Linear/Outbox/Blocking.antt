-- ===== src/Linear/Outbox/Blocking.antt =====
-- While the effect of one send is not known, store.py admits no other of the issue, and no second of the row.
use mathlib.Core.Path.{subst}
use mathlib.Core.Bool.{false≢true}
use hermes_fleet.Prelude.{
  ◌≡◌, refl, sym, ap, ◌∙◌, inl, inr, Bool, true, false, ◌&&◌, ◌||◌, not, some, List, [], ◌∷◌,
  if◌then◌else◌, if_cases, arith, list_eq, nat_eq, ◌==◌, ==_refl, list_beq_iff, any_true, all_true,
  ltb, contains, contains-Elem, Elem, &&-left, &&-right, ||-left, ||-right,
}
use hermes_fleet.Prelude.Text.{Text, codes, is_nonempty}
use hermes_fleet.Prelude.Json.{boolean, string, get_field, is_true, truthy}
use hermes_fleet.Linear.Outbox.Payload.{
  is_false, is_text, starts_with, targets, reporting_notice, conversation_reply,
}
use hermes_fleet.Linear.Outbox.Table.{Row, Store, pending, failed, admitted}
use hermes_fleet.Linear.Outbox.Holding.{Kept}
use hermes_fleet.Linear.Outbox.Operations.{same_state, find_row, updated}
use hermes_fleet.Linear.Outbox.Effects.{
  is_present, write_started, in_kinds, uncertain, issue_kinds, unresolved_row, unresolved_terminal,
  pending_chat_transfer, predecessor_transfer_blocks, effect_admitted, superseded,
}
use hermes_fleet.Linear.Outbox.Admission.{
  is_history, content_matches, pointer_ready, unattempted_ready, closing_ready, history_ready,
  scope_ready, row_ready, independent_message, ordinary_ready, effects_ready, marks_start, started,
  allowed, admit_held, admit_found, admit_mutation, Send,
}
use hermes_fleet.Linear.Outbox.Marker.{
  held_twice, held_twice-AllKept, AllKept-find_row, find_row-Elem, Marked, admit_mutation-Marked,
  started-write_started, started-issue_id, started-reconciliation,
}

-- A refusal by the tests of the row, whatever the other tests say
refused_by_row :
    (b : Send) (q : Row) (s : Store)
    → row_ready (held_twice s) b q ≡ false
    → (admit_found b (some q) s).0 ≡ false
refused_by_row b q s n =
    let h = held_twice s in
    if_cases (λ (out : Bool × Store). out.0 ≡ false) (same_state q.state pending) (admit_held b q h)
      (false, s)
      (λ t.
        if_cases (λ (out : Bool × Store). out.0 ≡ false)
          (allowed (find_row b.row_id h.outbox) && row_ready h b q && effects_ready h q)
          (true, if marks_start b q then updated b.row_id (started b) h else h) (false, h)
          (λ u. absurd (
            false≢true (
              sym n
              ∙ &&-right (allowed (find_row b.row_id h.outbox)) _
                  (&&-left (allowed (find_row b.row_id h.outbox) && row_ready h b q) _ u))))
          (λ u. refl))
      (λ t. refl)

third_of_six : (a b c d e f : Bool) → c ≡ false → (a && b && c && d && e && f) ≡ false
third_of_six a b c d e f h = ground (arith, h)

-- Directly after a send of a row has begun with a marker, a send of the same row that requires it unattempted is
-- refused.
pub one_unattempted_send :
    (a b : Send) (r : Row) (s : Store)
    → find_row a.row_id s.outbox ≡ some r
    → marks_start a r ≡ true
    → (admit_mutation a s).0 ≡ true
    → b.row_id ≡ a.row_id
    → b.require_unattempted ≡ true
    → (admit_mutation b (admit_mutation a s).1).0 ≡ false
unfolding admit_mutation
one_unattempted_send a b r s found marks ok same wants =
    let s₁ = (admit_mutation a s).1 in
    let m = admit_mutation-Marked a r s found marks ok in
    let there = ap (λ k. find_row k s₁.outbox) same ∙ m.found in
    let begun = ap write_started m.payload ∙ started-write_started a r in
    let late : unattempted_ready b m.row ≡ false =
      ap (λ j. not (b.require_unattempted && not (is_false j))) begun
      ∙ ap (λ x. not (x && not (is_false (boolean true)))) wants in
    let h = held_twice s₁ in
    subst (λ o. (admit_found b o s₁).0 ≡ false) (sym there)
      (refused_by_row b m.row s₁ (
        third_of_six (pointer_ready h m.row) (content_matches b.expected_content m.row.payload)
          (unattempted_ready b m.row) (closing_ready h m.row) (history_ready h m.row)
          (scope_ready h m.row) late))

-- The tests against other writes refuse a row, whatever the other tests say.
refused_by_effects :
    (b : Send) (q : Row) (s : Store)
    → effects_ready (held_twice s) q ≡ false
    → (admit_found b (some q) s).0 ≡ false
refused_by_effects b q s n =
    let h = held_twice s in
    if_cases (λ (out : Bool × Store). out.0 ≡ false) (same_state q.state pending) (admit_held b q h)
      (false, s)
      (λ t.
        if_cases (λ (out : Bool × Store). out.0 ≡ false)
          (allowed (find_row b.row_id h.outbox) && row_ready h b q && effects_ready h q)
          (true, if marks_start b q then updated b.row_id (started b) h else h) (false, h)
          (λ u. absurd (
            false≢true
              (sym n ∙ &&-right (allowed (find_row b.row_id h.outbox) && row_ready h b q) _ u)))
          (λ u. refl))
      (λ t. refl)

any_true-Elem :
    (p : Row → Bool) (x : Row) (xs : List Row) → Elem x xs → p x ≡ true → any_true p xs ≡ true
any_true-Elem p x [] e h = absurd e
any_true-Elem p x (y ∷ ys) (inl same) h = ||-left (p y) _ (subst (λ y. p y ≡ true) same h)
any_true-Elem p x (y ∷ ys) (inr e) h = ||-right (p y) _ (any_true-Elem p x ys e h)

all_true-fails :
    (p : Text → Bool) (x : Text) (xs : List Text) → Elem x xs → p x ≡ false → all_true p xs ≡ false
all_true-fails p x [] e h = absurd e
all_true-fails p x (y ∷ ys) (inl same) h =
    let g = subst (λ y. p y ≡ false) same h in ground (arith, g)
all_true-fails p x (y ∷ ys) (inr e) h = ground (arith, all_true-fails p x ys e h)

and_false : (a b : Bool) → b ≡ false → (a && b) ≡ false
and_false a b h = ground (arith, h)

uncertain_by :
    (t c k ws rr done p f x : Bool)
    → k ≡ true
    → ws ≡ true
    → done ≡ false
    → p ≡ true
    → ((t || c || (k && (ws || rr))) && not done && (rr || ((p || f) && (ws || x)))) ≡ true
uncertain_by t c k ws rr done p f x hk hw hd hp = ground (arith, hk, hw, hd, hp)

-- A status whose send has begun is uncertain until it is reconciled.
begun_uncertain :
    (q : Row)
    → (q.kind == codes "status") ≡ true
    → same_state q.state pending ≡ true
    → write_started q.payload ≡ boolean true
    → truthy (get_field (codes "reconciliation") q.payload) ≡ false
    → uncertain q ≡ true
unfolding uncertain
begun_uncertain q kind waits begun open_row =
    uncertain_by (truthy (get_field (codes "terminal") q.payload))
      (truthy (get_field (codes "content_action") q.payload)) (q.kind == codes "status")
      (is_true (write_started q.payload))
      (truthy (get_field (codes "reconcile_required") q.payload))
      (truthy (get_field (codes "reconciliation") q.payload)) (same_state q.state pending)
      (same_state q.state failed)
      (ltb 0 q.attempts && not (is_present (codes "write_started") q.payload)) kind
      (ap is_true begun) open_row waits

module _ (q : Row) (issue except_id : Text) (s : Store) where
  blocks_effect :
      Elem q s.outbox
      → unresolved_row issue except_id q ≡ true
      → is_nonempty issue ≡ true
      → starts_with (codes "update:") issue ≡ false
      → (issues : List Text) → Elem issue issues
      → effect_admitted s issues except_id ≡ false
  blocks_effect e open_row named plain issues among =
      let some_row = any_true-Elem (unresolved_row issue except_id) q s.outbox e open_row in
      let blocked : unresolved_terminal s issue except_id ≡ true =
        ground (arith, named, plain, some_row) in
      let fails : (not (unresolved_terminal s issue except_id)
            && not (pending_chat_transfer s issue))
          ≡ false =
        ap (λ b. not b && not (pending_chat_transfer s issue)) blocked in
      let all =
        all_true-fails
          (λ i. not (unresolved_terminal s i except_id) && not (pending_chat_transfer s i)) issue
          issues among fails in
      and_false (admitted s issues) _ all

last_of_five : (a b c d e : Bool) → e ≡ true → (a || b || c || d || e) ≡ true
last_of_five a b c d e h = ground (arith, h)

status-marks_start : (a : Send) (r : Row) → r.kind ≡ codes "status" → marks_start a r ≡ true
status-marks_start a r kind =
    let one = in_kinds (codes "comment" ∷ codes "activity" ∷ []) r in
    let sends =
      codes "status" ∷ codes "description" ∷ codes "delegate" ∷ codes "project_update" ∷ [] in
    last_of_five a.terminal (truthy (get_field (codes "terminal") r.payload) && one)
      (one && is_history r.payload && truthy (get_field (codes "task_id") r.payload))
      (conversation_reply r.kind r.payload) (in_kinds sends r)
      (subst (λ k. contains k sends ≡ true) (sym kind) refl)

four : (a b c d : Bool) → a ≡ true → b ≡ true → c ≡ true → d ≡ true → (a && b && c && d) ≡ true
four a b c d ha hb hc hd = ground (arith, ha, hb, hc, hd)

-- The row of a status whose send has begun, after any holding, is an unresolved one of its issue.
Marked-unresolved :
    (a : Send) (r p : Row) (issue except_id : Text) (s : Store) (m : Marked a r s)
    → Kept m.row p
    → p.id ≡ a.row_id
    → r.kind ≡ codes "status"
    → get_field (codes "issue_id") r.payload ≡ string issue
    → truthy (get_field (codes "reconciliation") r.payload) ≡ false
    → (a.row_id == except_id) ≡ false
    → unresolved_row issue except_id p ≡ true
Marked-unresolved a r p issue except_id s m kept ident kind of_issue open_row other =
    let payload : p.payload ≡ (started a r).payload =
      ap (λ (q : Row). q.payload) kept.0 ∙ m.payload in
    let is_status : p.kind ≡ codes "status" =
      ap (λ (q : Row). q.kind) kept.0 ∙ m.same_kind ∙ kind in
    let waits = subst (λ (q : Row). same_state q.state pending ≡ true) (sym kept.0) m.is_pending in
    let begun = ap write_started payload ∙ started-write_started a r in
    let unsettled =
      ap (λ f. truthy (get_field (codes "reconciliation") f)) payload
      ∙ ap truthy (started-reconciliation a r)
      ∙ open_row in
    let here = ap (get_field (codes "issue_id")) payload ∙ started-issue_id a r ∙ of_issue in
    four (in_kinds issue_kinds p) (is_text issue (get_field (codes "issue_id") p.payload))
      (not (p.id == except_id)) (uncertain p)
      (subst (λ k. contains k issue_kinds ≡ true) (sym is_status) refl)
      (subst (λ j. is_text issue j ≡ true) (sym here) (==_refl issue))
      (ap not (ap (λ i. i == except_id) ident ∙ other))
      (begun_uncertain p ((list_beq_iff p.kind (codes "status")).1 is_status) waits begun unsettled)

first_of_three : (a b c : Bool) → a ≡ false → (a && b && c) ≡ false
first_of_three a b c h = ground (arith, h)

not_ordinary :
    (h : Store) (q : Row)
    → reporting_notice q.kind q.payload ≡ false
    → truthy (get_field (codes "content_action") q.payload) ≡ false
    → effect_admitted h (targets q.payload) q.id ≡ false
    → effects_ready h q ≡ false
not_ordinary h q notice content blocked =
    let refuses =
      first_of_three (effect_admitted h (targets q.payload) q.id)
        (not (any_true (λ i. predecessor_transfer_blocks h i q.payload) (targets q.payload)))
        (not (truthy (get_field (codes "work_owner") q.payload) && superseded h q)) blocked in
    let alone =
      independent_message q
      || not (any_true (λ i. unresolved_terminal h i q.id) (targets q.payload)) in
    subst
      (λ b.
        (if b
          then true
          else (if truthy (get_field (codes "content_action") q.payload)
              then alone
              else ordinary_ready h q))
        ≡ false)
      (sym notice)
      (subst (λ b. (if b then alone else ordinary_ready h q) ≡ false) (sym content) refuses)

-- Directly after a send of a status of a named issue, with no reconciliation recorded in it, has begun, no other
-- row that writes to the issue is admitted, unless it is an informational notice or a content write, which have
-- tests of their own.
pub second_effect_refused :
    (a b : Send) (r q : Row) (issue : Text) (s : Store)
    → find_row a.row_id s.outbox ≡ some r
    → r.kind ≡ codes "status"
    → get_field (codes "issue_id") r.payload ≡ string issue
    → truthy (get_field (codes "reconciliation") r.payload) ≡ false
    → is_nonempty issue ≡ true
    → starts_with (codes "update:") issue ≡ false
    → (admit_mutation a s).0 ≡ true
    → find_row b.row_id (admit_mutation a s).1.outbox ≡ some q
    → (a.row_id == q.id) ≡ false
    → contains issue (targets q.payload) ≡ true
    → reporting_notice q.kind q.payload ≡ false
    → truthy (get_field (codes "content_action") q.payload) ≡ false
    → (admit_mutation b (admit_mutation a s).1).0 ≡ false
unfolding admit_mutation
second_effect_refused a b r q issue s found kind of_issue open_row named plain ok there other
      targeted notice content =
    let s₁ = (admit_mutation a s).1 in
    let m = admit_mutation-Marked a r s found (status-marks_start a r kind) ok in
    let h = held_twice s₁ in
    let (p, at, kept) =
      AllKept-find_row a.row_id s₁.outbox h.outbox m.row (held_twice-AllKept s₁) m.found in
    let (among, ident) = find_row-Elem a.row_id h.outbox p at in
    let unresolved =
      Marked-unresolved a r p issue q.id s₁ m kept ident kind of_issue open_row other in
    let blocked =
      blocks_effect p issue q.id h among unresolved named plain (targets q.payload)
        (contains-Elem issue (targets q.payload) targeted) in
    subst (λ o. (admit_found b o s₁).0 ≡ false) (sym there)
      (refused_by_effects b q s₁ (not_ordinary h q notice content blocked))

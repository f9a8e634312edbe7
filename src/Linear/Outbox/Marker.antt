-- ===== src/Linear/Outbox/Marker.antt =====
-- What `admit_mutation` of store.py leaves on the row that it lets be sent.
use mathlib.Core.Path.{subst}
use hermes_fleet.Prelude.{
  ◌≡◌, refl, sym, ap, ◌∙◌, inl, inr, Bool, true, false, ◌&&◌, some, List, [], ◌∷◌, if◌then◌else◌,
  if_cases, if_split, by_test, list_eq, nat_eq, ◌==◌, list_beq_iff, Elem,
}
use hermes_fleet.Prelude.Text.{Text, codes, is_nonempty}
use hermes_fleet.Prelude.Json.{boolean, string, Fields, get_field, set_field, get_field-set_field}
use hermes_fleet.Linear.Outbox.Payload.{conversation_reply}
use hermes_fleet.Linear.Outbox.Table.{Row, Store, pending, hold_legacy}
use hermes_fleet.Linear.Outbox.Holding.{Kept, AllKept, AllKept-trans, hold_legacy_lem}
use hermes_fleet.Linear.Outbox.Operations.{same_state, find_row, updated}
use hermes_fleet.Linear.Outbox.Timing.{find_row-update_row}
use hermes_fleet.Linear.Outbox.Effects.{write_started}
use hermes_fleet.Linear.Outbox.Admission.{
  row_ready, effects_ready, marks_start, attempt_of, with_conversation, started, allowed,
  admit_held, admit_found, admit_mutation, Send,
}

-- The row of an id after holding, twice as `admit_mutation` does it
abbrev pub held_twice : Store → Store
held_twice s = hold_legacy (hold_legacy s)

pub held_twice-AllKept : (s : Store) → AllKept s.outbox (held_twice s).outbox
held_twice-AllKept s =
    let (a, b, once) = hold_legacy_lem s in
    let (c, d, twice) = hold_legacy_lem (hold_legacy s) in
    AllKept-trans s.outbox (hold_legacy s).outbox (held_twice s).outbox once twice

pub AllKept-find_row :
    (key : Text) (t u : List Row) (r : Row)
    → AllKept t u
    → find_row key t ≡ some r
    → (q : Row) × (find_row key u ≡ some q) × Kept r q
AllKept-find_row key [] u r k h = cc
AllKept-find_row key (p ∷ ps) [] r k h = absurd k
AllKept-find_row key (p ∷ ps) (q ∷ qs) r k h =
    let same_id : q.id ≡ p.id = ap (λ (r : Row). r.id) k.0.0 in
    elim (if_split (p.id == key) (some p) (find_row key ps) (some r) h) [
      | inl (t, g) ↦
          let here = subst (λ i. (i == key) ≡ true) (sym same_id) t in
          let first : p ≡ r = cc in
          (
            q,
            subst (λ b. (if b then some q else find_row key qs) ≡ some q) (sym here) refl,
            subst (λ p. Kept p q) first k.0,
          )
      | inr (t, g) ↦
          let elsewhere = subst (λ i. (i == key) ≡ false) (sym same_id) t in
          let (x, found, kept) = AllKept-find_row key ps qs r k.1 g in
          (
            x,
            subst (λ b. (if b then some q else find_row key qs) ≡ some x) (sym elsewhere) found,
            kept,
          )
    ]

pub find_row-Elem :
    (key : Text) (t : List Row) (r : Row) → find_row key t ≡ some r → Elem r t × (r.id ≡ key)
find_row-Elem key [] r h = cc
find_row-Elem key (p ∷ ps) r h =
    elim (if_split (p.id == key) (some p) (find_row key ps) (some r) h) [
      | inl (t, g) ↦
          let first : r ≡ p = cc in
          (inl first, ap (λ (r : Row). r.id) first ∙ (list_beq_iff p.id key).0 t)
      | inr (t, g) ↦ let (e, i) = find_row-Elem key ps r g in (inr e, i)
    ]

-- The marker that a send leaves on its row, in the table that it leaves
pub record Marked (a : Send) (r : Row) (s : Store) : Type 0 where
  pub row : Row
  pub found : find_row a.row_id s.outbox ≡ some row
  pub same_kind : row.kind ≡ r.kind
  pub is_pending : same_state row.state pending ≡ true
  pub payload : row.payload ≡ (started a r).payload

module _ (a : Send) (r : Row) (s : Store) (found : find_row a.row_id s.outbox ≡ some r)
    (marks : marks_start a r ≡ true) where
  updated-Marked :
      same_state r.state pending ≡ true → Marked a r (updated a.row_id (started a) (held_twice s))
  updated-Marked is_pending =
      let h = held_twice s in
      let (q, there, kept) =
        AllKept-find_row a.row_id s.outbox h.outbox r (held_twice-AllKept s) found in
      record {
        row = started a q;
        found = find_row-update_row a.row_id (started a) h.outbox q there (λ q. refl);
        same_kind = ap (λ (r : Row). r.kind) kept.0;
        is_pending = subst (λ (q : Row). same_state q.state pending ≡ true) (sym kept.0) is_pending;
        payload = ap (λ (q : Row). (started a q).payload) kept.0;
      }

  admit_held-Marked :
      same_state r.state pending ≡ true
      → (admit_held a r (held_twice s)).0 ≡ true
      → Marked a r (admit_held a r (held_twice s)).1
  admit_held-Marked is_pending =
      let h = held_twice s in
      let t : Bool = allowed (find_row a.row_id h.outbox) && row_ready h a r && effects_ready h r in
      by_test
        (λ b.
          let out : Bool × Store =
            if b
            then (true, if marks_start a r then updated a.row_id (started a) h else h)
            else (false, h) in
          out.0 ≡ true → Marked a r out.1)
        t
        (λ e ok.
          subst (λ m. Marked a r (if m then updated a.row_id (started a) h else h)) (sym marks)
            (updated-Marked is_pending))
        (λ e ok. cc)

  admit_found-Marked : (admit_found a (some r) s).0 ≡ true → Marked a r (admit_found a (some r) s).1
  admit_found-Marked =
      by_test
        (λ b.
          let out : Bool × Store = if b then admit_held a r (held_twice s) else (false, s) in
          out.0 ≡ true → Marked a r out.1)
        (same_state r.state pending) admit_held-Marked (λ e ok. cc)

  pub admit_mutation-Marked : (admit_mutation a s).0 ≡ true → Marked a r (admit_mutation a s).1
  unfolding admit_mutation
  admit_mutation-Marked =
      subst (λ o. (admit_found a o s).0 ≡ true → Marked a r (admit_found a o s).1) (sym found)
        admit_found-Marked

-- What the marker holds
with_conversation-get :
    (a : Send) (r : Row) (key : Text) (p : Fields)
    → (codes "conversation_attempt_id" == key) ≡ false
    → get_field key (with_conversation a r p) ≡ get_field key p
with_conversation-get a r key p n =
    if_cases (λ q. get_field key q ≡ get_field key p)
      (conversation_reply r.kind r.payload && is_nonempty a.conversation_attempt_id)
      (set_field (codes "conversation_attempt_id") (string a.conversation_attempt_id) p) p
      (λ t.
        get_field-set_field (codes "conversation_attempt_id") key _ p
        ∙ subst
            (λ b.
              (if b then string a.conversation_attempt_id else get_field key p) ≡ get_field key p)
            (sym n) refl)
      (λ t. refl)

pub started-write_started :
    (a : Send) (r : Row) → write_started (started a r).payload ≡ boolean true
started-write_started a r =
    with_conversation-get a r (codes "write_started") _ refl
    ∙ get_field-set_field (codes "mutation_attempt_id") (codes "write_started") _ _
    ∙ get_field-set_field (codes "write_started") (codes "write_started") (boolean true) r.payload

pub started-attempt :
    (a : Send) (r : Row)
    → get_field (codes "mutation_attempt_id") (started a r).payload ≡ string (attempt_of a)
started-attempt a r =
    with_conversation-get a r (codes "mutation_attempt_id") _ refl
    ∙ get_field-set_field (codes "mutation_attempt_id") (codes "mutation_attempt_id") _ _

pub started-issue_id :
    (a : Send) (r : Row)
    → get_field (codes "issue_id") (started a r).payload ≡ get_field (codes "issue_id") r.payload
started-issue_id a r =
    with_conversation-get a r (codes "issue_id") _ refl
    ∙ get_field-set_field (codes "mutation_attempt_id") (codes "issue_id") _ _
    ∙ get_field-set_field (codes "write_started") (codes "issue_id") _ r.payload

pub started-reconciliation :
    (a : Send) (r : Row)
    → get_field (codes "reconciliation") (started a r).payload
      ≡ get_field (codes "reconciliation") r.payload
started-reconciliation a r =
    with_conversation-get a r (codes "reconciliation") _ refl
    ∙ get_field-set_field (codes "mutation_attempt_id") (codes "reconciliation") _ _
    ∙ get_field-set_field (codes "write_started") (codes "reconciliation") _ r.payload

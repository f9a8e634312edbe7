-- ===== src/Linear/Outbox/Fenced.antt =====
-- A held delivery of store.py is out of reach of the operations on rows, in any order of them.
use mathlib.Core.Path.{subst}
use mathlib.Core.Bool.{false≢true}
use hermes_fleet.Prelude.{
  Option-cases, ℕ, ◌+◌, ◌≡◌, refl, sym, ap, ◌∙◌, inl, inr, Bool, true, false, ◌&&◌, Option, some,
  List, [], ◌∷◌, if◌then◌else◌, if_cases, by_test, arith, list_eq, nat_eq, ◌==◌, Elem, &&-left,
}
use hermes_fleet.Prelude.Text.{Text}
use hermes_fleet.Prelude.Json.{Fields}
use hermes_fleet.Linear.Outbox.Payload.{targets}
use hermes_fleet.Linear.Outbox.Table.{
  State, pending, failed, Row, Store, admitted, unheld, hold_legacy,
}
use hermes_fleet.Linear.Outbox.Holding.{Kept, Kept-held, AllKept, hold_legacy_lem}
use hermes_fleet.Linear.Outbox.Operations.{
  same_state, find_row, update_row, delete_row, updated, row_free, row_admitted, if_admitted, mark,
  mark_sent, drop, defer, report, new_payload_free, rewrite, retires, retire_advisory, retry,
  revived, may_revive, failed_unsure, in_time, worth_another, revive_rows, revive_failed, gives_up,
  enqueued_at, store_or, retry_read, give_up, back_off, delay, marked, sent_as, without, deferred,
  reported, if_new_free, rewritten, retired, given_up, backed_off,
}

-- A call of one of the operations
pub data Call : Type 0 where
  marks : Text → State → Option Text → Call
  marks_sent : Text → Bool → Call
  drops : Text → Call
  defers : Text → ℕ → Call
  reports : Text → Call
  rewrites : Text → Fields → ℕ → Call
  retires_advisory : Text → ℕ → Call
  retries : Row → ℕ → Option Text → Call
  revives : ℕ → Call

unfoldable pub apply : Call → Store → Store
apply (marks key state error) s = mark key state error s
apply (marks_sent key applied) s = mark_sent key applied s
apply (drops key) s = drop key s
apply (defers key until) s = defer key until s
apply (reports key) s = report key s
apply (rewrites key payload next_at) s = rewrite key payload next_at s
apply (retires_advisory key now) s = retire_advisory key now s
apply (retries row now error) s = store_or (retry row now error s) s
apply (revives now) s = revive_failed now s

unfoldable pub apply_all : List Call → Store → Store
unfolding apply
apply_all [] s = s
apply_all (c ∷ cs) s = apply_all cs (apply c s)

-- The row stands in the table as it was, and is held; the reason may be another.
abbrev pub StaysHeld : Row → List Row → Type 0
StaysHeld r t = (q : Row) × Elem q t × (q ≡ record r { hold = q.hold }) × (unheld q ≡ false)

AllKept-StaysHeld :
    (r : Row) (t u : List Row) → AllKept t u → Elem r t → unheld r ≡ false → StaysHeld r u
AllKept-StaysHeld r [] u k e h = absurd e
AllKept-StaysHeld r (p ∷ ps) [] k e h = absurd k
AllKept-StaysHeld r (p ∷ ps) (q ∷ qs) k (inl same) h =
    let kept : Kept r q = subst (λ p. Kept p q) (sym same) k.0 in
    (q, inl refl, kept.0, Kept-held r q kept h)
AllKept-StaysHeld r (p ∷ ps) (q ∷ qs) k (inr e) h =
    let (x, among, same, held) = AllKept-StaysHeld r ps qs k.1 e h in (x, inr among, same, held)

module _ (s : Store) (q : Row) (held : unheld q ≡ false) where
  not_free : (r : Row) {P : Type 0} → q ≡ r → row_free s (some r) ≡ true → P
  not_free r same free =
      let open_row : unheld r ≡ true = &&-left (unheld r) _ free in
      absurd (false≢true (sym held ∙ ap unheld same ∙ open_row))

  update_row-Elem :
      (key : Text) (f : Row → Row) (t : List Row)
      → row_free s (find_row key t) ≡ true
      → Elem q t
      → Elem q (update_row key f t)
  update_row-Elem key f [] free e = absurd e
  update_row-Elem key f (r ∷ rs) free e =
      by_test
        (λ b.
          row_free s (if b then some r else find_row key rs) ≡ true
          → Elem q (if b then f r ∷ rs else r ∷ update_row key f rs))
        (r.id == key) (λ t free. elim e [ inl same ↦ not_free r same free | inr k ↦ inr k ])
        (λ t free. elim e [ inl same ↦ inl same | inr k ↦ inr (update_row-Elem key f rs free k) ])
        free

  delete_row-Elem :
      (key : Text) (t : List Row)
      → row_free s (find_row key t) ≡ true
      → Elem q t
      → Elem q (delete_row key t)
  delete_row-Elem key [] free e = absurd e
  delete_row-Elem key (r ∷ rs) free e =
      by_test
        (λ b.
          row_free s (if b then some r else find_row key rs) ≡ true
          → Elem q (if b then rs else r ∷ delete_row key rs))
        (r.id == key) (λ t free. elim e [ inl same ↦ not_free r same free | inr k ↦ k ])
        (λ t free. elim e [ inl same ↦ inl same | inr k ↦ inr (delete_row-Elem key rs free k) ])
        free

-- A change that leaves held rows alone, whether or not the row is looked at first
update_row_same :
    (q : Row) (key : Text) (f : Row → Row) (t : List Row)
    → f q ≡ q
    → Elem q t
    → Elem q (update_row key f t)
update_row_same q key f [] same e = absurd e
update_row_same q key f (r ∷ rs) same e =
    by_test (λ b. Elem q (if b then f r ∷ rs else r ∷ update_row key f rs)) (r.id == key)
      (λ t. elim e [ inl here ↦ inl (sym same ∙ ap f here) | inr k ↦ inr k ])
      (λ t. elim e [ inl here ↦ inl here | inr k ↦ inr (update_row_same q key f rs same k) ])

-- A held row is not chosen for another try, and is not retired.
second_of_four : (a b c d : Bool) → (a && b && c && d) ≡ true → b ≡ true
second_of_four a b c d t = ground (arith, t)

not_revived :
    {P : Type 0} (now : ℕ) (table : List Row) (r : Row)
    → unheld r ≡ false
    → may_revive now table r ≡ true
    → P
not_revived now table r held t =
    let open_row : unheld r ≡ true = second_of_four (same_state r.state failed) (unheld r) _ _ (
      &&-left (failed_unsure r) (in_time now r)
        (&&-left (failed_unsure r && in_time now r) (worth_another table r) t)) in
    absurd (false≢true (sym held ∙ open_row))

second_of_five : (a b c d e : Bool) → b ≡ false → (a && b && c && d && e) ≡ false
second_of_five a b c d e t = ground (arith, t)

not_retired : (now : ℕ) (r : Row) → unheld r ≡ false → retires now r ≡ false
not_retired now r held = second_of_five (same_state r.state pending) (unheld r) _ _ _ held

revive_rows-Elem :
    (s : Store) (now : ℕ) (table : List Row) (q : Row) (t : List Row)
    → unheld q ≡ false
    → Elem q t
    → Elem q (revive_rows s now table t)
revive_rows-Elem s now table q [] held e = absurd e
revive_rows-Elem s now table q (r ∷ rs) held (inl same) =
    let other = ap unheld (sym same) ∙ held in
    inl (
      if_cases (λ (x : Row). q ≡ x) (may_revive now table r && admitted s (targets r.payload))
        (revived now r) r
        (λ t. not_revived now table r other (&&-left (may_revive now table r) _ t)) (λ t. same))
revive_rows-Elem s now table q (r ∷ rs) held (inr e) =
    inr (revive_rows-Elem s now table q rs held e)

-- What a change does that is made only where the row was admitted.
abbrev Leaves : Text → (Store → Store) → Type 0
Leaves key f =
    (s : Store) (q : Row)
    → row_admitted s key ≡ true
    → unheld q ≡ false
    → Elem q s.outbox
    → Elem q (f s).outbox

hold_legacy-StaysHeld :
    (r : Row) (s : Store) → Elem r s.outbox → unheld r ≡ false → StaysHeld r (hold_legacy s).outbox
hold_legacy-StaysHeld r s e h =
    let (closed, verified, kept) = hold_legacy_lem s in
    AllKept-StaysHeld r s.outbox (hold_legacy s).outbox kept e h

if_admitted-StaysHeld :
    (key : Text) (f : Store → Store) (r : Row) (s : Store)
    → Leaves key f
    → Elem r s.outbox
    → unheld r ≡ false
    → StaysHeld r (if_admitted key f s).outbox
if_admitted-StaysHeld key f r s leaves e h =
    let (q, among, same, held) = hold_legacy-StaysHeld r s e h in
    let l = hold_legacy s in
    if_cases (λ (s : Store). StaysHeld r s.outbox) (row_admitted l key) (f l) l
      (λ t. (q, leaves l q t held among, same, held)) (λ t. (q, among, same, held))

updated-Leaves : (key : Text) (f : Row → Row) → Leaves key (updated key f)
updated-Leaves key f s q free held e = update_row-Elem s q held key f s.outbox free e

updated-StaysHeld :
    (key : Text) (f : Row → Row) (r : Row) (s : Store)
    → Elem r s.outbox
    → unheld r ≡ false
    → StaysHeld r (if_admitted key (updated key f) s).outbox
updated-StaysHeld key f r s e h =
    if_admitted-StaysHeld key (updated key f) r s (updated-Leaves key f) e h

apply-StaysHeld :
    (c : Call) (r : Row) (s : Store)
    → Elem r s.outbox
    → unheld r ≡ false
    → StaysHeld r (apply c s).outbox
unfolding apply mark mark_sent drop defer report rewrite retire_advisory retry revive_failed
apply-StaysHeld (marks key state error) r s e h = updated-StaysHeld key (marked state error) r s e h
apply-StaysHeld (marks_sent key applied) r s e h = updated-StaysHeld key (sent_as applied) r s e h
apply-StaysHeld (drops key) r s e h =
    if_admitted-StaysHeld key (without key) r s
      (λ l q free held among. delete_row-Elem l q held key l.outbox free among) e h
apply-StaysHeld (defers key until) r s e h = updated-StaysHeld key (deferred until) r s e h
apply-StaysHeld (reports key) r s e h = updated-StaysHeld key reported r s e h
apply-StaysHeld (rewrites key payload next_at) r s e h =
    if_admitted-StaysHeld key (if_new_free key payload next_at) r s
      (λ l q free held among.
        if_cases (λ (s : Store). Elem q s.outbox)
          (new_payload_free l (find_row key l.outbox) payload)
          (updated key (rewritten payload next_at) l) l
          (λ t. updated-Leaves key (rewritten payload next_at) l q free held among) (λ t. among))
      e h
apply-StaysHeld (retires_advisory key now) r s e h = (
  r,
  update_row_same r key (retired now) s.outbox
      (if_cases (λ (x : Row). x ≡ r) (retires now r) (record r { state = failed }) r
        (λ t. absurd (false≢true (sym (not_retired now r h) ∙ t))) (λ t. refl))
      e,
  refl,
  h,
)
apply-StaysHeld (retries row now error) r s e h =
    elim (Option-cases (enqueued_at row.payload now)) [
      | inl none_read ↦
          subst (λ o. StaysHeld r (store_or (retry_read o row now error s) s).outbox)
            (sym none_read) (r, e, refl, h)
      | inr (since, read) ↦
          subst (λ o. StaysHeld r (store_or (retry_read o row now error s) s).outbox) (sym read)
            (if_cases (λ (t : Bool × Store). StaysHeld r t.1.outbox) (gives_up since now)
              (row_admitted (hold_legacy s) row.id, give_up row error s) (false, back_off row now s)
              (λ t. updated-StaysHeld row.id (given_up row.attempts error) r s e h)
              (λ t. updated-StaysHeld row.id (backed_off row.attempts (now + delay row)) r s e h))
    ]
apply-StaysHeld (revives now) r s e h =
    let (q, among, same, held) = hold_legacy-StaysHeld r s e h in
    let l = hold_legacy s in (q, revive_rows-Elem l now l.outbox q l.outbox held among, same, held)

-- A row that is held stays in the table, held, with its kind, payload, attempts, time and state as they are,
-- whatever rows are marked, sent, dropped, deferred, reported, rewritten, retired, retried or revived, in any order.
pub apply_all-StaysHeld :
    (cs : List Call) (r : Row) (s : Store)
    → Elem r s.outbox
    → unheld r ≡ false
    → StaysHeld r (apply_all cs s).outbox
unfolding apply_all
apply_all-StaysHeld [] r s e h = (r, e, refl, h)
apply_all-StaysHeld (c ∷ cs) r s e h =
    let (q, among, same, held) = apply-StaysHeld c r s e h in
    let (p, there, again, still) = apply_all-StaysHeld cs q (apply c s) among held in
    (p, there, again ∙ ap (λ (x : Row). record x { hold = p.hold }) same, still)

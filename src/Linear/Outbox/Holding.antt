-- ===== src/Linear/Outbox/Holding.antt =====
-- `_hold_legacy_outbox` of store.py ends, and leaves nothing that depends on a held row.
use mathlib.Core.Path.{subst}
use mathlib.Core.Bool.{false≢true}
use hermes_fleet.Prelude.{
  ℕ, zero, suc, ◌≡◌, ◌≤◌, ◌<◌, refl, sym, ap, ◌∙◌, inl, inr, Bool, true, false, ◌||◌, not, Option,
  none, some, List, [], ◌∷◌, if◌then◌else◌, if_cases, by_test, arith, list_eq, nat_eq, ◌==◌,
  list_beq_iff, Bool-cases, All, All-imp, Elem,
}
use hermes_fleet.Prelude.Text.{Text}
use hermes_fleet.Linear.Outbox.Table.{
  Row, Store, Hold, dependency, delivery_hold_reason, unheld, held_by, with_reason, hold_unverified,
  set_hold, unheld_rows, depends_held, pass, hold_loop, count_unheld, hold_legacy,
}

-- Holding by id holds no fewer.
set_hold-le : (key : Text) (t : List Row) → count_unheld (set_hold key t) ≤ count_unheld t
set_hold-le key [] = omega arith
set_hold-le key (r ∷ rs) = ground (arith, set_hold-le key rs)

-- It holds one more where the row was not held.
set_hold-lt :
    (r : Row) (t : List Row)
    → Elem r t
    → unheld r ≡ true
    → count_unheld (set_hold r.id t) < count_unheld t
set_hold-lt r [] e u = absurd e
set_hold-lt r (q ∷ rs) (inl same) u =
    let here : (q.id == r.id) ≡ true =
      (list_beq_iff q.id r.id).1 (ap (λ (r : Row). r.id) (sym same)) in
    let free : unheld q ≡ true = subst (λ r. unheld r ≡ true) same u in
    ground (arith, here, free, set_hold-le r.id rs)
set_hold-lt r (q ∷ rs) (inr e) u = ground (arith, set_hold-lt r rs e u, set_hold-le r.id rs)

pass-le : (rs t : List Row) (c : Bool) → count_unheld (pass rs t c).0 ≤ count_unheld t
pass-le [] t c = omega arith
pass-le (r ∷ rs) t c =
    by_test
      (λ d. count_unheld (pass rs (if d then set_hold r.id t else t) (d || c)).0 ≤ count_unheld t)
      (depends_held t r) (λ e. omega (arith, pass-le rs (set_hold r.id t) true, set_hold-le r.id t))
      (λ e. pass-le rs t c)

-- What one has changed stays changed.
pass_changed : (rs t : List Row) → (pass rs t true).1 ≡ true
pass_changed [] t = refl
pass_changed (r ∷ rs) t =
    by_test (λ d. (pass rs (if d then set_hold r.id t else t) (d || true)).1 ≡ true)
      (depends_held t r) (λ e. pass_changed rs (set_hold r.id t)) (λ e. pass_changed rs t)

-- A pass that changed something holds one more.
pass-lt :
    (rs t : List Row)
    → All (λ (r : Row). Elem r t × (unheld r ≡ true)) rs
    → (pass rs t false).1 ≡ true
    → count_unheld (pass rs t false).0 < count_unheld t
pass-lt [] t h = λ c. cc
pass-lt (r ∷ rs) t h =
    by_test
      (λ d.
        (pass rs (if d then set_hold r.id t else t) (d || false)).1 ≡ true
        → count_unheld (pass rs (if d then set_hold r.id t else t) (d || false)).0 < count_unheld t)
      (depends_held t r)
      (λ e c. omega (arith, pass-le rs (set_hold r.id t) true, set_hold-lt r t h.0.0 h.0.1))
      (λ e c. pass-lt rs t h.1 c)

-- A pass that changed nothing found nothing that depends on a held row.
pass_quiet :
    (rs t : List Row)
    → (pass rs t false).1 ≡ false
    → ((pass rs t false).0 ≡ t) × All (λ (r : Row). depends_held t r ≡ false) rs
pass_quiet [] t = λ h. (refl, tt)
pass_quiet (r ∷ rs) t =
    by_test
      (λ d.
        (pass rs (if d then set_hold r.id t else t) (d || false)).1 ≡ false
        → ((pass rs (if d then set_hold r.id t else t) (d || false)).0 ≡ t)
          × ((d ≡ false) × All (λ (r : Row). depends_held t r ≡ false) rs))
      (depends_held t r) (λ e h. let c = pass_changed rs (set_hold r.id t) in cc)
      (λ e h. let (same, all) = pass_quiet rs t h in (same, (refl, all)))

unheld_rows-Elem : (t : List Row) → All (λ (r : Row). Elem r t × (unheld r ≡ true)) (unheld_rows t)
unheld_rows-Elem [] = tt
unheld_rows-Elem (r ∷ rs) =
    let later =
      All-imp (λ (q : Row) (p : Elem q rs × (unheld q ≡ true)). (inr p.0, p.1)) (unheld_rows rs)
        (unheld_rows-Elem rs) in
    if_cases (All (λ (q : Row). Elem q (r ∷ rs) × (unheld q ≡ true))) (unheld r)
      (r ∷ unheld_rows rs) (unheld_rows rs) (λ u. ((inl refl, u), later)) (λ u. later)

-- No row without a reason depends on a row with one.
abbrev pub Closed : List Row → Type 0
Closed t = All (λ (r : Row). depends_held t r ≡ false) (unheld_rows t)

hold_loop-Closed : (n : ℕ) (t : List Row) → count_unheld t < n → Closed (hold_loop n t)
hold_loop-Closed zero t h = absurd (omega arith)
hold_loop-Closed (suc n) t h =
    let one = pass (unheld_rows t) t false in
    if_cases Closed one.1 (hold_loop n one.0) one.0
      (λ changed.
        hold_loop-Closed n one.0
          (omega (arith, pass-lt (unheld_rows t) t (unheld_rows-Elem t) changed)))
      (λ quiet. let (same, all) = pass_quiet (unheld_rows t) t quiet in subst Closed (sym same) all)

-- What holding does to the rows: it writes the column of the reason and no other, and takes no reason away.
abbrev pub Kept : Row → Row → Type 0
Kept r r' = (r' ≡ record r { hold = r'.hold }) × ((unheld r || not (unheld r')) ≡ true)

abbrev pub AllKept : List Row → List Row → Type 0
AllKept [] [] = Unit
AllKept [] (r ∷ rs) = ⊥
AllKept (r ∷ rs) [] = ⊥
AllKept (r ∷ rs) (q ∷ qs) = Kept r q × AllKept rs qs

-- Read as an implication: a held row stays held.
pub Kept-held : (r q : Row) → Kept r q → unheld r ≡ false → unheld q ≡ false
Kept-held r q k h = ground (arith, k.1, h)

same-Kept : (r : Row) → Kept r r
same-Kept r = (refl, ground arith)

held-Kept : (r : Row) (h : Hold) → Kept r (record r { hold = some h })
held-Kept r h = (refl, ground arith)

AllKept-refl : (t : List Row) → AllKept t t
AllKept-refl [] = tt
AllKept-refl (r ∷ rs) = (same-Kept r, AllKept-refl rs)

Kept-trans : (p q r : Row) → Kept p q → Kept q r → Kept p r
Kept-trans p q r h k =
    (k.0 ∙ ap (λ (x : Row). record x { hold = r.hold }) h.0, ground (arith, h.1, k.1))

pub AllKept-trans : (s t u : List Row) → AllKept s t → AllKept t u → AllKept s u
AllKept-trans [] [] u h k = k
AllKept-trans [] (r ∷ rs) u h k = absurd h
AllKept-trans (r ∷ rs) [] u h k = absurd h
AllKept-trans (p ∷ ps) (q ∷ qs) [] h k = absurd k
AllKept-trans (p ∷ ps) (q ∷ qs) (r ∷ rs) h k =
    (Kept-trans p q r h.0 k.0, AllKept-trans ps qs rs h.1 k.1)

set_hold-AllKept : (key : Text) (t : List Row) → AllKept t (set_hold key t)
set_hold-AllKept key [] = tt
set_hold-AllKept key (r ∷ rs) = (
  if_cases (Kept r) (r.id == key) (record r { hold = some dependency }) r
      (λ t. held-Kept r dependency) (λ t. same-Kept r),
  set_hold-AllKept key rs,
)

pass-AllKept : (rs t : List Row) (c : Bool) → AllKept t (pass rs t c).0
pass-AllKept [] t c = AllKept-refl t
pass-AllKept (r ∷ rs) t c =
    by_test (λ d. AllKept t (pass rs (if d then set_hold r.id t else t) (d || c)).0)
      (depends_held t r)
      (λ e.
        AllKept-trans t (set_hold r.id t) _ (set_hold-AllKept r.id t)
          (pass-AllKept rs (set_hold r.id t) true))
      (λ e. pass-AllKept rs t c)

hold_loop-AllKept : (n : ℕ) (t : List Row) → AllKept t (hold_loop n t)
hold_loop-AllKept zero t = AllKept-refl t
hold_loop-AllKept (suc n) t =
    let one = pass (unheld_rows t) t false in
    if_cases (AllKept t) one.1 (hold_loop n one.0) one.0
      (λ c.
        AllKept-trans t one.0 (hold_loop n one.0) (pass-AllKept (unheld_rows t) t false)
          (hold_loop-AllKept n one.0))
      (λ c. pass-AllKept (unheld_rows t) t false)

held_by-Kept : (o : Option Hold) (h : Hold) (r : Row) → r.hold ≡ o → Kept r (held_by o h r)
held_by-Kept (some g) h r e = same-Kept r
held_by-Kept none h r e = held-Kept r h

with_reason-Kept : (o : Option Hold) (r : Row) → Kept r (with_reason o r)
with_reason-Kept none r = same-Kept r
with_reason-Kept (some h) r = held_by-Kept r.hold h r refl

hold_unverified-AllKept : (s : Store) (t : List Row) → AllKept t (hold_unverified s t)
hold_unverified-AllKept s [] = tt
hold_unverified-AllKept s (r ∷ rs) =
    (with_reason-Kept (delivery_hold_reason s r.kind r.payload) r, hold_unverified-AllKept s rs)

-- The deliveries that no binding covers are held first.
abbrev pub Verified : Store → List Row → Type 0
Verified s t = All (λ (r : Row). delivery_hold_reason s r.kind r.payload ≡ none) (unheld_rows t)

held_by-unheld :
    (o : Option Hold) (h : Hold) (r : Row) → r.hold ≡ o → unheld (held_by o h r) ≡ false
held_by-unheld (some g) h r e = rw e
held_by-unheld none h r e = refl

with_reason-Verified :
    (s : Store) (o : Option Hold) (r : Row) (rs : List Row)
    → delivery_hold_reason s r.kind r.payload ≡ o
    → Verified s rs
    → Verified s (with_reason o r ∷ rs)
with_reason-Verified s none r rs e v =
    if_cases (All (λ (r : Row). delivery_hold_reason s r.kind r.payload ≡ none)) (unheld r)
      (r ∷ unheld_rows rs) (unheld_rows rs) (λ u. (e, v)) (λ u. v)
with_reason-Verified s (some h) r rs e v =
    let q = held_by r.hold h r in
    if_cases (All (λ (r : Row). delivery_hold_reason s r.kind r.payload ≡ none)) (unheld q)
      (q ∷ unheld_rows rs) (unheld_rows rs)
      (λ u. absurd (false≢true (sym (held_by-unheld r.hold h r refl) ∙ u))) (λ u. v)

hold_unverified-Verified : (s : Store) (t : List Row) → Verified s (hold_unverified s t)
hold_unverified-Verified s [] = tt
hold_unverified-Verified s (r ∷ rs) =
    with_reason-Verified s (delivery_hold_reason s r.kind r.payload) r (hold_unverified s rs) refl
      (hold_unverified-Verified s rs)

first_and_rest :
    (P : Row → Type 0) (b : Bool) (r : Row) (xs : List Row)
    → All P (if b then r ∷ xs else xs)
    → (b ≡ true → P r) × All P xs
first_and_rest P true r xs h = ((λ e. h.0), h.1)
first_and_rest P false r xs h = ((λ e. cc), h)

Kept-Verified : (s : Store) (t u : List Row) → AllKept t u → Verified s t → Verified s u
Kept-Verified s [] [] k v = tt
Kept-Verified s [] (q ∷ qs) k v = absurd k
Kept-Verified s (r ∷ rs) [] k v = absurd k
Kept-Verified s (r ∷ rs) (q ∷ qs) k v =
    let P = λ (r : Row). delivery_hold_reason s r.kind r.payload ≡ none in
    let (first, others) = first_and_rest P (unheld r) r (unheld_rows rs) v in
    let later = Kept-Verified s rs qs k.1 others in
    let same = k.0.0 in
    if_cases (All P) (unheld q) (q ∷ unheld_rows qs) (unheld_rows qs)
      (λ free. (
        subst P (sym same) (
            first (elim (Bool-cases (unheld r)) [
              | inl e ↦ e
              | inr e ↦ absurd (false≢true (sym (Kept-held r q k.0 e) ∙ free))
            ])),
        later,
      ))
      (λ free. later)

-- Holding old deliveries ends within its bound: afterwards no row that is not held depends on a held one,
-- or lacks a reason that its kind and payload call for, and every row that was held still is; no other
-- column of any row has changed.
pub hold_legacy_lem :
    (s : Store)
    → Closed (hold_legacy s).outbox
      × Verified s (hold_legacy s).outbox
      × AllKept s.outbox (hold_legacy s).outbox
unfolding hold_legacy
hold_legacy_lem s =
    let first = hold_unverified s s.outbox in
    let n = suc (count_unheld first) in
    (
      hold_loop-Closed n first (omega arith),
      Kept-Verified s first (hold_loop n first) (hold_loop-AllKept n first)
          (hold_unverified-Verified s s.outbox),
      AllKept-trans s.outbox first (hold_loop n first) (hold_unverified-AllKept s s.outbox)
          (hold_loop-AllKept n first),
    )

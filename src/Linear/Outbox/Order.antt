-- ===== src/Linear/Outbox/Order.antt =====
-- The writes of an issue go out in their order.
use mathlib.Core.Path.{subst}
use hermes_fleet.Prelude.{
  ℕ, ◌≡◌, ◌≤◌, refl, sym, ap, ◌∙◌, inl, inr, Bool, true, false, ◌&&◌, ◌||◌, Option, none, some,
  List, [], ◌∷◌, if◌then◌else◌, if_cases, by_test, arith, list_eq, nat_eq, leb, nat_beq_iff, Elem,
  Elem-append, &&-right, &&-true,
}
use hermes_fleet.Prelude.Text.{codes}
use hermes_fleet.Prelude.Json.{get_field}
use hermes_fleet.Linear.Outbox.Payload.{is_one}
use hermes_fleet.Linear.Outbox.Table.{Row, Store, hold_legacy}
use hermes_fleet.Linear.Outbox.Due.{
  is_pending, ordered, of_issue, smaller, oldest, is_oldest, unordered, is_due, select_due,
  first_acks, no_acks, in_order, taken_up, due,
}

-- What a minimum is below: the number, and what was below the minimum of the others.
smaller-left : (n : ℕ) (o : Option ℕ) → (m : ℕ) × (smaller n o ≡ some m) × (m ≤ n)
smaller-left n none = (n, refl, omega arith)
smaller-left n (some m) = (if leb n m then n else m, refl, ground arith)

smaller-right : (n m k : ℕ) → m ≤ k → (i : ℕ) × (smaller n (some m) ≡ some i) × (i ≤ k)
smaller-right n m k h = (if leb n m then n else m, refl, ground arith)

-- Where a write of the issue waits, there is an oldest, and it is not younger.
oldest-le :
    (table : List Row) (o p : Row) (t : List Row)
    → Elem p t
    → ordered table p ≡ true
    → of_issue o p ≡ true
    → (m : ℕ) × (oldest table o t ≡ some m) × (m ≤ p.rowid)
oldest-le table o p [] e w i = absurd e
oldest-le table o p (r ∷ rs) (inl same) w i =
    let here : (ordered table r && of_issue o r) ≡ true =
      subst (λ r. (ordered table r && of_issue o r) ≡ true) same (&&-true _ _ w i) in
    let (m, is, le) = smaller-left r.rowid (oldest table o rs) in
    (
      m,
      subst (λ b. (if b then smaller r.rowid (oldest table o rs) else oldest table o rs) ≡ some m)
          (sym here) is,
      subst (λ (r : Row). m ≤ r.rowid) (sym same) le,
    )
oldest-le table o p (r ∷ rs) (inr e) w i =
    let (m, is, le) = oldest-le table o p rs e w i in
    by_test
      (λ b.
        (k : ℕ) × ((if b then smaller r.rowid (oldest table o rs) else oldest table o rs) ≡ some k)
        × (k ≤ p.rowid))
      (ordered table r && of_issue o r)
      (λ t.
        let (k, least, below) = smaller-right r.rowid m p.rowid le in
        (k, ap (smaller r.rowid) is ∙ least, below))
      (λ t. (m, is, le))

is_oldest_lem : (n m : ℕ) (o : Option ℕ) → o ≡ some m → is_oldest n o ≡ true → n ≡ m
is_oldest_lem n m none e h = cc
is_oldest_lem n m (some k) e h = ground (arith, nat_beq_iff n k, e)

select_due-is_due :
    (now : ℕ) (table : List Row) (o : Row) (t : List Row)
    → Elem o (select_due now table t)
    → is_due now table o ≡ true
select_due-is_due now table o [] = λ e. absurd e
select_due-is_due now table o (r ∷ rs) =
    if_cases (λ l. Elem o l → is_due now table o ≡ true) (is_due now table r)
      (r ∷ select_due now table rs) (select_due now table rs)
      (λ t e. elim e [
        | inl same ↦ subst (λ r. is_due now table r ≡ true) (sym same) t
        | inr k ↦ select_due-is_due now table o rs k
      ])
      (λ t e. select_due-is_due now table o rs e)

first_acks-Elem : (o : Row) (rs : List Row) → Elem o (first_acks rs) → Elem o rs
first_acks-Elem o [] = λ e. e
first_acks-Elem o (r ∷ rs) =
    if_cases (λ l. Elem o l → Elem o (r ∷ rs)) (is_one (get_field (codes "initial_ack") r.payload))
      (r ∷ first_acks rs) (first_acks rs)
      (λ t e. elim e [ inl same ↦ inl same | inr k ↦ inr (first_acks-Elem o rs k) ])
      (λ t e. inr (first_acks-Elem o rs e))

no_acks-Elem : (o : Row) (rs : List Row) → Elem o (no_acks rs) → Elem o rs
no_acks-Elem o [] = λ e. e
no_acks-Elem o (r ∷ rs) =
    if_cases (λ l. Elem o l → Elem o (r ∷ rs)) (is_one (get_field (codes "initial_ack") r.payload))
      (no_acks rs) (r ∷ no_acks rs) (λ t e. inr (no_acks-Elem o rs e))
      (λ t e. elim e [ inl same ↦ inl same | inr k ↦ inr (no_acks-Elem o rs k) ])

in_order-Elem : (o : Row) (rs : List Row) → Elem o (in_order rs) → Elem o rs
in_order-Elem o rs e = elim (Elem-append o (first_acks rs) (no_acks rs) e) [
  | inl k ↦ first_acks-Elem o rs k
  | inr k ↦ no_acks-Elem o rs k
]

not_unordered : (a b : Bool) → a ≡ false → (a || b) ≡ true → b ≡ true
not_unordered a b h t = ground (arith, h, t)

-- A due row that is no thought, native message or pointer is the oldest of the writes of its issue that may
-- go out: none that is pending, eligible and in order stands before it, be its own time come or not.
pub due-oldest :
    (now : ℕ) (s : Store) (o p : Row)
    → Elem o (due now s).0
    → unordered o ≡ false
    → Elem p (due now s).1.outbox
    → ordered (due now s).1.outbox p ≡ true
    → of_issue o p ≡ true
    → o.rowid ≤ p.rowid
unfolding due
due-oldest now s o p e u there w i =
    let table = taken_up (hold_legacy s).outbox in
    let (m, is, le) = oldest-le table o p table there w i in
    let chosen =
      select_due-is_due now table o table (in_order-Elem o (select_due now table table) e) in
    let least =
      not_unordered (unordered o) _ u
        (&&-right (is_pending table o && leb o.next_at now) _ chosen) in
    let same = is_oldest_lem o.rowid m (oldest table o table) is least in
    subst (λ n. n ≤ p.rowid) (sym same) le

-- ===== src/Origin/Checks.antt =====
-- Loops of checks that refuse what they have seen (`run_all`), for the loaders of origin.py.
use mathlib.Core.Path.{subst}
use mathlib.Core.List.{append_assoc, append-nil}
use hermes_fleet.Prelude.{
  ◌≡◌, refl, sym, inl, inr, Bool, true, false, Option, none, some, List, [], ◌∷◌, ◌++◌, Elem,
  Elem-append,
}
use hermes_fleet.Origin.Principals.{◌>>=◌, check_that, run_all}

-- What the result of a chain says of its first part.
pub bind-some :
    {A B : Type 0} (m : Option A) (f : A → Option B) (b : B)
    → (m >>= f) ≡ some b
    → (a : A) × (m ≡ some a) × (f a ≡ some b)
bind-some none f b h = cc
bind-some (some a) f b h = (a, refl, h)

pub check-some :
    {B : Type 0} (t : Bool) (f : Unit {0} → Option B) (b : B)
    → (check_that t >>= f) ≡ some b
    → (t ≡ true) × (f tt ≡ some b)
check-some true f b h = (refl, h)
check-some false f b h = cc

pub some_pair :
    {X Y : Type 0} (a c : X) (b d : Y)
    → ◌≡◌ {A = Option (X × Y)} (some (a, b)) (some (c, d))
    → (a ≡ c) × (b ≡ d)
some_pair a c b d h = (cc, cc)

-- No element occurs twice.
abbrev pub Distinct : {A : Type 0} → List A → Type 0
Distinct [] = Unit
Distinct (x ∷ xs) = (¬ Elem x xs) × Distinct xs

pub append-Distinct :
    {A : Type 0} (xs : List A) (y : A) → Distinct xs → ¬ Elem y xs → Distinct (xs ++ (y ∷ []))
append-Distinct [] y d h = ((λ e. e), tt)
append-Distinct (x ∷ xs) y d h = (
  (λ e. elim (Elem-append x xs (y ∷ []) e) [
    | inl k ↦ d.0 k
    | inr k ↦ elim k [ inl same ↦ h (inl (sym same)) | inr k ↦ k ]
  ]),
  append-Distinct xs y d.1 (λ e. h (inr e)),
)

-- A property of the state and of what was put out before goes through the loop.
pub run_all_lem :
    {A S B : Type 0} (f : A → S → Option (B × S)) (I : S → List B → Type 0)
    → ((x : A) (s : S) (bs : List B) (b : B) (s' : S)
        → I s bs
        → f x s ≡ some (b, s')
        → I s' (bs ++ (b ∷ [])))
    → (xs : List A) (s : S) (bs out : List B) (s' : S) → I s bs
    → run_all f xs s ≡ some (out, s')
    → I s' (bs ++ out)
run_all_lem f I step [] s bs out s' i h =
    let o : [] ≡ out = cc in
    let e : s ≡ s' = cc in
    subst (λ t. I t (bs ++ out)) e
      (subst (λ t. I s (bs ++ t)) o (subst (I s) (sym (append-nil bs)) i))
run_all_lem f I step (x ∷ xs) s bs out s' i h =
    let (r, first, more) = bind-some (f x s) _ (out, s') h in
    let (rest, others, last) = bind-some (run_all f xs r.1) _ (out, s') more in
    let j = step x s bs r.0 r.1 i first in
    let k = run_all_lem f I step xs r.1 (bs ++ (r.0 ∷ [])) rest.0 rest.1 j others in
    let o : r.0 ∷ rest.0 ≡ out = cc in
    let e : rest.1 ≡ s' = cc in
    subst (λ t. I t (bs ++ out)) e
      (subst (λ t. I rest.1 (bs ++ t)) o (subst (I rest.1) (append_assoc bs (r.0 ∷ []) rest.0) k))

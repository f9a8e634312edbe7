-- ===== src/Linear/Acceptance/Reads.antt =====
-- Reads of GitHub, and what a reply that has another shape raises. `gh` is a parameter: what the n-th
-- read of an endpoint returns, so that two reads of one endpoint may differ.
use hermes_fleet.Prelude.{
  ℕ, suc, ◌≡◌, refl, ap, Bool, true, false, ◌&&◌, ◌||◌, Option, none, some, List, [], ◌∷◌, map,
  if◌then◌else◌, nat_beq, list_eq, nat_eq, nat_beq,
}
use hermes_fleet.Prelude.Text.{Text, codes, lower}
use hermes_fleet.Prelude.Json.{
  Json, string, array, object, Fields, items, field_names, lookup, as_int,
}

pub data Failure : Type 0 where
  -- `Denied`, with the HTTP status where there is one
  denied : Option Text → Failure
  unavailable : Failure
  -- ValueError, KeyError or TypeError
  malformed : Failure
  -- IndexError
  out_of_range : Failure
  -- what no caller of the module expects
  unexpected : Failure

pub data Result (A : Type 0) : Type 0 where
  returned : A → Result A
  raised : Failure → Result A

pub record World : Type 0 where
  -- `gh(endpoint, paginate=...)`, the n-th of all
  pub gh : ℕ → Text → Bool → Result Json
  -- `str` of a value, and of a pair
  pub text_of : Json → Text
  pub pair_text : Text × Json → Text
  -- the text of an exception, without the brackets that `actions_fallback` puts around it
  pub error_text : Failure → Text
  -- `int` of a text
  pub int_of : Text → Option ℕ
  -- `quote(value, safe)`
  pub quote : Text → Text → Text

-- A computation that reads: the number of reads before it, and after.
abbrev pub Act : Type 0 → Type 0
Act A = ℕ → Result A × ℕ

abbrev pub pure : {A : Type 0} → A → Act A
pure a n = (returned a, n)

abbrev pub lift : {A : Type 0} → Result A → Act A
lift r n = (r, n)

abbrev pub then_run : {A B : Type 0} → Result A → (A → Act B) → Act B
then_run (returned a) f n = f a n
then_run (raised e) f n = (raised e, n)

infixl 5 ◌>>=◌
abbrev pub ◌>>=◌ : {A B : Type 0} → Act A → (A → Act B) → Act B
◌>>=◌ m f n = let (r, k) = m n in then_run r f k

-- The same chain where nothing is read.
infixl 5 ◌>>-◌
abbrev pub ◌>>-◌ : {A B : Type 0} → Result A → (A → Result B) → Result B
returned a >>- f = f a
raised e >>- f = raised e

abbrev pub read : World → Text → Bool → Act Json
read w endpoint paginate n = (w.gh n endpoint paginate, suc n)

-- `[f(x) for x in xs]`
abbrev pub each : {A B : Type 0} → (A → Result B) → List A → Result (List B)
each f [] = returned []
each f (x ∷ xs) = f x >>- λ y. each f xs >>- λ ys. returned (y ∷ ys)

abbrev pub each_act : {A B : Type 0} → (A → Act B) → List A → Act (List B)
each_act f [] = pure []
each_act f (x ∷ xs) = f x >>= λ y. each_act f xs >>= λ ys. pure (y ∷ ys)

abbrev pub or_malformed : {A : Type 0} → Option A → Result A
or_malformed none = raised malformed
or_malformed (some a) = returned a

-- `value[key]` with a text for the key: a KeyError or a TypeError otherwise
abbrev pub at_key : Text → Json → Result Json
at_key key (object fs) = or_malformed (lookup key fs)
at_key key _ = raised malformed

-- `for x in value`
abbrev pub iterate : Json → Result (List Json)
iterate (array xs) = returned (items xs)
iterate (object fs) = returned (map string (field_names fs))
iterate (string s) = returned (map (λ c. string (c ∷ [])) s)
iterate _ = raised malformed

-- A value that is a dict, where another raises a TypeError
abbrev pub fields_of : Json → Result Fields
fields_of (object fs) = returned fs
fields_of _ = raised malformed

-- A value as a member of a set or a key of a dict: a list and a dict have no hash.
abbrev pub hashable : Json → Result Json
hashable (array xs) = raised malformed
hashable (object fs) = raised malformed
hashable j = returned j

-- `int(value)`
abbrev pub to_int : World → Json → Result ℕ
to_int w (string s) = or_malformed (w.int_of s)
to_int w j = or_malformed (as_int j)

-- What a chain that returns says of its first part.
pub then-returned :
    {A B : Type 0} (m : Result A) (f : A → Result B) (b : B)
    → (m >>- f) ≡ returned b
    → (a : A) × (m ≡ returned a) × (f a ≡ returned b)
then-returned (returned a) f b h = (a, refl, h)
then-returned (raised e) f b h = cc

pub returned_inj : {A : Type 0} (a b : A) → ◌≡◌ {A = Result A} (returned a) (returned b) → a ≡ b
returned_inj a b h = cc

-- The same of a first part that does not read.
pub run-returned :
    {A B : Type 0} (r : Result A) (f : A → Act B) (n k : ℕ) (b : B)
    → then_run r f n ≡ (returned b, k)
    → (a : A) × (r ≡ returned a) × (f a n ≡ (returned b, k))
run-returned (returned a) f n k b h = (a, refl, h)
run-returned (raised e) f n k b h = cc

pub bind-returned :
    {A B : Type 0} (m : Act A) (f : A → Act B) (n k : ℕ) (b : B)
    → (m >>= f) n ≡ (returned b, k)
    → (a : A) × (j : ℕ) × (m n ≡ (returned a, j)) × (f a j ≡ (returned b, k))
bind-returned m f n k b h =
    let (a, first, rest) = run-returned (m n).0 f (m n).1 k b h in
    (a, (m n).1, ap (λ r. (r, (m n).1)) first, rest)

-- What `gh api` did: its output, an exit with a message, or no run at all.
pub data Ran : Type 0 where
  exited : Option Json → Ran
  failed : Text → ℕ → Ran
  not_run : Ran

abbrev pub starts_with : Text → Text → Bool
starts_with [] s = true
starts_with (c ∷ p) [] = false
starts_with (c ∷ p) (d ∷ s) = nat_beq c d && starts_with p s

-- `part in s`
abbrev pub occurs : Text → Text → Bool
occurs part [] = starts_with part []
occurs part (c ∷ s) = starts_with part (c ∷ s) || occurs part s

-- `HTTP (40[134])` at the head of a text, and the first one in it
abbrev pub refused_here : Text → Option Text
refused_here s =
    if starts_with (codes "HTTP 401") s
    then some (codes "401")
    else if starts_with (codes "HTTP 403") s
    then some (codes "403")
    else if starts_with (codes "HTTP 404") s
    then some (codes "404")
    else none

abbrev pub first_refusal : Text → Option Text
first_refusal [] = none
first_refusal (c ∷ s) =
    let later = first_refusal s in
    elim (refused_here (c ∷ s)) [ some code ↦ some code | none ↦ later ]

unfoldable pub gh_api : Ran → Result Json
gh_api (exited (some j)) = returned j
gh_api (exited none) = raised unavailable
gh_api not_run = raised unavailable
gh_api (failed stderr code) =
    if occurs (codes "rate limit") (lower stderr)
    then raised unavailable
    else elim (first_refusal stderr) [
      | some status ↦ raised (denied (some status))
      | none ↦ if nat_beq code 4 then raised (denied none) else raised unavailable
    ]

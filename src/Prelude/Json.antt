-- ===== src/Prelude/Json.antt =====
-- What `json.loads` gives, and Python's operations on it: `get`, `isinstance`, `==`, truth, `{**a, k: v}`.
use Prim.Native.Nat.{ℕ}
use mathlib.Core.Path.{◌≡◌, refl}
use mathlib.Core.Bool.{Bool, true, false, ◌&&◌, not}
use mathlib.Core.Option.{Option, none, some}
use mathlib.Core.List.{List, [], ◌∷◌}
use native.Mathlib.Omega.{arith}
use hermes_fleet.Prelude.Tests.{nat_eq, list_eq, list_beq_iff, nat_beq, ◌==◌, if◌then◌else◌}
use hermes_fleet.Prelude.Lists.{length}
use hermes_fleet.Prelude.Text.{Text, is_nonempty}

mutual
  pub data Json : Type 0 where
    null : Json
    boolean : Bool → Json
    number : ℕ → Json
    string : Text → Json
    array : Items → Json
    object : Fields → Json

  pub data Items : Type 0 where
    no_items : Items
    item : Json → Items → Items

  pub data Fields : Type 0 where
    no_fields : Fields
    field : Text → Json → Fields → Fields

abbrev pub items : Items → List Json
items no_items = []
items (item j rest) = j ∷ items rest

abbrev pub field_names : Fields → List Text
field_names no_fields = []
field_names (field k j rest) = k ∷ field_names rest

-- `row.get(key)`
abbrev pub lookup : Text → Fields → Option Json
lookup key no_fields = none
lookup key (field k j rest) = if k == key then some j else lookup key rest

-- `isinstance(value, list)`, `str` and `dict`
abbrev pub as_list : Json → Option (List Json)
as_list (array xs) = some (items xs)
as_list _ = none

abbrev pub as_string : Json → Option Text
as_string (string s) = some s
as_string _ = none

abbrev pub as_object : Json → Option Fields
as_object (object fs) = some fs
as_object _ = none

-- `isinstance(value, int)`, of which a Boolean is one
abbrev pub as_int : Json → Option ℕ
as_int (number n) = some n
as_int (boolean true) = some 1
as_int (boolean false) = some 0
as_int _ = none

abbrev pub value_or : Option Json → Json → Json
value_or none d = d
value_or (some j) d = j

-- `row.get(key)`, with Python's None
abbrev pub get_field : Text → Fields → Json
get_field key fs = value_or (lookup key fs) null

-- `value is True`
abbrev pub is_true : Json → Bool
is_true (boolean b) = b
is_true _ = false

-- `bool(value)`
abbrev pub truthy : Json → Bool
truthy null = false
truthy (boolean b) = b
truthy (number n) = not (nat_beq n 0)
truthy (string s) = is_nonempty s
truthy (array no_items) = false
truthy (array (item j rest)) = true
truthy (object no_fields) = false
truthy (object (field k j rest)) = true

-- `{**fields, key: value}`: a key that is there keeps its place.
unfoldable pub set_field : Text → Json → Fields → Fields
set_field key v no_fields = field key v no_fields
set_field key v (field k j rest) =
    let others = set_field key v rest in if k == key then field k v rest else field k j others

-- `fields.pop(key, None)`
unfoldable pub remove_field : Text → Fields → Fields
remove_field key no_fields = no_fields
remove_field key (field k j rest) =
    let others = remove_field key rest in if k == key then others else field k j others

-- `a == b`: numbers and Booleans compare by value, objects without order.
abbrev mutual
  pub json_beq : Json → Json → Bool
  json_beq null null = true
  json_beq (boolean true) (boolean b) = b
  json_beq (boolean false) (boolean b) = not b
  json_beq (boolean true) (number n) = nat_beq n 1
  json_beq (boolean false) (number n) = nat_beq n 0
  json_beq (number m) (boolean true) = nat_beq m 1
  json_beq (number m) (boolean false) = nat_beq m 0
  json_beq (number m) (number n) = nat_beq m n
  json_beq (string s) (string t) = s == t
  json_beq (array xs) (array ys) = items_beq xs ys
  json_beq (object fs) (object gs) =
      nat_beq (length (field_names fs)) (length (field_names gs)) && fields_in fs gs
  json_beq _ _ = false

  pub items_beq : Items → Items → Bool
  items_beq no_items no_items = true
  items_beq (item x xs) (item y ys) = json_beq x y && items_beq xs ys
  items_beq _ _ = false

  pub fields_in : Fields → Fields → Bool
  fields_in no_fields gs = true
  fields_in (field k j rest) gs =
      elim (lookup k gs) [ none ↦ false | some j' ↦ json_beq j j' ] && fields_in rest gs

pub json_beq-string : (s : Text) (j : Json) → json_beq j (string s) ≡ true → j ≡ string s
json_beq-string s (string t) h = ground (arith, list_beq_iff t s)
json_beq-string s null h = cc
json_beq-string s (boolean true) h = cc
json_beq-string s (boolean false) h = cc
json_beq-string s (number n) h = cc
json_beq-string s (array xs) h = cc
json_beq-string s (object fs) h = cc

pub lookup-set_field :
    (key other : Text) (v : Json) (fs : Fields)
    → lookup other (set_field key v fs) ≡ (if key == other then some v else lookup other fs)
unfolding set_field
lookup-set_field key other v no_fields = refl
lookup-set_field key other v (field k j rest) = ground (
  arith,
  list_beq_iff k key,
  list_beq_iff k other,
  list_beq_iff key other,
  lookup-set_field key other v rest,
)

pub lookup-remove_field :
    (key other : Text) (fs : Fields)
    → lookup other (remove_field key fs) ≡ (if key == other then none else lookup other fs)
unfolding remove_field
lookup-remove_field key other no_fields = ground arith
lookup-remove_field key other (field k j rest) = ground (
  arith,
  list_beq_iff k key,
  list_beq_iff k other,
  list_beq_iff key other,
  lookup-remove_field key other rest,
)

pub get_field-set_field :
    (key other : Text) (v : Json) (fs : Fields)
    → get_field other (set_field key v fs) ≡ (if key == other then v else get_field other fs)
get_field-set_field key other v fs = ground (arith, lookup-set_field key other v fs)

pub get_field-remove_field :
    (key other : Text) (fs : Fields)
    → get_field other (remove_field key fs) ≡ (if key == other then null else get_field other fs)
get_field-remove_field key other fs = ground (arith, lookup-remove_field key other fs)

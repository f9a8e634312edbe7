-- ===== src/Origin/Settings.antt =====
-- `resolve_single_bind` and `configured_bind` of origin_routing.py, and public_config.py.
-- The resolver (`socket.getaddrinfo`) is a parameter: the addresses of a name, or none for a gaierror.
use hermes_fleet.Prelude.{
  ◌≡◌, refl, sym, ◌∙◌, Bool, true, ◌&&◌, ◌||◌, not, Option, none, some, List, [], ◌∷◌, ◌++◌, nat_eq,
  list_eq, ◌==◌, if◌then◌else◌, if_cases, contains, contains_iff, Elem, All, &&-left, &&-right,
  list_beq_iff,
}
use mathlib.Core.Bool.{false≢true}
use mathlib.Core.Path.{subst}
use hermes_fleet.Prelude.Dict.{Dict}
use hermes_fleet.Prelude.Text.{Text, codes, strip, is_nonempty, or_else}
use hermes_fleet.Origin.Routing.{get_or_empty}

abbrev pub Resolver : Type 0
Resolver = Text → Option (List Text)

abbrev pub wildcards : List Text
wildcards = codes "0.0.0.0" ∷ codes "::" ∷ []

-- `len(addresses) == 1` of the set of the addresses
abbrev pub all_same : Text → List Text → Bool
all_same a [] = true
all_same a (b ∷ rest) = b == a && all_same a rest

abbrev pub concrete : Text → Option Text
concrete a = if contains a wildcards then none else some a

abbrev pub single : Option (List Text) → Option Text
single none = none
single (some []) = none
single (some (a ∷ rest)) = if all_same a rest then concrete a else none

-- A ValueError is `none`.
unfoldable pub resolve_single_bind : Resolver → Text → Option Text
resolve_single_bind resolver value =
    let candidate = strip value in
    if not (is_nonempty candidate)
      || contains candidate (codes "0.0.0.0" ∷ codes "::" ∷ codes "*" ∷ [])
    then none
    else single (resolver candidate)

unfoldable pub configured_bind : Resolver → Text → Dict Text Text → Option Text
unfolding resolve_single_bind
configured_bind resolver kind env =
    resolve_single_bind resolver
      (or_else (get_or_empty env (codes "HANDOFF_" ++ kind)) (get_or_empty env kind))

-- A PublicUrlError is `none`.
unfoldable pub canonical_public_url : Dict Text Text → Option Text
canonical_public_url env =
    let origin = strip (get_or_empty env (codes "PUBLIC_ORIGIN")) in
    let base = strip (get_or_empty env (codes "PUBLIC_BASE")) in
    if is_nonempty origin && is_nonempty base && origin == base then some origin else none

-- One address, the only one that the resolver knows, and no wildcard.
pub record Concrete (addresses : Option (List Text)) (a : Text) : Type 0 where
  pub others : List Text
  pub resolved : addresses ≡ some (a ∷ others)
  pub only : All (λ b. b ≡ a) others
  pub no_wildcard : ¬ Elem a wildcards

all_same-All : (a : Text) (rest : List Text) → all_same a rest ≡ true → All (λ b. b ≡ a) rest
all_same-All a [] h = tt
all_same-All a (b ∷ rest) h =
    ((list_beq_iff b a).0 (&&-left (b == a) _ h), all_same-All a rest (&&-right (b == a) _ h))

single-Concrete : (o : Option (List Text)) (a : Text) → single o ≡ some a → Concrete o a
single-Concrete none a = λ h. cc
single-Concrete (some []) a = λ h. cc
single-Concrete (some (b ∷ rest)) a =
    if_cases (λ r. r ≡ some a → Concrete (some (b ∷ rest)) a) (all_same b rest) (concrete b) none
      (λ same.
        if_cases (λ r. r ≡ some a → Concrete (some (b ∷ rest)) a) (contains b wildcards) none
          (some b) (λ t h. cc)
          (λ t h.
            let e : b ≡ a = cc in
            subst (λ a. Concrete (some (b ∷ rest)) a) e
              (record {
                others = rest;
                resolved = refl;
                only = all_same-All b rest same;
                no_wildcard = λ k. false≢true (sym t ∙ (contains_iff b wildcards).1 k);
              })))
      (λ t h. cc)

-- A service that binds listens on one concrete address: the name resolves to it alone, and it is not a
-- wildcard, whether as a name or as the resolver's answer.
pub resolve_single_bind-Concrete :
    (resolver : Resolver) (value a : Text)
    → resolve_single_bind resolver value ≡ some a
    → Concrete (resolver (strip value)) a
unfolding resolve_single_bind
resolve_single_bind-Concrete resolver value a =
    if_cases (λ r. r ≡ some a → Concrete (resolver (strip value)) a)
      (not (is_nonempty (strip value))
        || contains (strip value) (codes "0.0.0.0" ∷ codes "::" ∷ codes "*" ∷ []))
      none (single (resolver (strip value))) (λ t h. cc)
      (λ t h. single-Concrete (resolver (strip value)) a h)

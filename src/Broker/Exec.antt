-- ===== src/Broker/Exec.antt =====
-- Methods that change the broker and may raise: the state comes back beside the exception too.
use hermes_fleet.Prelude.{
  ◌≡◌, refl, ◌⊎◌, inl, inr, Bool, true, false, Option, none, some, [], ◌∷◌, ◌++◌,
}
use hermes_fleet.Prelude.Dict
use hermes_fleet.Prelude.{list_eq, nat_eq, ℕ}
use hermes_fleet.Prelude.Text.{Text}
use hermes_fleet.Broker.Types.{Session, Broker, Event}
use Prim.Native.String.{String}

pub data Exn : Type 0 where
  broker_error : ℕ → String → Exn
  other : Exn

pub data Result (A : Type 0) : Type 0 where
  ok : A → Result A
  raise : Exn → Result A

abbrev pub raises : {A : Type 0} → Result A → Bool
raises (ok a) = false
raises (raise e) = true

pub Result-cases :
    {A : Type 0} (r : Result A) → ((a : A) × (r ≡ ok a)) ⊎ ((e : Exn) × (r ≡ raise e))
Result-cases (ok a) = inl (a, refl)
Result-cases (raise e) = inr (e, refl)

abbrev pub Exec : Type 0 → Type 0
Exec A = Broker → Result A × Broker

abbrev pub pure : {A : Type 0} → A → Exec A
pure a b = (ok a, b)

abbrev pub fail : {A : Type 0} → Exn → Exec A
fail e b = (raise e, b)

abbrev pub refuse : {A : Type 0} → ℕ → String → Exec A
refuse status message = fail (broker_error status message)

abbrev pub lift : {A : Type 0} → Result A → Exec A
lift r b = (r, b)

abbrev pub gets : {A : Type 0} → (Broker → A) → Exec A
gets f b = (ok (f b), b)

abbrev pub modify : (Broker → Broker) → Exec (Unit {0})
modify f b = (ok tt, f b)

abbrev pub then_run : {A B : Type 0} → Result A → (A → Exec B) → Exec B
then_run (ok a) f b = f a b
then_run (raise e) f b = (raise e, b)

infixl 5 ◌>>=◌ ◌>>◌
abbrev pub ◌>>=◌ : {A B : Type 0} → Exec A → (A → Exec B) → Exec B
◌>>=◌ m f b = let (r, c) = m b in then_run r f c

abbrev pub ◌>>◌ : {B : Type 0} → Exec (Unit {0}) → Exec B → Exec B
m >> k = m >>= λ _. k

abbrev pub handle : {A : Type 0} → Result A → (Exn → Exec A) → Exec A
handle (ok a) f b = (ok a, b)
handle (raise e) f b = f e b

-- `try: m except Exception as e: f e`
abbrev pub catching : {A : Type 0} → Exec A → (Exn → Exec A) → Exec A
catching m f b = let (r, c) = m b in handle r f c

-- `if not test: raise BrokerError(status, message)`
abbrev pub require : Bool → ℕ → String → Exec (Unit {0})
require true status message = pure tt
require false status message = refuse status message

abbrev pub or_refuse : {A : Type 0} → Option A → ℕ → String → Exec A
or_refuse (some a) status message = pure a
or_refuse none status message = refuse status message

-- An assignment to fields of the session that is known by `sid`.
abbrev pub update_found : Option Session → (Session → Session) → Text → Broker → Broker
update_found none f sid b = b
update_found (some s) f sid b = record b { sessions = Dict.put b.sessions sid (f s) }

unfoldable pub update_session : Text → (Session → Session) → Broker → Broker
update_session sid f b = update_found (Dict.get b.sessions sid) f sid b

unfoldable pub emit : Event → Broker → Broker
emit e b = record b { events = b.events ++ e ∷ [] }

-- ===== src/Broker/Steps/Rules.antt =====
-- Runs of sections for the ways in which the operations are put together.
use hermes_fleet.Prelude.{
  ℕ, ◌≡◌, refl, Bool, true, false, Option, none, some, if_cases, list_eq, nat_eq, if◌then◌else◌,
}
use hermes_fleet.Prelude.Dict
use hermes_fleet.Prelude.Text.{Text}
use hermes_fleet.Broker.Types.{Session, Broker}
use hermes_fleet.Broker.Exec.{
  Result, ok, raise, Exec, lift, then_run, ◌>>=◌, ◌>>◌, require, or_refuse, update_session,
}
use hermes_fleet.Broker.Steps.{Change, Section, changes, Steps, done, Steps-trans}
use Prim.Native.String.{String}

-- `m`, started in `b`, is a run of sections.
abbrev pub RunsAt : {A : Type 0} → Exec A → Broker → Type 0
RunsAt m b = Steps b (m b).1

then_run-Steps :
    {A B : Type 0} (r : Result A) (f : A → Exec B) (b c : Broker)
    → Steps b c
    → ((a : A) → r ≡ ok a → RunsAt (f a) c)
    → Steps b (then_run r f c).1
then_run-Steps (ok a) f b c p k = Steps-trans p (k a refl)
then_run-Steps (raise e) f b c p k = p

pub bind-Steps :
    {A B : Type 0} (m : Exec A) (f : A → Exec B) (b : Broker)
    → RunsAt m b
    → ((a : A) → (m b).0 ≡ ok a → RunsAt (f a) (m b).1)
    → RunsAt (m >>= f) b
bind-Steps m f b p k = then_run-Steps (m b).0 f b (m b).1 p k

-- The first part only reads.
pub read-Steps :
    {A B : Type 0} (m : Exec A) (f : A → Exec B) (b : Broker)
    → (m b).1 ≡ b
    → ((a : A) → (m b).0 ≡ ok a → RunsAt (f a) b)
    → RunsAt (m >>= f) b
read-Steps m f b e k = then_run-Steps (m b).0 f b (m b).1 (rw e done) (λ a h. rw e (k a h))

pub lift-Steps :
    {A B : Type 0} (r : Result A) (f : A → Exec B) (b : Broker)
    → ((a : A) → r ≡ ok a → RunsAt (f a) b)
    → RunsAt (lift r >>= f) b
lift-Steps (ok a) f b k = k a refl
lift-Steps (raise e) f b k = done

pub option-Steps :
    {A B : Type 0} (o : Option A) (status : ℕ) (message : String) (f : A → Exec B) (b : Broker)
    → ((a : A) → o ≡ some a → RunsAt (f a) b)
    → RunsAt (or_refuse o status message >>= f) b
option-Steps (some a) status message f b k = k a refl
option-Steps none status message f b k = done

pub require-Steps :
    {B : Type 0} (t : Bool) (status : ℕ) (message : String) (m : Exec B) (b : Broker)
    → (t ≡ true → RunsAt m b)
    → RunsAt (require t status message >> m) b
require-Steps true status message m b k = k refl
require-Steps false status message m b k = done

pub if-Steps :
    {A : Type 0} (t : Bool) (m n : Exec A) (b : Broker)
    → (t ≡ true → RunsAt m b)
    → (t ≡ false → RunsAt n b)
    → RunsAt (if t then m else n) b
if-Steps t m n b = if_cases (λ k. RunsAt k b) t m n

-- A change of the session that is stored.
pub changes_at :
    (sid : Text) (f : Session → Session) (b : Broker) (s : Session)
    → Dict.get b.sessions sid ≡ some s
    → Change b.ttl s (f s)
    → Section b (update_session sid f b)
changes_at sid f b s e c = changes sid f b λ t h. let same : s ≡ t = cc (e, h) in rw (← same) c

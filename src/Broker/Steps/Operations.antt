-- ===== src/Broker/Steps/Operations.antt =====
-- The page, the extension, the end and the confirmation, as runs of sections.
use hermes_fleet.Prelude.{
  ℕ, ◌≡◌, refl, inl, inr, true, ◌&&◌, some, Option-cases, arith, list_eq, nat_eq, ◌==◌, &&-left,
  ltb,
}
use hermes_fleet.Prelude.Dict
use hermes_fleet.Prelude.Text.{Text, upper, codes, strip, is_nonempty, lower}
use hermes_fleet.Broker.Types.{ended, is_live, state_name, Session, Broker, Env}
use hermes_fleet.Broker.Exec.{ok, Exec, ◌>>=◌}
use hermes_fleet.Broker.Terminal.{expire_in_background}
use hermes_fleet.Broker.Viewer.{
  public_session, human_may_connect, page_section, public_page, extend_section, extend, end_session,
  confirm_takeover,
}
use hermes_fleet.Broker.Steps.{opens, extends, confirms, done, one}
use hermes_fleet.Broker.Steps.Rules.{
  RunsAt, bind-Steps, read-Steps, require-Steps, if-Steps, changes_at,
}
use hermes_fleet.Broker.Steps.Expiry.{terminate-Steps, expire_in_background-Steps}
use hermes_fleet.Broker.Invariant.Kept.{Inv}

-- What is known of the session that `_public_session` returns.
pub record Found (sid email : Text) (b : Broker) (s : Session) : Type 0 where
  pub stored : Dict.get b.sessions sid ≡ some s
  pub named : is_nonempty (strip email) ≡ true
  pub bound : (lower (strip email) == s.access_email) ≡ true

module _ (sid email : Text) (b : Broker) where
  pub public_session-state : (public_session sid email b).1 ≡ b
  unfolding public_session
  public_session-state = ground arith

  pub public_session-Found :
      (s : Session) → (public_session sid email b).0 ≡ ok s → Found sid email b s
  unfolding public_session
  public_session-Found s h = record {
    stored = ground arith;
    named = ground arith;
    bound = ground arith;
  }

pub public-Steps :
    {B : Type 0} (sid email : Text) (f : Session → Exec B) (b : Broker)
    → ((s : Session) → Dict.get b.sessions sid ≡ some s → RunsAt (f s) b)
    → RunsAt (public_session sid email >>= f) b
public-Steps sid email f b k =
    read-Steps (public_session sid email) f b (public_session-state sid email b)
      λ s h. k s (public_session-Found sid email b s h).stored

page_section-Steps :
    (env : Env) (now : ℕ) (method sid : Text) (b : Broker)
    → RunsAt (page_section env now method sid) b
unfolding page_section
page_section-Steps env now method sid b = elim (Option-cases (Dict.get b.sessions sid)) [
  | inl e ↦ rw e done
  | inr (s, e) ↦ rw e (
      require-Steps (human_may_connect now s) 410 (state_name s.state) _ b λ may.
        if-Steps (upper method == codes "HEAD") _ _ b (λ t. done)
          (λ t. one (changes_at sid _ b s e (opens env now s may))))
]

pub public_page-Steps :
    (env : Env) (now : ℕ) (sid method email : Text) (b : Broker)
    → RunsAt (public_page env now sid method email) b
unfolding public_page
public_page-Steps env now sid method email b = public-Steps sid email _ b λ s e.
    bind-Steps (expire_in_background now sid) (λ _. page_section env now method sid) b
      (expire_in_background-Steps now sid b) λ u h. page_section-Steps env now method sid _

extend_section-Steps : (now : ℕ) (sid : Text) (b : Broker) → RunsAt (extend_section now sid) b
unfolding extend_section
extend_section-Steps now sid b = elim (Option-cases (Dict.get b.sessions sid)) [
  | inl e ↦ rw e done
  | inr (s, e) ↦ rw e (
      require-Steps (is_live s.state && ltb now s.expires_at) 410 (state_name s.state) _ b
        λ may. one (changes_at sid _ b s e (extends now s (&&-left _ _ may))))
]

pub extend-Steps : (now : ℕ) (sid email : Text) (b : Broker) → RunsAt (extend now sid email) b
unfolding extend
extend-Steps now sid email b = public-Steps sid email _ b λ s e.
    bind-Steps (expire_in_background now sid) (λ _. extend_section now sid) b
      (expire_in_background-Steps now sid b) λ u h. extend_section-Steps now sid _

pub end_session-Steps :
    (env : Env) (now : ℕ) (sid email : Text) (b : Broker)
    → Inv b
    → RunsAt (end_session env now sid email) b
unfolding end_session
end_session-Steps env now sid email b v =
    public-Steps sid email _ b λ s e. terminate-Steps env now sid ended true b refl v

pub confirm_takeover-Steps :
    (now : ℕ) (sid email : Text) (b : Broker) → RunsAt (confirm_takeover now sid email) b
unfolding confirm_takeover
confirm_takeover-Steps now sid email b = public-Steps sid email _ b λ s e.
    require-Steps (human_may_connect now s) 410 (state_name s.state) _ b
      λ may. one (changes_at sid _ b s e (confirms s))

-- ===== src/Issuance.antt =====
-- plugins/browser-handoff/policy.py: may the agent's plugin ask the broker for a handoff?
-- An attribute of the invocation is given as the text `str(value or "")`.
pub mod Examples
use mathlib.Core.Bool.{false≢true}
use hermes_fleet.Prelude.{
  ◌≡◌, refl, sym, ◌∙◌, ◌↔◌, ◌⊎◌, inl, inr, Bool, true, false, ◌&&◌, ◌||◌, not, Option, none, some,
  List, [], ◌∷◌, nat_eq, list_eq, pair_eq, ◌==◌, arith, if◌then◌else◌, if_cases, contains,
  contains_iff, Elem, Bool-cases, Option-cases, &&-left, &&-right, &&-true, list_beq_iff,
}
use hermes_fleet.Prelude.Text.{Text, codes, strip, is_nonempty}

pub record Invocation : Type 0 where
  pub profile : Text
  pub platform : Text
  pub user_id : Text
  pub chat_id : Text
  pub chat_type : Text
  pub session_id : Text
  pub browser_control_provider : Text
  pub browser_control_subject : Text

-- An absent e-mail or profile is empty.
pub record IssueRequest : Type 0 where
  pub invocation : Option Invocation
  pub requested_email : Text
  pub requested_profile : Text
  pub desktop_authorized_subjects : List (Text × (Text × Text))

pub data Verdict : Type 0 where
  allowed : Verdict
  model_supplied_identity : Verdict
  missing_invocation_context : Verdict
  unauthorized_desktop_subject : Verdict

abbrev pub filled : Text → Bool
filled s = is_nonempty (strip s)

abbrev pub excluded_desktop_identities : List (Text × Text)
excluded_desktop_identities = (codes "server-internal", codes "server-internal") ∷ []

abbrev pub desktop_context : Invocation → Bool
desktop_context i =
    filled i.profile
    && filled i.browser_control_provider
    && filled i.browser_control_subject
    && filled i.session_id

abbrev pub chat_context : Invocation → Bool
chat_context i =
    filled i.profile
    && filled i.platform
    && filled i.user_id
    && filled i.chat_id
    && filled i.chat_type

unfoldable pub desktop_allowed : Invocation → List (Text × (Text × Text)) → Verdict
desktop_allowed i subjects =
    if not (desktop_context i)
    then missing_invocation_context
    else if contains (i.browser_control_provider, i.browser_control_subject)
        excluded_desktop_identities
    then unauthorized_desktop_subject
    else if contains (i.profile, (i.browser_control_provider, i.browser_control_subject)) subjects
    then allowed
    else unauthorized_desktop_subject

abbrev pub judge : Option Invocation → List (Text × (Text × Text)) → Verdict
judge none subjects = missing_invocation_context
judge (some i) subjects =
    if i.platform == codes "desktop"
    then desktop_allowed i subjects
    else if chat_context i
    then allowed
    else missing_invocation_context

unfoldable pub issuance_allowed : IssueRequest → Verdict
unfolding desktop_allowed
issuance_allowed r =
    if is_nonempty r.requested_email || is_nonempty r.requested_profile
    then model_supplied_identity
    else judge r.invocation r.desktop_authorized_subjects

-- A person of the fleet's policy at a desktop.
pub record DesktopPerson (i : Invocation) (subjects : List (Text × (Text × Text))) : Type 0 where
  pub context : desktop_context i ≡ true
  pub person :
      ¬ Elem (i.browser_control_provider, i.browser_control_subject) excluded_desktop_identities
  pub mapped : Elem (i.profile, (i.browser_control_provider, i.browser_control_subject)) subjects

-- What an invocation shows: at a desktop a person of the policy, elsewhere a whole chat context.
abbrev pub Shown : Invocation → List (Text × (Text × Text)) → Type 0
Shown i subjects =
    ((i.platform ≡ codes "desktop") × DesktopPerson i subjects)
    ⊎ ((¬ (i.platform ≡ codes "desktop")) × (chat_context i ≡ true))

pub record Issued (r : IssueRequest) : Type 0 where
  pub no_email : r.requested_email ≡ []
  pub no_profile : r.requested_profile ≡ []
  pub invocation : Invocation
  pub given : r.invocation ≡ some invocation
  pub shown : Shown invocation r.desktop_authorized_subjects

module _ (i : Invocation) (subjects : List (Text × (Text × Text))) where
  desktop_allowed-DesktopPerson : desktop_allowed i subjects ≡ allowed → DesktopPerson i subjects
  unfolding desktop_allowed
  desktop_allowed-DesktopPerson =
      if_cases (λ v. v ≡ allowed → DesktopPerson i subjects) (not (desktop_context i)) _ _
        (λ t h. cc)
        λ whole.
          if_cases (λ v. v ≡ allowed → DesktopPerson i subjects)
            (contains (i.browser_control_provider, i.browser_control_subject)
              excluded_desktop_identities)
            _ _ (λ t h. cc)
            λ real.
              if_cases (λ v. v ≡ allowed → DesktopPerson i subjects)
                (contains (i.profile, (i.browser_control_provider, i.browser_control_subject))
                  subjects)
                allowed unauthorized_desktop_subject
                (λ t h. record {
                  context = ground arith;
                  person = λ e. false≢true (
                      sym real
                      ∙ (contains_iff {A = Text × Text}
                            (i.browser_control_provider, i.browser_control_subject)
                            excluded_desktop_identities).1
                          e);
                  mapped =
                      (contains_iff {A = Text × (Text × Text)}
                          (i.profile, (i.browser_control_provider, i.browser_control_subject))
                          subjects).0
                        t;
                })
                (λ t h. cc)

  judge-Shown : judge (some i) subjects ≡ allowed → Shown i subjects
  judge-Shown =
      if_cases (λ v. v ≡ allowed → Shown i subjects) (i.platform == codes "desktop") _ _
        (λ t h. inl ((list_beq_iff _ _).0 t, desktop_allowed-DesktopPerson h))
        λ t.
          if_cases (λ v. v ≡ allowed → Shown i subjects) (chat_context i) allowed
            missing_invocation_context
            (λ whole h. inr ((λ e. false≢true (sym t ∙ (list_beq_iff _ _).1 e)), whole))
            (λ whole h. cc)

-- A handoff is issued only where the model named no identity, and the gateway's invocation shows a mapped
-- person at a desktop, never the server itself, or a whole chat context.
pub issuance_allowed-Issued : (r : IssueRequest) → issuance_allowed r ≡ allowed → Issued r
unfolding issuance_allowed
issuance_allowed-Issued r =
    if_cases (λ v. v ≡ allowed → Issued r)
      (is_nonempty r.requested_email || is_nonempty r.requested_profile) _ _ (λ t h. cc)
      (λ t h. elim (Option-cases r.invocation) [
        | inl e ↦ cc (rw e at h)
        | inr (i, e) ↦ record {
          no_email = empty_text r.requested_email (ground arith);
          no_profile = empty_text r.requested_profile (ground arith);
          invocation = i;
          given = e;
          shown = judge-Shown i r.desktop_authorized_subjects (rw e at h);
        }
      ])
  where
    empty_text : (s : Text) → is_nonempty s ≡ false → s ≡ []
    empty_text [] h = refl
    empty_text (c ∷ s) h = cc

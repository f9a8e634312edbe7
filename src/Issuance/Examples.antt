-- ===== src/Issuance/Examples.antt =====
-- A chat, and a mapped person at a desktop.
use hermes_fleet.Prelude.{◌≡◌, refl, some, [], ◌∷◌}
use hermes_fleet.Prelude.Text.{codes, strip, lstrip, is_space}
use hermes_fleet.Issuance.{
  Invocation, IssueRequest, issuance_allowed, desktop_allowed, allowed, Issued,
  issuance_allowed-Issued,
}

abbrev desktop : Invocation
desktop = record {
  profile = codes "ada";
  platform = codes "desktop";
  user_id = [];
  chat_id = [];
  chat_type = [];
  session_id = codes "7";
  browser_control_provider = codes "idp";
  browser_control_subject = codes "p";
}

abbrev request : IssueRequest
request = record {
  invocation = some desktop;
  requested_email = [];
  requested_profile = [];
  desktop_authorized_subjects = (codes "ada", (codes "idp", codes "p")) ∷ [];
}

issued : issuance_allowed request ≡ allowed
unfolding issuance_allowed desktop_allowed strip lstrip is_space
issued = refl

issuance_allowed-Issued_example : Issued request
issuance_allowed-Issued_example = issuance_allowed-Issued request issued

-- ===== src/Origin/Rollout.antt =====
-- rollout_contract.py: the versions that a rollout of the scoped handoff admits.
use hermes_fleet.Prelude.{
  ℕ, ◌≡◌, Bool, true, ◌&&◌, arith, nat_eq, list_eq, ◌==◌, if◌then◌else◌, nat_beq,
}
use hermes_fleet.Prelude.Text.{Text, codes}

abbrev pub policy_version : ℕ
policy_version = 1

abbrev pub protocol_version : ℕ
protocol_version = 1

pub record RolloutVersions : Type 0 where
  pub plugin : ℕ
  pub broker : ℕ
  pub policy : ℕ

-- `preflight` returns, or raises a RolloutContractError for the first version that does not fit.
pub data Preflight : Type 0 where
  admitted : Preflight
  plugin_unsupported : Preflight
  broker_unsupported : Preflight
  policy_unsupported : Preflight

unfoldable pub preflight : RolloutVersions → Preflight
preflight v =
    if nat_beq v.plugin protocol_version
    then if nat_beq v.broker protocol_version
      then if nat_beq v.policy policy_version then admitted else policy_unsupported
      else broker_unsupported
    else plugin_unsupported

-- Is the header of the running plugin the text of the version?
unfoldable pub verify_running_plugin_protocol : Text → Bool
verify_running_plugin_protocol value = value == codes "1"

unfoldable pub staging_plugin_is_compatible : ℕ → ℕ → Bool
staging_plugin_is_compatible plugin_protocol broker_protocol =
    nat_beq plugin_protocol protocol_version && nat_beq broker_protocol 0

-- Where a plugin may be staged against a legacy broker, the preflight refuses the version of that broker.
pub staged_not_admitted :
    (v : RolloutVersions)
    → staging_plugin_is_compatible v.plugin v.broker ≡ true
    → preflight v ≡ broker_unsupported
unfolding staging_plugin_is_compatible preflight
staged_not_admitted v h = ground arith

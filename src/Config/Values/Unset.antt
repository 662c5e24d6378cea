-- ===== src/Config/Values/Unset.antt =====
-- A key of src/config/settings.ts that is unset, and its default.
use dg_cli.Common.{◌≡◌, refl, trim, String, Option, some}
use dg_cli.Common.Result.{ok}
use dg_cli.Config.{DgUserConfig, ConfigKey, default_config}
use dg_cli.Config.Parse.{
  Url, parse_policy_mode, parse_script_gate_mode, parse_on_warn, parse_on_incomplete,
  parse_cooldown_on_unknown, parse_boolean, parse_cooldown_age, parse_cooldown_exempt, parse_url,
}
use dg_cli.Config.Values.{get_config_value, set_config_value, unset_config_value}

-- The default URL, as `new URL` reads it.
abbrev pub ReadsDefault : (String → Option Url) → Type 0
ReadsDefault new_url =
    new_url "https://api.westbayberry.com"
    ≡ some (record {
      protocol = "https:";
      hostname = "api.westbayberry.com";
      href = "https://api.westbayberry.com/";
    })

-- Unsetting a key never fails, and gives it the value that it has in the default configuration.
pub unset_config_value-get :
    (new_url : String → Option Url) (c : DgUserConfig) (key : ConfigKey)
    → ReadsDefault new_url
    → (c' : DgUserConfig) × (unset_config_value new_url c key ≡ ok c')
      × (get_config_value c' key ≡ get_config_value default_config key)
unfolding unset_config_value get_config_value set_config_value parse_policy_mode
    parse_script_gate_mode parse_on_warn parse_on_incomplete parse_cooldown_on_unknown parse_boolean
    parse_cooldown_age parse_cooldown_exempt parse_url trim
unset_config_value-get new_url c ConfigKey.api_base_url h =
    (record c { api = record { base_url = "https://api.westbayberry.com" } }, rw h refl, refl)
unset_config_value-get new_url c ConfigKey.org_id h = (_, refl, refl)
unset_config_value-get new_url c ConfigKey.policy_mode h = (_, refl, refl)
unset_config_value-get new_url c ConfigKey.policy_trust_project_allowlists h = (_, refl, refl)
unset_config_value-get new_url c ConfigKey.policy_allow_force_override h = (_, refl, refl)
unset_config_value-get new_url c ConfigKey.policy_script_hardening h = (_, refl, refl)
unset_config_value-get new_url c ConfigKey.policy_shim_fail_closed h = (_, refl, refl)
unset_config_value-get new_url c ConfigKey.policy_strict_egress h = (_, refl, refl)
unset_config_value-get new_url c ConfigKey.script_gate_mode h = (_, refl, refl)
unset_config_value-get new_url c ConfigKey.script_gate_observe h = (_, refl, refl)
unset_config_value-get new_url c ConfigKey.git_hook_on_warn h = (_, refl, refl)
unset_config_value-get new_url c ConfigKey.git_hook_on_incomplete h = (_, refl, refl)
unset_config_value-get new_url c ConfigKey.cooldown_age h = (_, refl, refl)
unset_config_value-get new_url c ConfigKey.cooldown_npm_age h = (_, refl, refl)
unset_config_value-get new_url c ConfigKey.cooldown_pypi_age h = (_, refl, refl)
unset_config_value-get new_url c ConfigKey.cooldown_cargo_age h = (_, refl, refl)
unset_config_value-get new_url c ConfigKey.cooldown_on_unknown h = (_, refl, refl)
unset_config_value-get new_url c ConfigKey.cooldown_exempt h = (_, refl, refl)
unset_config_value-get new_url c ConfigKey.audit_upload h = (_, refl, refl)

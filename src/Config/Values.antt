-- ===== src/Config/Values.antt =====
-- One key of the configuration, read and written: src/config/settings.ts.
pub mod Frame
pub mod Unset
use dg_cli.Common.{String, Bool, true, false, Option, List, map, keep, not, ◌||◌, trim}
use dg_cli.Common.Result.{Result, ok, err, ◌>>=◌}
use dg_cli.Config
use dg_cli.Config.{
  DgUserConfig, ConfigKey, config_keys, default_config, mode_text, script_gate_mode_text,
  on_warn_text, on_incomplete_text, on_unknown_text,
}
use dg_cli.Config.Parse.{
  Url, Parsed, parse_policy_mode, parse_script_gate_mode, parse_on_warn, parse_on_incomplete,
  parse_cooldown_on_unknown, parse_boolean, parse_cooldown_age, parse_cooldown_exempt, parse_url,
}

-- String(flag)
abbrev pub bool_text : Bool → String
bool_text true = "true"
bool_text false = "false"

unfoldable pub get_config_value : DgUserConfig → ConfigKey → String
get_config_value config ConfigKey.api_base_url = config.api.base_url
get_config_value config ConfigKey.org_id = config.org.id
get_config_value config ConfigKey.policy_mode = mode_text config.policy.mode
get_config_value config ConfigKey.policy_trust_project_allowlists =
    bool_text config.policy.trust_project_allowlists
get_config_value config ConfigKey.policy_allow_force_override =
    bool_text config.policy.allow_force_override
get_config_value config ConfigKey.policy_script_hardening = bool_text config.policy.script_hardening
get_config_value config ConfigKey.policy_shim_fail_closed = bool_text config.policy.shim_fail_closed
get_config_value config ConfigKey.policy_strict_egress = bool_text config.policy.strict_egress
get_config_value config ConfigKey.script_gate_mode = script_gate_mode_text config.script_gate.mode
get_config_value config ConfigKey.script_gate_observe = bool_text config.script_gate.observe
get_config_value config ConfigKey.git_hook_on_warn = on_warn_text config.git_hook.on_warn
get_config_value config ConfigKey.git_hook_on_incomplete =
    on_incomplete_text config.git_hook.on_incomplete
get_config_value config ConfigKey.cooldown_age = config.cooldown.age
get_config_value config ConfigKey.cooldown_npm_age = config.cooldown.npm_age
get_config_value config ConfigKey.cooldown_pypi_age = config.cooldown.pypi_age
get_config_value config ConfigKey.cooldown_cargo_age = config.cooldown.cargo_age
get_config_value config ConfigKey.cooldown_on_unknown = on_unknown_text config.cooldown.on_unknown
get_config_value config ConfigKey.cooldown_exempt = config.cooldown.exempt
get_config_value config ConfigKey.audit_upload = bool_text config.audit.upload

-- The keys that are listed only on request.
pub is_advanced : ConfigKey → Bool
is_advanced ConfigKey.org_id = true
is_advanced ConfigKey.policy_script_hardening = true
is_advanced ConfigKey.policy_shim_fail_closed = true
is_advanced ConfigKey.policy_strict_egress = true
is_advanced ConfigKey.script_gate_observe = true
is_advanced ConfigKey.cooldown_npm_age = true
is_advanced ConfigKey.cooldown_pypi_age = true
is_advanced ConfigKey.cooldown_cargo_age = true
is_advanced _ = false

unfoldable pub list_config : DgUserConfig → Bool → List (ConfigKey × String)
unfolding is_advanced get_config_value
list_config config include_advanced =
    map (λ key. (key, get_config_value config key))
      (keep (λ key. include_advanced || not (is_advanced key)) config_keys)

-- What is done with the value of a parser that did not throw.
module _ {A : Type 0} where
  abbrev pub set_parsed : Parsed A → (A → DgUserConfig) → Parsed DgUserConfig
  set_parsed (err message) store = err message
  set_parsed (ok value) store = ok (store value)

unfoldable pub set_config_value :
    (String → Option Url) → DgUserConfig → ConfigKey → String → Parsed DgUserConfig
set_config_value new_url c ConfigKey.api_base_url raw =
    set_parsed (parse_url new_url raw) (λ u. record c { api = record { base_url = u } })
set_config_value new_url c ConfigKey.org_id raw = ok (record c { org = record { id = trim raw } })
set_config_value new_url c ConfigKey.policy_mode raw =
    set_parsed (parse_policy_mode raw) (λ m. record c { policy = record (c.policy) { mode = m } })
set_config_value new_url c ConfigKey.policy_trust_project_allowlists raw =
    set_parsed (parse_boolean raw "policy.trustProjectAllowlists")
      (λ v. record c { policy = record (c.policy) { trust_project_allowlists = v } })
set_config_value new_url c ConfigKey.policy_allow_force_override raw =
    set_parsed (parse_boolean raw "policy.allowForceOverride")
      (λ v. record c { policy = record (c.policy) { allow_force_override = v } })
set_config_value new_url c ConfigKey.policy_script_hardening raw =
    set_parsed (parse_boolean raw "policy.scriptHardening")
      (λ v. record c { policy = record (c.policy) { script_hardening = v } })
set_config_value new_url c ConfigKey.policy_shim_fail_closed raw =
    set_parsed (parse_boolean raw "policy.shimFailClosed")
      (λ v. record c { policy = record (c.policy) { shim_fail_closed = v } })
set_config_value new_url c ConfigKey.policy_strict_egress raw =
    set_parsed (parse_boolean raw "policy.strictEgress")
      (λ v. record c { policy = record (c.policy) { strict_egress = v } })
set_config_value new_url c ConfigKey.script_gate_mode raw =
    set_parsed (parse_script_gate_mode raw)
      (λ v. record c { script_gate = record (c.script_gate) { mode = v } })
set_config_value new_url c ConfigKey.script_gate_observe raw =
    set_parsed (parse_boolean raw "scriptGate.observe")
      (λ v. record c { script_gate = record (c.script_gate) { observe = v } })
set_config_value new_url c ConfigKey.git_hook_on_warn raw =
    set_parsed (parse_on_warn raw)
      (λ v. record c { git_hook = record (c.git_hook) { on_warn = v } })
set_config_value new_url c ConfigKey.git_hook_on_incomplete raw =
    set_parsed (parse_on_incomplete raw)
      (λ v. record c { git_hook = record (c.git_hook) { on_incomplete = v } })
set_config_value new_url c ConfigKey.cooldown_age raw =
    set_parsed (parse_cooldown_age raw "cooldown.age" false)
      (λ v. record c { cooldown = record (c.cooldown) { age = v } })
set_config_value new_url c ConfigKey.cooldown_npm_age raw =
    set_parsed (parse_cooldown_age raw "cooldown.npm.age" true)
      (λ v. record c { cooldown = record (c.cooldown) { npm_age = v } })
set_config_value new_url c ConfigKey.cooldown_pypi_age raw =
    set_parsed (parse_cooldown_age raw "cooldown.pypi.age" true)
      (λ v. record c { cooldown = record (c.cooldown) { pypi_age = v } })
set_config_value new_url c ConfigKey.cooldown_cargo_age raw =
    set_parsed (parse_cooldown_age raw "cooldown.cargo.age" true)
      (λ v. record c { cooldown = record (c.cooldown) { cargo_age = v } })
set_config_value new_url c ConfigKey.cooldown_on_unknown raw =
    set_parsed (parse_cooldown_on_unknown raw)
      (λ v. record c { cooldown = record (c.cooldown) { on_unknown = v } })
set_config_value new_url c ConfigKey.cooldown_exempt raw =
    set_parsed (parse_cooldown_exempt raw)
      (λ v. record c { cooldown = record (c.cooldown) { exempt = v } })
set_config_value new_url c ConfigKey.audit_upload raw =
    set_parsed (parse_boolean raw "audit.upload") (λ v. record c { audit = record { upload = v } })

unfoldable pub unset_config_value :
    (String → Option Url) → DgUserConfig → ConfigKey → Parsed DgUserConfig
unset_config_value new_url config key =
    set_config_value new_url config key (get_config_value default_config key)

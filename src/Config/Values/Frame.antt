-- ===== src/Config/Values/Frame.antt =====
-- Setting a key of src/config/settings.ts leaves the others as they are.
use dg_cli.Common.{◌≡◌, ◌≢◌, subst, trim, String, Option, arith}
use dg_cli.Common.Result.{ok, err}
use dg_cli.Config.{DgUserConfig, ConfigKey}
use dg_cli.Config.Parse.{Url, Parsed}
use dg_cli.Config.Values.{get_config_value, set_parsed, set_config_value}

module _ {A : Type 0} where
  -- What holds of the configuration with any value stored holds of the result.
  set_parsed-stores :
      (P : DgUserConfig → Type 0) (parsed : Parsed A) (store : A → DgUserConfig) (c : DgUserConfig)
      → ((value : A) → P (store value))
      → set_parsed parsed store ≡ ok c
      → P c
  set_parsed-stores P (err message) store c all h = absurd (ground arith)
  set_parsed-stores P (ok value) store c all h = subst P (ground arith) (all value)

-- A store to one key leaves the value of each other.
Keeps : DgUserConfig → ConfigKey → DgUserConfig → Type 0
Keeps c key d = get_config_value d key ≡ get_config_value c key

-- A value that is set for one key changes what is read of that key only.
pub set_config_value-frame :
    (new_url : String → Option Url) (c c' : DgUserConfig) (key : ConfigKey) (raw : String)
    (other : ConfigKey)
    → key ≢ other
    → set_config_value new_url c key raw ≡ ok c'
    → get_config_value c' other ≡ get_config_value c other
unfolding get_config_value set_config_value Keeps
set_config_value-frame new_url c c' ConfigKey.api_base_url raw other apart h =
    set_parsed-stores (Keeps c other) _ _ c' (λ v. ground arith) h
set_config_value-frame new_url c c' ConfigKey.org_id raw other apart h =
    set_parsed-stores (Keeps c other) (ok (trim raw)) (λ v. record c { org = record { id = v } }) c'
      (λ v. ground arith) h
set_config_value-frame new_url c c' ConfigKey.policy_mode raw other apart h =
    set_parsed-stores (Keeps c other) _ _ c' (λ v. ground arith) h
set_config_value-frame new_url c c' ConfigKey.policy_trust_project_allowlists raw other apart h =
    set_parsed-stores (Keeps c other) _ _ c' (λ v. ground arith) h
set_config_value-frame new_url c c' ConfigKey.policy_allow_force_override raw other apart h =
    set_parsed-stores (Keeps c other) _ _ c' (λ v. ground arith) h
set_config_value-frame new_url c c' ConfigKey.policy_script_hardening raw other apart h =
    set_parsed-stores (Keeps c other) _ _ c' (λ v. ground arith) h
set_config_value-frame new_url c c' ConfigKey.policy_shim_fail_closed raw other apart h =
    set_parsed-stores (Keeps c other) _ _ c' (λ v. ground arith) h
set_config_value-frame new_url c c' ConfigKey.policy_strict_egress raw other apart h =
    set_parsed-stores (Keeps c other) _ _ c' (λ v. ground arith) h
set_config_value-frame new_url c c' ConfigKey.script_gate_mode raw other apart h =
    set_parsed-stores (Keeps c other) _ _ c' (λ v. ground arith) h
set_config_value-frame new_url c c' ConfigKey.script_gate_observe raw other apart h =
    set_parsed-stores (Keeps c other) _ _ c' (λ v. ground arith) h
set_config_value-frame new_url c c' ConfigKey.git_hook_on_warn raw other apart h =
    set_parsed-stores (Keeps c other) _ _ c' (λ v. ground arith) h
set_config_value-frame new_url c c' ConfigKey.git_hook_on_incomplete raw other apart h =
    set_parsed-stores (Keeps c other) _ _ c' (λ v. ground arith) h
set_config_value-frame new_url c c' ConfigKey.cooldown_age raw other apart h =
    set_parsed-stores (Keeps c other) _ _ c' (λ v. ground arith) h
set_config_value-frame new_url c c' ConfigKey.cooldown_npm_age raw other apart h =
    set_parsed-stores (Keeps c other) _ _ c' (λ v. ground arith) h
set_config_value-frame new_url c c' ConfigKey.cooldown_pypi_age raw other apart h =
    set_parsed-stores (Keeps c other) _ _ c' (λ v. ground arith) h
set_config_value-frame new_url c c' ConfigKey.cooldown_cargo_age raw other apart h =
    set_parsed-stores (Keeps c other) _ _ c' (λ v. ground arith) h
set_config_value-frame new_url c c' ConfigKey.cooldown_on_unknown raw other apart h =
    set_parsed-stores (Keeps c other) _ _ c' (λ v. ground arith) h
set_config_value-frame new_url c c' ConfigKey.cooldown_exempt raw other apart h =
    set_parsed-stores (Keeps c other) _ _ c' (λ v. ground arith) h
set_config_value-frame new_url c c' ConfigKey.audit_upload raw other apart h =
    set_parsed-stores (Keeps c other) _ _ c' (λ v. ground arith) h

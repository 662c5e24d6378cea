-- ===== src/Config.antt =====
-- src/config/settings.ts: the user's configuration, its keys and its defaults.
-- `Values` reads and writes one key; the proofs are in the modules below.
pub mod Parse
pub mod Values
use dg_cli.Common.{Bool, true, false, String, List, [], ◌∷◌}

pub data PolicyMode : Type 0 where
  off warn block strict : PolicyMode

pub data GitHookOnWarn : Type 0 where
  prompt allow block : GitHookOnWarn

pub data GitHookOnIncomplete : Type 0 where
  allow block : GitHookOnIncomplete

pub data CooldownOnUnknown : Type 0 where
  allow block : CooldownOnUnknown

pub data ScriptGateMode : Type 0 where
  observe enforce off : ScriptGateMode

pub record ApiConfig : Type 0 where
  pub base_url : String

pub record OrgConfig : Type 0 where
  pub id : String

pub record PolicyConfig : Type 0 where
  pub mode : PolicyMode
  pub trust_project_allowlists : Bool
  pub allow_force_override : Bool
  pub script_hardening : Bool
  pub shim_fail_closed : Bool
  pub strict_egress : Bool

pub record ScriptGateConfig : Type 0 where
  pub mode : ScriptGateMode
  pub observe : Bool

pub record GitHookConfig : Type 0 where
  pub on_warn : GitHookOnWarn
  pub on_incomplete : GitHookOnIncomplete

pub record CooldownConfig : Type 0 where
  pub age : String
  pub npm_age : String
  pub pypi_age : String
  pub cargo_age : String
  pub on_unknown : CooldownOnUnknown
  pub exempt : String

pub record AuditConfig : Type 0 where
  pub upload : Bool

-- `version` is always 1 and is left out.
pub record DgUserConfig : Type 0 where
  pub api : ApiConfig
  pub org : OrgConfig
  pub policy : PolicyConfig
  pub script_gate : ScriptGateConfig
  pub git_hook : GitHookConfig
  pub cooldown : CooldownConfig
  pub audit : AuditConfig

pub data ConfigKey : Type 0 where
  api_base_url org_id : ConfigKey
  policy_mode policy_trust_project_allowlists policy_allow_force_override : ConfigKey
  policy_script_hardening policy_shim_fail_closed policy_strict_egress : ConfigKey
  script_gate_mode script_gate_observe : ConfigKey
  git_hook_on_warn git_hook_on_incomplete : ConfigKey
  cooldown_age cooldown_npm_age cooldown_pypi_age cooldown_cargo_age : ConfigKey
  cooldown_on_unknown cooldown_exempt : ConfigKey
  audit_upload : ConfigKey

abbrev pub config_keys : List ConfigKey
config_keys =
    api_base_url ∷ org_id ∷ policy_mode ∷ policy_trust_project_allowlists
    ∷ policy_allow_force_override ∷ policy_script_hardening ∷ policy_shim_fail_closed
    ∷ policy_strict_egress ∷ script_gate_mode ∷ script_gate_observe ∷ git_hook_on_warn
    ∷ git_hook_on_incomplete ∷ cooldown_age ∷ cooldown_npm_age ∷ cooldown_pypi_age
    ∷ cooldown_cargo_age ∷ cooldown_on_unknown ∷ cooldown_exempt ∷ audit_upload ∷ []

abbrev pub default_config : DgUserConfig
default_config = record {
  api = record { base_url = "https://api.westbayberry.com" };
  org = record { id = "" };
  policy = record {
    mode = PolicyMode.block;
    trust_project_allowlists = false;
    allow_force_override = true;
    script_hardening = false;
    shim_fail_closed = false;
    strict_egress = false;
  };
  script_gate = record { mode = ScriptGateMode.observe; observe = false };
  git_hook = record { on_warn = prompt; on_incomplete = GitHookOnIncomplete.allow };
  cooldown = record {
    age = "24h";
    npm_age = "";
    pypi_age = "";
    cargo_age = "";
    on_unknown = CooldownOnUnknown.block;
    exempt = "";
  };
  audit = record { upload = false };
}

-- The texts of the string unions.
abbrev pub mode_text : PolicyMode → String
mode_text PolicyMode.off = "off"
mode_text warn = "warn"
mode_text PolicyMode.block = "block"
mode_text strict = "strict"

abbrev pub script_gate_mode_text : ScriptGateMode → String
script_gate_mode_text observe = "observe"
script_gate_mode_text enforce = "enforce"
script_gate_mode_text ScriptGateMode.off = "off"

abbrev pub on_warn_text : GitHookOnWarn → String
on_warn_text prompt = "prompt"
on_warn_text GitHookOnWarn.allow = "allow"
on_warn_text GitHookOnWarn.block = "block"

abbrev pub on_incomplete_text : GitHookOnIncomplete → String
on_incomplete_text GitHookOnIncomplete.allow = "allow"
on_incomplete_text GitHookOnIncomplete.block = "block"

abbrev pub on_unknown_text : CooldownOnUnknown → String
on_unknown_text CooldownOnUnknown.allow = "allow"
on_unknown_text CooldownOnUnknown.block = "block"

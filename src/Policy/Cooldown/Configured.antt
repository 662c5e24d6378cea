-- ===== src/Policy/Cooldown/Configured.antt =====
-- An age that src/config/settings.ts accepts is one that src/policy/cooldown.ts enforces.
use dg_cli.Common.{
  ℕ, ◌≤◌, ◌≡◌, ◌⊎◌, String, Bool, true, false, not, ◌||◌, ◌==◌, nat_Eq, string_Eq, none, codes,
  is_space,
}
use dg_cli.Common.Result.{Result, ok, err}
use dg_cli.Config.{DgUserConfig, ConfigKey}
use dg_cli.Config.Parse.{Parsed, is_cooldown_age}
use dg_cli.Project.DgFile.{ExemptionEcosystem}
use dg_cli.Policy.Cooldown.{duration_to_hours, effective_cooldown_age}

abbrev is_solid : ℕ → Bool
is_solid c = not (is_space c)

-- What the parser gives for a text that it accepts, where the empty one is allowed.
Accepts : String → String → Type 0
Accepts text age =
    ((text ≡ "") × (age ≡ ""))
    ⊎ (((text == "0" || text == "off") ≡ true) × (age ≡ "0"))
    ⊎ ((age ≡ text) × (is_cooldown_age (codes age) ≡ true))

-- What a stored age of an ecosystem means: the empty one leaves the general age in force, 0 and off
-- switch the cooldown off, and any other one is in force as it is and stands for an hour at least.
abbrev pub Enforces : String → String → String → Type 0
Enforces text general effective =
    ((text ≡ "") × (effective ≡ general))
    ⊎ (((text == "0" || text == "off") ≡ true) × (duration_to_hours effective ≡ 0))
    ⊎ ((effective ≡ text) × (1 ≤ duration_to_hours effective))

-- The key of an ecosystem's age.
abbrev pub age_key : ExemptionEcosystem → ConfigKey
age_key ExemptionEcosystem.npm = ConfigKey.cooldown_npm_age
age_key ExemptionEcosystem.pypi = ConfigKey.cooldown_pypi_age
age_key ExemptionEcosystem.cargo = ConfigKey.cooldown_cargo_age

-- The texts that are accepted for an ecosystem: the empty one, 0, off, and one to four digits, not from 0 on,
-- before h or d.
abbrev pub is_age_text : String → Bool
is_age_text text = text == "" || (text == "0" || text == "off") || is_cooldown_age (codes text)

-- What setting an ecosystem's age to a text gives.
abbrev pub Answers : String → ExemptionEcosystem → String → Parsed DgUserConfig → Type 0
Answers general ecosystem text (err message) = is_age_text text ≡ false
Answers general ecosystem text (ok c) =
    Enforces text general (effective_cooldown_age c none ecosystem)

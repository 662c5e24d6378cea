-- ===== src/Policy/Cooldown.antt =====
-- src/policy/cooldown.ts: the age that a release must have, and which packages are exempt from it. The
-- source counts days, of which an hour is the twenty-fourth part; the model counts the hours. `lower` is
-- `toLowerCase`.
pub mod Keys
pub mod Additions
pub mod Package
pub mod Refines
pub mod Configured
use Prim.Native.Char.{code}
use dg_cli.Common.{
  ℕ, suc, ◌*◌, ◌/◌, String, Bool, true, false, not, ◌&&◌, ◌||◌, ltb, ◌==◌, nat_Eq, string_Eq,
  if◌then◌else◌, Option, none, some, get_or, List, [], ◌∷◌, map, any, keep, codes, trim, parse_int,
  starts_with, show_nat, template,
}
use dg_cli.Common.Result.{Result, ok, err}
use dg_cli.Config.{DgUserConfig, CooldownConfig, CooldownOnUnknown}
use dg_cli.Config.Parse.{Parsed, is_cooldown_age, parse_cooldown_age, split_commas}
use dg_cli.Project.DgFile.{ExemptionEcosystem, CooldownExemption}
use dg_cli.Project.DgFile.Exemptions.{same_exemption_ecosystem, cooldown_exemption_active}
use dg_cli.Policy.PypiName.{canonical_cooldown_name}

pub record CooldownRequestParam : Type 0 where
  pub min_age_hours : ℕ
  pub on_unknown : CooldownOnUnknown

-- The last code of a text, if it has any.
abbrev pub last_code : List ℕ → ℕ
last_code [] = 0
last_code (c ∷ []) = c
last_code (c ∷ d ∷ cs) = last_code (d ∷ cs)

abbrev pub magnitude : Option (Bool × ℕ) → ℕ
magnitude none = 0
magnitude (some (negative, n)) = n

-- durationToDays, in hours
unfoldable pub duration_to_hours : String → ℕ
unfolding is_cooldown_age trim parse_int
duration_to_hours value =
    let trimmed = trim value in
    let amount = magnitude (parse_int trimmed) in
    if trimmed == "" || trimmed == "0" || trimmed == "off"
    then 0
    else if not (is_cooldown_age (codes trimmed))
    then 0
    else if last_code (codes trimmed) == b'h'
    then amount
    else amount * 24

abbrev ecosystem_age : CooldownConfig → ExemptionEcosystem → String
ecosystem_age cooldown ExemptionEcosystem.npm = cooldown.npm_age
ecosystem_age cooldown ExemptionEcosystem.pypi = cooldown.pypi_age
ecosystem_age cooldown ExemptionEcosystem.cargo = cooldown.cargo_age

abbrev configured_age : CooldownConfig → ExemptionEcosystem → String
configured_age cooldown ecosystem =
    if not (ecosystem_age cooldown ecosystem == "")
    then ecosystem_age cooldown ecosystem
    else cooldown.age

abbrev valid_or : Parsed String → String → String
valid_or (ok age) default = age
valid_or (err message) default = default

-- The variable DG_COOLDOWN_AGE of the environment, beside the configuration.
unfoldable pub effective_cooldown_age : DgUserConfig → Option String → ExemptionEcosystem → String
unfolding parse_cooldown_age
effective_cooldown_age config none ecosystem = configured_age config.cooldown ecosystem
effective_cooldown_age config (some from_env) ecosystem =
    valid_or (parse_cooldown_age from_env "DG_COOLDOWN_AGE" false)
      (configured_age config.cooldown ecosystem)

-- s.slice(0, -1)
abbrev drop_last : String → String
drop_last String.[] = ""
drop_last (String.◌∷◌ c s) = let rest = drop_last s in if s == "" then "" else String.◌∷◌ c rest

abbrev matches_pattern : String → String → Bool
matches_pattern name candidate =
    if last_code (codes candidate) == b'*'
    then starts_with name (drop_last candidate)
    else name == candidate

module _ (lower : String → String) where
  abbrev canonical_for : Option ExemptionEcosystem → String → String
  canonical_for none name = name
  canonical_for (some ecosystem) name = canonical_cooldown_name lower ecosystem name

  unfoldable pub is_cooldown_exempt : String → String → Option ExemptionEcosystem → Bool
  unfolding split_commas trim canonical_cooldown_name
  is_cooldown_exempt package_name exempt ecosystem =
      any
        (λ pattern.
          matches_pattern (canonical_for ecosystem package_name) (canonical_for ecosystem pattern))
        (keep (λ entry. not (entry == "")) (map trim (split_commas exempt)))

  abbrev pub exempts : String → ExemptionEcosystem → ℕ → CooldownExemption → Bool
  exempts target ecosystem now e =
      same_exemption_ecosystem e.ecosystem ecosystem
      && canonical_cooldown_name lower ecosystem e.name == target
      && cooldown_exemption_active e now

  unfoldable pub is_cooldown_exempt_by_dg_file :
      String → ExemptionEcosystem → List CooldownExemption → ℕ → Bool
  unfolding canonical_cooldown_name
  is_cooldown_exempt_by_dg_file package_name ecosystem exemptions now =
      any (exempts (canonical_cooldown_name lower ecosystem package_name) ecosystem now) exemptions

  unfoldable pub cooldown_request_param :
      DgUserConfig → Option String → ExemptionEcosystem → String → Option CooldownRequestParam
  unfolding duration_to_hours effective_cooldown_age is_cooldown_exempt
  cooldown_request_param config from_env ecosystem package_name =
      let min_age = duration_to_hours (effective_cooldown_age config from_env ecosystem) in
      if not (ltb 0 min_age)
      then none
      else if not (package_name == "")
          && is_cooldown_exempt package_name config.cooldown.exempt (some ecosystem)
      then none
      else some (record { min_age_hours = min_age; on_unknown = config.cooldown.on_unknown })

-- formatCooldownDuration, of hours
unfoldable pub format_cooldown_duration : ℕ → String
format_cooldown_duration hours =
    if ltb hours 48
    then template (show_nat hours ∷ "h" ∷ [])
    else template (show_nat (hours / 24) ∷ "d" ∷ [])

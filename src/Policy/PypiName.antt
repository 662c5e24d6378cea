-- ===== src/Policy/PypiName.antt =====
-- src/policy/pypi-name.ts: the one form of a package's name. `lower` is `toLowerCase`, which depends on
-- the version of Unicode that the runtime has.
pub mod Stable
use Prim.Native.Char.{code}
use dg_cli.Common.{ℕ, String, Bool, true, false, ◌||◌, ◌==◌, nat_Eq, if◌then◌else◌}
use dg_cli.Project.DgFile.{ExemptionEcosystem}

abbrev is_separator : ℕ → Bool
is_separator c = c == b'-' || c == b'_' || c == b'.'

-- name.replace(/[-_.]+/g, "-"); the flag says that the run of separators has its dash already.
pub join_separators : Bool → String → String
join_separators within String.[] = ""
join_separators within (String.◌∷◌ c s) =
    let inside = join_separators true s in
    let outside = join_separators false s in
    if is_separator (code c)
    then (if within then inside else String.◌∷◌ "-" inside)
    else String.◌∷◌ c outside

-- name.replace(/_/g, "-")
pub dash_underscores : String → String
dash_underscores String.[] = ""
dash_underscores (String.◌∷◌ c s) =
    let rest = dash_underscores s in
    if code c == b'_' then String.◌∷◌ "-" rest else String.◌∷◌ c rest

module _ (lower : String → String) where
  unfoldable pub normalize_pypi_name : String → String
  unfolding join_separators
  normalize_pypi_name name = join_separators false (lower name)

  unfoldable pub normalize_cargo_name : String → String
  unfolding dash_underscores
  normalize_cargo_name name = dash_underscores (lower name)

  unfoldable pub canonical_cooldown_name : ExemptionEcosystem → String → String
  unfolding normalize_pypi_name normalize_cargo_name
  canonical_cooldown_name ExemptionEcosystem.pypi name = normalize_pypi_name name
  canonical_cooldown_name ExemptionEcosystem.cargo name = normalize_cargo_name name
  canonical_cooldown_name ExemptionEcosystem.npm name = name

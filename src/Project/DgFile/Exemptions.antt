-- ===== src/Project/DgFile/Exemptions.antt =====
-- The cooldown exemptions of a dg.json, added and removed: src/project/dgfile.ts.
use dg_cli.Common.{
  ℕ, zero, suc, String, Bool, true, false, not, ◌&&◌, ltb, ◌==◌, string_Eq, if◌then◌else◌, Option,
  none, get_or, List, [], ◌∷◌, ◌++◌, map, length, any, keep, template, put,
}
use dg_cli.Common.Result.{Result, ok, err}
use dg_cli.Common.Json.{Fields}
use dg_cli.Project.DgFile.{
  ExemptionEcosystem, Expiry, never, at, no_date, CooldownExemption, DgFile,
}
use dg_cli.Policy.PypiName.{canonical_cooldown_name}

abbrev pub cooldown_exemption_cap : ℕ
cooldown_exemption_cap = 500

abbrev pub decision_reason_max : ℕ
decision_reason_max = 500

-- s.slice(0, n)
unfoldable pub slice : ℕ → String → String
slice zero s = ""
slice (suc n) String.[] = ""
slice (suc n) (String.◌∷◌ c s) = String.◌∷◌ c (slice n s)

abbrev pub same_exemption_ecosystem : ExemptionEcosystem → ExemptionEcosystem → Bool
same_exemption_ecosystem ExemptionEcosystem.npm ExemptionEcosystem.npm = true
same_exemption_ecosystem ExemptionEcosystem.pypi ExemptionEcosystem.pypi = true
same_exemption_ecosystem ExemptionEcosystem.cargo ExemptionEcosystem.cargo = true
same_exemption_ecosystem _ _ = false

abbrev pub exemption_ecosystem_text : ExemptionEcosystem → String
exemption_ecosystem_text ExemptionEcosystem.npm = "npm"
exemption_ecosystem_text ExemptionEcosystem.pypi = "pypi"
exemption_ecosystem_text ExemptionEcosystem.cargo = "cargo"

-- Whether an exemption counts at a time; a text that is no date is past.
abbrev pub is_active : Expiry → ℕ → Bool
is_active never now = true
is_active (at date time) now = ltb now time
is_active (no_date date) now = false

unfoldable pub cooldown_exemption_active : CooldownExemption → ℕ → Bool
cooldown_exemption_active e now = is_active e.expires_at now

pub record NewCooldownExemption : Type 0 where
  pub ecosystem : ExemptionEcosystem
  pub name : String
  pub reason : String
  pub accepted_by : String
  pub accepted_at : Option String
  pub expires_at : Expiry

-- `${e.ecosystem}:${e.name}`
abbrev pub exemption_key : ExemptionEcosystem → String → String
exemption_key ecosystem name = template (exemption_ecosystem_text ecosystem ∷ ":" ∷ name ∷ [])

abbrev pub is_for : ExemptionEcosystem → String → ExemptionEcosystem → String → Bool
is_for ecosystem name e n = same_exemption_ecosystem ecosystem e && name == n

-- new Map(canonicalAll.map((a) => [key, a]))
unfoldable pub by_key :
    List (String × NewCooldownExemption)
    → List NewCooldownExemption
    → List (String × NewCooldownExemption)
by_key entries [] = entries
by_key entries (a ∷ additions) = by_key (put entries (exemption_key a.ecosystem a.name) a) additions

-- map.values()
abbrev pub values : {A : Type 0} → List (String × A) → List A
values [] = []
values ((k, a) ∷ entries) = a ∷ values entries

-- priorExtra.get(key): of two entries with one key the later counts.
unfoldable pub prior_extra : List CooldownExemption → String → Option Fields
prior_extra [] key = none
prior_extra (e ∷ exemptions) key =
    later (any (λ x. exemption_key x.ecosystem x.name == key) exemptions)
      (prior_extra exemptions key)
      (if exemption_key e.ecosystem e.name == key then e.extra else none)
  where
    later : Bool → Option Fields → Option Fields → Option Fields
    later true rest here = rest
    later false rest here = here

-- `now.toISOString()` and `now.getTime()` are two arguments.
abbrev pub exempted : List CooldownExemption → String → NewCooldownExemption → CooldownExemption
exempted prior now_text a = record {
  ecosystem = a.ecosystem;
  name = a.name;
  reason = slice decision_reason_max a.reason;
  accepted_by = a.accepted_by;
  accepted_at = get_or a.accepted_at now_text;
  expires_at = a.expires_at;
  extra = prior_extra prior (exemption_key a.ecosystem a.name);
}

pub data CapError : Type 0 where
  cooldown_exemption_cap_error : CapError

abbrev pub with_exemptions : DgFile → List CooldownExemption → DgFile
with_exemptions file exemptions = record file { cooldown_exemptions = exemptions }

-- At most as many as the cap allows, of which only the active ones are left if need be.
unfoldable pub capped : DgFile → List CooldownExemption → ℕ → Result CapError DgFile
unfolding cooldown_exemption_active
capped file next now =
    let live = keep (λ e. cooldown_exemption_active e now) next in
    if ltb cooldown_exemption_cap (length next)
    then (if ltb cooldown_exemption_cap (length live)
        then err cooldown_exemption_cap_error
        else ok (with_exemptions file live))
    else ok (with_exemptions file next)

unfoldable pub remove_cooldown_exemptions : DgFile → (CooldownExemption → Bool) → DgFile
remove_cooldown_exemptions file predicate =
    with_exemptions file (keep (λ e. not (predicate e)) file.cooldown_exemptions)

module _ (lower : String → String) where
  abbrev pub canonical : NewCooldownExemption → NewCooldownExemption
  canonical a = record a { name = canonical_cooldown_name lower a.ecosystem a.name }

  unfoldable pub canonical_additions : List NewCooldownExemption → List NewCooldownExemption
  unfolding by_key
  canonical_additions additions = values (by_key [] (map canonical additions))

  abbrev pub is_replaced : List NewCooldownExemption → CooldownExemption → Bool
  is_replaced added e = any (λ a. is_for a.ecosystem a.name e.ecosystem e.name) added

  unfoldable pub append_cooldown_exemptions :
      DgFile → List NewCooldownExemption → ℕ → String → Result CapError DgFile
  unfolding canonical_additions capped prior_extra slice
  append_cooldown_exemptions file additions now now_text =
      let added = canonical_additions additions in
      let kept = keep (λ e. not (is_replaced added e)) file.cooldown_exemptions in
      capped file (kept ++ map (exempted file.cooldown_exemptions now_text) added) now

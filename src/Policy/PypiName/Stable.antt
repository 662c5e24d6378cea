-- ===== src/Policy/PypiName/Stable.antt =====
-- The one form of a package's name is its own form, src/policy/pypi-name.ts.
use Prim.Native.Char.{code}
use dg_cli.Common.{◌≡◌, refl, ap, ◌∙◌, inl, inr, String, true, false, ◌==◌, nat_Eq, Bool-cases}
use dg_cli.Project.DgFile.{ExemptionEcosystem}
use dg_cli.Policy.PypiName.{
  is_separator, join_separators, dash_underscores, canonical_cooldown_name,
}

join_idem :
    (s : String)
    → (join_separators false (join_separators false s) ≡ join_separators false s)
      × (join_separators true (join_separators true s) ≡ join_separators true s)
unfolding join_separators
join_idem String.[] = (refl, refl)
join_idem (String.◌∷◌ c s) =
    let (outside, inside) = join_idem s in
    elim (Bool-cases (is_separator (code c))) [
      | inl e ↦ (rw e (ap (String.◌∷◌ "-") inside, inside))
      | inr e ↦ (rw (e, e) (ap (String.◌∷◌ c) outside, ap (String.◌∷◌ c) outside))
    ]

dash_idem : (s : String) → dash_underscores (dash_underscores s) ≡ dash_underscores s
unfolding dash_underscores
dash_idem String.[] = refl
dash_idem (String.◌∷◌ c s) = elim (Bool-cases (code c == b'_')) [
  | inl e ↦ (rw e (ap (String.◌∷◌ "-") (dash_idem s)))
  | inr e ↦ (rw (e, e) (ap (String.◌∷◌ c) (dash_idem s)))
]

module _ (lower : String → String)
    (lower_join : (s : String)
      → lower (join_separators false (lower s)) ≡ join_separators false (lower s))
    (lower_dash : (s : String)
      → lower (dash_underscores (lower s)) ≡ dash_underscores (lower s)) where
  -- Where `lower` leaves alone what it gave, with dashes in it.
  pub canonical_idem :
      (ecosystem : ExemptionEcosystem) (name : String)
      → canonical_cooldown_name lower ecosystem (canonical_cooldown_name lower ecosystem name)
        ≡ canonical_cooldown_name lower ecosystem name
  unfolding canonical_cooldown_name
  canonical_idem ExemptionEcosystem.npm name = refl
  canonical_idem ExemptionEcosystem.pypi name =
      ap (join_separators false) (lower_join name) ∙ (join_idem (lower name)).0
  canonical_idem ExemptionEcosystem.cargo name =
      ap dash_underscores (lower_dash name) ∙ dash_idem (lower name)

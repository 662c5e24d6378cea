-- ===== src/Policy/Cooldown/Package.antt =====
-- Which of the exemptions of a dg.json count for one package once others are added: src/project/dgfile.ts.
use dg_cli.Common.{
  ℕ, ◌≡◌, refl, sym, subst, ap, ap₂, ◌∙◌, inl, inr, String, Bool, true, false, not, ◌&&◌, ◌||◌,
  ◌==◌, string_Eq, str_eq_iff, if◌then◌else◌, Bool-cases, Option, none, some, either, List, [], ◌∷◌,
  map, any, keep, All, All-always, All-mapped, any-cong, put, arith,
}
use dg_cli.Project.DgFile.{ExemptionEcosystem, CooldownExemption}
use dg_cli.Project.DgFile.Exemptions.{
  same_exemption_ecosystem, is_active, cooldown_exemption_active, NewCooldownExemption,
  exemption_key, is_for, by_key, values, exempted, canonical, canonical_additions, is_replaced,
}
use dg_cli.Policy.PypiName.{canonical_cooldown_name}
use dg_cli.Policy.Cooldown.{exempts}
use dg_cli.Policy.Cooldown.Additions.{is_at, active_now, last_at}
use dg_cli.Policy.Cooldown.Keys.{key-is_for, same-eq}

All-put :
    {A : Type 0} (P : A → Type 0) (entries : List (String × A)) (key : String) (a : A)
    → P a
    → All P (values entries)
    → All P (values (put entries key a))
unfolding put
All-put P [] key a h hs = (h, tt)
All-put P ((k, b) ∷ entries) key a h (g, hs) = elim (Bool-cases (k == key)) [
  | inl e ↦ (rw e (h, hs))
  | inr e ↦ (rw e (g, All-put P entries key a h hs))
]

All-by_key :
    (P : NewCooldownExemption → Type 0) (entries : List (String × NewCooldownExemption))
    (additions : List NewCooldownExemption)
    → All P (values entries)
    → All P additions
    → All P (values (by_key entries additions))
unfolding by_key
All-by_key P entries [] h hs = h
All-by_key P entries (a ∷ additions) h (g, hs) =
    All-by_key P (put entries (exemption_key a.ecosystem a.name) a) additions
      (All-put P entries (exemption_key a.ecosystem a.name) a g h) hs

pub either-none : {A : Type 0} (o : Option A) → either o none ≡ o
either-none none = refl
either-none (some a) = refl

-- The last of some additions for a package: whether it is active.
abbrev pub last_for :
    (String → String) → ExemptionEcosystem → String → ℕ → List NewCooldownExemption → Option Bool
last_for lower ecosystem target now [] = none
last_for lower ecosystem target now (a ∷ additions) =
    either (last_for lower ecosystem target now additions) (
      if is_for a.ecosystem (canonical_cooldown_name lower a.ecosystem a.name) ecosystem target
      then some (is_active a.expires_at now)
      else none)

module _ (lower : String → String) where
  -- The canonical form of a name is canonical.
  abbrev pub IsStable : Type 0
  IsStable =
      (ecosystem : ExemptionEcosystem) (name : String)
      → canonical_cooldown_name lower ecosystem (canonical_cooldown_name lower ecosystem name)
        ≡ canonical_cooldown_name lower ecosystem name

  abbrev pub IsCanonical : CooldownExemption → Type 0
  IsCanonical e = canonical_cooldown_name lower e.ecosystem e.name ≡ e.name

  abbrev pub IsCanonicalNew : NewCooldownExemption → Type 0
  IsCanonicalNew a = canonical_cooldown_name lower a.ecosystem a.name ≡ a.name

  pub last_at-last_for :
      (ecosystem : ExemptionEcosystem) (target : String) (now : ℕ)
      (additions : List NewCooldownExemption)
      → last_at (exemption_key ecosystem target) now (map (canonical lower) additions)
        ≡ last_for lower ecosystem target now additions
  last_at-last_for ecosystem target now [] = refl
  last_at-last_for ecosystem target now (a ∷ additions) =
      ap₂ either (last_at-last_for ecosystem target now additions) (
        ap (λ b. if b then some (is_active a.expires_at now) else none)
          (key-is_for a.ecosystem ecosystem (canonical_cooldown_name lower a.ecosystem a.name)
            target))

  pub canonical_additions-IsCanonicalNew :
      (additions : List NewCooldownExemption)
      → IsStable
      → All IsCanonicalNew (canonical_additions lower additions)
  unfolding canonical_additions
  canonical_additions-IsCanonicalNew additions stable =
      All-by_key IsCanonicalNew [] (map (canonical lower) additions) tt (
        All-mapped (canonical lower) IsCanonicalNew additions
          (All-always _ (λ a. stable a.ecosystem a.name) additions))

  module _ (ecosystem : ExemptionEcosystem) (target : String) (now : ℕ) where
    abbrev pub hits : CooldownExemption → Bool
    hits = exempts lower target ecosystem now

    abbrev pub key : String
    key = exemption_key ecosystem target

    -- An exemption with a canonical name counts for the package exactly if it is the package's.
    hits-is_for :
        (e : ExemptionEcosystem) (name : String) (active : Bool)
        → canonical_cooldown_name lower e name ≡ name
        → (same_exemption_ecosystem e ecosystem
            && canonical_cooldown_name lower ecosystem name == target
            && active)
          ≡ (is_for e name ecosystem target && active)
    hits-is_for e name active h = elim (Bool-cases (same_exemption_ecosystem e ecosystem)) [
      | inl here ↦
          let at : canonical_cooldown_name lower ecosystem name ≡ name =
            subst (λ f. canonical_cooldown_name lower f name ≡ name) (same-eq e ecosystem here) h in
          (rw (here, at) refl)
      | inr off ↦ (rw off refl)
    ]

    pub added-hits :
        (prior : List CooldownExemption) (now_text : String) (added : List NewCooldownExemption)
        → All IsCanonicalNew added
        → any hits (map (exempted prior now_text) added)
          ≡ any (λ a. is_at key now a && active_now key now a) added
    unfolding cooldown_exemption_active
    added-hits prior now_text [] h = refl
    added-hits prior now_text (a ∷ added) (h, hs) =
        ap₂ (λ b c. b || c)
          (hits-is_for a.ecosystem a.name (is_active a.expires_at now) h
            ∙ ap (λ b. b && is_active a.expires_at now)
                (sym (key-is_for a.ecosystem ecosystem a.name target)))
          (added-hits prior now_text added hs)

    replaced-is_at :
        (added : List NewCooldownExemption) (e : CooldownExemption)
        → IsCanonical e
        → hits e ≡ true
        → is_replaced lower added e ≡ any (is_at key now) added
    replaced-is_at added e canon h =
        let here : same_exemption_ecosystem e.ecosystem ecosystem ≡ true = ground arith in
        let found : (canonical_cooldown_name lower ecosystem e.name == target) ≡ true =
          ground arith in
        let at : e.ecosystem ≡ ecosystem = same-eq e.ecosystem ecosystem here in
        let own : canonical_cooldown_name lower ecosystem e.name ≡ e.name =
          subst (λ f. canonical_cooldown_name lower f e.name ≡ e.name) at canon in
        let name : e.name ≡ target = sym own ∙ (str_eq_iff _ _).0 found in
        any-cong _ _ added (
          All-always _
            (λ a.
              ap₂ (λ f n. is_for a.ecosystem a.name f n) at name
              ∙ sym (key-is_for a.ecosystem ecosystem a.name target))
            added)

    pub kept-hits :
        (added : List NewCooldownExemption) (prior : List CooldownExemption)
        → All IsCanonical prior
        → any hits (keep (λ e. not (is_replaced lower added e)) prior)
          ≡ (if any (is_at key now) added then false else any hits prior)
    kept-hits added [] h = constant (any (is_at key now) added)
      where
        constant : (b : Bool) → false ≡ (if b then false else false)
        constant true = refl
        constant false = refl
    kept-hits added (e ∷ prior) (canon, canons) = elim (Bool-cases (hits e)) [
      | inl hit ↦
          (rw (replaced-is_at added e canon hit)
            (by_replaced (any (is_at key now) added) _ hit (kept-hits added prior canons)))
      | inr miss ↦
          skipped (not (is_replaced lower added e)) _ miss
          ∙ kept-hits added prior canons
          ∙ ap (λ c. if any (is_at key now) added then false else c || any hits prior) (sym miss)
    ]
      where
        skipped :
            (c : Bool) (rest : List CooldownExemption)
            → hits e ≡ false
            → any hits (if c then e ∷ rest else rest) ≡ any hits rest
        skipped true rest miss = ap (λ b. b || any hits rest) miss
        skipped false rest miss = refl

        by_replaced :
            (b : Bool) (rest : List CooldownExemption)
            → hits e ≡ true
            → any hits rest ≡ (if b then false else any hits prior)
            → any hits (if not b then e ∷ rest else rest)
              ≡ (if b then false else hits e || any hits prior)
        by_replaced true rest hit h = h
        by_replaced false rest hit h = ap (λ c. hits e || c) h

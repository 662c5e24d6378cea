-- ===== src/Policy/Cooldown/Additions.antt =====
-- The additions to the exemptions of a dg.json, of which the last for each package counts:
-- src/project/dgfile.ts.
use dg_cli.Common.{
  ℕ, ◌≡◌, refl, sym, subst, ap, ◌∙◌, inl, inr, String, Bool, true, false, ◌&&◌, ◌||◌, ◌==◌,
  string_Eq, str_eq_iff, if◌then◌else◌, Bool-cases, Option, none, some, get_or, either, List, [],
  ◌∷◌, any, put, arith,
}
use dg_cli.Project.DgFile.Exemptions.{
  is_active, NewCooldownExemption, exemption_key, by_key, values,
}

pub or-false : (b : Bool) → (b || false) ≡ b
or-false true = refl
or-false false = refl

twice :
    {A : Type 0} (b : Bool) (x y z : A)
    → (if b then x else y) ≡ (if b then x else (if b then z else y))
twice true x y z = refl
twice false x y z = refl

swapped :
    {A : Type 0} (b c : Bool) (x y z : A)
    → (b ≡ true → c ≡ true → ⊥)
    → (if b then x else (if c then y else z)) ≡ (if c then y else (if b then x else z))
swapped true true x y z h = elim (h refl refl) [ ]
swapped true false x y z h = refl
swapped false c x y z h = refl

-- The last of the additions with one key, and whether it is active.
module _ (key : String) (now : ℕ) where
  abbrev pub is_at : NewCooldownExemption → Bool
  is_at a = exemption_key a.ecosystem a.name == key

  abbrev pub active_now : NewCooldownExemption → Bool
  active_now a = is_active a.expires_at now

  abbrev pub last_at : List NewCooldownExemption → Option Bool
  last_at [] = none
  last_at (a ∷ additions) =
      either (last_at additions) (if is_at a then some (active_now a) else none)

  unfoldable pub seen : List (String × NewCooldownExemption) → Option Bool
  seen [] = none
  seen ((k, a) ∷ entries) =
      let rest = seen entries in if k == key then some (active_now a) else rest

  not-both : (k j : String) → (k == j) ≡ false → (k == key) ≡ true → (j == key) ≡ true → ⊥
  not-both k j apart h g =
      let same : (k == j) ≡ true =
        (str_eq_iff k j).1 ((str_eq_iff k key).0 h ∙ sym ((str_eq_iff j key).0 g)) in
      ground arith

  seen-put :
      (entries : List (String × NewCooldownExemption)) (a : NewCooldownExemption)
      → seen (put entries (exemption_key a.ecosystem a.name) a)
        ≡ (if is_at a then some (active_now a) else seen entries)
  unfolding seen put
  seen-put [] a = refl
  seen-put ((k, b) ∷ entries) a = elim (Bool-cases (k == exemption_key a.ecosystem a.name)) [
    | inl e ↦
        let at : k ≡ exemption_key a.ecosystem a.name = (str_eq_iff _ _).0 e in
        (rw (e, at) (twice (is_at a) _ _ _))
    | inr e ↦
        (rw (e, seen-put entries a)
          (swapped (k == key) (is_at a) _ _ _ (not-both k (exemption_key a.ecosystem a.name) e)))
  ]

  either-if :
      (o : Option Bool) (b : Bool) (x : Bool) (rest : Option Bool)
      → either o (if b then some x else rest) ≡ either (either o (if b then some x else none)) rest
  either-if none true x rest = refl
  either-if none false x rest = refl
  either-if (some y) b x rest = refl

  pub seen-by_key :
      (entries : List (String × NewCooldownExemption)) (additions : List NewCooldownExemption)
      → seen (by_key entries additions) ≡ either (last_at additions) (seen entries)
  unfolding by_key
  seen-by_key entries [] = refl
  seen-by_key entries (a ∷ additions) =
      seen-by_key (put entries (exemption_key a.ecosystem a.name) a) additions
      ∙ ap (either (last_at additions)) (seen-put entries a)
      ∙ either-if (last_at additions) (is_at a) (active_now a) (seen entries)

  -- No key stands twice, and each is that of its value.
  unfoldable pub IsMap : List (String × NewCooldownExemption) → Type 0
  IsMap [] = Unit
  IsMap ((k, a) ∷ entries) =
      (k ≡ exemption_key a.ecosystem a.name)
      × ((k == key) ≡ true → seen entries ≡ none)
      × IsMap entries

  off-once :
      (a : NewCooldownExemption) (k : String) {rest : Option Bool}
      → (k == exemption_key a.ecosystem a.name) ≡ false
      → (k == key) ≡ true
      → rest ≡ none
      → (if is_at a then some (active_now a) else rest) ≡ none
  off-once a k apart g once = elim (Bool-cases (is_at a)) [
    | inl e ↦ elim (not-both k (exemption_key a.ecosystem a.name) apart g e) [ ]
    | inr e ↦ (rw e once)
  ]

  put-IsMap :
      (entries : List (String × NewCooldownExemption)) (a : NewCooldownExemption)
      → IsMap entries
      → IsMap (put entries (exemption_key a.ecosystem a.name) a)
  unfolding IsMap put seen
  put-IsMap [] a h = (refl, (λ g. refl), tt)
  put-IsMap ((k, b) ∷ entries) a (keyed, once, others) =
      elim (Bool-cases (k == exemption_key a.ecosystem a.name)) [
        | inl e ↦
            let at : k ≡ exemption_key a.ecosystem a.name = (str_eq_iff _ _).0 e in
            (rw e (refl, subst (λ j. (j == key) ≡ true → seen entries ≡ none) at once, others))
        | inr e ↦
            (rw e (
              keyed,
              (λ g. seen-put entries a ∙ off-once a k e g (once g)),
              put-IsMap entries a others,
            ))
      ]

  pub by_key-IsMap :
      (entries : List (String × NewCooldownExemption)) (additions : List NewCooldownExemption)
      → IsMap entries
      → IsMap (by_key entries additions)
  unfolding by_key
  by_key-IsMap entries [] h = h
  by_key-IsMap entries (a ∷ additions) h =
      by_key-IsMap (put entries (exemption_key a.ecosystem a.name) a) additions
        (put-IsMap entries a h)

  abbrev pub is_some : Option Bool → Bool
  is_some none = false
  is_some (some b) = true

  pub any-seen :
      (entries : List (String × NewCooldownExemption))
      → IsMap entries
      → (any is_at (values entries) ≡ is_some (seen entries))
        × (any (λ a. is_at a && active_now a) (values entries) ≡ get_or (seen entries) false)
  unfolding IsMap seen
  any-seen [] h = (refl, refl)
  any-seen ((k, a) ∷ entries) (keyed, once, others) =
      let (here, active) = any-seen entries others in
      elim (Bool-cases (k == key)) [
        | inl e ↦
            let at_key : is_at a ≡ true = subst (λ j. (j == key) ≡ true) keyed e in
            let no_more : any (λ b. is_at b && active_now b) (values entries) ≡ false =
              active ∙ ap (λ o. get_or o false) (once e) in
            (rw (at_key, e, no_more) (refl, or-false (active_now a)))
        | inr e ↦
            let off : is_at a ≡ false = subst (λ j. (j == key) ≡ false) keyed e in
            (rw (off, e) (here, active))
      ]

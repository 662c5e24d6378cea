-- ===== src/Common/Objects.antt =====
-- Objects of the source that stand for maps with texts as keys. The names on Object.prototype are keys
-- of each object.
use Prim.Native.String.{String}
use mathlib.Core.Path.{◌≡◌, refl, sym, subst, ap}
use mathlib.Core.Logic.{inl, inr}
use mathlib.Core.Bool.{Bool, false}
use mathlib.Core.List.{List, [], ◌∷◌}
use dg_cli.Common.Tests.{if◌then◌else◌, Bool-cases}
use dg_cli.Common.Equality.{◌==◌, string_Eq, str_eq_iff}
use dg_cli.Common.Lists.{has}

abbrev pub inherited_keys : List String
inherited_keys =
    "constructor" ∷ "toString" ∷ "toLocaleString" ∷ "valueOf" ∷ "hasOwnProperty" ∷ "isPrototypeOf"
    ∷ "propertyIsEnumerable" ∷ "__defineGetter__" ∷ "__defineSetter__" ∷ "__lookupGetter__"
    ∷ "__lookupSetter__" ∷ "__proto__" ∷ []

unfoldable pub inherited : String → Bool
inherited key = has inherited_keys key

-- What is at a key: nothing, a value of the object's own, or one of Object.prototype.
pub data Value {ℓ} (A : Type ℓ) : Type ℓ where
  absent : Value A
  present : A → Value A
  of_prototype : Value A

module _ {ℓ} {A : Type ℓ} where
  -- object[key]
  unfoldable pub value : List (String × A) → String → Value A
  value [] key = if inherited key then of_prototype else absent
  value ((k, v) ∷ entries) key =
      let rest = value entries key in if k == key then present v else rest

  -- object[key] = v, for a key other than `__proto__`
  unfoldable pub put : List (String × A) → String → A → List (String × A)
  put [] key v = (key, v) ∷ []
  put ((k, u) ∷ entries) key v =
      let rest = put entries key v in if k == key then (key, v) ∷ entries else (k, u) ∷ rest

  pub value-put :
      (entries : List (String × A)) (key : String) (v : A)
      → value (put entries key v) key ≡ present v
  unfolding value put
  value-put [] key v = rw ((str_eq_iff key key).1 refl) refl
  value-put ((k, u) ∷ entries) key v = elim (Bool-cases (k == key)) [
    | inl e ↦ (rw (e, (str_eq_iff key key).1 refl) refl)
    | inr e ↦ (rw (e, e) (value-put entries key v))
  ]

  pub value-put_other :
      (entries : List (String × A)) (key other : String) (v : A)
      → (key == other) ≡ false
      → value (put entries key v) other ≡ value entries other
  unfolding value put
  value-put_other [] key other v apart = rw apart refl
  value-put_other ((k, u) ∷ entries) key other v apart = elim (Bool-cases (k == key)) [
    | inl e ↦
        let k_apart : (k == other) ≡ false =
          subst (λ j. (j == other) ≡ false) (sym ((str_eq_iff k key).0 e)) apart in
        rw (e, apart, k_apart) refl
    | inr e ↦
        (rw e (
          ap (λ later. if k == other then present u else later)
            (value-put_other entries key other v apart)))
  ]

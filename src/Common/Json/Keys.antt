-- ===== src/Common/Json/Keys.antt =====
-- Reading the keys of an object after one was written.
use Prim.Native.String.{String}
use mathlib.Core.Path.{◌≡◌, refl, sym, subst}
use mathlib.Core.Logic.{inl, inr}
use mathlib.Core.Bool.{false}
use mathlib.Core.Option.{Option, none, some}
use dg_cli.Common.Tests.{either, Bool-cases}
use dg_cli.Common.Equality.{◌==◌, string_Eq, str_eq_iff}
use dg_cli.Common.Json.{Json, Fields, end, field, lookup, replace_field, put_field}

either-none : (o : Option Json) → either o none ≡ o
either-none none = refl
either-none (some v) = refl

lookup-replace_other :
    (fields : Fields) (key other : String) (v : Json)
    → (key == other) ≡ false
    → lookup other (replace_field fields key v) ≡ lookup other fields
unfolding replace_field
lookup-replace_other end key other v apart = refl
lookup-replace_other (field k u fields) key other v apart = elim (Bool-cases (k == key)) [
  | inl e ↦
      let k_apart : (k == other) ≡ false =
        subst (λ j. (j == other) ≡ false) (sym ((str_eq_iff k key).0 e)) apart in
      (rw (e, k_apart, lookup-replace_other fields key other v apart) refl)
  | inr e ↦ (rw (e, lookup-replace_other fields key other v apart) refl)
]

pub lookup-put_other :
    (fields : Fields) (key other : String) (v : Json)
    → (key == other) ≡ false
    → lookup other (put_field fields key v) ≡ lookup other fields
unfolding put_field
lookup-put_other end key other v apart = rw apart refl
lookup-put_other (field k u fields) key other v apart = elim (Bool-cases (k == key)) [
  | inl e ↦
      let k_apart : (k == other) ≡ false =
        subst (λ j. (j == other) ≡ false) (sym ((str_eq_iff k key).0 e)) apart in
      (rw (e, k_apart, lookup-replace_other fields key other v apart) refl)
  | inr e ↦ (rw (e, lookup-put_other fields key other v apart) refl)
]

-- Where a key was, its value stands now; where it was not, nothing does.
lookup-replace :
    (fields : Fields) (key : String) (v : Json)
    → either (lookup key (replace_field fields key v)) (some v) ≡ some v
unfolding replace_field
lookup-replace end key v = refl
lookup-replace (field k u fields) key v = elim (Bool-cases (k == key)) [
  | inl e ↦ (rw (e, e) (rw (lookup-replace fields key v) refl))
  | inr e ↦
      (rw (e, e)
        (rw (either-none (lookup key (replace_field fields key v))) (lookup-replace fields key v)))
]

pub lookup-put :
    (fields : Fields) (key : String) (v : Json) → lookup key (put_field fields key v) ≡ some v
unfolding put_field
lookup-put end key v = rw ((str_eq_iff key key).1 refl) refl
lookup-put (field k u fields) key v = elim (Bool-cases (k == key)) [
  | inl e ↦ (rw (e, e) (lookup-replace fields key v))
  | inr e ↦ (rw (e, lookup-put fields key v) refl)
]

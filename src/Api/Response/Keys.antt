-- ===== src/Api/Response/Keys.antt =====
-- Reading the keys of an object after one was written, as src/api/analyze.ts writes them.
use dg_cli.Common.{◌≡◌, refl, inl, inr, String, true, and-true, ◌==◌, string_Eq, Bool-cases}
use dg_cli.Common.Json.{Json, Fields, end, field, put_field, replace_field}
use dg_cli.Security.Sanitize.Clean.{is_clean_line}
use dg_cli.Security.Sanitize.Plain.{is_clean_keys}

replace-clean :
    (fields : Fields) (key : String) (v : Json)
    → is_clean_keys (replace_field fields key v) ≡ is_clean_keys fields
unfolding replace_field is_clean_keys
replace-clean end key v = refl
replace-clean (field k u fields) key v = elim (Bool-cases (k == key)) [
  | inl e ↦ (rw (e, replace-clean fields key v) refl)
  | inr e ↦ (rw (e, replace-clean fields key v) refl)
]

pub put-clean :
    (fields : Fields) (key : String) (v : Json)
    → is_clean_line key ≡ true
    → is_clean_keys fields ≡ true
    → is_clean_keys (put_field fields key v) ≡ true
unfolding put_field is_clean_keys
put-clean end key v h g = rw h refl
put-clean (field k u fields) key v h g =
    let (here, later) = and-true (is_clean_line k) _ g in
    elim (Bool-cases (k == key)) [
      | inl e ↦ (rw (e, here, replace-clean fields key v) later)
      | inr e ↦ (rw (e, here) (put-clean fields key v h later))
    ]

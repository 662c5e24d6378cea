-- ===== src/Security/Sanitize/Clean.antt =====
-- Nothing that src/security/sanitize.ts lets through controls a terminal.
use Prim.Native.Char.{code}
use dg_cli.Common.{
  ℕ, ◌≡◌, refl, String, Bool, true, false, not, ◌&&◌, inl, inr, all, codes, Bool-cases,
}
use dg_cli.Common.Json.{
  Json, null, boolean, number, other_number, text, array, object, Items, nil, item, Fields, end,
  field,
}
use dg_cli.Security.Sanitize.{
  is_control_but_newline, is_control, remove, join_lines, sanitize, sanitize_line, sanitize_deep,
  sanitize_items, sanitize_fields,
}

abbrev pub is_clean_text : String → Bool
is_clean_text s = all (λ c. not (is_control_but_newline c)) (codes s)

abbrev pub is_clean_line : String → Bool
is_clean_line s = all (λ c. not (is_control c)) (codes s)

-- No text has a control character but tab and newline, and no key has any.
mutual
  pub is_clean : Json → Bool
  is_clean (text s) = is_clean_text s
  is_clean (array items) = is_clean_items items
  is_clean (object fields) = is_clean_fields fields
  is_clean _ = true

  pub is_clean_items : Items → Bool
  is_clean_items nil = true
  is_clean_items (item value items) = is_clean value && is_clean_items items

  pub is_clean_fields : Fields → Bool
  is_clean_fields end = true
  is_clean_fields (field key value fields) =
      is_clean_line key && is_clean value && is_clean_fields fields

all-remove : (bad : ℕ → Bool) (s : String) → all (λ c. not (bad c)) (codes (remove bad s)) ≡ true
unfolding remove
all-remove bad String.[] = refl
all-remove bad (String.◌∷◌ c s) = elim (Bool-cases (bad (code c))) [
  | inl e ↦ (rw e (all-remove bad s))
  | inr e ↦ (rw (e, e) (all-remove bad s))
]

module _ (strip : String → String) where
  sanitize-clean : (s : String) → is_clean_text (sanitize strip s) ≡ true
  unfolding sanitize
  sanitize-clean s = all-remove is_control_but_newline (strip s)

  sanitize_line-clean : (s : String) → is_clean_line (sanitize_line strip s) ≡ true
  unfolding sanitize_line
  sanitize_line-clean s = all-remove is_control (join_lines false (strip s))

  mutual
    unfolding sanitize_deep is_clean

    deep-clean : (value : Json) → is_clean (sanitize_deep strip value) ≡ true
    deep-clean null = refl
    deep-clean (boolean b) = refl
    deep-clean (number n) = refl
    deep-clean (other_number s) = refl
    deep-clean (text s) = sanitize-clean s
    deep-clean (array items) = items-clean items
    deep-clean (object fields) = fields-clean fields

    items-clean : (items : Items) → is_clean_items (sanitize_items strip items) ≡ true
    items-clean nil = refl
    items-clean (item value items) = rw (deep-clean value, items-clean items) refl

    fields-clean : (fields : Fields) → is_clean_fields (sanitize_fields strip fields) ≡ true
    fields-clean end = refl
    fields-clean (field key value fields) =
        rw (sanitize_line-clean key, deep-clean value, fields-clean fields) refl

  -- Whatever the scanner answers, and whatever Node's own stripping does, what is kept of it has no
  -- control character in any text, at any depth, but tab and newline, and none in any key.
  pub sanitize_deep-clean : (value : Json) → is_clean (sanitize_deep strip value) ≡ true
  sanitize_deep-clean value = deep-clean value

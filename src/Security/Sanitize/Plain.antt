-- ===== src/Security/Sanitize/Plain.antt =====
-- Sanitizing leaves a text without control characters as it is, src/security/sanitize.ts, where the
-- stripping of Node does.
use Prim.Native.Char.{code}
use dg_cli.Common.{
  ℕ, ◌≡◌, refl, ap, String, Bool, true, false, not, ◌&&◌, all, and-true, codes, Option, none, some,
  either, ◌==◌, string_Eq, if◌then◌else◌, arith,
}
use dg_cli.Common.Json.{Json, Fields, end, field, lookup}
use dg_cli.Security.Sanitize.{
  is_control_but_newline, is_control, is_newline, remove, join_lines, sanitize, sanitize_line,
  sanitize_deep, sanitize_fields,
}
use dg_cli.Security.Sanitize.Clean.{is_clean_line}

remove-none :
    (bad : ℕ → Bool) (s : String) → all (λ c. not (bad c)) (codes s) ≡ true → remove bad s ≡ s
unfolding remove
remove-none bad String.[] h = refl
remove-none bad (String.◌∷◌ c s) h =
    let (here, later) = and-true (not (bad (code c))) _ h in
    let good : bad (code c) ≡ false = ground arith in
    rw good (ap (String.◌∷◌ c) (remove-none bad s later))

join_lines-none : (s : String) → is_clean_line s ≡ true → join_lines false s ≡ s
unfolding join_lines
join_lines-none String.[] h = refl
join_lines-none (String.◌∷◌ c s) h =
    let (here, later) = and-true (not (is_control (code c))) _ h in
    let no_newline : is_newline (code c) ≡ false = ground arith in
    rw no_newline (ap (String.◌∷◌ c) (join_lines-none s later))

-- Each control character that `sanitize` takes out is one that `sanitize_line` takes out.
plain-line :
    (s : String)
    → is_clean_line s ≡ true
    → all (λ c. not (is_control_but_newline c)) (codes s) ≡ true
plain-line String.[] h = refl
plain-line (String.◌∷◌ c s) h =
    let (here, later) = and-true (not (is_control (code c))) _ h in
    let good : is_control_but_newline (code c) ≡ false = ground arith in
    rw (good, plain-line s later) refl

unfoldable pub is_clean_keys : Fields → Bool
is_clean_keys end = true
is_clean_keys (field key value fields) = is_clean_line key && is_clean_keys fields

abbrev pub deep_option : (String → String) → Option Json → Option Json
deep_option strip none = none
deep_option strip (some value) = some (sanitize_deep strip value)

deep-either :
    (strip : String → String) (a b : Option Json)
    → either (deep_option strip a) (deep_option strip b) ≡ deep_option strip (either a b)
deep-either strip none b = refl
deep-either strip (some a) b = refl

deep-if :
    (strip : String → String) (b : Bool) (value : Json)
    → (if b then some (sanitize_deep strip value) else none)
      ≡ deep_option strip (if b then some value else none)
deep-if strip true value = refl
deep-if strip false value = refl

-- Node's stripping leaves a line without control characters as it is.
abbrev pub LeavesPlain : (String → String) → Type 0
LeavesPlain strip = (s : String) → is_clean_line s ≡ true → strip s ≡ s

module _ (strip : String → String) (plain : LeavesPlain strip) where
  pub sanitize-plain : (s : String) → is_clean_line s ≡ true → sanitize strip s ≡ s
  unfolding sanitize
  sanitize-plain s h = rw (plain s h) (remove-none is_control_but_newline s (plain-line s h))

  pub sanitize_line-plain : (s : String) → is_clean_line s ≡ true → sanitize_line strip s ≡ s
  unfolding sanitize_line
  sanitize_line-plain s h = rw (plain s h, join_lines-none s h) (remove-none is_control s h)

  pub lookup-sanitize :
      (key : String) (fields : Fields)
      → is_clean_keys fields ≡ true
      → lookup key (sanitize_fields strip fields) ≡ deep_option strip (lookup key fields)
  unfolding sanitize_deep is_clean_keys
  lookup-sanitize key end h = refl
  lookup-sanitize key (field k value fields) h =
      let (here, later) = and-true (is_clean_line k) _ h in
      rw
        (
          sanitize_line-plain k here,
          lookup-sanitize key fields later,
          deep-if strip (k == key) value,
        )
        (deep-either strip (lookup key fields) (if k == key then some value else none))

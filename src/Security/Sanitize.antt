-- ===== src/Security/Sanitize.antt =====
-- src/security/sanitize.ts: control characters are taken out of every text of a response.
-- `strip` is `stripVTControlCharacters` of node:util, a parameter.
pub mod Clean
pub mod Plain
use Prim.Native.Char.{code}
use dg_cli.Common.{ℕ, String, Bool, true, false, not, ◌&&◌, ◌||◌, leb, ◌==◌, nat_Eq, if◌then◌else◌}
use dg_cli.Common.Json.{
  Json, null, boolean, number, other_number, text, array, object, Items, nil, item, Fields, end,
  field,
}

-- [\x00-\x08\x0B-\x1F\x7F-\x9F]
abbrev pub is_control_but_newline : ℕ → Bool
is_control_but_newline c = leb c 8 || (leb 11 c && leb c 31) || (leb 127 c && leb c 159)

-- [\x00-\x1F\x7F-\x9F]
abbrev pub is_control : ℕ → Bool
is_control c = leb c 31 || (leb 127 c && leb c 159)

-- s.replace(/[...]/g, "")
unfoldable pub remove : (ℕ → Bool) → String → String
remove bad String.[] = ""
remove bad (String.◌∷◌ c s) =
    let rest = remove bad s in if bad (code c) then rest else String.◌∷◌ c rest

abbrev is_newline : ℕ → Bool
is_newline c = c == 10 || c == 13

-- s.replace(/[\r\n]+/g, " "); the flag says that the run of newlines has its blank already.
unfoldable pub join_lines : Bool → String → String
join_lines within String.[] = ""
join_lines within (String.◌∷◌ c s) =
    let inside = join_lines true s in
    let outside = join_lines false s in
    if is_newline (code c)
    then (if within then inside else String.◌∷◌ " " inside)
    else String.◌∷◌ c outside

module _ (strip : String → String) where
  unfoldable pub sanitize : String → String
  unfolding remove
  sanitize s = remove is_control_but_newline (strip s)

  unfoldable pub sanitize_line : String → String
  unfolding remove join_lines
  sanitize_line s = remove is_control (join_lines false (strip s))

  unfoldable mutual
    pub sanitize_deep : Json → Json
    sanitize_deep (text s) = text (sanitize s)
    sanitize_deep (array items) = array (sanitize_items items)
    sanitize_deep (object fields) = object (sanitize_fields fields)
    sanitize_deep value = value

    pub sanitize_items : Items → Items
    sanitize_items nil = nil
    sanitize_items (item value items) = item (sanitize_deep value) (sanitize_items items)

    -- Of two keys that become one, the later counts.
    pub sanitize_fields : Fields → Fields
    sanitize_fields end = end
    sanitize_fields (field key value fields) =
        field (sanitize_line key) (sanitize_deep value) (sanitize_fields fields)

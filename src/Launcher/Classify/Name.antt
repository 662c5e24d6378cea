-- ===== src/Launcher/Classify/Name.antt =====
-- `normalizeManagerName` of src/launcher/classify.ts: `pip3.12` is `pip`.
use dg_cli.Common.{
  ℕ, String, Bool, true, false, ◌&&◌, Option, none, some, List, [], ◌∷◌, ◌==◌, nat_Eq, leb, codes,
  if◌then◌else◌,
}

is_digit : ℕ → Bool
is_digit c = leb b'0' c && leb c b'9'

-- What is left of a text behind a prefix.
behind : List ℕ → List ℕ → Option (List ℕ)
behind [] s = some s
behind (p ∷ ps) [] = none
behind (p ∷ ps) (c ∷ s) = let rest = behind ps s in if p == c then rest else none

-- \d+(?:\.\d+)*$, where the flag says that a digit stands before.
version_tail : Bool → List ℕ → Bool
version_tail after_digit [] = after_digit
version_tail after_digit (c ∷ cs) =
    let more = version_tail true cs in
    let dot = version_tail false cs in if is_digit c then more else c == b'.' && after_digit && dot

-- (\d+(?:\.\d+)*)?$
is_version_suffix : List ℕ → Bool
unfolding is_digit version_tail
is_version_suffix [] = true
is_version_suffix (c ∷ cs) = version_tail false (c ∷ cs)

spells : String → String → Bool
unfolding behind is_version_suffix
spells base name = elim (behind (codes base) (codes name)) [
  | none ↦ false
  | some suffix ↦ is_version_suffix suffix
]

unfoldable pub normalize_manager_name : String → String
unfolding spells
normalize_manager_name name =
    if spells "pip" name then "pip" else if spells "python" name then "python" else name

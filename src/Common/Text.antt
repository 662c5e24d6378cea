-- ===== src/Common/Text.antt =====
-- Texts: the native `String` where the program compares whole texts, lists of codes where it walks
-- the characters.
use Prim.Native.Nat.{ℕ, zero, suc, ◌+◌, ◌-◌, ◌*◌, ◌/◌, ◌%◌}
use Prim.Native.Char.{code}
use Prim.Native.String
use Prim.Native.String.{String}
use mathlib.Core.Bool.{Bool, true, false, not, ◌&&◌, ◌||◌}
use mathlib.Core.List.{List, [], ◌∷◌}
use mathlib.Core.Option.{Option, none, some}
use text.Mathlib.Text.{starts_with as text_starts_with}
use dg_cli.Common.Tests.{leb, ltb, get_or, if◌then◌else◌}
use dg_cli.Common.Lists.{get_elem_or}
use dg_cli.Common.Equality.{◌==◌, string_Eq, nat_Eq}

-- `${a}${b}...`
abbrev pub template : List String → String
template [] = ""
template (s ∷ ss) = String.◌++◌ s (template ss)

-- s.startsWith(prefix)
abbrev pub starts_with : String → String → Bool
starts_with s prefix = text_starts_with s prefix

-- The code points of a text.
abbrev pub codes : String → List ℕ
codes String.[] = []
codes (String.◌∷◌ c s) = code c ∷ codes s

-- An absent or empty text is falsy.
abbrev pub truthy : Option String → Bool
truthy none = false
truthy (some s) = not (s == "")

-- The white space that `trim` strips, by code point.
abbrev pub is_space : ℕ → Bool
is_space c =
    (leb 9 c && leb c 13)
    || c == 32
    || c == 0xA0
    || c == 0x1680
    || (leb 0x2000 c && leb c 0x200A)
    || c == 0x2028
    || c == 0x2029
    || c == 0x202F
    || c == 0x205F
    || c == 0x3000
    || c == 0xFEFF

pub trim_start : String → String
trim_start String.[] = ""
trim_start (String.◌∷◌ c s) =
    let rest = trim_start s in if is_space (code c) then rest else String.◌∷◌ c s

pub trim_end : String → String
trim_end String.[] = ""
trim_end (String.◌∷◌ c s) =
    let rest = trim_end s in if rest == "" && is_space (code c) then "" else String.◌∷◌ c rest

-- s.trim()
unfoldable pub trim : String → String
unfolding trim_start trim_end
trim s = trim_end (trim_start s)

abbrev pub is_digit : ℕ → Bool
is_digit c = leb b'0' c && leb c b'9'

-- The digits at the front, read in base ten behind what was read; `none` without a digit.
pub leading_number : Option ℕ → List ℕ → Option ℕ
leading_number read [] = read
leading_number read (c ∷ cs) =
    let more = leading_number (some (get_or read 0 * 10 + (c - b'0'))) cs in
    if is_digit c then more else read

abbrev signed_number : Bool → List ℕ → Option (Bool × ℕ)
signed_number negative cs = elim (leading_number none cs) [
  | none ↦ none
  | some n ↦ some (negative, n)
]

pub after_sign : List ℕ → Option (Bool × ℕ)
after_sign [] = none
after_sign (c ∷ cs) =
    if c == b'-'
    then signed_number true cs
    else if c == b'+'
    then signed_number false cs
    else signed_number false (c ∷ cs)

-- Number.parseInt(s, 10), as a sign and a magnitude; NaN is `none`.
unfoldable pub parse_int : String → Option (Bool × ℕ)
unfolding trim_start leading_number after_sign
parse_int s = after_sign (codes (trim_start s))

digit_names : List String
digit_names = "0" ∷ "1" ∷ "2" ∷ "3" ∷ "4" ∷ "5" ∷ "6" ∷ "7" ∷ "8" ∷ "9" ∷ []

show_from : ℕ → ℕ → String
unfolding digit_names
show_from zero n = ""
show_from (suc fuel) n =
    let front = show_from fuel (n / 10) in
    let last = get_elem_or digit_names (n % 10) "" in
    if ltb n 10 then last else String.◌++◌ front last

-- `${n}`: a number has at most as many digits as it counts, and 0 has one.
unfoldable pub show_nat : ℕ → String
unfolding show_from
show_nat n = show_from (suc n) n

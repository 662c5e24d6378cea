-- ===== src/Api/Stream/Lines.antt =====
-- Texts that arrive in pieces have the lines of the whole text: the buffer of src/api/analyze.ts.
use Prim.Native.Char.{Char, code}
use Prim.Native.String
use text.Mathlib.TextLemmas.{append_assoc, cons-append, nil-append}
use dg_cli.Common.{
  ◌≡◌, refl, sym, inl, inr, String, false, ◌==◌, nat_Eq, Bool-cases, List, [], ◌∷◌, ◌++◌,
}
use dg_cli.Api.Stream.{Split, longer, split_lines}

-- What stands behind the last newline, with the text that comes next.
abbrev pub more_lines : Split → String → Split
more_lines split text =
    let later = split_lines (String.◌++◌ split.rest text) in
    record { lines = split.lines ++ later.lines; rest = later.rest }

split-longer :
    (front : String) (lines : List String) (rest text : String)
    → ((s : String)
        → split_lines (String.◌++◌ front s)
          ≡ longer front ((split_lines s).lines) ((split_lines s).rest))
    → longer front
        ((more_lines (record { lines = lines; rest = rest }) text).lines)
        ((more_lines (record { lines = lines; rest = rest }) text).rest)
      ≡ more_lines (longer front lines rest) text
split-longer front [] rest text h =
    rw (append_assoc front rest text) (sym (h (String.◌++◌ rest text)))
split-longer front (line ∷ lines) rest text h = refl

split-char :
    (c : Char) (s : String)
    → (code c == 10) ≡ false
    → split_lines (String.◌++◌ (String.◌∷◌ c "") s)
      ≡ longer (String.◌∷◌ c "") ((split_lines s).lines) ((split_lines s).rest)
unfolding split_lines
split-char c s e = rw (cons-append c "" s, nil-append s, e) refl

pub split-append :
    (s text : String) → split_lines (String.◌++◌ s text) ≡ more_lines (split_lines s) text
unfolding split_lines
split-append String.[] text = rw (nil-append text) refl
split-append (String.◌∷◌ c s) text = elim (Bool-cases (code c == 10)) [
  | inl e ↦ (rw (cons-append c s text, e, split-append s text) refl)
  | inr e ↦
      (rw (cons-append c s text, e, split-append s text)
        (split-longer (String.◌∷◌ c "") ((split_lines s).lines) ((split_lines s).rest) text
          (λ t. split-char c t e)))
]

-- What is left in the buffer has no newline.
unfoldable pub IsUnended : String → Type 0
IsUnended s = split_lines s ≡ record { lines = []; rest = s }

longer-IsUnended :
    (c : Char) (lines : List String) (rest : String)
    → (code c == 10) ≡ false
    → IsUnended rest
    → IsUnended ((longer (String.◌∷◌ c "") lines rest).rest)
unfolding IsUnended
longer-IsUnended c [] rest e h = rw (split-char c rest e, h) refl
longer-IsUnended c (line ∷ lines) rest e h = h

pub rest-IsUnended : (s : String) → IsUnended ((split_lines s).rest)
unfolding split_lines IsUnended
rest-IsUnended String.[] = refl
rest-IsUnended (String.◌∷◌ c s) = elim (Bool-cases (code c == 10)) [
  | inl e ↦ (rw e (rest-IsUnended s))
  | inr e ↦
      (rw e
        (longer-IsUnended c ((split_lines s).lines) ((split_lines s).rest) e (rest-IsUnended s)))
]

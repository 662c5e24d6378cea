-- ===== src/Decisions/Fingerprint.antt =====
-- src/decisions/apply.ts: the worst severity per category of a package's findings, and which of them
-- an accepted fingerprint does not cover. The records of the source are plain objects, so that the
-- names on Object.prototype are keys of each of them, with values that are no numbers.
pub mod Covers
use dg_cli.Common.{
  ℕ, max, String, Bool, true, false, not, ◌&&◌, ◌||◌, Option, none, some, List, [], ◌∷◌, ◌==◌,
  string_Eq, ltb, leb, if◌then◌else◌, get_or, template, codes, has, show_nat, inherited,
}

pub record ScannerFinding : Type 0 where
  pub id : Option String
  pub category : Option String
  pub severity : ℕ

-- `finding.category ?? finding.id ?? "unknown"`
unfoldable pub finding_category : ScannerFinding → String
finding_category finding = get_or finding.category (get_or finding.id "unknown")

-- The value at a key: a number, or NaN and what else compares with no number.
pub data Slot : Type 0 where
  a_number : ℕ → Slot
  no_number : Slot

-- The own keys of an object with their values.
abbrev pub Entries : Type 0
Entries = List (String × Slot)

pub own : Entries → String → Option Slot
own [] key = none
own ((k, v) ∷ entries) key = let rest = own entries key in if k == key then some v else rest

abbrev pub or_inherited : Option Slot → String → Option Slot
or_inherited (some v) key = some v
or_inherited none key = if inherited key then some no_number else none

-- record[key]
unfoldable pub read : Entries → String → Option Slot
unfolding own
read entries key = or_inherited (own entries key) key

-- record[key] = value; a number does not become the prototype
pub write : Entries → String → Slot → Entries
write [] key v = if key == "__proto__" then [] else (key, v) ∷ []
write ((k, u) ∷ entries) key v =
    let rest = write entries key v in if k == key then (key, v) ∷ entries else (k, u) ∷ rest

-- Math.max(value ?? 0, severity)
abbrev pub max_slot : Option Slot → ℕ → Slot
max_slot none n = a_number n
max_slot (some (a_number m)) n = a_number (max m n)
max_slot (some no_number) n = no_number

pub fingerprint_from : Entries → List ScannerFinding → Entries
fingerprint_from entries [] = entries
fingerprint_from entries (finding ∷ findings) =
    let category = finding_category finding in
    fingerprint_from (write entries category (max_slot (read entries category) finding.severity))
      findings

unfoldable pub finding_fingerprint : List ScannerFinding → Entries
unfolding fingerprint_from finding_category read write
finding_fingerprint findings = fingerprint_from [] findings

-- `acceptedSeverity === undefined || severity > acceptedSeverity`
abbrev pub exceeds : Slot → Option Slot → Bool
exceeds v none = true
exceeds (a_number n) (some (a_number m)) = ltb m n
exceeds v (some u) = false

abbrev show_slot : Slot → String
show_slot (a_number n) = show_nat n
show_slot no_number = "NaN"

pub uncovered : Entries → Entries → List String
unfolding read
uncovered [] accepted = []
uncovered ((category, v) ∷ fingerprint) accepted =
    let rest = uncovered fingerprint accepted in
    if exceeds v (read accepted category)
    then template (category ∷ ":" ∷ show_slot v ∷ []) ∷ rest
    else rest

abbrev codes_le : List ℕ → List ℕ → Bool
codes_le [] ds = true
codes_le (c ∷ cs) [] = false
codes_le (c ∷ cs) (d ∷ ds) = ltb c d || (leb c d && codes_le cs ds)

pub insert : String → List String → List String
insert s [] = s ∷ []
insert s (t ∷ ts) =
    let rest = insert s ts in if codes_le (codes s) (codes t) then s ∷ t ∷ ts else t ∷ rest

pub sort : List String → List String
unfolding insert
sort [] = []
sort (s ∷ ss) = insert s (sort ss)

unfoldable pub uncovered_findings : Entries → Entries → List String
unfolding uncovered sort
uncovered_findings fingerprint accepted = sort (uncovered fingerprint accepted)

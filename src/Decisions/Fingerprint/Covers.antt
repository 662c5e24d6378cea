-- ===== src/Decisions/Fingerprint/Covers.antt =====
-- When an accepted fingerprint of src/decisions/apply.ts covers a package's findings.
use dg_cli.Common.{
  ℕ, max, ◌≡◌, ◌∙◌, ap, sym, refl, subst, String, Bool, true, false, not, ◌&&◌, ◌||◌, inl, inr,
  Option, none, some, List, [], ◌∷◌, ◌==◌, string_Eq, str_eq_iff, leb, Bool-cases, Option-cases,
  All, all, arith, inherited,
}
use dg_cli.Decisions.Fingerprint.{
  ScannerFinding, finding_category, Slot, a_number, no_number, Entries, own, read, write, max_slot,
  fingerprint_from, finding_fingerprint, exceeds, uncovered, uncovered_findings, insert, sort,
}

-- A number that reaches the severity; what is no number compares with none, and covers it as well.
abbrev pub within : ℕ → Option Slot → Bool
within n none = false
within n (some (a_number m)) = leb n m
within n (some no_number) = true

-- A finding is covered if its category is a name on Object.prototype, or accepted with at least its
-- severity.
abbrev pub covered : Entries → String → ℕ → Bool
covered accepted category severity = inherited category || within severity (read accepted category)

abbrev fits : Entries → String × Slot → Bool
fits accepted (category, v) = not (exceeds v (read accepted category))

abbrev is_number : Slot → Bool
is_number (a_number n) = true
is_number no_number = false

-- The inherited names are the ones without a number.
abbrev Typed : String × Slot → Type 0
Typed (category, v) = is_number v ≡ not (inherited category)

read-inherited :
    (accepted : Entries) (key : String)
    → inherited key ≡ true
    → (v : Slot) × (read accepted key ≡ some v)
unfolding read
read-inherited accepted key h = elim (Option-cases (own accepted key)) [
  | inl e ↦ (no_number, rw (e, h) refl)
  | inr (v, e) ↦ (v, rw e refl)
]

fits-no_number :
    (accepted : Entries) (key : String)
    → inherited key ≡ true
    → fits accepted (key, no_number) ≡ true
fits-no_number accepted key h = let (v, e) = read-inherited accepted key h in rw e refl

number_fits : (n : ℕ) (r : Option Slot) → not (exceeds (a_number n) r) ≡ within n r
number_fits n none = refl
number_fits n (some (a_number m)) = ground arith
number_fits n (some no_number) = refl

max_within : (m n : ℕ) (r : Option Slot) → within (max m n) r ≡ (within m r && within n r)
max_within m n none = refl
max_within m n (some (a_number k)) = ground arith
max_within m n (some no_number) = refl

fits-max :
    (accepted : Entries) (key : String) (u : Slot) (n : ℕ)
    → Typed (key, u)
    → fits accepted (key, max_slot (some u) n) ≡ (fits accepted (key, u) && covered accepted key n)
fits-max accepted key (a_number m) n t =
    let r = read accepted key in
    let plain : inherited key ≡ false = ground arith in
    rw (number_fits (max m n) r, number_fits m r, max_within m n r, plain) refl
fits-max accepted key no_number n t =
    let named : inherited key ≡ true = ground arith in
    rw (fits-no_number accepted key named, named) refl

fits-new :
    (accepted : Entries) (key : String) (n : ℕ)
    → fits accepted (key, max_slot (read [] key) n) ≡ covered accepted key n
unfolding read
fits-new accepted key n = elim (Bool-cases (inherited key)) [
  | inl e ↦ (rw e (fits-no_number accepted key e))
  | inr e ↦ (rw e (number_fits n (read accepted key)))
]

slot-Typed :
    (entries : Entries) (key : String) (n : ℕ)
    → All Typed entries
    → Typed (key, max_slot (read entries key) n)
unfolding read own
slot-Typed [] key n h = elim (Bool-cases (inherited key)) [
  | inl e ↦ (rw e refl)
  | inr e ↦ (rw e refl)
]
slot-Typed ((k, u) ∷ entries) key n h = elim (Bool-cases (k == key)) [
  | inl e ↦ (rw e (max-Typed key u n (subst (λ k. Typed (k, u)) ((str_eq_iff k key).0 e) h.0)))
  | inr e ↦ (rw e (slot-Typed entries key n h.1))
]
  where
    max-Typed :
        (key : String) (u : Slot) (n : ℕ) → Typed (key, u) → Typed (key, max_slot (some u) n)
    max-Typed key (a_number m) n t = t
    max-Typed key no_number n t = t

write-Typed :
    (entries : Entries) (key : String) (v : Slot)
    → All Typed entries
    → Typed (key, v)
    → All Typed (write entries key v)
unfolding write
write-Typed [] key v h t = elim (Bool-cases (key == "__proto__")) [
  | inl e ↦ (rw e tt)
  | inr e ↦ (rw e (t, tt))
]
write-Typed ((k, u) ∷ entries) key v h t = elim (Bool-cases (k == key)) [
  | inl e ↦ (rw e (t, h.1))
  | inr e ↦ (rw e (h.0, write-Typed entries key v h.1 t))
]

proto-inherited : (key : String) → (key == "__proto__") ≡ true → inherited key ≡ true
unfolding inherited
proto-inherited key e =
    subst (λ key. inherited key ≡ true) (sym ((str_eq_iff key "__proto__").0 e)) refl

fits-same :
    (accepted : Entries) (k key : String) (u : Slot) (n : ℕ)
    → (k == key) ≡ true
    → Typed (k, u)
    → fits accepted (key, max_slot (some u) n) ≡ (fits accepted (k, u) && covered accepted key n)
fits-same accepted k key u n e t =
    let same = (str_eq_iff k key).0 e in
    fits-max accepted key u n (subst (λ k. Typed (k, u)) same t)
    ∙ ap (λ k. fits accepted (k, u) && covered accepted key n) (sym same)

write-fits :
    (accepted entries : Entries) (key : String) (n : ℕ)
    → All Typed entries
    → all (fits accepted) (write entries key (max_slot (read entries key) n))
      ≡ (all (fits accepted) entries && covered accepted key n)
unfolding write read own
write-fits accepted [] key n h = elim (Bool-cases (key == "__proto__")) [
  | inl e ↦ (rw (e, proto-inherited key e) refl)
  | inr e ↦ (rw e (ground (arith, fits-new accepted key n)))
]
write-fits accepted ((k, u) ∷ entries) key n h = elim (Bool-cases (k == key)) [
  | inl e ↦ (rw (e, fits-same accepted k key u n e h.0) (ground arith))
  | inr e ↦ (rw (e, write-fits accepted entries key n h.1) (ground arith))
]

abbrev pub covers : Entries → ScannerFinding → Bool
covers accepted finding = covered accepted (finding_category finding) finding.severity

fingerprint_from-fits :
    (accepted : Entries) (findings : List ScannerFinding) (entries : Entries)
    → All Typed entries
    → all (fits accepted) (fingerprint_from entries findings)
      ≡ (all (fits accepted) entries && all (covers accepted) findings)
unfolding fingerprint_from
fingerprint_from-fits accepted [] entries h = ground arith
fingerprint_from-fits accepted (finding ∷ findings) entries h =
    let key = finding_category finding in
    let typed = write-Typed entries key _ h (slot-Typed entries key finding.severity h) in
    fingerprint_from-fits accepted findings _ typed
    ∙ rw (write-fits accepted entries key finding.severity h) (ground arith)

abbrev pub is_empty {ℓ} : {A : Type ℓ} → List A → Bool
is_empty [] = true
is_empty _ = false

insert-is_empty : (s : String) (ss : List String) → is_empty (insert s ss) ≡ false
unfolding insert
insert-is_empty s [] = refl
insert-is_empty s (t ∷ ts) = ground arith

sort-is_empty : (ss : List String) → is_empty (sort ss) ≡ is_empty ss
unfolding sort
sort-is_empty [] = refl
sort-is_empty (s ∷ ss) = insert-is_empty s (sort ss)

uncovered-is_empty :
    (fingerprint accepted : Entries)
    → is_empty (uncovered fingerprint accepted) ≡ all (fits accepted) fingerprint
unfolding uncovered
uncovered-is_empty [] accepted = refl
uncovered-is_empty ((category, v) ∷ fingerprint) accepted =
    ground (arith, uncovered-is_empty fingerprint accepted)

-- An accepted fingerprint leaves no finding uncovered exactly when it covers each finding of the
-- package: its category is accepted with at least its severity, or a name on Object.prototype.
pub uncovered_findings-is_empty :
    (findings : List ScannerFinding) (accepted : Entries)
    → is_empty (uncovered_findings (finding_fingerprint findings) accepted)
      ≡ all (covers accepted) findings
unfolding uncovered_findings finding_fingerprint
uncovered_findings-is_empty findings accepted =
    sort-is_empty (uncovered (fingerprint_from [] findings) accepted)
    ∙ (uncovered-is_empty (fingerprint_from [] findings) accepted
        ∙ fingerprint_from-fits accepted findings [] tt)

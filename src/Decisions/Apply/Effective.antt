-- ===== src/Decisions/Apply/Effective.antt =====
-- The effective action of `applyDecisions`, src/decisions/apply.ts.
use dg_cli.Common.{
  ℕ, ◌+◌, ◌≤◌, min, max, ◌≡◌, refl, ◌∙◌, Bool, true, false, not, ◌&&◌, ◌||◌, inl, inr, Option, none,
  some, List, [], ◌∷◌, ◌==◌, nat_Eq, any, find, Bool-cases, if◌then◌else◌, get_or, arith, In, leb,
}
use dg_cli.Project.DgFile.{DecisionEcosystem, DgFile}
use dg_cli.Decisions.Match.{
  ScannerAction, block, pass, ScannerPackageResult, DecisionMatch, acknowledged, unacknowledged,
  is_warn, applies,
}
use dg_cli.Decisions.Match.Acknowledged.{acknowledged_entry, answers, match_decision-entry}
use dg_cli.Decisions.Apply.{
  action_severity, action_from_severity, is_pass, Tally, after_match, match_in, apply_one,
  apply_all, apply_decisions,
}

-- An accepted decision of a readable file answers the warning; a package of no ecosystem has none.
abbrev pub accepted : DgFile → ℕ → ScannerPackageResult → Option DecisionEcosystem → Bool
accepted file now pkg none = false
accepted file now pkg (some ecosystem) =
    file.readable
    && is_warn (get_or pkg.action pass)
    && any (answers (applies pkg ecosystem now) pkg.findings) file.decisions

abbrev pub accepts :
    (ScannerPackageResult → Option DecisionEcosystem) → DgFile → ℕ → ScannerPackageResult → Bool
accepts ecosystem_of file now pkg = accepted file now pkg (ecosystem_of pkg)

-- The severity of what a package leaves.
abbrev pub left :
    (ScannerPackageResult → Option DecisionEcosystem) → DgFile → ℕ → ScannerPackageResult → ℕ
left ecosystem_of file now pkg =
    if accepts ecosystem_of file now pkg then 0 else action_severity (get_or pkg.action pass)

abbrev pub worst_left :
    (ScannerPackageResult → Option DecisionEcosystem) → DgFile → ℕ → List ScannerPackageResult → ℕ
worst_left ecosystem_of file now [] = 0
worst_left ecosystem_of file now (pkg ∷ packages) =
    max (left ecosystem_of file now pkg) (worst_left ecosystem_of file now packages)

abbrev found {ℓ} : {A : Type ℓ} → Option A → Bool
found none = false
found (some a) = true

find-any {ℓ} : {A : Type ℓ} (p : A → Bool) (xs : List A) → found (find p xs) ≡ any p xs
find-any p [] = refl
find-any p (x ∷ xs) = ground (arith, find-any p xs)

match_in-accepted :
    (file : DgFile) (now : ℕ) (pkg : ScannerPackageResult) (ecosystem : DecisionEcosystem)
    → found (acknowledged_entry (match_in file now pkg ecosystem))
      ≡ accepted file now pkg (some ecosystem)
unfolding match_in
match_in-accepted file now pkg ecosystem = elim (Bool-cases file.readable) [
  | inl e ↦
      (rw (e, match_decision-entry pkg ecosystem file.decisions now)
        (elim (Bool-cases (is_warn (get_or pkg.action pass))) [
          | inl w ↦
              (rw w (find-any (answers (applies pkg ecosystem now) pkg.findings) file.decisions))
          | inr w ↦ (rw w refl)
        ]))
  | inr e ↦ (rw e refl)
]

-- One package adds to the tally what it leaves, or that it is accepted.
record Adds (n : ℕ) (b : Bool) (t t' : Tally) : Type 0 where
  worst : t'.worst ≡ max t.worst n
  count : t'.acknowledged_count ≡ t.acknowledged_count + (if b then 1 else 0)

after_match-Adds :
    (pkg : ScannerPackageResult) (action : ScannerAction) (ecosystem : DecisionEcosystem)
    (m : DecisionMatch) (t : Tally)
    → Adds
        (if found (acknowledged_entry m) then 0 else action_severity action)
        (found (acknowledged_entry m))
        t
        (after_match pkg action ecosystem m t)
unfolding after_match
after_match-Adds pkg action ecosystem (acknowledged entry) t = record {
  worst = omega arith;
  count = refl;
}
after_match-Adds pkg action ecosystem (unacknowledged missing) t = record {
  worst = refl;
  count = omega arith;
}

is_pass-not_warn :
    (a : ScannerAction) → is_pass a ≡ true → (is_warn a ≡ false) × (action_severity a ≡ 0)
is_pass-not_warn a h = ground arith

module _ (ecosystem_of : ScannerPackageResult → Option DecisionEcosystem) (file : DgFile)
    (now : ℕ) where
  by_ecosystem :
      (pkg : ScannerPackageResult) (o : Option DecisionEcosystem) (t : Tally)
      → is_pass (get_or pkg.action pass) ≡ false
      → ecosystem_of pkg ≡ o
      → Adds
          (left ecosystem_of file now pkg)
          (accepts ecosystem_of file now pkg)
          t
          (apply_one ecosystem_of file now pkg t)
  unfolding apply_one
  by_ecosystem pkg none t p e = rw (p, e) (record { worst = refl; count = omega arith })
  by_ecosystem pkg (some ecosystem) t p e =
      rw (p, e, ← match_in-accepted file now pkg ecosystem)
        (after_match-Adds pkg (get_or pkg.action pass) ecosystem (match_in file now pkg ecosystem)
          t)

  not_warn-accepted :
      (pkg : ScannerPackageResult) (o : Option DecisionEcosystem)
      → is_warn (get_or pkg.action pass) ≡ false
      → accepted file now pkg o ≡ false
  not_warn-accepted pkg none w = refl
  not_warn-accepted pkg (some ecosystem) w = ground arith

  apply_one-Adds :
      (pkg : ScannerPackageResult) (t : Tally)
      → Adds
          (left ecosystem_of file now pkg)
          (accepts ecosystem_of file now pkg)
          t
          (apply_one ecosystem_of file now pkg t)
  unfolding apply_one
  apply_one-Adds pkg t = elim (Bool-cases (is_pass (get_or pkg.action pass))) [
    | inl p ↦
        let (w, z) = is_pass-not_warn (get_or pkg.action pass) p in
        let a = not_warn-accepted pkg (ecosystem_of pkg) w in
        rw (p, a, z) (record { worst = omega arith; count = omega arith })
    | inr p ↦ by_ecosystem pkg (ecosystem_of pkg) t p refl
  ]

  -- The tally of all packages.
  record Totals (packages : List ScannerPackageResult) (t t' : Tally) : Type 0 where
    worst : t'.worst ≡ max t.worst (worst_left ecosystem_of file now packages)
    none_accepted :
        (t'.acknowledged_count == 0)
        ≡ (t.acknowledged_count == 0 && not (any (accepts ecosystem_of file now) packages))

  apply_all-Totals :
      (packages : List ScannerPackageResult) (t : Tally)
      → Totals packages t (apply_all ecosystem_of file now packages t)
  unfolding apply_all
  apply_all-Totals [] t = record { worst = omega arith; none_accepted = ground arith }
  apply_all-Totals (pkg ∷ packages) t =
      let here = apply_one-Adds pkg t in
      let later = apply_all-Totals packages (apply_one ecosystem_of file now pkg t) in
      record {
        worst = omega (arith, here.worst, later.worst);
        none_accepted = later.none_accepted ∙ ground (arith, here.count);
      }

severity-from : (n : ℕ) → n ≤ 3 → action_severity (action_from_severity n) ≡ n
unfolding action_from_severity
severity-from n h = ground arith

severity_le : (a : ScannerAction) → action_severity a ≤ 3
severity_le a = ground arith

-- What the last test makes of the tally.
milder :
    (raw_action : ScannerAction) (worst : ℕ) (b : Bool)
    → action_severity (
        if b || leb (action_severity raw_action) worst
        then raw_action
        else action_from_severity worst)
      ≡ (if not b then min (action_severity raw_action) worst else action_severity raw_action)
milder raw_action worst true = refl
milder raw_action worst false = elim (Bool-cases (leb (action_severity raw_action) worst)) [
  | inl e ↦ (rw e (ground arith))
  | inr e ↦ (rw e (ground (arith, severity-from worst (ground (arith, severity_le raw_action)))))
]

-- If some warning is accepted, the effective action is the milder one of the raw action and the
-- worst action among the packages that no decision accepts; if none is, it is the raw action.
pub effective_action-severity :
    (packages : List ScannerPackageResult)
    (ecosystem_of : ScannerPackageResult → Option DecisionEcosystem) (file : DgFile)
    (raw_action : ScannerAction) (now : ℕ)
    → action_severity (apply_decisions packages ecosystem_of file raw_action now).effective_action
      ≡ (if any (accepts ecosystem_of file now) packages
          then min (action_severity raw_action) (worst_left ecosystem_of file now packages)
          else action_severity raw_action)
unfolding apply_decisions
effective_action-severity packages ecosystem_of file raw_action now =
    let h =
      apply_all-Totals ecosystem_of file now packages
        (record { annotations = []; acknowledged_count = 0; worst = 0 }) in
    rw (h.worst, h.none_accepted)
      (milder raw_action (max 0 (worst_left ecosystem_of file now packages)) _ ∙ ground arith)

left_le :
    (ecosystem_of : ScannerPackageResult → Option DecisionEcosystem) (file : DgFile) (now : ℕ)
    (pkg : ScannerPackageResult) (packages : List ScannerPackageResult)
    → In pkg packages
    → left ecosystem_of file now pkg ≤ worst_left ecosystem_of file now packages
left_le ecosystem_of file now pkg [] h = absurd h
left_le ecosystem_of file now pkg (p ∷ packages) (inl e) = rw e (omega arith)
left_le ecosystem_of file now pkg (p ∷ packages) (inr h) =
    omega (arith, left_le ecosystem_of file now pkg packages h)

block_left :
    (ecosystem_of : ScannerPackageResult → Option DecisionEcosystem) (file : DgFile) (now : ℕ)
    (pkg : ScannerPackageResult)
    → pkg.action ≡ some block
    → left ecosystem_of file now pkg ≡ 3
block_left ecosystem_of file now pkg e =
    rw (not_warn-accepted ecosystem_of file now pkg (ecosystem_of pkg) (rw e refl), e) refl

severity-block : (a : ScannerAction) → action_severity a ≡ 3 → a ≡ block
severity-block a h = ground arith

-- Accepted decisions never let a blocked package pass: where the raw action is to block and some
-- package is blocked, the effective action is to block, whatever else is accepted.
pub block_stays :
    (packages : List ScannerPackageResult)
    (ecosystem_of : ScannerPackageResult → Option DecisionEcosystem) (file : DgFile) (now : ℕ)
    (pkg : ScannerPackageResult)
    → In pkg packages
    → pkg.action ≡ some block
    → (apply_decisions packages ecosystem_of file block now).effective_action ≡ block
block_stays packages ecosystem_of file now pkg here e =
    let all = effective_action-severity packages ecosystem_of file block now in
    let worst = left_le ecosystem_of file now pkg packages here in
    severity-block (apply_decisions packages ecosystem_of file block now).effective_action
      (ground (arith, all, worst, block_left ecosystem_of file now pkg e))

-- ===== src/Decisions/Match/Acknowledged.antt =====
-- Which packages `matchDecision` of src/decisions/apply.ts acknowledges.
use dg_cli.Common.{
  ℕ, String, find, ◌≡◌, refl, ap, ◌∙◌, Bool, ◌&&◌, inl, inr, Option, none, some, List, [], ◌∷◌, all,
  Bool-cases, if◌then◌else◌, get_or,
}
use dg_cli.Decisions.Fingerprint.{finding_fingerprint, uncovered_findings, ScannerFinding}
use dg_cli.Decisions.Fingerprint.Covers.{covers, is_empty, uncovered_findings-is_empty}
use dg_cli.Project.DgFile.{DecisionEcosystem, DecisionEntry}
use dg_cli.Decisions.Match.{
  ScannerPackageResult, pass, DecisionMatch, answer, acknowledged, unacknowledged, is_warn, applies,
  nearer, scan, match_decision,
}

abbrev pub acknowledged_entry : DecisionMatch → Option DecisionEntry
acknowledged_entry (acknowledged entry) = some entry
acknowledged_entry (unacknowledged missing) = none

answer-entry :
    (missing : List String) (entry : DecisionEntry) (passed : DecisionMatch)
    → acknowledged_entry (answer missing entry passed)
      ≡ (if is_empty missing then some entry else acknowledged_entry passed)
answer-entry [] entry passed = refl
answer-entry (m ∷ ms) entry passed = refl

-- An entry passes the guards, and covers all findings.
abbrev pub answers : (DecisionEntry → Bool) → List ScannerFinding → DecisionEntry → Bool
answers guards findings entry = guards entry && all (covers entry.findings) findings

scan-entry :
    (guards : DecisionEntry → Bool) (findings : List ScannerFinding) (entries : List DecisionEntry)
    (nearest : Option (List String))
    → acknowledged_entry (scan guards (finding_fingerprint findings) entries nearest)
      ≡ find (answers guards findings) entries
unfolding scan
scan-entry guards findings [] nearest = refl
scan-entry guards findings (entry ∷ entries) nearest =
    let missing = uncovered_findings (finding_fingerprint findings) entry.findings in
    elim (Bool-cases (guards entry)) [
      | inl e ↦
          (rw e (
            answer-entry missing entry _
            ∙ rw (uncovered_findings-is_empty findings entry.findings) (
                ap (λ later. if all (covers entry.findings) findings then some entry else later)
                  (scan-entry guards findings entries (nearer nearest missing)))))
      | inr e ↦ (rw e (scan-entry guards findings entries nearest))
    ]

-- A package is acknowledged by the first decision of its ecosystem and name that has not expired,
-- whose scope has its version and which covers each of its findings, if its action is to warn, and
-- by none otherwise: a block is never acknowledged.
pub match_decision-entry :
    (pkg : ScannerPackageResult) (ecosystem : DecisionEcosystem) (entries : List DecisionEntry)
    (now : ℕ)
    → acknowledged_entry (match_decision pkg ecosystem entries now) ≡ (
        if is_warn (get_or pkg.action pass)
        then find (answers (applies pkg ecosystem now) pkg.findings) entries
        else none)
unfolding match_decision
match_decision-entry pkg ecosystem entries now =
    elim (Bool-cases (is_warn (get_or pkg.action pass))) [
      | inl e ↦ (rw e (scan-entry (applies pkg ecosystem now) pkg.findings entries none))
      | inr e ↦ (rw e refl)
    ]

-- ===== src/Tests/Decisions.antt =====
-- src/decisions/apply.ts on concrete packages.
use dg_cli.Common.{
  ◌≡◌, inl, inr, refl, min, all, any, find, true, Option, none, some, List, [], ◌∷◌, if◌then◌else◌,
  get_or, show_nat, inherited,
}
use dg_cli.Decisions.Fingerprint.{
  ScannerFinding, a_number, Entries, finding_fingerprint, uncovered_findings,
}
use dg_cli.Decisions.Fingerprint.Covers.{covers, is_empty, uncovered_findings-is_empty}
use dg_cli.Common.Json.{end}
use dg_cli.Project.DgFile.{DecisionEcosystem, npm, exact, never, DecisionEntry, DgFile}
use dg_cli.Decisions.Match.{
  ScannerPackageResult, block, warn, pass, is_warn, applies, match_decision,
}
use dg_cli.Decisions.Match.Acknowledged.{acknowledged_entry, answers, match_decision-entry}
use dg_cli.Decisions.Apply.{action_severity, apply_decisions}
use dg_cli.Decisions.Apply.Effective.{accepts, worst_left, effective_action-severity, block_stays}

abbrev findings : List ScannerFinding
findings =
    record { id = none; category = some "network"; severity = 2 }
    ∷ record { id = some "eval"; category = none; severity = 3 }
    ∷ record { id = none; category = some "network"; severity = 4 }
    ∷ []

abbrev accepted_findings : Entries
accepted_findings = ("network", a_number 3) ∷ ("eval", a_number 3) ∷ []

missing : uncovered_findings (finding_fingerprint findings) accepted_findings ≡ ("network:4" ∷ [])
unfolding uncovered_findings finding_fingerprint inherited show_nat
missing = refl

uncovered_findings-is_empty_example :
    is_empty (uncovered_findings (finding_fingerprint findings) accepted_findings)
    ≡ all (covers accepted_findings) findings
uncovered_findings-is_empty_example = uncovered_findings-is_empty findings accepted_findings

abbrev warned : ScannerPackageResult
warned = record { name = "left-pad"; version = "1.3.0"; action = some warn; findings = findings }

abbrev blocked : ScannerPackageResult
blocked = record { name = "evil"; version = "6.6.6"; action = some block; findings = [] }

abbrev entry : DecisionEntry
entry = record {
  id = "d1";
  ecosystem = npm;
  name = "left-pad";
  scope = exact "1.3.0";
  findings = ("network", a_number 4) ∷ ("eval", a_number 3) ∷ [];
  reason = "reviewed";
  accepted_by = "me";
  accepted_at = "2026-01-01";
  expires_at = never;
  extra = none;
}

abbrev file : DgFile
file = record {
  path = "dg.json";
  exists = true;
  readable = true;
  failure = none;
  raw = end;
  decisions = entry ∷ [];
  cooldown_exemptions = [];
  script_approvals = record { npm = []; observed = []; unknown_keys = end };
}

abbrev npm_only : ScannerPackageResult → Option DecisionEcosystem
npm_only pkg = some npm

answered : acknowledged_entry (match_decision warned npm file.decisions 5) ≡ some entry
unfolding match_decision uncovered_findings finding_fingerprint inherited
answered = refl

match_decision-entry_example : acknowledged_entry (match_decision warned npm file.decisions 5) ≡ (
    if is_warn (get_or warned.action pass)
    then find (answers (applies warned npm 5) warned.findings) file.decisions
    else none)
match_decision-entry_example = match_decision-entry warned npm file.decisions 5

effective_action-severity_example :
    action_severity (apply_decisions (warned ∷ []) npm_only file warn 5).effective_action ≡ (
      if any (accepts npm_only file 5) (warned ∷ [])
      then min (action_severity warn) (worst_left npm_only file 5 (warned ∷ []))
      else action_severity warn)
effective_action-severity_example = effective_action-severity (warned ∷ []) npm_only file warn 5

block_stays_example :
    (apply_decisions (warned ∷ blocked ∷ []) npm_only file block 5).effective_action ≡ block
block_stays_example =
    block_stays (warned ∷ blocked ∷ []) npm_only file 5 blocked (inr (inl refl)) refl

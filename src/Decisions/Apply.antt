-- ===== src/Decisions/Apply.antt =====
-- `applyDecisions` of src/decisions/apply.ts: the action that is left when the accepted warnings
-- are taken away.
pub mod Effective
use dg_cli.Common.{
  ℕ, suc, ◌+◌, max, String, Bool, true, false, not, ◌&&◌, ◌||◌, Option, none, some, List, [], ◌∷◌,
  ◌==◌, string_Eq, nat_Eq, leb, if◌then◌else◌, get_or, template,
}
use dg_cli.Project.DgFile.{DgFile, DecisionEcosystem, DecisionEntry}
use dg_cli.Decisions.Match.{
  ScannerAction, block, warn, pass, analysis_incomplete, ScannerPackageResult, DecisionMatch,
  acknowledged, unacknowledged, match_decision,
}

pub record DecisionAcknowledgement : Type 0 where
  pub decision_id : String
  pub by : String
  pub at_date : String
  pub reason : String

pub record PackageAnnotation : Type 0 where
  pub ecosystem : DecisionEcosystem
  pub acknowledged_by : Option DecisionAcknowledgement
  pub new_findings : Option (List String)

pub record AppliedDecisions : Type 0 where
  pub file : String
  pub acknowledged_count : ℕ
  pub effective_action : ScannerAction
  pub packages : List (String × PackageAnnotation)

abbrev pub package_key : String → String → String
package_key name version = template (name ∷ "@" ∷ version ∷ [])

abbrev pub action_severity : ScannerAction → ℕ
action_severity pass = 0
action_severity analysis_incomplete = 1
action_severity warn = 2
action_severity block = 3

pub action_from_severity : ℕ → ScannerAction
action_from_severity severity =
    if leb 3 severity
    then block
    else if severity == 2
    then warn
    else if severity == 1
    then analysis_incomplete
    else pass

-- annotations[key] = annotation
annotate :
    String
    → PackageAnnotation
    → List (String × PackageAnnotation)
    → List (String × PackageAnnotation)
annotate key a [] = (key, a) ∷ []
annotate key a ((k, b) ∷ annotations) =
    let rest = annotate key a annotations in
    if k == key then (key, a) ∷ annotations else (k, b) ∷ rest

-- The variables of the loop.
pub record Tally : Type 0 where
  pub annotations : List (String × PackageAnnotation)
  pub acknowledged_count : ℕ
  pub worst : ℕ

abbrev pub is_pass : ScannerAction → Bool
is_pass pass = true
is_pass _ = false

pub after_match :
    ScannerPackageResult → ScannerAction → DecisionEcosystem → DecisionMatch → Tally → Tally
unfolding annotate
after_match pkg action ecosystem (acknowledged entry) t = record t {
  acknowledged_count = t.acknowledged_count + 1;
  annotations =
      annotate (package_key pkg.name pkg.version)
        (record {
          ecosystem = ecosystem;
          acknowledged_by = some (record {
            decision_id = entry.id;
            by = entry.accepted_by;
            at_date = entry.accepted_at;
            reason = entry.reason;
          });
          new_findings = none;
        })
        t.annotations;
}
after_match pkg action ecosystem (unacknowledged missing) t = record t {
  annotations =
      annotate (package_key pkg.name pkg.version)
        (record { ecosystem = ecosystem; acknowledged_by = none; new_findings = missing })
        t.annotations;
  worst = max t.worst (action_severity action);
}

-- `file.readable ? matchDecision(...) : { acknowledged: false }`
pub match_in : DgFile → ℕ → ScannerPackageResult → DecisionEcosystem → DecisionMatch
match_in file now pkg ecosystem =
    if file.readable then match_decision pkg ecosystem file.decisions now else unacknowledged none

pub apply_one :
    (ScannerPackageResult → Option DecisionEcosystem)
    → DgFile
    → ℕ
    → ScannerPackageResult
    → Tally
    → Tally
unfolding after_match
apply_one ecosystem_of file now pkg t =
    let action = get_or pkg.action pass in
    if is_pass action then t else elim (ecosystem_of pkg) [
      | none ↦ record t { worst = max t.worst (action_severity action) }
      | some ecosystem ↦ after_match pkg action ecosystem (match_in file now pkg ecosystem) t
    ]

pub apply_all :
    (ScannerPackageResult → Option DecisionEcosystem)
    → DgFile
    → ℕ
    → List ScannerPackageResult
    → Tally
    → Tally
unfolding apply_one
apply_all ecosystem_of file now [] t = t
apply_all ecosystem_of file now (pkg ∷ packages) t =
    apply_all ecosystem_of file now packages (apply_one ecosystem_of file now pkg t)

unfoldable pub apply_decisions :
    List ScannerPackageResult
    → (ScannerPackageResult → Option DecisionEcosystem)
    → DgFile
    → ScannerAction
    → ℕ
    → AppliedDecisions
unfolding action_from_severity
apply_decisions packages ecosystem_of file raw_action now =
    let t =
      apply_all ecosystem_of file now packages
        (record { annotations = []; acknowledged_count = 0; worst = 0 }) in
    record {
      file = file.path;
      acknowledged_count = t.acknowledged_count;
      effective_action =
          if t.acknowledged_count == 0 || leb (action_severity raw_action) t.worst
          then raw_action
          else action_from_severity t.worst;
      packages = t.annotations;
    }

-- ===== src/Decisions/Match.antt =====
-- `matchDecision` of src/decisions/apply.ts: whether an accepted decision answers a warning.
pub mod Acknowledged
use dg_cli.Common.{
  ℕ, ◌+◌, String, Bool, true, false, not, ◌&&◌, Option, none, some, List, [], ◌∷◌, ◌==◌, string_Eq,
  ltb, leb, length, if◌then◌else◌, get_or,
}
use dg_cli.Project.DgFile.{
  DecisionEcosystem, npm, pypi, DecisionScope, exact, any_version, Expiry, never, at, no_date,
  DecisionEntry,
}
use dg_cli.Decisions.Fingerprint.{ScannerFinding, Entries, finding_fingerprint, uncovered_findings}

pub data ScannerAction : Type 0 where
  block warn pass analysis_incomplete : ScannerAction

pub record ScannerPackageResult : Type 0 where
  pub name : String
  pub version : String
  pub action : Option ScannerAction
  pub findings : List ScannerFinding

pub data DecisionMatch : Type 0 where
  acknowledged : DecisionEntry → DecisionMatch
  unacknowledged : Option (List String) → DecisionMatch

abbrev pub same_ecosystem : DecisionEcosystem → DecisionEcosystem → Bool
same_ecosystem npm npm = true
same_ecosystem pypi pypi = true
same_ecosystem _ _ = false

abbrev pub scope_matches : DecisionScope → String → Bool
scope_matches any_version version = true
scope_matches (exact v) version = v == version

abbrev pub is_expired : Expiry → ℕ → Bool
is_expired never now = false
is_expired (at date time) now = leb time now
is_expired (no_date date) now = true

abbrev pub is_warn : ScannerAction → Bool
is_warn warn = true
is_warn _ = false

-- The guards of the loop's body.
abbrev pub applies : ScannerPackageResult → DecisionEcosystem → ℕ → DecisionEntry → Bool
applies pkg ecosystem now entry =
    same_ecosystem entry.ecosystem ecosystem
    && entry.name == pkg.name
    && scope_matches entry.scope pkg.version
    && not (is_expired entry.expires_at now)

pub nearer : Option (List String) → List String → Option (List String)
nearer none missing = some missing
nearer (some nearest) missing =
    if ltb (length missing) (length nearest) then some missing else some nearest

abbrev pub answer : List String → DecisionEntry → DecisionMatch → DecisionMatch
answer [] entry passed = acknowledged entry
answer (m ∷ ms) entry passed = passed

-- What an entry leaves uncovered decides: it answers, or counts as the nearest.
pub scan :
    (DecisionEntry → Bool) → Entries → List DecisionEntry → Option (List String) → DecisionMatch
unfolding nearer
scan guards fingerprint [] nearest = unacknowledged nearest
scan guards fingerprint (entry ∷ entries) nearest =
    let missing = uncovered_findings fingerprint entry.findings in
    let skipped = scan guards fingerprint entries nearest in
    let passed = scan guards fingerprint entries (nearer nearest missing) in
    if guards entry then answer missing entry passed else skipped

unfoldable pub match_decision :
    ScannerPackageResult → DecisionEcosystem → List DecisionEntry → ℕ → DecisionMatch
unfolding scan
match_decision pkg ecosystem entries now =
    if is_warn (get_or pkg.action pass)
    then scan (applies pkg ecosystem now) (finding_fingerprint pkg.findings) entries none
    else unacknowledged none

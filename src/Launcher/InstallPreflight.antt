-- ===== src/Launcher/InstallPreflight.antt =====
-- src/launcher/install-preflight.ts: before an installation the user is asked about the packages that
-- the scanner warns of. What is printed, and the offer to remember the answer, are not part of the
-- model; `approvals` is the map `approvedFlagRanks` of the session.
pub mod Approvals
pub mod Asked
pub mod Session
use dg_cli.Common.{
  ℕ, suc, String, Bool, true, false, not, ◌&&◌, ◌||◌, ltb, ◌==◌, string_Eq, if◌then◌else◌, Option,
  none, some, get_or, List, [], ◌∷◌, map, any, keep, template, trim, put, truthy,
}
use dg_cli.Config.{CooldownOnUnknown}
use dg_cli.Project.DgFile.{
  DecisionEcosystem, ExemptionEcosystem, CooldownExemption, DecisionEntry, DgFile,
}
use dg_cli.Decisions.Match.{
  ScannerAction, block, warn, pass, analysis_incomplete, ScannerPackageResult, DecisionMatch,
  acknowledged, unacknowledged, match_decision,
}
use dg_cli.Policy.Cooldown.{CooldownRequestParam, is_cooldown_exempt, is_cooldown_exempt_by_dg_file}
use dg_cli.Api.Response.Merge.{rank}

pub data CooldownStatus : Type 0 where
  ok quarantine unknown : CooldownStatus

-- A ScannerPackageResult with what is read of it here.
pub record VerdictPackage : Type 0 where
  pub result : ScannerPackageResult
  pub reasons : List String
  pub cooldown : Option CooldownStatus
  pub artifact_sha256 : Option String

pub record PreflightCooldownContext : Type 0 where
  pub param : CooldownRequestParam
  pub exempt : String
  pub ecosystem : ExemptionEcosystem

pub record PreflightDecisionContext : Type 0 where
  pub file : DgFile
  pub ecosystem : DecisionEcosystem

-- `proceed`, with or without the override
pub data InstallPreflight : Type 0 where
  proceed : InstallPreflight
  proceed_by_override : InstallPreflight
  stop : InstallPreflight

abbrev blocks_unknown : CooldownOnUnknown → Bool
blocks_unknown CooldownOnUnknown.block = true
blocks_unknown CooldownOnUnknown.allow = false

abbrev is_held : CooldownStatus → CooldownOnUnknown → Bool
is_held ok on_unknown = false
is_held quarantine on_unknown = true
is_held unknown on_unknown = blocks_unknown on_unknown

abbrev pub is_block : ScannerAction → Bool
is_block block = true
is_block _ = false

abbrev pub is_warn : ScannerAction → Bool
is_warn warn = true
is_warn _ = false

-- Map.get(key) ?? -1, one more than it
unfoldable pub level : List (String × ℕ) → String → ℕ
level [] key = 0
level ((k, r) ∷ approvals) key = let rest = level approvals key in if k == key then suc r else rest

-- A package with the action that is asked about.
pub record PreflightEntry : Type 0 where
  pub pkg : VerdictPackage
  pub action : ScannerAction
  pub via_cooldown : Bool

abbrev pub package_key : VerdictPackage → String
package_key pkg = template (pkg.result.name ∷ "@" ∷ pkg.result.version ∷ [])

-- recordPreflightApprovals, for one package
unfoldable pub record_approval : List (String × ℕ) → String → ScannerAction → List (String × ℕ)
record_approval approvals key action =
    if ltb (level approvals key) (suc (rank action))
    then put approvals key (rank action)
    else approvals

unfoldable pub record_preflight_approvals :
    List (String × ℕ) → List PreflightEntry → List (String × ℕ)
unfolding record_approval
record_preflight_approvals approvals [] = approvals
record_preflight_approvals approvals (entry ∷ entries) =
    record_preflight_approvals (record_approval approvals (package_key entry.pkg) entry.action)
      entries

unfoldable pub is_preflight_approved : List (String × ℕ) → PreflightEntry → Bool
unfolding level
is_preflight_approved approvals entry =
    ltb (rank entry.action) (level approvals (package_key entry.pkg))

abbrev is_acknowledged : DecisionMatch → Bool
is_acknowledged (acknowledged entry) = true
is_acknowledged (unacknowledged missing) = false

abbrev pub is_covered : Option PreflightDecisionContext → ℕ → PreflightEntry → Bool
is_covered none now entry = false
is_covered (some decisions) now entry =
    is_warn entry.action
    && is_acknowledged
        (match_decision entry.pkg.result decisions.ecosystem decisions.file.decisions now)

abbrev pub exemptions_of : Option PreflightDecisionContext → List CooldownExemption
exemptions_of none = []
exemptions_of (some decisions) = decisions.file.cooldown_exemptions

-- What the first tests of the filter leave.
abbrev pub is_open : List (String × ℕ) → PreflightEntry → Bool
is_open approvals entry =
    (is_warn entry.action || is_block entry.action) && not (is_preflight_approved approvals entry)

abbrev pub answered :
    List PreflightEntry → Bool → List (String × ℕ) → InstallPreflight × List (String × ℕ)
answered [] accepted approvals = (proceed, approvals)
answered (entry ∷ entries) accepted approvals = if not accepted then (stop, approvals) else (
  (if any (λ e. is_block e.action) (entry ∷ entries) then proceed_by_override else proceed),
  record_preflight_approvals approvals (entry ∷ entries),
)

module _ (lower : String → String) (now : ℕ) where
  abbrev is_exempt : VerdictPackage → PreflightCooldownContext → List CooldownExemption → Bool
  is_exempt pkg context exemptions =
      is_cooldown_exempt lower pkg.result.name context.exempt (some context.ecosystem)
      || is_cooldown_exempt_by_dg_file lower pkg.result.name context.ecosystem exemptions now

  abbrev quarantined_as :
      Option CooldownStatus
      → VerdictPackage
      → PreflightCooldownContext
      → List CooldownExemption
      → Bool
  quarantined_as none pkg context exemptions = false
  quarantined_as (some status) pkg context exemptions =
      not (is_exempt pkg context exemptions) && is_held status context.param.on_unknown

  unfoldable pub is_quarantined :
      VerdictPackage → Option PreflightCooldownContext → List CooldownExemption → Bool
  is_quarantined pkg none exemptions = false
  is_quarantined pkg (some context) exemptions = quarantined_as pkg.cooldown pkg context exemptions

  abbrev pub shown_action : VerdictPackage → ScannerAction
  shown_action pkg = get_or pkg.result.action pass

  unfoldable pub entry_of :
      Option PreflightCooldownContext
      → Option PreflightDecisionContext
      → VerdictPackage
      → PreflightEntry
  unfolding is_quarantined
  entry_of context decisions pkg =
      let via_cooldown =
        is_quarantined pkg context (exemptions_of decisions) && not (is_block (shown_action pkg)) in
      record {
        pkg = pkg;
        action = if via_cooldown then block else shown_action pkg;
        via_cooldown = via_cooldown;
      }

  -- The entries that are asked about, and those that an earlier decision covers.
  unfoldable pub asked_entries :
      List (String × ℕ)
      → Option PreflightCooldownContext
      → Option PreflightDecisionContext
      → List VerdictPackage
      → List PreflightEntry
  unfolding entry_of is_preflight_approved
  asked_entries approvals context decisions packages =
      keep (λ e. is_open approvals e && not (is_covered decisions now e))
        (map (entry_of context decisions) packages)

  unfoldable pub covered_entries :
      List (String × ℕ)
      → Option PreflightCooldownContext
      → Option PreflightDecisionContext
      → List VerdictPackage
      → List PreflightEntry
  unfolding entry_of is_preflight_approved
  covered_entries approvals context decisions packages =
      keep (λ e. is_open approvals e && is_covered decisions now e)
        (map (entry_of context decisions) packages)

  -- decideFromVerdicts: the answer, and the approvals of the session then. `is_tty` says whether there
  -- is somebody to ask, and `accepted` what the answer is.
  unfoldable pub decide_from_verdicts :
      List VerdictPackage
      → Bool
      → Bool
      → Option PreflightCooldownContext
      → Option PreflightDecisionContext
      → List (String × ℕ)
      → InstallPreflight × List (String × ℕ)
  unfolding asked_entries covered_entries record_preflight_approvals
  decide_from_verdicts packages is_tty accepted context decisions approvals =
      if not is_tty
      then (proceed, approvals)
      else answered (asked_entries approvals context decisions packages) accepted (
          record_preflight_approvals approvals
            (covered_entries approvals context decisions packages))

  -- promptPreflightYesNo, with somebody to ask
  unfoldable pub is_yes : String → Bool → Bool
  unfolding trim
  is_yes answer default_yes =
      let normalized = lower (trim answer) in
      if normalized == "" then default_yes else normalized == "y" || normalized == "yes"

-- `action` is pass or warn.
pub record PreverifiedEntry : Type 0 where
  pub name : String
  pub version : String
  pub action : ScannerAction
  pub reason : Option String
  pub scanned_sha256 : Option String
  pub cooldown_evaluated : Bool

abbrev pub is_some : {A : Type 0} → Option A → Bool
is_some none = false
is_some (some a) = true

abbrev first_reason : List String → Option String
first_reason [] = none
first_reason (reason ∷ reasons) = if reason == "" then none else some reason

abbrev filled : Option String → Option String
filled none = none
filled (some s) = if s == "" then none else some s

abbrev preverified_as : ScannerAction → Bool → VerdictPackage → PreverifiedEntry
preverified_as action cooldown_requested pkg = record {
  name = pkg.result.name;
  version = pkg.result.version;
  action = action;
  reason = first_reason pkg.reasons;
  scanned_sha256 = filled pkg.artifact_sha256;
  cooldown_evaluated = cooldown_requested && is_some pkg.cooldown;
}

abbrev preverified_by :
    Option ScannerAction → Bool → VerdictPackage → List PreverifiedEntry → List PreverifiedEntry
preverified_by (some pass) requested pkg rest = preverified_as pass requested pkg ∷ rest
preverified_by (some warn) requested pkg rest = preverified_as warn requested pkg ∷ rest
preverified_by _ requested pkg rest = rest

unfoldable pub preverified_entries : List VerdictPackage → Bool → List PreverifiedEntry
preverified_entries [] requested = []
preverified_entries (pkg ∷ packages) requested =
    preverified_by pkg.result.action requested pkg (preverified_entries packages requested)

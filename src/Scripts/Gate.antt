-- ===== src/Scripts/Gate.antt =====
-- src/scripts/gate.ts: approvals of install scripts, each bound to the hash of the scripts. `Flags`
-- has what the package manager is started with, `Install` what follows an installation.
pub mod Flags
pub mod Install
pub mod Approvals
pub mod Observed
use dg_cli.Common.{
  String, Bool, true, false, not, ◌&&◌, ◌||◌, Option, none, some, List, [], ◌∷◌, ◌++◌, ◌==◌,
  string_Eq, truthy, Value, absent, present, of_prototype, value, put, if◌then◌else◌, get_or,
}
use dg_cli.Project.DgFile.{
  ScriptHook, preinstall, install, postinstall, gyp, ScriptDecision, allow, deny,
  ScriptApprovalProvenance, prompt, ScriptApprovalEntry, ObservedScriptEntry, ScriptApprovals,
  DgFile,
}

pub record ScriptWanter : Type 0 where
  pub name : String
  pub version : String
  pub hooks : List ScriptHook
  pub scripts_hash : String

-- A wanter whose scripts are not the approved ones, with the approved hash.
pub record Drift : Type 0 where
  pub wanter : ScriptWanter
  pub prior_hash : Option String

pub record ScriptGateEvaluation : Type 0 where
  pub approved : List ScriptWanter
  pub denied : List ScriptWanter
  pub pending : List ScriptWanter
  pub drifted : List Drift

-- An approved hash is missing where the entry is a value of Object.prototype.
pub sort_wanter :
    ScriptWanter → Value ScriptApprovalEntry → ScriptGateEvaluation → ScriptGateEvaluation
sort_wanter wanter absent e = record e { pending = e.pending ++ wanter ∷ [] }
sort_wanter wanter of_prototype e = record e {
  drifted = e.drifted ++ record { wanter = wanter; prior_hash = none } ∷ [];
}
sort_wanter wanter (present entry) e =
    if not (entry.scripts_hash == wanter.scripts_hash)
    then record e {
      drifted = e.drifted ++ record { wanter = wanter; prior_hash = some entry.scripts_hash } ∷ [];
    }
    else elim entry.decision [
      | allow ↦ record e { approved = e.approved ++ wanter ∷ [] }
      | deny ↦ record e { denied = e.denied ++ wanter ∷ [] }
    ]

pub evaluate_from :
    List (String × ScriptApprovalEntry)
    → List ScriptWanter
    → ScriptGateEvaluation
    → ScriptGateEvaluation
unfolding sort_wanter
evaluate_from approvals [] e = e
evaluate_from approvals (wanter ∷ wanters) e =
    evaluate_from approvals wanters (sort_wanter wanter (value approvals wanter.name) e)

unfoldable pub evaluate_script_gate :
    List ScriptWanter → List (String × ScriptApprovalEntry) → ScriptGateEvaluation
unfolding evaluate_from value
evaluate_script_gate wanters approvals =
    evaluate_from approvals wanters
      (record { approved = []; denied = []; pending = []; drifted = [] })

pub record ScriptDecisionInput : Type 0 where
  pub wanter : ScriptWanter
  pub decision : ScriptDecision
  pub reason : Option String
  pub provenance : Option ScriptApprovalProvenance

-- A text that is empty or absent is left out.
abbrev if_truthy : Option String → Option String
if_truthy s = if truthy s then s else none

pub approval_of : ScriptDecisionInput → String → ScriptApprovalEntry
approval_of input now = record {
  decision = input.decision;
  scripts_hash = input.wanter.scripts_hash;
  hooks = input.wanter.hooks;
  approved_version = if_truthy (some input.wanter.version);
  reason = if_truthy input.reason;
  approved_at = now;
  provenance = get_or input.provenance prompt;
}

pub approve_all :
    List ScriptDecisionInput
    → String
    → List (String × ScriptApprovalEntry)
    → List (String × ScriptApprovalEntry)
unfolding approval_of put
approve_all [] now npm = npm
approve_all (input ∷ inputs) now npm =
    approve_all inputs now (put npm input.wanter.name (approval_of input now))

-- `now` is the text of the current date.
unfoldable pub apply_script_decisions : DgFile → List ScriptDecisionInput → String → DgFile
unfolding approve_all
apply_script_decisions file [] now = file
apply_script_decisions file (input ∷ inputs) now = record file {
  script_approvals = record (file.script_approvals) {
    npm = approve_all (input ∷ inputs) now file.script_approvals.npm;
  };
}

abbrev pub same_hook : ScriptHook → ScriptHook → Bool
same_hook preinstall preinstall = true
same_hook install install = true
same_hook postinstall postinstall = true
same_hook gyp gyp = true
same_hook _ _ = false

pub same_hooks : List ScriptHook → List ScriptHook → Bool
same_hooks [] [] = true
same_hooks (a ∷ hooks) (b ∷ others) = same_hook a b && same_hooks hooks others
same_hooks _ _ = false

abbrev pub unchanged : ScriptWanter → Value ObservedScriptEntry → Bool
unchanged wanter (present existing) =
    existing.version == wanter.version
    && existing.scripts_hash == wanter.scripts_hash
    && same_hooks existing.hooks wanter.hooks
unchanged wanter _ = false

-- `existing ? existing.firstSeen : now`
abbrev pub first_seen_of : Value ObservedScriptEntry → String → Option String
first_seen_of absent now = some now
first_seen_of (present existing) now = existing.first_seen
first_seen_of of_prototype now = none

pub observation : ScriptWanter → Value ObservedScriptEntry → String → ObservedScriptEntry
observation wanter existing now = record {
  version = wanter.version;
  hooks = wanter.hooks;
  scripts_hash = wanter.scripts_hash;
  first_seen = first_seen_of existing now;
}

-- The loop's two variables: whether something changed, and the observed scripts.
pub observe_all :
    List ScriptWanter
    → String
    → Bool × List (String × ObservedScriptEntry)
    → Bool × List (String × ObservedScriptEntry)
unfolding same_hooks observation put value
observe_all [] now (changed, observed) = (changed, observed)
observe_all (wanter ∷ wanters) now (changed, observed) =
    let existing = value observed wanter.name in
    let kept = observe_all wanters now (changed, observed) in
    let moved =
      observe_all wanters now (true, put observed wanter.name (observation wanter existing now)) in
    if unchanged wanter existing then kept else moved

-- The file that `saveDgFile` is called with, if it is; the path is `file.path` either way.
unfoldable pub record_script_observations :
    DgFile → List ScriptWanter → Bool → String → Option DgFile
unfolding observe_all
record_script_observations file [] create_if_missing now = none
record_script_observations file (wanter ∷ wanters) create_if_missing now =
    let (changed, observed) =
      observe_all (wanter ∷ wanters) now (false, file.script_approvals.observed) in
    if not file.readable || (not file.exists && not create_if_missing)
    then none
    else if not changed
    then none
    else some
        (record file { script_approvals = record (file.script_approvals) { observed = observed } })

-- ===== src/Scripts/Gate/Install.antt =====
-- What follows an installation in src/scripts/gate.ts. The colouring of the report is a parameter.
pub mod Writes
use dg_cli.Common.{
  ℕ, ◌-◌, String, Bool, true, false, not, ◌&&◌, ◌||◌, Option, none, some, List, [], ◌∷◌, ◌==◌,
  string_Eq, nat_Eq, leb, length, take, map, has, get_or, template, show_nat, if◌then◌else◌,
}
use dg_cli.Common.Result.{Result, ok, err}
use dg_cli.Config.{DgUserConfig, ScriptGateMode, observe, enforce, off}
use dg_cli.Launcher.Classify.{
  PackageManagerClassification, ClassificationKind, protected, Ecosystem, javascript,
}
use dg_cli.Project.DgFile.{DgFile}
use dg_cli.Scripts.Gate.{ScriptWanter, record_script_observations}

abbrev reported_name_limit : ℕ
reported_name_limit = 6

-- names.join(", ")
join : List String → String
join [] = ""
join (name ∷ []) = name
join (name ∷ next ∷ names) = template (name ∷ ", " ∷ join (next ∷ names) ∷ [])

format_names : List String → String
unfolding join
format_names names =
    if leb (length names) reported_name_limit
    then join names
    else template (
        join (take reported_name_limit names)
        ∷ ", +"
        ∷ show_nat (length names - reported_name_limit)
        ∷ " more"
        ∷ [])

wanter_label : ScriptWanter → String
wanter_label wanter =
    if wanter.version == "" then wanter.name else template (wanter.name ∷ "@" ∷ wanter.version ∷ [])

unfoldable pub report_line_pnpm : (String → String) → List String → String
unfolding format_names
report_line_pnpm paint [] = ""
report_line_pnpm paint (name ∷ names) = template (
    "\n  "
    ∷ paint (
        template (
          "dg scripts: pnpm natively blocked install scripts for "
          ∷ format_names (name ∷ names)
          ∷ " — review with 'pnpm approve-builds'"
          ∷ []))
    ∷ "\n"
    ∷ [])

unfoldable pub report_line : (String → String) → List ScriptWanter → String
unfolding format_names wanter_label
report_line paint [] = ""
report_line paint (wanter ∷ wanters) =
    let names = map wanter_label (wanter ∷ wanters) in
    let noun = if length names == 1 then "package ran" else "packages ran" in
    template (
      "\n  "
      ∷ paint (
          template (
            "dg scripts: "
            ∷ show_nat (length names)
            ∷ " "
            ∷ noun
            ∷ " install scripts ("
            ∷ format_names names
            ∷ ") — observed, not blocked · silence: dg config set scriptGate.mode off"
            ∷ []))
      ∷ "\n"
      ∷ [])

unfoldable pub mutating_actions : String → List String
mutating_actions manager =
    if manager == "npm"
    then "install" ∷ "i" ∷ "ci" ∷ "add" ∷ "update" ∷ "dedupe" ∷ []
    else if manager == "yarn"
    then "add" ∷ "install" ∷ "upgrade" ∷ []
    else if manager == "pnpm"
    then "install" ∷ "i" ∷ "add" ∷ "update" ∷ []
    else []

-- What the functions that are called return or throw, the project's dg.json, whether saving it
-- succeeds, and the text of the current date.
pub record Installed : Type 0 where
  pub classification : PackageManagerClassification
  pub config : Result String DgUserConfig
  pub wanters : Result String (List ScriptWanter)
  pub ignored_builds : Result String (List String)
  pub file : DgFile
  pub save : Result String Unit
  pub now : String

abbrev pub is_protected : ClassificationKind → Bool
is_protected protected = true
is_protected _ = false

abbrev pub is_javascript : Ecosystem → Bool
is_javascript javascript = true
is_javascript _ = false

abbrev pub is_off : ScriptGateMode → Bool
is_off off = true
is_off _ = false

abbrev pub gates : PackageManagerClassification → Bool
gates classification =
    is_protected classification.kind
    && is_javascript classification.ecosystem
    && has (mutating_actions classification.manager) classification.action

-- A failed save ends in the catch: nothing is written and nothing reported.
pub report_saved : Result String Unit → Option DgFile → String → String × Option DgFile
report_saved (err thrown) (some file) line = ("", none)
report_saved save saved line = (line, saved)

pub report_detected :
    (String → String)
    → Installed
    → DgUserConfig
    → Result String (List ScriptWanter)
    → String × Option DgFile
unfolding report_line report_saved
report_detected paint i config (err thrown) = ("", none)
report_detected paint i config (ok wanters) =
    report_saved i.save (record_script_observations i.file wanters config.script_gate.observe i.now)
      (report_line paint wanters)

pub report_wanters : (String → String) → Installed → DgUserConfig → String × Option DgFile
unfolding report_detected
report_wanters paint i config = report_detected paint i config i.wanters

pub report_ignored : (String → String) → Result String (List String) → String × Option DgFile
unfolding report_line_pnpm
report_ignored paint (err thrown) = ("", none)
report_ignored paint (ok names) = (report_line_pnpm paint names, none)

pub report_configured :
    (String → String) → Installed → Result String DgUserConfig → String × Option DgFile
unfolding report_wanters report_ignored
report_configured paint i (err thrown) = ("", none)
report_configured paint i (ok config) =
    if is_off config.script_gate.mode
    then ("", none)
    else if i.classification.manager == "pnpm"
    then report_ignored paint i.ignored_builds
    else report_wanters paint i config

-- The text that is reported, and the dg.json that is written.
unfoldable pub run_script_gate_after_install :
    (String → String) → Installed → String × Option DgFile
unfolding report_configured mutating_actions
run_script_gate_after_install paint i =
    if not (gates i.classification) then ("", none) else report_configured paint i i.config

-- ===== src/Scripts/Gate/Install/Writes.antt =====
-- When an installation writes to dg.json, and what it changes there: src/scripts/gate.ts.
use dg_cli.Common.{
  ◌≡◌, String, Bool, true, false, not, ◌&&◌, ◌||◌, Option, none, some, get_or, List, [], ◌∷◌, ◌==◌,
  string_Eq, any, keep, has,
}
use dg_cli.Common.Result.{Result, ok, err}
use dg_cli.Config.{DgUserConfig}
use dg_cli.Project.DgFile.{ObservedScriptEntry, DgFile}
use dg_cli.Scripts.Gate.{ScriptWanter}
use dg_cli.Scripts.Gate.Install.{Installed, is_protected, is_javascript, is_off}
use dg_cli.Scripts.Gate.Observed.{settled}

abbrev Records : Type 0
Records = List (String × ObservedScriptEntry)

-- The commands whose packages are observed, by the manager.
abbrev pub is_observed_command : String → String → Bool
is_observed_command manager action =
    (manager == "npm" && has ("install" ∷ "i" ∷ "ci" ∷ "add" ∷ "update" ∷ "dedupe" ∷ []) action)
    || (manager == "yarn" && has ("add" ∷ "install" ∷ "upgrade" ∷ []) action)

abbrev pub is_ok : Result String Unit → Bool
is_ok (ok done) = true
is_ok (err thrown) = false

-- Whether a wanter's scripts are not what is recorded, and the file may be written.
abbrev news : DgFile → DgUserConfig → List ScriptWanter → Bool
news file config wanters =
    not (settled wanters file.script_approvals.observed)
    && file.readable
    && (file.exists || config.script_gate.observe)

abbrev news_of : DgFile → Result String DgUserConfig → Result String (List ScriptWanter) → Bool
news_of file (ok config) (ok wanters) =
    not (is_off config.script_gate.mode) && news file config wanters
news_of file _ _ = false

-- Whether an installation writes to dg.json.
abbrev pub writes : Installed → Bool
writes i =
    is_protected i.classification.kind
    && is_javascript i.classification.ecosystem
    && is_observed_command i.classification.manager i.classification.action
    && news_of i.file i.config i.wanters
    && is_ok i.save

abbrev pub is_written : Option DgFile → Bool
is_written none = false
is_written (some file) = true

-- The records of the packages that no wanter names.
abbrev pub other_records : Result String (List ScriptWanter) → Records → Records
other_records (err thrown) observed = observed
other_records (ok wanters) observed =
    keep (λ (name, entry). not (any (λ w. w.name == name) wanters)) observed

-- All of a file but the observed scripts.
abbrev pub unobserved : DgFile → DgFile
unobserved file = record file {
  script_approvals = record (file.script_approvals) { observed = [] };
}

abbrev with_records : DgFile → Records → DgFile
with_records file observed = record file {
  script_approvals = record (file.script_approvals) { observed = observed };
}

-- What holds of an installation that writes a file or none.
record Good (i : Installed) (o : Option DgFile) (b : Bool) : Type 0 where
  saved : is_written o ≡ b
  framed : unobserved (get_or o i.file) ≡ unobserved i.file
  kept :
      other_records i.wanters ((get_or o i.file).script_approvals.observed)
      ≡ other_records i.wanters i.file.script_approvals.observed

abbrev is_pnpm : Installed → Bool
is_pnpm i = i.classification.manager == "pnpm"

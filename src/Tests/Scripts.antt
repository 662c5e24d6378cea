-- ===== src/Tests/Scripts.antt =====
-- src/scripts/gate.ts on a concrete project.
use dg_cli.Common.{
  ◌≡◌, true, false, String, none, some, List, [], ◌∷◌, ◌++◌, map, string_Eq, if◌then◌else◌,
}
use dg_cli.Common.Result.{ok}
use dg_cli.Config.{default_config}
use dg_cli.Launcher.Classify.{javascript, protected}
use dg_cli.Common.Json.{end}
use dg_cli.Project.DgFile.{DgFile, ScriptApprovalEntry, allow, deny, postinstall, prompt}
use dg_cli.Scripts.Gate.{
  ScriptWanter, evaluate_script_gate, ScriptDecisionInput, apply_script_decisions,
}
use dg_cli.Scripts.Gate.Approvals.{
  approves, is_allow, is_unknown, has_drifted, such, wanter_of, evaluate_script_gate-sorts,
  apply-evaluate,
}
use dg_cli.Scripts.Gate.Install.{Installed}

abbrev esbuild : ScriptWanter
esbuild = record {
  name = "esbuild";
  version = "0.21.0";
  hooks = postinstall ∷ [];
  scripts_hash = "sha256:1";
}

abbrev approvals : List (String × ScriptApprovalEntry)
approvals =
    (
      "esbuild",
      record {
        decision = allow;
        scripts_hash = "sha256:0";
        hooks = postinstall ∷ [];
        approved_version = none;
        reason = none;
        approved_at = "2026-01-01";
        provenance = prompt;
      },
    )
    ∷ []

evaluate_script_gate-sorts_example :
    ((evaluate_script_gate (esbuild ∷ []) approvals).approved
      ≡ such (approves true) approvals (esbuild ∷ []))
    × ((evaluate_script_gate (esbuild ∷ []) approvals).denied
        ≡ such (approves false) approvals (esbuild ∷ []))
    × ((evaluate_script_gate (esbuild ∷ []) approvals).pending
        ≡ such (λ _ v. is_unknown v) approvals (esbuild ∷ []))
    × (map wanter_of (evaluate_script_gate (esbuild ∷ []) approvals).drifted
        ≡ such has_drifted approvals (esbuild ∷ []))
evaluate_script_gate-sorts_example = evaluate_script_gate-sorts (esbuild ∷ []) approvals

abbrev file : DgFile
file = record {
  path = "dg.json";
  exists = true;
  readable = true;
  failure = none;
  raw = end;
  decisions = [];
  cooldown_exemptions = [];
  script_approvals = record { npm = approvals; observed = []; unknown_keys = end };
}

abbrev decision : ScriptDecisionInput
decision = record { wanter = esbuild; decision = deny; reason = none; provenance = none }

abbrev decided : DgFile
decided = apply_script_decisions file ([] ++ decision ∷ []) "2026-02-02"

apply-evaluate_example :
    ((evaluate_script_gate (esbuild ∷ []) decided.script_approvals.npm).approved
      ≡ (if is_allow deny then esbuild ∷ [] else []))
    × ((evaluate_script_gate (esbuild ∷ []) decided.script_approvals.npm).denied
        ≡ (if is_allow deny then [] else esbuild ∷ []))
apply-evaluate_example = apply-evaluate file [] decision "2026-02-02"

abbrev observed : DgFile
observed = record file {
  script_approvals = record (file.script_approvals) {
    observed =
        (
          "esbuild",
          record {
            version = "0.21.0";
            hooks = postinstall ∷ [];
            scripts_hash = "sha256:1";
            first_seen = some "2026-02-02";
          },
        )
        ∷ [];
  };
}

abbrev args : List String
args = "install" ∷ []

abbrev installed : Installed
installed = record {
  classification = record {
    manager = "npm";
    ecosystem = javascript;
    kind = protected;
    action = "install";
    reason = "npm install/fetch command";
    real_binary_name = "npm";
    args = args;
  };
  config = ok default_config;
  wanters = ok (esbuild ∷ []);
  ignored_builds = ok [];
  file = file;
  save = ok tt;
  now = "2026-02-02";
}

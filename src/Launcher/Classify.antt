-- ===== src/Launcher/Classify.antt =====
-- src/launcher/classify.ts: which invocations of a package manager fetch packages.
-- `Name` is `normalizeManagerName`, `Verbs` the tables and the search for the subcommand; the
-- proofs are in `Protection` and `Total`.
pub mod Protection
pub mod Total
mod Verbs
mod Name
pub use Verbs.*
unfoldable pub use Verbs.{
  read_only_verbs, find_action, find_action_from, first_command, init_fetches_package,
  uv_run_fetches_package,
}
unfoldable pub use Name.{normalize_manager_name}
use dg_cli.Common.{
  String, Bool, true, false, not, ◌&&◌, ◌||◌, List, [], ◌∷◌, ◌++◌, ◌==◌, string_Eq, has, any,
  template, if◌then◌else◌, get_elem_or,
}
use dg_cli.Common.Result.{Result, ok, err, ◌>>=◌}
use dg_cli.Setup.OptionalSupport.{
  OptionalSupportGate, optional_support_gate, optional_package_manager_names,
}

pub data Ecosystem : Type 0 where
  javascript python rust gated : Ecosystem

pub data ClassificationKind : Type 0 where
  protected passthrough unsupported : ClassificationKind

-- Managers are texts: `pip3.12` reaches the classifier under the source's type too.
pub record PackageManagerClassification : Type 0 where
  pub manager : String
  pub ecosystem : Ecosystem
  pub kind : ClassificationKind
  pub action : String
  pub reason : String
  pub real_binary_name : String
  pub args : List String

abbrev pub supported_managers : List String
supported_managers =
    "npm" ∷ "npx" ∷ "pnpm" ∷ "pnpx" ∷ "yarn" ∷ "pip" ∷ "pipx" ∷ "uv" ∷ "uvx" ∷ "cargo" ∷ []

unfoldable pub package_manager_names : List String
unfolding optional_package_manager_names
package_manager_names = supported_managers ++ optional_package_manager_names

unfoldable pub is_supported_package_manager : String → Bool
is_supported_package_manager manager = has supported_managers manager

pub classify_by_command :
    String → List String → String → List String → String → Ecosystem → PackageManagerClassification
classify_by_command manager args real_binary_name protected_commands protected_reason ecosystem =
    let action = find_action args protected_commands in
    if has protected_commands action || init_fetches_package action args protected_commands
    then record {
      manager = manager;
      ecosystem = ecosystem;
      kind = protected;
      action = action;
      reason = protected_reason;
      real_binary_name = real_binary_name;
      args = args;
    }
    else record {
      manager = manager;
      ecosystem = ecosystem;
      kind = passthrough;
      action = action;
      reason =
          if has passthrough_commands action
          then "read-only or local package-manager command"
          else "not classified as an install/fetch command";
      real_binary_name = real_binary_name;
      args = args;
    }

pub protected_classification : String → List String → String → String → PackageManagerClassification
unfolding first_command
protected_classification manager args real_binary_name reason = record {
  manager = manager;
  ecosystem =
      if manager == "cargo"
      then rust
      else if manager == "pip" || manager == "pipx" || manager == "uv" || manager == "uvx"
      then python
      else javascript;
  kind = protected;
  action = first_command args;
  reason = reason;
  real_binary_name = real_binary_name;
  args = args;
}

-- `optionalSupportGate` throws on a name that it does not list.
pub unsupported_classification : String → List String → Result String PackageManagerClassification
unfolding first_command optional_support_gate
unsupported_classification manager args = do
  gate ← optional_support_gate manager
  ok (record {
    manager = manager;
    ecosystem = gated;
    kind = unsupported;
    action = first_command args;
    reason = gate.message;
    real_binary_name = manager;
    args = args;
  })

pub classify_uv : List String → PackageManagerClassification
unfolding first_command uv_run_fetches_package
classify_uv args =
    let action = first_command args in
    let second = get_elem_or args 1 "" in
    if action == "pip" && has pip_protected second
    then protected_classification "uv" args "uv" "uv pip install/fetch command"
    else if action == "tool" && has ("run" ∷ "install" ∷ "upgrade" ∷ []) second
    then protected_classification "uv" args "uv"
        "uv tool run/install/upgrade fetches package artifacts"
    else if action == "run" && uv_run_fetches_package args
    then protected_classification "uv" args "uv" "uv run --with fetches and runs a package"
    else if has uv_protected action
    then protected_classification "uv" args "uv" "uv install/fetch command"
    else record {
      manager = "uv";
      ecosystem = python;
      kind = passthrough;
      action = action;
      reason =
          if has passthrough_commands action
          then "read-only or local uv command"
          else "not classified as an install/fetch command";
      real_binary_name = "uv";
      args = args;
    }

read_only_flag : List String → Bool
read_only_flag = any (λ a. a == "--version" || a == "-v" || a == "--help" || a == "-h")

-- What follows the test for a supported manager.
pub classify_supported : String → List String → PackageManagerClassification
unfolding read_only_flag first_command
classify_supported manager args =
    if manager == "npx" || manager == "pnpx" || manager == "uvx"
    then protected_classification manager args manager
        (template (manager ∷ " fetches and runs package artifacts" ∷ []))
    else if manager == "npm"
    then classify_by_command manager args "npm" js_protected "npm install/fetch command" javascript
    else if manager == "pnpm"
    then classify_by_command manager args "pnpm" pnpm_protected "pnpm install/fetch command"
        javascript
    else if manager == "yarn"
    then (if first_command args == "" && not (read_only_flag args)
        then protected_classification "yarn" args "yarn"
            "bare yarn installs all lockfile dependencies"
        else classify_by_command manager args "yarn" yarn_protected
            "Yarn classic install/fetch command" javascript)
    else if manager == "pip"
    then classify_by_command manager args "pip" pip_protected "pip install/fetch command" python
    else if manager == "pipx"
    then classify_by_command manager args "pipx" pipx_protected "pipx install/fetch command" python
    else if manager == "uv"
    then classify_uv args
    else classify_by_command manager args "cargo" cargo_protected "Cargo command can fetch crates"
        rust

unfoldable pub classify_package_manager_invocation :
    String → List String → Result String PackageManagerClassification
unfolding normalize_manager_name is_supported_package_manager classify_supported
    unsupported_classification classify_by_command protected_classification classify_uv find_action
    init_fetches_package
classify_package_manager_invocation raw_manager args =
    let manager = normalize_manager_name raw_manager in
    if not (is_supported_package_manager manager)
    then unsupported_classification manager args
    else ok (classify_supported manager args)

-- ===== src/Setup/OptionalSupport.antt =====
-- src/setup/optional-support.ts: the features that this release gates, and the package managers
-- among them.
use dg_cli.Common.{
  String, Bool, true, false, ◌&&◌, Option, none, some, List, [], ◌∷◌, map, ◌==◌, string_Eq, find,
  keep, template,
}
use dg_cli.Common.Result.{Result, ok, err}

pub data OptionalSupportKind : Type 0 where
  platform hook package_manager : OptionalSupportKind

-- `status` is always "unclaimed" and is left out.
pub record OptionalSupportGate : Type 0 where
  pub id : String
  pub label : String
  pub kind : OptionalSupportKind
  pub message : String
  pub standalone_command : Option Bool

abbrev pub optional_support_gates : List OptionalSupportGate
optional_support_gates =
    record {
      id = "windows";
      label = "Windows support";
      kind = platform;
      message =
          "Windows support is gated in this release; use dg prefix mode from a supported POSIX shell or run 'dg --help' for supported commands";
      standalone_command = none;
    }
    ∷ record {
      id = "python-hook";
      label = "Python .pth hook";
      kind = hook;
      message =
          "Python .pth hook support is gated in this release; use 'dg pip ...', 'dg pipx ...', 'dg uv ...', or 'dg uvx ...' prefix mode instead";
      standalone_command = none;
    }
    ∷ record {
      id = "bun";
      label = "Bun and bunx";
      kind = package_manager;
      message =
          "Bun support is gated in this release; use 'dg npm ...', 'dg pnpm ...', or 'dg yarn ...' for supported JavaScript installs";
      standalone_command = some true;
    }
    ∷ record {
      id = "yarn-berry";
      label = "Yarn Berry";
      kind = package_manager;
      message =
          "Yarn Berry support is gated in this release; use Yarn classic through 'dg yarn ...' or another supported prefix manager";
      standalone_command = some false;
    }
    ∷ record {
      id = "conda";
      label = "Conda";
      kind = package_manager;
      message =
          "Conda support is gated in this release; use 'dg pip ...' or 'dg uv ...' for supported Python package installs";
      standalone_command = some true;
    }
    ∷ record {
      id = "mamba";
      label = "Mamba";
      kind = package_manager;
      message =
          "Mamba support is gated in this release; use 'dg pip ...' or 'dg uv ...' for supported Python package installs";
      standalone_command = some true;
    }
    ∷ []

unfoldable pub optional_support_gate : String → Result String OptionalSupportGate
optional_support_gate id = elim (find (λ gate. gate.id == id) optional_support_gates) [
  | some gate ↦ ok gate
  | none ↦ err (template ("unknown optional support gate: " ∷ id ∷ []))
]

abbrev is_standalone_manager : OptionalSupportGate → Bool
is_standalone_manager gate = is_manager gate.kind && is_true gate.standalone_command
  where
    is_manager : OptionalSupportKind → Bool
    is_manager package_manager = true
    is_manager _ = false

    is_true : Option Bool → Bool
    is_true (some true) = true
    is_true _ = false

unfoldable pub optional_package_manager_names : List String
optional_package_manager_names =
    map (λ (gate : OptionalSupportGate). gate.id)
      (keep is_standalone_manager optional_support_gates)

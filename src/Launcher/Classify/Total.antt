-- ===== src/Launcher/Classify/Total.antt =====
-- Every package manager that `packageManagerNames` of src/launcher/classify.ts lists is classified.
use dg_cli.Common.{
  String, ◌≡◌, ◌≢◌, refl, not, if◌then◌else◌, Bool, true, false, List, arith, All, All-append,
}
use dg_cli.Common.Result.{ok}
use dg_cli.Setup.OptionalSupport.{optional_package_manager_names}
use dg_cli.Launcher.Classify.{
  PackageManagerClassification, Ecosystem, passthrough, unsupported, supported_managers,
  package_manager_names, is_supported_package_manager, classify_by_command,
  protected_classification, classify_uv, classify_supported, classify_package_manager_invocation,
}

-- The arguments are handed on, and no branch for a supported manager is unsupported.
record Keeps (args : List String) (c : PackageManagerClassification) : Type 0 where
  args_kept : c.args ≡ args
  is_supported : c.kind ≢ unsupported

classify_by_command-Keeps :
    (m : String) (args : List String) (b : String) (cmds : List String) (r : String) (e : Ecosystem)
    → Keeps args (classify_by_command m args b cmds r e)
unfolding classify_by_command
classify_by_command-Keeps m args b cmds r e = ground arith

protected_classification-Keeps :
    (m : String) (args : List String) (b r : String)
    → Keeps args (protected_classification m args b r)
unfolding protected_classification
protected_classification-Keeps m args b r = ground arith

if-Keeps :
    (b : Bool) (args : List String) (c d : PackageManagerClassification)
    → Keeps args c
    → Keeps args d
    → Keeps args (if b then c else d)
if-Keeps true args c d h k = h
if-Keeps false args c d h k = k

passthrough-Keeps :
    (m : String) (args : List String) (e : Ecosystem) (a r b : String)
    → Keeps args (record {
      manager = m;
      ecosystem = e;
      kind = passthrough;
      action = a;
      reason = r;
      real_binary_name = b;
      args = args;
    })
passthrough-Keeps m args e a r b = ground arith

classify_uv-Keeps : (args : List String) → Keeps args (classify_uv args)
unfolding classify_uv
classify_uv-Keeps args =
    search (if-Keeps, protected_classification-Keeps, passthrough-Keeps) depth 10

classify_supported_lem : (m : String) (args : List String) → Keeps args (classify_supported m args)
unfolding classify_supported
classify_supported_lem m args =
    search (if-Keeps, classify_by_command-Keeps, protected_classification-Keeps, classify_uv-Keeps)
      depth 10

-- A classification of `args` in which only a gated manager is unsupported.
abbrev pub Classifies : Bool → String → List String → Type 0
Classifies gated m args =
    (c : PackageManagerClassification) × (classify_package_manager_invocation m args ≡ ok c)
    × (c.args ≡ args)
    × (gated ≡ true → c.kind ≡ unsupported)
    × (gated ≡ false → c.kind ≢ unsupported)

classify-supported :
    (m : String) (args : List String)
    → classify_package_manager_invocation m args ≡ ok (classify_supported m args)
    → Classifies false m args
classify-supported m args h = (
  classify_supported m args,
  h,
  (classify_supported_lem m args).args_kept,
  (λ e. cc),
  (λ _. (classify_supported_lem m args).is_supported),
)

supported : (args : List String) → All (λ m. Classifies false m args) supported_managers
unfolding classify_package_manager_invocation
supported args = (
  classify-supported "npm" args refl,
  (
    classify-supported "npx" args refl,
    (
      classify-supported "pnpm" args refl,
      (
        classify-supported "pnpx" args refl,
        (
          classify-supported "yarn" args refl,
          (
            classify-supported "pip" args refl,
            (
              classify-supported "pipx" args refl,
              (
                classify-supported "uv" args refl,
                (classify-supported "uvx" args refl, (classify-supported "cargo" args refl, tt)),
              ),
            ),
          ),
        ),
      ),
    ),
  ),
)

gated : (args : List String) → All (λ m. Classifies true m args) optional_package_manager_names
unfolding classify_package_manager_invocation optional_package_manager_names
gated args = (
  (_, refl, refl, (λ _. refl), (λ e. cc)),
  ((_, refl, refl, (λ _. refl), (λ e. cc)), ((_, refl, refl, (λ _. refl), (λ e. cc)), tt)),
)

-- Every listed manager is classified, whatever the arguments: the classifier does not throw, hands
-- the arguments on, and answers unsupported exactly for the gated managers.
pub classify_total :
    (args : List String)
    → All (λ m. Classifies (not (is_supported_package_manager m)) m args) package_manager_names
unfolding package_manager_names is_supported_package_manager optional_package_manager_names
classify_total args =
    All-append (λ m. Classifies (not (is_supported_package_manager m)) m args) supported_managers
      optional_package_manager_names (supported args) (gated args)

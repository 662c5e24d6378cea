-- ===== src/Proxy/Enforcement/PackageName.antt =====
-- `derivePackageName` of src/proxy/enforcement.ts: the package that a command line names.
use dg_cli.Common.{
  String, Bool, true, false, List, [], ◌∷◌, ◌==◌, string_Eq, has, template, if◌then◌else◌,
}
use dg_cli.Launcher.Classify.{
  Ecosystem, javascript, python, rust, gated, PackageManagerClassification, is_flag,
}

-- VALUE_CONSUMING_FLAGS
unfoldable pub value_consuming_flags : Ecosystem → List String
value_consuming_flags javascript =
    "--registry" ∷ "--userconfig" ∷ "--globalconfig" ∷ "--cache" ∷ "--prefix" ∷ "--loglevel"
    ∷ "--tag" ∷ "--workspace" ∷ "-w" ∷ "--filter" ∷ "-C" ∷ "--dir" ∷ "--cwd" ∷ "--modules-folder"
    ∷ "--otp" ∷ "--script-shell" ∷ "--network-concurrency" ∷ "--mutex" ∷ []
value_consuming_flags python =
    "--index-url" ∷ "-i" ∷ "--extra-index-url" ∷ "--find-links" ∷ "-f" ∷ "--trusted-host"
    ∷ "--proxy" ∷ "--requirement" ∷ "-r" ∷ "--constraint" ∷ "-c" ∷ "--target" ∷ "-t" ∷ "--prefix"
    ∷ "--root" ∷ "--src" ∷ "--platform" ∷ "--python" ∷ "--python-version" ∷ "--implementation"
    ∷ "--abi" ∷ "--cache-dir" ∷ "--timeout" ∷ "--retries" ∷ "--cert" ∷ "--client-cert" ∷ "--log"
    ∷ "--progress-bar" ∷ "--upgrade-strategy" ∷ "--no-binary" ∷ "--only-binary" ∷ "--report"
    ∷ "--editable" ∷ "-e" ∷ "--index" ∷ "--default-index" ∷ []
value_consuming_flags rust =
    "--registry" ∷ "--index" ∷ "--git" ∷ "--branch" ∷ "--tag" ∷ "--rev" ∷ "--path" ∷ "--vers"
    ∷ "--version" ∷ "--features" ∷ "-F" ∷ "--package" ∷ "-p" ∷ "--manifest-path" ∷ "--target-dir"
    ∷ "--profile" ∷ "--jobs" ∷ "-j" ∷ "--target" ∷ "--config" ∷ "-Z" ∷ []
value_consuming_flags gated = []

-- The loop over the arguments; `skip` says that the flag in front took this one as its value.
unfoldable pub first_package : List String → String → String → Bool → List String → String
first_package value_flags action fallback skip [] = fallback
first_package value_flags action fallback skip (arg ∷ args) =
    let next = first_package value_flags action fallback false args in
    let skipping = first_package value_flags action fallback true args in
    if skip
    then next
    else if arg == ""
    then next
    else if is_flag arg
    then (if has value_flags arg then skipping else next)
    else if arg == action
    then next
    else arg

unfoldable pub derive_package_name : PackageManagerClassification → String
unfolding first_package
derive_package_name classification =
    first_package (value_consuming_flags classification.ecosystem) classification.action
      (template (
        classification.manager
        ∷ ":"
        ∷ (if classification.action == "" then "install" else classification.action)
        ∷ []))
      false classification.args

-- ===== src/Tests/Launcher.antt =====
-- src/launcher/classify.ts on concrete command lines.
use dg_cli.Common.{◌≡◌, refl, inl, inr, [], ◌∷◌}
use dg_cli.Common.Result.{ok}
use dg_cli.Launcher.Classify.{
  PackageManagerClassification, javascript, python, protected, passthrough, js_protected,
  read_only_verbs, normalize_manager_name, classify_package_manager_invocation,
}
use dg_cli.Launcher.Classify.Protection.{install_verb_protects}

behind_a_flag :
    classify_package_manager_invocation "npm" ("--prefix" ∷ "/tmp" ∷ "install" ∷ "x" ∷ [])
    ≡ ok (record {
      manager = "npm";
      ecosystem = javascript;
      kind = protected;
      action = "install";
      reason = "npm install/fetch command";
      real_binary_name = "npm";
      args = "--prefix" ∷ "/tmp" ∷ "install" ∷ "x" ∷ [];
    })
unfolding classify_package_manager_invocation read_only_verbs
behind_a_flag = refl

versioned_names :
    (normalize_manager_name "pip3.12" ≡ "pip")
    × (normalize_manager_name "pipx" ≡ "pipx")
    × (normalize_manager_name "python3" ≡ "python")
    × (normalize_manager_name "pip3." ≡ "pip3.")
unfolding normalize_manager_name
versioned_names = (refl, refl, refl, refl)

install_verb_protects_example :
    (c : PackageManagerClassification) × (classify_package_manager_invocation "npm"
        ("--prefix" ∷ "/tmp" ∷ "install" ∷ "x" ∷ [])
      ≡ ok c)
    × (c.kind ≡ protected)
unfolding read_only_verbs
install_verb_protects_example =
    install_verb_protects "npm" js_protected ("--prefix" ∷ "/tmp" ∷ []) "install" ("x" ∷ []) refl
      (inl refl, (inr (refl, refl), tt)) refl refl

-- uv's verb is the first word that is no flag, here the value of a global flag.
value_before_uv :
    classify_package_manager_invocation "uv" ("--directory" ∷ "/tmp" ∷ "add" ∷ "x" ∷ [])
    ≡ ok (record {
      manager = "uv";
      ecosystem = python;
      kind = passthrough;
      action = "/tmp";
      reason = "not classified as an install/fetch command";
      real_binary_name = "uv";
      args = "--directory" ∷ "/tmp" ∷ "add" ∷ "x" ∷ [];
    })
unfolding classify_package_manager_invocation
value_before_uv = refl

-- ===== src/Tests/Proxy.antt =====
-- src/proxy on concrete requests.
use dg_cli.Common.{
  ◌≡◌, ◌≢◌, ◌↔◌, ◌⊎◌, inl, refl, true, false, ◌&&◌, none, [], ◌∷◌, ◌++◌, if◌then◌else◌,
}
use dg_cli.Common.Result.{ok, err}
use dg_cli.Config.{PolicyMode, strict}
use dg_cli.Launcher.Classify.{PackageManagerClassification, javascript, protected}
use dg_cli.Policy.Evaluate.{Verdict, pass}
use dg_cli.Policy.Evaluate.Override.{date_of}
use dg_cli.Proxy.Enforcement.{
  proxy_setup_failure, ProtectedInstallRequest, World, config_of, verdict_of, derive_package_name,
  value_consuming_flags, enforce_protected_install,
}
use dg_cli.Proxy.Enforcement.Doors.{is_ok, QuotaOpen, override_open, enforce-block_iff}
use dg_cli.Proxy.Enforcement.Closed.{enforce-fail_closed}
use dg_cli.Proxy.Enforcement.Log.{expected_lines, enforce-lines}

abbrev npm_install : PackageManagerClassification
npm_install = record {
  manager = "npm";
  ecosystem = javascript;
  kind = protected;
  action = "install";
  reason = "npm install/fetch command";
  real_binary_name = "npm";
  args = "--prefix" ∷ "/tmp" ∷ "install" ∷ "lodash" ∷ [];
}

named : derive_package_name npm_install ≡ "lodash"
unfolding derive_package_name value_consuming_flags
named = refl

abbrev request : ProtectedInstallRequest
request = record {
  classification = npm_install;
  user_config = none;
  loaded = err "unreadable";
  proxy_verdict = none;
  force_override = none;
  created_at = ok "2026-01-01";
}

abbrev world : World
world = record { audit = record { lines = []; writable = true }; noticed = false; stderr = [] }

enforce-block_iff_example : ((enforce_protected_install request world).0.action ≡ Verdict.block) ↔ (
    (((config_of request world).0.policy.mode ≡ PolicyMode.block)
        × ((verdict_of request).verdict ≡ Verdict.block)
      ⊎ ((config_of request world).0.policy.mode ≡ strict) × ((verdict_of request).verdict ≢ pass))
    × ¬ QuotaOpen request
    × (override_open request world ≡ false))
enforce-block_iff_example = enforce-block_iff request world

enforce-fail_closed_example :
    ((enforce_protected_install request world).0.action ≡ Verdict.block)
    × ((enforce_protected_install request world).0.cause ≡ proxy_setup_failure)
unfolding config_of
enforce-fail_closed_example = enforce-fail_closed request world refl (inl refl) refl

enforce-lines_example :
    (enforce_protected_install request world).1.audit.lines
    ≡ world.audit.lines
      ++ (if world.audit.writable && is_ok request.created_at
          then expected_lines
              (enforce_protected_install request world).0
              (date_of request.created_at)
          else [])
enforce-lines_example = enforce-lines request world

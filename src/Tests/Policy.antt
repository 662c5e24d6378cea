-- ===== src/Tests/Policy.antt =====
-- src/policy on concrete inputs.
use dg_cli.Common.{
  String, ◌≡◌, ◌≢◌, ◌↔◌, ◌⊎◌, refl, Bool, true, false, ◌&&◌, none, some, [], ◌∷◌, ◌++◌, arith, All,
  if◌then◌else◌, ◌≤◌,
}
use dg_cli.Common.Result.{Result, ok}
use dg_cli.Config.{PolicyMode, strict}
use dg_cli.Audit.Events.{AuditLog}
use dg_cli.Policy.Evaluate.{
  pass, warn, block, project, TrustedBy, AllowlistEntry, EffectivePolicy, PolicySource,
  evaluate_package_policy, override_event, apply_force_override,
}
use dg_cli.Policy.Evaluate.Actions.{severity, Trusts, evaluate_mono, evaluate-block_iff}
use dg_cli.Policy.Evaluate.Override.{granted, date_of, apply_force_override-granted_iff}

abbrev untrusting : EffectivePolicy
untrusting = record {
  mode = strict;
  trust_project_allowlists = false;
  allow_force_override = true;
  script_hardening = false;
  source = PolicySource.user;
}

abbrev entry : AllowlistEntry
entry = record { package_name = "left-pad"; reason = "vetted"; trusted_by = project }

untrusted_project :
    evaluate_package_policy warn "left-pad" untrusting (some (entry ∷ [])) ≡ record {
      action = block;
      source = PolicySource.user;
      reason = "strict mode upgrades warn verdicts to blocks";
    }
unfolding evaluate_package_policy
untrusted_project = refl

trusted_user :
    evaluate_package_policy block "left-pad" untrusting
      (some (record entry { trusted_by = TrustedBy.user } ∷ []))
    ≡ record { action = pass; source = PolicySource.allowlist; reason = "user allowlist: vetted" }
unfolding evaluate_package_policy
trusted_user = refl

evaluate-block_iff_example :
    ((evaluate_package_policy warn "left-pad" untrusting (some (entry ∷ []))).action ≡ block) ↔ (
      All (λ e. ¬ Trusts untrusting "left-pad" e) (entry ∷ [])
      × (((untrusting.mode ≡ PolicyMode.block) × (warn ≡ block))
          ⊎ ((untrusting.mode ≡ strict) × (warn ≢ pass))))
evaluate-block_iff_example = evaluate-block_iff warn "left-pad" untrusting (entry ∷ [])

evaluate_mono_example :
    severity
      (evaluate_package_policy warn "left-pad"
        (record untrusting { mode = PolicyMode.block })
        none).action
    ≤ severity (evaluate_package_policy block "left-pad" untrusting none).action
evaluate_mono_example =
    evaluate_mono warn block "left-pad" (record untrusting { mode = PolicyMode.block }) strict none
      (omega arith) (omega arith)

abbrev writable_log : AuditLog
writable_log = record { lines = []; writable = true }

apply_force_override-granted_iff_example :
    ((granted (apply_force_override "evil" block true untrusting (ok "2026-01-01") writable_log).0
        ≡ true)
      ↔ (◌≡◌ {A = Bool} true true
          × (block ≡ block)
          × (untrusting.allow_force_override ≡ true)
          × ((at : String) × (◌≡◌ {A = Result String String} (ok "2026-01-01") (ok at)))))
    × ((apply_force_override "evil" block true untrusting (ok "2026-01-01") writable_log).1.lines
        ≡ (if granted
                (apply_force_override "evil" block true untrusting (ok "2026-01-01") writable_log).0
              && writable_log.writable
            then writable_log.lines
              ++ override_event "evil" untrusting.mode (date_of (ok "2026-01-01")) ∷ []
            else writable_log.lines))
apply_force_override-granted_iff_example =
    apply_force_override-granted_iff "evil" block true untrusting (ok "2026-01-01") writable_log

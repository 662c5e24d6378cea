-- ===== src/Proxy/Enforcement.antt =====
-- src/proxy/enforcement.ts: what the proxy does with a verdict on one artifact.
-- `PackageName` is `derivePackageName`; the proofs are in `Doors`, `Log` and `Closed`.
pub mod Doors
pub mod Log
pub mod Closed
mod Types
mod PackageName
pub use Types.*
unfoldable pub use PackageName.{derive_package_name, value_consuming_flags}
pub use PackageName.*
use dg_cli.Common.{
  String, Bool, true, false, not, ◌&&◌, Option, none, some, List, [], ◌∷◌, ◌++◌, truthy,
  if◌then◌else◌, get_or, template,
}
use dg_cli.Common.Result.{Result, ok, err}
use dg_cli.Common.Json
use dg_cli.Common.Json.{Json, boolean, object}
use dg_cli.Config.{mode_text, DgUserConfig, PolicyMode, default_config}
use dg_cli.Audit.Events.{AuditEvent, AuditLog, install_blocked, record_audit_event}
use dg_cli.Launcher.Classify.{PackageManagerClassification}
use dg_cli.Policy.Evaluate.{
  Verdict, PolicyAction, EffectivePolicy, ForceOverrideResult, is_block, resolve_effective_policy,
  evaluate_package_policy, apply_force_override,
}

is_true : Option Json → Bool
is_true (some (boolean true)) = true
is_true _ = false

-- `null.force` throws, and so does `JSON.parse` (`none`); another value has no such field.
force_field : Option Json → Option Json
force_field (some (object fields)) = Json.lookup "force" fields
force_field _ = none

unfoldable pub parse_force_override_request :
    (String → Option Json) → Option String → Option ForceOverrideRequest
unfolding is_true force_field
parse_force_override_request parse raw =
    if not (truthy raw)
    then none
    else if not (is_true (force_field (parse (get_or raw ""))))
    then none
    else some (record { force = true })

unfoldable pub note_enforcement_side_effect_failure : String → World → World
note_enforcement_side_effect_failure message w = if w.noticed then w else record w {
  noticed = true;
  stderr =
      w.stderr
      ++ template (
          "dg: local state read/write failed (" ∷ message
          ∷ "); the install decision is still enforced.\n" ∷ [])
        ∷ [];
}

load_user_config_or_default : Result String DgUserConfig → World → DgUserConfig × World
unfolding note_enforcement_side_effect_failure
load_user_config_or_default (ok config) w = (config, w)
load_user_config_or_default (err message) w =
    (default_config, note_enforcement_side_effect_failure message w)

unfoldable pub config_of : ProtectedInstallRequest → World → DgUserConfig × World
unfolding load_user_config_or_default
config_of request w = elim request.user_config [
  | some config ↦ (config, w)
  | none ↦ load_user_config_or_default request.loaded w
]

unfoldable pub fail_closed_verdict : PackageManagerClassification → ProxyVerdict
fail_closed_verdict classification = record {
  verdict = Verdict.block;
  package_name = some (derive_package_name classification);
  cause = some proxy_setup_failure;
  reason =
      some "per-invocation proxy enforcement is not available, so protected installs fail closed";
  dashboard_url = none;
  unauthenticated = none;
  resets_at = none;
  quota_behavior = none;
  cooldown = none;
}

unfoldable pub cause_from_verdict : Verdict → PolicyAction → EnforcementCause
cause_from_verdict Verdict.pass Verdict.pass = EnforcementCause.pass
cause_from_verdict _ Verdict.warn = EnforcementCause.warn
cause_from_verdict _ _ = policy

abbrev drop_falsy : Option String → Option String
drop_falsy o = if truthy o then o else none

abbrev only_true : Option Bool → Option Bool
only_true (some true) = some true
only_true _ = none

with_optional_decision_fields : EnforcementDecision → ProxyVerdict → EnforcementDecision
with_optional_decision_fields decision verdict = record decision {
  dashboard_url = drop_falsy verdict.dashboard_url;
  unauthenticated = only_true verdict.unauthenticated;
  resets_at = drop_falsy verdict.resets_at;
  quota_behavior = verdict.quota_behavior;
  cooldown = verdict.cooldown;
}

unfoldable pub verdict_of : ProtectedInstallRequest → ProxyVerdict
unfolding fail_closed_verdict
verdict_of request = get_or request.proxy_verdict (fail_closed_verdict request.classification)

unfoldable pub base_decision : ProtectedInstallRequest → EffectivePolicy → EnforcementDecision
unfolding verdict_of cause_from_verdict with_optional_decision_fields evaluate_package_policy
base_decision request effective =
    let proxy_verdict = verdict_of request in
    let package_name =
      get_or proxy_verdict.package_name (derive_package_name request.classification) in
    let evaluation = evaluate_package_policy proxy_verdict.verdict package_name effective none in
    with_optional_decision_fields
      (record {
        action = evaluation.action;
        cause =
            get_or proxy_verdict.cause (cause_from_verdict proxy_verdict.verdict evaluation.action);
        package_name = package_name;
        policy_mode = effective.mode;
        reason = get_or proxy_verdict.reason evaluation.reason;
        dashboard_url = none;
        unauthenticated = none;
        resets_at = none;
        quota_behavior = none;
        cooldown = none;
        force_override = none;
      })
      proxy_verdict

abbrev pub is_quota_pass : EnforcementCause → Option QuotaBehavior → Bool
is_quota_pass quota_exceeded (some QuotaBehavior.pass) = true
is_quota_pass _ _ = false

abbrev pub force_requested : ProtectedInstallRequest → Bool
force_requested request = elim request.force_override [ some f ↦ f.force | none ↦ false ]

-- The `try` round `applyForceOverride`.
caught : Result String ForceOverrideResult × AuditLog → World → ForceOverrideResult × World
unfolding note_enforcement_side_effect_failure
caught (ok force, log) w = (force, record w { audit = log })
caught (err message, log) w = (
  record {
    allowed = false;
    reason = "force override is unavailable because dg local state could not be read or written";
    audit_recorded = false;
  },
  note_enforcement_side_effect_failure message (record w { audit = log }),
)

-- The event of a block, whose date may throw; `recordAuditEvent` itself throws nothing.
unfoldable pub record_block : EnforcementDecision → Result String String → World → World
unfolding record_audit_event note_enforcement_side_effect_failure
record_block decision (ok created_at) w = record w {
  audit =
      (record_audit_event
        (record {
          event_type = install_blocked;
          package_name = decision.package_name;
          reason = decision.reason;
          policy_mode = mode_text decision.policy_mode;
          created_at = created_at;
        })
        w.audit).1;
}
record_block decision (err message) w = note_enforcement_side_effect_failure message w

-- What follows `applyForceOverride`.
after_override :
    ProtectedInstallRequest
    → EnforcementDecision
    → ForceOverrideResult
    → World
    → EnforcementDecision × World
unfolding record_block
after_override request decision force w =
    if force.allowed
    then (
      record decision {
        action = Verdict.warn;
        reason = template ("force override allowed: " ∷ force.reason ∷ []);
        force_override = some (record { allowed = true; reason = force.reason });
      },
      w,
    )
    else if not (force_requested request)
    then (decision, record_block decision request.created_at w)
    else (
      record decision { force_override = some (record { allowed = false; reason = force.reason }) },
      record_block decision request.created_at w,
    )

-- A base decision that blocks.
blocked :
    ProtectedInstallRequest
    → EffectivePolicy
    → EnforcementDecision
    → World
    → EnforcementDecision × World
unfolding caught after_override apply_force_override
blocked request effective decision w =
    let (force, w') =
      caught
        (apply_force_override decision.package_name Verdict.block (force_requested request)
          effective request.created_at w.audit)
        w in
    after_override request decision force w'

-- What follows the base decision.
unfoldable pub decide :
    ProtectedInstallRequest
    → EffectivePolicy
    → EnforcementDecision
    → World
    → EnforcementDecision × World
unfolding blocked
decide request effective decision w =
    if is_quota_pass decision.cause (verdict_of request).quota_behavior
    then (
      record decision {
        action = Verdict.warn;
        reason = "over monthly quota — installed unverified per your dashboard setting";
      },
      w,
    )
    else if not (is_block decision.action)
    then (decision, w)
    else blocked request effective decision w

unfoldable pub enforce_protected_install :
    ProtectedInstallRequest → World → EnforcementDecision × World
unfolding config_of base_decision decide resolve_effective_policy
enforce_protected_install request w =
    let (config, w') = config_of request w in
    let effective = resolve_effective_policy (some config) none in
    decide request effective (base_decision request effective) w'

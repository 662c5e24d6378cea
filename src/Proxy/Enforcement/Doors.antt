-- ===== src/Proxy/Enforcement/Doors.antt =====
-- When `enforceProtectedInstall` of src/proxy/enforcement.ts blocks: the policy's own rule, and the
-- two doors past it.
use dg_cli.Common.{String, ◌≡◌, ◌≢◌, ◌↔◌, ◌⊎◌, Bool, true, false, ◌&&◌, none, some, arith, refl}
use dg_cli.Common.Result.{Result, ok, err}
use dg_cli.Config.{PolicyMode, strict}
use dg_cli.Policy.Evaluate.{Verdict, pass, EffectivePolicy, resolve_effective_policy}
use dg_cli.Policy.Evaluate.Actions.{evaluate_by_mode-block_iff}
use dg_cli.Proxy.Enforcement.{
  quota_exceeded, EnforcementDecision, ProtectedInstallRequest, QuotaBehavior, World, config_of,
  verdict_of, base_decision, is_quota_pass, force_requested, decide, enforce_protected_install,
}

abbrev pub is_ok : Result String String → Bool
is_ok (ok _) = true
is_ok (err _) = false

-- The override door: requested, allowed by the configuration, and with a valid date.
abbrev pub override_open : ProtectedInstallRequest → World → Bool
override_open request w =
    force_requested request
    && (config_of request w).0.policy.allow_force_override
    && is_ok request.created_at

-- The quota door: the scanner's quota is used up and the account lets installs pass.
abbrev pub QuotaOpen : ProtectedInstallRequest → Type 0
QuotaOpen request =
    ((verdict_of request).cause ≡ some quota_exceeded)
    × ((verdict_of request).quota_behavior ≡ some QuotaBehavior.pass)

decide-block_iff :
    (request : ProtectedInstallRequest) (effective : EffectivePolicy) (d : EnforcementDecision)
    (w : World)
    → ((decide request effective d w).0.action ≡ Verdict.block) ↔ (
        (d.action ≡ Verdict.block)
        × (is_quota_pass d.cause (verdict_of request).quota_behavior ≡ false)
        × ((force_requested request && effective.allow_force_override && is_ok request.created_at)
            ≡ false))
unfolding decide
decide-block_iff request effective d w = ground arith

base-block_iff :
    (request : ProtectedInstallRequest) (effective : EffectivePolicy)
    → ((base_decision request effective).action ≡ Verdict.block) ↔ (
        ((effective.mode ≡ PolicyMode.block) × ((verdict_of request).verdict ≡ Verdict.block))
        ⊎ ((effective.mode ≡ strict) × ((verdict_of request).verdict ≢ pass)))
unfolding base_decision
base-block_iff request effective =
    evaluate_by_mode-block_iff effective.mode (verdict_of request).verdict effective.source

quota_iff :
    (request : ProtectedInstallRequest) (effective : EffectivePolicy)
    → (is_quota_pass (base_decision request effective).cause (verdict_of request).quota_behavior
        ≡ false)
      ↔ ¬ QuotaOpen request
unfolding base_decision
quota_iff request effective = ground arith

abbrev pub effective_of : ProtectedInstallRequest → World → EffectivePolicy
effective_of request w = resolve_effective_policy (some (config_of request w).0) none

abbrev pub base_of : ProtectedInstallRequest → World → EnforcementDecision
base_of request w = base_decision request (effective_of request w)

pub enforce_lem :
    (request : ProtectedInstallRequest) (w : World)
    → enforce_protected_install request w
      ≡ decide request (effective_of request w) (base_of request w) (config_of request w).1
unfolding enforce_protected_install
enforce_lem request w = refl

-- An artifact is blocked exactly when the policy of the configuration blocks its verdict (block in
-- block mode, warn or block in strict mode) and both doors are shut: the quota door and the
-- override. The verdict is the scanner's, or the fail-closed one if there is none.
pub enforce-block_iff :
    (request : ProtectedInstallRequest) (w : World)
    → ((enforce_protected_install request w).0.action ≡ Verdict.block) ↔ (
        (((config_of request w).0.policy.mode ≡ PolicyMode.block)
            × ((verdict_of request).verdict ≡ Verdict.block)
          ⊎ ((config_of request w).0.policy.mode ≡ strict) × ((verdict_of request).verdict ≢ pass))
        × ¬ QuotaOpen request
        × (override_open request w ≡ false))
unfolding resolve_effective_policy
enforce-block_iff request w = rw enforce_lem (
    ground (
      arith,
      decide-block_iff request (effective_of request w) (base_of request w) (config_of request w).1,
      base-block_iff request (effective_of request w),
      quota_iff request (effective_of request w),
    ))

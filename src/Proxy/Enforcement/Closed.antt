-- ===== src/Proxy/Enforcement/Closed.antt =====
-- Without a verdict `enforceProtectedInstall` of src/proxy/enforcement.ts fails closed.
use dg_cli.Common.{◌≡◌, ◌⊎◌, false, none, some, arith}
use dg_cli.Config.{PolicyMode, strict}
use dg_cli.Policy.Evaluate.{Verdict, EffectivePolicy}
use dg_cli.Proxy.Enforcement.{
  proxy_setup_failure, EnforcementDecision, ProtectedInstallRequest, World, config_of, verdict_of,
  base_decision, decide, enforce_protected_install,
}
use dg_cli.Proxy.Enforcement.Doors.{override_open, effective_of, enforce_lem, enforce-block_iff}

cause-decide :
    (request : ProtectedInstallRequest) (effective : EffectivePolicy) (d : EnforcementDecision)
    (w : World)
    → (decide request effective d w).0.cause ≡ d.cause
unfolding decide
cause-decide request effective d w = ground arith

closed_verdict :
    (request : ProtectedInstallRequest)
    → request.proxy_verdict ≡ none
    → ((verdict_of request).verdict ≡ Verdict.block)
      × ((verdict_of request).cause ≡ some proxy_setup_failure)
unfolding verdict_of
closed_verdict request h = ground arith

closed_cause :
    (request : ProtectedInstallRequest) (effective : EffectivePolicy)
    → request.proxy_verdict ≡ none
    → (base_decision request effective).cause ≡ proxy_setup_failure
unfolding base_decision
closed_cause request effective h = ground arith

-- With no verdict the installation fails closed: in block mode and in strict mode it is blocked,
-- unless the user asked for the override and it is open.
pub enforce-fail_closed :
    (request : ProtectedInstallRequest) (w : World)
    → request.proxy_verdict ≡ none
    → ((config_of request w).0.policy.mode ≡ PolicyMode.block)
      ⊎ ((config_of request w).0.policy.mode ≡ strict)
    → override_open request w ≡ false
    → ((enforce_protected_install request w).0.action ≡ Verdict.block)
      × ((enforce_protected_install request w).0.cause ≡ proxy_setup_failure)
enforce-fail_closed request w h m o = (
  ground (arith, enforce-block_iff request w, closed_verdict request h),
  rw enforce_lem (rw cause-decide (closed_cause request (effective_of request w) h)),
)

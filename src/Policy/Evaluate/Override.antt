-- ===== src/Policy/Evaluate/Override.antt =====
-- When `applyForceOverride` of src/policy/evaluate.ts grants the override.
use dg_cli.Common.{
  String, ◌≡◌, ◌≢◌, ◌↔◌, Bool, true, false, ◌&&◌, Option, some, [], ◌∷◌, ◌++◌, arith, if◌then◌else◌,
}
use dg_cli.Common.Result.{Result, ok, err}
use dg_cli.Audit.Events.{AuditLog}
use dg_cli.Policy.Evaluate.{
  PolicyAction, block, EffectivePolicy, OrgPolicy, override_event, ForceOverrideResult,
  resolve_effective_policy, apply_force_override,
}
use dg_cli.Config.{DgUserConfig}

-- What the call throws, or returns as `allowed`.
abbrev pub granted : Result String ForceOverrideResult → Bool
granted (ok r) = r.allowed
granted (err _) = false

abbrev pub date_of : Result String String → String
date_of (ok date) = date
date_of (err message) = message

-- The override is granted exactly when it was requested, the action is block, the policy allows it
-- and the date of the event is valid. It then has a line in the audit log if the log can be
-- written, and is granted without one if not; any other outcome leaves the log as it was.
pub apply_force_override-granted_iff :
    (name : String) (action : PolicyAction) (force : Bool) (policy : EffectivePolicy)
    (created_at : Result String String) (log : AuditLog)
    → ((granted (apply_force_override name action force policy created_at log).0 ≡ true) ↔ (
        (force ≡ true)
        × (action ≡ block)
        × (policy.allow_force_override ≡ true)
        × ((at : String) × (created_at ≡ ok at))))
      × ((apply_force_override name action force policy created_at log).1.lines ≡ (
          if granted (apply_force_override name action force policy created_at log).0
            && log.writable
          then log.lines ++ override_event name policy.mode (date_of created_at) ∷ []
          else log.lines))
unfolding apply_force_override
apply_force_override-granted_iff name action force policy created_at log = (granted_iff, grown)
  where
    granted_iff :
        (granted (apply_force_override name action force policy created_at log).0 ≡ true) ↔ (
          (force ≡ true)
          × (action ≡ block)
          × (policy.allow_force_override ≡ true)
          × ((at : String) × (created_at ≡ ok at)))
    granted_iff = ground arith

    grown : (apply_force_override name action force policy created_at log).1.lines ≡ (
        if granted (apply_force_override name action force policy created_at log).0 && log.writable
        then log.lines ++ override_event name policy.mode (date_of created_at) ∷ []
        else log.lines)
    grown = ground arith

-- Under an organisation's policy an override is granted only where that policy allows it: where it
-- does not, or leaves the field out, nothing in the user's configuration opens it.
pub org_policy_override :
    (name : String) (config : Option DgUserConfig) (org : OrgPolicy) (action : PolicyAction)
    (force : Bool) (created_at : Result String String) (log : AuditLog)
    → org.allow_force_override ≢ some true
    → granted
        (apply_force_override name action force
          (resolve_effective_policy config (some org))
          created_at
          log).0
      ≡ false
unfolding apply_force_override resolve_effective_policy
org_policy_override name config org action force created_at log h = ground arith

-- ===== src/Policy/Evaluate.antt =====
-- src/policy/evaluate.ts: the effective policy, the action that it takes on a verdict, and the
-- force override with its line in the audit log.
pub mod Actions
pub mod Override
use dg_cli.Common.{
  String, ◌≡◌, Bool, true, false, ◌&&◌, Option, none, some, List, [], not, ◌==◌, Eq, string_Eq,
  if◌then◌else◌, find, get_or, template, ◌∷◌,
}
use dg_cli.Common.Result.{Result, ok, err}
use dg_cli.Audit.Events.{AuditEvent, AuditLog, install_force_override, record_audit_event}
use dg_cli.Config.{mode_text, DgUserConfig, PolicyMode, off, strict, default_config}

pub data Verdict : Type 0 where
  pass warn block : Verdict

-- The source spells this union a second time.
abbrev pub PolicyAction : Type 0
PolicyAction = Verdict

pub data TrustedBy : Type 0 where
  project user org : TrustedBy

pub record AllowlistEntry : Type 0 where
  pub package_name : String
  pub reason : String
  pub trusted_by : TrustedBy

pub data PolicySource : Type 0 where
  built_in user org allowlist : PolicySource

pub record EffectivePolicy : Type 0 where
  pub mode : PolicyMode
  pub trust_project_allowlists : Bool
  pub allow_force_override : Bool
  pub script_hardening : Bool
  pub source : PolicySource

pub record PolicyEvaluation : Type 0 where
  pub action : PolicyAction
  pub source : PolicySource
  pub reason : String

pub record ForceOverrideResult : Type 0 where
  pub allowed : Bool
  pub reason : String
  pub audit_recorded : Bool

-- Partial<EffectivePolicy>
pub record OrgPolicy : Type 0 where
  pub mode : Option PolicyMode
  pub trust_project_allowlists : Option Bool
  pub allow_force_override : Option Bool
  pub script_hardening : Option Bool

from_config : DgUserConfig → PolicySource → EffectivePolicy
from_config config source = record {
  mode = config.policy.mode;
  trust_project_allowlists = config.policy.trust_project_allowlists;
  allow_force_override = config.policy.allow_force_override;
  script_hardening = config.policy.script_hardening;
  source = source;
}

unfoldable pub resolve_effective_policy : Option DgUserConfig → Option OrgPolicy → EffectivePolicy
unfolding from_config
resolve_effective_policy user_config (some p) = record {
  mode = get_or p.mode strict;
  trust_project_allowlists = get_or p.trust_project_allowlists false;
  allow_force_override = get_or p.allow_force_override false;
  script_hardening = get_or p.script_hardening true;
  source = PolicySource.org;
}
resolve_effective_policy (some config) none = from_config config PolicySource.user
resolve_effective_policy none none = from_config default_config built_in

is_trusted : String → EffectivePolicy → AllowlistEntry → Bool
is_trusted package_name policy entry =
    if not (entry.package_name == package_name)
    then false
    else elim entry.trusted_by [ project ↦ policy.trust_project_allowlists | _ ↦ true ]

pub find_trusted_allowlist : String → EffectivePolicy → List AllowlistEntry → Option AllowlistEntry
unfolding is_trusted
find_trusted_allowlist package_name policy = find (is_trusted package_name policy)

abbrev pub trusted_by_text : TrustedBy → String
trusted_by_text project = "project"
trusted_by_text TrustedBy.user = "user"
trusted_by_text TrustedBy.org = "org"

abbrev pub verdict_text : Verdict → String
verdict_text pass = "pass"
verdict_text warn = "warn"
verdict_text block = "block"

-- The ladder below the allowlist: the tests of the source, in its order.
pub evaluate_by_mode : PolicyMode → Verdict → PolicySource → PolicyEvaluation
evaluate_by_mode off verdict source = record {
  action = pass;
  source = source;
  reason = "policy mode off";
}
evaluate_by_mode mode pass source = record {
  action = pass;
  source = source;
  reason = "verdict pass";
}
evaluate_by_mode PolicyMode.warn verdict source = record {
  action = warn;
  source = source;
  reason = template ("policy warn mode for " ∷ verdict_text verdict ∷ " verdict" ∷ []);
}
evaluate_by_mode strict warn source = record {
  action = block;
  source = source;
  reason = "strict mode upgrades warn verdicts to blocks";
}
evaluate_by_mode mode verdict source = record {
  action = verdict;
  source = source;
  reason = template (mode_text mode ∷ " mode keeps " ∷ verdict_text verdict ∷ " verdict" ∷ []);
}

unfoldable pub evaluate_package_policy :
    Verdict → String → EffectivePolicy → Option (List AllowlistEntry) → PolicyEvaluation
unfolding find_trusted_allowlist evaluate_by_mode
evaluate_package_policy verdict package_name policy allowlists =
    elim (find_trusted_allowlist package_name policy (get_or allowlists [])) [
      | some entry ↦ record {
        action = pass;
        source = allowlist;
        reason = template (trusted_by_text entry.trusted_by ∷ " allowlist: " ∷ entry.reason ∷ []);
      }
      | none ↦ evaluate_by_mode policy.mode verdict policy.source
    ]

abbrev pub is_block : PolicyAction → Bool
is_block block = true
is_block _ = false

abbrev denied : String → ForceOverrideResult
denied reason = record { allowed = false; reason = reason; audit_recorded = false }

-- The time of the event is `toISOString`, which throws on an invalid date.
unfoldable pub override_event : String → PolicyMode → String → AuditEvent
override_event package_name mode created_at = record {
  event_type = install_force_override;
  package_name = package_name;
  reason = "developer override via --dg-force-install";
  policy_mode = mode_text mode;
  created_at = created_at;
}

grant : AuditEvent → AuditLog → Result String ForceOverrideResult × AuditLog
unfolding record_audit_event
grant event log =
    let (recorded, log') = record_audit_event event log in
    (ok (record { allowed = true; reason = event.reason; audit_recorded = recorded }), log')

grant_at :
    String
    → PolicyMode
    → Result String String
    → AuditLog
    → Result String ForceOverrideResult × AuditLog
unfolding grant override_event
grant_at package_name mode (ok created_at) log =
    grant (override_event package_name mode created_at) log
grant_at package_name mode (err message) log = (err message, log)

-- An error is a thrown one.
unfoldable pub apply_force_override :
    String
    → PolicyAction
    → Bool
    → EffectivePolicy
    → Result String String
    → AuditLog
    → Result String ForceOverrideResult × AuditLog
unfolding grant_at
apply_force_override package_name current_action force policy created_at log =
    if not force
    then (ok (denied "force override was not requested"), log)
    else if not (is_block current_action)
    then (ok (denied "force override is only valid for block decisions"), log)
    else if not policy.allow_force_override
    then (ok (denied "force override is disabled by policy"), log)
    else grant_at package_name policy.mode created_at log

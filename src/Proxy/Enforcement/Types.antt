-- ===== src/Proxy/Enforcement/Types.antt =====
-- The types of src/proxy/enforcement.ts: a verdict, the decision on it, the request, and the state
-- that the decision writes to.
use dg_cli.Common.{String, Bool, Option, List}
use dg_cli.Common.Result.{Result}
use dg_cli.Config.{DgUserConfig, PolicyMode}
use dg_cli.Audit.Events.{AuditLog}
use dg_cli.Launcher.Classify.{PackageManagerClassification}
use dg_cli.Policy.Evaluate.{Verdict, PolicyAction}

pub data EnforcementCause : Type 0 where
  pass warn malware policy license hash_mismatch private_upload_disabled : EnforcementCause
  needs_login api_unavailable quota_exceeded api_timeout registry_timeout : EnforcementCause
  analysis_incomplete cooldown unsupported_manager proxy_setup_failure : EnforcementCause

-- Ages are numbers of days that nothing here computes with, so they are texts.
pub record CooldownInfo : Type 0 where
  pub required_days : String
  pub age_days : Option String
  pub published_at : Option String
  pub eligible_at : Option String

pub data QuotaBehavior : Type 0 where
  block pass : QuotaBehavior

pub record OverrideNote : Type 0 where
  pub allowed : Bool
  pub reason : String

pub record EnforcementDecision : Type 0 where
  pub action : PolicyAction
  pub cause : EnforcementCause
  pub package_name : String
  pub policy_mode : PolicyMode
  pub reason : String
  pub dashboard_url : Option String
  pub unauthenticated : Option Bool
  pub resets_at : Option String
  pub quota_behavior : Option QuotaBehavior
  pub cooldown : Option CooldownInfo
  pub force_override : Option OverrideNote

pub record ForceOverrideRequest : Type 0 where
  pub force : Bool

pub record ProxyVerdict : Type 0 where
  pub verdict : Verdict
  pub package_name : Option String
  pub cause : Option EnforcementCause
  pub reason : Option String
  pub dashboard_url : Option String
  pub unauthenticated : Option Bool
  pub resets_at : Option String
  pub quota_behavior : Option QuotaBehavior
  pub cooldown : Option CooldownInfo

-- `loaded` is what `loadUserConfig(env)` returns or throws, and `created_at` the `toISOString` of
-- the request's date, or of the current one.
pub record ProtectedInstallRequest : Type 0 where
  pub classification : PackageManagerClassification
  pub user_config : Option DgUserConfig
  pub loaded : Result String DgUserConfig
  pub proxy_verdict : Option ProxyVerdict
  pub force_override : Option ForceOverrideRequest
  pub created_at : Result String String

-- The audit log, `sideEffectFailureNoticed`, and what was written to stderr. A write to stderr
-- that fails is caught, and differs in nothing that the program reads.
pub record World : Type 0 where
  pub audit : AuditLog
  pub noticed : Bool
  pub stderr : List String

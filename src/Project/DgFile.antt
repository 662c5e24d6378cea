-- ===== src/Project/DgFile.antt =====
-- The content of a dg.json, as src/project/dgfile.ts reads it: accepted decisions, cooldown exemptions
-- and script approvals, with the keys that the program does not know.
pub mod Exemptions
pub mod Parse
pub mod Load
pub mod Save
use dg_cli.Common.{ℕ, String, Bool, Option, List}
use dg_cli.Common.Json.{Fields}
use dg_cli.Decisions.Fingerprint.{Entries}

pub data DecisionEcosystem : Type 0 where
  npm pypi : DecisionEcosystem

pub data DecisionScope : Type 0 where
  exact : String → DecisionScope
  any_version : DecisionScope

-- An expiry: its text, and the milliseconds that `Date.parse` reads from it, where it is a date. An
-- empty text counts as none.
pub data Expiry : Type 0 where
  never : Expiry
  at : String → ℕ → Expiry
  no_date : String → Expiry

pub record DecisionEntry : Type 0 where
  pub id : String
  pub ecosystem : DecisionEcosystem
  pub name : String
  pub scope : DecisionScope
  pub findings : Entries
  pub reason : String
  pub accepted_by : String
  pub accepted_at : String
  pub expires_at : Expiry
  pub extra : Option Fields

pub data ExemptionEcosystem : Type 0 where
  npm pypi cargo : ExemptionEcosystem

pub record CooldownExemption : Type 0 where
  pub ecosystem : ExemptionEcosystem
  pub name : String
  pub reason : String
  pub accepted_by : String
  pub accepted_at : String
  pub expires_at : Expiry
  pub extra : Option Fields

pub data ScriptHook : Type 0 where
  preinstall install postinstall gyp : ScriptHook

pub data ScriptDecision : Type 0 where
  allow deny : ScriptDecision

pub data ScriptApprovalProvenance : Type 0 where
  prompt command imported_pnpm : ScriptApprovalProvenance

pub record ScriptApprovalEntry : Type 0 where
  pub decision : ScriptDecision
  pub scripts_hash : String
  pub hooks : List ScriptHook
  pub approved_version : Option String
  pub reason : Option String
  pub approved_at : String
  pub provenance : ScriptApprovalProvenance

-- `first_seen` is `none` where the source copies it from a value that has none.
pub record ObservedScriptEntry : Type 0 where
  pub version : String
  pub hooks : List ScriptHook
  pub scripts_hash : String
  pub first_seen : Option String

pub record ScriptApprovals : Type 0 where
  pub npm : List (String × ScriptApprovalEntry)
  pub observed : List (String × ObservedScriptEntry)
  pub unknown_keys : Fields

pub record DgFile : Type 0 where
  pub path : String
  pub exists : Bool
  pub readable : Bool
  pub failure : Option String
  pub raw : Fields
  pub decisions : List DecisionEntry
  pub cooldown_exemptions : List CooldownExemption
  pub script_approvals : ScriptApprovals

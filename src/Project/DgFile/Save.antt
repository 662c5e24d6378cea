-- ===== src/Project/DgFile/Save.antt =====
-- The entries of a dg.json as they are written, and the changes to its decisions, src/project/dgfile.ts.
pub mod RoundTrip
pub mod Decisions
use dg_cli.Common.{
  String, Bool, true, false, not, ◌==◌, string_Eq, if◌then◌else◌, Option, none, some, get_or, List,
  [], ◌∷◌, ◌++◌, map, keep, has,
}
use dg_cli.Common.Json.{Json, number, text, object, Fields, end, field, put_field, Items, nil, item}
use dg_cli.Project.DgFile.{
  DecisionEcosystem, DecisionScope, exact, any_version, Expiry, never, at, no_date, DecisionEntry,
  CooldownExemption, DgFile,
}
use dg_cli.Project.DgFile.Exemptions.{exemption_ecosystem_text, decision_reason_max, slice}
use dg_cli.Decisions.Fingerprint.{Entries, Slot, a_number, no_number}

-- ...(e.expiresAt ? { expiresAt: e.expiresAt } : {})
abbrev pub with_expiry : Fields → Expiry → Fields
with_expiry fields never = fields
with_expiry fields (at date time) = put_field fields "expiresAt" (text date)
with_expiry fields (no_date date) = put_field fields "expiresAt" (text date)

abbrev pub exemption_front : CooldownExemption → Fields
exemption_front e =
    put_field
      (put_field
        (put_field
          (put_field
            (put_field (get_or e.extra end) "ecosystem"
              (text (exemption_ecosystem_text e.ecosystem)))
            "name" (text e.name))
          "reason" (text e.reason))
        "acceptedBy" (text e.accepted_by))
      "acceptedAt" (text e.accepted_at)

unfoldable pub serialize_cooldown_exemption : CooldownExemption → Json
serialize_cooldown_exemption e = object (with_expiry (exemption_front e) e.expires_at)

abbrev pub decision_ecosystem_text : DecisionEcosystem → String
decision_ecosystem_text DecisionEcosystem.npm = "npm"
decision_ecosystem_text DecisionEcosystem.pypi = "pypi"

abbrev pub scope_json : DecisionScope → Json
scope_json (exact version) =
    object (field "kind" (text "exact") (field "version" (text version) end))
scope_json any_version = object (field "kind" (text "any") end)

-- Slots that are no number stand for nothing that is read from a file.
abbrev pub findings_fields : Entries → Fields
findings_fields [] = end
findings_fields ((category, a_number severity) ∷ entries) =
    field category (number severity) (findings_fields entries)
findings_fields ((category, no_number) ∷ entries) = findings_fields entries

abbrev pub decision_front : DecisionEntry → Fields
decision_front entry =
    let with_id = put_field (get_or entry.extra end) "id" (text entry.id) in
    let with_ecosystem =
      put_field with_id "ecosystem" (text (decision_ecosystem_text entry.ecosystem)) in
    let with_name = put_field with_ecosystem "name" (text entry.name) in
    let with_scope = put_field with_name "scope" (scope_json entry.scope) in
    let with_findings = put_field with_scope "findings" (object (findings_fields entry.findings)) in
    let with_reason = put_field with_findings "reason" (text entry.reason) in
    let with_by = put_field with_reason "acceptedBy" (text entry.accepted_by) in
    put_field with_by "acceptedAt" (text entry.accepted_at)

unfoldable pub serialize_decision_entry : DecisionEntry → Json
serialize_decision_entry entry = object (with_expiry (decision_front entry) entry.expires_at)

-- The array that a list is saved as, each entry by `serialize`.
unfoldable pub serialize_all : {A : Type 0} → (A → Json) → List A → Items
serialize_all serialize [] = nil
serialize_all serialize (a ∷ list) = item (serialize a) (serialize_all serialize list)

pub record NewDecision : Type 0 where
  pub ecosystem : DecisionEcosystem
  pub name : String
  pub scope : DecisionScope
  pub findings : Entries
  pub reason : String
  pub accepted_by : String
  pub accepted_at : Option String
  pub expires_at : Expiry

-- The new identifiers and the current time are arguments.
unfoldable pub decided_entry : String → String → NewDecision → DecisionEntry
decided_entry id now_text decision = record {
  id = id;
  ecosystem = decision.ecosystem;
  name = decision.name;
  scope = decision.scope;
  findings = decision.findings;
  reason = slice decision_reason_max decision.reason;
  accepted_by = decision.accepted_by;
  accepted_at = get_or decision.accepted_at now_text;
  expires_at = decision.expires_at;
  extra = none;
}

unfoldable pub append_decisions : DgFile → List (String × NewDecision) → String → DgFile
unfolding decided_entry
append_decisions file additions now_text = record file {
  decisions =
      file.decisions ++ map (λ (id, decision). decided_entry id now_text decision) additions;
}

unfoldable pub remove_decisions : DgFile → List String → DgFile
remove_decisions file ids = record file {
  decisions = keep (λ entry. not (has ids entry.id)) file.decisions;
}

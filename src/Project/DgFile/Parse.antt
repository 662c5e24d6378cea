-- ===== src/Project/DgFile/Parse.antt =====
-- Reading a dg.json, src/project/dgfile.ts. `lower` is `toLowerCase`, `date` what `Date.parse` reads,
-- `derived_id` the hash of an entry without an id, and `show` is `String(value)`.
use dg_cli.Common.{
  ℕ, String, Bool, false, not, ◌&&◌, ◌||◌, leb, ◌==◌, nat_Eq, string_Eq, if◌then◌else◌, Option,
  none, some, List, [], ◌∷◌, keep, has, is_space, put,
}
use dg_cli.Common.Json.{
  Json, number, text, array, object, Items, nil, item, Fields, end, field, lookup,
}
use dg_cli.Project.DgFile.{
  DecisionEcosystem, DecisionScope, exact, any_version, ExemptionEcosystem, ScriptHook, preinstall,
  install, postinstall, gyp, ScriptDecision, allow, deny, ScriptApprovalProvenance, prompt, command,
  imported_pnpm, ScriptApprovalEntry, ObservedScriptEntry,
}
use dg_cli.Decisions.Fingerprint.{Entries, a_number}

abbrev pub decision_entry_cap : ℕ
decision_entry_cap = 500

abbrev pub unsafe_object_keys : List String
unsafe_object_keys = "__proto__" ∷ "constructor" ∷ "prototype" ∷ []

abbrev pub exemption_fields : List String
exemption_fields = "ecosystem" ∷ "name" ∷ "reason" ∷ "acceptedBy" ∷ "acceptedAt" ∷ "expiresAt" ∷ []

abbrev pub entry_fields : List String
entry_fields =
    "id" ∷ "ecosystem" ∷ "name" ∷ "scope" ∷ "findings" ∷ "reason" ∷ "acceptedBy" ∷ "acceptedAt"
    ∷ "expiresAt" ∷ []

-- The fields whose keys are neither known nor unsafe.
unfoldable pub unknown_keys_of : Fields → List String → Fields
unknown_keys_of end known = end
unknown_keys_of (field key value fields) known =
    let rest = unknown_keys_of fields known in
    if not (has known key) && not (has unsafe_object_keys key) then field key value rest else rest

abbrev pub non_empty : Fields → Option Fields
non_empty end = none
non_empty (field key value fields) = some (field key value fields)

abbrev pub text_or : Option Json → String → String
text_or (some (text s)) default = s
text_or _ default = default

abbrev pub filled_text_or : Option Json → String → String
filled_text_or (some (text s)) default = if s == "" then default else s
filled_text_or _ default = default

-- /[\u0000-\u001f\u007f\s*]/u
abbrev pub is_bad_in_name : ℕ → Bool
is_bad_in_name c = leb c 0x1F || c == 0x7F || is_space c || c == b'*'

abbrev pub parse_exemption_ecosystem : Option Json → Option ExemptionEcosystem
parse_exemption_ecosystem (some (text s)) =
    if s == "npm"
    then some ExemptionEcosystem.npm
    else if s == "pypi"
    then some ExemptionEcosystem.pypi
    else if s == "cargo"
    then some ExemptionEcosystem.cargo
    else none
parse_exemption_ecosystem _ = none

abbrev pub parse_decision_ecosystem : Option Json → Option DecisionEcosystem
parse_decision_ecosystem (some (text s)) =
    if s == "npm"
    then some DecisionEcosystem.npm
    else if s == "pypi"
    then some DecisionEcosystem.pypi
    else none
parse_decision_ecosystem _ = none

abbrev exact_scope : Option Json → Option DecisionScope
exact_scope (some (text version)) = if version == "" then none else some (exact version)
exact_scope _ = none

abbrev scope_of : Option Json → Option Json → Option DecisionScope
scope_of (some (text kind)) version =
    if kind == "any"
    then some any_version
    else if kind == "exact"
    then exact_scope version
    else none
scope_of _ version = none

unfoldable pub parse_scope : Option Json → Option DecisionScope
parse_scope (some (object fields)) = scope_of (lookup "kind" fields) (lookup "version" fields)
parse_scope _ = none

abbrev severity_of : Json → Option ℕ
severity_of (number n) = if leb 1 n && leb n 5 then some n else none
severity_of _ = none

abbrev add_finding : String → Option ℕ → Option Entries → Option Entries
add_finding category none rest = none
add_finding category (some severity) none = none
add_finding category (some severity) (some rest) =
    if has unsafe_object_keys category
    then some rest
    else some ((category, a_number severity) ∷ rest)

unfoldable pub findings_of : Fields → Option Entries
findings_of end = some []
findings_of (field category severity fields) =
    add_finding category (severity_of severity) (findings_of fields)

unfoldable pub parse_findings : Option Json → Option Entries
unfolding findings_of
parse_findings none = some []
parse_findings (some (object fields)) = findings_of fields
parse_findings _ = none

abbrev is_text_in : String → Items → Bool
is_text_in s nil = false
is_text_in s (item (text t) items) = t == s || is_text_in s items
is_text_in s (item _ items) = is_text_in s items

abbrev hook_name : ScriptHook → String
hook_name preinstall = "preinstall"
hook_name install = "install"
hook_name postinstall = "postinstall"
hook_name gyp = "gyp"

unfoldable pub parse_hooks : Option Json → List ScriptHook
parse_hooks (some (array items)) =
    keep (λ hook. is_text_in (hook_name hook) items) (preinstall ∷ install ∷ postinstall ∷ gyp ∷ [])
parse_hooks _ = []

abbrev text_only : Option Json → Option String
text_only (some (text s)) = some s
text_only _ = none

abbrev parse_script_decision : Option String → Option ScriptDecision
parse_script_decision none = none
parse_script_decision (some s) =
    if s == "allow" then some allow else if s == "deny" then some deny else none

abbrev parse_provenance : Option String → Option ScriptApprovalProvenance
parse_provenance none = none
parse_provenance (some s) =
    if s == "prompt"
    then some prompt
    else if s == "command"
    then some command
    else if s == "imported-pnpm"
    then some imported_pnpm
    else none

abbrev script_approval_of :
    Fields
    → Option ScriptDecision
    → Option String
    → Option String
    → Option ScriptApprovalProvenance
    → Option ScriptApprovalEntry
script_approval_of fields (some decision) (some scripts_hash) (some approved_at) (some provenance) =
    some (record {
      decision = decision;
      scripts_hash = scripts_hash;
      hooks = parse_hooks (lookup "hooks" fields);
      approved_version = text_only (lookup "approvedVersion" fields);
      reason = text_only (lookup "reason" fields);
      approved_at = approved_at;
      provenance = provenance;
    })
script_approval_of fields _ _ _ _ = none

unfoldable pub parse_approval_entry : Json → Option ScriptApprovalEntry
unfolding parse_hooks
parse_approval_entry (object fields) =
    script_approval_of fields (parse_script_decision (text_only (lookup "decision" fields)))
      (text_only (lookup "scriptsHash" fields)) (text_only (lookup "approvedAt" fields))
      (parse_provenance (text_only (lookup "provenance" fields)))
parse_approval_entry _ = none

abbrev observed_of :
    Fields → Option String → Option String → Option String → Option ObservedScriptEntry
observed_of fields (some version) (some scripts_hash) (some first_seen) = some (record {
  version = version;
  hooks = parse_hooks (lookup "hooks" fields);
  scripts_hash = scripts_hash;
  first_seen = some first_seen;
})
observed_of fields _ _ _ = none

unfoldable pub parse_observed_entry : Json → Option ObservedScriptEntry
unfolding parse_hooks
parse_observed_entry (object fields) =
    observed_of fields (text_only (lookup "version" fields))
      (text_only (lookup "scriptsHash" fields)) (text_only (lookup "firstSeen" fields))
parse_observed_entry _ = none

module _ {A : Type 0} (parse_entry : Json → Option A) where
  abbrev put_parsed : List (String × A) → String → Option A → List (String × A)
  put_parsed entries name none = entries
  put_parsed entries name (some parsed) = put entries name parsed

  unfoldable pub parse_fields : List (String × A) → Fields → List (String × A)
  parse_fields entries end = entries
  parse_fields entries (field name value fields) =
      let skipped = parse_fields entries fields in
      let taken = parse_fields (put_parsed entries name (parse_entry value)) fields in
      if has unsafe_object_keys name then skipped else taken

  unfoldable pub parse_entry_map : Option Json → List (String × A)
  unfolding parse_fields
  parse_entry_map (some (object fields)) = parse_fields [] fields
  parse_entry_map _ = []

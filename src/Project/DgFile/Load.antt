-- ===== src/Project/DgFile/Load.antt =====
-- Loading a dg.json, src/project/dgfile.ts: `loadDgFile` and the entries it keeps. `lower` is
-- `toLowerCase`, `date` what `Date.parse` reads, `derived_id` the hash of an entry without an id, and
-- `show` is `String(value)`.
pub mod Bounded
use dg_cli.Common.{
  ℕ, suc, String, Bool, true, false, not, ◌&&◌, ◌||◌, leb, ltb, ◌==◌, nat_Eq, string_Eq,
  if◌then◌else◌, Option, none, some, List, [], ◌∷◌, any, codes, template, show_nat,
}
use dg_cli.Common.Result.{Result, ok, err}
use dg_cli.Common.Json.{
  Json, null, boolean, number, other_number, text, array, object, Items, nil, item, Fields, end,
  field, lookup,
}
use dg_cli.Project.DgFile.{
  DecisionEcosystem, DecisionScope, Expiry, never, at, no_date, DecisionEntry, ExemptionEcosystem,
  CooldownExemption, ScriptApprovals, DgFile,
}
use dg_cli.Project.DgFile.Exemptions.{cooldown_exemption_cap, decision_reason_max, slice}
use dg_cli.Project.DgFile.Parse.{
  decision_entry_cap, exemption_fields, entry_fields, unknown_keys_of, non_empty, text_or,
  filled_text_or, is_bad_in_name, parse_exemption_ecosystem, parse_decision_ecosystem, parse_scope,
  parse_findings, parse_approval_entry, parse_observed_entry, parse_entry_map,
}
use dg_cli.Decisions.Fingerprint.{Entries}
use dg_cli.Policy.PypiName.{canonical_cooldown_name}

abbrev pub empty_approvals : ScriptApprovals
empty_approvals = record { npm = []; observed = []; unknown_keys = end }

unfoldable pub empty_dg_file : String → DgFile
empty_dg_file path = record {
  path = path;
  exists = false;
  readable = true;
  failure = none;
  raw = end;
  decisions = [];
  cooldown_exemptions = [];
  script_approvals = empty_approvals;
}

unfoldable pub fail_open : String → String → DgFile
fail_open path failure = record {
  path = path;
  exists = true;
  readable = false;
  failure = some failure;
  raw = end;
  decisions = [];
  cooldown_exemptions = [];
  script_approvals = empty_approvals;
}

abbrev pub count_items : Items → ℕ
count_items nil = 0
count_items (item value items) = suc (count_items items)

abbrev is_version_one : Option Json → Bool
is_version_one none = true
is_version_one (some (number n)) = n == 1
is_version_one _ = false

-- An array that may be missing; `none` where the value is no array.
abbrev pub items_of : Option Json → Option Items
items_of none = some nil
items_of (some (array items)) = some items
items_of _ = none

-- An object that may be missing; `none` where the value is no object.
abbrev pub fields_of : Option Json → Option Fields
fields_of none = some end
fields_of (some (object fields)) = some fields
fields_of _ = none

abbrev version_text : Option Json → (Json → String) → String
version_text none show = ""
version_text (some version) show = show version

abbrev pub prepend : {A : Type 0} → Option A → List A → List A
prepend none rest = rest
prepend (some a) rest = a ∷ rest

module _ {A : Type 0} (parse : Json → Option A) where
  unfoldable pub parse_all : Items → List A
  parse_all nil = []
  parse_all (item value items) = prepend (parse value) (parse_all items)

abbrev pub bad_expiry : Option Json → Bool
bad_expiry none = false
bad_expiry (some (text s)) = false
bad_expiry _ = true

module _ (lower : String → String) (date : String → Option ℕ) (derived_id : Fields → String)
    (show : Json → String) where
  abbrev pub dated : String → Option ℕ → Expiry
  dated s none = no_date s
  dated s (some time) = at s time

  abbrev pub expiry_of : Option Json → Expiry
  expiry_of (some (text s)) = if s == "" then never else dated s (date s)
  expiry_of _ = never

  abbrev pub exemption_from : Fields → ExemptionEcosystem → String → CooldownExemption
  exemption_from fields ecosystem raw_name = record {
    ecosystem = ecosystem;
    name = canonical_cooldown_name lower ecosystem raw_name;
    reason = slice decision_reason_max (text_or (lookup "reason" fields) "");
    accepted_by = filled_text_or (lookup "acceptedBy" fields) "unknown";
    accepted_at = text_or (lookup "acceptedAt" fields) "";
    expires_at = expiry_of (lookup "expiresAt" fields);
    extra = non_empty (unknown_keys_of fields exemption_fields);
  }

  abbrev pub named_exemption : Fields → ExemptionEcosystem → String → Option CooldownExemption
  named_exemption fields ecosystem raw_name =
      if raw_name == "" || any is_bad_in_name (codes raw_name)
      then none
      else some (exemption_from fields ecosystem raw_name)

  abbrev pub exemption_of :
      Fields → Option ExemptionEcosystem → Option Json → Option CooldownExemption
  exemption_of fields (some ecosystem) (some (text raw_name)) =
      named_exemption fields ecosystem raw_name
  exemption_of fields _ _ = none

  unfoldable pub parse_cooldown_exemption : Json → Option CooldownExemption
  unfolding unknown_keys_of
  parse_cooldown_exemption (object fields) =
      exemption_of fields (parse_exemption_ecosystem (lookup "ecosystem" fields))
        (lookup "name" fields)
  parse_cooldown_exemption _ = none

  abbrev pub decision_from :
      Fields → DecisionEcosystem → String → DecisionScope → Entries → DecisionEntry
  decision_from fields ecosystem name scope findings = record {
    id = filled_text_or (lookup "id" fields) (derived_id fields);
    ecosystem = ecosystem;
    name = name;
    scope = scope;
    findings = findings;
    reason = slice decision_reason_max (text_or (lookup "reason" fields) "");
    accepted_by = filled_text_or (lookup "acceptedBy" fields) "unknown";
    accepted_at = text_or (lookup "acceptedAt" fields) "";
    expires_at = expiry_of (lookup "expiresAt" fields);
    extra = non_empty (unknown_keys_of fields entry_fields);
  }

  abbrev decision_of :
      Fields
      → Option DecisionEcosystem
      → Option Json
      → Option DecisionScope
      → Option Entries
      → Option DecisionEntry
  decision_of fields (some ecosystem) (some (text name)) (some scope) (some findings) =
      if name == "" || bad_expiry (lookup "expiresAt" fields)
      then none
      else some (decision_from fields ecosystem name scope findings)
  decision_of fields _ _ _ _ = none

  unfoldable pub parse_decision_entry : Json → Option DecisionEntry
  unfolding unknown_keys_of parse_scope parse_findings
  parse_decision_entry (object fields) =
      decision_of fields (parse_decision_ecosystem (lookup "ecosystem" fields))
        (lookup "name" fields) (parse_scope (lookup "scope" fields))
        (parse_findings (lookup "findings" fields))
  parse_decision_entry _ = none

  abbrev with_lists : String → Fields → Items → Fields → Items → DgFile
  with_lists path raw entries approvals listed = record {
    path = path;
    exists = true;
    readable = true;
    failure = none;
    raw = raw;
    decisions = parse_all parse_decision_entry entries;
    cooldown_exemptions = parse_all parse_cooldown_exemption listed;
    script_approvals = record {
      npm = parse_entry_map parse_approval_entry (lookup "npm" approvals);
      observed = parse_entry_map parse_observed_entry (lookup "observed" approvals);
      unknown_keys = unknown_keys_of approvals ("npm" ∷ "observed" ∷ []);
    };
  }

  -- The tests of the three lists, in their order; each failure has its text.
  abbrev with_listed : String → Fields → Items → Fields → Option Items → DgFile
  with_listed path raw entries approvals none = fail_open path "cooldownExemptions must be an array"
  with_listed path raw entries approvals (some listed) =
      if ltb cooldown_exemption_cap (count_items listed)
      then fail_open path "more than 500 cooldownExemptions"
      else with_lists path raw entries approvals listed

  abbrev with_approvals : String → Fields → Items → Option Fields → Option Items → DgFile
  with_approvals path raw entries none exemptions =
      fail_open path "scriptApprovals must be an object"
  with_approvals path raw entries (some approvals) exemptions =
      with_listed path raw entries approvals exemptions

  abbrev loaded_from : String → Fields → Option Items → Option Fields → Option Items → DgFile
  loaded_from path raw none approvals exemptions = fail_open path "decisions must be an array"
  loaded_from path raw (some entries) approvals exemptions =
      if ltb decision_entry_cap (count_items entries)
      then fail_open path "more than 500 decisions"
      else with_approvals path raw entries approvals exemptions

  unfoldable pub load_json : String → Json → DgFile
  unfolding fail_open parse_all parse_cooldown_exemption parse_decision_entry parse_entry_map
  load_json path (object raw) =
      if not (is_version_one (lookup "version" raw))
      then fail_open path (
          template ("unsupported dg.json version " ∷ version_text (lookup "version" raw) show ∷ []))
      else loaded_from path raw (items_of (lookup "decisions" raw))
          (fields_of (lookup "scriptApprovals" raw)) (items_of (lookup "cooldownExemptions" raw))
  load_json path _ = fail_open path "top level must be a JSON object"

  -- The file's content, as `JSON.parse` reads it or with its message, `none` where there is no file.
  unfoldable pub load_dg_file : String → Option (Result String Json) → DgFile
  unfolding load_json empty_dg_file
  load_dg_file path none = empty_dg_file path
  load_dg_file path (some (err message)) =
      fail_open path (template ("malformed JSON (" ∷ message ∷ ")" ∷ []))
  load_dg_file path (some (ok raw)) = load_json path raw

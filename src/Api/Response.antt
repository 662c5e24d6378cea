-- ===== src/Api/Response.antt =====
-- src/api/analyze.ts: what is kept of an answer of the scanner, and how the answers to several batches
-- become one.
pub mod Keys
pub mod Package
pub mod WellFormed
pub mod Merge
use dg_cli.Common.{
  ℕ, suc, String, Bool, true, false, not, ◌&&◌, ◌||◌, ltb, ◌==◌, nat_Eq, string_Eq, if◌then◌else◌,
  Option, none, some, List, [], ◌∷◌, ◌++◌, show_nat,
}
use dg_cli.Common.Result.{Result, ok, err, ◌>>=◌}
use dg_cli.Common.Json.{
  Json, null, boolean, number, other_number, text, array, object, Items, nil, item, Fields, end,
  field, lookup, put_field,
}
use dg_cli.Security.Sanitize.{sanitize_deep, sanitize_fields}
pub use dg_cli.Decisions.Match.{ScannerAction, block, warn, pass, analysis_incomplete}
use dg_cli.Api.Errors.{Thrown, analyze_error, type_error, new_analyze_error, number_only}

abbrev pub action_text : ScannerAction → String
action_text block = "block"
action_text warn = "warn"
action_text pass = "pass"
action_text analysis_incomplete = "analysis_incomplete"

-- The object that the scanner's answer becomes. `packages` are objects, with any keys.
pub record AnalyzeResponse : Type 0 where
  pub score : Json
  pub action : ScannerAction
  pub packages : List Fields
  pub safe_versions : Json
  pub duration_ms : Json
  pub free_scans_remaining : Option Json
  pub usage : Option Json

unfoldable pub normalize_text : String → ScannerAction
normalize_text s =
    if s == "block"
    then block
    else if s == "warn"
    then warn
    else if s == "pass"
    then pass
    else analysis_incomplete

-- normalizeAction
unfoldable pub normalize_action : Option Json → ScannerAction
unfolding normalize_text
normalize_action (some (text s)) = normalize_text s
normalize_action _ = analysis_incomplete

abbrev index_fields : ℕ → Items → Fields
index_fields i nil = end
index_fields i (item value items) = field (show_nat i) value (index_fields (suc i) items)

abbrev character_fields : ℕ → String → Fields
character_fields i String.[] = end
character_fields i (String.◌∷◌ c s) =
    field (show_nat i) (text (String.◌∷◌ c "")) (character_fields (suc i) s)

-- { ...value }
unfoldable pub spread : Json → Fields
spread (object fields) = fields
spread (array items) = index_fields 0 items
spread (text s) = character_fields 0 s
spread _ = end

abbrev pub array_only : Option Json → Json
array_only (some (array items)) = array items
array_only _ = array nil

abbrev pub put_action : Fields → Option Json → Fields
put_action fields none = fields
put_action fields (some value) =
    put_field fields "action" (text (action_text (normalize_action (some value))))

-- value.key, where only an object of JSON has keys that the program reads
abbrev pub entry_field : Json → String → Option Json
entry_field (object fields) key = lookup key fields
entry_field _ key = none

-- What becomes of an entry of `packages`; an action that is undefined is no key.
unfoldable pub normalize_package : Json → Result Thrown Fields
unfolding spread put_field normalize_action
normalize_package null = err (type_error "Cannot read properties of null (reading 'action')")
normalize_package entry = ok (
    put_field
      (put_field (put_action (spread entry) (entry_field entry "action")) "findings"
        (array_only (entry_field entry "findings")))
      "reasons" (array_only (entry_field entry "reasons")))

unfoldable pub normalize_packages : Items → Result Thrown (List Fields)
unfolding normalize_package
normalize_packages nil = ok []
normalize_packages (item entry items) = normalize_package entry >>= λ fields.
    normalize_packages items >>= λ others. ok (fields ∷ others)

abbrev or_json : Option Json → Json → Json
or_json none default = default
or_json (some null) default = default
or_json (some value) default = value

abbrev value_or : Option Json → Json → Json
value_or none default = default
value_or (some value) default = value

abbrev invalid_shape : {A : Type 0} → Result Thrown A
invalid_shape = err (analyze_error (new_analyze_error "invalid scanner response shape" 0 none none))

module _ (strip : String → String) where
  abbrev pub clean_all : List Fields → List Fields
  clean_all [] = []
  clean_all (fields ∷ others) = sanitize_fields strip fields ∷ clean_all others

  abbrev clean_option : Option Json → Option Json
  clean_option none = none
  clean_option (some value) = some (sanitize_deep strip value)

  -- sanitizeResponse of what was built; it leaves the fixed keys and actions as they are.
  unfoldable pub build_response : Fields → Json → List Fields → AnalyzeResponse
  build_response fields score packages = record {
    score = score;
    action = normalize_action (lookup "action" fields);
    packages = clean_all packages;
    safe_versions = sanitize_deep strip (or_json (lookup "safeVersions" fields) (object end));
    duration_ms = value_or (number_only (lookup "durationMs" fields)) (number 0);
    free_scans_remaining = clean_option (lookup "freeScansRemaining" fields);
    usage = clean_option (lookup "usage" fields);
  }

  unfoldable pub from_parts : Fields → Option Json → Option Json → Result Thrown AnalyzeResponse
  unfolding build_response normalize_packages
  from_parts fields (some score) (some (array packages)) =
      normalize_packages packages >>= λ normal. ok (build_response fields score normal)
  from_parts fields _ _ = invalid_shape

  unfoldable pub normalize_analyze_response : Json → Result Thrown AnalyzeResponse
  unfolding from_parts
  normalize_analyze_response (object fields) =
      from_parts fields (number_only (lookup "score" fields)) (lookup "packages" fields)
  normalize_analyze_response _ = invalid_shape

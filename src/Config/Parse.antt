-- ===== src/Config/Parse.antt =====
-- The parsers of src/config/settings.ts for the texts of one key.
use dg_cli.Common.{
  ℕ, zero, suc, String, Bool, true, false, not, ◌&&◌, ◌||◌, Option, none, some, List, [], ◌∷◌, ◌==◌,
  string_Eq, nat_Eq, leb, trim, codes, is_digit, template, find, keep, map, if◌then◌else◌,
}
use Prim.Native.Char.{code}
use dg_cli.Common.Result.{Result, ok, err}
use dg_cli.Config.{
  PolicyMode, GitHookOnWarn, GitHookOnIncomplete, CooldownOnUnknown, ScriptGateMode,
}

-- What `new URL(text)` gives of an absolute URL; it throws for another text.
pub record Url : Type 0 where
  pub protocol : String
  pub hostname : String
  pub href : String

abbrev pub Parsed : Type 0 → Type 0
Parsed A = Result String A

unfoldable pub parse_policy_mode : String → Parsed PolicyMode
parse_policy_mode value =
    if value == "off"
    then ok PolicyMode.off
    else if value == "warn"
    then ok PolicyMode.warn
    else if value == "block"
    then ok PolicyMode.block
    else if value == "strict"
    then ok PolicyMode.strict
    else err "policy.mode must be one of: off, warn, block, strict"

unfoldable pub parse_script_gate_mode : String → Parsed ScriptGateMode
parse_script_gate_mode value =
    if value == "observe"
    then ok ScriptGateMode.observe
    else if value == "enforce"
    then ok ScriptGateMode.enforce
    else if value == "off"
    then ok ScriptGateMode.off
    else err "scriptGate.mode must be one of: observe, enforce, off"

unfoldable pub parse_on_warn : String → Parsed GitHookOnWarn
parse_on_warn value =
    if value == "prompt"
    then ok GitHookOnWarn.prompt
    else if value == "allow"
    then ok GitHookOnWarn.allow
    else if value == "block"
    then ok GitHookOnWarn.block
    else err "gitHook.onWarn must be one of: prompt, allow, block"

unfoldable pub parse_on_incomplete : String → Parsed GitHookOnIncomplete
parse_on_incomplete value =
    if value == "allow"
    then ok GitHookOnIncomplete.allow
    else if value == "block"
    then ok GitHookOnIncomplete.block
    else err "gitHook.onIncomplete must be one of: allow, block"

unfoldable pub parse_cooldown_on_unknown : String → Parsed CooldownOnUnknown
parse_cooldown_on_unknown value =
    if value == "allow"
    then ok CooldownOnUnknown.allow
    else if value == "block"
    then ok CooldownOnUnknown.block
    else err "cooldown.onUnknown must be one of: allow, block"

unfoldable pub parse_boolean : String → String → Parsed Bool
parse_boolean value field =
    if value == "true"
    then ok true
    else if value == "false"
    then ok false
    else err (template (field ∷ " must be true or false" ∷ []))

-- \d{0,most}(h|d)$
pub age_tail : ℕ → List ℕ → Bool
age_tail most [] = false
age_tail most (c ∷ []) = c == b'h' || c == b'd'
age_tail zero (c ∷ d ∷ cs) = false
age_tail (suc most) (c ∷ d ∷ cs) = is_digit c && age_tail most (d ∷ cs)

-- /^([1-9]\d{0,3})(h|d)$/
unfoldable pub is_cooldown_age : List ℕ → Bool
unfolding age_tail
is_cooldown_age [] = false
is_cooldown_age (c ∷ cs) = is_digit c && not (c == b'0') && age_tail 3 cs

unfoldable pub parse_cooldown_age : String → String → Bool → Parsed String
unfolding is_cooldown_age trim
parse_cooldown_age value field allow_empty =
    let trimmed = trim value in
    if trimmed == "" && allow_empty
    then ok ""
    else if trimmed == "0" || trimmed == "off"
    then ok "0"
    else if is_cooldown_age (codes trimmed)
    then ok trimmed
    else err (
        template (
          field
          ∷ " must be a duration like 24h or 7d, or 0 to disable"
          ∷ (if allow_empty then ", or empty to inherit cooldown.age" else "")
          ∷ []))

-- text.split(",")
unfoldable pub split_commas : String → List String
split_commas String.[] = "" ∷ []
split_commas (String.◌∷◌ c s) =
    let rest = split_commas s in if code c == b',' then "" ∷ rest else prepend rest
  where
    prepend : List String → List String
    prepend [] = []
    prepend (front ∷ more) = String.◌∷◌ c front ∷ more

-- parts.join(",")
join_commas : List String → String
join_commas [] = ""
join_commas (part ∷ []) = part
join_commas (part ∷ next ∷ parts) = template (part ∷ "," ∷ join_commas (next ∷ parts) ∷ [])

is_name_start : ℕ → Bool
is_name_start c =
    c == b'@' || is_digit c || (leb b'A' c && leb c b'Z') || (leb b'a' c && leb c b'z')

-- [@A-Za-z0-9._/-]*\*?$
exempt_tail : List ℕ → Bool
unfolding is_name_start
exempt_tail [] = true
exempt_tail (c ∷ []) =
    is_name_start c || c == b'.' || c == b'_' || c == b'/' || c == b'-' || c == b'*'
exempt_tail (c ∷ d ∷ cs) =
    (is_name_start c || c == b'.' || c == b'_' || c == b'/' || c == b'-') && exempt_tail (d ∷ cs)

exempt_entry : List ℕ → Bool
unfolding exempt_tail
exempt_entry [] = false
exempt_entry (c ∷ cs) = is_name_start c && exempt_tail cs

-- The first entry that is no name or pattern is named in the error.
checked_exempt : Option String → List String → Parsed String
unfolding join_commas
checked_exempt none entries = ok (join_commas entries)
checked_exempt (some entry) entries = err (
    template (
      "cooldown.exempt entry '" ∷ entry
      ∷ "' is not a valid package name or pattern (use names or globs like @org/*)" ∷ []))

unfoldable pub parse_cooldown_exempt : String → Parsed String
unfolding checked_exempt exempt_entry split_commas trim
parse_cooldown_exempt value =
    let entries = keep (λ entry. not (entry == "")) (map trim (split_commas value)) in
    checked_exempt (find (λ entry. not (exempt_entry (codes entry))) entries) entries

-- text.replace(/\/$/, "")
without_slash : String → String
without_slash String.[] = ""
without_slash (String.◌∷◌ c s) =
    let rest = without_slash s in if s == "" && code c == b'/' then "" else String.◌∷◌ c rest

checked_url : Option Url → Parsed String
unfolding without_slash
checked_url none = err "api.baseUrl must be an absolute URL"
checked_url (some url) =
    let localhost = url.hostname == "localhost" || url.hostname == "127.0.0.1" in
    if not (url.protocol == "https:") && not (url.protocol == "http:" && localhost)
    then err "api.baseUrl must use https, or http for localhost"
    else ok (without_slash url.href)

unfoldable pub parse_url : (String → Option Url) → String → Parsed String
unfolding checked_url trim
parse_url new_url value = checked_url (new_url (trim value))

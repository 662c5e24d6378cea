-- ===== src/Api/Errors.antt =====
-- src/api/analyze.ts: what a failed call of the scanner is reported as.
use dg_cli.Common.{
  ℕ, String, Bool, true, false, not, ◌&&◌, ◌||◌, leb, ◌==◌, nat_Eq, string_Eq, if◌then◌else◌,
  Option, none, some, get_or, either, template, show_nat, codes, List, [], ◌∷◌, map, ◌+◌,
}
use dg_cli.Common.Json.{Json, number, other_number, text, object, lookup}
use dg_cli.Security.Sanitize.{sanitize}

pub data AnalyzeErrorCode : Type 0 where
  quota_exceeded : AnalyzeErrorCode
  rate_limited : AnalyzeErrorCode
  auth : AnalyzeErrorCode
  server : AnalyzeErrorCode
  network : AnalyzeErrorCode
  timeout : AnalyzeErrorCode
  invalid_response : AnalyzeErrorCode

pub record AnalyzeError : Type 0 where
  pub message : String
  pub status_code : ℕ
  pub body : Option Json
  pub scans_used : Option Json
  pub scans_limit : Option Json
  pub error_code : AnalyzeErrorCode

-- body.key, where the body may be missing or no object
abbrev pub property : Option Json → String → Option Json
property (some (object fields)) key = lookup key fields
property _ key = none

abbrev pub is_text : Option Json → String → Bool
is_text (some (text s)) t = s == t
is_text _ t = false

-- typeof value === "number" ? value : undefined
abbrev pub number_only : Option Json → Option Json
number_only (some (number n)) = some (number n)
number_only (some (other_number s)) = some (other_number s)
number_only _ = none

abbrev pub is_defined {ℓ} : {A : Type ℓ} → Option A → Bool
is_defined none = false
is_defined (some _) = true

pub record QuotaFields : Type 0 where
  pub used : Option Json
  pub limit : Option Json

unfoldable pub quota_body_fields : Option Json → Option QuotaFields
quota_body_fields body =
    let used = number_only (property body "scansUsed") in
    let limit = number_only (property body "scansLimit") in
    let cap = number_only (property body "maxScans") in
    let quota_shaped =
      is_text (property body "code") "quota_exceeded"
      || is_text (property body "reason") "monthly_limit"
      || is_text (property body "reason") "prefix_cap"
      || is_defined used
      || is_defined limit
      || is_defined cap in
    if quota_shaped then some (record { used = used; limit = either limit cap }) else none

unfoldable pub classify_analyze_error : ℕ → Option Json → Bool → AnalyzeErrorCode
classify_analyze_error status body quota_shaped =
    if is_text (property body "code") "rate_limited"
    then rate_limited
    else if status == 402 || (quota_shaped && (status == 403 || status == 429))
    then quota_exceeded
    else if status == 429
    then rate_limited
    else if status == 401 || status == 403
    then auth
    else if status == 0
    then network
    else server

abbrev with_quota : Option QuotaFields → String → ℕ → Option Json → AnalyzeErrorCode → AnalyzeError
with_quota none message status body code = record {
  message = message;
  status_code = status;
  body = body;
  scans_used = none;
  scans_limit = none;
  error_code = code;
}
with_quota (some quota) message status body code = record {
  message = message;
  status_code = status;
  body = body;
  scans_used = quota.used;
  scans_limit = quota.limit;
  error_code = code;
}

-- new AnalyzeError(message, statusCode, body, code)
unfoldable pub new_analyze_error : String → ℕ → Option Json → Option AnalyzeErrorCode → AnalyzeError
unfolding quota_body_fields classify_analyze_error
new_analyze_error message status body code =
    let quota = quota_body_fields body in
    with_quota quota message status body
      (get_or code (classify_analyze_error status body (is_defined quota)))

abbrev pub text_only : Option Json → Option String
text_only (some (text s)) = some s
text_only _ = none

is_filled : Option String → Bool
is_filled none = false
is_filled (some s) = not (s == "")

is_quota : AnalyzeErrorCode → Bool
is_quota quota_exceeded = true
is_quota _ = false

is_rate : AnalyzeErrorCode → Bool
is_rate rate_limited = true
is_rate _ = false

abbrev mapped : (String → String) → Option String → Option String
mapped f none = none
mapped f (some s) = some (f s)

module _ (strip : String → String) where
  unfoldable pub analyze_error_from_response : ℕ → Option Json → AnalyzeError
  unfolding new_analyze_error is_filled is_quota is_rate
  analyze_error_from_response status body =
      let server_message = mapped (sanitize strip) (text_only (property body "error")) in
      let message = get_or server_message (template ("scanner returned " ∷ show_nat status ∷ [])) in
      let probe = new_analyze_error message status body none in
      if is_filled server_message
      then probe
      else if is_quota (probe.error_code)
      then new_analyze_error "scan limit reached" status body none
      else if is_rate (probe.error_code)
      then new_analyze_error "scanner rate limit reached — wait a moment and retry" status body none
      else probe

-- What a call can throw: an AnalyzeError, a TypeError, another Error by its name, or a value that is no
-- Error.
pub data Thrown : Type 0 where
  analyze_error : AnalyzeError → Thrown
  type_error : String → Thrown
  other_error : String → String → Thrown
  no_error : String → Thrown

-- kind, message, statusCode, scansUsed and scansLimit of a ScannerError; a kind beside the codes of an
-- AnalyzeError is "worker".
pub record ScannerError : Type 0 where
  pub kind : Option AnalyzeErrorCode
  pub message : String
  pub status_code : Option ℕ
  pub scans_used : Option Json
  pub scans_limit : Option Json

abbrev pub worker_error : String → ScannerError
worker_error message = record {
  kind = none;
  message = message;
  status_code = none;
  scans_used = none;
  scans_limit = none;
}

abbrev pub scanner_error_from_unknown : Thrown → ScannerError
scanner_error_from_unknown (analyze_error e) = record {
  kind = some (e.error_code);
  message = e.message;
  status_code = some (e.status_code);
  scans_used = e.scans_used;
  scans_limit = e.scans_limit;
}
scanner_error_from_unknown (type_error message) = worker_error message
scanner_error_from_unknown (other_error name message) = worker_error message
scanner_error_from_unknown (no_error shown) = worker_error shown

abbrev pub lower : ℕ → ℕ
lower c = if leb b'A' c && leb c b'Z' then c + 32 else c

-- Whether the second list stands at the front of the first.
abbrev pub is_front : List ℕ → List ℕ → Bool
is_front cs [] = true
is_front [] (d ∷ ds) = false
is_front (c ∷ cs) (d ∷ ds) = c == d && is_front cs ds

-- s.includes(t)
abbrev pub includes : List ℕ → List ℕ → Bool
includes [] ds = is_front [] ds
includes (c ∷ cs) ds = is_front (c ∷ cs) ds || includes cs ds

unfoldable pub is_network_failure : Thrown → Bool
is_network_failure (type_error message) =
    includes (map lower (codes message)) (codes "fetch failed")
is_network_failure (other_error name message) = name == "AbortError"
is_network_failure (analyze_error e) = false
is_network_failure (no_error shown) = false

unfoldable pub is_retryable_analyze_error : Thrown → Bool
unfolding is_network_failure
is_retryable_analyze_error (analyze_error e) = e.status_code == 0 || leb 500 (e.status_code)
is_retryable_analyze_error thrown = is_network_failure thrown

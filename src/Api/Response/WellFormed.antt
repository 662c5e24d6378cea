-- ===== src/Api/Response/WellFormed.antt =====
-- What src/api/analyze.ts keeps of an answer has the shape that its types say.
use dg_cli.Common.{◌≡◌, refl, String, Bool, true, All, Option, none, some, List, string_Eq, arith}
use dg_cli.Common.Result.{Result, ok, err, ◌>>=◌}
use dg_cli.Common.Json.{
  Json, null, boolean, number, other_number, text, array, object, Fields, lookup,
}
use dg_cli.Security.Sanitize.Plain.{LeavesPlain}
use dg_cli.Api.Errors.{Thrown, number_only}
use dg_cli.Api.Response.Package.{WellFormed, all_plain, packages-WellFormed}
use dg_cli.Api.Response.{
  AnalyzeResponse, normalize_packages, build_response, from_parts, normalize_analyze_response,
}

abbrev pub plain_packages : Option Json → Bool
plain_packages (some (array items)) = all_plain items
plain_packages _ = true

-- Each entry of `packages` is an object whose keys have no control character.
abbrev pub has_plain_packages : Json → Bool
has_plain_packages (object fields) = plain_packages (lookup "packages" fields)
has_plain_packages _ = true

abbrev pub IsNumber : Json → Type 0
IsNumber value = number_only (some value) ≡ some value

number_only-IsNumber :
    (o : Option Json) (value : Json) → number_only o ≡ some value → IsNumber value
number_only-IsNumber none value h = ground arith
number_only-IsNumber (some null) value h = ground arith
number_only-IsNumber (some (boolean b)) value h = ground arith
number_only-IsNumber (some (number n)) value h = let at : value ≡ number n = cc in rw at refl
number_only-IsNumber (some (other_number s)) value h =
    let at : value ≡ other_number s = cc in rw at refl
number_only-IsNumber (some (text s)) value h = ground arith
number_only-IsNumber (some (array items)) value h = ground arith
number_only-IsNumber (some (object fields)) value h = ground arith

abbrev pub IsWellFormed : AnalyzeResponse → Type 0
IsWellFormed response = IsNumber response.score × All WellFormed response.packages

module _ (strip : String → String) (plain : LeavesPlain strip) where
  built :
      (fields : Fields) (score : Json) (normal : Result Thrown (List Fields))
      (response : AnalyzeResponse)
      → (normal >>= λ packages. ok (build_response strip fields score packages)) ≡ ok response
      → (packages : List Fields) × ((normal ≡ ok packages)
          × (response ≡ build_response strip fields score packages))
  built fields score (err thrown) response h = ground arith
  built fields score (ok packages) response h = (packages, (refl, cc))

  parts-IsWellFormed :
      (fields : Fields) (score packages : Option Json) (response : AnalyzeResponse)
      → ((value : Json) → score ≡ some value → IsNumber value)
      → plain_packages packages ≡ true
      → from_parts strip fields score packages ≡ ok response
      → IsWellFormed response
  unfolding from_parts build_response
  parts-IsWellFormed fields (some score) (some (array items)) response is_number clean h =
      let (packages, (kept, is_built)) = built fields score (normalize_packages items) response h in
      rw is_built (is_number score refl, packages-WellFormed strip plain items packages clean kept)
  parts-IsWellFormed fields none packages response is_number clean h = ground arith
  parts-IsWellFormed fields (some score) none response is_number clean h = ground arith
  parts-IsWellFormed fields (some score) (some null) response is_number clean h = ground arith
  parts-IsWellFormed fields (some score) (some (boolean b)) response is_number clean h =
      ground arith
  parts-IsWellFormed fields (some score) (some (number n)) response is_number clean h = ground arith
  parts-IsWellFormed fields (some score) (some (other_number s)) response is_number clean h =
      ground arith
  parts-IsWellFormed fields (some score) (some (text s)) response is_number clean h = ground arith
  parts-IsWellFormed fields (some score) (some (object others)) response is_number clean h =
      ground arith

  -- What is kept of an answer has a number as its score, and each of its packages has no action or one
  -- of the four, and arrays of findings and reasons, whatever else the answer holds. The entries of the
  -- answer's `packages` are objects whose keys have no control character.
  pub normalize_analyze_response-IsWellFormed :
      (raw : Json) (response : AnalyzeResponse)
      → has_plain_packages raw ≡ true
      → normalize_analyze_response strip raw ≡ ok response
      → IsWellFormed response
  unfolding normalize_analyze_response
  normalize_analyze_response-IsWellFormed (object fields) response clean h =
      parts-IsWellFormed fields (number_only (lookup "score" fields)) (lookup "packages" fields)
        response (number_only-IsNumber (lookup "score" fields)) clean h
  normalize_analyze_response-IsWellFormed null response clean h = ground arith
  normalize_analyze_response-IsWellFormed (boolean b) response clean h = ground arith
  normalize_analyze_response-IsWellFormed (number n) response clean h = ground arith
  normalize_analyze_response-IsWellFormed (other_number s) response clean h = ground arith
  normalize_analyze_response-IsWellFormed (text s) response clean h = ground arith
  normalize_analyze_response-IsWellFormed (array items) response clean h = ground arith

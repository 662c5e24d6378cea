-- ===== src/Tests/Api.antt =====
-- The client of the scanner on concrete answers, with the theorems of Security and Api.
use dg_cli.Common.{
  ℕ, suc, ◌+◌, max, ◌≤◌, ◌≡◌, refl, ◌⊎◌, String, Bool, true, false, Option, none, some, List, [],
  ◌∷◌, map, length, ◌==◌, nat_Eq, string_Eq, if◌then◌else◌, trim, arith,
}
use dg_cli.Common.Result.{Result, ok, err}
use dg_cli.Common.Json.{Json, number, text, array, object, nil, item, end, field}
use dg_cli.Security.Sanitize.{sanitize_deep, sanitize, sanitize_line}
use dg_cli.Security.Sanitize.Clean.{is_clean, sanitize_deep-clean}
use dg_cli.Security.Sanitize.Plain.{is_clean_keys}
use dg_cli.Api.Errors.{
  Thrown, analyze_error, analyze_error_from_response, is_retryable_analyze_error,
}
use dg_cli.Api.Retry.{analyze_batch_with_retry}
use dg_cli.Api.Retry.Last.{Ends, analyze_batch_with_retry-last}
use dg_cli.Api.Response.{AnalyzeResponse, normalize_analyze_response, block}
use dg_cli.Api.Response.Package.{all_plain}
use dg_cli.Api.Response.WellFormed.{IsWellFormed, normalize_analyze_response-IsWellFormed}
use dg_cli.Api.Response.Merge.{merge_analyze_responses}
use dg_cli.Api.Response.Merge.Worst.{IsWorst, packages_of, merge-IsWorst}
use dg_cli.Api.Pool.Batches.{batches_of, concat}
use dg_cli.Api.Pool.Steps.{resume, run, start, outcome}
use dg_cli.Api.Pool.Ends.{AllGoing, pending, run-ends}
use dg_cli.Api.Scan.{analyze_packages, analyze_in_order, IsBatchError, analyze_packages-in_order}
use dg_cli.Api.Stream.{consume_analyze_stream}
use dg_cli.Api.Stream.Chunks.{consume-chunks}

-- Node's stripping, on texts without escape sequences.
abbrev strip : String → String
strip s = s

abbrev answer_json : Json
answer_json = object (
    field "score" (number 90) (
      field "action" (text "block") (
        field "packages"
          (array
            (item (object (field "name" (text "evil") (field "action" (text "deny") end))) nil))
          end)))

sanitize_deep-clean_example : is_clean (sanitize_deep strip answer_json) ≡ true
sanitize_deep-clean_example = sanitize_deep-clean strip answer_json

abbrev down : Thrown
down = analyze_error (analyze_error_from_response strip 503 none)

-- The first two calls fail with 503, the third is answered.
abbrev third_time : ℕ → Result Thrown String
third_time n = if n == 3 then ok "answer" else err down

abbrev never_aborted : ℕ → Bool
never_aborted n = false

analyze_batch_with_retry-last_example :
    (n : ℕ) × Ends third_time never_aborted 1 n (analyze_batch_with_retry third_time never_aborted)
analyze_batch_with_retry-last_example = analyze_batch_with_retry-last third_time never_aborted

retried :
    analyze_batch_with_retry third_time never_aborted ≡ record { result = ok "answer"; calls = 3 }
unfolding analyze_batch_with_retry analyze_error_from_response is_retryable_analyze_error
retried = refl

-- An action that the program does not know becomes analysis_incomplete.
abbrev kept : AnalyzeResponse
kept = record {
  score = number 90;
  action = block;
  packages =
      field "name" (text "evil") (
        field "action" (text "analysis_incomplete")
          (field "findings" (array nil) (field "reasons" (array nil) end)))
      ∷ [];
  safe_versions = object end;
  duration_ms = number 0;
  free_scans_remaining = none;
  usage = none;
}

normalize_analyze_response-IsWellFormed_example : IsWellFormed kept
unfolding normalize_analyze_response sanitize_deep sanitize sanitize_line is_clean_keys all_plain
normalize_analyze_response-IsWellFormed_example =
    normalize_analyze_response-IsWellFormed strip (λ s h. refl) answer_json kept refl refl

abbrev larger : Json → Json → Json
larger (number a) (number b) = number (max a b)
larger a b = b

abbrev sum : Json → Json → Json
sum (number a) (number b) = number (a + b)
sum a b = b

merge-IsWorst_example :
    ((merge_analyze_responses larger sum (kept ∷ kept ∷ [])).packages
      ≡ concat (map packages_of (kept ∷ kept ∷ [])))
    × IsWorst ((merge_analyze_responses larger sum (kept ∷ kept ∷ [])).action) (kept ∷ kept ∷ [])
merge-IsWorst_example = merge-IsWorst larger sum kept (kept ∷ [])

abbrev send : List ℕ → ℕ → Result Thrown AnalyzeResponse
send batch attempt = ok kept

abbrev always : List ℕ → ℕ → Bool
always batch attempt = false

analyze_packages-in_order_example :
    (ok kept ≡ analyze_in_order larger sum send always (7 ∷ 8 ∷ []))
    ⊎ IsBatchError larger sum send always (7 ∷ 8 ∷ []) (ok kept)
unfolding analyze_packages outcome run batches_of start analyze_batch_with_retry
    merge_analyze_responses
analyze_packages-in_order_example =
    analyze_packages-in_order larger sum send always 4 (0 ∷ 0 ∷ []) (7 ∷ 8 ∷ []) (ok kept) refl

-- Two workers and two batches, of which the second is answered first.
abbrev numbered : ℕ → Result Thrown ℕ
numbered i = ok i

abbrev crossed : List ℕ
crossed = 0 ∷ 1 ∷ 1 ∷ 0 ∷ []

run-ends_example :
    (length crossed ≤ 2 + 2)
    × (((w : ℕ) → suc w ≤ 2 → pending ((run numbered 2 2 crossed start).workers w) ≡ 0)
        → (result : Result Thrown (List (Option ℕ))) × (outcome 2 2 (run numbered 2 2 crossed start)
            ≡ some result))
unfolding AllGoing start resume
run-ends_example =
    run-ends numbered 2 2 crossed
      ((omega arith, refl, (omega arith, refl, (omega arith, refl, (omega arith, refl, tt)))))

ran : outcome 2 2 (run numbered 2 2 crossed start) ≡ some (ok (some 0 ∷ some 1 ∷ []))
unfolding run outcome start
ran = refl

-- One event, cut in the middle.
abbrev parse : String → Option Json
parse line =
    if line == "{\"type\":\"result\"}"
    then some (object (field "type" (text "result") (field "payload" answer_json end)))
    else none

abbrev show : Json → String
show json = "503"

consume-chunks_example :
    consume_analyze_stream strip parse show ("{\"type\":\"re" ∷ "sult\"}\n" ∷ [])
    ≡ consume_analyze_stream strip parse show ("{\"type\":\"result\"}\n" ∷ [])
consume-chunks_example =
    consume-chunks strip parse show ("{\"type\":\"re" ∷ "sult\"}\n" ∷ [])
      ("{\"type\":\"result\"}\n" ∷ []) refl

consumed : consume_analyze_stream strip parse show ("{\"type\":\"result\"}\n" ∷ []) ≡ ok kept
unfolding consume_analyze_stream normalize_analyze_response sanitize_deep sanitize sanitize_line
    trim
consumed = refl

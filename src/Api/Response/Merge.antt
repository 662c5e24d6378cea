-- ===== src/Api/Response/Merge.antt =====
-- src/api/analyze.ts: the answers to the batches of a scan become one. The larger of two numbers and
-- their sum are parameters, since a number of JSON need not be a natural one.
pub mod Worst
use dg_cli.Common.{
  ℕ, String, Bool, ltb, if◌then◌else◌, Option, none, some, either, List, [], ◌∷◌, ◌++◌,
}
use dg_cli.Common.Json.{
  Json, null, boolean, number, other_number, text, array, object, Fields, end, field, put_field,
}
use dg_cli.Api.Response.{
  ScannerAction, block, warn, pass, analysis_incomplete, AnalyzeResponse, spread,
}

-- rank[action]
abbrev pub rank : ScannerAction → ℕ
rank pass = 0
rank analysis_incomplete = 1
rank warn = 2
rank block = 3

abbrev pub worse : ScannerAction → ScannerAction → ScannerAction
worse merged next = if ltb (rank merged) (rank next) then next else merged

-- { ...fields, ...more }
unfoldable pub put_all : Fields → Fields → Fields
put_all fields end = fields
put_all fields (field key value more) = put_all (put_field fields key value) more

unfoldable pub empty_response : AnalyzeResponse
empty_response = record {
  score = number 0;
  action = pass;
  packages = [];
  safe_versions = object end;
  duration_ms = number 0;
  free_scans_remaining = none;
  usage = none;
}

module _ (larger sum : Json → Json → Json) where
  unfoldable pub merge_two : AnalyzeResponse → AnalyzeResponse → AnalyzeResponse
  unfolding put_all
  merge_two merged next = record {
    score = larger merged.score next.score;
    action = worse merged.action next.action;
    packages = merged.packages ++ next.packages;
    safe_versions =
        object (put_all (put_all end (spread merged.safe_versions)) (spread next.safe_versions));
    duration_ms = sum merged.duration_ms next.duration_ms;
    free_scans_remaining = either next.free_scans_remaining merged.free_scans_remaining;
    usage = either next.usage merged.usage;
  }

  -- responses.reduce(...), behind the first
  unfoldable pub merge_onto : AnalyzeResponse → List AnalyzeResponse → AnalyzeResponse
  unfolding merge_two
  merge_onto merged [] = merged
  merge_onto merged (next ∷ responses) = merge_onto (merge_two merged next) responses

  unfoldable pub merge_analyze_responses : List AnalyzeResponse → AnalyzeResponse
  unfolding merge_onto empty_response
  merge_analyze_responses [] = empty_response
  merge_analyze_responses (first ∷ responses) = merge_onto first responses

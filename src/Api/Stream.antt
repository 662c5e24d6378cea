-- ===== src/Api/Stream.antt =====
-- src/api/analyze.ts: the scanner's answer to a batch, sent as one event a line. `parse` is
-- `JSON.parse`, with an error as `none`, `show` is `String(value)`, and the chunks are the texts that
-- the decoder gives one after the other. The status code of an event is a natural number.
pub mod Lines
pub mod Chunks
use Prim.Native.Char.{code}
use Prim.Native.String
use dg_cli.Common.{
  ℕ, String, Bool, true, false, ◌||◌, ◌==◌, nat_Eq, string_Eq, if◌then◌else◌, Option, none, some,
  get_or, List, [], ◌∷◌, ◌++◌, trim, template,
}
use dg_cli.Common.Result.{Result, ok, err, ◌>>=◌}
use dg_cli.Common.Json.{Json, null, boolean, number, other_number, text, array, object}
use dg_cli.Security.Sanitize.{sanitize}
use dg_cli.Api.Errors.{
  Thrown, analyze_error, type_error, new_analyze_error, property, is_text, number_only,
}
use dg_cli.Api.Response.{AnalyzeResponse, normalize_analyze_response}

-- The lines of a text that have ended, and what stands behind the last newline.
pub record Split : Type 0 where
  pub lines : List String
  pub rest : String

abbrev pub longer : String → List String → String → Split
longer front [] rest = record { lines = []; rest = String.◌++◌ front rest }
longer front (line ∷ lines) rest = record { lines = String.◌++◌ front line ∷ lines; rest = rest }

-- while ((newline = buffer.indexOf("\n")) >= 0) { ... }
unfoldable pub split_lines : String → Split
split_lines String.[] = record { lines = []; rest = "" }
split_lines (String.◌∷◌ c s) =
    let later = split_lines s in
    if code c == 10
    then record { lines = "" ∷ later.lines; rest = later.rest }
    else longer (String.◌∷◌ c "") later.lines later.rest

-- What the stream has given: the numbers for `onBatchProgress`, and the last result.
pub record Received : Type 0 where
  pub progress : List Json
  pub result : Option AnalyzeResponse

abbrev report : Option Json → Received → Received
report (some done) received = record {
  progress = received.progress ++ done ∷ [];
  result = received.result;
}
report none received = received

module _ (strip : String → String) (parse : String → Option Json) (show : Json → String) where
  abbrev status_of : Option Json → ℕ
  status_of (some (number n)) = n
  status_of _ = 0

  abbrev event_message : Option Json → Option Json → String
  event_message (some (text s)) status = sanitize strip s
  event_message _ status = template ("scanner returned " ∷ show (or_500 status) ∷ [])
    where
      or_500 : Option Json → Json
      or_500 (some null) = number 500
      or_500 (some value) = value
      or_500 none = number 500

  abbrev keep_result : Received → Result Thrown AnalyzeResponse → Result Thrown Received
  keep_result received (ok response) =
      ok (record { progress = received.progress; result = some response })
  keep_result received (err thrown) = err thrown

  unfoldable pub handle_event : Json → Received → Result Thrown Received
  handle_event null received = err (type_error "Cannot read properties of null (reading 'type')")
  handle_event event received =
      let type = property (some event) "type" in
      let status = property (some event) "statusCode" in
      if is_text type "progress" || is_text type "cache_hit"
      then ok (report (number_only (property (some event) "done")) received)
      else if is_text type "error"
      then err (
          analyze_error (
            new_analyze_error (event_message (property (some event) "error") status)
              (status_of status) (some event) none))
      else if is_text type "result"
      then keep_result received
          (normalize_analyze_response strip (get_or (property (some event) "payload") null))
      else ok received

  abbrev handle_parsed : Option Json → Received → Result Thrown Received
  handle_parsed none received = ok received
  handle_parsed (some event) received = handle_event event received

  unfoldable pub handle_line : String → Received → Result Thrown Received
  unfolding handle_event
  handle_line line received =
      if line == "" then ok received else handle_parsed (parse line) received

  unfoldable pub handle_lines : List String → Received → Result Thrown Received
  unfolding handle_line
  handle_lines [] received = ok received
  handle_lines (line ∷ lines) received =
      handle_line (trim line) received >>= λ next. handle_lines lines next

  -- The chunks that the reader gives, with the text that waits for its newline; the last line need not
  -- have one.
  unfoldable pub read_chunks : List String → String → Received → Result Thrown Received
  unfolding split_lines handle_lines
  read_chunks [] buffer received = handle_line (trim buffer) received
  read_chunks (chunk ∷ chunks) buffer received =
      let split = split_lines (String.◌++◌ buffer chunk) in
      handle_lines split.lines received >>= λ next. read_chunks chunks split.rest next

  abbrev result_of : Option AnalyzeResponse → Result Thrown AnalyzeResponse
  result_of none =
      err (analyze_error (new_analyze_error "scanner stream ended without a result" 0 none none))
  result_of (some response) = ok response

  unfoldable pub consume_analyze_stream : List String → Result Thrown AnalyzeResponse
  unfolding read_chunks
  consume_analyze_stream chunks =
      read_chunks chunks "" (record { progress = []; result = none }) >>= λ received.
      result_of received.result

-- ===== src/Api/Retry.antt =====
-- src/api/analyze.ts: a batch is sent again when the scanner could not be reached or failed. What the
-- n-th call of the scanner gives, and whether the caller has aborted by then, are parameters.
pub mod Last
use dg_cli.Common.{
  ℕ, zero, suc, ◌-◌, Bool, true, false, not, ◌||◌, ◌==◌, nat_Eq, if◌then◌else◌, none,
}
use dg_cli.Common.Result.{Result, ok, err}
use dg_cli.Api.Errors.{
  Thrown, analyze_error, no_error, new_analyze_error, is_network_failure,
  is_retryable_analyze_error,
}

abbrev pub max_batch_attempts : ℕ
max_batch_attempts = 3

-- How a batch ended, and how many calls it took.
pub record Sent (R : Type 0) : Type 0 where
  pub result : Result Thrown R
  pub calls : ℕ

abbrev is_analyze_error : Thrown → Bool
is_analyze_error (analyze_error e) = true
is_analyze_error _ = false

-- What is thrown behind the loop.
unfoldable pub final_error : Bool → Thrown → Thrown
final_error aborted last_error =
    if aborted || is_analyze_error last_error
    then last_error
    else if is_network_failure last_error
    then analyze_error (
        new_analyze_error "could not reach the scanner — check your connection and try again" 0 none
          none)
    else last_error

module _ {R : Type 0} where
  -- The body of the loop behind the call, with the rest of the loop.
  unfoldable pub after_attempt : Result Thrown R → Bool → ℕ → Sent R → Sent R
  unfolding final_error
  after_attempt (ok response) aborted attempt rest = record {
    result = ok response;
    calls = attempt;
  }
  after_attempt (err thrown) aborted attempt rest =
      if aborted || attempt == max_batch_attempts || not (is_retryable_analyze_error thrown)
      then record { result = err (final_error aborted thrown); calls = attempt }
      else rest

  module _ (answer : ℕ → Result Thrown R) (aborted : ℕ → Bool) where
    -- The attempts from the given one on; without any left the last error was never set.
    unfoldable pub attempts : ℕ → ℕ → Sent R
    unfolding after_attempt
    attempts zero attempt = record { result = err (no_error "undefined"); calls = attempt - 1 }
    attempts (suc left) attempt =
        after_attempt (answer attempt) (aborted attempt) attempt (attempts left (suc attempt))

    unfoldable pub analyze_batch_with_retry : Sent R
    unfolding attempts
    analyze_batch_with_retry = attempts max_batch_attempts 1

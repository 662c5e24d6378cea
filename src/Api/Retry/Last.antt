-- ===== src/Api/Retry/Last.antt =====
-- Which call decides how a batch ends, in src/api/analyze.ts.
use dg_cli.Common.{
  ℕ, zero, suc, ◌+◌, ◌≤◌, ◌<◌, ◌≡◌, refl, ◌⊎◌, ltb, none, map, codes, string_Eq, if◌then◌else◌, inl,
  inr, Bool, true, false, not, ◌&&◌, ◌==◌, nat_Eq, nat_eq_iff, Bool-cases, and-true, arith, subst,
  sym, ◌∙◌,
}
use dg_cli.Common.Result.{Result, ok, err}
use dg_cli.Api.Errors.{
  Thrown, analyze_error, type_error, other_error, no_error, network, is_retryable_analyze_error,
  is_network_failure, includes, lower, new_analyze_error, quota_body_fields, classify_analyze_error,
}
use dg_cli.Api.Retry.{
  Sent, final_error, after_attempt, attempts, analyze_batch_with_retry, max_batch_attempts,
}

-- A failure that another attempt may not meet: no connection, an aborted call, or an answer with the
-- status 0 or from 500 on.
abbrev pub is_passing_error : Thrown → Bool
is_passing_error (analyze_error e) = not (ltb 0 e.status_code && ltb e.status_code 500)
is_passing_error (type_error message) = includes (map lower (codes message)) (codes "fetch failed")
is_passing_error (other_error name message) = name == "AbortError"
is_passing_error (no_error shown) = false

-- What stands for a scanner that was not reached.
abbrev pub unreached : Thrown
unreached = analyze_error (record {
  message = "could not reach the scanner — check your connection and try again";
  status_code = 0;
  body = none;
  scans_used = none;
  scans_limit = none;
  error_code = network;
})

-- The error that is reported: without an abort of the caller, a missing connection and an aborted call
-- are reported as a scanner that was not reached; any other error is thrown as it is.
abbrev pub reported_error : Thrown → Bool → Thrown
reported_error thrown true = thrown
reported_error (analyze_error e) false = analyze_error e
reported_error (type_error message) false =
    if includes (map lower (codes message)) (codes "fetch failed")
    then unreached
    else type_error message
reported_error (other_error name message) false =
    if name == "AbortError" then unreached else other_error name message
reported_error (no_error shown) false = no_error shown

retryable-passing : (thrown : Thrown) → is_retryable_analyze_error thrown ≡ is_passing_error thrown
unfolding is_retryable_analyze_error is_network_failure
retryable-passing (analyze_error e) = ground arith
retryable-passing (type_error message) = refl
retryable-passing (other_error name message) = refl
retryable-passing (no_error shown) = refl

final-reported :
    (aborted : Bool) (thrown : Thrown) → final_error aborted thrown ≡ reported_error thrown aborted
unfolding final_error is_network_failure new_analyze_error quota_body_fields classify_analyze_error
final-reported true thrown = refl
final-reported false (analyze_error e) = refl
final-reported false (type_error message) = refl
final-reported false (other_error name message) = refl
final-reported false (no_error shown) = refl

module _ {R : Type 0} where
  -- Whether an answer leaves room for another attempt.
  abbrev pub is_passing : Result Thrown R → Bool → Bool
  is_passing (ok response) aborted = false
  is_passing (err thrown) aborted = is_passing_error thrown && not aborted

  -- What the caller of a batch gets when an answer is the last.
  abbrev pub reported : Result Thrown R → Bool → Result Thrown R
  reported (ok response) aborted = ok response
  reported (err thrown) aborted = err (reported_error thrown aborted)

  after_attempt-last :
      (answer : Result Thrown R) (aborted : Bool) (attempt : ℕ) (rest : Sent R)
      → (is_passing answer aborted && not (attempt == max_batch_attempts)) ≡ false
      → after_attempt answer aborted attempt rest
        ≡ record { result = reported answer aborted; calls = attempt }
  unfolding after_attempt
  after_attempt-last (ok response) aborted attempt rest h = refl
  after_attempt-last (err thrown) aborted attempt rest h =
      rw (← final-reported aborted thrown) (ground (arith, retryable-passing thrown))

  after_attempt-passing :
      (answer : Result Thrown R) (aborted : Bool) (attempt : ℕ) (rest : Sent R)
      → (is_passing answer aborted && not (attempt == max_batch_attempts)) ≡ true
      → after_attempt answer aborted attempt rest ≡ rest
  unfolding after_attempt
  after_attempt-passing (ok response) aborted attempt rest h = ground arith
  after_attempt-passing (err thrown) aborted attempt rest h =
      ground (arith, retryable-passing thrown)

module _ {R : Type 0} (answer : ℕ → Result Thrown R) (aborted : ℕ → Bool) where
  -- Every attempt from `first` on and before `last` failed in a way that is tried again.
  abbrev pub AllPassing : ℕ → ℕ → Type 0
  AllPassing first last = (k : ℕ) → first ≤ k → k < last → is_passing (answer k) (aborted k) ≡ true

  abbrev pub IsLast : ℕ → Type 0
  IsLast n = (n ≡ max_batch_attempts) ⊎ (is_passing (answer n) (aborted n) ≡ false)

  abbrev pub Ends : ℕ → ℕ → Sent R → Type 0
  Ends first n sent =
      (first ≤ n)
      × (n ≤ max_batch_attempts)
      × AllPassing first n
      × IsLast n
      × (sent ≡ record { result = reported (answer n) (aborted n); calls = n })

  passes-between :
      (first n : ℕ)
      → is_passing (answer first) (aborted first) ≡ true
      → AllPassing (suc first) n
      → AllPassing first n
  passes-between first n here later k low high = elim (Bool-cases (k == first)) [
    | inl e ↦
        subst (λ j. is_passing (answer j) (aborted j) ≡ true) (sym ((nat_eq_iff k first).0 e)) here
    | inr e ↦ later k (ground arith) high
  ]

  ends-here :
      (n : ℕ)
      → (is_passing (answer n) (aborted n) && not (n == max_batch_attempts)) ≡ false
      → IsLast n
  ends-here n off = elim (Bool-cases (is_passing (answer n) (aborted n))) [
    | inl e ↦ inl (ground arith)
    | inr e ↦ inr e
  ]

  attempts-last :
      (left first : ℕ)
      → first + left ≡ suc max_batch_attempts
      → 1 ≤ left
      → (n : ℕ) × Ends first n (attempts answer aborted left first)
  unfolding attempts
  attempts-last zero first h g = ground arith
  attempts-last (suc left) first h g =
      let goes_on =
        is_passing (answer first) (aborted first) && not (first == max_batch_attempts) in
      elim (Bool-cases goes_on) [
        | inl on ↦
            let (passing, not_last) = and-true (is_passing (answer first) (aborted first)) _ on in
            let (n, (low, high, passed, last, sent)) =
              attempts-last left (suc first) (omega arith) (ground arith) in
            let onward =
              after_attempt-passing (answer first) (aborted first) first
                (attempts answer aborted left (suc first)) on in
            (n, (omega arith, high, passes-between first n passing passed, last, onward ∙ sent))
        | inr off ↦ (
          first,
          (
            omega arith,
            omega arith,
            (λ k low high. ground arith),
            ends-here first off,
            after_attempt-last (answer first) (aborted first) first _ off,
          ),
        )
      ]

  -- A batch is sent at most three times. Each call before the last one failed without a connection, by
  -- an abort of the call or with the status 0 or from 500 on, while the caller had not aborted; the last
  -- one is the third or did not fail in this way. The caller gets what the last one gave: an error as it
  -- is where the caller has aborted, and else a missing connection and an aborted call as an
  -- AnalyzeError of the kind network with the status 0, any other error as it is.
  pub analyze_batch_with_retry-last : (n : ℕ) × Ends 1 n (analyze_batch_with_retry answer aborted)
  unfolding analyze_batch_with_retry
  analyze_batch_with_retry-last = attempts-last max_batch_attempts 1 (omega arith) (omega arith)

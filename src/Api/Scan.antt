-- ===== src/Api/Scan.antt =====
-- src/api/analyze.ts: `analyzePackages`, from the packages to the one answer for them. What a call of
-- the scanner gives for a batch, by the number of the attempt, is a parameter, and so is whether the
-- caller has aborted by then.
use dg_cli.Common.{
  ℕ, suc, ◌≤◌, ◌≡◌, refl, subst, ap, ◌⊎◌, inl, inr, Bool, Option, none, some, List, [], ◌∷◌, map,
  length, get_elem_or, arith,
}
use dg_cli.Common.Result.{Result, ok, err, ◌>>=◌}
use dg_cli.Common.Json.{Json}
use dg_cli.Api.Errors.{Thrown}
use dg_cli.Api.Response.{AnalyzeResponse}
use dg_cli.Api.Response.Merge.{merge_analyze_responses}
use dg_cli.Api.Retry.{analyze_batch_with_retry}
use dg_cli.Api.Pool.Batches.{batches_of}
use dg_cli.Api.Pool.Steps.{start, run, outcome, worker_count}
use dg_cli.Api.Pool.Settled.{one_by_one, Settled, run-refines}

-- What `reduce` sees of an array: no holes.
unfoldable pub present : {A : Type 0} → List (Option A) → List A
present [] = []
present (none ∷ xs) = present xs
present (some x ∷ xs) = x ∷ present xs

present-some : {A : Type 0} (xs : List A) → present (map some xs) ≡ xs
unfolding present
present-some [] = refl
present-some (x ∷ xs) = ap (λ ys. x ∷ ys) (present-some xs)

module _ (larger sum : Json → Json → Json) where
  abbrev merged :
      Option (Result Thrown (List (Option AnalyzeResponse)))
      → Option (Result Thrown AnalyzeResponse)
  merged none = none
  merged (some (err thrown)) = some (err thrown)
  merged (some (ok responses)) = some (ok (merge_analyze_responses larger sum (present responses)))

  module _ {A : Type 0} (send : List A → ℕ → Result Thrown AnalyzeResponse)
      (aborted : List A → ℕ → Bool) where
    abbrev pub batch_answer : List A → Result Thrown AnalyzeResponse
    batch_answer batch = (analyze_batch_with_retry (send batch) (aborted batch)).result

    abbrev pub answer_at : List A → ℕ → Result Thrown AnalyzeResponse
    answer_at packages i = batch_answer (get_elem_or (batches_of packages) i [])

    -- What has come of the scan after the steps of a schedule; `none` while it goes on.
    unfoldable pub analyze_packages : ℕ → List ℕ → List A → Option (Result Thrown AnalyzeResponse)
    unfolding present
    analyze_packages concurrency schedule packages =
        let count = length (batches_of packages) in
        let workers = worker_count concurrency count in
        merged (outcome workers count (run (answer_at packages) count workers schedule start))

    -- The same without any concurrency.
    pub analyze_in_order : List A → Result Thrown AnalyzeResponse
    analyze_in_order packages =
        one_by_one (answer_at packages) (length (batches_of packages)) >>= λ responses.
        ok (merge_analyze_responses larger sum responses)

    -- The error of one of the batches.
    abbrev pub IsBatchError : List A → Result Thrown AnalyzeResponse → Type 0
    IsBatchError packages result =
        (e : Thrown) × ((i : ℕ) × ((suc i ≤ length (batches_of packages))
            × ((answer_at packages i ≡ err e) × (result ≡ err e))))

    merged-cases :
        (packages : List A) (o : Option (Result Thrown (List (Option AnalyzeResponse))))
        (sent : List ℕ) (total : ℕ) (result : Result Thrown AnalyzeResponse)
        → ((r : Result Thrown (List (Option AnalyzeResponse)))
            → o ≡ some r
            → Settled (answer_at packages) (length (batches_of packages)) total r sent)
        → merged o ≡ some result
        → (result ≡ analyze_in_order packages) ⊎ IsBatchError packages result
    unfolding analyze_in_order
    merged-cases packages none sent total result h g = ground arith
    merged-cases packages (some r) sent total result h g = elim (h r refl) [
      | inl (rs, (in_order, (got, once))) ↦
          let seen : some (ok (merge_analyze_responses larger sum (present (map some rs))))
              ≡ some result =
            subst (λ r. merged (some r) ≡ some result) got g in
          let given : result ≡ ok (merge_analyze_responses larger sum (present (map some rs))) =
            cc in
          inl (rw (in_order, given, present-some rs) refl)
      | inr (e, (i, (low, (answered, got)))) ↦
          let seen : some (err e) ≡ some result =
            subst (λ r. merged (some r) ≡ some result) got g in
          let given : result ≡ err e = cc in inr (e, (i, (low, (answered, given))))
    ]

    -- A scan that has ended gave what scanning one batch after the other gives, or the error of one of
    -- the batches, whatever the order in which the answers arrived and with any number of workers.
    pub analyze_packages-in_order :
        (concurrency : ℕ) (schedule : List ℕ) (packages : List A)
        (result : Result Thrown AnalyzeResponse)
        → analyze_packages concurrency schedule packages ≡ some result
        → (result ≡ analyze_in_order packages) ⊎ IsBatchError packages result
    unfolding analyze_packages
    analyze_packages-in_order concurrency schedule packages result h =
        let count = length (batches_of packages) in
        let workers = worker_count concurrency count in
        let done = run (answer_at packages) count workers schedule start in
        merged-cases packages (outcome workers count done) done.sent workers result
          (λ r g. run-refines (answer_at packages) count workers schedule r (omega arith) g) h

-- ===== src/Api/Pool/Steps.antt =====
-- The workers that send the batches, src/api/analyze.ts.
use dg_cli.Common.{
  ℕ, suc, min, max, Bool, true, false, ◌&&◌, ltb, ◌==◌, nat_Eq, if◌then◌else◌, Option, none, some,
  List, [], ◌∷◌, ◌++◌, zero,
}
use dg_cli.Common.Result.{Result, ok, err}
use dg_cli.Api.Errors.{Thrown}

-- A worker has not run yet, waits for the answer to a batch, has returned or has thrown.
pub data Worker : Type 0 where
  ready : Worker
  working : ℕ → Worker
  stopped : Worker
  failed : Worker

-- `responses` is the array with its holes, `sent` the batches in the order they were sent, and
-- `rejected` what the first worker threw that did.
pub record Pool (R : Type 0) : Type 0 where
  pub cursor : ℕ
  pub workers : ℕ → Worker
  pub responses : ℕ → Option R
  pub finished : ℕ
  pub sent : List ℕ
  pub rejected : Option Thrown

-- array[i] = x
abbrev pub updated : {A : Type 0} → (ℕ → A) → ℕ → A → ℕ → A
updated f i x j = if j == i then x else f j

-- Math.min(BATCH_CONCURRENCY, Math.max(1, batches.length))
abbrev pub worker_count : ℕ → ℕ → ℕ
worker_count concurrency count = min (max 1 concurrency) (max 1 count)

abbrev pub first_thrown : Option Thrown → Thrown → Option Thrown
first_thrown none thrown = some thrown
first_thrown (some earlier) thrown = some earlier

abbrev pub is_stopped : Worker → Bool
is_stopped stopped = true
is_stopped _ = false

-- Whether all of the first workers have returned.
unfoldable pub all_stopped : ℕ → (ℕ → Worker) → Bool
all_stopped zero workers = true
all_stopped (suc total) workers = is_stopped (workers total) && all_stopped total workers

module _ {R : Type 0} where
  unfoldable pub start : Pool R
  start = record {
    cursor = 0;
    workers = λ w. ready;
    responses = λ i. none;
    finished = 0;
    sent = [];
    rejected = none;
  }

  module _ (answer : ℕ → Result Thrown R) (count : ℕ) where
    -- i = cursor++, and the batch is sent or the loop ends.
    unfoldable pub take_next : ℕ → Pool R → Pool R
    take_next w pool =
        if ltb pool.cursor count
        then record {
          cursor = suc pool.cursor;
          workers = updated pool.workers w (working pool.cursor);
          responses = pool.responses;
          finished = pool.finished;
          sent = pool.sent ++ pool.cursor ∷ [];
          rejected = pool.rejected;
        }
        else record {
          cursor = suc pool.cursor;
          workers = updated pool.workers w stopped;
          responses = pool.responses;
          finished = pool.finished;
          sent = pool.sent;
          rejected = pool.rejected;
        }

    -- responses[i] = response
    abbrev pub store : ℕ → R → Pool R → Pool R
    store i response pool = record {
      cursor = pool.cursor;
      workers = pool.workers;
      responses = updated pool.responses i (some response);
      finished = suc pool.finished;
      sent = pool.sent;
      rejected = pool.rejected;
    }

    abbrev pub fail : ℕ → Thrown → Pool R → Pool R
    fail w thrown pool = record {
      cursor = pool.cursor;
      workers = updated pool.workers w failed;
      responses = pool.responses;
      finished = pool.finished;
      sent = pool.sent;
      rejected = first_thrown pool.rejected thrown;
    }

    unfoldable pub receive : ℕ → ℕ → Result Thrown R → Pool R → Pool R
    unfolding take_next
    receive w i (ok response) pool = take_next w (store i response pool)
    receive w i (err thrown) pool = fail w thrown pool

    unfoldable pub resume_as : Worker → ℕ → Pool R → Pool R
    unfolding take_next receive
    resume_as ready w pool = take_next w pool
    resume_as (working i) w pool = receive w i (answer i) pool
    resume_as stopped w pool = pool
    resume_as failed w pool = pool

    -- One worker goes on from its await to the next, or to its end.
    unfoldable pub resume : ℕ → Pool R → Pool R
    unfolding resume_as
    resume w pool = resume_as (pool.workers w) w pool

    -- A schedule: which worker goes on, step by step. What it names beyond the workers is no step.
    unfoldable pub run : ℕ → List ℕ → Pool R → Pool R
    unfolding resume
    run total [] pool = pool
    run total (w ∷ schedule) pool = run total schedule (if ltb w total then resume w pool else pool)

  -- The first responses of the array.
  unfoldable pub collect : ℕ → (ℕ → Option R) → List (Option R)
  collect zero responses = []
  collect (suc count) responses = collect count responses ++ responses count ∷ []

  abbrev pub settled :
      Option Thrown → Bool → List (Option R) → Option (Result Thrown (List (Option R)))
  settled (some thrown) stopped_all all = some (err thrown)
  settled none true all = some (ok all)
  settled none false all = none

  -- What `Promise.all` has given, once it has.
  unfoldable pub outcome : ℕ → ℕ → Pool R → Option (Result Thrown (List (Option R)))
  unfolding all_stopped collect
  outcome total count pool =
      settled pool.rejected (all_stopped total pool.workers) (collect count pool.responses)

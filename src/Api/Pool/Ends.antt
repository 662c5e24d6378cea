-- ===== src/Api/Pool/Ends.antt =====
-- The pool of workers of src/api/analyze.ts comes to an end.
use dg_cli.Common.{
  ℕ, zero, suc, ◌+◌, ◌-◌, ◌≤◌, ◌<◌, ◌≡◌, refl, sym, ◌⊎◌, inl, inr, true, false, ◌&&◌, ltb, ◌==◌,
  nat_Eq, nat_eq_iff, Bool-cases, Option-cases, Option, some, List, [], ◌∷◌, length, arith,
}
use dg_cli.Common.Result.{Result, ok, err}
use dg_cli.Api.Errors.{Thrown}
use dg_cli.Api.Pool.Sound.{nobody, Sound, start-Sound, run-Sound}
use dg_cli.Api.Pool.Steps.{
  Worker, ready, working, stopped, failed, Pool, updated, start, take_next, store, receive,
  resume_as, resume, run, is_stopped, all_stopped, collect, outcome,
}

-- 1 for a worker that can go on.
abbrev pub pending : Worker → ℕ
pending ready = 1
pending (working i) = 1
pending stopped = 0
pending failed = 0

pending_all : ℕ → (ℕ → Worker) → ℕ
pending_all zero workers = 0
pending_all (suc total) workers = pending (workers total) + pending_all total workers

pending_all-beyond :
    (total : ℕ) (workers : ℕ → Worker) (w : ℕ) (x : Worker)
    → total ≤ w
    → pending_all total (updated workers w x) ≡ pending_all total workers
unfolding pending_all
pending_all-beyond zero workers w x h = refl
pending_all-beyond (suc total) workers w x h =
    let apart : (total == w) ≡ false = ground arith in
    rw (apart, pending_all-beyond total workers w x (omega arith)) refl

-- What one worker changes.
pending_all-updated :
    (total : ℕ) (workers : ℕ → Worker) (w : ℕ) (x : Worker)
    → w < total
    → pending_all total (updated workers w x) + pending (workers w)
      ≡ pending_all total workers + pending x
unfolding pending_all
pending_all-updated zero workers w x h = ground arith
pending_all-updated (suc total) workers w x h = elim (Bool-cases (total == w)) [
  | inl e ↦
      let at : w ≡ total = sym ((nat_eq_iff total w).0 e) in
      (rw (e, pending_all-beyond total workers w x (omega arith), at) (omega arith))
  | inr e ↦ (rw e (omega (arith, pending_all-updated total workers w x (ground arith))))
]

module _ {R : Type 0} (answer : ℕ → Result Thrown R) (count total : ℕ) where
  -- How many steps are left.
  left : Pool R → ℕ
  left pool = pending_all total pool.workers + (count - pool.cursor)

  take_next-left :
      (w : ℕ) (pool : Pool R)
      → w < total
      → pending (pool.workers w) ≡ 1
      → suc (left (take_next answer count w pool)) ≡ left pool
  unfolding left take_next
  take_next-left w pool inside goes = elim (Bool-cases (ltb pool.cursor count)) [
    | inl e ↦
        let more : pool.cursor < count = ground arith in
        (rw e
          (omega (arith, pending_all-updated total pool.workers w (working pool.cursor) inside)))
    | inr e ↦
        let over : count ≤ pool.cursor = ground arith in
        (rw e (omega (arith, pending_all-updated total pool.workers w stopped inside)))
  ]

  receive-left :
      (w i : ℕ) (r : Result Thrown R) (pool : Pool R)
      → w < total
      → pending (pool.workers w) ≡ 1
      → suc (left (receive answer count w i r pool)) ≡ left pool
  unfolding left receive
  receive-left w i (ok response) pool inside goes =
      take_next-left w (store answer count i response pool) inside goes
  receive-left w i (err thrown) pool inside goes =
      omega (arith, pending_all-updated total pool.workers w failed inside)

  resume-left :
      (w : ℕ) (pool : Pool R)
      → w < total
      → pending (pool.workers w) ≡ 1
      → suc (left (resume answer count w pool)) ≡ left pool
  unfolding resume resume_as
  resume-left w pool inside goes = as_seen (pool.workers w) goes
    where
      as_seen :
          (x : Worker) → pending x ≡ 1 → suc (left (resume_as answer count x w pool)) ≡ left pool
      as_seen ready h = take_next-left w pool inside goes
      as_seen (working i) h = receive-left w i (answer i) pool inside goes
      as_seen stopped h = ground arith
      as_seen failed h = ground arith

  -- Each step is one of a worker that can go on.
  unfoldable pub AllGoing : List ℕ → Pool R → Type 0
  AllGoing [] pool = Unit
  AllGoing (w ∷ schedule) pool =
      (w < total) × (pending (pool.workers w) ≡ 1) × AllGoing schedule (resume answer count w pool)

  run-left :
      (schedule : List ℕ) (pool : Pool R)
      → AllGoing schedule pool
      → length schedule + left (run answer count total schedule pool) ≡ left pool
  unfolding AllGoing run
  run-left [] pool going = omega arith
  run-left (w ∷ schedule) pool (inside, goes, going) =
      let e : ltb w total ≡ true = ground arith in
      rw e (
        omega (
          arith,
          run-left schedule (resume answer count w pool) going,
          resume-left w pool inside goes,
        ))

  start-left : left start ≡ total + count
  unfolding left start pending_all
  start-left = omega (arith, all_ready total)
    where
      all_ready : (k : ℕ) → pending_all k (λ w. ready) ≡ k
      all_ready zero = refl
      all_ready (suc k) = omega (arith, all_ready k)

  -- Of workers that have all ended either all have returned, or one has thrown.
  all_stopped-or_failed :
      (k : ℕ) (workers : ℕ → Worker)
      → ((w : ℕ) → w < k → pending (workers w) ≡ 0)
      → (all_stopped k workers ≡ true) ⊎ ((w : ℕ) × (workers w ≡ failed))
  unfolding all_stopped
  all_stopped-or_failed zero workers over = inl refl
  all_stopped-or_failed (suc k) workers over =
      elim (all_stopped-or_failed k workers (λ w low. over w (omega arith))) [
        | inr thrown ↦ inr thrown
        | inl all ↦ last (workers k) refl (over k (omega arith)) all
      ]
    where
      last :
          (x : Worker)
          → workers k ≡ x
          → pending x ≡ 0
          → all_stopped k workers ≡ true
          → ((is_stopped (workers k) && all_stopped k workers) ≡ true)
            ⊎ ((w : ℕ) × (workers w ≡ failed))
      last ready e h all = ground arith
      last (working i) e h all = ground arith
      last stopped e h all = inl (rw (e, all) refl)
      last failed e h all = inr (k, e)

  settled-over :
      (pool : Pool R)
      → Sound answer count total nobody pool
      → ((w : ℕ) → w < total → pending (pool.workers w) ≡ 0)
      → (result : Result Thrown (List (Option R))) × (outcome total count pool ≡ some result)
  unfolding outcome
  settled-over pool sound over = elim (Option-cases pool.rejected) [
    | inr (e, thrown) ↦ (err e, rw thrown refl)
    | inl calm ↦ elim (all_stopped-or_failed total pool.workers over) [
      | inl all ↦ (ok (collect count pool.responses), rw (calm, all) refl)
      | inr (w, h) ↦ let (e, thrown) = sound.known w refl h in (err e, rw thrown refl)
    ]
  ]

  -- A scan ends: with n workers and m batches no more than n + m steps can be taken, in whatever order
  -- the workers go on; and once no worker can go on, the scan has settled.
  pub run-ends :
      (schedule : List ℕ)
      → AllGoing schedule start
      → (length schedule ≤ total + count)
        × (((w : ℕ) → w < total → pending ((run answer count total schedule start).workers w) ≡ 0)
            → (result : Result Thrown (List (Option R))) × (outcome total count
                  (run answer count total schedule start)
                ≡ some result))
  run-ends schedule going = (
    omega (arith, run-left schedule start going, start-left),
    settled-over (run answer count total schedule start)
        (run-Sound answer count total schedule start (start-Sound answer count total)),
  )

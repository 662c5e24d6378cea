-- ===== src/Api/Pool/Sound.antt =====
-- What holds of the pool of workers of src/api/analyze.ts after any steps: `Sound` is its invariant.
use dg_cli.Common.{
  ℕ, zero, suc, ◌≤◌, ◌<◌, ◌≡◌, refl, sym, subst, ap, ◌∙◌, ◌⊎◌, inl, inr, Bool, false, ltb, ◌==◌,
  nat_Eq, nat_eq_iff, if◌then◌else◌, Bool-cases, Option, none, some, List, [], ◌∷◌, ◌++◌, min,
  arith,
}
use dg_cli.Common.Result.{Result, ok, err}
use dg_cli.Api.Errors.{Thrown}
use dg_cli.Api.Pool.Steps.{
  Worker, ready, working, stopped, failed, Pool, updated, start, take_next, store, fail, receive,
  resume_as, resume, run, first_thrown,
}

-- 0, 1, ..., count - 1
pub upto : ℕ → List ℕ
upto zero = []
upto (suc count) = upto count ++ count ∷ []

abbrev pub nobody : ℕ → Bool
nobody v = false

abbrev only : ℕ → ℕ → Bool
only w v = v == w

updated-same : {A : Type 0} (f : ℕ → A) (w : ℕ) (x : A) → updated f w x w ≡ x
updated-same f w x = rw ((nat_eq_iff w w).1 refl) refl

updated-cases :
    {A : Type 0} (f : ℕ → A) (w : ℕ) (x : A) (v : ℕ) (y : A)
    → updated f w x v ≡ y
    → ((v ≡ w) × (x ≡ y)) ⊎ (((v == w) ≡ false) × (f v ≡ y))
updated-cases f w x v y h = elim (Bool-cases (v == w)) [
  | inl e ↦ inl ((nat_eq_iff v w).0 e, subst (λ b. (if b then x else f v) ≡ y) e h)
  | inr e ↦ inr (e, subst (λ b. (if b then x else f v) ≡ y) e h)
]

first-thrown :
    (earlier : Option Thrown) (thrown : Thrown)
    → (e : Thrown) × (first_thrown earlier thrown ≡ some e)
first-thrown none thrown = (thrown, refl)
first-thrown (some e) thrown = (e, refl)

first-cases :
    (earlier : Option Thrown) (thrown e : Thrown)
    → first_thrown earlier thrown ≡ some e
    → (earlier ≡ some e) ⊎ (e ≡ thrown)
first-cases none thrown e h = ground arith
first-cases (some before) thrown e h = inl h

module _ {R : Type 0} where
  -- A batch that was taken is answered, or a worker waits for its answer, or the scan has failed.
  abbrev pub Covered : (ℕ → Bool) → (ℕ → Worker) → (ℕ → Option R) → Option Thrown → ℕ → Type 0
  Covered aside workers responses rejected i =
      ((r : R) × (responses i ≡ some r))
      ⊎ ((v : ℕ) × ((aside v ≡ false) × (workers v ≡ working i)))
      ⊎ ((e : Thrown) × (rejected ≡ some e))

  -- A worker that was left aside may do anything.
  covered-moved :
      (workers : ℕ → Worker) (responses : ℕ → Option R) (rejected : Option Thrown) (w : ℕ)
      (x : Worker) (i : ℕ)
      → Covered (only w) workers responses rejected i
      → Covered nobody (updated workers w x) responses rejected i
  covered-moved workers responses rejected w x i (inl answered) = inl answered
  covered-moved workers responses rejected w x i (inr (inl (v, (apart, waits)))) =
      inr (inl (v, (refl, rw apart waits)))
  covered-moved workers responses rejected w x i (inr (inr thrown)) = inr (inr thrown)

  -- A worker that waits for no other batch can be left aside.
  covered-aside :
      (workers : ℕ → Worker) (responses : ℕ → Option R) (rejected : Option Thrown) (w i : ℕ)
      → (workers w ≡ working i → ⊥)
      → Covered nobody workers responses rejected i
      → Covered (only w) workers responses rejected i
  covered-aside workers responses rejected w i idle (inl answered) = inl answered
  covered-aside workers responses rejected w i idle (inr (inl (v, (_, waits)))) =
      elim (Bool-cases (v == w)) [
        | inl e ↦ elim (idle (subst (λ u. workers u ≡ working i) ((nat_eq_iff v w).0 e) waits)) [ ]
        | inr e ↦ inr (inl (v, (e, waits)))
      ]
  covered-aside workers responses rejected w i idle (inr (inr thrown)) = inr (inr thrown)

module _ {R : Type 0} (answer : ℕ → Result Thrown R) (count total : ℕ) where
  -- What is known of a pool in which some workers are left aside.
  pub record Sound (aside : ℕ → Bool) (pool : Pool R) : Type 0 where
    pub covered :
        (i : ℕ)
        → i < count
        → i < pool.cursor
        → Covered aside pool.workers pool.responses pool.rejected i
    pub ended : (v : ℕ) → aside v ≡ false → pool.workers v ≡ stopped → count ≤ pool.cursor
    pub within :
        (v i : ℕ) → aside v ≡ false → pool.workers v ≡ working i → (i < count) × (v < total)
    pub answers : (i : ℕ) (r : R) → pool.responses i ≡ some r → answer i ≡ ok r
    pub refused :
        (e : Thrown) → pool.rejected ≡ some e → (i : ℕ) × ((i < count) × (answer i ≡ err e))
    pub known :
        (v : ℕ)
        → aside v ≡ false
        → pool.workers v ≡ failed
        → (e : Thrown) × (pool.rejected ≡ some e)
    pub once : pool.sent ≡ upto (min pool.cursor count)

  pub start-Sound : Sound nobody start
  unfolding start upto
  start-Sound =
      let none_sent : min 0 count ≡ 0 = omega arith in
      record {
        covered = λ i low high. ground arith;
        ended = λ v out h. ground arith;
        within = λ v i out h. ground arith;
        answers = λ i r h. ground arith;
        refused = λ e h. ground arith;
        known = λ v out h. ground arith;
        once = rw none_sent refl;
      }

  upto-next :
      (cursor : ℕ)
      → cursor < count
      → upto (min cursor count) ++ cursor ∷ [] ≡ upto (min (suc cursor) count)
  unfolding upto
  upto-next cursor h =
      let here : min cursor count ≡ cursor = omega arith in
      let later : min (suc cursor) count ≡ suc cursor = omega arith in rw (here, later) refl

  -- The worker that takes the next batch, or finds none.
  take_next-Sound :
      (w : ℕ) (pool : Pool R)
      → w < total
      → Sound (only w) pool
      → Sound nobody (take_next answer count w pool)
  unfolding take_next
  take_next-Sound w pool inside sound = elim (Bool-cases (ltb pool.cursor count)) [
    | inl e ↦
        let more : pool.cursor < count = ground arith in
        (rw e (record {
          covered = λ i low high. elim (Bool-cases (i == pool.cursor)) [
            | inl here ↦
                let at : pool.cursor ≡ i = sym ((nat_eq_iff i pool.cursor).0 here) in
                inr (
                  inl
                    (w, (refl, updated-same pool.workers w (working pool.cursor) ∙ ap working at)))
            | inr before ↦
                covered-moved pool.workers pool.responses pool.rejected w (working pool.cursor) i
                  (sound.covered i low (ground arith))
          ];
          ended = λ v out h. elim (updated-cases pool.workers w (working pool.cursor) v stopped h) [
            | inl (_, clash) ↦ ground arith
            | inr (apart, same) ↦ ground (arith, sound.ended v apart same)
          ];
          within = λ v i out h.
              elim (updated-cases pool.workers w (working pool.cursor) v (working i) h) [
                | inl (there, took) ↦ (ground arith, ground arith)
                | inr (apart, same) ↦ sound.within v i apart same
              ];
          answers = sound.answers;
          refused = sound.refused;
          known = λ v out h. elim (updated-cases pool.workers w (working pool.cursor) v failed h) [
            | inl (_, clash) ↦ ground arith
            | inr (apart, same) ↦ sound.known v apart same
          ];
          once = rw sound.once (upto-next pool.cursor more);
        }))
    | inr e ↦
        let none_left : count ≤ pool.cursor = ground arith in
        let still : min (suc pool.cursor) count ≡ min pool.cursor count = omega arith in
        (rw e (record {
          covered = λ i low high.
              covered-moved pool.workers pool.responses pool.rejected w stopped i
                (sound.covered i low (omega arith));
          ended = λ v out h. omega arith;
          within = λ v i out h. elim (updated-cases pool.workers w stopped v (working i) h) [
            | inl (_, clash) ↦ ground arith
            | inr (apart, same) ↦ sound.within v i apart same
          ];
          answers = sound.answers;
          refused = sound.refused;
          known = λ v out h. elim (updated-cases pool.workers w stopped v failed h) [
            | inl (_, clash) ↦ ground arith
            | inr (apart, same) ↦ sound.known v apart same
          ];
          once = rw still sound.once;
        }))
  ]

  -- The worker that has got the response to its batch.
  store-Sound :
      (w i : ℕ) (response : R) (pool : Pool R)
      → pool.workers w ≡ working i
      → answer i ≡ ok response
      → Sound nobody pool
      → Sound (only w) (store answer count i response pool)
  store-Sound w i response pool waits answered sound = record {
    covered = λ j low high. elim (Bool-cases (j == i)) [
      | inl here ↦ inl (response, rw here refl)
      | inr apart ↦
          (rw apart (
            covered-aside pool.workers pool.responses pool.rejected w j (λ also. ground arith)
              (sound.covered j low high)))
    ];
    ended = λ v out h. sound.ended v refl h;
    within = λ v j out h. sound.within v j refl h;
    answers = λ j r h. elim (updated-cases pool.responses i (some response) j (some r) h) [
      | inl (at, same) ↦ cc
      | inr (apart, same) ↦ sound.answers j r same
    ];
    refused = sound.refused;
    known = λ v out h. sound.known v refl h;
    once = sound.once;
  }

  fail-Sound :
      (w i : ℕ) (thrown : Thrown) (pool : Pool R)
      → i < count
      → answer i ≡ err thrown
      → Sound nobody pool
      → Sound nobody (fail answer count w thrown pool)
  fail-Sound w i thrown pool low answered sound = record {
    covered = λ j low high. inr (inr (first-thrown pool.rejected thrown));
    ended = λ v out h. elim (updated-cases pool.workers w failed v stopped h) [
      | inl (at, clash) ↦ ground arith
      | inr (apart, same) ↦ sound.ended v refl same
    ];
    within = λ v j out h. elim (updated-cases pool.workers w failed v (working j) h) [
      | inl (at, clash) ↦ ground arith
      | inr (apart, same) ↦ sound.within v j refl same
    ];
    answers = sound.answers;
    refused = λ e h. elim (first-cases pool.rejected thrown e h) [
      | inl before ↦ sound.refused e before
      | inr now ↦ (i, (low, rw now answered))
    ];
    known = λ v out h. first-thrown pool.rejected thrown;
    once = sound.once;
  }

  ready-Sound :
      (w : ℕ) (pool : Pool R) → pool.workers w ≡ ready → Sound nobody pool → Sound (only w) pool
  ready-Sound w pool h sound = record {
    covered = λ i low high.
        covered-aside pool.workers pool.responses pool.rejected w i (λ also. ground arith)
          (sound.covered i low high);
    ended = λ v out h. sound.ended v refl h;
    within = λ v i out h. sound.within v i refl h;
    answers = sound.answers;
    refused = sound.refused;
    known = λ v out h. sound.known v refl h;
    once = sound.once;
  }

  resume-Sound :
      (w : ℕ) (pool : Pool R)
      → w < total
      → Sound nobody pool
      → Sound nobody (resume answer count w pool)
  unfolding resume resume_as receive
  resume-Sound w pool inside sound = as_seen (pool.workers w) refl
    where
      received :
          (i : ℕ) (r : Result Thrown R)
          → pool.workers w ≡ working i
          → answer i ≡ r
          → Sound nobody (receive answer count w i r pool)
      received i (ok response) waits answered =
          take_next-Sound w (store answer count i response pool) inside
            (store-Sound w i response pool waits answered sound)
      received i (err thrown) waits answered =
          fail-Sound w i thrown pool ((sound.within w i refl waits).0) answered sound

      as_seen : (x : Worker) → pool.workers w ≡ x → Sound nobody (resume_as answer count x w pool)
      as_seen ready h = take_next-Sound w pool inside (ready-Sound w pool h sound)
      as_seen (working i) h = received i (answer i) h refl
      as_seen stopped h = sound
      as_seen failed h = sound

  pub run-Sound :
      (schedule : List ℕ) (pool : Pool R)
      → Sound nobody pool
      → Sound nobody (run answer count total schedule pool)
  unfolding run
  run-Sound [] pool sound = sound
  run-Sound (w ∷ schedule) pool sound = elim (Bool-cases (ltb w total)) [
    | inl e ↦
        (rw e (
          run-Sound schedule (resume answer count w pool)
            (resume-Sound w pool (ground arith) sound)))
    | inr e ↦ (rw e (run-Sound schedule pool sound))
  ]

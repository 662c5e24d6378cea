-- ===== src/Api/Pool/Settled.antt =====
-- Whatever the order in which the answers of the scanner arrive, the pool of src/api/analyze.ts gives
-- what sending one batch after the other gives.
use dg_cli.Common.{
  ℕ, zero, suc, ◌≤◌, ◌<◌, ◌≡◌, refl, sym, subst, ap, ◌∙◌, ◌⊎◌, inl, inr, Bool, true, false, ◌==◌,
  nat_Eq, nat_eq_iff, Bool-cases, Option-cases, and-true, Option, none, some, List, [], ◌∷◌, ◌++◌,
  map, min, arith,
}
use dg_cli.Common.Result.{Result, ok, err, ◌>>=◌}
use dg_cli.Api.Errors.{Thrown}
use dg_cli.Api.Pool.Sound.{nobody, Sound, start-Sound, run-Sound, upto}
use dg_cli.Api.Pool.Steps.{
  Worker, ready, working, stopped, failed, Pool, start, run, is_stopped, all_stopped, collect,
  outcome, settled,
}

is_stopped-stopped : (x : Worker) → is_stopped x ≡ true → x ≡ stopped
is_stopped-stopped ready h = ground arith
is_stopped-stopped (working i) h = ground arith
is_stopped-stopped stopped h = refl
is_stopped-stopped failed h = ground arith

module _ {A : Type 0} where
  settled-thrown :
      (o : Option Thrown) (b : Bool) (rs : List (Option A))
      (result : Result Thrown (List (Option A))) (e : Thrown)
      → o ≡ some e
      → settled o b rs ≡ some result
      → result ≡ err e
  settled-thrown none b rs result e h done = ground arith
  settled-thrown (some e') b rs result e h done = cc

  settled-ok :
      (o : Option Thrown) (b : Bool) (rs : List (Option A))
      (result : Result Thrown (List (Option A))) (rs' : List (Option A))
      → o ≡ none
      → b ≡ true
      → rs ≡ rs'
      → settled o b rs ≡ some result
      → result ≡ ok rs'
  settled-ok none true rs result rs' h g same done = cc
  settled-ok none false rs result rs' h g same done = ground arith
  settled-ok (some e) b rs result rs' h g same done = ground arith

  settled-pending :
      (o : Option Thrown) (b : Bool) (rs : List (Option A))
      (result : Result Thrown (List (Option A)))
      → o ≡ none
      → b ≡ false
      → settled o b rs ≡ some result
      → ⊥
  settled-pending none true rs result h g done = ground arith
  settled-pending none false rs result h g done = ground arith
  settled-pending (some e) b rs result h g done = ground arith

module _ {R : Type 0} (answer : ℕ → Result Thrown R) where
  -- One batch after the other, until one fails.
  pub one_by_one : ℕ → Result Thrown (List R)
  one_by_one zero = ok []
  one_by_one (suc k) =
      one_by_one k >>= λ before. answer k >>= λ response. ok (before ++ response ∷ [])

module _ {R : Type 0} (answer : ℕ → Result Thrown R) (count total : ℕ) where
  stopped-each :
      (k : ℕ) (workers : ℕ → Worker)
      → all_stopped k workers ≡ true
      → (v : ℕ) → v < k
      → workers v ≡ stopped
  unfolding all_stopped
  stopped-each zero workers all v low = ground arith
  stopped-each (suc k) workers all v low =
      let (here, others) = and-true (is_stopped (workers k)) _ all in
      elim (Bool-cases (v == k)) [
        | inl e ↦
            subst (λ u. workers u ≡ stopped) (sym ((nat_eq_iff v k).0 e))
              (is_stopped-stopped (workers k) here)
        | inr e ↦ stopped-each k workers others v (ground arith)
      ]

  map-append :
      {A B : Type 0} (f : A → B) (xs : List A) (y : A) → map f (xs ++ y ∷ []) ≡ map f xs ++ f y ∷ []
  map-append f [] y = refl
  map-append f (x ∷ xs) y = ap (λ zs. f x ∷ zs) (map-append f xs y)

  collect-one_by_one :
      (responses : ℕ → Option R)
      → ((i : ℕ) (r : R) → responses i ≡ some r → answer i ≡ ok r)
      → (k : ℕ) → ((i : ℕ) → i < k → (r : R) × (responses i ≡ some r))
      → (rs : List R) × ((one_by_one answer k ≡ ok rs) × (collect k responses ≡ map some rs))
  unfolding one_by_one collect
  collect-one_by_one responses answers zero there = ([], (refl, refl))
  collect-one_by_one responses answers (suc k) there =
      let (rs, (sent, collected)) =
        collect-one_by_one responses answers k (λ i h. there i (omega arith)) in
      let (r, here) = there k (omega arith) in
      (
        rs ++ r ∷ [],
        (rw (sent, answers k r here) refl, rw (collected, here) (sym (map-append some rs r))),
      )

  -- The two ways in which `Promise.all` settles.
  abbrev pub Settled : Result Thrown (List (Option R)) → List ℕ → Type 0
  Settled result sent =
      ((rs : List R) × ((one_by_one answer count ≡ ok rs)
          × ((result ≡ ok (map some rs)) × (sent ≡ upto count))))
      ⊎ ((e : Thrown) × ((i : ℕ) × ((i < count) × ((answer i ≡ err e) × (result ≡ err e)))))

  none-left :
      (pool : Pool R)
      → 1 ≤ total
      → Sound answer count total nobody pool
      → pool.rejected ≡ none
      → all_stopped total pool.workers ≡ true
      → (i : ℕ) → i < count
      → (r : R) × (pool.responses i ≡ some r)
  none-left pool h sound calm all i low =
      let end = sound.ended 0 refl (stopped-each total pool.workers all 0 (omega arith)) in
      elim (sound.covered i low (omega arith)) [
        | inl answered ↦ answered
        | inr (inl (v, (out, waits))) ↦
            let idle = stopped-each total pool.workers all v ((sound.within v i out waits).1) in
            ground arith
        | inr (inr (e, thrown)) ↦ ground arith
      ]

  outcome-Settled :
      (pool : Pool R) (result : Result Thrown (List (Option R)))
      → 1 ≤ total
      → Sound answer count total nobody pool
      → outcome total count pool ≡ some result
      → Settled result pool.sent
  unfolding outcome
  outcome-Settled pool result h sound done = elim (Option-cases pool.rejected) [
    | inr (e, thrown) ↦
        let (i, (low, answered)) = sound.refused e thrown in
        let got : result ≡ err e =
          settled-thrown pool.rejected (all_stopped total pool.workers)
            (collect count pool.responses) result e thrown done in
        inr (e, (i, (low, (answered, got))))
    | inl calm ↦ elim (Bool-cases (all_stopped total pool.workers)) [
      | inl all ↦
          let (rs, (sent, collected)) =
            collect-one_by_one pool.responses sound.answers count
              (none-left pool h sound calm all) in
          let over = sound.ended 0 refl (stopped-each total pool.workers all 0 (omega arith)) in
          let whole : min pool.cursor count ≡ count = omega arith in
          let got =
            settled-ok pool.rejected (all_stopped total pool.workers) (collect count pool.responses)
              result (map some rs) calm all collected done in
          inl (rs, (sent, (got, sound.once ∙ ap upto whole)))
      | inr pending ↦
          elim (settled-pending pool.rejected (all_stopped total pool.workers)
            (collect count pool.responses) result calm pending done) [ ]
    ]
  ]

  -- However the answers of the scanner are interleaved, a scan that has settled gave the responses that
  -- sending one batch after the other gives, in the order of the batches, and then each batch was sent
  -- exactly once; or it failed with what the scanner gave for one of the batches.
  pub run-refines :
      (schedule : List ℕ) (result : Result Thrown (List (Option R)))
      → 1 ≤ total
      → outcome total count (run answer count total schedule start) ≡ some result
      → Settled result ((run answer count total schedule start).sent)
  run-refines schedule result h done =
      outcome-Settled (run answer count total schedule start) result h
        (run-Sound answer count total schedule start (start-Sound answer count total)) done

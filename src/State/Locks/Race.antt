-- ===== src/State/Locks/Race.antt =====
-- Two processes that take over the lock of a crashed one, src/state/locks.ts.
use dg_cli.Common.{
  ℕ, ◌≡◌, ◌≢◌, refl, sym, true, false, none, List, [], ◌∷◌, ◌++◌, ◌==◌, nat_Eq, arith,
}
use dg_cli.State.Locks.{
  holds, advance_at, after_read, after_state, holder_state_from_content, written, open_exclusive,
  Action, acquire, advance, crash, step, run, initial, lock_metadata,
}

-- `k` takes the lock and crashes; `i` reads it, and finds its holder dead; `j` takes it over; `i`
-- renames what is now the lock of `j`, and takes it as well.
abbrev pub race : ℕ → ℕ → ℕ → List Action
race i j k =
    (acquire k ∷ advance k ∷ advance k ∷ advance k ∷ crash k ∷ [])
    ++ (acquire i ∷ advance i ∷ [])
    ++ (acquire j ∷ advance j ∷ advance j ∷ advance j ∷ advance j ∷ [])
    ++ (advance i ∷ advance i ∷ advance i ∷ [])

different : (i j : ℕ) → i ≢ j → (i == j) ≡ false
different i j apart = ground arith

same : (i : ℕ) → (i == i) ≡ true
same i = ground arith

-- After a crash, two processes can hold the lock at once: the holder is read before the file is
-- renamed, and the file that is renamed need not be the one that was read.
pub race-both :
    (i j k : ℕ)
    → i ≢ j
    → i ≢ k
    → j ≢ k
    → (holds ((run none (race i j k) initial).pc i) ≡ true)
      × (holds ((run none (race i j k) initial).pc j) ≡ true)
unfolding run step advance_at after_read after_state holder_state_from_content written
    open_exclusive lock_metadata
race-both i j k ij ik jk =
    let ji = different j i (λ e. ij (sym e)) in
    let ki = different k i (λ e. ik (sym e)) in
    let kj = different k j (λ e. jk (sym e)) in
    simp (same i, same j, same k, different i j ij, different i k ik, different j k jk, ji, ki, kj)
      (refl, refl)

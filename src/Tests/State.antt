-- ===== src/Tests/State.antt =====
-- src/state on concrete runs.
use dg_cli.Common.{ℕ, ◌≡◌, refl, true, none, some, List, [], ◌∷◌, arith}
use dg_cli.State.Locks.{
  System, idle, crashed, update, holds, Action, acquire, advance, run, initial, lock_metadata,
}
use dg_cli.State.Locks.Exclusion.{run-exclusive}
use dg_cli.State.Locks.Takeover.{Acquired, free, alone, acquire_alone}
use dg_cli.State.Locks.Race.{race, race-both}

-- Processes 3 and 5 try at the same time, and 3 wins.
abbrev contended : List Action
contended = acquire 3 ∷ acquire 5 ∷ advance 3 ∷ advance 5 ∷ advance 3 ∷ advance 5 ∷ advance 3 ∷ []

abbrev winner : ℕ
winner = 3

run-exclusive_example : winner ≡ winner
unfolding run
run-exclusive_example =
    run-exclusive none contended 3 3 refl (tt, (tt, (tt, (tt, (tt, (tt, (tt, tt))))))) refl refl

-- Process 7 has crashed with the lock.
abbrev abandoned : System
abandoned = record {
  file = some (record { creator = 7; content = some (lock_metadata 7 1); mtime = 1 });
  pc = update (λ _. idle) 7 crashed;
  now = 2;
}

acquire_alone_example :
    Acquired (free none abandoned abandoned.file) 2 abandoned (run none (alone 2) abandoned)
acquire_alone_example = acquire_alone none 2 abandoned refl

race-both_example :
    (holds ((run none (race 0 1 2) initial).pc 0) ≡ true)
    × (holds ((run none (race 0 1 2) initial).pc 1) ≡ true)
race-both_example = race-both 0 1 2 (λ e. omega arith) (λ e. omega arith) (λ e. omega arith)

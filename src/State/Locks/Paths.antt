-- ===== src/State/Locks/Paths.antt =====
-- A lock's name is one component of a path, src/state/locks.ts.
use dg_cli.Common.{
  ℕ, zero, suc, ◌≤◌, ◌≡◌, ◌≢◌, String, true, List, [], ◌∷◌, length, All, codes, arith,
}
use dg_cli.State.Locks.{valid_lock_name, lock_name, at_most, is_lock_char}

-- Neither '.' nor '/' nor a backslash nor the null character.
abbrev pub Plain : ℕ → Type 0
Plain c = (c ≢ b'.') × (c ≢ b'/') × (c ≢ 92) × (c ≢ 0)

lock_char-Plain : (c : ℕ) → is_lock_char c ≡ true → Plain c
lock_char-Plain c h =
    ((λ e. ground arith), (λ e. ground arith), (λ e. ground arith), (λ e. ground arith))

at_most-Plain :
    (most : ℕ) (cs : List ℕ) → at_most most cs ≡ true → All Plain cs × (length cs ≤ most)
unfolding at_most
at_most-Plain most [] h = (tt, ground arith)
at_most-Plain zero (c ∷ cs) h = absurd (ground arith)
at_most-Plain (suc most) (c ∷ cs) h =
    let later = at_most-Plain most cs (ground arith) in
    ((lock_char-Plain c (ground arith), later.0), ground (arith, later.1))

lock_name-Plain :
    (cs : List ℕ) → lock_name cs ≡ true → All Plain cs × (1 ≤ length cs) × (length cs ≤ 64)
unfolding lock_name
lock_name-Plain [] h = absurd (ground arith)
lock_name-Plain (c ∷ cs) h =
    let later = at_most-Plain 63 cs (ground arith) in
    ((lock_char-Plain c (ground arith), later.0), ground arith, ground (arith, later.1))

-- A name that `assertLockName` lets pass has 1 to 64 characters, none of which separates the
-- components of a path: the lock's file stands in the directory of locks.
pub valid_lock_name-Plain :
    (name : String)
    → valid_lock_name name ≡ true
    → All Plain (codes name) × (1 ≤ length (codes name)) × (length (codes name) ≤ 64)
unfolding valid_lock_name
valid_lock_name-Plain name h = lock_name-Plain (codes name) h

-- ===== src/State/Locks/Names.antt =====
-- `assertLockName` of src/state/locks.ts.
use dg_cli.Common.{
  ℕ, zero, suc, String, Bool, true, false, ◌&&◌, ◌||◌, List, [], ◌∷◌, ◌==◌, nat_Eq, leb, codes,
  is_digit,
}

abbrev pub is_lower : ℕ → Bool
is_lower c = leb b'a' c && leb c b'z'

abbrev pub is_lock_char : ℕ → Bool
is_lock_char c = is_lower c || is_digit c || c == b'-'

-- [a-z0-9-]{0,most}$
unfoldable pub at_most : ℕ → List ℕ → Bool
at_most most [] = true
at_most zero (c ∷ cs) = false
at_most (suc most) (c ∷ cs) = is_lock_char c && at_most most cs

unfoldable pub lock_name : List ℕ → Bool
lock_name [] = false
lock_name (c ∷ cs) = is_lower c && at_most 63 cs

-- /^[a-z][a-z0-9-]{0,63}$/
unfoldable pub valid_lock_name : String → Bool
unfolding at_most lock_name
valid_lock_name name = lock_name (codes name)

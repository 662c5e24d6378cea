-- ===== src/State/Locks/Takeover.antt =====
-- One call of `acquireLockSync` of src/state/locks.ts with no other process in between.
use dg_cli.Common.{
  ℕ, zero, suc, ◌-◌, ◌≡◌, refl, ◌∙◌, Bool, true, false, not, ◌&&◌, ◌⊎◌, inl, inr, Option, none,
  some, List, [], ◌∷◌, ◌==◌, nat_Eq, nat_eq_iff, Bool-cases, ltb, if◌then◌else◌, arith,
}
use dg_cli.Common.Json.{Json, number}
use dg_cli.State.Locks.{
  LockFile, LockHolderState, absent, alive, dead, unknown, Pc, reading, statting, removing, opening,
  holding, busy, System, update, lock_metadata, is_crashed, pid_state, pid_field,
  holder_state_from_content, never_stale, ready, advance_at, after_read, after_stat, written,
  open_exclusive, Action, acquire, advance, step, run,
}

-- Whether a lock that is read in this state may be taken over.
abbrev expired : Option ℕ → ℕ → LockFile → Bool
expired none now f = false
expired (some stale) now f = not (stale == 0) && not (ltb (now - f.mtime) stale)

abbrev state_free : Option ℕ → ℕ → LockFile → LockHolderState → Bool
state_free stale_ms now f dead = true
state_free stale_ms now f alive = false
state_free stale_ms now f _ = expired stale_ms now f

-- The lock is free: no file, a dead holder, or an unknown holder and a file past the limit.
abbrev pub free : Option ℕ → System → Option LockFile → Bool
free stale_ms s none = true
free stale_ms s (some f) = state_free stale_ms s.now f (holder_state_from_content s.pc f.content)

abbrev pub advances : ℕ → ℕ → List Action
advances zero i = []
advances (suc n) i = advance i ∷ advances n i

-- The lock file that process `i` leaves.
abbrev pub mine : ℕ → ℕ → LockFile
mine i now = record { creator = i; content = some (lock_metadata i now); mtime = now }

-- The end of the call: it holds the lock, or it is busy and has changed nothing.
abbrev pub Acquired : Bool → ℕ → System → System → Type 0
Acquired true i s s' = (s'.pc i ≡ holding) × (s'.file ≡ some (mine i s.now))
Acquired false i s s' = (s'.pc i ≡ busy) × (s'.file ≡ s.file)

same : (i : ℕ) → (i == i) ≡ true
same i = ground arith

-- The calls that `acquireLockSync` makes, at most; the ones after its end do nothing.
abbrev pub alone : ℕ → List Action
alone i = acquire i ∷ advance i ∷ advance i ∷ advance i ∷ advance i ∷ advance i ∷ []

still_holder :
    (i j : ℕ) (pc : ℕ → Pc)
    → ready (pc i) ≡ true
    → is_crashed (update pc i reading j) ≡ is_crashed (pc j)
still_holder i j pc r = elim (Bool-cases (i == j)) [
  | inl e ↦ (rw (e, ← (nat_eq_iff i j).0 e) (ground arith))
  | inr e ↦ (rw e refl)
]

-- A process that starts to read is no holder that has crashed.
pid_state-reading :
    (i : ℕ) (pc : ℕ → Pc) (pid : Option Json)
    → ready (pc i) ≡ true
    → pid_state (update pc i reading) pid ≡ pid_state pc pid
unfolding pid_state
pid_state-reading i pc (some (number (suc j))) r = rw (still_holder i j pc r) refl
pid_state-reading i pc (some (number zero)) r = refl
pid_state-reading i pc none r = refl
pid_state-reading i pc (some _) r = refl

-- An unknown holder counts by the age of its file.
expired_cases :
    (stale_ms : Option ℕ) (now : ℕ) (f : LockFile)
    → ((never_stale stale_ms ≡ true) × (expired stale_ms now f ≡ false))
      ⊎ (never_stale stale_ms ≡ false)
        × (((after_stat stale_ms now (some f) ≡ opening) × (expired stale_ms now f ≡ false))
            ⊎ (after_stat stale_ms now (some f) ≡ removing) × (expired stale_ms now f ≡ true))
unfolding after_stat
expired_cases none now f = inl (refl, refl)
expired_cases (some stale) now f = elim (Bool-cases (stale == 0)) [
  | inl e ↦ inl (e, rw e refl)
  | inr e ↦ inr (
    e,
    elim (Bool-cases (ltb (now - f.mtime) stale)) [
      | inl l ↦ inl (rw l refl, rw (e, l) refl)
      | inr l ↦ inr (rw l refl, rw (e, l) refl)
    ],
  )
]

module _ (stale_ms : Option ℕ) (i : ℕ) (s : System) (r : ready (s.pc i) ≡ true) where
  alone_absent : s.file ≡ none → Acquired true i s (run stale_ms (alone i) s)
  unfolding run step advance_at open_exclusive written after_read
  alone_absent e = simp (r, same i, e) (refl, refl)

  alone_dead :
      (f : LockFile)
      → s.file ≡ some f
      → after_read stale_ms (update s.pc i reading) (some f) ≡ removing
      → Acquired true i s (run stale_ms (alone i) s)
  unfolding run step advance_at open_exclusive written
  alone_dead f e q = simp (r, same i, e, q) (refl, refl)

  alone_opening :
      (f : LockFile)
      → s.file ≡ some f
      → after_read stale_ms (update s.pc i reading) (some f) ≡ opening
      → Acquired false i s (run stale_ms (alone i) s)
  unfolding run step advance_at open_exclusive written
  alone_opening f e q = simp (r, same i, e, q) (refl, refl)

  alone_statting :
      (f : LockFile)
      → s.file ≡ some f
      → after_read stale_ms (update s.pc i reading) (some f) ≡ statting
      → after_stat stale_ms s.now (some f) ≡ opening
      → Acquired false i s (run stale_ms (alone i) s)
  unfolding run step advance_at open_exclusive written
  alone_statting f e q z = simp (r, same i, e, q, z) (refl, refl)

  alone_expired :
      (f : LockFile)
      → s.file ≡ some f
      → after_read stale_ms (update s.pc i reading) (some f) ≡ statting
      → after_stat stale_ms s.now (some f) ≡ removing
      → Acquired true i s (run stale_ms (alone i) s)
  unfolding run step advance_at open_exclusive written
  alone_expired f e q z = simp (r, same i, e, q, z) (refl, refl)

  alone_unknown :
      (f : LockFile)
      → s.file ≡ some f
      → after_read stale_ms (update s.pc i reading) (some f)
        ≡ (if never_stale stale_ms then opening else statting)
      → Acquired (expired stale_ms s.now f) i s (run stale_ms (alone i) s)
  alone_unknown f e q = elim (expired_cases stale_ms s.now f) [
    | inl (n, x) ↦ (rw x (alone_opening f e (q ∙ rw n refl)))
    | inr (n, inl (z, x)) ↦ (rw x (alone_statting f e (q ∙ rw n refl) z))
    | inr (n, inr (z, x)) ↦ (rw x (alone_expired f e (q ∙ rw n refl) z))
  ]

  alone_state :
      (f : LockFile)
      → s.file ≡ some f
      → (state : LockHolderState) → holder_state_from_content s.pc f.content ≡ state
      → Acquired (state_free stale_ms s.now f state) i s (run stale_ms (alone i) s)
  unfolding after_read holder_state_from_content
  alone_state f e state q =
      let q' = pid_state-reading i s.pc (pid_field f.content) r ∙ q in by_state state q'
    where
      by_state :
          (state : LockHolderState)
          → pid_state (update s.pc i reading) (pid_field f.content) ≡ state
          → Acquired (state_free stale_ms s.now f state) i s (run stale_ms (alone i) s)
      by_state dead q = alone_dead f e (rw q refl)
      by_state alive q = alone_opening f e (rw q refl)
      by_state unknown q = alone_unknown f e (rw q refl)
      by_state absent q = alone_unknown f e (rw q refl)

  alone_file :
      (file : Option LockFile)
      → s.file ≡ file
      → Acquired (free stale_ms s file) i s (run stale_ms (alone i) s)
  alone_file none e = alone_absent e
  alone_file (some f) e = alone_state f e _ refl

  -- A call of `acquireLockSync` that no other process disturbs takes the lock, and leaves its own
  -- metadata, if there is no file, the file's holder has died, or the holder is unknown and the
  -- file older than the limit; else it is busy and leaves the file alone.
  pub acquire_alone : Acquired (free stale_ms s s.file) i s (run stale_ms (alone i) s)
  acquire_alone = alone_file s.file refl

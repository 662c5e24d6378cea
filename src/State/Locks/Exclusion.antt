-- ===== src/State/Locks/Exclusion.antt =====
-- Mutual exclusion by the locks of src/state/locks.ts, while no process crashes.
use dg_cli.Common.{
  ℕ, ◌≡◌, ◌≢◌, refl, sym, subst, ◌∙◌, ap, Bool, true, false, ◌⊎◌, inl, inr, Option, none, some,
  List, [], ◌∷◌, ◌==◌, nat_Eq, nat_eq_iff, Bool-cases, All, arith,
}
use dg_cli.State.Locks.{
  LockFile, Pc, idle, reading, statting, removing, opening, writing, holding, busy, crashed, System,
  update, lock_metadata, holder_state_from_content, never_stale, ready, holds, advance_at, unknown,
  alive, after_read, written, open_exclusive, Action, acquire, advance, release, crash, tick, step,
  run, initial,
}

-- A process in a step that removes a file, or before one, or crashed.
abbrev quiet : Pc → Bool
quiet statting = false
quiet removing = false
quiet crashed = false
quiet _ = true

abbrev owns : Pc → Bool
owns writing = true
owns holding = true
owns _ = false

abbrev owner : Option LockFile → Option ℕ
owner none = none
owner (some f) = some f.creator

-- What the file holds is what its creator writes, or nothing yet.
abbrev Proper : Option LockFile → Type 0
Proper none = Unit
Proper (some f) = (f.content ≡ none) ⊎ (f.content ≡ some (lock_metadata f.creator f.mtime))

record Orderly (s : System) : Type 0 where
  calm : (i : ℕ) → quiet (s.pc i) ≡ true
  owned : (i : ℕ) → owns (s.pc i) ≡ true → owner s.file ≡ some i
  intact : Proper s.file

module _ (P : ℕ → Pc → Type 0) where
  -- What holds of each process holds after one has moved.
  update-each :
      (pc : ℕ → Pc) (i : ℕ) (p : Pc)
      → P i p
      → ((j : ℕ) → i ≢ j → P j (pc j))
      → (j : ℕ) → P j (update pc i p j)
  update-each pc i p here others j = elim (Bool-cases (i == j)) [
    | inl e ↦ (rw e (subst (λ k. P k p) ((nat_eq_iff i j).0 e) here))
    | inr e ↦ (rw e (others j (λ same. ground arith)))
  ]

-- The holder of a file that its creator wrote, or has yet to write, is not taken for dead.
holder-Proper :
    (pc : ℕ → Pc) (f : LockFile)
    → ((i : ℕ) → quiet (pc i) ≡ true)
    → Proper (some f)
    → (holder_state_from_content pc f.content ≡ unknown)
      ⊎ (holder_state_from_content pc f.content ≡ alive)
unfolding holder_state_from_content lock_metadata
holder-Proper pc f c (inl e) = inl (rw e refl)
holder-Proper pc f c (inr e) = inr (rw e (ground (arith, c f.creator)))

-- With no staleness limit and a running holder, a reader goes on to open the file.
after_read-opening :
    (stale_ms : Option ℕ) (pc : ℕ → Pc) (file : Option LockFile)
    → never_stale stale_ms ≡ true
    → ((i : ℕ) → quiet (pc i) ≡ true)
    → Proper file
    → after_read stale_ms pc file ≡ opening
unfolding after_read
after_read-opening stale_ms pc none n c p = refl
after_read-opening stale_ms pc (some f) n c p = elim (holder-Proper pc f c p) [
  | inl e ↦ (rw (e, n) refl)
  | inr e ↦ (rw e refl)
]

-- A move to a place that owns nothing, with the file as it is.
moved :
    (i : ℕ) (p : Pc) (s : System)
    → quiet p ≡ true
    → owns p ≡ false
    → Orderly s
    → Orderly (record s { pc = update s.pc i p })
moved i p s q o h = record {
  calm = update-each (λ _ p. quiet p ≡ true) s.pc i p q (λ j _. h.calm j);
  owned =
      update-each (λ j p. owns p ≡ true → owner s.file ≡ some j) s.pc i p (λ w. ground arith)
        (λ j _. h.owned j);
  intact = h.intact;
}

-- Only one process owns the file, so that once it has gone no process does.
removed :
    (i : ℕ) (s : System)
    → owns (s.pc i) ≡ true
    → Orderly s
    → Orderly (record s { file = none; pc = update s.pc i idle })
removed i s o h = record {
  calm = update-each (λ _ p. quiet p ≡ true) s.pc i idle refl (λ j _. h.calm j);
  owned =
      update-each (λ j p. owns p ≡ true → owner none ≡ some j) s.pc i idle (λ w. ground arith)
        (λ j apart w. absurd (apart (ground (arith, h.owned i o, h.owned j w))));
  intact = tt;
}

opened :
    (i : ℕ) (file : Option LockFile) (pc : ℕ → Pc) (now : ℕ)
    → Orderly (record { file = file; pc = pc; now = now })
    → Orderly (open_exclusive i (record { file = file; pc = pc; now = now }))
unfolding open_exclusive
opened i none pc now h = record {
  calm = update-each (λ _ p. quiet p ≡ true) pc i writing refl (λ j _. h.calm j);
  owned =
      update-each (λ j p. owns p ≡ true → some i ≡ some j) pc i writing (λ w. refl)
        (λ j _ w. ground (arith, h.owned j w));
  intact = inl refl;
}
opened i (some f) pc now h = moved i busy _ refl refl h

written-owner : (i now : ℕ) (file : Option LockFile) → owner (written i now file) ≡ owner file
unfolding written
written-owner i now none = refl
written-owner i now (some f) = ground arith

written-Proper : (i now : ℕ) (file : Option LockFile) → Proper file → Proper (written i now file)
unfolding written
written-Proper i now none h = tt
written-Proper i now (some f) h = elim (Bool-cases (f.creator == i)) [
  | inl e ↦ (rw e (inr (ap (λ k. some (lock_metadata k now)) (sym ((nat_eq_iff f.creator i).0 e)))))
  | inr e ↦ (rw e h)
]

wrote :
    (i : ℕ) (s : System)
    → owns (s.pc i) ≡ true
    → Orderly s
    → Orderly (record s { file = written i s.now s.file; pc = update s.pc i holding })
wrote i s o h = record {
  calm = update-each (λ _ p. quiet p ≡ true) s.pc i holding refl (λ j _. h.calm j);
  owned =
      update-each (λ j p. owns p ≡ true → owner (written i s.now s.file) ≡ some j) s.pc i holding
        (λ _. written-owner i s.now s.file ∙ h.owned i o)
        (λ j _ w. written-owner i s.now s.file ∙ h.owned j w);
  intact = written-Proper i s.now s.file h.intact;
}

advance-Orderly :
    (stale_ms : Option ℕ) (i : ℕ) (p : Pc) (s : System)
    → never_stale stale_ms ≡ true
    → s.pc i ≡ p
    → Orderly s
    → Orderly (advance_at stale_ms i p s)
unfolding advance_at
advance-Orderly stale_ms i idle s n e h = h
advance-Orderly stale_ms i reading s n e h =
    let next = after_read-opening stale_ms s.pc s.file n h.calm h.intact in
    rw next (moved i opening s refl refl h)
advance-Orderly stale_ms i statting s n e h = absurd (ground (arith, h.calm i))
advance-Orderly stale_ms i removing s n e h = absurd (ground (arith, h.calm i))
advance-Orderly stale_ms i opening s n e h = opened i s.file s.pc s.now h
advance-Orderly stale_ms i writing s n e h = wrote i s (rw e refl) h
advance-Orderly stale_ms i holding s n e h = h
advance-Orderly stale_ms i busy s n e h = h
advance-Orderly stale_ms i crashed s n e h = h

abbrev pub Runs : Action → Type 0
Runs (crash i) = ⊥
Runs _ = Unit

step-Orderly :
    (stale_ms : Option ℕ) (a : Action) (s : System)
    → never_stale stale_ms ≡ true
    → Runs a
    → Orderly s
    → Orderly (step stale_ms a s)
unfolding step
step-Orderly stale_ms (acquire i) s n r h = elim (Bool-cases (ready (s.pc i))) [
  | inl e ↦ (rw e (moved i reading s refl refl h))
  | inr e ↦ (rw e h)
]
step-Orderly stale_ms (advance i) s n r h = advance-Orderly stale_ms i (s.pc i) s n refl h
step-Orderly stale_ms (release i) s n r h = elim (Bool-cases (holds (s.pc i))) [
  | inl e ↦ (rw e (removed i s (ground arith) h))
  | inr e ↦ (rw e h)
]
step-Orderly stale_ms (crash i) s n r h = absurd r
step-Orderly stale_ms (tick t) s n r h = record {
  calm = h.calm;
  owned = h.owned;
  intact = h.intact;
}

run-Orderly :
    (stale_ms : Option ℕ) (actions : List Action) (s : System)
    → never_stale stale_ms ≡ true
    → All Runs actions
    → Orderly s
    → Orderly (run stale_ms actions s)
unfolding run
run-Orderly stale_ms [] s n r h = h
run-Orderly stale_ms (a ∷ actions) s n r h =
    run-Orderly stale_ms actions (step stale_ms a s) n r.1 (step-Orderly stale_ms a s n r.0 h)

-- While no process crashes and no staleness limit is set, at most one process holds the lock,
-- however the file system calls of any number of processes interleave.
pub run-exclusive :
    (stale_ms : Option ℕ) (actions : List Action) (i j : ℕ)
    → never_stale stale_ms ≡ true
    → All Runs actions
    → holds ((run stale_ms actions initial).pc i) ≡ true
    → holds ((run stale_ms actions initial).pc j) ≡ true
    → i ≡ j
run-exclusive stale_ms actions i j n r hi hj =
    let start : Orderly initial = record {
      calm = λ i. refl;
      owned = λ i w. absurd (ground arith);
      intact = tt;
    } in
    let h : Orderly (run stale_ms actions initial) =
      run-Orderly stale_ms actions initial n r start in
    ground (arith, h.owned i (ground (arith, hi)), h.owned j (ground (arith, hj)))

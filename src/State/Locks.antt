-- ===== src/State/Locks.antt =====
-- src/state/locks.ts: a lock is a file that is created exclusively. Each action below is one call
-- of the file system, so that the calls of several processes interleave in any order; `Names` is
-- the test on a lock's name. The asynchronous variants make the same calls in the same order.
mod Names
pub mod Exclusion
pub mod Takeover
pub mod Race
pub mod Paths
unfoldable pub use Names.{at_most, lock_name, valid_lock_name}
pub use Names.*
use dg_cli.Common.{
  ℕ, zero, suc, ◌-◌, String, Bool, true, false, not, Option, none, some, List, [], ◌∷◌, ◌==◌,
  nat_Eq, ltb, if◌then◌else◌, show_nat,
}
use dg_cli.Common.Json
use dg_cli.Common.Json.{Json, number, text, object, field, end}

pub data LockHolderState : Type 0 where
  absent alive dead unknown : LockHolderState

-- The file at the lock's path: which process created it, what it holds (`none` if it cannot be read
-- or parsed, as before the metadata are written), and its modification time.
pub record LockFile : Type 0 where
  pub creator : ℕ
  pub content : Option Json
  pub mtime : ℕ

-- Where a process stands in `acquireLockSync`, and behind it.
pub data Pc : Type 0 where
  idle : Pc
  reading : Pc
  statting : Pc
  removing : Pc
  opening : Pc
  writing : Pc
  holding : Pc
  busy : Pc
  crashed : Pc

pub record System : Type 0 where
  pub file : Option LockFile
  pub pc : ℕ → Pc
  pub now : ℕ

abbrev pub update : (ℕ → Pc) → ℕ → Pc → ℕ → Pc
update f i p j = if i == j then p else f j

-- Process `i` has the pid `i + 1`; a pid is never 0.
abbrev pub pid_of : ℕ → ℕ
pid_of i = suc i

abbrev pub is_crashed : Pc → Bool
is_crashed crashed = true
is_crashed _ = false

-- `process.kill(pid, 0)`
abbrev pub is_process_alive : (ℕ → Pc) → ℕ → Bool
is_process_alive pc zero = false
is_process_alive pc (suc i) = not (is_crashed (pc i))

pub pid_state : (ℕ → Pc) → Option Json → LockHolderState
pid_state pc (some (number (suc i))) = if is_process_alive pc (suc i) then alive else dead
pid_state pc _ = unknown

pub pid_field : Option Json → Option Json
pid_field (some (object fields)) = Json.lookup "pid" fields
pid_field _ = none

-- A pid that is no positive integer says nothing about the holder.
unfoldable pub holder_state_from_content : (ℕ → Pc) → Option Json → LockHolderState
unfolding pid_state pid_field
holder_state_from_content pc content = pid_state pc (pid_field content)

-- `!options.staleMs`
abbrev pub never_stale : Option ℕ → Bool
never_stale none = true
never_stale (some n) = n == 0

after_state : Option ℕ → LockHolderState → Pc
after_state stale_ms alive = opening
after_state stale_ms dead = removing
after_state stale_ms _ = if never_stale stale_ms then opening else statting

-- `removeStaleLockSync` from its read on: what the process does next.
pub after_read : Option ℕ → (ℕ → Pc) → Option LockFile → Pc
unfolding after_state
after_read stale_ms pc none = opening
after_read stale_ms pc (some f) = after_state stale_ms (holder_state_from_content pc f.content)

-- From its `statSync` on. The file's age is an integer, negative if its time lies ahead.
pub after_stat : Option ℕ → ℕ → Option LockFile → Pc
after_stat stale_ms now none = opening
after_stat none now (some f) = opening
after_stat (some stale) now (some f) = if ltb (now - f.mtime) stale then opening else removing

-- The text of the time is the number of its milliseconds; nothing reads it back.
pub lock_metadata : ℕ → ℕ → Json
lock_metadata i now =
    object (field "pid" (number (pid_of i)) (field "acquiredAt" (text (show_nat now)) end))

-- `openSync(path, "wx")`: the file must not exist.
pub open_exclusive : ℕ → System → System
open_exclusive i s = elim s.file [
  | none ↦ record s {
    file = some (record { creator = i; content = none; mtime = s.now });
    pc = update s.pc i writing;
  }
  | some f ↦ record s { pc = update s.pc i busy }
]

-- The write goes to the open file, which may stand at another path by now.
pub written : ℕ → ℕ → Option LockFile → Option LockFile
unfolding lock_metadata
written i now none = none
written i now (some f) =
    if f.creator == i
    then some (record f { content = some (lock_metadata i now); mtime = now })
    else some f

-- The next call that process `i` makes.
pub advance_at : Option ℕ → ℕ → Pc → System → System
advance_at stale_ms i reading s = record s { pc = update s.pc i (after_read stale_ms s.pc s.file) }
advance_at stale_ms i statting s = record s {
  pc = update s.pc i (after_stat stale_ms s.now s.file);
}
advance_at stale_ms i removing s = record s { file = none; pc = update s.pc i opening }
advance_at stale_ms i opening s = open_exclusive i s
advance_at stale_ms i writing s = record s {
  file = written i s.now s.file;
  pc = update s.pc i holding;
}
advance_at stale_ms i _ s = s

abbrev pub ready : Pc → Bool
ready idle = true
ready busy = true
ready _ = false

abbrev pub holds : Pc → Bool
holds holding = true
holds _ = false

pub data Action : Type 0 where
  acquire advance release crash : ℕ → Action
  tick : ℕ → Action

-- `release` removes the path, whatever stands there.
unfoldable pub step : Option ℕ → Action → System → System
unfolding advance_at after_read holder_state_from_content after_stat open_exclusive written
step stale_ms (acquire i) s = if ready (s.pc i) then record s { pc = update s.pc i reading } else s
step stale_ms (advance i) s = advance_at stale_ms i (s.pc i) s
step stale_ms (release i) s =
    if holds (s.pc i) then record s { file = none; pc = update s.pc i idle } else s
step stale_ms (crash i) s = record s { pc = update s.pc i crashed }
step stale_ms (tick n) s = record s { now = n }

unfoldable pub run : Option ℕ → List Action → System → System
unfolding step
run stale_ms [] s = s
run stale_ms (a ∷ actions) s = run stale_ms actions (step stale_ms a s)

abbrev pub initial : System
initial = record { file = none; pc = λ i. idle; now = 0 }

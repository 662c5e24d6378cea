-- ===== src/Proxy/Enforcement/Log.antt =====
-- What `enforceProtectedInstall` of src/proxy/enforcement.ts leaves behind: one line in the audit
-- log for each block and each override, and at most one notice.
use dg_cli.Common.{
  ◌+◌, ◌≤◌, String, ◌≡◌, inl, inr, true, false, ◌&&◌, Option, none, some, List, [], ◌∷◌, ◌++◌,
  arith, refl, subst, Bool-cases, length, template, if◌then◌else◌,
}
use mathlib.Core.List.{append-nil}
use dg_cli.Config.{mode_text, PolicyMode}
use dg_cli.Audit.Events.{AuditEvent, AuditLog, install_blocked}
use dg_cli.Policy.Evaluate.{EffectivePolicy, is_block, override_event}
use dg_cli.Policy.Evaluate.Override.{date_of}
use dg_cli.Proxy.Enforcement.{
  EnforcementDecision, OverrideNote, ProtectedInstallRequest, World, config_of, base_decision,
  note_enforcement_side_effect_failure, decide, enforce_protected_install,
}
use dg_cli.Proxy.Enforcement.Doors.{is_ok, effective_of, base_of, enforce_lem}

abbrev pub override_lines : String → PolicyMode → String → Option OverrideNote → List AuditEvent
override_lines name mode date none = []
override_lines name mode date (some note) =
    if note.allowed then override_event name mode date ∷ [] else []

-- The line that a decision calls for, at a date.
abbrev pub expected_lines : EnforcementDecision → String → List AuditEvent
expected_lines d date =
    if is_block d.action
    then record {
      event_type = install_blocked;
      package_name = d.package_name;
      reason = d.reason;
      policy_mode = mode_text d.policy_mode;
      created_at = date;
    }
      ∷ []
    else override_lines d.package_name d.policy_mode date d.force_override

decide-lines :
    (request : ProtectedInstallRequest) (effective : EffectivePolicy) (d : EnforcementDecision)
    (w : World)
    → d.force_override ≡ none
    → d.policy_mode ≡ effective.mode
    → (decide request effective d w).1.audit.lines
      ≡ w.audit.lines
        ++ (if w.audit.writable && is_ok request.created_at
            then expected_lines (decide request effective d w).0 (date_of request.created_at)
            else [])
unfolding decide
decide-lines request effective d w h m = ground (arith, append-nil w.audit.lines)

-- One notice at most, and none once one was written.
pub record Notices (w w' : World) : Type 0 where
  pub silent : w.noticed ≡ true → w'.stderr ≡ w.stderr
  pub kept : w.noticed ≡ true → w'.noticed ≡ true
  pub unnoticed : w'.noticed ≡ false → w'.stderr ≡ w.stderr
  pub one : length w'.stderr ≤ length w.stderr + 1

length-snoc : (xs : List String) (x : String) → length (xs ++ x ∷ []) ≡ length xs + 1
length-snoc [] x = refl
length-snoc (y ∷ xs) x = omega (arith, length-snoc xs x)

note-Notices :
    (message : String) (w : World) → Notices w (note_enforcement_side_effect_failure message w)
unfolding note_enforcement_side_effect_failure
note-Notices message w = ground (
  arith,
  length-snoc w.stderr (
      template (
        "dg: local state read/write failed (" ∷ message
        ∷ "); the install decision is still enforced.\n" ∷ [])),
)

Notices-trans : (w v u : World) → Notices w v → Notices v u → Notices w u
Notices-trans w v u a b = elim (Bool-cases v.noticed) [
  | inl e ↦ ground (arith, b.silent e, b.kept e)
  | inr e ↦ ground (arith, a.unnoticed e, b.unnoticed)
]

decide-Notices :
    (request : ProtectedInstallRequest) (effective : EffectivePolicy) (d : EnforcementDecision)
    (w : World)
    → Notices w (decide request effective d w).1
unfolding decide
decide-Notices request effective d w = record {
  silent = ground arith;
  kept = ground arith;
  unnoticed = ground arith;
  one = grind (arith, length-snoc);
}

config_of-Notices :
    (request : ProtectedInstallRequest) (w : World) → Notices w (config_of request w).1
unfolding config_of
config_of-Notices request w = record {
  silent = ground arith;
  kept = ground arith;
  unnoticed = ground arith;
  one = grind (arith, length-snoc);
}

audit-config_of :
    (request : ProtectedInstallRequest) (w : World) → (config_of request w).1.audit ≡ w.audit
unfolding config_of
audit-config_of request w = ground arith

base_fields :
    (request : ProtectedInstallRequest) (effective : EffectivePolicy)
    → ((base_decision request effective).force_override ≡ none)
      × ((base_decision request effective).policy_mode ≡ effective.mode)
unfolding base_decision
base_fields request effective = (refl, refl)

abbrev decided : ProtectedInstallRequest → World → EnforcementDecision × World
decided request w =
    decide request (effective_of request w) (base_of request w) (config_of request w).1

-- A decision leaves exactly its own line in the audit log, if the log can be written and the date
-- is valid: install.blocked for a block, install.force_override for a granted override, and none
-- for any other decision. What stood in the log stays.
pub enforce-lines :
    (request : ProtectedInstallRequest) (w : World)
    → (enforce_protected_install request w).1.audit.lines
      ≡ w.audit.lines
        ++ (if w.audit.writable && is_ok request.created_at
            then expected_lines (enforce_protected_install request w).0 (date_of request.created_at)
            else [])
enforce-lines request w =
    let base = base_fields request (effective_of request w) in
    rw enforce_lem (
      subst
        (λ (a : AuditLog).
          (decided request w).1.audit.lines
          ≡ a.lines
            ++ (if a.writable && is_ok request.created_at
                then expected_lines (decided request w).0 (date_of request.created_at)
                else []))
        (audit-config_of request w)
        (decide-lines request (effective_of request w) (base_of request w) (config_of request w).1
          base.0 base.1))

-- Failures of the local state are reported at most once in a process: one decision writes at most
-- one notice, and none if one was written before; it writes none without recording that it did.
pub enforce-Notices :
    (request : ProtectedInstallRequest) (w : World)
    → Notices w (enforce_protected_install request w).1
enforce-Notices request w = rw enforce_lem (
    Notices-trans w (config_of request w).1 _ (config_of-Notices request w)
      (decide-Notices request (effective_of request w) (base_of request w) (config_of request w).1))

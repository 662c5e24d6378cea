-- ===== src/Scripts/Gate/Observed.antt =====
-- What is recorded of the install scripts that packages want to run, src/scripts/gate.ts.
use dg_cli.Common.{
  ◌≡◌, refl, sym, ap, subst, ◌∙◌, String, Bool, true, false, not, ◌&&◌, ◌||◌, inl, inr, Option,
  none, some, List, [], ◌∷◌, all, ◌==◌, string_Eq, str_eq_iff, Value, present, value, put,
  value-put, value-put_other, Bool-cases, if◌then◌else◌, arith,
}
use dg_cli.Project.DgFile.{ScriptHook, ObservedScriptEntry, DgFile}
use dg_cli.Scripts.Gate.{
  ScriptWanter, same_hooks, unchanged, observation, observe_all, record_script_observations,
}

abbrev Records : Type 0
Records = List (String × ObservedScriptEntry)

-- No other wanter has the name.
abbrev pub fresh : ScriptWanter → List ScriptWanter → Bool
fresh wanter wanters = all (λ other. not (other.name == wanter.name)) wanters

abbrev pub distinct : List ScriptWanter → Bool
distinct [] = true
distinct (wanter ∷ wanters) = fresh wanter wanters && distinct wanters

same_hooks_refl : (hooks : List ScriptHook) → same_hooks hooks hooks ≡ true
unfolding same_hooks
same_hooks_refl [] = refl
same_hooks_refl (hook ∷ hooks) = ground (arith, same_hooks_refl hooks)

observation-unchanged :
    (wanter : ScriptWanter) (existing : Value ObservedScriptEntry) (now : String)
    → unchanged wanter (present (observation wanter existing now)) ≡ true
unfolding observation
observation-unchanged wanter existing now =
    rw
      (
        (str_eq_iff wanter.version wanter.version).1 refl,
        (str_eq_iff wanter.scripts_hash wanter.scripts_hash).1 refl,
        same_hooks_refl wanter.hooks,
      )
      refl

-- Other packages keep their records.
observe_all-other :
    (wanters : List ScriptWanter) (now : String) (changed : Bool) (observed : Records)
    (wanter : ScriptWanter)
    → fresh wanter wanters ≡ true
    → value (observe_all wanters now (changed, observed)).1 wanter.name ≡ value observed wanter.name
unfolding observe_all
observe_all-other [] now changed observed wanter f = refl
observe_all-other (w ∷ wanters) now changed observed wanter f =
    let apart : (w.name == wanter.name) ≡ false = ground arith in
    let later : fresh wanter wanters ≡ true = ground arith in
    elim (Bool-cases (unchanged w (value observed w.name))) [
      | inl u ↦ (rw u (observe_all-other wanters now changed observed wanter later))
      | inr u ↦
          (rw u (
            observe_all-other wanters now true _ wanter later
            ∙ value-put_other observed w.name wanter.name _ apart))
    ]

-- Whether the records have what each wanter wants to run.
abbrev pub settled : List ScriptWanter → Records → Bool
settled wanters observed = all (λ wanter. unchanged wanter (value observed wanter.name)) wanters

observe_all-first :
    (wanter : ScriptWanter) (wanters : List ScriptWanter) (now : String) (changed : Bool)
    (observed : Records)
    → fresh wanter wanters ≡ true
    → unchanged wanter (value observed wanter.name) ≡ true
    → unchanged wanter (value (observe_all wanters now (changed, observed)).1 wanter.name) ≡ true
observe_all-first wanter wanters now changed observed f u =
    ap (unchanged wanter) (observe_all-other wanters now changed observed wanter f) ∙ u

-- The state after the first wanter.
abbrev after_first : ScriptWanter → String → Bool → Records → Bool × Records
after_first w now changed observed =
    if unchanged w (value observed w.name)
    then (changed, observed)
    else (true, put observed w.name (observation w (value observed w.name) now))

observe_all-cons :
    (w : ScriptWanter) (wanters : List ScriptWanter) (now : String) (changed : Bool)
    (observed : Records)
    → observe_all (w ∷ wanters) now (changed, observed)
      ≡ observe_all wanters now (after_first w now changed observed)
unfolding observe_all
observe_all-cons w wanters now changed observed =
    elim (Bool-cases (unchanged w (value observed w.name))) [
      | inl u ↦ (rw u refl)
      | inr u ↦ (rw u refl)
    ]

after_first-unchanged :
    (w : ScriptWanter) (now : String) (changed : Bool) (observed : Records)
    → unchanged w (value (after_first w now changed observed).1 w.name) ≡ true
after_first-unchanged w now changed observed =
    elim (Bool-cases (unchanged w (value observed w.name))) [
      | inl u ↦ (rw (u, u) refl)
      | inr u ↦
          let e = observation w (value observed w.name) now in
          rw u (
            ap (unchanged w) (value-put observed w.name e)
            ∙ observation-unchanged w (value observed w.name) now)
    ]

observe_all-settled :
    (wanters : List ScriptWanter) (now : String) (changed : Bool) (observed : Records)
    → distinct wanters ≡ true
    → settled wanters (observe_all wanters now (changed, observed)).1 ≡ true
unfolding observe_all
observe_all-settled [] now changed observed d = refl
observe_all-settled (w ∷ wanters) now changed observed d =
    let (changed', observed') = after_first w now changed observed in
    let first =
      observe_all-first w wanters now changed' observed' (ground arith)
        (after_first-unchanged w now changed observed) in
    let later = observe_all-settled wanters now changed' observed' (ground arith) in
    subst (λ r. settled (w ∷ wanters) r.1 ≡ true)
      (sym (observe_all-cons w wanters now changed observed)) (rw (first, later) refl)

settled-observe_all :
    (wanters : List ScriptWanter) (now : String) (changed : Bool) (observed : Records)
    → settled wanters observed ≡ true
    → observe_all wanters now (changed, observed) ≡ (changed, observed)
unfolding observe_all
settled-observe_all [] now changed observed s = refl
settled-observe_all (w ∷ wanters) now changed observed s =
    let u : unchanged w (value observed w.name) ≡ true = ground arith in
    rw u (settled-observe_all wanters now changed observed (ground arith))

with_observed : DgFile → Records → DgFile
with_observed file observed = record file {
  script_approvals = record (file.script_approvals) { observed = observed };
}

-- A file is saved only past the guards and with a change.
saved : Bool → Bool × Records → DgFile → Option DgFile
unfolding with_observed
saved refused r file =
    if refused then none else if not r.0 then none else some (with_observed file r.1)

saved-observed :
    (refused : Bool) (r : Bool × Records) (file file' : DgFile)
    → saved refused r file ≡ some file'
    → file'.script_approvals.observed ≡ r.1
unfolding saved
saved-observed true r file file' h = absurd (ground arith)
saved-observed false (false, observed) file file' h = absurd (ground arith)
saved-observed false (true, observed) file file' h =
    ap (λ (o : Option DgFile). records_of o) (sym h)
  where
    records_of : Option DgFile → Records
    records_of none = []
    records_of (some f) = f.script_approvals.observed

saved-unchanged :
    (refused : Bool) (r : Bool × Records) (file : DgFile)
    → r.0 ≡ false
    → saved refused r file ≡ none
unfolding saved
saved-unchanged refused (changed, observed) file h = ground arith

-- What was written is enough: where each package is wanted once and the saved records are read back,
-- recording the same wanters again, at any later time, writes nothing.
pub record_script_observations_idem :
    (file file' reloaded : DgFile) (wanters : List ScriptWanter)
    (create_if_missing create_later : Bool) (now later : String)
    → distinct wanters ≡ true
    → record_script_observations file wanters create_if_missing now ≡ some file'
    → reloaded.script_approvals.observed ≡ file'.script_approvals.observed
    → record_script_observations reloaded wanters create_later later ≡ none
unfolding record_script_observations saved
record_script_observations_idem file file' reloaded [] c c' now later d h e = refl
record_script_observations_idem file file' reloaded (w ∷ wanters) c c' now later d h e =
    let r = observe_all (w ∷ wanters) now (false, file.script_approvals.observed) in
    let records =
      e ∙ saved-observed (not file.readable || (not file.exists && not c)) r file file' h in
    let done =
      subst (λ o. settled (w ∷ wanters) o ≡ true) (sym records)
        (observe_all-settled (w ∷ wanters) now false file.script_approvals.observed d) in
    saved-unchanged (not reloaded.readable || (not reloaded.exists && not c'))
      (observe_all (w ∷ wanters) later (false, reloaded.script_approvals.observed)) reloaded
      (ap (λ (p : Bool × Records). p.0)
        (settled-observe_all (w ∷ wanters) later false reloaded.script_approvals.observed done))

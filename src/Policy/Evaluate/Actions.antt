-- ===== src/Policy/Evaluate/Actions.antt =====
-- What `evaluatePackagePolicy` of src/policy/evaluate.ts decides.
use dg_cli.Common.{
  ℕ, ◌≤◌, String, ◌≡◌, ◌≢◌, ◌↔◌, ◌⊎◌, refl, Bool, true, false, not, Option, none, some, List, [],
  ◌∷◌, arith, keep, find, All, Bool-cases, inl, inr, str_eq_iff,
}
use dg_cli.Config.{PolicyMode, off, strict}
use dg_cli.Policy.Evaluate.{
  Verdict, pass, warn, block, project, AllowlistEntry, EffectivePolicy, PolicySource,
  evaluate_by_mode, is_trusted, evaluate_package_policy,
}

-- How severe an action is, and how strict a mode.
abbrev pub severity : Verdict → ℕ
severity pass = 0
severity warn = 1
severity block = 2

abbrev pub strictness : PolicyMode → ℕ
strictness off = 0
strictness PolicyMode.warn = 1
strictness PolicyMode.block = 2
strictness strict = 3

-- A worse verdict or a stricter mode never gives a milder action, whatever the allowlists.
pub evaluate_mono :
    (v w : Verdict) (name : String) (policy : EffectivePolicy) (mode : PolicyMode)
    (allowlists : Option (List AllowlistEntry))
    → severity v ≤ severity w
    → strictness policy.mode ≤ strictness mode
    → severity (evaluate_package_policy v name policy allowlists).action
      ≤ severity (evaluate_package_policy w name (record policy { mode = mode }) allowlists).action
unfolding evaluate_package_policy
evaluate_mono v w name policy mode allowlists h k = ground arith

-- The rule below the allowlist: block in block mode for a block verdict, and in strict mode for any
-- verdict but pass.
pub evaluate_by_mode-block_iff :
    (m : PolicyMode) (v : Verdict) (s : PolicySource)
    → ((evaluate_by_mode m v s).action ≡ block)
      ↔ (((m ≡ PolicyMode.block) × (v ≡ block)) ⊎ ((m ≡ strict) × (v ≢ pass)))
unfolding evaluate_by_mode
evaluate_by_mode-block_iff m v s = ground arith

-- An allowlist entry that the policy trusts for a package.
abbrev pub Trusts : EffectivePolicy → String → AllowlistEntry → Type 0
Trusts policy name entry =
    (entry.package_name ≡ name)
    × ((entry.trusted_by ≢ project) ⊎ (policy.trust_project_allowlists ≡ true))

is_trusted-false_iff :
    (name : String) (policy : EffectivePolicy) (entry : AllowlistEntry)
    → (is_trusted name policy entry ≡ false) ↔ ¬ Trusts policy name entry
unfolding is_trusted
is_trusted-false_iff name policy entry = ground (arith, str_eq_iff entry.package_name name)

find-none_iff :
    (name : String) (policy : EffectivePolicy) (entries : List AllowlistEntry)
    → (find (is_trusted name policy) entries ≡ none) ↔ All (λ e. ¬ Trusts policy name e) entries
find-none_iff name policy [] = ((λ _. tt), (λ _. refl))
find-none_iff name policy (x ∷ xs) =
    let later = find-none_iff name policy xs in
    let here = is_trusted-false_iff name policy x in
    elim (Bool-cases (is_trusted name policy x)) [
      | inl e ↦ rw e ((λ h. cc), (λ h. cc (here.1 h.0)))
      | inr e ↦ rw e ((λ h. (here.0 e, later.0 h)), (λ h. later.1 h.1))
    ]

-- A package is blocked exactly when no allowlist entry that the policy trusts names it and either
-- the verdict is block in block mode, or the verdict is warn or block in strict mode.
pub evaluate-block_iff :
    (v : Verdict) (name : String) (policy : EffectivePolicy) (entries : List AllowlistEntry)
    → ((evaluate_package_policy v name policy (some entries)).action ≡ block) ↔ (
        All (λ e. ¬ Trusts policy name e) entries
        × (((policy.mode ≡ PolicyMode.block) × (v ≡ block))
            ⊎ ((policy.mode ≡ strict) × (v ≢ pass))))
unfolding evaluate_package_policy
evaluate-block_iff v name policy entries = ground (arith, find-none_iff name policy entries)

-- While the policy does not trust project allowlists, the project's entries change nothing: the
-- evaluation is the one without them.
abbrev pub is_project : AllowlistEntry → Bool
is_project entry = elim entry.trusted_by [ project ↦ true | _ ↦ false ]

find-without_project :
    (name : String) (policy : EffectivePolicy) (entries : List AllowlistEntry)
    → policy.trust_project_allowlists ≡ false
    → find (is_trusted name policy) entries
      ≡ find (is_trusted name policy) (keep (λ e. not (is_project e)) entries)
unfolding is_trusted
find-without_project name policy [] h = refl
find-without_project name policy (x ∷ xs) h = ground (arith, find-without_project name policy xs h)

-- While project allowlists are not trusted, a package is evaluated as if the project had none: its
-- entries change neither the action nor the source nor the reason.
pub evaluate-without_project :
    (v : Verdict) (name : String) (policy : EffectivePolicy) (entries : List AllowlistEntry)
    → policy.trust_project_allowlists ≡ false
    → evaluate_package_policy v name policy (some entries)
      ≡ evaluate_package_policy v name policy (some (keep (λ e. not (is_project e)) entries))
unfolding evaluate_package_policy
evaluate-without_project v name policy entries h =
    ground (arith, find-without_project name policy entries h)

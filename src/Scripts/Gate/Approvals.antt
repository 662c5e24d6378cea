-- ===== src/Scripts/Gate/Approvals.antt =====
-- Which install scripts count as approved, src/scripts/gate.ts.
use dg_cli.Common.{
  ◌≡◌, refl, sym, ap, ◌∙◌, String, Bool, true, false, not, ◌&&◌, inl, inr, some, List, [], ◌∷◌,
  ◌++◌, map, keep, ◌==◌, string_Eq, str_eq_iff, Value, absent, present, of_prototype, value, put,
  value-put, Bool-cases, if◌then◌else◌, arith,
}
use mathlib.Core.List.{append_assoc, append-nil}
use dg_cli.Project.DgFile.{ScriptApprovalEntry, ScriptDecision, allow, deny, DgFile}
use dg_cli.Scripts.Gate.{
  ScriptWanter, Drift, ScriptGateEvaluation, sort_wanter, evaluate_from, evaluate_script_gate,
  ScriptDecisionInput, approval_of, approve_all, apply_script_decisions,
}

abbrev pub matches : ScriptWanter → ScriptApprovalEntry → Bool
matches wanter entry = entry.scripts_hash == wanter.scripts_hash

abbrev pub is_allow : ScriptDecision → Bool
is_allow allow = true
is_allow deny = false

-- What an approval says of a wanter.
abbrev pub approves : Bool → ScriptWanter → Value ScriptApprovalEntry → Bool
approves decision wanter (present entry) =
    matches wanter entry
    && (if decision then is_allow entry.decision else not (is_allow entry.decision))
approves decision wanter _ = false

abbrev pub is_unknown : Value ScriptApprovalEntry → Bool
is_unknown absent = true
is_unknown _ = false

abbrev pub has_drifted : ScriptWanter → Value ScriptApprovalEntry → Bool
has_drifted wanter absent = false
has_drifted wanter (present entry) = not (matches wanter entry)
has_drifted wanter of_prototype = true

-- The wanters at which a test on their approvals holds.
abbrev pub such :
    (ScriptWanter → Value ScriptApprovalEntry → Bool)
    → List (String × ScriptApprovalEntry)
    → List ScriptWanter
    → List ScriptWanter
such test approvals = keep (λ wanter. test wanter (value approvals wanter.name))

abbrev pub wanter_of : Drift → ScriptWanter
wanter_of drift = drift.wanter

record Sorted (approvals : List (String × ScriptApprovalEntry)) (wanters : List ScriptWanter)
    (e e' : ScriptGateEvaluation) : Type 0 where
  approved : e'.approved ≡ e.approved ++ such (approves true) approvals wanters
  denied : e'.denied ≡ e.denied ++ such (approves false) approvals wanters
  pending : e'.pending ≡ e.pending ++ such (λ _ v. is_unknown v) approvals wanters
  drifted : map wanter_of e'.drifted ≡ map wanter_of e.drifted ++ such has_drifted approvals wanters

append_in {ℓ} :
    {A : Type ℓ} (p : A → Bool) (x : A) (xs front mid : List A)
    → mid ≡ front ++ (if p x then x ∷ [] else [])
    → mid ++ keep p xs ≡ front ++ keep p (x ∷ xs)
append_in p x xs front mid h = elim (Bool-cases (p x)) [
  | inl e ↦ (rw (h, e) (append_assoc front (x ∷ []) (keep p xs)))
  | inr e ↦ (rw (h, e) (ap (λ f. f ++ keep p xs) (append-nil front)))
]

abbrev one : Bool → ScriptWanter → List ScriptWanter
one b wanter = if b then wanter ∷ [] else []

record Placed (wanter : ScriptWanter) (v : Value ScriptApprovalEntry) (e e' : ScriptGateEvaluation)
    : Type 0 where
  approved : e'.approved ≡ e.approved ++ one (approves true wanter v) wanter
  denied : e'.denied ≡ e.denied ++ one (approves false wanter v) wanter
  pending : e'.pending ≡ e.pending ++ one (is_unknown v) wanter
  drifted : map wanter_of e'.drifted ≡ map wanter_of e.drifted ++ one (has_drifted wanter v) wanter

map-append_one :
    (drifts : List Drift) (d : Drift)
    → map wanter_of (drifts ++ d ∷ []) ≡ map wanter_of drifts ++ wanter_of d ∷ []
map-append_one [] d = refl
map-append_one (c ∷ drifts) d = ap (λ rest. wanter_of c ∷ rest) (map-append_one drifts d)

sort_wanter-Placed :
    (wanter : ScriptWanter) (v : Value ScriptApprovalEntry) (e : ScriptGateEvaluation)
    → Placed wanter v e (sort_wanter wanter v e)
unfolding sort_wanter
sort_wanter-Placed wanter absent e = record {
  approved = sym (append-nil e.approved);
  denied = sym (append-nil e.denied);
  pending = refl;
  drifted = sym (append-nil (map wanter_of e.drifted));
}
sort_wanter-Placed wanter of_prototype e = record {
  approved = sym (append-nil e.approved);
  denied = sym (append-nil e.denied);
  pending = sym (append-nil e.pending);
  drifted = map-append_one e.drifted _;
}
sort_wanter-Placed wanter (present entry) e = record {
  approved = ground (arith, append-nil e.approved);
  denied = ground (arith, append-nil e.denied);
  pending = ground (arith, append-nil e.pending);
  drifted = ground (
    arith,
    append-nil (map wanter_of e.drifted),
    map-append_one e.drifted (record { wanter = wanter; prior_hash = some entry.scripts_hash }),
  );
}

evaluate_from-Sorted :
    (approvals : List (String × ScriptApprovalEntry)) (wanters : List ScriptWanter)
    (e : ScriptGateEvaluation)
    → Sorted approvals wanters e (evaluate_from approvals wanters e)
unfolding evaluate_from
evaluate_from-Sorted approvals [] e = record {
  approved = sym (append-nil e.approved);
  denied = sym (append-nil e.denied);
  pending = sym (append-nil e.pending);
  drifted = sym (append-nil (map wanter_of e.drifted));
}
evaluate_from-Sorted approvals (wanter ∷ wanters) e =
    let v = value approvals wanter.name in
    let here = sort_wanter-Placed wanter v e in
    let later = evaluate_from-Sorted approvals wanters (sort_wanter wanter v e) in
    record {
      approved =
          later.approved
          ∙ append_in (λ w. approves true w (value approvals w.name)) wanter wanters _ _
              here.approved;
      denied =
          later.denied
          ∙ append_in (λ w. approves false w (value approvals w.name)) wanter wanters _ _
              here.denied;
      pending =
          later.pending
          ∙ append_in (λ w. is_unknown (value approvals w.name)) wanter wanters _ _ here.pending;
      drifted =
          later.drifted
          ∙ append_in (λ w. has_drifted w (value approvals w.name)) wanter wanters _ _ here.drifted;
    }

-- The gate sorts the wanters, in their order: approved and denied are those whose entry has their
-- hash, by its decision; pending are those without an entry; drifted are the others, whose entry has
-- another hash, or whose name is one of Object.prototype without an entry.
pub evaluate_script_gate-sorts :
    (wanters : List ScriptWanter) (approvals : List (String × ScriptApprovalEntry))
    → ((evaluate_script_gate wanters approvals).approved ≡ such (approves true) approvals wanters)
      × ((evaluate_script_gate wanters approvals).denied ≡ such (approves false) approvals wanters)
      × ((evaluate_script_gate wanters approvals).pending
          ≡ such (λ _ v. is_unknown v) approvals wanters)
      × (map wanter_of (evaluate_script_gate wanters approvals).drifted
          ≡ such has_drifted approvals wanters)
unfolding evaluate_script_gate
evaluate_script_gate-sorts wanters approvals =
    let h = evaluate_from-Sorted approvals wanters _ in (h.approved, h.denied, h.pending, h.drifted)

approve_all-append :
    (inputs : List ScriptDecisionInput) (input : ScriptDecisionInput) (now : String)
    (npm : List (String × ScriptApprovalEntry))
    → approve_all (inputs ++ input ∷ []) now npm
      ≡ put (approve_all inputs now npm) input.wanter.name (approval_of input now)
unfolding approve_all
approve_all-append [] input now npm = refl
approve_all-append (i ∷ inputs) input now npm =
    approve_all-append inputs input now (put npm i.wanter.name (approval_of i now))

apply-npm :
    (file : DgFile) (inputs : List ScriptDecisionInput) (now : String)
    → (apply_script_decisions file inputs now).script_approvals.npm
      ≡ approve_all inputs now file.script_approvals.npm
unfolding apply_script_decisions approve_all
apply-npm file [] now = refl
apply-npm file (i ∷ inputs) now = refl

approval_of-approves :
    (input : ScriptDecisionInput) (now : String) (decision : Bool)
    → approves decision input.wanter (present (approval_of input now))
      ≡ (if decision then is_allow input.decision else not (is_allow input.decision))
unfolding approval_of
approval_of-approves input now decision =
    rw ((str_eq_iff input.wanter.scripts_hash input.wanter.scripts_hash).1 refl) refl

-- The last decision on a package is the one that the gate follows: after it the package with these
-- scripts is approved if it was to allow, and denied if it was to deny, whatever was decided before.
pub apply-evaluate :
    (file : DgFile) (inputs : List ScriptDecisionInput) (input : ScriptDecisionInput) (now : String)
    → let e =
        evaluate_script_gate
          (input.wanter ∷ [])
          (apply_script_decisions file (inputs ++ input ∷ []) now).script_approvals.npm in
      (e.approved ≡ (if is_allow input.decision then input.wanter ∷ [] else []))
      × (e.denied ≡ (if is_allow input.decision then [] else input.wanter ∷ []))
apply-evaluate file inputs input now =
    let approvals = (apply_script_decisions file (inputs ++ input ∷ []) now).script_approvals.npm in
    let v : value approvals input.wanter.name ≡ present (approval_of input now) =
      ap (λ npm. value npm input.wanter.name)
        (apply-npm file (inputs ++ input ∷ []) now
          ∙ approve_all-append inputs input now file.script_approvals.npm)
      ∙ value-put (approve_all inputs now file.script_approvals.npm) input.wanter.name _ in
    let h = evaluate_script_gate-sorts (input.wanter ∷ []) approvals in
    (
      h.0 ∙ rw (v, approval_of-approves input now true) refl,
      h.1 ∙ rw (v, approval_of-approves input now false) (ground arith),
    )

-- ===== src/Launcher/InstallPreflight/Approvals.antt =====
-- What the session of src/launcher/install-preflight.ts remembers only grows.
use dg_cli.Common.{
  ℕ, suc, ◌≤◌, ◌≡◌, refl, sym, subst, ap, inl, inr, String, false, ltb, ◌==◌, string_Eq, str_eq_iff,
  if◌then◌else◌, Bool-cases, List, [], ◌∷◌, All, put, arith,
}
use dg_cli.Decisions.Match.{ScannerAction}
use dg_cli.Api.Response.Merge.{rank}
use dg_cli.Launcher.InstallPreflight.{
  level, PreflightEntry, package_key, record_approval, record_preflight_approvals,
}

level-put : (m : List (String × ℕ)) (key : String) (r : ℕ) → level (put m key r) key ≡ suc r
unfolding level put
level-put [] key r = rw ((str_eq_iff key key).1 refl) refl
level-put ((k, q) ∷ m) key r = elim (Bool-cases (k == key)) [
  | inl e ↦ (rw (e, (str_eq_iff key key).1 refl) refl)
  | inr e ↦ (rw (e, e) (level-put m key r))
]

level-put_other :
    (m : List (String × ℕ)) (key other : String) (r : ℕ)
    → (key == other) ≡ false
    → level (put m key r) other ≡ level m other
unfolding level put
level-put_other [] key other r apart = rw apart refl
level-put_other ((k, q) ∷ m) key other r apart = elim (Bool-cases (k == key)) [
  | inl e ↦
      let k_apart : (k == other) ≡ false =
        subst (λ j. (j == other) ≡ false) (sym ((str_eq_iff k key).0 e)) apart in
      (rw (e, apart, k_apart) refl)
  | inr e ↦ (rw e (ap (λ l. if k == other then suc q else l) (level-put_other m key other r apart)))
]

record_approval-raises :
    (m : List (String × ℕ)) (key : String) (action : ScannerAction)
    → suc (rank action) ≤ level (record_approval m key action) key
unfolding record_approval
record_approval-raises m key action = elim (Bool-cases (ltb (level m key) (suc (rank action)))) [
  | inl e ↦ (rw (e, level-put m key (rank action)) (omega arith))
  | inr e ↦ (rw e (ground arith))
]

record_approval-keeps :
    (m : List (String × ℕ)) (key other : String) (action : ScannerAction)
    → level m other ≤ level (record_approval m key action) other
unfolding record_approval
record_approval-keeps m key other action =
    elim (Bool-cases (ltb (level m key) (suc (rank action)))) [
      | inr e ↦ (rw e (omega arith))
      | inl e ↦ elim (Bool-cases (key == other)) [
        | inl same ↦
            let at : key ≡ other = (str_eq_iff key other).0 same in
            (rw e (
              subst (λ k. level m k ≤ level (put m key (rank action)) k) at
                (rw (level-put m key (rank action)) (ground arith))))
        | inr apart ↦ (rw (e, level-put_other m key other (rank action) apart) (omega arith))
      ]
    ]

le_trans : {a b c : ℕ} → a ≤ b → b ≤ c → a ≤ c
le_trans h g = omega arith

pub record-keeps :
    (m : List (String × ℕ)) (entries : List PreflightEntry) (key : String)
    → level m key ≤ level (record_preflight_approvals m entries) key
unfolding record_preflight_approvals
record-keeps m [] key = omega arith
record-keeps m (e ∷ entries) key =
    le_trans (record_approval-keeps m (package_key e.pkg) key e.action)
      (record-keeps (record_approval m (package_key e.pkg) e.action) entries key)

-- Each recorded entry is approved then.
pub record-approves :
    (m : List (String × ℕ)) (entries : List PreflightEntry)
    → All
        (λ e.
          suc (rank e.action) ≤ level (record_preflight_approvals m entries) (package_key e.pkg))
        entries
unfolding record_preflight_approvals
record-approves m [] = tt
record-approves m (e ∷ entries) = (
  le_trans (record_approval-raises m (package_key e.pkg) e.action)
      (record-keeps (record_approval m (package_key e.pkg) e.action) entries (package_key e.pkg)),
  record-approves (record_approval m (package_key e.pkg) e.action) entries,
)

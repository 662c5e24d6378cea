-- ===== src/Launcher/InstallPreflight/Asked.antt =====
-- When src/launcher/install-preflight.ts goes on with an installation.
use dg_cli.Common.{
  ℕ, ◌≡◌, refl, sym, subst, ap, ◌∙◌, inl, inr, String, Bool, true, false, not, ◌&&◌, ◌||◌,
  if◌then◌else◌, Bool-cases, Option, none, some, List, [], ◌∷◌, map, any, keep, All, arith,
}
use dg_cli.Decisions.Match.{ScannerAction, block, warn, pass, analysis_incomplete}
use dg_cli.Launcher.InstallPreflight.{
  VerdictPackage, PreflightCooldownContext, PreflightDecisionContext, InstallPreflight, proceed,
  proceed_by_override, stop, is_block, is_warn, PreflightEntry, is_preflight_approved, is_covered,
  is_open, entry_of, asked_entries, answered, decide_from_verdicts,
}

abbrev is_asked : Option PreflightDecisionContext → ℕ → List (String × ℕ) → PreflightEntry → Bool
is_asked decisions now approvals e = is_open approvals e && not (is_covered decisions now e)

block-not_warn : (a : ScannerAction) → is_block a ≡ true → is_warn a ≡ false
block-not_warn block h = refl
block-not_warn warn h = ground arith
block-not_warn pass h = ground arith
block-not_warn analysis_incomplete h = ground arith

-- A blocked entry is never covered.
block-uncovered :
    (decisions : Option PreflightDecisionContext) (now : ℕ) (e : PreflightEntry)
    → is_block e.action ≡ true
    → is_covered decisions now e ≡ false
block-uncovered none now e h = refl
block-uncovered (some d) now e h = rw (block-not_warn e.action h) refl

keep-no_block :
    (decisions : Option PreflightDecisionContext) (now : ℕ) (approvals : List (String × ℕ))
    (es : List PreflightEntry)
    → any (λ e. is_block e.action) (keep (is_asked decisions now approvals) es) ≡ false
    → All (λ e. is_block e.action ≡ true → is_preflight_approved approvals e ≡ true) es
keep-no_block decisions now approvals [] h = tt
keep-no_block decisions now approvals (e ∷ es) h =
    let rest = keep (is_asked decisions now approvals) es in
    elim (Bool-cases (is_asked decisions now approvals e)) [
      | inl asked ↦
          let quiet : (is_block e.action || any (λ x. is_block x.action) rest) ≡ false =
            subst (λ c. any (λ x. is_block x.action) (if c then e ∷ rest else rest) ≡ false) asked
              h in
          ((λ b. ground arith), keep-no_block decisions now approvals es (ground arith))
      | inr skipped ↦
          let quiet : any (λ x. is_block x.action) rest ≡ false =
            subst (λ c. any (λ x. is_block x.action) (if c then e ∷ rest else rest) ≡ false) skipped
              h in
          (
            (λ b. blocked-approved e b (block-uncovered decisions now e b) skipped),
            keep-no_block decisions now approvals es quiet,
          )
    ]
  where
    blocked-approved :
        (x : PreflightEntry)
        → is_block x.action ≡ true
        → is_covered decisions now x ≡ false
        → is_asked decisions now approvals x ≡ false
        → is_preflight_approved approvals x ≡ true
    blocked-approved x b c skipped = ground arith

-- What an answer of the preflight says of the entries it stands for.
abbrev pub Means : InstallPreflight → Bool → List (String × ℕ) → List PreflightEntry → Type 0
Means stop accepted approvals entries = accepted ≡ false
Means proceed_by_override accepted approvals entries = accepted ≡ true
Means proceed accepted approvals entries =
    All (λ e. is_block e.action ≡ true → is_preflight_approved approvals e ≡ true) entries

answered-Means :
    (decisions : Option PreflightDecisionContext) (now : ℕ) (m later : List (String × ℕ))
    (es asked : List PreflightEntry) (accepted : Bool)
    → asked ≡ keep (is_asked decisions now m) es
    → Means ((answered asked accepted later).0) accepted m es
answered-Means decisions now m later es [] accepted h =
    keep-no_block decisions now m es (ap (any (λ e. is_block e.action)) (sym h))
answered-Means decisions now m later es (e ∷ asked) false h = refl
answered-Means decisions now m later es (e ∷ asked) true h =
    by_block (any (λ x. is_block x.action) (e ∷ asked)) (λ quiet.
      keep-no_block decisions now m es (ap (any (λ x. is_block x.action)) (sym h) ∙ quiet))
  where
    by_block :
        (b : Bool)
        → (b ≡ false → Means proceed true m es)
        → Means (if b then proceed_by_override else proceed) true m es
    by_block true quiet = refl
    by_block false quiet = quiet refl

module _ (lower : String → String) (now : ℕ) where
  -- With somebody to ask, an installation stops only on the answer no, and goes on by the override only
  -- on the answer yes. Where it goes on without the override, each package that is blocked, by its
  -- verdict or by its age, had been approved before in the session.
  pub decide_from_verdicts-Means :
      (packages : List VerdictPackage) (accepted : Bool) (context : Option PreflightCooldownContext)
      (decisions : Option PreflightDecisionContext) (approvals : List (String × ℕ))
      → Means
          ((decide_from_verdicts lower now packages true accepted context decisions approvals).0)
          accepted
          approvals
          (map (entry_of lower now context decisions) packages)
  unfolding decide_from_verdicts asked_entries
  decide_from_verdicts-Means packages accepted context decisions approvals =
      answered-Means decisions now approvals _ (map (entry_of lower now context decisions) packages)
        (asked_entries lower now approvals context decisions packages) accepted refl

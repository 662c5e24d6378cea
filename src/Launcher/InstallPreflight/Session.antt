-- ===== src/Launcher/InstallPreflight/Session.antt =====
-- The questions of one session of src/launcher/install-preflight.ts share its approvals.
use dg_cli.Common.{
  ℕ, suc, ◌≤◌, ◌≡◌, refl, subst, inl, inr, String, Bool, true, false, not, ◌&&◌, ◌||◌, leb, ◌==◌,
  string_Eq, str_eq_iff, if◌then◌else◌, Bool-cases, Option, List, [], ◌∷◌, map, keep, All,
  All-weaken, arith,
}
use dg_cli.Api.Response.Merge.{rank}
use dg_cli.Launcher.InstallPreflight.{
  VerdictPackage, PreflightCooldownContext, PreflightDecisionContext, InstallPreflight, proceed,
  stop, is_block, is_warn, PreflightEntry, package_key, level, record_preflight_approvals,
  is_preflight_approved, is_covered, is_open, entry_of, asked_entries, covered_entries, answered,
  decide_from_verdicts,
}
use dg_cli.Launcher.InstallPreflight.Approvals.{record-keeps, record-approves}

-- The arguments of one call of decideFromVerdicts, and the time and the answer then.
pub record Question : Type 0 where
  pub packages : List VerdictPackage
  pub is_tty : Bool
  pub accepted : Bool
  pub context : Option PreflightCooldownContext
  pub decisions : Option PreflightDecisionContext
  pub now : ℕ

abbrev pub goes_on : InstallPreflight → Bool
goes_on stop = false
goes_on _ = true

-- Whether an entry is about the package of another one, and no more severe.
abbrev pub is_repeated : PreflightEntry → PreflightEntry → Bool
is_repeated e later =
    package_key e.pkg == package_key later.pkg && leb (rank later.action) (rank e.action)

abbrev IsRecorded : List (String × ℕ) → PreflightEntry → Type 0
IsRecorded approvals e = suc (rank e.action) ≤ level approvals (package_key e.pkg)

le_trans : {a b c : ℕ} → a ≤ b → b ≤ c → a ≤ c
le_trans h g = omega arith

-- What is recorded is not open later, and no less severe entry of the package is.
recorded-closed :
    (m : List (String × ℕ)) (e later : PreflightEntry)
    → IsRecorded m e
    → is_open m later ≡ true
    → is_repeated e later ≡ false
unfolding is_preflight_approved
recorded-closed m e later h still = elim (Bool-cases (package_key e.pkg == package_key later.pkg)) [
  | inr apart ↦ (rw apart refl)
  | inl same ↦
      let there : suc (rank e.action) ≤ level m (package_key later.pkg) =
        subst (λ k. suc (rank e.action) ≤ level m k)
          ((str_eq_iff (package_key e.pkg) (package_key later.pkg)).0 same) h in
      (rw same (ground arith))
]

recorded-unasked :
    (m : List (String × ℕ)) (decisions : Option PreflightDecisionContext) (now : ℕ)
    (e : PreflightEntry)
    → IsRecorded m e
    → (es : List PreflightEntry)
    → All
        (λ a. is_repeated e a ≡ false)
        (keep (λ a. is_open m a && not (is_covered decisions now a)) es)
recorded-unasked m decisions now e h [] = tt
recorded-unasked m decisions now e h (a ∷ es) =
    elim (Bool-cases (is_open m a && not (is_covered decisions now a))) [
      | inl asked ↦
          (rw asked
            (recorded-closed m e a h (ground arith), recorded-unasked m decisions now e h es))
      | inr skipped ↦ (rw skipped (recorded-unasked m decisions now e h es))
    ]

kept-All :
    (P : PreflightEntry → Type 0) (p : PreflightEntry → Bool) (es : List PreflightEntry)
    → All P (keep p es)
    → All (λ e. p e ≡ true → P e) es
kept-All P p [] h = tt
kept-All P p (e ∷ es) h = elim (Bool-cases (p e)) [
  | inl yes_kept ↦
      let (here, others) = subst (λ b. All P (if b then e ∷ keep p es else keep p es)) yes_kept h in
      ((λ b. here), kept-All P p es others)
  | inr dropped ↦
      let others = subst (λ b. All P (if b then e ∷ keep p es else keep p es)) dropped h in
      ((λ b. ground arith), kept-All P p es others)
]

-- An entry of a question is recorded behind it: it was approved, is covered or was asked about.
entry-IsRecorded :
    (m later : List (String × ℕ)) (decisions : Option PreflightDecisionContext) (now : ℕ)
    → ((key : String) → level m key ≤ level later key)
    → (e : PreflightEntry)
    → ((is_open m e && is_covered decisions now e) ≡ true → IsRecorded later e)
    → ((is_open m e && not (is_covered decisions now e)) ≡ true → IsRecorded later e)
    → (is_warn e.action || is_block e.action) ≡ true
    → IsRecorded later e
unfolding is_preflight_approved
entry-IsRecorded m later decisions now grows e covered asked flagged =
    elim (Bool-cases (is_preflight_approved m e)) [
      | inl approved ↦
          let before : IsRecorded m e = ground arith in le_trans before (grows (package_key e.pkg))
      | inr fresh ↦ elim (Bool-cases (is_covered decisions now e)) [
        | inl c ↦ covered (rw (flagged, fresh, c) refl)
        | inr c ↦ asked (rw (flagged, fresh, c) refl)
      ]
    ]

entries-IsRecorded :
    (m later : List (String × ℕ)) (decisions : Option PreflightDecisionContext) (now : ℕ)
    → ((key : String) → level m key ≤ level later key)
    → (es : List PreflightEntry)
    → All (λ e. (is_open m e && is_covered decisions now e) ≡ true → IsRecorded later e) es
    → All (λ e. (is_open m e && not (is_covered decisions now e)) ≡ true → IsRecorded later e) es
    → All (IsRecorded later) (keep (λ e. is_warn e.action || is_block e.action) es)
entries-IsRecorded m later decisions now grows [] covered asked = tt
entries-IsRecorded m later decisions now grows (e ∷ es) (c, cs) (a, as_) =
    elim (Bool-cases (is_warn e.action || is_block e.action)) [
      | inr calm ↦ (rw calm (entries-IsRecorded m later decisions now grows es cs as_))
      | inl flagged ↦
          (rw flagged (
            entry-IsRecorded m later decisions now grows e c a flagged,
            entries-IsRecorded m later decisions now grows es cs as_,
          ))
    ]

answered-later :
    (m : List (String × ℕ)) (asked : List PreflightEntry) (accepted : Bool)
    → goes_on ((answered asked accepted m).0) ≡ true
    → (answered asked accepted m).1 ≡ record_preflight_approvals m asked
unfolding record_preflight_approvals
answered-later m [] accepted h = refl
answered-later m (e ∷ asked) false h = ground arith
answered-later m (e ∷ asked) true h = refl

answered-keeps :
    (m : List (String × ℕ)) (asked : List PreflightEntry) (accepted : Bool) (key : String)
    → level m key ≤ level ((answered asked accepted m).1) key
answered-keeps m [] accepted key = omega arith
answered-keeps m (e ∷ asked) false key = omega arith
answered-keeps m (e ∷ asked) true key = record-keeps m (e ∷ asked) key

module _ (lower : String → String) where
  abbrev pub decide_question : Question → List (String × ℕ) → InstallPreflight × List (String × ℕ)
  decide_question q approvals =
      decide_from_verdicts lower q.now q.packages q.is_tty q.accepted q.context q.decisions
        approvals

  -- The approvals behind some questions, one after the other.
  unfoldable pub session : List Question → List (String × ℕ) → List (String × ℕ)
  session [] approvals = approvals
  session (q ∷ questions) approvals = session questions ((decide_question q approvals).1)

  decide-keeps :
      (q : Question) (m : List (String × ℕ)) (key : String)
      → level m key ≤ level ((decide_question q m).1) key
  unfolding decide_from_verdicts
  decide-keeps q m key = elim (Bool-cases q.is_tty) [
    | inr silent ↦ (rw silent (omega arith))
    | inl asks ↦
        let covered = covered_entries lower q.now m q.context q.decisions q.packages in
        let asked = asked_entries lower q.now m q.context q.decisions q.packages in
        (rw asks (
          le_trans (record-keeps m covered key)
            (answered-keeps (record_preflight_approvals m covered) asked q.accepted key)))
  ]

  session-keeps :
      (questions : List Question) (m : List (String × ℕ)) (key : String)
      → level m key ≤ level (session questions m) key
  unfolding session
  session-keeps [] m key = omega arith
  session-keeps (q ∷ questions) m key =
      le_trans (decide-keeps q m key) (session-keeps questions ((decide_question q m).1) key)

  -- The entries of a question that are warned of or blocked.
  abbrev pub flagged_entries : Question → List PreflightEntry
  flagged_entries q =
      keep (λ e. is_warn e.action || is_block e.action)
        (map (entry_of lower q.now q.context q.decisions) q.packages)

  -- The entries that a question would ask about, if there is somebody to ask.
  abbrev pub asked_by : Question → List (String × ℕ) → List PreflightEntry
  asked_by q approvals = asked_entries lower q.now approvals q.context q.decisions q.packages

  decide-records :
      (q : Question) (m : List (String × ℕ))
      → q.is_tty ≡ true
      → goes_on ((decide_question q m).0) ≡ true
      → All (IsRecorded ((decide_question q m).1)) (flagged_entries q)
  unfolding decide_from_verdicts asked_entries covered_entries
  decide-records q m tty h =
      let es = map (entry_of lower q.now q.context q.decisions) q.packages in
      let covered = keep (λ e. is_open m e && is_covered q.decisions q.now e) es in
      let asked = keep (λ e. is_open m e && not (is_covered q.decisions q.now e)) es in
      let middle = record_preflight_approvals m covered in
      let later = record_preflight_approvals middle asked in
      let on : goes_on ((answered asked q.accepted middle).0) ≡ true =
        subst
          (λ b.
            goes_on ((if not b then (proceed, m) else answered asked q.accepted middle).0) ≡ true)
          tty h in
      rw (tty, answered-later middle asked q.accepted on)
        (entries-IsRecorded m later q.decisions q.now
          (λ key. le_trans (record-keeps m covered key) (record-keeps middle asked key)) es
          (kept-All (IsRecorded later) (λ e. is_open m e && is_covered q.decisions q.now e) es
            (All-weaken (IsRecorded middle) (IsRecorded later)
              (λ e r. le_trans r (record-keeps middle asked (package_key e.pkg))) covered
              (record-approves m covered)))
          (kept-All (IsRecorded later) (λ e. is_open m e && not (is_covered q.decisions q.now e)) es
            (record-approves middle asked)))

  -- Once an installation with somebody to ask goes on, a package that it warned of or blocked is asked
  -- about again in the session only if its action has become more severe: whatever questions come
  -- between, and whatever packages, decisions, exemptions and time the later question has.
  pub decide_from_verdicts-once :
      (first : Question) (between : List Question) (last : Question) (approvals : List (String × ℕ))
      → first.is_tty ≡ true
      → goes_on ((decide_question first approvals).0) ≡ true
      → All
          (λ e.
            All
              (λ again. is_repeated e again ≡ false)
              (asked_by last (session between ((decide_question first approvals).1))))
          (flagged_entries first)
  unfolding asked_entries
  decide_from_verdicts-once first between last approvals tty h =
      let later = session between ((decide_question first approvals).1) in
      All-weaken (IsRecorded ((decide_question first approvals).1)) _
        (λ e r.
          recorded-unasked later last.decisions last.now e
            (le_trans r
              (session-keeps between ((decide_question first approvals).1) (package_key e.pkg)))
            (map (entry_of lower last.now last.context last.decisions) last.packages))
        (flagged_entries first) (decide-records first approvals tty h)

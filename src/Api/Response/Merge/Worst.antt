-- ===== src/Api/Response/Merge/Worst.antt =====
-- What the answers to the batches of a scan have in common with the one they become,
-- src/api/analyze.ts.
use dg_cli.Common.{
  ℕ, ◌≤◌, ◌≡◌, refl, sym, ap, ◌∙◌, ◌⊎◌, inl, inr, ltb, Bool-cases, List, [], ◌∷◌, ◌++◌, map, In,
  All, arith,
}
use dg_cli.Common.Json.{Json, Fields}
use dg_cli.Api.Pool.Batches.{concat}
use dg_cli.Api.Response.{ScannerAction, AnalyzeResponse}
use dg_cli.Api.Response.Merge.{rank, worse, merge_two, merge_onto, merge_analyze_responses}

append_assoc : {A : Type 0} (xs ys zs : List A) → xs ++ ys ++ zs ≡ xs ++ (ys ++ zs)
append_assoc [] ys zs = refl
append_assoc (x ∷ xs) ys zs = ap (λ rest. x ∷ rest) (append_assoc xs ys zs)

append-nil : {A : Type 0} (xs : List A) → xs ++ [] ≡ xs
append-nil [] = refl
append-nil (x ∷ xs) = ap (λ rest. x ∷ rest) (append-nil xs)

abbrev pub packages_of : AnalyzeResponse → List Fields
packages_of response = response.packages

abbrev pub action_of : AnalyzeResponse → ScannerAction
action_of response = response.action

-- An action that one of the answers has, and that none has a worse one than.
abbrev pub IsWorst : ScannerAction → List AnalyzeResponse → Type 0
IsWorst action responses =
    In action (map action_of responses)
    × All (λ response. rank response.action ≤ rank action) responses

le_trans : {a b c : ℕ} → a ≤ b → b ≤ c → a ≤ c
le_trans h g = omega arith

worse-cases :
    (a b : ScannerAction)
    → ((worse a b ≡ a) ⊎ (worse a b ≡ b))
      × (rank a ≤ rank (worse a b))
      × (rank b ≤ rank (worse a b))
worse-cases a b = elim (Bool-cases (ltb (rank a) (rank b))) [
  | inl e ↦ (rw e (inr refl, ground arith, ground arith))
  | inr e ↦ (rw e (inl refl, ground arith, ground arith))
]

module _ (larger sum : Json → Json → Json) where
  merge_onto-packages :
      (merged : AnalyzeResponse) (responses : List AnalyzeResponse)
      → (merge_onto larger sum merged responses).packages
        ≡ merged.packages ++ concat (map packages_of responses)
  unfolding merge_onto merge_two concat
  merge_onto-packages merged [] = sym (append-nil merged.packages)
  merge_onto-packages merged (next ∷ responses) =
      merge_onto-packages (merge_two larger sum merged next) responses
      ∙ append_assoc merged.packages next.packages (concat (map packages_of responses))

  merge_onto-IsWorst :
      (merged : AnalyzeResponse) (responses : List AnalyzeResponse)
      → IsWorst ((merge_onto larger sum merged responses).action) (merged ∷ responses)
  unfolding merge_onto merge_two
  merge_onto-IsWorst merged [] = (inl refl, (ground arith, tt))
  merge_onto-IsWorst merged (next ∷ responses) =
      let (found, (first, others)) =
        merge_onto-IsWorst (merge_two larger sum merged next) responses in
      let (one, left, right) = worse-cases merged.action next.action in
      (among found one, (le_trans left first, (le_trans right first, others)))
    where
      among :
          {action worst : ScannerAction}
          → In action (worst ∷ map action_of responses)
          → (worst ≡ merged.action) ⊎ (worst ≡ next.action)
          → In action (merged.action ∷ next.action ∷ map action_of responses)
      among (inl here) (inl h) = inl (here ∙ h)
      among (inl here) (inr h) = inr (inl (here ∙ h))
      among (inr later) h = inr (inr later)

  -- Where a scan had any answers, the one they become has the packages of all of them, in their order,
  -- and the worst of their actions.
  pub merge-IsWorst :
      (first : AnalyzeResponse) (responses : List AnalyzeResponse)
      → ((merge_analyze_responses larger sum (first ∷ responses)).packages
          ≡ concat (map packages_of (first ∷ responses)))
        × IsWorst
            ((merge_analyze_responses larger sum (first ∷ responses)).action)
            (first ∷ responses)
  unfolding merge_analyze_responses concat
  merge-IsWorst first responses =
      (merge_onto-packages first responses, merge_onto-IsWorst first responses)

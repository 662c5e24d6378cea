-- ===== src/Api/Pool/Batches.antt =====
-- The batches of a scan, src/api/analyze.ts.
use dg_cli.Common.{
  ℕ, zero, suc, ◌≤◌, ◌≡◌, refl, ap, ◌∙◌, List, [], ◌∷◌, ◌++◌, length, take, drop, length-take,
  arith, All,
}

abbrev pub batch_size : ℕ
batch_size = 200

module _ {A : Type 0} where
  -- packages.slice(index, index + size), from the index on: the recursion runs along the packages, each
  -- of which is at most one step of the loop.
  unfoldable pub slices : (size : ℕ) → List A → List A → List (List A)
  slices size _ [] = []
  slices size [] (x ∷ xs) = []
  slices size (_ ∷ fuel) (x ∷ xs) = take size (x ∷ xs) ∷ slices size fuel (drop size (x ∷ xs))

  unfoldable pub batches_of : List A → List (List A)
  unfolding slices
  batches_of packages = slices batch_size packages packages

  unfoldable pub concat : List (List A) → List A
  concat [] = []
  concat (xs ∷ xss) = xs ++ concat xss

  take-drop : (n : ℕ) (xs : List A) → take n xs ++ drop n xs ≡ xs
  take-drop zero xs = refl
  take-drop (suc n) [] = refl
  take-drop (suc n) (x ∷ xs) = ap (λ ys. x ∷ ys) (take-drop n xs)

  length-drop : (n : ℕ) (xs : List A) → length (drop n xs) ≤ length xs
  length-drop zero xs = omega arith
  length-drop (suc n) [] = omega arith
  length-drop (suc n) (x ∷ xs) = omega (arith, length-drop n xs)

  concat-slices :
      (n : ℕ) (fuel xs : List A) → length xs ≤ length fuel → concat (slices (suc n) fuel xs) ≡ xs
  unfolding slices concat
  concat-slices n _ [] h = refl
  concat-slices n [] (x ∷ xs) h = ground arith
  concat-slices n (_ ∷ fuel) (x ∷ xs) h =
      ap (λ ys. take (suc n) (x ∷ xs) ++ ys)
        (concat-slices n fuel (drop n xs) (omega (arith, length-drop n xs)))
      ∙ take-drop (suc n) (x ∷ xs)

  abbrev pub IsBatch : List A → Type 0
  IsBatch xs = (1 ≤ length xs) × (length xs ≤ batch_size)

  slices-IsBatch : (fuel xs : List A) → All IsBatch (slices batch_size fuel xs)
  unfolding slices
  slices-IsBatch _ [] = tt
  slices-IsBatch [] (x ∷ xs) = tt
  slices-IsBatch (_ ∷ fuel) (x ∷ xs) = (
    (omega (arith, length-take 199 xs), omega (arith, length-take 199 xs)),
    slices-IsBatch fuel (drop 199 xs),
  )

  -- The batches have the packages in their order, each of them once, and none of the batches is empty
  -- or has more than 200 packages.
  pub batches_of-concat :
      (packages : List A)
      → (concat (batches_of packages) ≡ packages) × All IsBatch (batches_of packages)
  unfolding batches_of
  batches_of-concat packages =
      (concat-slices 199 packages packages (omega arith), slices-IsBatch packages packages)

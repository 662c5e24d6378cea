-- ===== src/State/CooldownHeld/Kept.antt =====
-- What the file of held packages keeps, src/state/cooldown-held.ts.
use dg_cli.Common.{
  ℕ, zero, suc, ◌≤◌, ◌<◌, ◌≡◌, refl, sym, subst, ap, ◌∙◌, String, Bool, true, not, ◌⊎◌, inl, inr,
  List, [], ◌∷◌, ◌++◌, ◌==◌, string_Eq, length, length-append, length-take, take, keep, Bool-cases,
  All, All-take, All-append, In, arith,
}
use dg_cli.State.CooldownHeld.{
  DateText, HeldPackageEntry, NewHeldPackage, held_key, key_of, is_live, prune, insert, sort,
  updated, others, record_held_package,
}

module _ {A : Type 0} where
  -- What holds of the kept ones among the elements that pass the test.
  All-keep_where :
      (P : A → Type 0) (p : A → Bool) (xs : List A)
      → ((x : A) → In x xs → p x ≡ true → P x)
      → All P (keep p xs)
  All-keep_where P p [] h = tt
  All-keep_where P p (x ∷ xs) h =
      let later = All-keep_where P p xs (λ y i. h y (inr i)) in
      elim (Bool-cases (p x)) [ inl e ↦ (rw e (h x (inl refl) e, later)) | inr e ↦ (rw e later) ]

  All-keep_and :
      (Q : A → Type 0) (p : A → Bool) (xs : List A)
      → All Q xs
      → All (λ x. Q x × (p x ≡ true)) (keep p xs)
  All-keep_and Q p [] h = tt
  All-keep_and Q p (x ∷ xs) (h, hs) = elim (Bool-cases (p x)) [
    | inl e ↦ (rw e ((h, e), All-keep_and Q p xs hs))
    | inr e ↦ (rw e (All-keep_and Q p xs hs))
  ]

  All-map : (P R : A → Type 0) (xs : List A) → ((x : A) → P x → R x) → All P xs → All R xs
  All-map P R [] f h = tt
  All-map P R (x ∷ xs) f (h, hs) = (f x h, All-map P R xs f hs)

  In-append_last : (xs : List A) (x : A) → In x (xs ++ x ∷ [])
  In-append_last [] x = inl refl
  In-append_last (y ∷ ys) x = inr (In-append_last ys x)

  take-all : (n : ℕ) (xs : List A) → length xs ≤ n → take n xs ≡ xs
  take-all zero [] h = refl
  take-all zero (x ∷ xs) h = absurd (omega arith)
  take-all (suc n) [] h = refl
  take-all (suc n) (x ∷ xs) h = ap (λ rest. x ∷ rest) (take-all n xs (omega arith))

module _ (before : String → String → Bool) where
  module _ (P : HeldPackageEntry → Type 0) where
    All-insert :
        (e : HeldPackageEntry) (es : List HeldPackageEntry)
        → P e
        → All P es
        → All P (insert before e es)
    unfolding insert
    All-insert e [] h hs = (h, tt)
    All-insert e (d ∷ es) h hs = elim (Bool-cases (before e.last_seen_at.iso d.last_seen_at.iso)) [
      | inl b ↦ (rw b (hs.0, All-insert e es h hs.1))
      | inr b ↦ (rw b (h, hs))
    ]

    All-sort : (es : List HeldPackageEntry) → All P es → All P (sort before es)
    unfolding sort
    All-sort [] h = tt
    All-sort (e ∷ es) h = All-insert e (sort before es) h.0 (All-sort es h.1)

  length-insert :
      (e : HeldPackageEntry) (es : List HeldPackageEntry)
      → length (insert before e es) ≡ suc (length es)
  unfolding insert
  length-insert e [] = refl
  length-insert e (d ∷ es) = ground (arith, length-insert e es)

  length-sort : (es : List HeldPackageEntry) → length (sort before es) ≡ length es
  unfolding sort
  length-sort [] = refl
  length-sort (e ∷ es) = length-insert e (sort before es) ∙ ap suc (length-sort es)

  further :
      (x e d : HeldPackageEntry) (es rest : List HeldPackageEntry)
      → ((x ≡ e) ⊎ In x es → In x rest)
      → (x ≡ e) ⊎ In x (d ∷ es)
      → In x (d ∷ rest)
  further x e d es rest later (inl h) = inr (later (inl h))
  further x e d es rest later (inr (inl h)) = inl h
  further x e d es rest later (inr (inr h)) = inr (later (inr h))

  In-insert :
      (x e : HeldPackageEntry) (es : List HeldPackageEntry)
      → (x ≡ e) ⊎ In x es
      → In x (insert before e es)
  unfolding insert
  In-insert x e [] (inl h) = inl h
  In-insert x e [] (inr h) = absurd h
  In-insert x e (d ∷ es) h = elim (Bool-cases (before e.last_seen_at.iso d.last_seen_at.iso)) [
    | inl b ↦ (rw b (further x e d es (insert before e es) (In-insert x e es) h))
    | inr b ↦ (rw b h)
  ]

  In-sort : (x : HeldPackageEntry) (es : List HeldPackageEntry) → In x es → In x (sort before es)
  unfolding sort
  In-sort x [] h = absurd h
  In-sort x (e ∷ es) (inl h) = In-insert x e (sort before es) (inl h)
  In-sort x (e ∷ es) (inr h) = In-insert x e (sort before es) (inr (In-sort x es h))

-- An entry of the written file is the recorded package, or one that was there, is still held and is of
-- another package or version.
abbrev pub Kept : NewHeldPackage → List HeldPackageEntry → ℕ → DateText → HeldPackageEntry → Type 0
Kept entry document now now_text x =
    (x ≡ updated entry (prune document now) now_text)
    ⊎ (In x document × (is_live now x ≡ true))
      × (not (key_of x == held_key entry.ecosystem entry.name entry.version) ≡ true)

others-Kept :
    (entry : NewHeldPackage) (document : List HeldPackageEntry) (now : ℕ) (now_text : DateText)
    → All (Kept entry document now now_text) (others entry (prune document now))
unfolding others prune
others-Kept entry document now now_text =
    let test : HeldPackageEntry → Bool =
      λ x. not (key_of x == held_key entry.ecosystem entry.name entry.version) in
    let held : HeldPackageEntry → Type 0 = λ x. In x document × (is_live now x ≡ true) in
    All-map (λ x. held x × (test x ≡ true)) (Kept entry document now now_text)
      (keep test (keep (is_live now) document)) (λ x h. inr h)
      (All-keep_and held test (keep (is_live now) document)
        (All-keep_where held (is_live now) document (λ x here live. (here, live))))

-- The written file has at most 500 entries, each the recorded package or one that was there, that is
-- still held and that is of another package or version.
pub record_held_package-Kept :
    (before : String → String → Bool) (entry : NewHeldPackage) (document : List HeldPackageEntry)
    (now : ℕ) (now_text : DateText)
    → (length (record_held_package before entry document now now_text) ≤ 500)
      × All
          (Kept entry document now now_text)
          (record_held_package before entry document now now_text)
unfolding record_held_package
record_held_package-Kept before entry document now now_text =
    let P = Kept entry document now now_text in
    let all =
      others entry (prune document now) ++ updated entry (prune document now) now_text ∷ [] in
    (
      omega (arith, length-take 500 (sort before all)),
      All-take P 500 (sort before all) (
          All-sort before P all (
            All-append P (others entry (prune document now)) _
              (others-Kept entry document now now_text) (inl refl, tt))),
    )

-- While fewer than 500 other packages are held, the recorded one is in the written file, with the
-- date at which it was first seen.
pub record_held_package-present :
    (before : String → String → Bool) (entry : NewHeldPackage) (document : List HeldPackageEntry)
    (now : ℕ) (now_text : DateText)
    → length (others entry (prune document now)) < 500
    → In
        (updated entry (prune document now) now_text)
        (record_held_package before entry document now now_text)
unfolding record_held_package
record_held_package-present before entry document now now_text few =
    let new = updated entry (prune document now) now_text in
    let old = others entry (prune document now) in
    let all = old ++ new ∷ [] in
    subst (In new)
      (sym (
        take-all 500 (sort before all)
          (omega (arith, length-sort before all, length-append old (new ∷ [])))))
      (In-sort before new all (In-append_last old new))

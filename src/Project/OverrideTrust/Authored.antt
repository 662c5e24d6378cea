-- ===== src/Project/OverrideTrust/Authored.antt =====
-- Which entries of a dg.json count in src/project/override-trust.ts.
use dg_cli.Common.{
  ℕ, ◌+◌, ◌-◌, ◌≤◌, ◌≡◌, refl, sym, subst, ap, ◌∙◌, inl, inr, String, Bool, true, false, ◌==◌,
  nat_Eq, nat_eq_iff, string_Eq, str_eq_iff, if◌then◌else◌, Bool-cases, Option, none, some, List,
  [], ◌∷◌, keep, length, length-keep, codes, arith,
}
use dg_cli.Common.Result.{Result, ok, err, ◌>>=◌}
use dg_cli.Common.Json.{Json, null, boolean, number, other_number, text, array, object}
use dg_cli.Project.DgFile.{CooldownExemption, DecisionEntry, DgFile}
use dg_cli.Project.OverrideTrust.{
  TagError, auth_field, extra_at, count_by, utf16_units, utf8_bytes, read_secret,
  exemption_identity, decision_identity, tag_matches, filter_ok, HonoredOverrides, auth_tag,
  exemption_matches, decision_matches, only_authored, honored_overrides,
}

abbrev pub has_tag : Option Json → String → Bool
has_tag (some (text s)) tag = s == tag
has_tag _ tag = false

-- The comparison in constant time, where it does not throw, is equality.
tag_matches-has_tag :
    (expected : String) (found : Option Json) (b : Bool)
    → tag_matches expected found ≡ ok b
    → b ≡ has_tag found expected
unfolding tag_matches
tag_matches-has_tag expected none b h = ground arith
tag_matches-has_tag expected (some null) b h = ground arith
tag_matches-has_tag expected (some (boolean c)) b h = ground arith
tag_matches-has_tag expected (some (number n)) b h = ground arith
tag_matches-has_tag expected (some (other_number s)) b h = ground arith
tag_matches-has_tag expected (some (array items)) b h = ground arith
tag_matches-has_tag expected (some (object fields)) b h = ground arith
tag_matches-has_tag expected (some (text s)) b h = elim (Bool-cases (s == expected)) [
  | inr e ↦ ground arith
  | inl e ↦
      let at : s ≡ expected = (str_eq_iff s expected).0 e in
      let units : (count_by utf16_units (codes s) == count_by utf16_units (codes expected)) ≡ true =
        (nat_eq_iff _ _).1 (ap (λ t. count_by utf16_units (codes t)) at) in
      let bytes : (count_by utf8_bytes (codes s) == count_by utf8_bytes (codes expected)) ≡ true =
        (nat_eq_iff _ _).1 (ap (λ t. count_by utf8_bytes (codes t)) at) in
      ground arith
]

module _ {A : Type 0} (test : A → Result TagError Bool) (p : A → Bool) where
  filter_step :
      (x : A) (xs ys : List A) (good : Result TagError Bool) (rest : Result TagError (List A))
      → ((b : Bool) → good ≡ ok b → b ≡ p x)
      → ((zs : List A) → rest ≡ ok zs → zs ≡ keep p xs)
      → (good >>= λ b. rest >>= λ zs. ok (if b then x ∷ zs else zs)) ≡ ok ys
      → ys ≡ keep p (x ∷ xs)
  filter_step x xs ys (err e) rest same more h = ground arith
  filter_step x xs ys (ok b) (err e) same more h = ground arith
  filter_step x xs ys (ok b) (ok zs) same more h =
      let at : ys ≡ (if b then x ∷ zs else zs) = cc in
      at
      ∙ ap (λ c. if c then x ∷ zs else zs) (same b refl)
      ∙ ap (λ ws. if p x then x ∷ ws else ws) (more zs refl)

  -- A filter that does not throw keeps what its test finds good.
  filter_ok-keep :
      ((x : A) (b : Bool) → test x ≡ ok b → b ≡ p x)
      → (xs ys : List A) → filter_ok test xs ≡ ok ys
      → ys ≡ keep p xs
  unfolding filter_ok
  filter_ok-keep same [] ys h = cc
  filter_ok-keep same (x ∷ xs) ys h =
      filter_step x xs ys (test x) (filter_ok test xs) (same x) (filter_ok-keep same xs) h

dropped-counted :
    {A : Type 0} (p : A → Bool) (xs ys : List A) (dropped : ℕ)
    → ys ≡ keep p xs
    → dropped ≡ length xs - length ys
    → dropped + length ys ≡ length xs
dropped-counted p xs ys dropped kept h =
    let fewer : length ys ≤ length xs =
      subst (λ zs. length zs ≤ length xs) (sym kept) (length-keep p xs) in
    omega arith

keep-none : {A : Type 0} (xs : List A) → keep (λ x. false) xs ≡ []
keep-none [] = refl
keep-none (x ∷ xs) = keep-none xs

module _ (hmac : String → String → String) (real_path : String → Option String) where
  abbrev tagged : Option String → String → String → Option Json → Bool
  tagged none root identity found = false
  tagged (some secret) root identity found =
      has_tag found (auth_tag hmac real_path secret root identity)

  -- An entry carries the tag that the secret of this machine gives for it in this project.
  abbrev pub is_authored_exemption : Option String → String → CooldownExemption → Bool
  is_authored_exemption secret root e =
      tagged secret root (exemption_identity e) (extra_at e.extra auth_field)

  abbrev pub is_authored_decision : Option String → String → DecisionEntry → Bool
  is_authored_decision secret root d =
      tagged secret root (decision_identity d) (extra_at d.extra auth_field)

  only-exemptions :
      (secret : Option String) (root : String) (entries kept : List CooldownExemption)
      → only_authored hmac real_path secret (λ s. exemption_matches hmac real_path s root) entries
        ≡ ok kept
      → kept ≡ keep (is_authored_exemption secret root) entries
  only-exemptions none root entries kept h = let at : kept ≡ [] = cc in at ∙ sym (keep-none entries)
  only-exemptions (some s) root entries kept h =
      filter_ok-keep _ _ (λ e b g. tag_matches-has_tag _ (extra_at e.extra auth_field) b g) entries
        kept h

  only-decisions :
      (secret : Option String) (root : String) (entries kept : List DecisionEntry)
      → only_authored hmac real_path secret (λ s. decision_matches hmac real_path s root) entries
        ≡ ok kept
      → kept ≡ keep (is_authored_decision secret root) entries
  only-decisions none root entries kept h = let at : kept ≡ [] = cc in at ∙ sym (keep-none entries)
  only-decisions (some s) root entries kept h =
      filter_ok-keep _ _ (λ d b g. tag_matches-has_tag _ (extra_at d.extra auth_field) b g) entries
        kept h

  abbrev Honored : DgFile → List CooldownExemption → List DecisionEntry → HonoredOverrides
  Honored file exemptions decisions = record {
    exemptions = exemptions;
    decisions = decisions;
    dropped_exemptions = length file.cooldown_exemptions - length exemptions;
    dropped_decisions = length file.decisions - length decisions;
  }

  honored-parts :
      (file : DgFile) (exemptions : Result TagError (List CooldownExemption))
      (decisions : Result TagError (List DecisionEntry)) (honored : HonoredOverrides)
      → (exemptions >>= λ es. decisions >>= λ ds. ok (Honored file es ds)) ≡ ok honored
      → (exemptions ≡ ok honored.exemptions)
        × (decisions ≡ ok honored.decisions)
        × (honored ≡ Honored file honored.exemptions honored.decisions)
  honored-parts file (err e) decisions honored h = ground arith
  honored-parts file (ok es) (err e) honored h = ground arith
  honored-parts file (ok es) (ok ds) honored h =
      let at : Honored file es ds ≡ honored = cc in
      (
        ap (λ r. ok r.exemptions) at,
        ap (λ r. ok r.decisions) at,
        subst (λ r. r ≡ Honored file r.exemptions r.decisions) at refl,
      )

  -- In a project that is not trusted, and where no tag makes the comparison throw, exactly those
  -- exemptions and decisions count that carry the tag of this machine's secret for the project, none
  -- without a secret, and the others are counted as dropped.
  pub honored_overrides-authored :
      (file : DgFile) (root : String) (content : Option String) (honored : HonoredOverrides)
      → honored_overrides hmac real_path file root content false ≡ ok honored
      → (honored.exemptions
          ≡ keep (is_authored_exemption (read_secret content) root) file.cooldown_exemptions)
        × (honored.decisions
            ≡ keep (is_authored_decision (read_secret content) root) file.decisions)
        × (honored.dropped_exemptions + length honored.exemptions ≡ length file.cooldown_exemptions)
        × (honored.dropped_decisions + length honored.decisions ≡ length file.decisions)
  unfolding honored_overrides
  honored_overrides-authored file root content honored h =
      let (some_exemptions, some_decisions, whole) =
        honored-parts file
          (only_authored hmac real_path (read_secret content)
            (λ s. exemption_matches hmac real_path s root) file.cooldown_exemptions)
          (only_authored hmac real_path (read_secret content)
            (λ s. decision_matches hmac real_path s root) file.decisions)
          honored h in
      let exemptions =
        only-exemptions (read_secret content) root file.cooldown_exemptions honored.exemptions
          some_exemptions in
      let decisions =
        only-decisions (read_secret content) root file.decisions honored.decisions some_decisions in
      (
        exemptions,
        decisions,
        dropped-counted _ file.cooldown_exemptions honored.exemptions honored.dropped_exemptions
            exemptions (ap (λ r. r.dropped_exemptions) whole),
        dropped-counted _ file.decisions honored.decisions honored.dropped_decisions decisions
            (ap (λ r. r.dropped_decisions) whole),
      )

-- ===== src/Policy/Cooldown/Refines.antt =====
-- Adding exemptions to a dg.json, src/project/dgfile.ts, as src/policy/cooldown.ts sees it: the list
-- stands for a map from packages to whether they are exempt.
use dg_cli.Common.{
  ℕ, ◌≤◌, ◌≡◌, refl, subst, ap, ap₂, ◌∙◌, ◌⊎◌, inl, inr, String, Bool, true, false, not, ◌||◌, ltb,
  string_Eq, if◌then◌else◌, Option, none, some, get_or, List, [], ◌++◌, map, length, any, keep, All,
  All-append, All-keep, All-mapped, any-append, any-keep, arith,
}
use dg_cli.Common.Result.{ok, err}
use dg_cli.Project.DgFile.{ExemptionEcosystem, CooldownExemption, DgFile}
use dg_cli.Project.DgFile.Exemptions.{
  cooldown_exemption_active, NewCooldownExemption, by_key, values, exempted, CapError,
  with_exemptions, capped, canonical, canonical_additions, is_replaced, append_cooldown_exemptions,
  cooldown_exemption_cap,
}
use dg_cli.Policy.PypiName.{canonical_cooldown_name}
use dg_cli.Policy.Cooldown.{is_cooldown_exempt_by_dg_file}
use dg_cli.Policy.Cooldown.Additions.{
  or-false, seen, seen-by_key, IsMap, by_key-IsMap, is_some, any-seen,
}
use dg_cli.Policy.Cooldown.Package.{
  IsStable, IsCanonical, last_for, last_at-last_for, canonical_additions-IsCanonicalNew, hits, key,
  added-hits, kept-hits, either-none,
}

module _ (lower : String → String) where
  module _ (ecosystem : ExemptionEcosystem) (target : String) (now : ℕ) where
    -- The list before the cap is applied.
    next-hits :
        (prior : List CooldownExemption) (now_text : String) (additions : List NewCooldownExemption)
        → IsStable lower
        → All (IsCanonical lower) prior
        → any (hits lower ecosystem target now) (
            keep (λ e. not (is_replaced lower (canonical_additions lower additions) e)) prior
            ++ map (exempted prior now_text) (canonical_additions lower additions))
          ≡ get_or
              (last_for lower ecosystem target now additions)
              (any (hits lower ecosystem target now) prior)
    unfolding canonical_additions IsMap seen
    next-hits prior now_text additions stable canons =
        let entries = by_key [] (map (canonical lower) additions) in
        let (some_at, active_at) = any-seen (key lower ecosystem target now) now entries (
          by_key-IsMap (key lower ecosystem target now) now [] (map (canonical lower) additions)
            tt) in
        let found : seen (key lower ecosystem target now) now entries
            ≡ last_for lower ecosystem target now additions =
          seen-by_key (key lower ecosystem target now) now [] (map (canonical lower) additions)
          ∙ either-none _
          ∙ last_at-last_for lower ecosystem target now additions in
        any-append (hits lower ecosystem target now) _ _
        ∙ ap₂ (λ b c. b || c)
            (kept-hits lower ecosystem target now (values entries) prior canons
              ∙ ap (λ b. if b then false else any (hits lower ecosystem target now) prior)
                  (some_at ∙ ap (is_some (key lower ecosystem target now) now) found))
            (added-hits lower ecosystem target now prior now_text (values entries)
                (canonical_additions-IsCanonicalNew lower additions stable)
              ∙ active_at
              ∙ ap (λ o. get_or o false) found)
        ∙ by_last (last_for lower ecosystem target now additions)
            (any (hits lower ecosystem target now) prior)
      where
        by_last :
            (o : Option Bool) (b : Bool)
            → ((if is_some (key lower ecosystem target now) now o then false else b)
                || get_or o false)
              ≡ get_or o b
        by_last none b = or-false b
        by_last (some c) b = refl

    capped-cases :
        (file : DgFile) (next live : List CooldownExemption) (file' : DgFile) (many too_many : Bool)
        → (if many
            then (if too_many
                then err CapError.cooldown_exemption_cap_error
                else ok (with_exemptions file live))
            else ok (with_exemptions file next))
          ≡ ok file'
        → ((many ≡ false) × (next ≡ file'.cooldown_exemptions))
          ⊎ ((too_many ≡ false) × (live ≡ file'.cooldown_exemptions))
    capped-cases file next live file' false too_many h =
        let at : with_exemptions file next ≡ file' = cc in
        inl (refl, ap (λ f. f.cooldown_exemptions) at)
    capped-cases file next live file' true true h = ground arith
    capped-cases file next live file' true false h =
        let at : with_exemptions file live ≡ file' = cc in
        inr (refl, ap (λ f. f.cooldown_exemptions) at)

    abbrev IsCapped : List CooldownExemption → List CooldownExemption → Type 0
    IsCapped next result =
        (any (hits lower ecosystem target now) result ≡ any (hits lower ecosystem target now) next)
        × (length result ≤ cooldown_exemption_cap)
        × (All (IsCanonical lower) next → All (IsCanonical lower) result)

    capped-IsCapped :
        (file : DgFile) (next : List CooldownExemption) (file' : DgFile)
        → capped file next now ≡ ok file'
        → IsCapped next file'.cooldown_exemptions
    unfolding capped cooldown_exemption_active
    capped-IsCapped file next file' h =
        let live = keep (λ e. cooldown_exemption_active e now) next in
        elim (capped-cases file next live file' (ltb cooldown_exemption_cap (length next))
          (ltb cooldown_exemption_cap (length live)) h) [
            | inl (few, at) ↦ subst (IsCapped next) at (refl, ground arith, (λ hs. hs))
            | inr (few, at) ↦ subst (IsCapped next) at (
              any-keep (hits lower ecosystem target now) (λ e. cooldown_exemption_active e now)
                  (λ e hit. ground arith) next,
              ground arith,
              All-keep (IsCanonical lower) (λ e. cooldown_exemption_active e now) next,
            )
          ]

  -- Adding exemptions to a file whose names are canonical: a package is exempt afterwards exactly if the
  -- last addition for it is active, and, without one, if it was exempt before. The file has at most 500
  -- exemptions then, with canonical names. The canonical form of a name is canonical itself.
  pub append_cooldown_exemptions-refines :
      (file file' : DgFile) (additions : List NewCooldownExemption) (now : ℕ) (now_text : String)
      (ecosystem : ExemptionEcosystem) (name : String)
      → IsStable lower
      → All (IsCanonical lower) file.cooldown_exemptions
      → append_cooldown_exemptions lower file additions now now_text ≡ ok file'
      → (is_cooldown_exempt_by_dg_file lower name ecosystem file'.cooldown_exemptions now
          ≡ get_or
              (last_for lower ecosystem
                (canonical_cooldown_name lower ecosystem name)
                now
                additions)
              (is_cooldown_exempt_by_dg_file lower name ecosystem file.cooldown_exemptions now))
        × (length file'.cooldown_exemptions ≤ cooldown_exemption_cap)
        × All (IsCanonical lower) file'.cooldown_exemptions
  unfolding append_cooldown_exemptions is_cooldown_exempt_by_dg_file
  append_cooldown_exemptions-refines file file' additions now now_text ecosystem name stable canons
        h =
      let target = canonical_cooldown_name lower ecosystem name in
      let prior = file.cooldown_exemptions in
      let added = canonical_additions lower additions in
      let kept = keep (λ e. not (is_replaced lower added e)) prior in
      let (same, few, canonical) =
        capped-IsCapped ecosystem target now file (kept ++ map (exempted prior now_text) added)
          file' h in
      (
        same ∙ next-hits ecosystem target now prior now_text additions stable canons,
        few,
        canonical (
            All-append (IsCanonical lower) kept (map (exempted prior now_text) added)
              (All-keep (IsCanonical lower) _ prior canons)
              (All-mapped (exempted prior now_text) (IsCanonical lower) added
                (canonical_additions-IsCanonicalNew lower additions stable))),
      )

-- ===== src/Api/Response/Package.antt =====
-- The packages that src/api/analyze.ts keeps of an answer.
use dg_cli.Common.{
  ◌≡◌, refl, ◌⊎◌, inl, inr, String, Bool, true, false, ◌&&◌, and-true, All, Option, none, some,
  List, [], ◌∷◌, string_Eq, arith,
}
use dg_cli.Common.Result.{Result, ok, err, ◌>>=◌}
use dg_cli.Common.Json.{
  Json, null, boolean, number, other_number, text, array, object, Items, nil, item, Fields, lookup,
  put_field,
}
use dg_cli.Security.Sanitize.{sanitize_deep, sanitize_items, sanitize_fields}
use dg_cli.Security.Sanitize.Clean.{is_clean_line}
use dg_cli.Security.Sanitize.Plain.{
  is_clean_keys, LeavesPlain, deep_option, lookup-sanitize, sanitize-plain,
}
use dg_cli.Api.Errors.{Thrown}
use dg_cli.Api.Response.Keys.{put-clean}
use dg_cli.Common.Json.Keys.{lookup-put, lookup-put_other}
use dg_cli.Api.Response.{
  ScannerAction, block, warn, pass, analysis_incomplete, action_text, normalize_action, spread,
  array_only, put_action, clean_all, normalize_package, normalize_packages,
}

action_text-clean : (a : ScannerAction) → is_clean_line (action_text a) ≡ true
action_text-clean block = refl
action_text-clean warn = refl
action_text-clean pass = refl
action_text-clean analysis_incomplete = refl

abbrev pub IsArray : Option Json → Type 0
IsArray found = (items : Items) × (found ≡ some (array items))

abbrev pub IsAction : Option Json → Type 0
IsAction found = (found ≡ none) ⊎ ((a : ScannerAction) × (found ≡ some (text (action_text a))))

-- A package as the types of the source have it: its action is missing or one of the four, and its
-- findings and reasons are arrays.
abbrev pub WellFormed : Fields → Type 0
WellFormed fields =
    IsAction (lookup "action" fields)
    × IsArray (lookup "findings" fields)
    × IsArray (lookup "reasons" fields)

array_only-IsArray : (o : Option Json) → IsArray (some (array_only o))
array_only-IsArray none = (nil, refl)
array_only-IsArray (some (array items)) = (items, refl)
array_only-IsArray (some null) = (nil, refl)
array_only-IsArray (some (boolean b)) = (nil, refl)
array_only-IsArray (some (number n)) = (nil, refl)
array_only-IsArray (some (other_number s)) = (nil, refl)
array_only-IsArray (some (text s)) = (nil, refl)
array_only-IsArray (some (object fields)) = (nil, refl)

put_action-IsAction :
    (fields : Fields) → IsAction (lookup "action" (put_action fields (lookup "action" fields)))
put_action-IsAction fields = by_action (lookup "action" fields) refl
  where
    by_action :
        (o : Option Json)
        → lookup "action" fields ≡ o
        → IsAction (lookup "action" (put_action fields o))
    by_action none h = inl h
    by_action (some value) h = inr (normalize_action (some value), lookup-put fields "action" _)

put_action-clean :
    (fields : Fields) (o : Option Json)
    → is_clean_keys fields ≡ true
    → is_clean_keys (put_action fields o) ≡ true
put_action-clean fields none h = h
put_action-clean fields (some value) h = put-clean fields "action" _ refl h

module _ (strip : String → String) (plain : LeavesPlain strip) where
  deep-IsArray : (o : Option Json) → IsArray o → IsArray (deep_option strip o)
  unfolding sanitize_deep
  deep-IsArray o (items, h) = (sanitize_items strip items, rw h refl)

  deep-IsAction : (o : Option Json) → IsAction o → IsAction (deep_option strip o)
  unfolding sanitize_deep
  deep-IsAction o (inl h) = inl (rw h refl)
  deep-IsAction o (inr (a, h)) =
      inr (a, rw (h, sanitize-plain strip plain (action_text a) (action_text-clean a)) refl)

  -- The three keys survive the sanitizing of a package whose own keys are clean.
  package-WellFormed :
      (fields : Fields)
      → is_clean_keys fields ≡ true
      → WellFormed fields
      → WellFormed (sanitize_fields strip fields)
  package-WellFormed fields clean (action, findings, reasons) =
      rw
        (
          lookup-sanitize strip plain "action" fields clean,
          lookup-sanitize strip plain "findings" fields clean,
          lookup-sanitize strip plain "reasons" fields clean,
        )
        (deep-IsAction _ action, deep-IsArray _ findings, deep-IsArray _ reasons)

  normalized-WellFormed :
      (own_fields : Fields) (findings reasons : Json)
      → is_clean_keys own_fields ≡ true
      → IsArray (some findings)
      → IsArray (some reasons)
      → WellFormed (
          sanitize_fields strip (
            put_field
              (put_field (put_action own_fields (lookup "action" own_fields)) "findings" findings)
              "reasons"
              reasons))
  normalized-WellFormed own_fields findings reasons clean is_findings is_reasons =
      let base = put_action own_fields (lookup "action" own_fields) in
      let middle = put_field base "findings" findings in
      let action = put_action-IsAction own_fields in
      package-WellFormed (put_field middle "reasons" reasons)
        (put-clean middle "reasons" reasons refl
          (put-clean base "findings" findings refl (put_action-clean own_fields _ clean)))
        (
          rw
              (
                lookup-put_other middle "reasons" "action" reasons refl,
                lookup-put_other base "findings" "action" findings refl,
              )
              action,
          rw
              (
                lookup-put_other middle "reasons" "findings" reasons refl,
                lookup-put base "findings" findings,
              )
              is_findings,
          rw (lookup-put middle "reasons" reasons) is_reasons,
        )

more-ok :
    (first : Fields) (rest : Result Thrown (List Fields)) (packages : List Fields)
    → (rest >>= λ others. ok (first ∷ others)) ≡ ok packages
    → (others : List Fields) × ((rest ≡ ok others) × (packages ≡ first ∷ others))
more-ok first (err thrown) packages h = ground arith
more-ok first (ok others) packages h = (others, (refl, cc))

-- An object whose keys have no control character.
abbrev pub is_plain_object : Json → Bool
is_plain_object (object fields) = is_clean_keys fields
is_plain_object _ = false

unfoldable pub all_plain : Items → Bool
all_plain nil = true
all_plain (item entry items) = is_plain_object entry && all_plain items

module _ (strip : String → String) (plain : LeavesPlain strip) where
  pub packages-WellFormed :
      (items : Items) (packages : List Fields)
      → all_plain items ≡ true
      → normalize_packages items ≡ ok packages
      → All WellFormed (clean_all strip packages)
  unfolding normalize_packages normalize_package all_plain spread
  packages-WellFormed nil packages clean h = let none_kept : packages ≡ [] = cc in rw none_kept tt
  packages-WellFormed (item (object fields) items) packages clean h =
      let (here, later) = and-true (is_clean_keys fields) _ clean in
      let (others, (kept, added)) = more-ok _ (normalize_packages items) packages h in
      rw added (
        normalized-WellFormed strip plain fields _ _ here
            (array_only-IsArray (lookup "findings" fields))
            (array_only-IsArray (lookup "reasons" fields)),
        packages-WellFormed items others later kept,
      )
  packages-WellFormed (item null items) packages clean h = ground arith
  packages-WellFormed (item (boolean b) items) packages clean h = ground arith
  packages-WellFormed (item (number n) items) packages clean h = ground arith
  packages-WellFormed (item (other_number s) items) packages clean h = ground arith
  packages-WellFormed (item (text s) items) packages clean h = ground arith
  packages-WellFormed (item (array xs) items) packages clean h = ground arith

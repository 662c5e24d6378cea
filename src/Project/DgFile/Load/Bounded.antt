-- ===== src/Project/DgFile/Load/Bounded.antt =====
-- What src/project/dgfile.ts loads is within its bounds, whatever the file holds.
use dg_cli.Common.{
  ℕ, suc, ◌≤◌, ◌≡◌, refl, subst, inl, inr, String, false, ◌||◌, ltb, ◌==◌, string_Eq, if◌then◌else◌,
  Bool-cases, Option, none, some, List, [], any, codes, length, All, arith,
}
use dg_cli.Common.Result.{Result, ok, err}
use dg_cli.Common.Json.{
  Json, null, boolean, number, other_number, text, array, object, Items, nil, item, Fields, lookup,
}
use dg_cli.Project.DgFile.{ExemptionEcosystem, CooldownExemption, DgFile}
use dg_cli.Project.DgFile.Exemptions.{cooldown_exemption_cap}
use dg_cli.Project.DgFile.Parse.{decision_entry_cap, is_bad_in_name, parse_exemption_ecosystem}
use dg_cli.Project.DgFile.Load.{
  count_items, items_of, fields_of, is_version_one, parse_all, prepend, fail_open, empty_dg_file,
  exemption_from, named_exemption, exemption_of, with_listed, with_approvals,
  parse_cooldown_exemption, parse_decision_entry, loaded_from, load_json, load_dg_file,
}
use dg_cli.Policy.Cooldown.Package.{IsStable, IsCanonical}

-- An entry that is kept meets a condition that all parsed ones meet.
module _ {A : Type 0} (parse : Json → Option A) (P : A → Type 0)
    (good : (value : Json) (a : A) → parse value ≡ some a → P a) where
  prepend-All :
      (o : Option A) (rest : List A)
      → ((a : A) → o ≡ some a → P a)
      → All P rest
      → All P (prepend o rest)
  prepend-All none rest h hs = hs
  prepend-All (some a) rest h hs = (h a refl, hs)

  parse_all-All : (items : Items) → All P (parse_all parse items)
  unfolding parse_all
  parse_all-All nil = tt
  parse_all-All (item value items) =
      prepend-All (parse value) (parse_all parse items) (good value) (parse_all-All items)

module _ {A : Type 0} (parse : Json → Option A) where
  length-prepend : (o : Option A) (rest : List A) → length (prepend o rest) ≤ suc (length rest)
  length-prepend none rest = omega arith
  length-prepend (some a) rest = omega arith

  length-parse_all : (items : Items) → length (parse_all parse items) ≤ count_items items
  unfolding parse_all
  length-parse_all nil = omega arith
  length-parse_all (item value items) =
      omega (arith, length-prepend (parse value) (parse_all parse items), length-parse_all items)

module _ (lower : String → String) where
  -- An unreadable file counts as empty, and a readable one is within its caps.
  abbrev pub IsBounded : DgFile → Type 0
  IsBounded file =
      (length file.decisions ≤ decision_entry_cap)
      × (length file.cooldown_exemptions ≤ cooldown_exemption_cap)
      × All (IsCanonical lower) file.cooldown_exemptions
      × ((file.readable ≡ false) → (file.decisions ≡ []) × (file.cooldown_exemptions ≡ []))

  fail_open-IsBounded : (path failure : String) → IsBounded (fail_open path failure)
  unfolding fail_open
  fail_open-IsBounded path failure = (omega arith, omega arith, tt, (λ h. (refl, refl)))

module _ (lower : String → String) (date : String → Option ℕ) (derived_id : Fields → String)
    (show : Json → String) (stable : IsStable lower) where
  named-IsCanonical :
      (fields : Fields) (ecosystem : ExemptionEcosystem) (raw_name : String) (e : CooldownExemption)
      → named_exemption lower date derived_id show fields ecosystem raw_name ≡ some e
      → IsCanonical lower e
  named-IsCanonical fields ecosystem raw_name e h =
      elim (Bool-cases (raw_name == "" || any is_bad_in_name (codes raw_name))) [
        | inl bad ↦ ground arith
        | inr good ↦
            let kept =
              subst
                (λ b.
                  (if b
                    then none
                    else some (exemption_from lower date derived_id show fields ecosystem raw_name))
                  ≡ some e)
                good h in
            let at : exemption_from lower date derived_id show fields ecosystem raw_name ≡ e = cc in
            subst (IsCanonical lower) at (stable ecosystem raw_name)
      ]

  exemption-IsCanonical :
      (fields : Fields) (ecosystem : Option ExemptionEcosystem) (name : Option Json)
      (e : CooldownExemption)
      → exemption_of lower date derived_id show fields ecosystem name ≡ some e
      → IsCanonical lower e
  exemption-IsCanonical fields (some ecosystem) (some (text s)) e h =
      named-IsCanonical fields ecosystem s e h
  exemption-IsCanonical fields none name e h = ground arith
  exemption-IsCanonical fields (some ecosystem) none e h = ground arith
  exemption-IsCanonical fields (some ecosystem) (some null) e h = ground arith
  exemption-IsCanonical fields (some ecosystem) (some (boolean b)) e h = ground arith
  exemption-IsCanonical fields (some ecosystem) (some (number n)) e h = ground arith
  exemption-IsCanonical fields (some ecosystem) (some (other_number s)) e h = ground arith
  exemption-IsCanonical fields (some ecosystem) (some (array items)) e h = ground arith
  exemption-IsCanonical fields (some ecosystem) (some (object others)) e h = ground arith

  parsed-IsCanonical :
      (value : Json) (e : CooldownExemption)
      → parse_cooldown_exemption lower date derived_id show value ≡ some e
      → IsCanonical lower e
  unfolding parse_cooldown_exemption
  parsed-IsCanonical (object fields) e h =
      exemption-IsCanonical fields (parse_exemption_ecosystem (lookup "ecosystem" fields))
        (lookup "name" fields) e h
  parsed-IsCanonical null e h = ground arith
  parsed-IsCanonical (boolean b) e h = ground arith
  parsed-IsCanonical (number n) e h = ground arith
  parsed-IsCanonical (other_number s) e h = ground arith
  parsed-IsCanonical (text s) e h = ground arith
  parsed-IsCanonical (array items) e h = ground arith

  with_listed-IsBounded :
      (path : String) (raw : Fields) (entries : Items) (approvals : Fields)
      (exemptions : Option Items)
      → count_items entries ≤ decision_entry_cap
      → IsBounded lower
          (with_listed lower date derived_id show path raw entries approvals exemptions)
  unfolding fail_open
  with_listed-IsBounded path raw entries approvals none few = fail_open-IsBounded lower path ""
  with_listed-IsBounded path raw entries approvals (some listed) few =
      elim (Bool-cases (ltb cooldown_exemption_cap (count_items listed))) [
        | inl e ↦ (rw e (fail_open-IsBounded lower path ""))
        | inr e ↦
            let decisions =
              length-parse_all (parse_decision_entry lower date derived_id show) entries in
            let exemptions =
              length-parse_all (parse_cooldown_exemption lower date derived_id show) listed in
            (rw e (
              omega arith,
              ground arith,
              parse_all-All (parse_cooldown_exemption lower date derived_id show)
                  (IsCanonical lower) parsed-IsCanonical listed,
              (λ unreadable. ground arith),
            ))
      ]

  with_approvals-IsBounded :
      (path : String) (raw : Fields) (entries : Items) (approvals : Option Fields)
      (exemptions : Option Items)
      → count_items entries ≤ decision_entry_cap
      → IsBounded lower
          (with_approvals lower date derived_id show path raw entries approvals exemptions)
  unfolding fail_open
  with_approvals-IsBounded path raw entries none exemptions few = fail_open-IsBounded lower path ""
  with_approvals-IsBounded path raw entries (some approvals) exemptions few =
      with_listed-IsBounded path raw entries approvals exemptions few

  loaded_from-IsBounded :
      (path : String) (raw : Fields) (entries : Option Items) (approvals : Option Fields)
      (exemptions : Option Items)
      → IsBounded lower
          (loaded_from lower date derived_id show path raw entries approvals exemptions)
  unfolding fail_open
  loaded_from-IsBounded path raw none approvals exemptions = fail_open-IsBounded lower path ""
  loaded_from-IsBounded path raw (some entries) approvals exemptions =
      elim (Bool-cases (ltb decision_entry_cap (count_items entries))) [
        | inl e ↦ (rw e (fail_open-IsBounded lower path ""))
        | inr e ↦
            (rw e (with_approvals-IsBounded path raw entries approvals exemptions (ground arith)))
      ]

  json-IsBounded :
      (path : String) (raw : Json) → IsBounded lower (load_json lower date derived_id show path raw)
  unfolding load_json fail_open
  json-IsBounded path (object raw) = elim (Bool-cases (is_version_one (lookup "version" raw))) [
    | inl e ↦
        (rw e (
          loaded_from-IsBounded path raw (items_of (lookup "decisions" raw))
            (fields_of (lookup "scriptApprovals" raw))
            (items_of (lookup "cooldownExemptions" raw))))
    | inr e ↦ (rw e (fail_open-IsBounded lower path ""))
  ]
  json-IsBounded path null = fail_open-IsBounded lower path ""
  json-IsBounded path (boolean b) = fail_open-IsBounded lower path ""
  json-IsBounded path (number n) = fail_open-IsBounded lower path ""
  json-IsBounded path (other_number s) = fail_open-IsBounded lower path ""
  json-IsBounded path (text s) = fail_open-IsBounded lower path ""
  json-IsBounded path (array items) = fail_open-IsBounded lower path ""

  -- Where the canonical form of each name is canonical itself, loading a dg.json gives, whatever stands
  -- in it, at most 500 decisions and at most 500 cooldown exemptions, these under the canonical form of
  -- their names, and none of either where the file is unreadable.
  pub load_dg_file-IsBounded :
      (path : String) (content : Option (Result String Json))
      → IsBounded lower (load_dg_file lower date derived_id show path content)
  unfolding load_dg_file empty_dg_file fail_open
  load_dg_file-IsBounded path none = (omega arith, omega arith, tt, (λ h. ground arith))
  load_dg_file-IsBounded path (some (err message)) = fail_open-IsBounded lower path ""
  load_dg_file-IsBounded path (some (ok raw)) = json-IsBounded path raw

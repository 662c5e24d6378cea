-- ===== src/Project/DgFile/Save/RoundTrip.antt =====
-- A cooldown exemption that is written to a dg.json is read back as it was, src/project/dgfile.ts.
use dg_cli.Common.{
  ℕ, ◌≡◌, refl, sym, ap, ◌∙◌, inl, inr, String, true, false, not, ◌&&◌, ◌||◌, ◌==◌, string_Eq,
  str_eq_iff, ◌⊎◌, Bool-cases, Option, none, some, get_or, List, any, has, codes, subst, arith,
}
use dg_cli.Common.Json.{Json, text, Fields, end, field, lookup, put_field, replace_field}
use dg_cli.Common.Json.Keys.{lookup-put, lookup-put_other}
use dg_cli.Project.DgFile.{ExemptionEcosystem, Expiry, never, at, no_date, CooldownExemption}
use dg_cli.Project.DgFile.Exemptions.{exemption_ecosystem_text, decision_reason_max, slice}
use dg_cli.Project.DgFile.Parse.{
  unsafe_object_keys, exemption_fields, unknown_keys_of, non_empty, is_bad_in_name,
  parse_exemption_ecosystem,
}
use dg_cli.Project.DgFile.Load.{parse_cooldown_exemption, exemption_from, expiry_of}
use dg_cli.Project.DgFile.Save.{with_expiry, exemption_front, serialize_cooldown_exemption}
use dg_cli.Policy.Cooldown.Package.{IsCanonical}

unknown-replace :
    (fields : Fields) (key : String) (v : Json) (known : List String)
    → has known key ≡ true
    → unknown_keys_of (replace_field fields key v) known ≡ unknown_keys_of fields known
unfolding unknown_keys_of replace_field
unknown-replace end key v known h = refl
unknown-replace (field k u fields) key v known h = elim (Bool-cases (k == key)) [
  | inl e ↦
      let known_too : has known k ≡ true =
        subst (λ j. has known j ≡ true) (sym ((str_eq_iff k key).0 e)) h in
      (rw (e, known_too) (unknown-replace fields key v known h))
  | inr e ↦ (rw (e, unknown-replace fields key v known h) refl)
]

-- A known key does not count among the unknown ones.
pub unknown-put :
    (fields : Fields) (key : String) (v : Json) (known : List String)
    → has known key ≡ true
    → unknown_keys_of (put_field fields key v) known ≡ unknown_keys_of fields known
unfolding unknown_keys_of put_field
unknown-put end key v known h = rw h refl
unknown-put (field k u fields) key v known h = elim (Bool-cases (k == key)) [
  | inl e ↦
      let known_too : has known k ≡ true =
        subst (λ j. has known j ≡ true) (sym ((str_eq_iff k key).0 e)) h in
      (rw (e, known_too) (unknown-replace fields key v known h))
  | inr e ↦ (rw (e, unknown-put fields key v known h) refl)
]

pub lookup-unknown :
    (fields : Fields) (key : String) (known : List String)
    → has known key ≡ true
    → lookup key (unknown_keys_of fields known) ≡ none
unfolding unknown_keys_of
lookup-unknown end key known h = refl
lookup-unknown (field k v fields) key known h =
    elim (Bool-cases (not (has known k) && not (has unsafe_object_keys k))) [
      | inl e ↦
          let apart : (k == key) ≡ false = other (Bool-cases (k == key)) (ground arith) in
          (rw (e, lookup-unknown fields key known h, apart) refl)
      | inr e ↦ (rw e (lookup-unknown fields key known h))
    ]
  where
    other : ((k == key) ≡ true) ⊎ ((k == key) ≡ false) → has known k ≡ false → (k == key) ≡ false
    other (inr apart) unknown = apart
    other (inl same) unknown =
        let clash : has known key ≡ false =
          subst (λ j. has known j ≡ false) ((str_eq_iff k key).0 same) unknown in
        ground arith

pub get_or-non_empty : (fields : Fields) → get_or (non_empty fields) end ≡ fields
get_or-non_empty end = refl
get_or-non_empty (field k v fields) = refl

-- The value that stands under expiresAt, where one does.
abbrev pub expiry_field : Expiry → Option Json
expiry_field never = none
expiry_field (at date time) = some (text date)
expiry_field (no_date date) = some (text date)

-- The fields of an object are those of the exemption.
abbrev Reads : CooldownExemption → Fields → Type 0
Reads e fields =
    (lookup "ecosystem" fields ≡ some (text (exemption_ecosystem_text e.ecosystem)))
    × (lookup "name" fields ≡ some (text e.name))
    × (lookup "reason" fields ≡ some (text e.reason))
    × (lookup "acceptedBy" fields ≡ some (text e.accepted_by))
    × (lookup "acceptedAt" fields ≡ some (text e.accepted_at))
    × (unknown_keys_of fields exemption_fields
        ≡ unknown_keys_of (get_or e.extra end) exemption_fields)

front-Reads : (e : CooldownExemption) → Reads e (exemption_front e)
front-Reads e = (
  simp (lookup-put, lookup-put_other),
  simp (lookup-put, lookup-put_other),
  simp (lookup-put, lookup-put_other),
  simp (lookup-put, lookup-put_other),
  simp lookup-put,
  simp unknown-put,
)

with_expiry-Reads :
    (e : CooldownExemption) (fields : Fields) (x : Expiry)
    → Reads e fields
    → Reads e (with_expiry fields x)
with_expiry-Reads e fields never h = h
with_expiry-Reads e fields (at date time) (a, b, c, d, f, g) = (
  simp (lookup-put_other, a),
  simp (lookup-put_other, b),
  simp (lookup-put_other, c),
  simp (lookup-put_other, d),
  simp (lookup-put_other, f),
  simp (unknown-put, g),
)
with_expiry-Reads e fields (no_date date) (a, b, c, d, f, g) = (
  simp (lookup-put_other, a),
  simp (lookup-put_other, b),
  simp (lookup-put_other, c),
  simp (lookup-put_other, d),
  simp (lookup-put_other, f),
  simp (unknown-put, g),
)

-- Nothing stands under expiresAt among the keys that the program does not know.
front-expiry :
    (e : CooldownExemption)
    → lookup "expiresAt" (get_or e.extra end) ≡ none
    → lookup "expiresAt" (with_expiry (exemption_front e) e.expires_at) ≡ expiry_field e.expires_at
front-expiry e h = go e.expires_at
  where
    go : (x : Expiry) → lookup "expiresAt" (with_expiry (exemption_front e) x) ≡ expiry_field x
    go never = simp (lookup-put_other, h)
    go (at date time) = simp lookup-put
    go (no_date date) = simp lookup-put

module _ (lower : String → String) (date : String → Option ℕ) where
  -- The text of an expiry is not empty and is read as its time.
  abbrev pub IsDated : Expiry → Type 0
  IsDated never = Unit
  IsDated (at s time) = ((s == "") ≡ false) × (date s ≡ some time)
  IsDated (no_date s) = ((s == "") ≡ false) × (date s ≡ none)

  -- What loading ensures of an exemption: its name is accepted and canonical, its reason short, it has
  -- an author, its expiry is a text that was read, and its other keys are unknown ones.
  pub record IsProper (e : CooldownExemption) : Type 0 where
    pub accepted : (e.name == "" || any is_bad_in_name (codes e.name)) ≡ false
    pub named : IsCanonical lower e
    pub short : slice decision_reason_max e.reason ≡ e.reason
    pub authored : (e.accepted_by == "") ≡ false
    pub expiry : IsDated e.expires_at
    pub unknown : non_empty (unknown_keys_of (get_or e.extra end) exemption_fields) ≡ e.extra

module _ (lower : String → String) (date : String → Option ℕ) (derived_id : Fields → String)
    (show : Json → String) where
  pub expiry_of-expiry_field :
      (x : Expiry)
      → IsDated lower date x
      → expiry_of lower date derived_id show (expiry_field x) ≡ x
  expiry_of-expiry_field never h = refl
  expiry_of-expiry_field (at s time) (filled, read) = rw (filled, read) refl
  expiry_of-expiry_field (no_date s) (filled, read) = rw (filled, read) refl

  ecosystem-read :
      (x : ExemptionEcosystem)
      → parse_exemption_ecosystem (some (text (exemption_ecosystem_text x))) ≡ some x
  ecosystem-read ExemptionEcosystem.npm = refl
  ecosystem-read ExemptionEcosystem.pypi = refl
  ecosystem-read ExemptionEcosystem.cargo = refl

  -- The object of a proper exemption, and the value under each of its fields.
  read_back :
      (e : CooldownExemption) (fields : Fields)
      → IsProper lower date e
      → Reads e fields
      → lookup "expiresAt" fields ≡ expiry_field e.expires_at
      → exemption_from lower date derived_id show fields e.ecosystem e.name ≡ e
  read_back e fields proper (a, b, c, d, f, g) h =
      rw
        (
          c,
          d,
          f,
          g,
          h,
          proper.named,
          proper.short,
          proper.authored,
          proper.unknown,
          expiry_of-expiry_field e.expires_at proper.expiry,
        )
        refl

  -- A cooldown exemption that is as loading leaves it is written to an object that is read back as the
  -- same exemption.
  pub parse_cooldown_exemption-serialize :
      (e : CooldownExemption)
      → IsProper lower date e
      → parse_cooldown_exemption lower date derived_id show (serialize_cooldown_exemption e)
        ≡ some e
  unfolding parse_cooldown_exemption serialize_cooldown_exemption
  parse_cooldown_exemption-serialize e proper =
      let reads : Reads e (with_expiry (exemption_front e) e.expires_at) =
        with_expiry-Reads e (exemption_front e) e.expires_at (front-Reads e) in
      let same_extra : get_or e.extra end ≡ unknown_keys_of (get_or e.extra end) exemption_fields =
        sym (ap (λ o. get_or o end) proper.unknown)
        ∙ get_or-non_empty (unknown_keys_of (get_or e.extra end) exemption_fields) in
      let clear : lookup "expiresAt" (get_or e.extra end) ≡ none =
        subst (λ x. lookup "expiresAt" x ≡ none) (sym same_extra)
          (lookup-unknown (get_or e.extra end) "expiresAt" exemption_fields refl) in
      rw (reads.0, reads.1, ecosystem-read e.ecosystem, proper.accepted)
        (ap some (
          read_back e (with_expiry (exemption_front e) e.expires_at) proper reads
            (front-expiry e clear)))

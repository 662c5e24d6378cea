-- ===== src/Project/DgFile/Save/Decisions.antt =====
-- A decision that is written to a dg.json is read back as it was, src/project/dgfile.ts.
use dg_cli.Common.{
  ℕ, ◌≡◌, refl, sym, ap, ◌∙◌, String, true, false, ◌&&◌, leb, ◌==◌, string_Eq, Option, none, some,
  get_or, List, [], ◌∷◌, has, All, subst,
}
use dg_cli.Common.Json.{Json, text, object, Fields, end, lookup, put_field}
use dg_cli.Common.Json.Keys.{lookup-put, lookup-put_other}
use dg_cli.Project.DgFile.{
  DecisionEcosystem, DecisionScope, exact, any_version, Expiry, never, at, no_date, DecisionEntry,
}
use dg_cli.Project.DgFile.Exemptions.{decision_reason_max, slice}
use dg_cli.Project.DgFile.Parse.{
  unsafe_object_keys, entry_fields, unknown_keys_of, non_empty, parse_decision_ecosystem,
  parse_scope, findings_of,
}
use dg_cli.Project.DgFile.Load.{bad_expiry, decision_from, parse_decision_entry, parse_all}
use dg_cli.Project.DgFile.Save.{
  with_expiry, decision_ecosystem_text, scope_json, findings_fields, decision_front,
  serialize_decision_entry, serialize_all,
}
use dg_cli.Project.DgFile.Save.RoundTrip.{
  unknown-put, lookup-unknown, get_or-non_empty, expiry_field, IsDated, expiry_of-expiry_field,
}
use dg_cli.Decisions.Fingerprint.{Entries, a_number, no_number}

-- The categories are names that are kept, and the severities are from 1 to 5.
abbrev IsFindings : Entries → Type 0
IsFindings [] = Unit
IsFindings ((category, a_number n) ∷ entries) =
    (has unsafe_object_keys category ≡ false) × ((leb 1 n && leb n 5) ≡ true) × IsFindings entries
IsFindings ((category, no_number) ∷ entries) = ⊥

abbrev IsScope : DecisionScope → Type 0
IsScope (exact version) = (version == "") ≡ false
IsScope any_version = Unit

findings-read :
    (entries : Entries) → IsFindings entries → findings_of (findings_fields entries) ≡ some entries
unfolding findings_of
findings-read [] h = refl
findings-read ((category, a_number n) ∷ entries) (kept, bounded, hs) =
    rw (bounded, findings-read entries hs, kept) refl
findings-read ((category, no_number) ∷ entries) h = elim h [ ]

scope-read :
    (scope : DecisionScope) → IsScope scope → parse_scope (some (scope_json scope)) ≡ some scope
unfolding parse_scope
scope-read (exact version) h = rw h refl
scope-read any_version h = refl

ecosystem-read :
    (x : DecisionEcosystem)
    → parse_decision_ecosystem (some (text (decision_ecosystem_text x))) ≡ some x
ecosystem-read DecisionEcosystem.npm = refl
ecosystem-read DecisionEcosystem.pypi = refl

expiry_field-good : (x : Expiry) → bad_expiry (expiry_field x) ≡ false
expiry_field-good never = refl
expiry_field-good (at s time) = refl
expiry_field-good (no_date s) = refl

-- The fields of an object are those of the decision.
abbrev Reads : DecisionEntry → Fields → Type 0
Reads e fields =
    (lookup "id" fields ≡ some (text e.id))
    × (lookup "ecosystem" fields ≡ some (text (decision_ecosystem_text e.ecosystem)))
    × (lookup "name" fields ≡ some (text e.name))
    × (lookup "scope" fields ≡ some (scope_json e.scope))
    × (lookup "findings" fields ≡ some (object (findings_fields e.findings)))
    × (lookup "reason" fields ≡ some (text e.reason))
    × (lookup "acceptedBy" fields ≡ some (text e.accepted_by))
    × (lookup "acceptedAt" fields ≡ some (text e.accepted_at))
    × (unknown_keys_of fields entry_fields ≡ unknown_keys_of (get_or e.extra end) entry_fields)

front-Reads : (e : DecisionEntry) → Reads e (decision_front e)
front-Reads e = (
  simp (lookup-put, lookup-put_other),
  simp (lookup-put, lookup-put_other),
  simp (lookup-put, lookup-put_other),
  simp (lookup-put, lookup-put_other),
  simp (lookup-put, lookup-put_other),
  simp (lookup-put, lookup-put_other),
  simp (lookup-put, lookup-put_other),
  simp lookup-put,
  simp unknown-put,
)

put-Reads :
    (e : DecisionEntry) (fields : Fields) (date : String)
    → Reads e fields
    → Reads e (put_field fields "expiresAt" (text date))
put-Reads e fields date (a, b, c, d, f, g, h, i, j) = (
  simp (lookup-put_other, a),
  simp (lookup-put_other, b),
  simp (lookup-put_other, c),
  simp (lookup-put_other, d),
  simp (lookup-put_other, f),
  simp (lookup-put_other, g),
  simp (lookup-put_other, h),
  simp (lookup-put_other, i),
  simp (unknown-put, j),
)

with_expiry-Reads :
    (e : DecisionEntry) (fields : Fields) (x : Expiry)
    → Reads e fields
    → Reads e (with_expiry fields x)
with_expiry-Reads e fields never h = h
with_expiry-Reads e fields (at date time) h = put-Reads e fields date h
with_expiry-Reads e fields (no_date date) h = put-Reads e fields date h

front-expiry :
    (e : DecisionEntry) (x : Expiry)
    → lookup "expiresAt" (get_or e.extra end) ≡ none
    → lookup "expiresAt" (with_expiry (decision_front e) x) ≡ expiry_field x
front-expiry e never h = simp (lookup-put_other, h)
front-expiry e (at date time) h = simp lookup-put
front-expiry e (no_date date) h = simp lookup-put

module _ (lower : String → String) (date : String → Option ℕ) where
  -- What loading ensures of a decision: it has an id, a name and an author, its version, its findings
  -- and its expiry are such as are read, its reason is short, and its other keys are unknown ones.
  pub record IsRead (e : DecisionEntry) : Type 0 where
    pub identified : (e.id == "") ≡ false
    pub named : (e.name == "") ≡ false
    pub scoped : IsScope e.scope
    pub found : IsFindings e.findings
    pub short : slice decision_reason_max e.reason ≡ e.reason
    pub authored : (e.accepted_by == "") ≡ false
    pub expiry : IsDated lower date e.expires_at
    pub unknown : non_empty (unknown_keys_of (get_or e.extra end) entry_fields) ≡ e.extra

module _ (lower : String → String) (date : String → Option ℕ) (derived_id : Fields → String)
    (show : Json → String) where
  decision-read_back :
      (e : DecisionEntry) (fields : Fields)
      → IsRead lower date e
      → Reads e fields
      → lookup "expiresAt" fields ≡ expiry_field e.expires_at
      → decision_from lower date derived_id show fields e.ecosystem e.name e.scope e.findings ≡ e
  decision-read_back e fields h (a, b, c, d, f, g, i, j, k) x =
      rw
        (
          a,
          g,
          i,
          j,
          k,
          x,
          h.identified,
          h.short,
          h.authored,
          h.unknown,
          expiry_of-expiry_field lower date derived_id show e.expires_at h.expiry,
        )
        refl

  parse_decision_entry-serialize :
      (e : DecisionEntry)
      → IsRead lower date e
      → parse_decision_entry lower date derived_id show (serialize_decision_entry e) ≡ some e
  unfolding parse_decision_entry serialize_decision_entry
  parse_decision_entry-serialize e h =
      let fields = with_expiry (decision_front e) e.expires_at in
      let reads : Reads e fields =
        with_expiry-Reads e (decision_front e) e.expires_at (front-Reads e) in
      let same_extra : get_or e.extra end ≡ unknown_keys_of (get_or e.extra end) entry_fields =
        sym (ap (λ o. get_or o end) h.unknown)
        ∙ get_or-non_empty (unknown_keys_of (get_or e.extra end) entry_fields) in
      let clear : lookup "expiresAt" (get_or e.extra end) ≡ none =
        subst (λ x. lookup "expiresAt" x ≡ none) (sym same_extra)
          (lookup-unknown (get_or e.extra end) "expiresAt" entry_fields refl) in
      let expires = front-expiry e e.expires_at clear in
      let good : bad_expiry (lookup "expiresAt" fields) ≡ false =
        subst (λ x. bad_expiry x ≡ false) (sym expires) (expiry_field-good e.expires_at) in
      rw
        (
          reads.1,
          reads.2,
          reads.3,
          reads.4,
          ecosystem-read e.ecosystem,
          scope-read e.scope h.scoped,
          findings-read e.findings h.found,
          h.named,
          good,
        )
        (ap some (decision-read_back e fields h reads expires))

  -- Decisions that are as loading leaves them are written to a list that is read back as the same
  -- decisions, in their order.
  pub parse_all-serialize :
      (es : List DecisionEntry)
      → All (IsRead lower date) es
      → parse_all
          (parse_decision_entry lower date derived_id show)
          (serialize_all serialize_decision_entry es)
        ≡ es
  unfolding parse_all serialize_all
  parse_all-serialize [] h = refl
  parse_all-serialize (e ∷ es) (h, hs) =
      rw (parse_decision_entry-serialize e h, parse_all-serialize es hs) refl

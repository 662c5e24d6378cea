-- ===== src/Project/OverrideTrust.antt =====
-- src/project/override-trust.ts: the exemptions and decisions of a dg.json count only if the project is
-- trusted, or if they carry a tag that only this machine can make. `hmac` is HMAC-SHA256 of node:crypto
-- by key and text, as hex, and `real_path` is `realpathSync`, with a throw as `none`. The file of the
-- secret is its text, `none` where it is missing or unreadable.
pub mod Authored
pub mod Stamped
use Prim.Native.Char.{code}
use dg_cli.Common.{
  ℕ, suc, ◌+◌, String, Bool, true, false, not, ◌&&◌, ◌||◌, leb, ltb, ◌==◌, nat_Eq, string_Eq,
  if◌then◌else◌, Option, none, some, get_or, List, [], ◌∷◌, map, length, any, has, template, trim,
  codes, ◌-◌,
}
use dg_cli.Common.Result.{Result, ok, err, ◌>>=◌}
use dg_cli.Common.Json.{
  Json, null, boolean, number, other_number, text, array, object, Fields, end, lookup, put_field,
}
use dg_cli.Project.DgFile.{DecisionEntry, CooldownExemption, DgFile}
use dg_cli.Project.DgFile.Exemptions.{exemption_key}

abbrev pub auth_field : String
auth_field = "dgLocalAuth"

-- s.length, in UTF-16 code units, and the bytes of Buffer.from(s), in UTF-8
pub count_by : (ℕ → ℕ) → List ℕ → ℕ
count_by size [] = 0
count_by size (c ∷ cs) = size c + count_by size cs

abbrev pub utf16_units : ℕ → ℕ
utf16_units c = if leb 0x10000 c then 2 else 1

abbrev pub utf8_bytes : ℕ → ℕ
utf8_bytes c = if ltb c 0x80 then 1 else if ltb c 0x800 then 2 else if ltb c 0x10000 then 3 else 4

abbrev pub long_enough : String → Option String
long_enough value = if leb 32 (count_by utf16_units (codes value)) then some value else none

unfoldable pub read_secret : Option String → Option String
unfolding count_by
read_secret none = none
read_secret (some content) = long_enough (trim content)

-- The secret, and what is in its file then; `fresh` is a new random secret, `none` where making or
-- writing it throws.
abbrev pub or_create : Option String → Option String → Option String → Option String × Option String
or_create (some secret) content fresh = (some secret, content)
or_create none content none = (none, content)
or_create none content (some secret) = (some secret, some (template (secret ∷ "\n" ∷ [])))

unfoldable pub read_or_create_secret : Option String → Option String → Option String × Option String
unfolding read_secret
read_or_create_secret content fresh = or_create (read_secret content) content fresh

unfoldable pub exemption_identity : CooldownExemption → String
exemption_identity entry = template ("exemption|" ∷ exemption_key entry.ecosystem entry.name ∷ [])

unfoldable pub decision_identity : DecisionEntry → String
decision_identity entry = template ("decision|" ∷ entry.id ∷ [])

-- `timingSafeEqual` throws on buffers that differ in their length.
pub data TagError : Type 0 where
  range_error : TagError

unfoldable pub tag_matches : String → Option Json → Result TagError Bool
unfolding count_by
tag_matches expected (some (text candidate)) =
    if not (count_by utf16_units (codes candidate) == count_by utf16_units (codes expected))
    then ok false
    else if not (count_by utf8_bytes (codes candidate) == count_by utf8_bytes (codes expected))
    then err range_error
    else ok (candidate == expected)
tag_matches expected candidate = ok false

-- extra?.[key]
abbrev pub extra_at : Option Fields → String → Option Json
extra_at none key = none
extra_at (some extra) key = lookup key extra

-- { ...extra, [key]: tag }
abbrev pub stamped_extra : Option Fields → String → Option Fields
stamped_extra none tag = some (put_field end auth_field (text tag))
stamped_extra (some extra) tag = some (put_field extra auth_field (text tag))

-- An array's `filter` with a test that can throw.
unfoldable pub filter_ok :
    {A : Type 0} → (A → Result TagError Bool) → List A → Result TagError (List A)
filter_ok test [] = ok []
filter_ok test (x ∷ xs) =
    test x >>= λ good. filter_ok test xs >>= λ rest. ok (if good then x ∷ rest else rest)

pub record HonoredOverrides : Type 0 where
  pub exemptions : List CooldownExemption
  pub decisions : List DecisionEntry
  pub dropped_exemptions : ℕ
  pub dropped_decisions : ℕ

module _ (hmac : String → String → String) (real_path : String → Option String) where
  unfoldable pub auth_tag : String → String → String → String
  auth_tag secret root identity =
      hmac secret (template (get_or (real_path root) root ∷ "\0" ∷ identity ∷ []))

  abbrev pub stamp_exemption : String → String → List String → CooldownExemption → CooldownExemption
  stamp_exemption secret root prior e =
      if has prior (exemption_identity e)
      then e
      else record e { extra = stamped_extra e.extra (auth_tag secret root (exemption_identity e)) }

  abbrev pub stamp_decision : String → String → List String → DecisionEntry → DecisionEntry
  stamp_decision secret root prior d =
      if has prior (decision_identity d)
      then d
      else record d { extra = stamped_extra d.extra (auth_tag secret root (decision_identity d)) }

  abbrev pub stamp_with : Option String → DgFile → DgFile → String → DgFile
  stamp_with none next prior root = next
  stamp_with (some secret) next prior root = record next {
    cooldown_exemptions =
        map (stamp_exemption secret root (map exemption_identity prior.cooldown_exemptions))
          next.cooldown_exemptions;
    decisions =
        map (stamp_decision secret root (map decision_identity prior.decisions)) next.decisions;
  }

  -- The stamped file, and what is in the file of the secret then.
  unfoldable pub stamp_authored_entries :
      DgFile → DgFile → String → Option String → Option String → DgFile × Option String
  unfolding read_or_create_secret exemption_identity decision_identity
  stamp_authored_entries next prior root content fresh =
      let prior_exemptions = map exemption_identity prior.cooldown_exemptions in
      let prior_decisions = map decision_identity prior.decisions in
      let added_exemption =
        any (λ e. not (has prior_exemptions (exemption_identity e))) next.cooldown_exemptions in
      let added_decision =
        any (λ d. not (has prior_decisions (decision_identity d))) next.decisions in
      let created = read_or_create_secret content fresh in
      if not added_exemption && not added_decision
      then (next, content)
      else (stamp_with (created.0) next prior root, created.1)

  abbrev pub exemption_matches : String → String → CooldownExemption → Result TagError Bool
  exemption_matches secret root e =
      tag_matches (auth_tag secret root (exemption_identity e)) (extra_at e.extra auth_field)

  abbrev pub decision_matches : String → String → DecisionEntry → Result TagError Bool
  decision_matches secret root d =
      tag_matches (auth_tag secret root (decision_identity d)) (extra_at d.extra auth_field)

  abbrev pub only_authored :
      {A : Type 0}
      → Option String
      → (String → A → Result TagError Bool)
      → List A
      → Result TagError (List A)
  only_authored none test entries = ok []
  only_authored (some secret) test entries = filter_ok (test secret) entries

  unfoldable pub honored_overrides :
      DgFile → String → Option String → Bool → Result TagError HonoredOverrides
  unfolding read_secret tag_matches filter_ok auth_tag
  honored_overrides file root content true = ok (record {
    exemptions = file.cooldown_exemptions;
    decisions = file.decisions;
    dropped_exemptions = 0;
    dropped_decisions = 0;
  })
  honored_overrides file root content false =
      only_authored (read_secret content) (λ secret. exemption_matches secret root)
        file.cooldown_exemptions
      >>= λ exemptions.
          only_authored (read_secret content) (λ secret. decision_matches secret root)
            file.decisions
          >>= λ decisions. ok (record {
            exemptions = exemptions;
            decisions = decisions;
            dropped_exemptions = length file.cooldown_exemptions - length exemptions;
            dropped_decisions = length file.decisions - length decisions;
          })

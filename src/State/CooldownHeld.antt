-- ===== src/State/CooldownHeld.antt =====
-- src/state/cooldown-held.ts: the packages that the cooldown holds back, in a file of at most 500
-- entries. The comparison of texts by locale is a parameter, and a date comes with its reading.
pub mod Kept
use dg_cli.Common.{
  ℕ, ◌-◌, String, Bool, true, false, not, ◌&&◌, Option, none, some, List, [], ◌∷◌, ◌++◌, ◌==◌,
  string_Eq, ltb, leb, length, take, find, keep, template, if◌then◌else◌,
}

-- A date's text, and what `Date.parse` reads from it: milliseconds, or `none` for NaN.
pub record DateText : Type 0 where
  pub iso : String
  pub time : Option ℕ

-- What is only stored, with the texts of its numbers.
pub record HeldDetails : Type 0 where
  pub required_days : String
  pub age_days : Option String
  pub published_at : Option String
  pub manager : Option String

-- `eligible_at` is `none` where it is absent or empty.
pub record HeldPackageEntry : Type 0 where
  pub ecosystem : String
  pub name : String
  pub version : String
  pub eligible_at : Option DateText
  pub details : HeldDetails
  pub first_seen_at : DateText
  pub last_seen_at : DateText

pub record NewHeldPackage : Type 0 where
  pub ecosystem : String
  pub name : String
  pub version : String
  pub eligible_at : Option DateText
  pub details : HeldDetails

abbrev pub held_packages_cap : ℕ
held_packages_cap = 500

abbrev pub unknown_eligibility_ttl_ms : ℕ
unknown_eligibility_ttl_ms = 2592000000

unfoldable pub held_key : String → String → String → String
held_key ecosystem name version = template (ecosystem ∷ ":" ∷ name ∷ "@" ∷ version ∷ [])

abbrev pub key_of : HeldPackageEntry → String
key_of entry = held_key entry.ecosystem entry.name entry.version

abbrev time_of : Option DateText → Option ℕ
time_of none = none
time_of (some date) = date.time

-- A difference below 0 stands for a date that lies ahead, which is within any span.
abbrev seen_lately : Option ℕ → ℕ → Bool
seen_lately none now = false
seen_lately (some seen) now = leb (now - seen) unknown_eligibility_ttl_ms

abbrev live_at : Option ℕ → Option ℕ → ℕ → Bool
live_at (some eligible) seen now = ltb now eligible
live_at none seen now = seen_lately seen now

abbrev pub is_live : ℕ → HeldPackageEntry → Bool
is_live now entry = live_at (time_of entry.eligible_at) entry.last_seen_at.time now

unfoldable pub prune : List HeldPackageEntry → ℕ → List HeldPackageEntry
prune entries now = keep (is_live now) entries

abbrev first_seen : Option HeldPackageEntry → DateText → DateText
first_seen none now = now
first_seen (some previous) now = previous.first_seen_at

-- `before a b`: a.localeCompare(b) < 0. The sort is stable, the latest entry first.
pub insert :
    (String → String → Bool) → HeldPackageEntry → List HeldPackageEntry → List HeldPackageEntry
insert before entry [] = entry ∷ []
insert before entry (e ∷ entries) =
    let rest = insert before entry entries in
    if before entry.last_seen_at.iso e.last_seen_at.iso then e ∷ rest else entry ∷ e ∷ entries

pub sort : (String → String → Bool) → List HeldPackageEntry → List HeldPackageEntry
unfolding insert
sort before [] = []
sort before (entry ∷ entries) = insert before entry (sort before entries)

pub updated : NewHeldPackage → List HeldPackageEntry → DateText → HeldPackageEntry
updated entry existing now = record {
  ecosystem = entry.ecosystem;
  name = entry.name;
  version = entry.version;
  eligible_at = entry.eligible_at;
  details = entry.details;
  first_seen_at =
      first_seen
        (find (λ candidate. key_of candidate == held_key entry.ecosystem entry.name entry.version)
          existing)
        now;
  last_seen_at = now;
}

unfoldable pub others : NewHeldPackage → List HeldPackageEntry → List HeldPackageEntry
others entry =
    keep (λ candidate. not (key_of candidate == held_key entry.ecosystem entry.name entry.version))

-- The entries of the file that is written, from those of the file that is read.
unfoldable pub record_held_package :
    (String → String → Bool)
    → NewHeldPackage
    → List HeldPackageEntry
    → ℕ
    → DateText
    → List HeldPackageEntry
unfolding prune sort updated others held_key
record_held_package before entry document now now_text =
    let existing = prune document now in
    take held_packages_cap
      (sort before (others entry existing ++ updated entry existing now_text ∷ []))

unfoldable pub read_held_packages : List HeldPackageEntry → ℕ → List HeldPackageEntry
unfolding prune
read_held_packages document now = prune document now

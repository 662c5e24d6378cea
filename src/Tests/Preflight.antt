-- ===== src/Tests/Preflight.antt =====
-- Packages that the user is asked about, and the theorems of Launcher.InstallPreflight at them.
use dg_cli.Common.{
  put, ℕ, List, All, length, ◌≡◌, refl, String, true, false, none, some, [], ◌∷◌, map,
}
use dg_cli.Decisions.Match.{block, warn}
use dg_cli.Launcher.InstallPreflight.{
  VerdictPackage, stop, entry_of, asked_entries, decide_from_verdicts,
}
use dg_cli.Launcher.InstallPreflight.Asked.{Means, decide_from_verdicts-Means}
use dg_cli.Launcher.InstallPreflight.Session.{
  Question, is_repeated, decide_question, session, flagged_entries, asked_by,
  decide_from_verdicts-once,
}

abbrev lower : String → String
lower s = s

abbrev evil : VerdictPackage
evil = record {
  result = record { name = "evil"; version = "6.6.6"; action = some block; findings = [] };
  reasons = "malware" ∷ [];
  cooldown = none;
  artifact_sha256 = none;
}

abbrev odd : VerdictPackage
odd = record evil {
  result = record { name = "odd"; version = "1.0.0"; action = some warn; findings = [] };
}

declined : (decide_from_verdicts lower 5 (evil ∷ odd ∷ []) true false none none []).0 ≡ stop
unfolding decide_from_verdicts
declined = refl

decide_from_verdicts-Means_example :
    Means
      ((decide_from_verdicts lower 5 (evil ∷ odd ∷ []) true true none none []).0)
      true
      []
      (map (entry_of lower 5 none none) (evil ∷ odd ∷ []))
decide_from_verdicts-Means_example =
    decide_from_verdicts-Means lower 5 (evil ∷ odd ∷ []) true none none []

-- The user accepts both packages.
abbrev first : Question
first = record {
  packages = evil ∷ odd ∷ [];
  is_tty = true;
  accepted = true;
  context = none;
  decisions = none;
  now = 5;
}

-- Later one of them has become a block, and the other is unchanged.
abbrev last : Question
last = record first {
  packages =
      evil
      ∷ record odd {
        result = record { name = "odd"; version = "1.0.0"; action = some block; findings = [] };
      }
      ∷ [];
  now = 9;
}

abbrev approved : List (String × ℕ)
approved =
    session lower (record first { accepted = false } ∷ []) ((decide_question lower first []).1)

asked_again : length (asked_by lower last approved) ≡ 1
unfolding decide_from_verdicts session asked_entries put
asked_again = refl

decide_from_verdicts-once_example :
    All
      (λ e. All (λ again. is_repeated e again ≡ false) (asked_by lower last approved))
      (flagged_entries lower first)
unfolding decide_from_verdicts
decide_from_verdicts-once_example =
    decide_from_verdicts-once lower first (record first { accepted = false } ∷ []) last [] refl refl

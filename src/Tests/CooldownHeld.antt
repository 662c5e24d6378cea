-- ===== src/Tests/CooldownHeld.antt =====
-- src/state/cooldown-held.ts on concrete entries.
use dg_cli.Common.{◌≤◌, Bool, false, none, some, String, List, [], ◌∷◌, length, All}
use dg_cli.State.CooldownHeld.{DateText, HeldPackageEntry, NewHeldPackage, record_held_package}
use dg_cli.State.CooldownHeld.Kept.{Kept, record_held_package-Kept}

abbrev monday : DateText
monday = record { iso = "2026-06-01"; time = some 1780272000000 }

abbrev tuesday : DateText
tuesday = record { iso = "2026-06-02"; time = some 1780358400000 }

abbrev lodash : NewHeldPackage
lodash = record {
  ecosystem = "npm";
  name = "lodash";
  version = "5.0.0";
  eligible_at = some tuesday;
  details = record {
    required_days = "1";
    age_days = some "0.5";
    published_at = none;
    manager = some "npm";
  };
}

abbrev document : List HeldPackageEntry
document =
    record {
      ecosystem = "npm";
      name = "left-pad";
      version = "2.0.0";
      eligible_at = none;
      details = lodash.details;
      first_seen_at = monday;
      last_seen_at = monday;
    }
    ∷ []

abbrev before : String → String → Bool
before a b = false

record_held_package-Kept_example :
    (length (record_held_package before lodash document 1780272000001 monday) ≤ 500)
    × All
        (Kept lodash document 1780272000001 monday)
        (record_held_package before lodash document 1780272000001 monday)
record_held_package-Kept_example =
    record_held_package-Kept before lodash document 1780272000001 monday

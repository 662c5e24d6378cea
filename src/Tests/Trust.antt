-- ===== src/Tests/Trust.antt =====
-- A dg.json with exemptions and decisions, and the theorems of Project.OverrideTrust and
-- Policy.Cooldown at it.
use dg_cli.Common.{
  ◌+◌, ◌≤◌, ◌≡◌, refl, String, true, Option, none, some, get_or, [], ◌∷◌, length, keep, All,
  template, trim, put, subst,
}
use dg_cli.Common.Result.{err}
use dg_cli.Common.Json.{text, end, field}
use dg_cli.Project.DgFile.{ExemptionEcosystem, never, at, CooldownExemption, DgFile}
use dg_cli.Project.DgFile.Exemptions.{
  NewCooldownExemption, append_cooldown_exemptions, cooldown_exemption_cap,
}
use dg_cli.Project.OverrideTrust.{
  exemption_identity, read_secret, tag_matches, range_error, HonoredOverrides,
  stamp_authored_entries, honored_overrides,
}
use dg_cli.Project.OverrideTrust.Authored.{
  is_authored_exemption, is_authored_decision, honored_overrides-authored,
}
use dg_cli.Project.OverrideTrust.Stamped.{IsReadBack, IsStamped, stamp_authored_entries-counts}
use dg_cli.Policy.PypiName.{canonical_cooldown_name}
use dg_cli.Policy.PypiName.Stable.{canonical_idem}
use dg_cli.Policy.Cooldown.{is_cooldown_exempt_by_dg_file}
use dg_cli.Policy.Cooldown.Package.{IsCanonical, last_for}
use dg_cli.Policy.Cooldown.Refines.{append_cooldown_exemptions-refines}

-- A tag by a function that a test can compute.
abbrev hmac : String → String → String
hmac key message = template (key ∷ message ∷ [])

abbrev real_path : String → Option String
real_path path = some path

abbrev secret : String
secret = "0123456789abcdef0123456789abcdef"

abbrev shipped : CooldownExemption
shipped = record {
  ecosystem = ExemptionEcosystem.npm;
  name = "left-pad";
  reason = "";
  accepted_by = "them";
  accepted_at = "";
  expires_at = never;
  extra = some (field "dgLocalAuth" (text "forged") end);
}

abbrev prior : DgFile
prior = record {
  path = "dg.json";
  exists = true;
  readable = true;
  failure = none;
  raw = end;
  decisions = [];
  cooldown_exemptions = shipped ∷ [];
  script_approvals = record { npm = []; observed = []; unknown_keys = end };
}

abbrev own_exemption : CooldownExemption
own_exemption = record shipped {
  ecosystem = ExemptionEcosystem.pypi;
  name = "requests";
  extra = none;
}

abbrev next : DgFile
next = record prior { cooldown_exemptions = shipped ∷ own_exemption ∷ [] }

abbrev stamped : DgFile × Option String
stamped = stamp_authored_entries hmac real_path next prior "/repo" none (some secret)

read_back : IsReadBack (some secret)
unfolding read_secret trim
read_back s h =
    let same : secret ≡ s = cc in
    subst (λ t. read_secret (some (template (t ∷ "\n" ∷ []))) ≡ some t) same refl

stamp_authored_entries-counts_example : IsStamped hmac real_path prior stamped secret "/repo"
unfolding stamp_authored_entries read_secret trim
stamp_authored_entries-counts_example =
    stamp_authored_entries-counts hmac real_path next prior "/repo" none (some secret) secret
      read_back refl

abbrev honored : HonoredOverrides
honored = record { exemptions = []; decisions = []; dropped_exemptions = 1; dropped_decisions = 0 }

honored_overrides-authored_example :
    (honored.exemptions
      ≡ keep
          (is_authored_exemption hmac real_path (read_secret (some secret)) "/repo")
          prior.cooldown_exemptions)
    × (honored.decisions
        ≡ keep
            (is_authored_decision hmac real_path (read_secret (some secret)) "/repo")
            prior.decisions)
    × (honored.dropped_exemptions + length honored.exemptions ≡ length prior.cooldown_exemptions)
    × (honored.dropped_decisions + length honored.decisions ≡ length prior.decisions)
unfolding honored_overrides trim exemption_identity
honored_overrides-authored_example =
    honored_overrides-authored hmac real_path prior "/repo" (some secret) honored refl

-- A tag of as many characters, but more bytes, makes the comparison throw.
thrown : tag_matches "ab" (some (text "é!")) ≡ err range_error
unfolding tag_matches
thrown = refl

abbrev lower : String → String
lower s = s

abbrev addition : NewCooldownExemption
addition = record {
  ecosystem = ExemptionEcosystem.pypi;
  name = "my_pkg";
  reason = "needed";
  accepted_by = "me";
  accepted_at = none;
  expires_at = at "2030" 100;
}

abbrev appended : DgFile
appended = record prior {
  cooldown_exemptions =
      shipped
      ∷ record {
        ecosystem = ExemptionEcosystem.pypi;
        name = "my-pkg";
        reason = "needed";
        accepted_by = "me";
        accepted_at = "now";
        expires_at = at "2030" 100;
        extra = none;
      }
      ∷ [];
}

append_cooldown_exemptions-refines_example :
    (is_cooldown_exempt_by_dg_file lower "my.pkg" ExemptionEcosystem.pypi
        appended.cooldown_exemptions 5
      ≡ get_or
          (last_for lower ExemptionEcosystem.pypi
            (canonical_cooldown_name lower ExemptionEcosystem.pypi "my.pkg")
            5
            (addition ∷ []))
          (is_cooldown_exempt_by_dg_file lower "my.pkg" ExemptionEcosystem.pypi
            prior.cooldown_exemptions 5))
    × (length appended.cooldown_exemptions ≤ cooldown_exemption_cap)
    × All (IsCanonical lower) appended.cooldown_exemptions
unfolding append_cooldown_exemptions canonical_cooldown_name put
append_cooldown_exemptions-refines_example =
    append_cooldown_exemptions-refines lower prior appended (addition ∷ []) 5 "now"
      ExemptionEcosystem.pypi "my.pkg" (canonical_idem lower (λ s. refl) (λ s. refl)) (refl, tt)
      refl

-- ===== src/Tests/DgFile.antt =====
-- A dg.json that is loaded and an exemption that is written, and the theorems of Project.DgFile at them.
use dg_cli.Common.{ℕ, ◌≡◌, refl, String, Option, none, some, length, [], ◌∷◌}
use dg_cli.Common.Result.{ok}
use dg_cli.Common.Json.{Json, number, text, array, object, nil, item, Fields, end, field}
use dg_cli.Project.DgFile.{
  DecisionEcosystem, exact, never, DecisionEntry, ExemptionEcosystem, at, CooldownExemption,
}
use dg_cli.Project.DgFile.Load.{
  parse_cooldown_exemption, parse_decision_entry, load_dg_file, load_json, parse_all,
}
use dg_cli.Project.DgFile.Parse.{parse_entry_map, unknown_keys_of, parse_scope, parse_findings}
use dg_cli.Project.DgFile.Load.Bounded.{IsBounded, load_dg_file-IsBounded}
use dg_cli.Project.DgFile.Save.{
  serialize_cooldown_exemption, serialize_decision_entry, serialize_all,
}
use dg_cli.Project.DgFile.Save.Decisions.{IsRead, parse_all-serialize}
use dg_cli.Decisions.Fingerprint.{a_number}
use dg_cli.Project.DgFile.Save.RoundTrip.{IsProper, parse_cooldown_exemption-serialize}
use dg_cli.Project.DgFile.Exemptions.{slice}
use dg_cli.Policy.PypiName.{canonical_cooldown_name}
use dg_cli.Policy.PypiName.Stable.{canonical_idem}

-- Functions of the environment that a test can compute.
abbrev lower : String → String
lower s = s

abbrev date : String → Option ℕ
date s = some 100

abbrev derived_id : Fields → String
derived_id fields = "derived"

abbrev show : Json → String
show value = "a value"

abbrev stored : Fields
stored = field "version" (number 1) (
    field "decisions"
      (array (
        item
          (object (
            field "ecosystem" (text "npm") (
              field "name" (text "left-pad")
                (field "scope" (object (field "kind" (text "any") end)) end))))
          (item (text "no entry") nil)))
      (field "cooldownExemptions"
        (array (
          item (object (field "ecosystem" (text "pypi") (field "name" (text "My_Pkg") end)))
            (item (object (field "ecosystem" (text "npm") (field "name" (text "*") end))) nil)))
        end))

-- Of two decisions and two exemptions one each is kept.
loaded_counts :
    length (load_dg_file lower date derived_id show "dg.json" (some (ok (object stored)))).decisions
    ≡ 1
unfolding load_dg_file load_json parse_all parse_decision_entry parse_entry_map unknown_keys_of
    parse_scope parse_findings
loaded_counts = refl

load_dg_file-IsBounded_example :
    IsBounded lower (load_dg_file lower date derived_id show "dg.json" (some (ok (object stored))))
load_dg_file-IsBounded_example =
    load_dg_file-IsBounded lower date derived_id show (canonical_idem lower (λ s. refl) (λ s. refl))
      "dg.json" (some (ok (object stored)))

abbrev exemption : CooldownExemption
exemption = record {
  ecosystem = ExemptionEcosystem.pypi;
  name = "my-pkg";
  reason = "needed";
  accepted_by = "me";
  accepted_at = "now";
  expires_at = at "2030" 100;
  extra = some (field "ticket" (text "42") end);
}

exemption-IsProper : IsProper lower date exemption
unfolding canonical_cooldown_name unknown_keys_of slice
exemption-IsProper = record {
  accepted = refl;
  named = refl;
  short = refl;
  authored = refl;
  expiry = (refl, refl);
  unknown = refl;
}

parse_cooldown_exemption-serialize_example :
    parse_cooldown_exemption lower date derived_id show (serialize_cooldown_exemption exemption)
    ≡ some exemption
parse_cooldown_exemption-serialize_example =
    parse_cooldown_exemption-serialize lower date derived_id show exemption exemption-IsProper

abbrev decision : DecisionEntry
decision = record {
  id = "d1";
  ecosystem = DecisionEcosystem.npm;
  name = "left-pad";
  scope = exact "1.3.0";
  findings = ("network", a_number 2) ∷ [];
  reason = "needed";
  accepted_by = "me";
  accepted_at = "now";
  expires_at = never;
  extra = none;
}

decision-IsRead : IsRead lower date decision
unfolding unknown_keys_of slice
decision-IsRead = record {
  identified = refl;
  named = refl;
  scoped = refl;
  found = (refl, refl, tt);
  short = refl;
  authored = refl;
  expiry = tt;
  unknown = refl;
}

parse_all-serialize_example :
    parse_all
      (parse_decision_entry lower date derived_id show)
      (serialize_all serialize_decision_entry (decision ∷ []))
    ≡ decision ∷ []
parse_all-serialize_example =
    parse_all-serialize lower date derived_id show (decision ∷ []) (decision-IsRead, tt)

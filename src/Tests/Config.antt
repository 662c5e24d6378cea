-- ===== src/Tests/Config.antt =====
-- src/config/settings.ts on concrete values.
use dg_cli.Common.{◌≡◌, arith, refl, Option, none, some, String, ◌==◌, string_Eq, if◌then◌else◌}
use dg_cli.Common.Result.{ok, err}
use dg_cli.Config.{DgUserConfig, ConfigKey, default_config, strict}
use dg_cli.Config.Parse.{Url, parse_policy_mode, parse_cooldown_exempt}
use dg_cli.Config.Values.{get_config_value, set_config_value}
use dg_cli.Config.Values.Frame.{set_config_value-frame}

abbrev new_url : String → Option Url
new_url s =
    if s == "https://api.westbayberry.com"
    then some (record {
      protocol = "https:";
      hostname = "api.westbayberry.com";
      href = "https://api.westbayberry.com/";
    })
    else none

exempt : parse_cooldown_exempt " lodash, @org/* ,," ≡ ok "lodash,@org/*"
unfolding parse_cooldown_exempt
exempt = refl

not_exempt :
    parse_cooldown_exempt "a b"
    ≡ err
        "cooldown.exempt entry 'a b' is not a valid package name or pattern (use names or globs like @org/*)"
unfolding parse_cooldown_exempt
not_exempt = refl

abbrev strict_config : DgUserConfig
strict_config = record default_config { policy = record (default_config.policy) { mode = strict } }

set_config_value-frame_example :
    get_config_value strict_config ConfigKey.cooldown_age
    ≡ get_config_value default_config ConfigKey.cooldown_age
unfolding set_config_value parse_policy_mode
set_config_value-frame_example =
    set_config_value-frame new_url default_config strict_config ConfigKey.policy_mode "strict"
      ConfigKey.cooldown_age (λ e. ground arith) refl

-- ===== src/Scripts/Gate/Flags.antt =====
-- What a package manager is started with when the script gate is enforced, src/scripts/gate.ts.
use dg_cli.Common.{
  ◌≡◌, refl, String, Bool, true, false, not, ◌&&◌, ◌||◌, ◌⊎◌, Option, List, [], ◌∷◌, ◌++◌, any,
  ◌==◌, string_Eq, starts_with, truthy, if◌then◌else◌, arith,
}
use dg_cli.Config.{ScriptGateMode, enforce}

abbrev pub is_enforce : ScriptGateMode → Bool
is_enforce enforce = true
is_enforce _ = false

abbrev pub is_script_flag : String → Bool
is_script_flag arg = arg == "--ignore-scripts" || starts_with arg "--ignore-scripts="

-- The variable npm_config_ignore_scripts of the environment, beside the arguments.
unfoldable pub has_explicit_script_preference : List String → Option String → Bool
has_explicit_script_preference args npm_config_ignore_scripts =
    any is_script_flag args || truthy npm_config_ignore_scripts

unfoldable pub script_gate_install_args :
    ScriptGateMode → String → List String → Option String → List String
script_gate_install_args mode manager args env =
    if not (is_enforce mode)
    then args
    else if not (manager == "npm") && not (manager == "yarn")
    then args
    else if has_explicit_script_preference args env
    then args
    else args ++ "--ignore-scripts" ∷ []

unfoldable pub script_gate_child_env :
    ScriptGateMode → String → List String → Option String → List (String × String)
script_gate_child_env mode manager args env =
    if not (is_enforce mode) || (not (manager == "npm") && not (manager == "yarn"))
    then []
    else if has_explicit_script_preference args env
    then []
    else ("npm_config_ignore_scripts", "true") ∷ []

any-flag : (args : List String) → any is_script_flag (args ++ "--ignore-scripts" ∷ []) ≡ true
any-flag [] = refl
any-flag (arg ∷ args) = ground (arith, any-flag args)

preference-flag :
    (args : List String) (env : Option String)
    → has_explicit_script_preference (args ++ "--ignore-scripts" ∷ []) env ≡ true
unfolding has_explicit_script_preference
preference-flag args env = rw (any-flag args) refl

-- The variable of the child's environment is set exactly when the flag is added to its arguments.
pub install_args-child_env :
    (mode : ScriptGateMode) (manager : String) (args : List String) (env : Option String)
    → ((script_gate_install_args mode manager args env ≡ args)
        × (script_gate_child_env mode manager args env ≡ []))
      ⊎ ((script_gate_install_args mode manager args env ≡ args ++ "--ignore-scripts" ∷ [])
          × (script_gate_child_env mode manager args env
              ≡ ("npm_config_ignore_scripts", "true") ∷ []))
unfolding script_gate_install_args script_gate_child_env
install_args-child_env mode manager args env = ground arith

-- A flag that is there is not added again: the gate's arguments are a fixed point.
pub install_args_idem :
    (mode : ScriptGateMode) (manager : String) (args : List String) (env : Option String)
    → script_gate_install_args mode manager (script_gate_install_args mode manager args env) env
      ≡ script_gate_install_args mode manager args env
unfolding script_gate_install_args
install_args_idem mode manager args env = ground (arith, preference-flag args env)

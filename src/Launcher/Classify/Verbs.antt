-- ===== src/Launcher/Classify/Verbs.antt =====
-- The tables of src/launcher/classify.ts, and the search for the subcommand of an invocation.
use dg_cli.Common.{
  suc, String, Bool, false, not, ◌&&◌, ◌||◌, Option, none, some, List, [], ◌∷◌, ◌==◌, string_Eq,
  has, any, find, find_index, drop, starts_with, get_or, if◌then◌else◌,
}

abbrev pub js_protected : List String
js_protected = "install" ∷ "i" ∷ "ci" ∷ "add" ∷ "update" ∷ "dedupe" ∷ "exec" ∷ "create" ∷ []

abbrev pub pnpm_protected : List String
pnpm_protected = "install" ∷ "i" ∷ "add" ∷ "update" ∷ "dlx" ∷ "exec" ∷ "create" ∷ []

abbrev pub yarn_protected : List String
yarn_protected = "add" ∷ "install" ∷ "upgrade" ∷ "dlx" ∷ "create" ∷ []

abbrev pub pip_protected : List String
pip_protected = "install" ∷ "download" ∷ "wheel" ∷ []

abbrev pub pipx_protected : List String
pipx_protected = "install" ∷ "upgrade" ∷ "inject" ∷ "run" ∷ []

abbrev pub uv_protected : List String
uv_protected = "add" ∷ "sync" ∷ []

abbrev pub cargo_protected : List String
cargo_protected = "add" ∷ "install" ∷ "fetch" ∷ "update" ∷ []

abbrev pub passthrough_commands : List String
passthrough_commands =
    "help" ∷ "--help" ∷ "-h" ∷ "version" ∷ "--version" ∷ "-v" ∷ "list" ∷ "ls" ∷ "show" ∷ "freeze"
    ∷ []

unfoldable pub read_only_verbs : List String
read_only_verbs =
    "run" ∷ "run-script" ∷ "start" ∷ "stop" ∷ "restart" ∷ "test" ∷ "build" ∷ "watch" ∷ "serve"
    ∷ "lint" ∷ "format" ∷ "ls" ∷ "list" ∷ "ll" ∷ "la" ∷ "view" ∷ "show" ∷ "info" ∷ "outdated"
    ∷ "why" ∷ "fund" ∷ "audit" ∷ "doctor" ∷ "ping" ∷ "config" ∷ "get" ∷ "cache" ∷ "whoami" ∷ "org"
    ∷ "team" ∷ "access" ∷ "token" ∷ "profile" ∷ "search" ∷ "dist-tag" ∷ "docs" ∷ "repo" ∷ "home"
    ∷ "bin" ∷ "root" ∷ "prefix" ∷ "completion" ∷ "help" ∷ "version" ∷ "explain" ∷ "star" ∷ "unstar"
    ∷ "deprecate" ∷ "sbom" ∷ "query" ∷ "explore" ∷ "pack" ∷ "publish" ∷ "link" ∷ "unlink" ∷ "prune"
    ∷ "rebuild" ∷ "logout" ∷ "login" ∷ "adduser" ∷ "owner" ∷ "set" ∷ "init" ∷ "licenses" ∷ "freeze"
    ∷ "check" ∷ "uninstall" ∷ "debug" ∷ "hash" ∷ "inspect" ∷ "index" ∷ "tree" ∷ "lock" ∷ "venv"
    ∷ "export" ∷ "python" ∷ "self" ∷ []

abbrev pub is_flag : String → Bool
is_flag arg = starts_with arg "-"

abbrev pub is_verb : List String → String → Bool
is_verb protected_commands arg = has protected_commands arg || has read_only_verbs arg

-- The loop of `findAction`; `first` is `firstPositional`.
unfoldable pub find_action_from : Option String → List String → List String → String
find_action_from first [] protected_commands = get_or first ""
find_action_from first (arg ∷ args) protected_commands =
    let skipped = find_action_from first args protected_commands in
    let later = find_action_from (some (get_or first arg)) args protected_commands in
    if is_flag arg then skipped else if is_verb protected_commands arg then arg else later

unfoldable pub find_action : List String → List String → String
unfolding find_action_from
find_action args protected_commands = find_action_from none args protected_commands

unfoldable pub first_command : List String → String
first_command args = get_or (find (λ arg. not (is_flag arg)) args) ""

-- args.slice(commandIndex + 1), where the index is -1 if every argument is a flag
after_command : List String → List String
after_command args = elim (find_index (λ arg. not (is_flag arg)) args) [
  | none ↦ args
  | some i ↦ drop (suc i) args
]

unfoldable pub init_fetches_package : String → List String → List String → Bool
unfolding after_command
init_fetches_package action args protected_commands =
    if not (action == "init") || not (has protected_commands "create")
    then false
    else any (λ arg. not (arg == "--") && not (is_flag arg)) (after_command args)

unfoldable pub uv_run_fetches_package : List String → Bool
uv_run_fetches_package = any (λ a.
    a == "--with"
    || a == "--with-editable"
    || a == "--with-requirements"
    || starts_with a "--with=")

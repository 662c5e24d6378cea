-- ===== src/Launcher/Classify/Protection.antt =====
-- Which invocations src/launcher/classify.ts protects: an install verb is found behind global flags
-- and their values, and a read-only verb in front of it stops the search.
use dg_cli.Common.{
  String, ◌≡◌, ◌≢◌, ◌⊎◌, inl, inr, refl, Bool, true, false, not, ◌&&◌, Option, none, some, List, [],
  ◌∷◌, ◌++◌, arith, All, has, Bool-cases, subst, sym, get_elem_or, ◌==◌, string_Eq, str_eq_iff,
  if◌then◌else◌,
}
use dg_cli.Common.Result.{ok}
use dg_cli.Launcher.Classify.{
  PackageManagerClassification, Ecosystem, ClassificationKind, javascript, python, rust, protected,
  passthrough, js_protected, pnpm_protected, yarn_protected, pip_protected, pipx_protected,
  cargo_protected, uv_protected, classify_uv, uv_run_fetches_package, is_flag, is_verb,
  read_only_verbs, read_only_flag, find_action, find_action_from, first_command,
  init_fetches_package, classify_by_command, classify_supported, protected_classification,
  classify_package_manager_invocation,
}

-- What stands before a verb that is searched for: flags, and words that no table knows, such as a
-- flag's value.
abbrev pub IsSkipped : List String → String → Type 0
IsSkipped protected_commands arg = (is_flag arg ≡ true) ⊎ (is_verb protected_commands arg ≡ false)

find_action_from-skipped :
    (first : Option String) (pre : List String) (v : String) (post cmds : List String)
    → All (IsSkipped cmds) pre
    → is_flag v ≡ false
    → is_verb cmds v ≡ true
    → find_action_from first (pre ++ v ∷ post) cmds ≡ v
unfolding find_action_from
find_action_from-skipped first [] v post cmds h n k = rw (n, k)
find_action_from-skipped first (a ∷ pre) v post cmds (s, h) n k = ground (
  arith,
  find_action_from-skipped first pre v post cmds h n k,
  find_action_from-skipped (some (dg_cli.Common.get_or first a)) pre v post cmds h n k,
)

not_init :
    (v : String) (args cmds : List String) → v ≢ "init" → init_fetches_package v args cmds ≡ false
unfolding init_fetches_package
not_init v args cmds h = ground (arith, str_eq_iff v "init")

-- The managers whose verb is searched for among the words of the command line.
abbrev pub table_of : String → Option (List String)
table_of manager =
    if manager == "npm"
    then some js_protected
    else if manager == "pnpm"
    then some pnpm_protected
    else if manager == "yarn"
    then some yarn_protected
    else if manager == "pip"
    then some pip_protected
    else if manager == "pipx"
    then some pipx_protected
    else if manager == "cargo"
    then some cargo_protected
    else none

-- What a table says of the kind of a classification: `listed` is whether the verb is in the table,
-- `first` the first word that is no flag, `init` whether an initializer is fetched.
abbrev KindFollows : String → Bool → Bool → ClassificationKind → Type 0
KindFollows first listed init kind =
    (listed ≡ true → kind ≡ protected)
    × (first ≢ "" → listed ≡ false → init ≡ false → kind ≡ passthrough)

record Follows (cmds args : List String) (c : PackageManagerClassification) : Type 0 where
  kind_follows :
      KindFollows
        (first_command args)
        (has cmds (find_action args cmds))
        (init_fetches_package (find_action args cmds) args cmds)
        c.kind

classify_by_command-Follows :
    (m : String) (args : List String) (b : String) (cmds : List String) (r : String) (e : Ecosystem)
    → Follows cmds args (classify_by_command m args b cmds r e)
unfolding classify_by_command
classify_by_command-Follows m args b cmds r e = record { kind_follows = ground arith }

-- A bare `yarn` installs, so it is protected with no verb at all.
bare-KindFollows :
    (first : String) (read_only listed init : Bool) (c d : PackageManagerClassification)
    → c.kind ≡ protected
    → KindFollows first listed init d.kind
    → KindFollows first listed init (if first == "" && not read_only then c else d).kind
bare-KindFollows first read_only listed init c d h k = ground (arith, str_eq_iff first "")

record Classified (cmds : List String) (m : String) (args : List String) : Type 0 where
  classification : PackageManagerClassification
  answers : classify_package_manager_invocation m args ≡ ok classification
  follows : Follows cmds args classification

by_command :
    (m : String) (args : List String) (b : String) (cmds : List String) (r : String) (e : Ecosystem)
    → classify_package_manager_invocation m args ≡ ok (classify_by_command m args b cmds r e)
    → Classified cmds m args
by_command m args b cmds r e h = record {
  classification = classify_by_command m args b cmds r e;
  answers = h;
  follows = classify_by_command-Follows m args b cmds r e;
}

by_yarn : (args : List String) → Classified yarn_protected "yarn" args
unfolding classify_package_manager_invocation
by_yarn args = record {
  classification = classify_supported "yarn" args;
  answers = refl;
  follows = record {
    kind_follows =
        bare-KindFollows (first_command args) (read_only_flag args) _ _
          (protected_classification "yarn" args "yarn"
            "bare yarn installs all lockfile dependencies")
          (classify_by_command "yarn" args "yarn" yarn_protected
            "Yarn classic install/fetch command" javascript)
          refl
          (classify_by_command-Follows "yarn" args "yarn" yarn_protected
            "Yarn classic install/fetch command" javascript).kind_follows;
  };
}

abbrev Rows : String → List String → Type 0
Rows m cmds =
    ((m ≡ "npm") × (js_protected ≡ cmds))
    ⊎ ((m ≡ "pnpm") × (pnpm_protected ≡ cmds))
    ⊎ ((m ≡ "yarn") × (yarn_protected ≡ cmds))
    ⊎ ((m ≡ "pip") × (pip_protected ≡ cmds))
    ⊎ ((m ≡ "pipx") × (pipx_protected ≡ cmds))
    ⊎ ((m ≡ "cargo") × (cargo_protected ≡ cmds))

table_of-Rows : (m : String) (cmds : List String) → table_of m ≡ some cmds → Rows m cmds
table_of-Rows m cmds h = ground (
  arith,
  str_eq_iff m "npm",
  str_eq_iff m "pnpm",
  str_eq_iff m "yarn",
  str_eq_iff m "pip",
  str_eq_iff m "pipx",
  str_eq_iff m "cargo",
)

classified :
    (m : String) (cmds args : List String) → table_of m ≡ some cmds → Classified cmds m args
unfolding classify_package_manager_invocation
classified m cmds args h = elim (table_of-Rows m cmds h) [
  | inl (e, t) ↦
      rw (e, ← t)
        (by_command "npm" args "npm" js_protected "npm install/fetch command" javascript refl)
  | inr (inl (e, t)) ↦
      rw (e, ← t)
        (by_command "pnpm" args "pnpm" pnpm_protected "pnpm install/fetch command" javascript refl)
  | inr (inr (inl (e, t))) ↦ rw (e, ← t) (by_yarn args)
  | inr (inr (inr (inl (e, t)))) ↦
      rw (e, ← t)
        (by_command "pip" args "pip" pip_protected "pip install/fetch command" python refl)
  | inr (inr (inr (inr (inl (e, t))))) ↦
      rw (e, ← t)
        (by_command "pipx" args "pipx" pipx_protected "pipx install/fetch command" python refl)
  | inr (inr (inr (inr (inr (e, t))))) ↦
      rw (e, ← t)
        (by_command "cargo" args "cargo" cargo_protected "Cargo command can fetch crates" rust refl)
]

-- The install verbs of a manager. uv's verb is its first word that is no flag.
abbrev pub install_verbs_of : String → Option (List String)
install_verbs_of manager = if manager == "uv" then some uv_protected else table_of manager

-- What may stand before the verb: flags and, for a manager other than uv, words that no table knows.
abbrev pub IsBefore : String → List String → String → Type 0
IsBefore manager cmds arg =
    (is_flag arg ≡ true) ⊎ (((manager == "uv") ≡ false) × (is_verb cmds arg ≡ false))

first_command-flags :
    (m v : String) (pre post cmds : List String)
    → (m == "uv") ≡ true
    → All (IsBefore m cmds) pre
    → is_flag v ≡ false
    → first_command (pre ++ v ∷ post) ≡ v
unfolding first_command
first_command-flags m v [] post cmds u h n = rw n refl
first_command-flags m v (a ∷ pre) post cmds u (inl e, hs) n =
    rw e (first_command-flags m v pre post cmds u hs n)
first_command-flags m v (a ∷ pre) post cmds u (inr (e, k), hs) n = absurd (ground arith)

searched-IsSkipped :
    (m : String) (cmds pre : List String) → All (IsBefore m cmds) pre → All (IsSkipped cmds) pre
searched-IsSkipped m cmds [] h = tt
searched-IsSkipped m cmds (a ∷ pre) (inl e, hs) = (inl e, searched-IsSkipped m cmds pre hs)
searched-IsSkipped m cmds (a ∷ pre) (inr (u, e), hs) = (inr e, searched-IsSkipped m cmds pre hs)

searched_verb_protects :
    (m : String) (cmds pre : List String) (v : String) (post : List String)
    → table_of m ≡ some cmds
    → All (IsSkipped cmds) pre
    → is_flag v ≡ false
    → has cmds v ≡ true
    → (c : PackageManagerClassification) × (classify_package_manager_invocation m (pre ++ v ∷ post)
        ≡ ok c)
      × (c.kind ≡ protected)
unfolding find_action
searched_verb_protects m cmds pre v post t h n k =
    let c = classified m cmds (pre ++ v ∷ post) t in
    let e = find_action_from-skipped none pre v post cmds h n (ground arith) in
    (c.classification, c.answers, c.follows.kind_follows.0 (rw e k))

uv-kind :
    (args : List String)
    → has uv_protected (first_command args) ≡ true
    → (classify_uv args).kind ≡ protected
unfolding classify_package_manager_invocation
uv-kind args h =
    let second = get_elem_or args 1 "" in
    elim (Bool-cases (first_command args == "pip" && has pip_protected second)) [
      | inl pip ↦ (rw pip refl)
      | inr no_pip ↦
          elim (Bool-cases
            (first_command args == "tool" && has ("run" ∷ "install" ∷ "upgrade" ∷ []) second)) [
              | inl tool ↦ (rw (no_pip, tool) refl)
              | inr no_tool ↦
                  elim (Bool-cases (first_command args == "run" && uv_run_fetches_package args)) [
                    | inl runs ↦ (rw (no_pip, no_tool, runs) refl)
                    | inr no_run ↦ (rw (no_pip, no_tool, no_run, h) refl)
                  ]
            ]
    ]

uv_verb_protects :
    (args : List String)
    → has uv_protected (first_command args) ≡ true
    → (c : PackageManagerClassification) × (classify_package_manager_invocation "uv" args ≡ ok c)
      × (c.kind ≡ protected)
unfolding classify_package_manager_invocation
uv_verb_protects args h = (classify_uv args, refl, uv-kind args h)

-- An install verb of npm, pnpm, yarn, pip, pipx or cargo protects the invocation behind any flags and
-- any words that are neither an install verb nor a reading one, such as the value of a global flag; an
-- install verb of uv does behind flags only. Whatever follows it makes no difference.
pub install_verb_protects :
    (m : String) (cmds pre : List String) (v : String) (post : List String)
    → install_verbs_of m ≡ some cmds
    → All (IsBefore m cmds) pre
    → is_flag v ≡ false
    → has cmds v ≡ true
    → (c : PackageManagerClassification) × (classify_package_manager_invocation m (pre ++ v ∷ post)
        ≡ ok c)
      × (c.kind ≡ protected)
install_verb_protects m cmds pre v post t h n k = elim (Bool-cases (m == "uv")) [
  | inl u ↦
      let is_uv : m ≡ "uv" = (str_eq_iff m "uv").0 u in
      let table : uv_protected ≡ cmds = ground arith in
      let first = first_command-flags m v pre post cmds u h n in
      let listed : has uv_protected (first_command (pre ++ v ∷ post)) ≡ true =
        subst (λ vs. has vs (first_command (pre ++ v ∷ post)) ≡ true) (sym table)
          (subst (λ w. has cmds w ≡ true) (sym first) k) in
      subst
        (λ name.
          (c : PackageManagerClassification) × (classify_package_manager_invocation name
              (pre ++ v ∷ post)
            ≡ ok c)
          × (c.kind ≡ protected))
        (sym is_uv) (uv_verb_protects (pre ++ v ∷ post) listed)
  | inr u ↦
      searched_verb_protects m cmds pre v post (ground arith) (searched-IsSkipped m cmds pre h) n k
]

-- A verb that only reads, in front of any other verb, leaves the invocation alone, also where an
-- install verb follows as an argument; `init`, which may fetch an initializer, is excepted.
pub read_only_verb_passes :
    (m : String) (cmds pre : List String) (v : String) (post : List String)
    → table_of m ≡ some cmds
    → All (IsSkipped cmds) pre
    → is_flag v ≡ false
    → has read_only_verbs v ≡ true
    → has cmds v ≡ false
    → v ≢ "init"
    → first_command (pre ++ v ∷ post) ≢ ""
    → (c : PackageManagerClassification) × (classify_package_manager_invocation m (pre ++ v ∷ post)
        ≡ ok c)
      × (c.kind ≡ passthrough)
unfolding find_action
read_only_verb_passes m cmds pre v post t h n r k i f =
    let c = classified m cmds (pre ++ v ∷ post) t in
    let e = find_action_from-skipped none pre v post cmds h n (ground arith) in
    (
      c.classification,
      c.answers,
      c.follows.kind_follows.1 f (rw e k) (rw e (not_init v (pre ++ v ∷ post) cmds i)),
    )

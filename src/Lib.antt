-- ===== src/Lib.antt =====
-- dg is a firewall for package installations: it classifies a package manager's command line, runs the
-- command behind a local proxy, asks a scanner for a verdict on each artifact, and lets it through,
-- warns or blocks.
--
-- The parts, in the order in which an installation meets them:
--
-- src/launcher/classify.ts (Launcher.Classify) decides from the manager's name and the arguments
-- whether an invocation fetches packages. `classify_package_manager_invocation` is
-- `classifyPackageManagerInvocation`; the tables stand in Launcher.Classify.Verbs, and the gated
-- managers come from src/setup/optional-support.ts (Setup.OptionalSupport).
-- src/config/settings.ts (Config) has the user's configuration, its defaults and the reading and
-- writing of one key (Config.Values); `new URL` is a parameter there.
-- src/policy/evaluate.ts (Policy.Evaluate) turns a verdict into an action: `evaluate_package_policy`
-- is `evaluatePackagePolicy`, `apply_force_override` is `applyForceOverride`.
-- src/audit/events.ts (Audit.Events) is the log that the decisions are written to.
-- src/proxy/enforcement.ts (Proxy.Enforcement) joins these: `enforce_protected_install` is
-- `enforceProtectedInstall`, with the audit log, the notice flag and stderr as its state (`World`).
-- src/decisions/apply.ts (Decisions) takes the warnings away that a project has accepted in its
-- dg.json: `match_decision` is `matchDecision` and `apply_decisions` is `applyDecisions`.
-- src/project/dgfile.ts (Project.DgFile) is the content of that file: `load_dg_file` is `loadDgFile`
-- (Project.DgFile.Load, with the single entries in Project.DgFile.Parse), the entries are written and
-- the decisions changed in Project.DgFile.Save, and the cooldown exemptions are added and removed in
-- Project.DgFile.Exemptions. The hash that stands for a missing id and `String(value)` are parameters.
-- src/project/override-trust.ts (Project.OverrideTrust) decides which of its entries count:
-- `honored_overrides` is `honoredOverrides`, `stamp_authored_entries` is `stampAuthoredEntries`;
-- HMAC-SHA256 and `realpathSync` are parameters.
-- src/policy/cooldown.ts and src/policy/pypi-name.ts (Policy.Cooldown, Policy.PypiName) say how old a
-- release must be and which packages are exempt; days are counted in hours. Policy.Cooldown.Configured
-- joins them with the ages that Config stores.
-- src/api/analyze.ts (Api) is the client of the scanner: its errors (Api.Errors), the retries of a
-- batch (Api.Retry), the batches and the workers that send them (Api.Pool), the stream of events
-- (Api.Stream), the shape of an answer (Api.Response) and `analyzePackages` over all of these
-- (Api.Scan). The workers run between awaits, so that a schedule of worker numbers stands for an
-- interleaving (Api.Pool.Steps.run).
-- src/security/sanitize.ts (Security.Sanitize) takes control characters out of what the scanner sends.
-- src/launcher/install-preflight.ts (Launcher.InstallPreflight) asks about the packages that the
-- scanner warns of: `decide_from_verdicts` is `decideFromVerdicts`, with the session's approvals as
-- its state; Launcher.InstallPreflight.Session has several questions one after the other.
-- src/launcher/output-redaction.ts (Launcher.OutputRedaction) takes secrets out of the manager's
-- output before it is shown: its buffer and timer are a state and their events (`run`), and what a
-- regular expression replaces or finds is a parameter.
-- src/scripts/gate.ts (Scripts.Gate) lets the install scripts of a package run that were approved,
-- each by the hash of the scripts, and records in dg.json which packages want to run some.
-- src/proxy/buffer-budget.ts (Proxy.BufferBudget) limits what the proxy holds in memory; the events of
-- all streams are one sequence (`run`).
-- src/state/locks.ts (State.Locks) is what keeps two processes from one file: its calls of the file
-- system are the steps of a transition system (`step`), in which a process can crash.
-- src/state/cooldown-held.ts (State.CooldownHeld) lists the packages that are too new to be installed.
--
-- Conventions. An exception is the `err` of a Result (Common.Result). `undefined` is `none`. A text is
-- a native String; where the program walks the characters of one, the model walks code points, so that
-- texts with characters beyond the first plane are sorted by code point. An object that stands for a
-- map is a list of its own keys and values (Common.Objects), with the names on Object.prototype as
-- keys of each. What comes from the environment is an argument: whether a file can be written, the
-- current time, a loaded configuration, `new URL`, the comparison by locale, `toLowerCase`,
-- `JSON.parse`, the answers of the scanner. A date is its ISO text or the error that `toISOString`
-- throws, and where it is compared, what `Date.parse` reads from it. Times, sizes and severities are
-- natural numbers. Tests take the form `if then else`, and a loop is a recursion on its list; only
-- `show_nat` has fuel, one more than the number it prints, which is enough because each step divides
-- it by ten.
--
-- Not modelled: the terminal interfaces, the network code of the proxy, the background service, the
-- setup of shells and hooks, the command line commands, and the file system's part of reading and
-- writing files.
pub mod Common
pub mod Config
pub mod Audit
pub mod Policy
pub mod Setup
pub mod State
pub mod Security
pub mod Project
pub mod Decisions
pub mod Api
pub mod Scripts
pub mod Launcher
pub mod Proxy
pub mod Tests

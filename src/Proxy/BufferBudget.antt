-- ===== src/Proxy/BufferBudget.antt =====
-- src/proxy/buffer-budget.ts: artifacts are collected in memory, each under its own limit and all
-- under one. The events of all streams arrive in one sequence, in any order.
pub mod Total
pub mod Within
pub mod Delivery
use dg_cli.Common.{
  ℕ, zero, suc, ◌+◌, ◌-◌, ◌*◌, String, Bool, true, false, not, Option, none, some, List, [], ◌∷◌,
  ◌++◌, length, ltb, truthy, get_or, parse_int, if◌then◌else◌,
}

abbrev pub default_max_artifact_bytes : ℕ
default_max_artifact_bytes = 1024 * 1024 * 1024

abbrev pub default_max_total_buffered_bytes : ℕ
default_max_total_buffered_bytes = 2 * 1024 * 1024 * 1024

positive : Option (Bool × ℕ) → ℕ → ℕ
positive none fallback = fallback
positive (some (true, n)) fallback = fallback
positive (some (false, n)) fallback = if ltb 0 n then n else fallback

-- A text of more than 308 digits, which is infinite in the source, is read as the number it spells.
unfoldable pub parse_limit : Option String → ℕ → ℕ
unfolding positive parse_int
parse_limit raw fallback =
    if not (truthy raw) then fallback else positive (parse_int (get_or raw "")) fallback

-- DG_PROXY_MAX_ARTIFACT_BYTES and DG_PROXY_MAX_BUFFERED_BYTES of the environment.
pub record Environment : Type 0 where
  pub max_artifact_bytes : Option String
  pub max_buffered_bytes : Option String

unfoldable pub max_artifact_bytes : Environment → ℕ
unfolding parse_limit
max_artifact_bytes env = parse_limit env.max_artifact_bytes default_max_artifact_bytes

unfoldable pub max_total_buffered_bytes : Environment → ℕ
unfolding parse_limit
max_total_buffered_bytes env = parse_limit env.max_buffered_bytes default_max_total_buffered_bytes

pub data Failure : Type 0 where
  over_limit over_total closed_early : Failure
  stream_error : String → Failure

-- How the promise of one stream settled.
pub data Outcome : Type 0 where
  pending : Outcome
  resolved : List ℕ → Outcome
  rejected : Failure → Outcome

-- The variables of one call of `collectBounded`; bytes are numbers, and the chunks stand in the
-- order of their arrival. `settled` is an outcome that is not `pending`.
pub record Stream : Type 0 where
  pub limit : ℕ
  pub total_limit : ℕ
  pub chunks : List (List ℕ)
  pub size : ℕ
  pub outcome : Outcome

abbrev pub settled : Outcome → Bool
settled pending = false
settled _ = true

-- Buffer.concat
abbrev pub concat : List (List ℕ) → List ℕ
concat [] = []
concat (chunk ∷ chunks) = chunk ++ concat chunks

pub data Event : Type 0 where
  data_event : List ℕ → Event
  end_event close_event : Event
  error_event : String → Event

-- `settle`: the bytes of the stream leave the total, once.
pub settle : Outcome → ℕ → Stream → ℕ × Stream
settle outcome total s =
    if settled s.outcome then (total, s) else (total - s.size, record s { outcome = outcome })

pub on_data : List ℕ → ℕ → Stream → ℕ × Stream
unfolding settle
on_data chunk total s =
    if settled s.outcome
    then (total, s)
    else let size = s.size + length chunk in
      let total' = total + length chunk in
      let grown = record s { size = size } in
      if ltb s.limit size
      then settle (rejected over_limit) total' grown
      else if ltb s.total_limit total'
      then settle (rejected over_total) total' grown
      else (total', record grown { chunks = s.chunks ++ chunk ∷ [] })

unfoldable pub on_event : Event → ℕ → Stream → ℕ × Stream
unfolding on_data settle
on_event (data_event chunk) total s = on_data chunk total s
on_event end_event total s = settle (resolved (concat s.chunks)) total s
on_event (error_event message) total s = settle (rejected (stream_error message)) total s
on_event close_event total s = settle (rejected closed_early) total s

-- `totalBufferedBytes`, and the streams of the calls up to now.
pub record Budget : Type 0 where
  pub total : ℕ
  pub streams : List Stream

-- A call of `collectBounded`: `limitBytes`, and the environment that gives the other limits.
unfoldable pub collect_bounded : Option ℕ → Environment → Budget → Budget
unfolding max_artifact_bytes max_total_buffered_bytes
collect_bounded limit_bytes env b = record b {
  streams =
      b.streams
      ++ record {
        limit = get_or limit_bytes (max_artifact_bytes env);
        total_limit = max_total_buffered_bytes env;
        chunks = [];
        size = 0;
        outcome = pending;
      }
        ∷ [];
}

-- The event arrives at the stream of that index; there is none for an index out of range.
pub deliver : ℕ → Event → ℕ → List Stream → ℕ × List Stream
deliver i event total [] = (total, [])
deliver zero event total (s ∷ streams) =
    let (total', s') = on_event event total s in (total', s' ∷ streams)
deliver (suc i) event total (s ∷ streams) =
    let (total', streams') = deliver i event total streams in (total', s ∷ streams')

pub data Step : Type 0 where
  start : Option ℕ → Environment → Step
  arrive : ℕ → Event → Step

pub step : Step → Budget → Budget
unfolding collect_bounded deliver on_event
step (start limit_bytes env) b = collect_bounded limit_bytes env b
step (arrive i event) b =
    let (total, streams) = deliver i event b.total b.streams in
    record { total = total; streams = streams }

unfoldable pub run : List Step → Budget → Budget
unfolding step
run [] b = b
run (s ∷ steps) b = run steps (step s b)

abbrev pub no_streams : Budget
no_streams = record { total = 0; streams = [] }

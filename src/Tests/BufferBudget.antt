-- ===== src/Tests/BufferBudget.antt =====
-- src/proxy/buffer-budget.ts on concrete streams.
use dg_cli.Common.{ℕ, ◌≡◌, refl, none, some, List, [], ◌∷◌, ◌++◌, length, ◌≤◌, arith}
use dg_cli.Proxy.BufferBudget.{
  Environment, Stream, pending, resolved, concat, Event, data_event, end_event, close_event, Step,
  start, arrive, run, no_streams, on_event, max_total_buffered_bytes,
}
use dg_cli.Proxy.BufferBudget.Total.{held_by, IsCounted, run-IsCounted}
use dg_cli.Proxy.BufferBudget.Within.{total-run-le}
use dg_cli.Proxy.BufferBudget.Delivery.{feed, data_of, feed-resolved, feed_delivers}

abbrev env : Environment
env = record { max_artifact_bytes = some "4"; max_buffered_bytes = some "6" }

abbrev two_streams : List Step
two_streams =
    start none env
    ∷ start (some 3) env
    ∷ arrive 0 (data_event (1 ∷ 2 ∷ []))
    ∷ arrive 1 (data_event (3 ∷ []))
    ∷ arrive 0 end_event
    ∷ arrive 1 (data_event (4 ∷ 5 ∷ 6 ∷ []))
    ∷ []

run-IsCounted_example : IsCounted (run two_streams no_streams)
unfolding held_by
run-IsCounted_example = run-IsCounted two_streams no_streams refl

total-run-le_example : (run two_streams no_streams).total ≤ 6
unfolding max_total_buffered_bytes
total-run-le_example = total-run-le 6 two_streams (refl, (refl, (tt, (tt, (tt, (tt, tt))))))

abbrev stream : Stream
stream = record { limit = 4; total_limit = 6; chunks = []; size = 0; outcome = pending }

abbrev events : List (ℕ × Event)
events =
    (0, data_event (1 ∷ 2 ∷ [])) ∷ (3, data_event (3 ∷ [])) ∷ (0, end_event) ∷ (0, close_event) ∷ []

abbrev received : List ℕ
received = 1 ∷ 2 ∷ 3 ∷ []

feed-resolved_example : (received ≡ concat ([] ++ data_of events)) × (length received ≤ 4)
unfolding feed on_event
feed-resolved_example = feed-resolved events stream received refl (omega arith) refl refl

feed_delivers_example : (feed events stream).outcome ≡ resolved (concat ([] ++ data_of events))
feed_delivers_example =
    feed_delivers events stream refl (omega arith, omega arith, (omega arith, omega arith, tt))

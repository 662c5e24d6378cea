-- ===== src/Proxy/BufferBudget/Within.antt =====
-- The total of src/proxy/buffer-budget.ts stays within its limit between events.
use dg_cli.Common.{ℕ, zero, suc, ◌≤◌, ◌≡◌, List, [], ◌∷◌, arith, All, All-append}
use dg_cli.Proxy.BufferBudget.{
  Stream, Event, data_event, end_event, error_event, close_event, on_event,
  max_total_buffered_bytes, Budget, collect_bounded, deliver, Step, start, arrive, step, run,
  no_streams,
}

-- All calls read one environment.
abbrev InEnvironment : ℕ → Stream → Type 0
InEnvironment most s = s.total_limit ≡ most

abbrev pub OpensIn : ℕ → Step → Type 0
OpensIn most (start limit_bytes env) = max_total_buffered_bytes env ≡ most
OpensIn most (arrive i event) = Unit

on_event-most :
    (event : Event) (total most : ℕ) (s : Stream)
    → s.total_limit ≡ most
    → total ≤ most
    → ((on_event event total s).0 ≤ most) × ((on_event event total s).1.total_limit ≡ most)
unfolding on_event
on_event-most (data_event chunk) total most s h k = ground arith
on_event-most end_event total most s h k = ground arith
on_event-most (error_event m) total most s h k = ground arith
on_event-most close_event total most s h k = ground arith

deliver-most :
    (i : ℕ) (event : Event) (total most : ℕ) (streams : List Stream)
    → All (InEnvironment most) streams
    → total ≤ most
    → ((deliver i event total streams).0 ≤ most)
      × All (InEnvironment most) (deliver i event total streams).1
unfolding deliver
deliver-most i event total most [] h k = (k, tt)
deliver-most zero event total most (s ∷ streams) h k =
    let (within, kept) = on_event-most event total most s h.0 k in (within, (kept, h.1))
deliver-most (suc i) event total most (s ∷ streams) h k =
    let (within, kept) = deliver-most i event total most streams h.1 k in (within, (h.0, kept))

record IsWithin (most : ℕ) (b : Budget) : Type 0 where
  within : b.total ≤ most
  same : All (InEnvironment most) b.streams

step-IsWithin :
    (most : ℕ) (s : Step) (b : Budget) → OpensIn most s → IsWithin most b → IsWithin most (step s b)
unfolding step collect_bounded
step-IsWithin most (start limit_bytes env) b o h = record {
  within = h.within;
  same = All-append (InEnvironment most) b.streams (_ ∷ []) h.same (o, tt);
}
step-IsWithin most (arrive i event) b o h =
    let (within, same) = deliver-most i event b.total most b.streams h.same h.within in
    record { within = within; same = same }

run-IsWithin :
    (most : ℕ) (steps : List Step) (b : Budget)
    → All (OpensIn most) steps
    → IsWithin most b
    → IsWithin most (run steps b)
unfolding run
run-IsWithin most [] b o h = h
run-IsWithin most (s ∷ steps) b o h =
    run-IsWithin most steps (step s b) o.1 (step-IsWithin most s b o.0 h)

-- From the start, if every call reads the same DG_PROXY_MAX_BUFFERED_BYTES, the bytes counted never
-- pass that limit between two events, whatever the streams send and in whatever order.
pub total-run-le :
    (most : ℕ) (steps : List Step) → All (OpensIn most) steps → (run steps no_streams).total ≤ most
total-run-le most steps o =
    (run-IsWithin most steps no_streams o (record { within = omega arith; same = tt })).within

-- ===== src/Proxy/BufferBudget/Total.antt =====
-- `totalBufferedBytes` of src/proxy/buffer-budget.ts counts the bytes that pending streams hold.
use dg_cli.Common.{ℕ, zero, suc, ◌+◌, ◌≡◌, Option, List, [], ◌∷◌, ◌++◌, arith, if◌then◌else◌}
use dg_cli.Proxy.BufferBudget.{
  Environment, Stream, settled, Event, data_event, end_event, error_event, close_event, on_event,
  Budget, collect_bounded, deliver, Step, start, arrive, step, run,
}

-- The bytes that a stream holds.
abbrev pub held : Stream → ℕ
held s = if settled s.outcome then 0 else s.size

unfoldable pub held_by : List Stream → ℕ
held_by [] = 0
held_by (s ∷ streams) = held s + held_by streams

-- One event changes the total by what it changes in its stream.
on_event-total :
    (event : Event) (total rest : ℕ) (s : Stream)
    → total ≡ held s + rest
    → (on_event event total s).0 ≡ held (on_event event total s).1 + rest
unfolding on_event
on_event-total (data_event chunk) total rest s h = ground arith
on_event-total end_event total rest s h = ground arith
on_event-total (error_event m) total rest s h = ground arith
on_event-total close_event total rest s h = ground arith

deliver-total :
    (i : ℕ) (event : Event) (total rest : ℕ) (streams : List Stream)
    → total ≡ held_by streams + rest
    → (deliver i event total streams).0 ≡ held_by (deliver i event total streams).1 + rest
unfolding deliver held_by
deliver-total i event total rest [] h = h
deliver-total zero event total rest (s ∷ streams) h =
    omega (arith, on_event-total event total (held_by streams + rest) s (omega arith))
deliver-total (suc i) event total rest (s ∷ streams) h =
    omega (arith, deliver-total i event total (held s + rest) streams (omega arith))

held_by-append : (xs ys : List Stream) → held_by (xs ++ ys) ≡ held_by xs + held_by ys
unfolding held_by
held_by-append [] ys = omega arith
held_by-append (x ∷ xs) ys = omega (arith, held_by-append xs ys)

-- The total counts the pending bytes.
abbrev pub IsCounted : Budget → Type 0
IsCounted b = b.total ≡ held_by b.streams

opened-held :
    (limit_bytes : Option ℕ) (env : Environment) (b : Budget)
    → IsCounted b
    → IsCounted (collect_bounded limit_bytes env b)
unfolding collect_bounded held_by
opened-held limit_bytes env b h = omega (arith, held_by-append b.streams _)

step-IsCounted : (s : Step) (b : Budget) → IsCounted b → IsCounted (step s b)
unfolding step
step-IsCounted (start limit_bytes env) b h = opened-held limit_bytes env b h
step-IsCounted (arrive i event) b h =
    omega (arith, deliver-total i event b.total 0 b.streams (omega arith))

-- Whatever streams are opened and whatever order their events come in, the global counter is the
-- number of bytes that the streams which have not settled hold: nothing leaks, and nothing is
-- released twice.
pub run-IsCounted : (steps : List Step) (b : Budget) → IsCounted b → IsCounted (run steps b)
unfolding run
run-IsCounted [] b h = h
run-IsCounted (s ∷ steps) b h = run-IsCounted steps (step s b) (step-IsCounted s b h)

-- ===== src/Launcher/OutputRedaction/Quiet.antt =====
-- A child that falls silent has its output shown: the timer of src/launcher/output-redaction.ts.
use Prim.Native.String
use text.Mathlib.TextLemmas.{append-nil, nil-append}
use dg_cli.Common.{
  ℕ, ◌+◌, ◌-◌, ◌≡◌, refl, sym, ap, ◌∙◌, ◌⊎◌, inl, inr, String, Bool, true, false, ◌==◌, string_Eq,
  str_eq_iff, if◌then◌else◌, Bool-cases, Option, none, some, List, [], ◌∷◌, ◌++◌, map, template,
  subst, arith,
}
use dg_cli.Project.DgFile.Exemptions.{slice}
use dg_cli.Launcher.OutputRedaction.{
  Patterns, text_length, slice_from, cut_lines, Redactor, new_redactor, OutputEvent, chunk_written,
  quiet, flushed, emit_all, hold_from, after_tail_match, write_chunk, on_quiet_timer, emit_pending,
  on_output_event, run,
}
use dg_cli.Launcher.OutputRedaction.Delivery.{Sends, Keeps, printed, run-Keeps, quiet-held}

-- While something is pending the timer runs.
abbrev IsArmed : Redactor → Type 0
IsArmed r = r.timer ≡ false → r.pending ≡ ""

-- After the timer nothing is pending, or it runs once more.
abbrev IsLast : Redactor → Type 0
IsLast r = (r.pending ≡ "") ⊎ ((r.timer ≡ true) × (r.tail_held_once ≡ true))

module _ (p : Patterns) where
  match-IsLast :
      (scan_start : ℕ) (found : Option ℕ) (r : Redactor)
      → IsLast (after_tail_match p scan_start found r)
  unfolding slice
  match-IsLast scan_start none r = inl refl
  match-IsLast scan_start (some index) r =
      either r.tail_held_once (emit_all p r) (hold_from p (scan_start + index) r) (inl refl)
        (inr (refl, refl))
    where
      either : (b : Bool) (r s : Redactor) → IsLast r → IsLast s → IsLast (if b then r else s)
      either true r s h k = h
      either false r s h k = k

  quiet-IsLast : (r : Redactor) → IsLast (on_quiet_timer p r)
  unfolding on_quiet_timer
  quiet-IsLast r = elim (Bool-cases (r.pending == "")) [
    | inl e ↦ (rw e (inl ((str_eq_iff r.pending "").0 e)))
    | inr e ↦
        (rw e (
          match-IsLast (text_length r.pending - 80)
            (p.secret_tail (slice_from (text_length r.pending - 80) r.pending)) r))
  ]

  quiet-empty : (r : Redactor) → r.pending ≡ "" → (on_quiet_timer p r).pending ≡ ""
  unfolding on_quiet_timer
  quiet-empty r h = rw ((str_eq_iff r.pending "").1 h) h

  Last-quiet : (r : Redactor) → IsLast r → (on_output_event p quiet r).pending ≡ ""
  unfolding on_output_event
  Last-quiet r (inl h) = either r.timer (quiet-empty r h)
    where
      either :
          (b : Bool)
          → (on_quiet_timer p r).pending ≡ ""
          → (if b then on_quiet_timer p r else r).pending ≡ ""
      either true k = k
      either false k = h
  Last-quiet r (inr (runs, held)) =
      subst (λ b. (if b then on_quiet_timer p r else r).pending ≡ "") (sym runs)
        (quiet-held p r held)

  armed-quiet : (r : Redactor) → IsArmed r → IsLast (on_output_event p quiet r)
  unfolding on_output_event
  armed-quiet r h = go r.timer refl
    where
      go : (b : Bool) → r.timer ≡ b → IsLast (if b then on_quiet_timer p r else r)
      go true e = quiet-IsLast r
      go false e = inl (h e)

  Last-IsArmed : (r : Redactor) → IsLast r → IsArmed r
  Last-IsArmed r (inl h) e = h
  Last-IsArmed r (inr (runs, held)) e = ground arith

  event-IsArmed :
      (event : OutputEvent) (r : Redactor) → IsArmed r → IsArmed (on_output_event p event r)
  unfolding on_output_event write_chunk emit_pending
  event-IsArmed (chunk_written chunk) r h e =
      let rest = (cut_lines (String.◌++◌ r.pending chunk)).rest in
      (str_eq_iff rest "").0 (ground arith)
  event-IsArmed quiet r h e = Last-IsArmed (on_output_event p quiet r) (armed-quiet r h) e
  event-IsArmed flushed r h e = refl

  run-IsArmed : (events : List OutputEvent) (r : Redactor) → IsArmed r → IsArmed (run p events r)
  unfolding run
  run-IsArmed [] r h = h
  run-IsArmed (event ∷ events) r h =
      run-IsArmed events (on_output_event p event r) (event-IsArmed event r h)

  run-twice_quiet :
      (events : List OutputEvent) (r : Redactor)
      → run p (events ++ (quiet ∷ quiet ∷ [])) r
        ≡ on_output_event p quiet (on_output_event p quiet (run p events r))
  unfolding run
  run-twice_quiet [] r = refl
  run-twice_quiet (event ∷ events) r = run-twice_quiet events (on_output_event p event r)

  printed-twice_quiet :
      (events : List OutputEvent)
      → template (map printed (events ++ (quiet ∷ quiet ∷ []))) ≡ template (map printed events)
  printed-twice_quiet [] = refl
  printed-twice_quiet (event ∷ events) = rw (printed-twice_quiet events) refl

  Keeps-Sends :
      (r : Redactor) (whole : String) → r.pending ≡ "" → Keeps p r whole → Sends p r.emitted whole
  Keeps-Sends r whole h (front, sent, joined) =
      let same : front ≡ whole =
        sym (append-nil front) ∙ ap (λ s. String.◌++◌ front s) (sym h) ∙ joined in
      subst (Sends p r.emitted) same sent

  -- Whatever a child prints, in whatever pieces and with whatever pauses and flushes between them, once
  -- the timer has ended twice after it nothing is pending, and what was emitted are the redacted parts
  -- of exactly the text that was printed, in its order.
  pub run-delivers :
      (events : List OutputEvent)
      → let r = run p (events ++ (quiet ∷ quiet ∷ [])) new_redactor in
        (r.pending ≡ "") × Sends p r.emitted (template (map printed events))
  run-delivers events =
      let before = run p events new_redactor in
      let r = run p (events ++ (quiet ∷ quiet ∷ [])) new_redactor in
      let armed = run-IsArmed events new_redactor (λ e. refl) in
      let empty : r.pending ≡ "" =
        ap (λ s. s.pending) (run-twice_quiet events new_redactor)
        ∙ Last-quiet (on_output_event p quiet before) (armed-quiet before armed) in
      let kept =
        run-Keeps p (events ++ (quiet ∷ quiet ∷ [])) new_redactor ""
          ("", ([], refl, refl), nil-append "") in
      (
        empty,
        Keeps-Sends r (template (map printed events)) empty
            (subst (Keeps p r) (nil-append _ ∙ printed-twice_quiet events) kept),
      )

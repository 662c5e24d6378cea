-- ===== src/Launcher/OutputRedaction/Delivery.antt =====
-- The redactor of src/launcher/output-redaction.ts neither drops nor repeats what a child prints.
use Prim.Native.Char.{code}
use Prim.Native.String
use text.Mathlib.TextLemmas.{append_assoc, append-nil, cons-append, nil-append}
use dg_cli.Common.{
  ℕ, zero, suc, ◌+◌, ◌-◌, ◌≡◌, refl, sym, ap, ◌∙◌, inl, inr, String, Bool, true, false, not, ◌&&◌,
  ◌||◌, ltb, ◌==◌, nat_Eq, string_Eq, str_eq_iff, if◌then◌else◌, Bool-cases, Option, none, some,
  List, [], ◌∷◌, ◌++◌, map, template, subst, arith,
}
use dg_cli.Project.DgFile.Exemptions.{slice}
use dg_cli.Launcher.OutputRedaction.{
  Patterns, redact_secrets, secret_tail_scan_chars, text_length, slice_from, cut_lines, Redactor,
  OutputEvent, chunk_written, quiet, flushed, emit_filled, emit_all, hold_from, after_tail_match,
  write_chunk, on_quiet_timer, emit_pending, on_output_event, run,
}

slice-slice_from : (n : ℕ) (s : String) → String.◌++◌ (slice n s) (slice_from n s) ≡ s
unfolding slice
slice-slice_from zero s = nil-append s
slice-slice_from (suc n) String.[] = nil-append ""
slice-slice_from (suc n) (String.◌∷◌ c s) =
    rw (cons-append c (slice n s) (slice_from n s), slice-slice_from n s) refl

cut-whole : (s : String) → String.◌++◌ ((cut_lines s).front) ((cut_lines s).rest) ≡ s
unfolding cut_lines
cut-whole String.[] = nil-append ""
cut-whole (String.◌∷◌ c s) =
    elim (Bool-cases ((cut_lines s).front == "" && not (code c == 10 || code c == 13))) [
      | inl e ↦
          let no_front : (cut_lines s).front ≡ "" =
            (str_eq_iff ((cut_lines s).front) "").0 (ground arith) in
          let whole : (cut_lines s).rest ≡ s =
            sym (nil-append ((cut_lines s).rest))
            ∙ subst (λ f. String.◌++◌ f ((cut_lines s).rest) ≡ s) no_front (cut-whole s) in
          (rw (e, nil-append (String.◌∷◌ c ((cut_lines s).rest)), whole) refl)
      | inr e ↦ (rw (e, cons-append c ((cut_lines s).front) ((cut_lines s).rest), cut-whole s) refl)
    ]

-- What a child prints by an event.
abbrev pub printed : OutputEvent → String
printed (chunk_written chunk) = chunk
printed quiet = ""
printed flushed = ""

module _ (p : Patterns) where
  -- A list of redacted texts that stand for one text.
  abbrev pub Sends : List String → String → Type 0
  Sends texts whole =
      (parts : List String) × (texts ≡ map (redact_secrets p) parts) × (template parts ≡ whole)

  -- What was emitted and what is pending are all of a text.
  abbrev pub Keeps : Redactor → String → Type 0
  Keeps r whole = (front : String) × Sends r.emitted front × (String.◌++◌ front r.pending ≡ whole)

  map-snoc :
      (parts : List String) (s : String)
      → map (redact_secrets p) parts ++ (redact_secrets p s ∷ [])
        ≡ map (redact_secrets p) (parts ++ (s ∷ []))
  map-snoc [] s = refl
  map-snoc (part ∷ parts) s = rw (map-snoc parts s) refl

  template-snoc :
      (parts : List String) (s : String)
      → template (parts ++ (s ∷ [])) ≡ String.◌++◌ (template parts) s
  template-snoc [] s = rw (append-nil s, nil-append s) refl
  template-snoc (part ∷ parts) s =
      rw (template-snoc parts s, append_assoc part (template parts) s) refl

  Sends-emit :
      (texts : List String) (whole s : String)
      → Sends texts whole
      → Sends (texts ++ (redact_secrets p s ∷ [])) (String.◌++◌ whole s)
  Sends-emit texts whole s (parts, redacted, joined) =
      (parts ++ (s ∷ []), rw redacted (map-snoc parts s), rw (sym joined) (template-snoc parts s))

  Sends-emit_filled :
      (r : Redactor) (whole s : String)
      → Sends r.emitted whole
      → Sends ((emit_filled p s r).emitted) (String.◌++◌ whole s)
  Sends-emit_filled r whole s h = elim (Bool-cases (s == "")) [
    | inl e ↦
        let no_text : s ≡ "" = (str_eq_iff s "").0 e in
        let same : whole ≡ String.◌++◌ whole s = rw no_text (sym (append-nil whole)) in
        (rw e (subst (Sends r.emitted) same h))
    | inr e ↦ (rw e (Sends-emit r.emitted whole s h))
  ]

  either-Keeps :
      (b : Bool) (r s : Redactor) (whole : String)
      → Keeps r whole
      → Keeps s whole
      → Keeps (if b then r else s) whole
  either-Keeps true r s whole h k = h
  either-Keeps false r s whole h k = k

  -- A step from which everything that was pending is emitted.
  all-Keeps : (r : Redactor) (whole : String) → Keeps r whole → Keeps (emit_all p r) whole
  all-Keeps r whole (front, sent, joined) = (
    String.◌++◌ front r.pending,
    Sends-emit r.emitted front r.pending sent,
    append-nil (String.◌++◌ front r.pending) ∙ joined,
  )

  pending-Keeps : (r : Redactor) (whole : String) → Keeps r whole → Keeps (emit_pending p r) whole
  unfolding emit_pending
  pending-Keeps r whole (front, sent, joined) = (
    String.◌++◌ front r.pending,
    Sends-emit_filled r front r.pending sent,
    append-nil (String.◌++◌ front r.pending) ∙ joined,
  )

  hold-Keeps :
      (start : ℕ) (r : Redactor) (whole : String)
      → Keeps r whole
      → Keeps (hold_from p start r) whole
  unfolding slice
  hold-Keeps zero r whole h = h
  hold-Keeps (suc start) r whole (front, sent, joined) =
      let cut = slice (suc start) r.pending in
      let filled : ltb 0 (suc start) ≡ true = ground arith in
      (rw filled (
        String.◌++◌ front cut,
        Sends-emit r.emitted front cut sent,
        append_assoc front cut (slice_from (suc start) r.pending)
            ∙ ap (λ s. String.◌++◌ front s) (slice-slice_from (suc start) r.pending)
            ∙ joined,
      ))

  match-Keeps :
      (scan_start : ℕ) (found : Option ℕ) (r : Redactor) (whole : String)
      → Keeps r whole
      → Keeps (after_tail_match p scan_start found r) whole
  match-Keeps scan_start none r whole h = all-Keeps r whole h
  match-Keeps scan_start (some index) r whole h =
      either-Keeps r.tail_held_once (emit_all p r) (hold_from p (scan_start + index) r) whole
        (all-Keeps r whole h) (hold-Keeps (scan_start + index) r whole h)

  quiet-Keeps : (r : Redactor) (whole : String) → Keeps r whole → Keeps (on_quiet_timer p r) whole
  unfolding on_quiet_timer
  quiet-Keeps r whole h =
      let scan_start = text_length r.pending - secret_tail_scan_chars in
      elim (Bool-cases (r.pending == "")) [
        | inl e ↦ (rw e h)
        | inr e ↦
            (rw e
              (match-Keeps scan_start (p.secret_tail (slice_from scan_start r.pending)) r whole h))
      ]

  write-Keeps :
      (chunk : String) (r : Redactor) (whole : String)
      → Keeps r whole
      → Keeps (write_chunk p chunk r) (String.◌++◌ whole chunk)
  unfolding write_chunk
  write-Keeps chunk r whole (front, sent, joined) =
      let text = String.◌++◌ r.pending chunk in
      let cut = cut_lines text in
      (
        String.◌++◌ front cut.front,
        Sends-emit_filled r front cut.front sent,
        append_assoc front cut.front cut.rest
            ∙ ap (λ s. String.◌++◌ front s) (cut-whole text)
            ∙ sym (append_assoc front r.pending chunk)
            ∙ ap (λ s. String.◌++◌ s chunk) joined,
      )

  event-Keeps :
      (event : OutputEvent) (r : Redactor) (whole : String)
      → Keeps r whole
      → Keeps (on_output_event p event r) (String.◌++◌ whole (printed event))
  unfolding on_output_event
  event-Keeps (chunk_written chunk) r whole h = write-Keeps chunk r whole h
  event-Keeps quiet r whole h =
      rw (append-nil whole)
        (either-Keeps r.timer (on_quiet_timer p r) r whole (quiet-Keeps r whole h) h)
  event-Keeps flushed r whole h = rw (append-nil whole) (pending-Keeps r whole h)

  pub run-Keeps :
      (events : List OutputEvent) (r : Redactor) (whole : String)
      → Keeps r whole
      → Keeps (run p events r) (String.◌++◌ whole (template (map printed events)))
  unfolding run
  run-Keeps [] r whole h = rw (append-nil whole) h
  run-Keeps (event ∷ events) r whole h =
      rw (sym (append_assoc whole (printed event) (template (map printed events)))) (
        run-Keeps events (on_output_event p event r) (String.◌++◌ whole (printed event))
          (event-Keeps event r whole h))

  -- A timer that ends is the last but one at most that does while something is pending.
  pub quiet-held : (r : Redactor) → r.tail_held_once ≡ true → (on_quiet_timer p r).pending ≡ ""
  unfolding on_quiet_timer
  quiet-held r h = elim (Bool-cases (r.pending == "")) [
    | inl e ↦ (rw e ((str_eq_iff r.pending "").0 e))
    | inr e ↦ (rw e (ended (p.secret_tail (slice_from (text_length r.pending - 80) r.pending))))
  ]
    where
      ended :
          (found : Option ℕ)
          → (after_tail_match p (text_length r.pending - 80) found r).pending ≡ ""
      ended none = refl
      ended (some index) = rw h refl

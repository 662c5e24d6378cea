-- ===== src/Api/Stream/Chunks.antt =====
-- How the answer of the scanner is cut into chunks does not matter to src/api/analyze.ts.
use Prim.Native.String
use text.Mathlib.TextLemmas.{append_assoc, append-nil}
use dg_cli.Common.{◌≡◌, refl, sym, ap, ◌∙◌, String, Option, List, [], ◌∷◌, ◌++◌, template, trim}
use dg_cli.Common.Result.{Result, ok, err, ◌>>=◌}
use dg_cli.Common.Json.{Json}
use dg_cli.Api.Errors.{Thrown}
use dg_cli.Api.Stream.{
  Split, split_lines, Received, handle_line, handle_lines, read_chunks, consume_analyze_stream,
}
use dg_cli.Api.Stream.Lines.{more_lines, split-append, IsUnended, rest-IsUnended}

bind_assoc :
    {A B C : Type 0} (r : Result Thrown A) (f : A → Result Thrown B) (g : B → Result Thrown C)
    → (r >>= f >>= g) ≡ (r >>= λ a. f a >>= g)
bind_assoc (ok a) f g = refl
bind_assoc (err e) f g = refl

bind-ext :
    {A B : Type 0} (r : Result Thrown A) (f g : A → Result Thrown B)
    → ((a : A) → f a ≡ g a)
    → (r >>= f) ≡ (r >>= g)
bind-ext (ok a) f g h = h a
bind-ext (err e) f g h = refl

module _ (strip : String → String) (parse : String → Option Json) (show : Json → String) where
  handle_lines-append :
      (front back : List String) (received : Received)
      → handle_lines strip parse show (front ++ back) received ≡ (
          handle_lines strip parse show front received >>= λ next.
          handle_lines strip parse show back next)
  unfolding handle_lines
  handle_lines-append [] back received = refl
  handle_lines-append (line ∷ front) back received =
      bind-ext (handle_line strip parse show (trim line) received) _ _
        (λ next. handle_lines-append front back next)
      ∙ sym (bind_assoc (handle_line strip parse show (trim line) received) _ _)

  -- All the lines of a text, the last one without its newline.
  whole : Split → Received → Result Thrown Received
  whole split received = handle_lines strip parse show split.lines received >>= λ next.
      handle_line strip parse show (trim split.rest) next

  whole-more :
      (split : Split) (text : String) (received : Received)
      → whole (more_lines split text) received ≡ (
          handle_lines strip parse show split.lines received >>= λ next.
          whole (split_lines (String.◌++◌ split.rest text)) next)
  unfolding whole
  whole-more split text received =
      let later = split_lines (String.◌++◌ split.rest text) in
      ap (λ r. r >>= λ next. handle_line strip parse show (trim later.rest) next)
        (handle_lines-append split.lines later.lines received)
      ∙ bind_assoc (handle_lines strip parse show split.lines received) _ _

  read_chunks-whole :
      (chunks : List String) (buffer : String) (received : Received)
      → IsUnended buffer
      → read_chunks strip parse show chunks buffer received
        ≡ whole (split_lines (String.◌++◌ buffer (template chunks))) received
  unfolding read_chunks whole IsUnended handle_lines
  read_chunks-whole [] buffer received h = rw (append-nil buffer, h) refl
  read_chunks-whole (chunk ∷ chunks) buffer received h =
      let split = split_lines (String.◌++◌ buffer chunk) in
      let text = template chunks in
      bind-ext (handle_lines strip parse show split.lines received) _ _ (λ next.
        read_chunks-whole chunks split.rest next (rest-IsUnended (String.◌++◌ buffer chunk)))
      ∙ sym (whole-more split text received)
      ∙ ap (λ s. whole s received) (sym (split-append (String.◌++◌ buffer chunk) text))
      ∙ ap (λ t. whole (split_lines t) received) (append_assoc buffer chunk text)

  -- The answer to a batch is read the same however the connection cuts it into chunks: two streams with
  -- the same text give the same response, or throw the same error.
  pub consume-chunks :
      (chunks others : List String)
      → template chunks ≡ template others
      → consume_analyze_stream strip parse show chunks
        ≡ consume_analyze_stream strip parse show others
  unfolding consume_analyze_stream
  consume-chunks chunks others same =
      rw (read_chunks-whole chunks "" _ no_lines, read_chunks-whole others "" _ no_lines, same) refl
    where
      no_lines : IsUnended ""
      no_lines = rest-IsUnended ""

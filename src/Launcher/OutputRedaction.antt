-- ===== src/Launcher/OutputRedaction.antt =====
-- Secrets are taken out of a child's output before it is shown: src/launcher/output-redaction.ts. What
-- a regular expression replaces or finds is a parameter.
pub mod Delivery
pub mod Quiet
use Prim.Native.Char.{Char, code}
use Prim.Native.String
use dg_cli.Common.{
  ℕ, zero, suc, ◌+◌, ◌-◌, String, Bool, true, false, not, ◌&&◌, ◌||◌, ltb, ◌==◌, nat_Eq, string_Eq,
  if◌then◌else◌, Option, none, some, List, [], ◌∷◌, ◌++◌,
}
use dg_cli.Project.DgFile.Exemptions.{slice}

-- The replacements by each pattern, and the index at which a secret may begin that ends the text.
pub record Patterns : Type 0 where
  pub credential_url : String → String
  pub auth_header : String → String
  pub npmrc_auth : String → String
  pub json_secret : String → String
  pub token_assignment : String → String
  pub bearer : String → String
  pub known_token_shape : String → String
  pub secret_tail : String → Option ℕ

unfoldable pub redact_secrets : Patterns → String → String
redact_secrets p s = p.known_token_shape (
    p.bearer
      (p.token_assignment (p.json_secret (p.npmrc_auth (p.auth_header (p.credential_url s))))))

abbrev pub secret_tail_scan_chars : ℕ
secret_tail_scan_chars = 80

-- s.length
abbrev pub text_length : String → ℕ
text_length String.[] = 0
text_length (String.◌∷◌ c s) = suc (text_length s)

-- s.slice(n)
abbrev pub slice_from : ℕ → String → String
slice_from zero s = s
slice_from (suc n) String.[] = ""
slice_from (suc n) (String.◌∷◌ c s) = slice_from n s

-- A text behind its last line break, and what stands before.
pub record Cut : Type 0 where
  pub front : String
  pub rest : String

abbrev is_break : Char → Bool
is_break c = code c == 10 || code c == 13

unfoldable pub cut_lines : String → Cut
cut_lines String.[] = record { front = ""; rest = "" }
cut_lines (String.◌∷◌ c s) =
    let later = cut_lines s in
    if later.front == "" && not (is_break c)
    then record { front = ""; rest = String.◌∷◌ c later.rest }
    else record { front = String.◌∷◌ c later.front; rest = later.rest }

-- `timer` says whether the timer of a quiet stream runs.
pub record Redactor : Type 0 where
  pub pending : String
  pub timer : Bool
  pub tail_held_once : Bool
  pub emitted : List String

abbrev pub new_redactor : Redactor
new_redactor = record { pending = ""; timer = false; tail_held_once = false; emitted = [] }

-- What happens to a redactor; the timer can only end where it runs.
pub data OutputEvent : Type 0 where
  chunk_written : String → OutputEvent
  quiet flushed : OutputEvent

module _ (p : Patterns) where
  abbrev pub emit : String → Redactor → Redactor
  emit s r = record r { emitted = r.emitted ++ (redact_secrets p s ∷ []) }

  -- if (s) emit(s)
  abbrev pub emit_filled : String → Redactor → Redactor
  emit_filled s r = if s == "" then r else emit s r

  unfoldable pub write_chunk : String → Redactor → Redactor
  unfolding cut_lines
  write_chunk chunk r =
      let cut = cut_lines (String.◌++◌ r.pending chunk) in
      let sent = emit_filled cut.front r in
      record sent { pending = cut.rest; timer = not (cut.rest == ""); tail_held_once = false }

  abbrev pub emit_all : Redactor → Redactor
  emit_all r = record (emit r.pending r) { pending = ""; timer = false; tail_held_once = false }

  -- The front is emitted, and the rest, which may be a secret, is kept once.
  abbrev pub hold_from : ℕ → Redactor → Redactor
  hold_from start r =
      let sent = if ltb 0 start then emit (slice start r.pending) r else r in
      record sent { pending = slice_from start r.pending; timer = true; tail_held_once = true }

  abbrev pub after_tail_match : ℕ → Option ℕ → Redactor → Redactor
  after_tail_match scan_start none r = emit_all r
  after_tail_match scan_start (some index) r =
      if r.tail_held_once then emit_all r else hold_from (scan_start + index) r

  unfoldable pub on_quiet_timer : Redactor → Redactor
  unfolding slice
  on_quiet_timer r =
      let scan_start = text_length r.pending - secret_tail_scan_chars in
      if r.pending == ""
      then record r { timer = false; tail_held_once = false }
      else after_tail_match scan_start (p.secret_tail (slice_from scan_start r.pending)) r

  unfoldable pub emit_pending : Redactor → Redactor
  emit_pending r = record (emit_filled r.pending r) {
    pending = "";
    timer = false;
    tail_held_once = false;
  }

  unfoldable pub on_output_event : OutputEvent → Redactor → Redactor
  unfolding write_chunk on_quiet_timer emit_pending
  on_output_event (chunk_written chunk) r = write_chunk chunk r
  on_output_event quiet r = if r.timer then on_quiet_timer r else r
  on_output_event flushed r = emit_pending r

  unfoldable pub run : List OutputEvent → Redactor → Redactor
  unfolding on_output_event
  run [] r = r
  run (event ∷ events) r = run events (on_output_event event r)

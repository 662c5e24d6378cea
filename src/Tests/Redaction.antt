-- ===== src/Tests/Redaction.antt =====
-- The output of a child that prints a token in two pieces, src/launcher/output-redaction.ts.
use dg_cli.Common.{
  ◌≡◌, refl, some, List, [], ◌∷◌, ◌++◌, ◌==◌, string_Eq, if◌then◌else◌, map, template,
}
use dg_cli.Project.DgFile.Exemptions.{slice}
use dg_cli.Launcher.OutputRedaction.{
  Patterns, redact_secrets, cut_lines, new_redactor, OutputEvent, chunk_written, quiet, flushed,
  write_chunk, on_quiet_timer, emit_pending, on_output_event, run,
}
use dg_cli.Launcher.OutputRedaction.Delivery.{Sends, printed}
use dg_cli.Launcher.OutputRedaction.Quiet.{run-delivers}

-- One token is known, and every end of a text may be one.
abbrev patterns : Patterns
patterns = record {
  credential_url = λ s. s;
  auth_header = λ s. s;
  npmrc_auth = λ s. s;
  json_secret = λ s. s;
  token_assignment = λ s. s;
  bearer = λ s. s;
  known_token_shape = λ s. if s == "hf_1" then "<redacted>" else s;
  secret_tail = λ s. some 0;
}

abbrev pieces : List OutputEvent
pieces =
    chunk_written "hello\nhf_" ∷ quiet ∷ chunk_written "1" ∷ flushed ∷ chunk_written "more" ∷ []

-- The token is kept for one pause, so that its second piece arrives in time.
pieces_emitted : (run patterns pieces new_redactor).emitted ≡ "hello\n" ∷ "<redacted>" ∷ []
unfolding run on_output_event write_chunk cut_lines on_quiet_timer slice emit_pending redact_secrets
pieces_emitted = refl

run-delivers_example :
    ((run patterns (pieces ++ (quiet ∷ quiet ∷ [])) new_redactor).pending ≡ "")
    × Sends patterns
        (run patterns (pieces ++ (quiet ∷ quiet ∷ [])) new_redactor).emitted
        (template (map printed pieces))
run-delivers_example = run-delivers patterns pieces

-- ===== src/StartLine/Tests.antt =====
-- Runs of the start-line, and witnesses.
use unimrcp.Prelude.{
  ℕ, ◌+◌, ◌≡◌, refl, true, false, some, [], ◌∷◌, ◌++◌, length, ltb, replicate, if◌then◌else◌, arith,
}
use unimrcp.HeaderSection.{Str}
use unimrcp.Message.{StartLine, Version, version_1, version_2, complete, start_line_init}
use unimrcp.TextStream.{TextStream, codes, token_sp}
use unimrcp.TextStream.Decimal.{decimal_from, decimal}
use unimrcp.TextStream.Insert.{put, eol_insert, size_value_insert}
use unimrcp.TextStream.Fixture.{print_cut, print_cut-Prints, buffer}
use unimrcp.StartLine.{starts_with, start_line_parse}
use unimrcp.StartLine.Generate.{
  max_digit_count, version_generate, request_id_generate, event_state_generate,
  method_fields_generate, v2_fields_generate, v2_start_line_generate, start_line_generate,
  start_line_finalize,
}
use unimrcp.StartLine.Written.{eol}
use unimrcp.StartLine.Finalize.{start_line_finalize-length}
use unimrcp.StartLine.Fields.{field_of}
use unimrcp.StartLine.Parse.{Line, request_of, response_of, start_line_of, IsLine, finished_text}
use unimrcp.StartLine.RoundTrip.{start_line_parse-text}
use unimrcp.StartLine.Message.{Received, start_line-exchange}

abbrev speak : Line
speak = request_of 543257 (codes "SPEAK")

speak-IsLine : (v : Version) → IsLine speak v
unfolding starts_with
speak-IsLine v = (omega arith, (omega arith, ground arith), refl)

done-IsLine : IsLine (response_of 543257 200 complete) version_1
done-IsLine = (omega arith, omega arith, λ e. cc)

-- The stream with a SPEAK request, in front of the finalization.
abbrev written : TextStream
written = record {
  before = codes "MRCP/2.0        SPEAK 543257" ++ eol;
  rest = replicate 170 0;
  beyond = [];
  is_eos = false;
}

abbrev kept : StartLine
kept = start_line_of speak version_2 0 9

generate_run :
    start_line_generate print_cut (start_line_of speak version_2 0 0) (buffer 200)
    ≡ some (kept, written, true)
unfolding start_line_generate v2_start_line_generate v2_fields_generate method_fields_generate
    event_state_generate request_id_generate version_generate put eol_insert size_value_insert
    decimal decimal_from
generate_run = refl

abbrev header : Str
header = codes "Channel-Identifier: 32AE" ++ (eol ++ eol)

start_line-exchange_example :
    Received speak version_2 0 12 kept
      (record written { before = written.before ++ header })
      header
      (codes "Hello, world")
start_line-exchange_example =
    start_line-exchange print_cut speak version_2 0 12 kept (buffer 200) written
      (record written { before = written.before ++ header }) header (codes "Hello, world")
      print_cut-Prints (speak-IsLine version_2) (ground arith) (λ e. cc) (omega arith) refl
      generate_run refl (omega arith)

start_line_parse-text_example :
    start_line_parse
      (start_line_init 0)
      (field_of (finished_text (response_of 543257 200 complete) version_1 0) [])
    ≡ (start_line_of (response_of 543257 200 complete) version_1 0 0, true)
start_line_parse-text_example =
    start_line_parse-text (response_of 543257 200 complete) version_1 0 0 [] done-IsLine (λ e. cc)
      (omega arith) tt

start_line_finalize-length_example :
    (total : ℕ) × (total
      ≡ length (codes "MRCP/2.0 " ++ (decimal total ++ (token_sp ∷ (codes "SPEAK 543257" ++ eol))))
        + 40)
    × (start_line_finalize kept 40 written
        ≡ some (
            if ltb max_digit_count (length (decimal total)) then (kept, written, false) else (
              start_line_of speak version_2 0 total,
              record written {
                before =
                    codes "MRCP/2.0 "
                    ++ (decimal total ++ (token_sp ∷ (codes "SPEAK 543257" ++ eol)));
              },
              true,
            )))
start_line_finalize-length_example =
    start_line_finalize-length kept 40 written (codes "MRCP/2.0 ") (codes "SPEAK 543257" ++ eol)
      refl refl refl (omega arith)

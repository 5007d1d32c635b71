-- ===== src/StartLine/Written.antt =====
-- What the generation of a start-line writes, for both versions.
use unimrcp.Prelude.{
  ℕ, ◌+◌, ◌^◌, ◌≤◌, ◌<◌, ◌≡◌, ◌≢◌, refl, ap, true, some, [], ◌∷◌, ◌++◌, length, ◌==◌, ◌>>=◌, arith,
  length-append, lt→ltb,
}
use unimrcp.HeaderSection.{Str}
use unimrcp.Message.{
  StartLine, MessageType, untyped, request, response, event, Version, unversioned, version_1,
  version_2, status_code_unknown,
}
use unimrcp.TextStream.{TextStream, token_cr, token_lf}
use unimrcp.TextStream.Decimal.{decimal}
use unimrcp.TextStream.VarLength.{length-decimal_le}
use unimrcp.TextStream.Insert.{
  eol_insert, Prints, Written, Writes, put-Writes, bind-Writes, end-Writes, Written-trans,
  size_value_insert-Writes, if-Writes, none-Writes,
}
use unimrcp.StartLine.Generate.{
  request_state_generate, request_id_generate, status_code_generate, request_line_status,
  request_line_generate, response_line_generate, version_switch, v1_switch, start_line_generate,
  is_request, is_event,
}
use unimrcp.StartLine.Text.{
  response_text, length-response_text, length-v2_text, sp, state_text, version_text, status_text,
  request_line_text, response_line_text, v2_text, length-state_text, length-version_text,
  version_generate-Writes, response_fields_generate-Writes, v2_start_line_generate-text,
}

abbrev pub eol : Str
eol = token_cr ∷ token_lf ∷ []

-- The start-line of version 1.
abbrev pub v1_text : MessageType → StartLine → Str
v1_text response line = response_line_text line
v1_text _ line = request_line_text line

length-status_text : (line : StartLine) → line.status_code < 2 ^ 32 → length (status_text line) ≤ 12
length-status_text line hc = ground (
  arith,
  length-decimal_le 9 line.status_code,
  length-append (decimal line.status_code) sp,
  length-append (state_text line.request_state) sp,
  length-state_text line.request_state,
)

-- The start-line as it is written, less the end of line, and the offset that is kept as its length.
abbrev pub line_text : Version → StartLine → Str
line_text version_1 line = v1_text line.message_type line
line_text _ line = v2_text line

abbrev pub kept_length : Version → StartLine → ℕ
kept_length version_2 line = length (version_text line.version) + 1
kept_length _ line = line.length

length-request_line_text :
    (line : StartLine)
    → line.request_id < 2 ^ 32
    → line.status_code < 2 ^ 32
    → length (request_line_text line) ≤ length line.method_name + 60
length-request_line_text line hi hc =
    let tail = status_text line ++ version_text line.version in
    omega (
      arith,
      length-decimal_le 9 line.request_id,
      length-status_text line hc,
      length-version_text line.version,
      length-append line.method_name (sp ++ (decimal line.request_id ++ (sp ++ tail))),
      length-append (decimal line.request_id) (sp ++ tail),
      length-append (status_text line) (version_text line.version),
    )

length-line_text :
    (version : Version) (line : StartLine)
    → line.request_id < 2 ^ 32
    → line.status_code < 2 ^ 32
    → length (line_text version line) ≤ length line.method_name + 60
length-line_text version_1 line hi hc = go line.message_type
  where
    response_le : length (response_line_text line) ≤ length line.method_name + 60
    response_le = omega (
      arith,
      length-response_text line hi hc,
      length-version_text line.version,
      length-append (version_text line.version) (sp ++ response_text line),
    )

    go : (type : MessageType) → length (v1_text type line) ≤ length line.method_name + 60
    go response = response_le
    go untyped = length-request_line_text line hi hc
    go request = length-request_line_text line hi hc
    go event = length-request_line_text line hi hc
length-line_text version_2 line hi hc = length-v2_text line hi hc
length-line_text unversioned line hi hc = length-v2_text line hi hc

module _ (print : ℕ → ℕ → Str) (p : Prints print) where
  request_line_status-Writes :
      (line : StartLine) (s : TextStream)
      → line.status_code < 2 ^ 32
      → 13 ≤ length s.rest
      → Writes s (status_text line) (request_line_status print line s)
  unfolding request_line_status request_state_generate status_code_generate
  request_line_status-Writes line s hc h =
      let c = length-decimal_le 9 line.status_code (omega arith) in
      if-Writes (is_request line.message_type)
        (if-Writes (line.status_code == status_code_unknown) (none-Writes s) (
          bind-Writes _ (size_value_insert-Writes print s line.status_code p (omega arith))
            λ s w. put-Writes sp s (omega (arith, w.room))))
        (if-Writes (is_event line.message_type)
          (bind-Writes _
            (put-Writes (state_text line.request_state) s
              (omega (arith, length-state_text line.request_state)))
            λ s w. put-Writes sp s (omega (arith, w.room, length-state_text line.request_state)))
          (none-Writes s))

  request_line_generate-Writes :
      (line : StartLine) (s : TextStream)
      → line.request_id < 2 ^ 32
      → line.status_code < 2 ^ 32
      → length line.method_name + 80 ≤ length s.rest
      → Writes s (request_line_text line) (request_line_generate print line s)
  unfolding request_line_generate request_id_generate
  request_line_generate-Writes line s hi hc h =
      let i = length-decimal_le 9 line.request_id (omega arith) in
      bind-Writes _ (put-Writes line.method_name s (omega arith)) λ s w.
        bind-Writes _ (put-Writes sp s (omega (arith, w.room))) λ s w2.
          bind-Writes _
            (size_value_insert-Writes print s line.request_id p (omega (arith, w.room, w2.room)))
            λ s w3.
              bind-Writes _ (put-Writes sp s (omega (arith, w.room, w2.room, w3.room))) λ s w4.
                bind-Writes _
                  (request_line_status-Writes line s hc
                    (omega (arith, w.room, w2.room, w3.room, w4.room)))
                  λ s w5. end-Writes (
                    version_generate-Writes print p line.version s (
                      omega (
                        arith,
                        w.room,
                        w2.room,
                        w3.room,
                        w4.room,
                        w5.room,
                        length-status_text line hc,
                      )))

  response_line_generate-Writes :
      (line : StartLine) (s : TextStream)
      → line.request_id < 2 ^ 32
      → line.status_code < 2 ^ 32
      → 80 ≤ length s.rest
      → Writes s (response_line_text line) (response_line_generate print line s)
  unfolding response_line_generate
  response_line_generate-Writes line s hi hc h =
      bind-Writes _ (version_generate-Writes print p line.version s (omega arith)) λ s w.
        bind-Writes _ (put-Writes sp s (omega (arith, w.room, length-version_text line.version)))
          λ s w2.
            response_fields_generate-Writes print p line s hi hc
              (omega (arith, w.room, w2.room, length-version_text line.version))

  v1_switch-Writes :
      (type : MessageType) (line : StartLine) (s : TextStream)
      → type ≢ untyped
      → line.request_id < 2 ^ 32
      → line.status_code < 2 ^ 32
      → length line.method_name + 80 ≤ length s.rest
      → Writes s (v1_text type line) (v1_switch print type line s)
  v1_switch-Writes untyped line s t hi hc h = absurd (t refl)
  v1_switch-Writes request line s t hi hc h = request_line_generate-Writes line s hi hc h
  v1_switch-Writes response line s t hi hc h =
      response_line_generate-Writes line s hi hc (omega arith)
  v1_switch-Writes event line s t hi hc h = request_line_generate-Writes line s hi hc h

  version_switch-text :
      (version : Version) (line : StartLine) (s : TextStream)
      → version ≢ unversioned
      → line.message_type ≢ untyped
      → line.request_id < 2 ^ 32
      → line.status_code < 2 ^ 32
      → length line.method_name + 80 ≤ length s.rest
      → (t : TextStream) × (version_switch print version line s
          ≡ some (record line { length = kept_length version line }, t, true))
        × Written s (line_text version line) t
  version_switch-text unversioned line s v y hi hc h = absurd (v refl)
  version_switch-text version_1 line s v y hi hc h =
      let (t, e, w) = v1_switch-Writes line.message_type line s y hi hc h in
      (t, ap (λ r. r >>= λ (t, ok). some (line, t, ok)) e, w)
  version_switch-text version_2 line s v y hi hc h =
      v2_start_line_generate-text print p line s hi hc h

  -- With room for the name and 100 bytes more, a start-line of a known version and type is written
  -- in full with an end of line behind it, and the function returns TRUE. Identifier and status code
  -- are 32-bit numbers, and `apr_snprintf` is assumed to print as it documents.
  pub start_line_generate-text :
      (line : StartLine) (s : TextStream)
      → line.version ≢ unversioned
      → line.message_type ≢ untyped
      → line.request_id < 2 ^ 32
      → line.status_code < 2 ^ 32
      → length line.method_name + 100 ≤ length s.rest
      → (t : TextStream) × (start_line_generate print line s
          ≡ some (record line { length = kept_length line.version line }, t, true))
        × Written s (line_text line.version line ++ eol) t
  unfolding start_line_generate eol_insert
  start_line_generate-text line s v y hi hc h =
      let (t, e, w) = version_switch-text line.version line s v y hi hc (omega arith) in
      let b = length-line_text line.version line hi hc in
      let (u, e', w') = put-Writes eol t (omega (arith, w.room, b)) in
      (u, rw (e, lt→ltb 2 (length t.rest) (omega (arith, w.room, b)), e') refl, Written-trans w w')

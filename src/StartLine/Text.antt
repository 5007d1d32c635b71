-- ===== src/StartLine/Text.antt =====
-- The text of a start-line, and that the generation writes it.
use unimrcp.Prelude.{
  ℕ, ◌+◌, ◌^◌, ◌≤◌, ◌<◌, ◌≡◌, ap, true, some, [], ◌∷◌, ◌++◌, length, replicate, ◌==◌, if◌then◌else◌,
  arith, length-append, leb-false,
}
use unimrcp.HeaderSection.{Str}
use unimrcp.Message.{
  StartLine, Version, unversioned, version_1, version_2, RequestState, complete, in_progress,
  pending, unknown, status_code_unknown,
}
use unimrcp.StringTable.{str_get}
use unimrcp.TextStream.{TextStream, token_sp}
use unimrcp.TextStream.Decimal.{decimal}
use unimrcp.TextStream.VarLength.{length-decimal_le}
use unimrcp.TextStream.Insert.{
  Prints, Written, Writes, put-Writes, bind-Writes, end-Writes, size_value_insert-Writes, if-Writes,
  none-Writes, Written-trans,
}
use unimrcp.StartLine.{mrcp_name, request_state_string_table}
use unimrcp.StartLine.Generate.{
  max_digit_count, version_number, state_number, name_or_nothing, request_state_generate,
  version_generate, request_id_generate, status_code_generate, event_state_generate,
  response_fields_generate, method_fields_generate, v2_fields_generate, v2_start_line_generate,
  is_request, is_event, is_response,
}

abbrev pub state_text : RequestState → Str
state_text state = name_or_nothing (str_get request_state_string_table (state_number state))

abbrev pub sp : Str
sp = token_sp ∷ []

abbrev pub version_text : Version → Str
version_text version =
    mrcp_name ++ ((b'/' ∷ []) ++ (decimal (version_number version) ++ (b'.' ∷ b'0' ∷ [])))

abbrev pub response_text : StartLine → Str
response_text line =
    decimal line.request_id
    ++ (sp ++ (decimal line.status_code ++ (sp ++ state_text line.request_state)))

abbrev pub event_state_text : StartLine → Str
event_state_text line =
    if is_event line.message_type then sp ++ state_text line.request_state else []

abbrev pub method_text : StartLine → Str
method_text line = line.method_name ++ (sp ++ (decimal line.request_id ++ event_state_text line))

-- What follows the length of a message in the start-line of version 2.
abbrev pub v2_fields_text : StartLine → Str
v2_fields_text line = if is_response line.message_type then response_text line else method_text line

-- What a request line has between the identifier and the version.
abbrev pub status_text : StartLine → Str
status_text line =
    if is_request line.message_type
    then if line.status_code == status_code_unknown then [] else decimal line.status_code ++ sp
    else if is_event line.message_type
    then state_text line.request_state ++ sp
    else []

abbrev pub request_line_text : StartLine → Str
request_line_text line =
    line.method_name
    ++ (sp ++ (decimal line.request_id ++ (sp ++ (status_text line ++ version_text line.version))))

abbrev pub response_line_text : StartLine → Str
response_line_text line = version_text line.version ++ (sp ++ response_text line)

-- The start-line of version 2 in front of the finalization, with room for the length.
abbrev pub v2_text : StartLine → Str
v2_text line =
    version_text line.version
    ++ (sp ++ (replicate (max_digit_count + 1) token_sp ++ v2_fields_text line))

pub length-state_text : (state : RequestState) → length (state_text state) ≤ 11
unfolding str_get
length-state_text complete = omega arith
length-state_text in_progress = omega arith
length-state_text pending = omega arith
length-state_text unknown = omega arith

version_digit : (version : Version) → length (decimal (version_number version)) ≤ 1
version_digit unversioned = length-decimal_le 0 0 (omega arith)
version_digit version_1 = length-decimal_le 0 1 (omega arith)
version_digit version_2 = length-decimal_le 0 2 (omega arith)

pub length-version_text : (version : Version) → length (version_text version) ≤ 8
length-version_text version = omega (
  arith,
  length-append (decimal (version_number version)) (b'.' ∷ b'0' ∷ []),
  version_digit version,
)

pub length-response_text :
    (line : StartLine)
    → line.request_id < 2 ^ 32
    → line.status_code < 2 ^ 32
    → length (response_text line) ≤ 33
length-response_text line hi hc = omega (
  arith,
  length-decimal_le 9 line.request_id,
  length-decimal_le 9 line.status_code,
  length-state_text line.request_state,
  length-append (decimal line.request_id)
      (sp ++ (decimal line.status_code ++ (sp ++ state_text line.request_state))),
  length-append (decimal line.status_code) (sp ++ state_text line.request_state),
)

length-event_state_text : (line : StartLine) → length (event_state_text line) ≤ 12
length-event_state_text line = ground (arith, length-state_text line.request_state)

length-method_text :
    (line : StartLine)
    → line.request_id < 2 ^ 32
    → length (method_text line) ≤ length line.method_name + 23
length-method_text line hi = omega (
  arith,
  length-decimal_le 9 line.request_id,
  length-event_state_text line,
  length-append line.method_name (sp ++ (decimal line.request_id ++ event_state_text line)),
  length-append (decimal line.request_id) (event_state_text line),
)

length-v2_fields_text :
    (line : StartLine)
    → line.request_id < 2 ^ 32
    → line.status_code < 2 ^ 32
    → length (v2_fields_text line) ≤ length line.method_name + 33
length-v2_fields_text line hi hc =
    ground (arith, length-response_text line hi hc, length-method_text line hi)

pub length-v2_text :
    (line : StartLine)
    → line.request_id < 2 ^ 32
    → line.status_code < 2 ^ 32
    → length (v2_text line) ≤ length line.method_name + 60
length-v2_text line hi hc = omega (
  arith,
  length-v2_fields_text line hi hc,
  length-version_text line.version,
  length-append (version_text line.version)
      (sp ++ (replicate (max_digit_count + 1) token_sp ++ v2_fields_text line)),
)

module _ (print : ℕ → ℕ → Str) (p : Prints print) where
  pub version_generate-Writes :
      (version : Version) (s : TextStream)
      → 16 ≤ length s.rest
      → Writes s (version_text version) (version_generate print version s)
  unfolding version_generate
  version_generate-Writes version s h = rw (leb-false (length s.rest) 5 (omega arith)) (
      bind-Writes _ (put-Writes mrcp_name s (omega arith)) λ s w.
        bind-Writes _ (put-Writes (b'/' ∷ []) s (omega (arith, w.room))) λ s w2.
          bind-Writes _
            (size_value_insert-Writes print s (version_number version) p
              (omega (arith, w.room, w2.room, version_digit version)))
            λ s w3.
              rw
                (leb-false (length s.rest) 2
                  (omega (arith, w.room, w2.room, w3.room, version_digit version)))
                (put-Writes (b'.' ∷ b'0' ∷ []) s
                  (omega (arith, w.room, w2.room, w3.room, version_digit version))))

  pub response_fields_generate-Writes :
      (line : StartLine) (s : TextStream)
      → line.request_id < 2 ^ 32
      → line.status_code < 2 ^ 32
      → 40 ≤ length s.rest
      → Writes s (response_text line) (response_fields_generate print line s)
  unfolding response_fields_generate request_id_generate status_code_generate request_state_generate
  response_fields_generate-Writes line s hi hc h =
      let i = length-decimal_le 9 line.request_id (omega arith) in
      let c = length-decimal_le 9 line.status_code (omega arith) in
      bind-Writes _ (size_value_insert-Writes print s line.request_id p (omega arith)) λ s w.
        bind-Writes _ (put-Writes sp s (omega (arith, w.room))) λ s w2.
          bind-Writes _
            (size_value_insert-Writes print s line.status_code p (omega (arith, w.room, w2.room)))
            λ s w3.
              bind-Writes _ (put-Writes sp s (omega (arith, w.room, w2.room, w3.room))) λ s w4.
                end-Writes (
                  put-Writes (state_text line.request_state) s (
                    omega (
                      arith,
                      w.room,
                      w2.room,
                      w3.room,
                      w4.room,
                      length-state_text line.request_state,
                    )))

  event_state_generate-Writes :
      (line : StartLine) (s : TextStream)
      → 12 ≤ length s.rest
      → Writes s (event_state_text line) (event_state_generate print line s)
  unfolding event_state_generate request_state_generate
  event_state_generate-Writes line s h =
      if-Writes (is_event line.message_type)
        (bind-Writes _ (put-Writes sp s (omega arith)) λ s w. end-Writes (
          put-Writes (state_text line.request_state) s
            (omega (arith, w.room, length-state_text line.request_state))))
        (none-Writes s)

  method_fields_generate-Writes :
      (line : StartLine) (s : TextStream)
      → line.request_id < 2 ^ 32
      → length line.method_name + 40 ≤ length s.rest
      → Writes s (method_text line) (method_fields_generate print line s)
  unfolding method_fields_generate request_id_generate
  method_fields_generate-Writes line s hi h =
      let i = length-decimal_le 9 line.request_id (omega arith) in
      bind-Writes _ (put-Writes line.method_name s (omega arith)) λ s w.
        bind-Writes _ (put-Writes sp s (omega (arith, w.room))) λ s w2.
          bind-Writes _
            (size_value_insert-Writes print s line.request_id p (omega (arith, w.room, w2.room)))
            λ s w3. event_state_generate-Writes line s (omega (arith, w.room, w2.room, w3.room))

  v2_fields_generate-Writes :
      (line : StartLine) (s : TextStream)
      → line.request_id < 2 ^ 32
      → line.status_code < 2 ^ 32
      → length line.method_name + 40 ≤ length s.rest
      → Writes s (v2_fields_text line) (v2_fields_generate print line s)
  unfolding v2_fields_generate
  v2_fields_generate-Writes line s hi hc h =
      if-Writes (is_response line.message_type)
        (response_fields_generate-Writes line s hi hc (omega arith))
        (method_fields_generate-Writes line s hi h)

  pub v2_start_line_generate-text :
      (line : StartLine) (s : TextStream)
      → line.request_id < 2 ^ 32
      → line.status_code < 2 ^ 32
      → length line.method_name + 80 ≤ length s.rest
      → (t : TextStream) × (v2_start_line_generate print line s
          ≡ some (record line { length = length (version_text line.version) + 1 }, t, true))
        × Written s (v2_text line) t
  unfolding v2_start_line_generate
  v2_start_line_generate-text line s hi hc h =
      let (t, e, w) = version_generate-Writes line.version s (omega arith) in
      let short : length (version_text line.version) ≤ 8 =
        omega (arith, length-version_text line.version) in
      let (t2, e2, w2) = put-Writes sp t (omega (arith, w.room)) in
      let (t3, e3, w3) =
        put-Writes (replicate (max_digit_count + 1) token_sp) t2 (omega (arith, w.room, w2.room)) in
      let (t4, e4, w4) =
        v2_fields_generate-Writes line t3 hi hc (omega (arith, w.room, w2.room, w3.room)) in
      (
        t4,
        rw (e, e2, e3, e4)
            (ap (λ n. some (record line { length = n }, t4, true))
              (omega (
                arith,
                ap length w.text,
                ap length w2.text,
                length-append s.before (version_text line.version),
                length-append t.before sp,
              ))),
        Written-trans w (Written-trans w2 (Written-trans w3 w4)),
      )

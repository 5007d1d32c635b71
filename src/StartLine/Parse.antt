-- ===== src/StartLine/Parse.antt =====
-- Start-lines that are read from the text of a line.
use mathlib.Core.Path.{ap₂}
use mathlib.Core.List.{append-nil}
use unimrcp.Prelude.{
  ℕ, ◌^◌, ◌<◌, ◌≡◌, ◌≢◌, refl, ap, ◌∙◌, Bool, true, false, not, ◌&&◌, [], ◌++◌, get_or, ◌==◌,
  if◌then◌else◌,
}
use unimrcp.HeaderSection.{Str}
use unimrcp.Message.{
  StartLine, untyped, request, response, event, Version, version_1, version_2, RequestState,
  unknown, start_line_init,
}
use unimrcp.TextStream.{
  string_copy, TextStream, TextField, token_sp, field_read, spaces_skip, field_scan, advance,
  run_length,
}
use unimrcp.TextStream.Fields.{at, field_read-last}
use unimrcp.TextStream.Decimal.{decimal, EndsNumber}
use unimrcp.StartLine.{
  mrcp_name, with_field, starts_with, status_parse, response_fields_parse, event_state_parse,
  method_fields_parse, v2_fields_parse, v2_start_line_parse, request_state_parse, request_id_parse,
}
use unimrcp.StartLine.Text.{sp, state_text, version_text, v2_fields_text}
use unimrcp.StartLine.Written.{v1_text}
use unimrcp.StartLine.Fields.{
  field_of, string_copy-field_of, with_field-separated, with_field-last, decimal-IsField,
  state_text-IsField, request_id_parse-decimal, status_code_parse-decimal, size_value_parse-decimal,
  request_state_parse-state_text, IsName, IsName-IsField, request_id_parse-name, name_first,
  number_first,
}

-- What a start-line says.
pub data Line : Type 0 where
  request_of : ℕ → Str → Line
  event_of : ℕ → Str → RequestState → Line
  response_of : ℕ → ℕ → RequestState → Line

-- The start-line for it, of a version, a method identifier and a length.
abbrev pub start_line_of : Line → Version → ℕ → ℕ → StartLine
start_line_of (request_of id name) v method_id n = record {
  message_type = request;
  version = v;
  length = n;
  request_id = id;
  method_name = name;
  method_id = method_id;
  status_code = 0;
  request_state = unknown;
}
start_line_of (event_of id name state) v method_id n = record {
  message_type = event;
  version = v;
  length = n;
  request_id = id;
  method_name = name;
  method_id = method_id;
  status_code = 0;
  request_state = state;
}
start_line_of (response_of id code state) v method_id n = record {
  message_type = response;
  version = v;
  length = n;
  request_id = id;
  method_name = [];
  method_id = method_id;
  status_code = code;
  request_state = state;
}

-- Numbers have 32 bits, states are known, and names start with a letter and have no space. In
-- version 1, where a name stands first, it does not start with the protocol's name.
abbrev pub IsLine : Line → Version → Type 0
IsLine (request_of id name) v =
    (id < 2 ^ 32) × IsName name × (starts_with mrcp_name (name ++ sp) ≡ false)
IsLine (event_of id name state) v =
    (id < 2 ^ 32) × IsName name × (starts_with mrcp_name (name ++ sp) ≡ false) × (state ≢ unknown)
IsLine (response_of id code state) v = (id < 2 ^ 32) × (code < 2 ^ 32) × (state ≢ unknown)

-- The finished start-line: version 2 has the length behind the version.
abbrev pub finished_text : Line → Version → ℕ → Str
finished_text l version_1 n =
    let line = start_line_of l version_1 0 0 in v1_text line.message_type line
finished_text l v n =
    version_text v ++ (sp ++ (decimal n ++ (sp ++ v2_fields_text (start_line_of l v 0 0))))

-- The text before a stream's position once a field and its separator are read.
abbrev pub after : Str → Str → Str
after b f = b ++ (f ++ sp)

-- The end of a response line.
status_parse-text :
    (line : StartLine) (b m : Str) (e : Bool) (code : ℕ) (state : RequestState)
    → code < 2 ^ 32
    → state ≢ unknown
    → status_parse line (at b (decimal code ++ (sp ++ state_text state)) m e)
      ≡ (record line { status_code = code; request_state = state }, true)
unfolding status_parse
status_parse-text line b m e code state hc hs =
    with_field-separated line b (decimal code) m e (decimal-IsField code) (state_text state) _
    ∙ with_field-last _ _ (state_text state) m e (state_text-IsField state hs) _
    ∙ ap₂ (λ c s. (record line { status_code = c; request_state = s }, true))
        (status_code_parse-decimal code _ hc refl) (request_state_parse-state_text state m hs)

pub response_fields_parse-text :
    (line : StartLine) (b m : Str) (e : Bool) (id code : ℕ) (state : RequestState)
    → id < 2 ^ 32
    → code < 2 ^ 32
    → state ≢ unknown
    → response_fields_parse line
        (at b (decimal id ++ (sp ++ (decimal code ++ (sp ++ state_text state)))) m e)
      ≡ (record line { request_id = id; status_code = code; request_state = state }, true)
unfolding response_fields_parse
response_fields_parse-text line b m e id code state hi hc hs =
    with_field-separated line b (decimal id) m e (decimal-IsField id) _ _
    ∙ ap
        (λ i.
          status_parse (record line { request_id = i })
            (at (after b (decimal id)) (decimal code ++ (sp ++ state_text state)) m e))
        (request_id_parse-decimal id _ hi refl)
    ∙ status_parse-text _ (after b (decimal id)) m e code state hc hs

-- A last field that is there makes an event.
event_state_parse-text :
    (line : StartLine) (b m : Str) (e : Bool) (state : RequestState)
    → state ≢ unknown
    → event_state_parse line (at b (state_text state) m e)
      ≡ (record line { request_state = state; message_type = event }, true)
unfolding event_state_parse
event_state_parse-text line b m e state hs =
    ap
      (λ (t, field, ok).
        if ok
        then (record line { request_state = request_state_parse field; message_type = event }, true)
        else (line, true))
      (field_read-last b (state_text state) token_sp m e (state_text-IsField state hs))
    ∙ ap (λ s. (record line { request_state = s; message_type = event }, true))
        (request_state_parse-state_text state m hs)

-- No field is left.
event_state_parse-none :
    (line : StartLine) (b m : Str) (e : Bool) → event_state_parse line (at b [] m e) ≡ (line, true)
unfolding event_state_parse field_read spaces_skip field_scan advance run_length
event_state_parse-none line b m e = refl

-- The text of a start-line of version 2 from the length on.
abbrev pub v2_rest : Line → ℕ → Str
v2_rest l n = decimal n ++ (sp ++ v2_fields_text (start_line_of l version_2 0 0))

-- What the parser has when it reads the length: the version is known.
abbrev pub started : Version → ℕ → StartLine
started v method_id = record (start_line_init method_id) { message_type = untyped; version = v }

module _ (b m : Str) (e : Bool) (hm : EndsNumber m) where
  method_fields_parse-request :
      (line : StartLine) (id : ℕ)
      → id < 2 ^ 32
      → method_fields_parse line (at b (decimal id ++ []) m e)
        ≡ (record line { request_id = id }, true)
  unfolding method_fields_parse
  method_fields_parse-request line id hi =
      ap (λ r. with_field line (at b r m e) next) (append-nil (decimal id))
      ∙ with_field-last line b (decimal id) m e (decimal-IsField id) next
      ∙ ap (λ i. event_state_parse (record line { request_id = i }) (at (b ++ decimal id) [] m e))
          (request_id_parse-decimal id m hi hm)
      ∙ event_state_parse-none _ (b ++ decimal id) m e
    where
      next : TextStream → TextField → StartLine × Bool
      next s field = event_state_parse (record line { request_id = request_id_parse field }) s

  method_fields_parse-event :
      (line : StartLine) (id : ℕ) (state : RequestState)
      → id < 2 ^ 32
      → state ≢ unknown
      → method_fields_parse line (at b (decimal id ++ (sp ++ state_text state)) m e)
        ≡ (record line { request_id = id; request_state = state; message_type = event }, true)
  unfolding method_fields_parse
  method_fields_parse-event line id state hi hs =
      with_field-separated line b (decimal id) m e (decimal-IsField id) _ _
      ∙ ap
          (λ i.
            event_state_parse (record line { request_id = i })
              (at (after b (decimal id)) (state_text state) m e))
          (request_id_parse-decimal id _ hi refl)
      ∙ event_state_parse-text _ (after b (decimal id)) m e state hs

  -- A name in front of the other fields.
  v2_fields_parse-name :
      (line : StartLine) (name r : Str)
      → IsName name
      → v2_fields_parse line (at b (name ++ (sp ++ r)) m e)
        ≡ method_fields_parse
            (record line { request_id = 0; message_type = request; method_name = name })
            (at (after b name) r m e)
  unfolding v2_fields_parse
  v2_fields_parse-name line name r h =
      with_field-separated line b name m e (IsName-IsField name h) r _
      ∙ ap₂ (λ i first. by_test ((i == 0) && not first) i (string_copy field))
          (request_id_parse-name name (sp ++ (r ++ m)) h) (name_first name (sp ++ (r ++ m)) h)
      ∙ ap (by_test true 0) (string_copy-field_of name (sp ++ (r ++ m)))
    where
      field : TextField
      field = field_of name (sp ++ (r ++ m))

      by_test : Bool → ℕ → Str → StartLine × Bool
      by_test test i text =
          if test
          then method_fields_parse
              (record line { request_id = i; message_type = request; method_name = text })
              (at (after b name) r m e)
          else status_parse (record line { request_id = i; message_type = response })
              (at (after b name) r m e)

  v2_fields_parse-response :
      (line : StartLine) (id code : ℕ) (state : RequestState)
      → id < 2 ^ 32
      → code < 2 ^ 32
      → state ≢ unknown
      → v2_fields_parse line
          (at b (decimal id ++ (sp ++ (decimal code ++ (sp ++ state_text state)))) m e)
        ≡ (
          record line {
            request_id = id;
            message_type = response;
            status_code = code;
            request_state = state;
          },
          true,
        )
  unfolding v2_fields_parse
  v2_fields_parse-response line id code state hi hc hs =
      with_field-separated line b (decimal id) m e (decimal-IsField id) rest _
      ∙ ap (λ i. by_test ((i == 0) && not (get_or field.buf 0 0 == b'0')) i)
          (request_id_parse-decimal id (sp ++ (rest ++ m)) hi refl)
      ∙ ap (λ test. by_test test id) (number_first id (sp ++ (rest ++ m)))
      ∙ status_parse-text _ (after b (decimal id)) m e code state hc hs
    where
      rest : Str
      rest = decimal code ++ (sp ++ state_text state)

      field : TextField
      field = field_of (decimal id) (sp ++ (rest ++ m))

      by_test : Bool → ℕ → StartLine × Bool
      by_test test i =
          if test
          then method_fields_parse
              (record line {
                request_id = i;
                message_type = request;
                method_name = string_copy field;
              })
              (at (after b (decimal id)) rest m e)
          else status_parse (record line { request_id = i; message_type = response })
              (at (after b (decimal id)) rest m e)

module _ (m : Str) (hm : EndsNumber m) (method_id n : ℕ) (hn : n < 2 ^ 63) where
  -- The fields behind the length, for what a line says.
  v2_fields_parse-text :
      (l : Line) (b : Str) (e : Bool)
      → IsLine l version_2
      → v2_fields_parse
          (record (started version_2 method_id) { length = n })
          (at b (v2_fields_text (start_line_of l version_2 0 0)) m e)
        ≡ (start_line_of l version_2 method_id n, true)
  unfolding start_line_init
  v2_fields_parse-text (request_of id name) b e h =
      v2_fields_parse-name b m e hm _ name (decimal id ++ []) h.1
      ∙ method_fields_parse-request (after b name) m e hm _ id h.0
  v2_fields_parse-text (event_of id name state) b e h =
      v2_fields_parse-name b m e hm _ name (decimal id ++ (sp ++ state_text state)) h.1
      ∙ method_fields_parse-event (after b name) m e hm _ id state h.0 h.3
  v2_fields_parse-text (response_of id code state) b e h =
      v2_fields_parse-response b m e hm _ id code state h.0 h.1 h.2

  pub v2_start_line_parse-text :
      (l : Line) (b : Str) (e : Bool)
      → IsLine l version_2
      → v2_start_line_parse (started version_2 method_id) (at b (v2_rest l n) m e)
        ≡ (start_line_of l version_2 method_id n, true)
  unfolding v2_start_line_parse
  v2_start_line_parse-text l b e h =
      with_field-separated _ b (decimal n) m e (decimal-IsField n) _ _
      ∙ ap
          (λ k.
            v2_fields_parse (record (started version_2 method_id) { length = k })
              (at (after b (decimal n)) (v2_fields_text (start_line_of l version_2 0 0)) m e))
          (size_value_parse-decimal n _ hn refl)
      ∙ v2_fields_parse-text l (after b (decimal n)) e h

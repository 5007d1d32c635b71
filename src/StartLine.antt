-- ===== src/StartLine.antt =====
-- Parsing of the start-line of a message (libs/mrcp/message/src/mrcp_start_line.c). The log output
-- of a refusal is left out.
pub mod Generate
pub mod Text
pub mod Written
pub mod Finalize
pub mod Fields
pub mod Parse
pub mod RoundTrip
pub mod Exchange
pub mod Message
mod Tests
use unimrcp.Prelude.{
  ℕ, zero, suc, ◌%◌, ◌^◌, Bool, true, false, not, ◌&&◌, ◌||◌, Option, none, some, List, [], ◌∷◌,
  length, get_or, drop, leb, ◌==◌, if◌then◌else◌,
}
use unimrcp.HeaderSection.{Str}
use unimrcp.Message.{
  StartLine, MessageType, untyped, request, response, event, Version, unversioned, version_1,
  version_2, RequestState, complete, in_progress, pending, unknown,
}
use unimrcp.StringTable.{equal_nocase, TableItem, id_find}
use unimrcp.TextStream.{TextStream, TextField, codes, string_copy, stream_of, token_sp, field_read}
use unimrcp.TextStream.Decimal.{atol}

-- The string table of request states; `mrcp_request_state_e` numbers them in this order.
abbrev pub request_state_string_table : List TableItem
request_state_string_table =
    record { value = codes "COMPLETE"; key = 0 }
    ∷ record { value = codes "IN-PROGRESS"; key = 0 }
    ∷ record { value = codes "PENDING"; key = 0 }
    ∷ []

abbrev pub request_state_of : ℕ → RequestState
request_state_of zero = complete
request_state_of (suc zero) = in_progress
request_state_of (suc (suc zero)) = pending
request_state_of _ = unknown

abbrev pub mrcp_name : Str
mrcp_name = codes "MRCP"

-- A field is longer than the name where the code reads behind the name.
unfoldable pub version_parse : TextField → Version
version_parse field =
    if leb field.length (length mrcp_name)
      || not (equal_nocase (length mrcp_name) field.buf mrcp_name)
    then unversioned
    else (let pos = drop (length mrcp_name) field.buf in
        if get_or pos 0 0 == b'/'
        then if get_or pos 1 0 == b'1'
          then version_1
          else if get_or pos 1 0 == b'2'
          then version_2
          else unversioned
        else unversioned)

unfoldable pub request_state_parse : TextField → RequestState
request_state_parse field =
    request_state_of (id_find request_state_string_table (string_copy field))

-- A request identifier is a `uint32_t`, as is the type of the status codes.
unfoldable pub request_id_parse : TextField → ℕ
request_id_parse field = atol field.buf % 2 ^ 32

unfoldable pub status_code_parse : TextField → ℕ
status_code_parse field = atol field.buf % 2 ^ 32

unfoldable pub size_value_parse : TextField → ℕ
size_value_parse field = atol field.buf

-- Reads the next field, and goes on with it or returns FALSE.
unfoldable pub with_field :
    StartLine → TextStream → (TextStream → TextField → StartLine × Bool) → StartLine × Bool
with_field line s next =
    let (t, field, ok) = field_read s token_sp true in if ok then next t field else (line, false)

abbrev pub is_unknown : RequestState → Bool
is_unknown unknown = true
is_unknown _ = false

abbrev pub is_unversioned : Version → Bool
is_unversioned unversioned = true
is_unversioned _ = false

-- The end of `mrcp_request_line_parse`.
unfoldable pub set_version : StartLine → TextField → StartLine × Bool
set_version line field =
    let version = version_parse field in
    (record line { version = version }, not (is_unversioned version))

-- What follows the request identifier: a state, which an event has, or the version.
unfoldable pub state_or_version :
    StartLine → RequestState → TextStream → TextField → StartLine × Bool
state_or_version line state s field =
    if is_unknown state
    then set_version (record line { request_state = state; message_type = request }) field
    else with_field (record line { request_state = state; message_type = event }) s
        λ s field. set_version (record line { request_state = state; message_type = event }) field

unfoldable pub request_line_parse : StartLine → TextStream → StartLine × Bool
request_line_parse line s = with_field line s λ s field.
    let line : StartLine = record line { request_id = request_id_parse field } in
    with_field line s λ s field. state_or_version line (request_state_parse field) s field

-- The status code and the request state, which end a response line of either version.
unfoldable pub status_parse : StartLine → TextStream → StartLine × Bool
status_parse line s = with_field line s λ s field.
    let line : StartLine = record line { status_code = status_code_parse field } in
    with_field line s λ s field. (record line { request_state = request_state_parse field }, true)

unfoldable pub response_fields_parse : StartLine → TextStream → StartLine × Bool
response_fields_parse line s =
    with_field line s
      λ s field. status_parse (record line { request_id = request_id_parse field }) s

abbrev is_version_2 : Version → Bool
is_version_2 version_2 = true
is_version_2 _ = false

unfoldable pub response_line_parse : StartLine → TextStream → StartLine × Bool
response_line_parse line s =
    let line : StartLine = record line { length = 0 } in
    if is_version_2 line.version
    then (with_field line s
        λ s field. response_fields_parse (record line { length = size_value_parse field }) s)
    else response_fields_parse line s

-- The last field of an event; a request has none.
unfoldable pub event_state_parse : StartLine → TextStream → StartLine × Bool
event_state_parse line s =
    let (t, field, ok) = field_read s token_sp true in
    if ok
    then (record line { request_state = request_state_parse field; message_type = event }, true)
    else (line, true)

-- The fields of a request or an event that follow its name.
unfoldable pub method_fields_parse : StartLine → TextStream → StartLine × Bool
method_fields_parse line s =
    with_field line s
      λ s field. event_state_parse (record line { request_id = request_id_parse field }) s

-- The fields from the request identifier of a response, or from the name, on. A field that is no
-- number is the name of a method or an event.
unfoldable pub v2_fields_parse : StartLine → TextStream → StartLine × Bool
v2_fields_parse line s = with_field line s λ s field.
    let line : StartLine = record line { request_id = request_id_parse field } in
    if (line.request_id == 0) && not (get_or field.buf 0 0 == b'0')
    then method_fields_parse
        (record line { message_type = request; method_name = string_copy field }) s
    else status_parse (record line { message_type = response }) s

unfoldable pub v2_start_line_parse : StartLine → TextStream → StartLine × Bool
v2_start_line_parse line s =
    with_field line s λ s field. v2_fields_parse (record line { length = size_value_parse field }) s

-- `strstr(text, name) == text`
unfoldable pub starts_with : Str → Str → Bool
starts_with [] text = true
starts_with (c ∷ name) [] = false
starts_with (c ∷ name) (d ∷ text) = (c == d) && starts_with name text

-- The parser that the version selects.
unfoldable pub versioned_parse : StartLine → TextStream → StartLine × Bool
versioned_parse line s = elim line.version [
  | version_1 ↦ response_line_parse (record line { message_type = response }) s
  | version_2 ↦ v2_start_line_parse line s
  | unversioned ↦ (line, false)
]

unfoldable pub start_line_parse : StartLine → TextField → StartLine × Bool
start_line_parse line text =
    let line : StartLine = record line { message_type = untyped } in
    with_field line (stream_of text) λ s field.
      if starts_with mrcp_name field.buf
      then versioned_parse (record line { version = version_parse field }) s
      else request_line_parse (record line { method_name = string_copy field }) s

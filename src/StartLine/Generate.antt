-- ===== src/StartLine/Generate.antt =====
-- Generation of the start-line of a message, and its finalization once the length of the message is
-- known (libs/mrcp/message/src/mrcp_start_line.c). The statuses of the insertions that the code
-- ignores are ignored here. As in TextStream.Insert, a write past the end of the stream is `none`,
-- and `print` stands for `apr_snprintf`.
use unimrcp.Prelude.{
  ℕ, ◌+◌, ◌-◌, ◌%◌, ◌^◌, Bool, true, false, not, ◌&&◌, Option, none, some, [], ◌∷◌, ◌++◌, length,
  replicate, take, drop, leb, ◌==◌, if◌then◌else◌, ◌>>=◌,
}
use unimrcp.HeaderSection.{Str}
use unimrcp.Message.{
  StartLine, MessageType, untyped, request, response, event, Version, unversioned, version_1,
  version_2, RequestState, complete, in_progress, pending, unknown, status_code_unknown,
}
use unimrcp.StringTable.{str_get}
use unimrcp.TextStream.{TextStream, token_sp}
use unimrcp.TextStream.Insert.{put, eol_insert, size_value_insert}
use unimrcp.TextStream.Values.{var_length_value_generate}
use unimrcp.StartLine.{mrcp_name, request_state_string_table}

abbrev pub max_digit_count : ℕ
max_digit_count = 6

-- `mrcp_version_e` and `mrcp_request_state_e` as numbers
abbrev pub version_number : Version → ℕ
version_number unversioned = 0
version_number version_1 = 1
version_number version_2 = 2

abbrev pub state_number : RequestState → ℕ
state_number complete = 0
state_number in_progress = 1
state_number pending = 2
state_number unknown = 3

-- The name of a state; nothing is written for an unknown one.
abbrev pub name_or_nothing : Option Str → Str
name_or_nothing none = []
name_or_nothing (some name) = name

unfoldable pub request_state_generate : RequestState → TextStream → Option (TextStream × Bool)
request_state_generate state s =
    put (name_or_nothing (str_get request_state_string_table (state_number state))) s

abbrev pub is_request : MessageType → Bool
is_request request = true
is_request _ = false

abbrev pub is_event : MessageType → Bool
is_event event = true
is_event _ = false

abbrev pub is_response : MessageType → Bool
is_response response = true
is_response _ = false

module _ (print : ℕ → ℕ → Str) where
  unfoldable pub version_generate : Version → TextStream → Option (TextStream × Bool)
  version_generate version s =
      if leb (length s.rest) (length mrcp_name + 1) then some (s, false) else do
        (s, _) ← put mrcp_name s
        (s, _) ← put (b'/' ∷ []) s
        (s, ok) ← size_value_insert print s (version_number version)
        if ok && not (leb (length s.rest) 2) then put (b'.' ∷ b'0' ∷ []) s else some (s, false)

  unfoldable pub request_id_generate : ℕ → TextStream → Option (TextStream × Bool)
  request_id_generate id s = size_value_insert print s id

  unfoldable pub status_code_generate : ℕ → TextStream → Option (TextStream × Bool)
  status_code_generate code s = size_value_insert print s code

  -- What a request line has between the identifier and the version.
  unfoldable pub request_line_status : StartLine → TextStream → Option (TextStream × Bool)
  request_line_status line s =
      if is_request line.message_type
      then (if line.status_code == status_code_unknown
          then some (s, true)
          else do (s, _) ← status_code_generate line.status_code s; put (token_sp ∷ []) s)
      else if is_event line.message_type
      then (do (s, _) ← request_state_generate line.request_state s; put (token_sp ∷ []) s)
      else some (s, true)

  unfoldable pub request_line_generate : StartLine → TextStream → Option (TextStream × Bool)
  request_line_generate line s = do
    (s, _) ← put line.method_name s
    (s, _) ← put (token_sp ∷ []) s
    (s, _) ← request_id_generate line.request_id s
    (s, _) ← put (token_sp ∷ []) s
    (s, _) ← request_line_status line s
    (s, _) ← version_generate line.version s
    some (s, true)

  -- The fields of a response that follow the version or the length.
  unfoldable pub response_fields_generate : StartLine → TextStream → Option (TextStream × Bool)
  response_fields_generate line s = do
    (s, _) ← request_id_generate line.request_id s
    (s, _) ← put (token_sp ∷ []) s
    (s, _) ← status_code_generate line.status_code s
    (s, _) ← put (token_sp ∷ []) s
    (s, _) ← request_state_generate line.request_state s
    some (s, true)

  unfoldable pub response_line_generate : StartLine → TextStream → Option (TextStream × Bool)
  response_line_generate line s = do
    (s, _) ← version_generate line.version s
    (s, _) ← put (token_sp ∷ []) s
    response_fields_generate line s

  unfoldable pub event_state_generate : StartLine → TextStream → Option (TextStream × Bool)
  event_state_generate line s =
      if is_event line.message_type
      then (do
        (s, _) ← put (token_sp ∷ []) s
        (s, _) ← request_state_generate line.request_state s
        some (s, true))
      else some (s, true)

  unfoldable pub method_fields_generate : StartLine → TextStream → Option (TextStream × Bool)
  method_fields_generate line s = do
    (s, _) ← put line.method_name s
    (s, _) ← put (token_sp ∷ []) s
    (s, _) ← request_id_generate line.request_id s
    event_state_generate line s

  unfoldable pub v2_fields_generate : StartLine → TextStream → Option (TextStream × Bool)
  v2_fields_generate line s =
      if is_response line.message_type
      then response_fields_generate line s
      else method_fields_generate line s

  -- The line keeps the offset of the length in its field `length`.
  unfoldable pub v2_start_line_generate :
      StartLine → TextStream → Option (StartLine × TextStream × Bool)
  v2_start_line_generate line s = do
    (t, _) ← version_generate line.version s
    (t, _) ← put (token_sp ∷ []) t
    (u, _) ← put (replicate (max_digit_count + 1) token_sp) t
    (u, ok) ← v2_fields_generate line u
    some (record line { length = length t.before - length s.before }, u, ok)

  -- The `switch` over the type of the message.
  abbrev pub v1_switch : MessageType → StartLine → TextStream → Option (TextStream × Bool)
  v1_switch request line s = request_line_generate line s
  v1_switch response line s = response_line_generate line s
  v1_switch event line s = request_line_generate line s
  v1_switch untyped line s = some (s, false)

  -- The branch for the version.
  abbrev pub version_switch :
      Version → StartLine → TextStream → Option (StartLine × TextStream × Bool)
  version_switch version_1 line s = do
    (s, ok) ← v1_switch line.message_type line s
    some (line, s, ok)
  version_switch version_2 line s = v2_start_line_generate line s
  version_switch unversioned line s = some (line, s, false)

  unfoldable pub start_line_generate :
      StartLine → TextStream → Option (StartLine × TextStream × Bool)
  start_line_generate line s = do
    (line, s, ok) ← version_switch line.version line s
    (s, ok) ← if ok then eol_insert s else some (s, false)
    some (line, s, ok)

-- The length in decimal and a space at `offset`, with the text in front of them moved up to the
-- space behind the place that was reserved. `none` is a write past the text.
unfoldable pub length_insert : Str → ℕ → Str → Option Str
length_insert text offset digits =
    if leb (offset + length digits + 1) (length text)
    then (let spaced =
          take offset text ++ (digits ++ (token_sp ∷ drop (offset + length digits + 1) text)) in
        let moved = offset + length digits in
        let shift = max_digit_count - length digits in
        some (take moved spaced ++ drop (shift + moved) spaced))
    else none

-- What the finalization does with the length and its text.
abbrev pub length_write :
    StartLine → TextStream → ℕ → Option Str → Option (StartLine × TextStream × Bool)
length_write line s value none = some (line, s, false)
length_write line s value (some digits) = do
  before ← length_insert s.before line.length digits
  some (record line { length = value }, record s { before = before }, true)

-- The branch of the finalization for version 2. `text.buf` moves up with the start of the text.
unfoldable pub v2_finalize : StartLine → ℕ → TextStream → Option (StartLine × TextStream × Bool)
v2_finalize line length' s = do
  (value, text) ←
      var_length_value_generate ((length' + 2 ^ 64 - max_digit_count) % 2 ^ 64) max_digit_count
  length_write line s value text

abbrev pub finalize_switch :
    Version → StartLine → ℕ → TextStream → Option (StartLine × TextStream × Bool)
finalize_switch version_2 line length' s = v2_finalize line length' s
finalize_switch _ line length' s = some (record line { length = length' }, s, true)

unfoldable pub start_line_finalize :
    StartLine → ℕ → TextStream → Option (StartLine × TextStream × Bool)
start_line_finalize line content_length s =
    finalize_switch line.version line (length s.before + content_length) s

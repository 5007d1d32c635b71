-- ===== src/StartLine/RoundTrip.antt =====
-- A start-line is read back from its text.
use mathlib.Core.List.{append_assoc}
use unimrcp.Prelude.{
  ℕ, ◌^◌, ◌<◌, ◌≡◌, ◌≢◌, refl, ap, ◌∙◌, Bool, true, false, not, [], ◌++◌, if◌then◌else◌, arith,
}
use unimrcp.HeaderSection.{Str}
use unimrcp.Message.{
  StartLine, untyped, request, event, Version, unversioned, version_1, version_2, RequestState,
  complete, in_progress, pending, unknown, start_line_init,
}
use unimrcp.TextStream.{TextStream, TextField, string_copy}
use unimrcp.TextStream.Fields.{at}
use unimrcp.TextStream.Decimal.{decimal, EndsNumber}
use unimrcp.StartLine.{
  mrcp_name, with_field, starts_with, is_unversioned, set_version, state_or_version,
  request_line_parse, response_line_parse, versioned_parse, start_line_parse, request_state_parse,
  version_parse,
}
use unimrcp.StartLine.Text.{sp, state_text, version_text}
use unimrcp.StartLine.Fields.{
  field_of, stream_of-field_of, string_copy-field_of, with_field-separated, with_field-last,
  decimal-IsField, version_text-IsField, state_text-IsField, request_id_parse-decimal,
  request_state_parse-state_text, version_parse-version_text, IsName, IsName-IsField,
  request_state_parse-version_text, starts_with-version_text, starts_with-space,
}
use unimrcp.StartLine.Parse.{
  Line, request_of, event_of, response_of, start_line_of, IsLine, finished_text, after, v2_rest,
  response_fields_parse-text, v2_start_line_parse-text,
}

v1_known : version_1 ≢ unversioned
v1_known e = cc

-- The version at the end of a request line or an event line of version 1.
set_version-text :
    (line : StartLine) (m : Str)
    → set_version line (field_of (version_text version_1) m)
      ≡ (record line { version = version_1 }, true)
unfolding set_version
set_version-text line m =
    ap (λ v. (record line { version = v }, not (is_unversioned v)))
      (version_parse-version_text version_1 m)

state_or_version-known :
    (line : StartLine) (state : RequestState) (s : TextStream) (f : TextField)
    → state ≢ unknown
    → state_or_version line state s f
      ≡ with_field
          (record line { request_state = state; message_type = event })
          s
          λ s field. set_version (record line { request_state = state; message_type = event }) field
unfolding state_or_version
state_or_version-known line unknown s f h = absurd (h refl)
state_or_version-known line complete s f h = refl
state_or_version-known line in_progress s f h = refl
state_or_version-known line pending s f h = refl

module _ (b m : Str) (e : Bool) where
  request_line_parse-request :
      (line : StartLine) (id : ℕ)
      → id < 2 ^ 32
      → request_line_parse line (at b (decimal id ++ (sp ++ version_text version_1)) m e) ≡ (
        record line {
          request_id = id;
          request_state = unknown;
          message_type = request;
          version = version_1;
        },
        true,
      )
  unfolding request_line_parse state_or_version
  request_line_parse-request line id hi =
      let s = at (after b (decimal id)) (version_text version_1) m e in
      with_field-separated line b (decimal id) m e (decimal-IsField id) (version_text version_1) _
      ∙ ap
          (λ i.
            with_field (record line { request_id = i }) s
              λ s field.
                state_or_version (record line { request_id = i }) (request_state_parse field) s
                  field)
          (request_id_parse-decimal id _ hi refl)
      ∙ with_field-last _ (after b (decimal id)) (version_text version_1) m e
          (version_text-IsField version_1 v1_known) _
      ∙ ap
          (λ state.
            state_or_version (record line { request_id = id }) state
              (at (after b (decimal id) ++ version_text version_1) [] m e)
              (field_of (version_text version_1) m))
          (request_state_parse-version_text version_1 m)
      ∙ set_version-text _ m

  request_line_parse-event :
      (line : StartLine) (id : ℕ) (state : RequestState)
      → id < 2 ^ 32
      → state ≢ unknown
      → request_line_parse line
          (at b (decimal id ++ (sp ++ (state_text state ++ (sp ++ version_text version_1)))) m e)
        ≡ (
          record line {
            request_id = id;
            request_state = state;
            message_type = event;
            version = version_1;
          },
          true,
        )
  unfolding request_line_parse state_or_version
  request_line_parse-event line id state hi hs =
      let tail : Str = sp ++ version_text version_1 in
      let b' = after b (decimal id) in
      let s = at (after b' (state_text state)) (version_text version_1) m e in
      with_field-separated line b (decimal id) m e (decimal-IsField id) (state_text state ++ tail) _
      ∙ ap
          (λ i.
            with_field (record line { request_id = i }) (at b' (state_text state ++ tail) m e)
              λ s field.
                state_or_version (record line { request_id = i }) (request_state_parse field) s
                  field)
          (request_id_parse-decimal id _ hi refl)
      ∙ with_field-separated _ b' (state_text state) m e (state_text-IsField state hs)
          (version_text version_1) _
      ∙ ap
          (λ st.
            state_or_version (record line { request_id = id }) st s
              (field_of (state_text state) (sp ++ (version_text version_1 ++ m))))
          (request_state_parse-state_text state _ hs)
      ∙ state_or_version-known (record line { request_id = id }) state s _ hs
      ∙ with_field-last _ (after b' (state_text state)) (version_text version_1) m e
          (version_text-IsField version_1 v1_known) _
      ∙ set_version-text _ m

-- A known version in front is not read as a name, and selects the parser.
versioned_first :
    (v : Version) (l : StartLine) (r m : Str)
    → v ≢ unversioned
    → start_line_parse l (field_of (version_text v ++ (sp ++ r)) m)
      ≡ versioned_parse
          (record l { message_type = untyped; version = v })
          (at (after [] (version_text v)) r m false)
unfolding start_line_parse
versioned_first v l r m h =
    ap (λ s. with_field line s next) (stream_of-field_of (version_text v ++ (sp ++ r)) m)
    ∙ with_field-separated line [] (version_text v) m false (version_text-IsField v h) r next
    ∙ ap (λ test. by_test test (version_parse field)) (starts_with-version_text v (sp ++ (r ++ m)))
    ∙ ap (by_test true) (version_parse-version_text v (sp ++ (r ++ m)))
  where
    line : StartLine
    line = record l { message_type = untyped }

    next : TextStream → TextField → StartLine × Bool
    next s field =
        if starts_with mrcp_name field.buf
        then versioned_parse (record line { version = version_parse field }) s
        else request_line_parse (record line { method_name = string_copy field }) s

    field : TextField
    field = field_of (version_text v) (sp ++ (r ++ m))

    by_test : Bool → Version → StartLine × Bool
    by_test test w =
        let s = at (after [] (version_text v)) r m false in
        if test
        then versioned_parse (record line { version = w }) s
        else request_line_parse (record line { method_name = string_copy field }) s

-- A name in front is read as one if it does not start with the name of the protocol.
name_first :
    (l : StartLine) (name r m : Str)
    → IsName name
    → starts_with mrcp_name (name ++ sp) ≡ false
    → start_line_parse l (field_of (name ++ (sp ++ r)) m)
      ≡ request_line_parse
          (record l { message_type = untyped; method_name = name })
          (at (after [] name) r m false)
unfolding start_line_parse
name_first l name r m h p =
    ap (λ s. with_field line s next) (stream_of-field_of (name ++ (sp ++ r)) m)
    ∙ with_field-separated line [] name m false (IsName-IsField name h) r next
    ∙ ap (λ test. by_test test (string_copy field))
        (starts_with-space mrcp_name name (r ++ m) (ground arith) ∙ p)
    ∙ ap (by_test false) (string_copy-field_of name (sp ++ (r ++ m)))
  where
    line : StartLine
    line = record l { message_type = untyped }

    next : TextStream → TextField → StartLine × Bool
    next s field =
        if starts_with mrcp_name field.buf
        then versioned_parse (record line { version = version_parse field }) s
        else request_line_parse (record line { method_name = string_copy field }) s

    field : TextField
    field = field_of name (sp ++ (r ++ m))

    by_test : Bool → Str → StartLine × Bool
    by_test test text =
        let s = at (after [] name) r m false in
        if test
        then versioned_parse (record line { version = version_parse field }) s
        else request_line_parse (record line { method_name = text }) s

-- The length that the parser finds: version 1 has none.
abbrev pub read_length : Version → ℕ → ℕ
read_length version_2 n = n
read_length _ n = 0

-- The text of a valid start-line of a known version, with any memory behind it that starts with no
-- digit, is parsed to that start-line. The length, below 2 ^ 63, is read in version 2.
pub start_line_parse-text :
    (l : Line) (v : Version) (method_id n : ℕ) (m : Str)
    → IsLine l v
    → v ≢ unversioned
    → n < 2 ^ 63
    → EndsNumber m
    → start_line_parse (start_line_init method_id) (field_of (finished_text l v n) m)
      ≡ (start_line_of l v method_id (read_length v n), true)
unfolding start_line_init versioned_parse response_line_parse
start_line_parse-text l unversioned method_id n m h known hn hm = absurd (known refl)
start_line_parse-text l version_2 method_id n m h known hn hm =
    versioned_first version_2 _ (v2_rest l n) m known
    ∙ v2_start_line_parse-text m hm method_id n hn l (after [] (version_text version_2)) false h
start_line_parse-text (request_of id name) version_1 method_id n m h known hn hm =
    name_first _ name (decimal id ++ (sp ++ version_text version_1)) m h.1 h.2
    ∙ request_line_parse-request (after [] name) m false _ id h.0
start_line_parse-text (event_of id name state) version_1 method_id n m h known hn hm =
    ap
      (λ r.
        start_line_parse (start_line_init method_id)
          (field_of (name ++ (sp ++ (decimal id ++ (sp ++ r)))) m))
      (append_assoc (state_text state) sp (version_text version_1))
    ∙ name_first _ name (decimal id ++ (sp ++ (state_text state ++ (sp ++ version_text version_1))))
        m h.1 h.2
    ∙ request_line_parse-event (after [] name) m false _ id state h.0 h.3
start_line_parse-text (response_of id code state) version_1 method_id n m h known hn hm =
    versioned_first version_1 _ (decimal id ++ (sp ++ (decimal code ++ (sp ++ state_text state)))) m
      known
    ∙ response_fields_parse-text _ (after [] (version_text version_1)) m false id code state h.0 h.1
        h.2

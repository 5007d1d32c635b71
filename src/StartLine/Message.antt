-- ===== src/StartLine/Message.antt =====
-- A message from one side to the other: its start-line is generated, other text is put behind it, the
-- length is written, and the receiver reads the first line.
use mathlib.Core.Option.{some-injective}
use unimrcp.Prelude.{
  ℕ, suc, ◌+◌, ◌^◌, ◌≤◌, ◌<◌, ◌≡◌, ◌≢◌, refl, sym, ap, ◌∙◌, Bool, true, false, some, [], ◌∷◌, ◌++◌,
  length, All, All-append, arith,
}
use mathlib.Core.List.{append_assoc}
use unimrcp.HeaderSection.{Str}
use unimrcp.Message.{
  StartLine, Version, unversioned, version_1, version_2, untyped, start_line_init, RequestState,
  complete, in_progress, pending, unknown,
}
use unimrcp.StringTable.{str_get}
use unimrcp.TextStream.{TextStream, TextField, is_eol, line_read}
use unimrcp.TextStream.Decimal.{decimal, decimal_from, IsDigit, All-decimal_from}
use unimrcp.TextStream.Insert.{Prints}
use unimrcp.TextStream.Fields.{at, line_read-crlf}
use unimrcp.StartLine.{start_line_parse}
use unimrcp.StartLine.Generate.{start_line_generate, start_line_finalize}
use unimrcp.StartLine.Text.{sp, version_text, state_text}
use unimrcp.StartLine.Written.{eol, line_text, kept_length, start_line_generate-text}
use unimrcp.StartLine.Fields.{field_of}
use unimrcp.StartLine.Parse.{
  Line, request_of, event_of, response_of, start_line_of, IsLine, finished_text,
}
use unimrcp.StartLine.RoundTrip.{read_length, start_line_parse-text}
use unimrcp.StartLine.Exchange.{
  finalize_known, line_text-start_line_of, length-start_line_of, version-start_line_of, with_length,
}

-- The name of a request or an event.
abbrev pub name_of : Line → Str
name_of (request_of id name) = name
name_of (event_of id name state) = name
name_of (response_of id code state) = []

abbrev pub NoEol : Str → Type 0
NoEol s = All (λ c. is_eol c ≡ false) s

NoEol-digits : (s : Str) → All IsDigit s → NoEol s
NoEol-digits [] h = tt
NoEol-digits (c ∷ cs) h = (ground (arith, h.0), NoEol-digits cs h.1)

NoEol-decimal : (n : ℕ) → NoEol (decimal n)
unfolding decimal
NoEol-decimal n = NoEol-digits (decimal_from (suc n) n) (All-decimal_from (suc n) n)

NoEol-state_text : (state : RequestState) → NoEol (state_text state)
unfolding str_get
NoEol-state_text complete = ground arith
NoEol-state_text in_progress = ground arith
NoEol-state_text pending = ground arith
NoEol-state_text unknown = tt

NoEol-append : (s t : Str) → NoEol s → NoEol t → NoEol (s ++ t)
NoEol-append s t hs ht = All-append _ s t hs ht

NoEol-version_text : (v : Version) → NoEol (version_text v)
unfolding decimal decimal_from
NoEol-version_text unversioned = ground arith
NoEol-version_text version_1 = ground arith
NoEol-version_text version_2 = ground arith

NoEol-sp : (t : Str) → NoEol t → NoEol (sp ++ t)
NoEol-sp t h = (refl, h)

ruleset eol_rules = (NoEol-sp, NoEol-append, NoEol-decimal, NoEol-state_text, NoEol-version_text)

NoEol-finished_text :
    (l : Line) (v : Version) (n : ℕ)
    → v ≢ unversioned
    → NoEol (name_of l)
    → NoEol (finished_text l v n)
NoEol-finished_text l unversioned n known h = absurd (known refl)
NoEol-finished_text (request_of id name) version_2 n known h = search eol_rules depth 9
NoEol-finished_text (event_of id name state) version_2 n known h = search eol_rules depth 9
NoEol-finished_text (response_of id code state) version_2 n known h = search eol_rules depth 9
NoEol-finished_text (request_of id name) version_1 n known h = search eol_rules depth 9
NoEol-finished_text (event_of id name state) version_1 n known h = search eol_rules depth 9
NoEol-finished_text (response_of id code state) version_1 n known h = search eol_rules depth 9

-- What the generation needs of a start-line.
start_line_of-facts :
    (l : Line) (v : Version) (method_id : ℕ)
    → IsLine l v
    → let line = start_line_of l v method_id 0 in
      (line.message_type ≢ untyped)
      × (line.request_id < 2 ^ 32)
      × (line.status_code < 2 ^ 32)
      × (line.method_name ≡ name_of l)
start_line_of-facts (request_of id name) v method_id h = (λ e. cc, h.0, omega arith, refl)
start_line_of-facts (event_of id name state) v method_id h = (λ e. cc, h.0, omega arith, refl)
start_line_of-facts (response_of id code state) v method_id h = (λ e. cc, h.0, h.1, refl)

kept_length-start_line_of :
    (l : Line) (v : Version) (method_id : ℕ)
    → kept_length v (start_line_of l v method_id 0) ≡ kept_length v (start_line_of l v 0 0)
kept_length-start_line_of l version_2 method_id =
    ap (λ w. length (version_text w) + 1)
      (version-start_line_of l version_2 method_id 0 ∙ sym (version-start_line_of l version_2 0 0))
kept_length-start_line_of l version_1 method_id =
    length-start_line_of l version_1 method_id 0 ∙ sym (length-start_line_of l version_1 0 0)
kept_length-start_line_of l unversioned method_id =
    length-start_line_of l unversioned method_id 0 ∙ sym (length-start_line_of l unversioned 0 0)

module _ (print : ℕ → ℕ → Str) (p : Prints print) (l : Line) (v : Version) (method_id : ℕ) where
  -- What the generation writes at the start of a stream.
  generated :
      (s : TextStream)
      → IsLine l v
      → v ≢ unversioned
      → length (name_of l) + 100 ≤ length s.rest
      → s.before ≡ []
      → (t : TextStream) × (start_line_generate print (start_line_of l v method_id 0) s
          ≡ some (start_line_of l v method_id (kept_length v (start_line_of l v 0 0)), t, true))
        × (t.before ≡ line_text v (start_line_of l v 0 0) ++ eol)
  generated s h known room empty =
      let line = start_line_of l v method_id 0 in
      let ev = version-start_line_of l v method_id 0 in
      let (ht, hi, hc, hn) = start_line_of-facts l v method_id h in
      let (t, run, w) =
        start_line_generate-text print p line s (λ e. known (sym ev ∙ e)) ht hi hc
          (omega (arith, ap length hn)) in
      (
        t,
        run
            ∙ ap (λ line. some (line, t, true))
                (with_length l v method_id 0 _
                  ∙ ap (start_line_of l v method_id)
                      (ap (λ w. kept_length w line) ev ∙ kept_length-start_line_of l v method_id)),
        w.text
            ∙ ap (λ b. b ++ (line_text line.version line ++ eol)) empty
            ∙ ap (λ b. b ++ eol)
                (ap (λ w. line_text w line) ev ∙ line_text-start_line_of l v method_id 0),
      )

-- The finalization of a stream returns TRUE, with the length of the whole message in the start-line,
-- and a receiver whose stream has the result in front of any memory reads a first line that is parsed
-- to the same start-line, with the length that its version has, and is left with the header.
pub Received : Line → Version → ℕ → ℕ → StartLine → TextStream → Str → Str → Type 0
Received l v method_id content_length line u header m =
    (total : ℕ) × (w : TextStream) × (first : TextField) × (start_line_finalize line content_length
        u
      ≡ some (start_line_of l v method_id total, w, true))
    × (total ≡ length w.before + content_length)
    × (line_read (at [] w.before m false)
        ≡ (at (finished_text l v total ++ eol) header m false, first, true))
    × (start_line_parse (start_line_init method_id) first
        ≡ (start_line_of l v method_id (read_length v total), true))

-- A valid start-line of a known version, without an end of line in its name, is generated at the
-- start of a stream with room for the name and 100 bytes more; then any text is put behind it, so
-- that the message has less than 999999 bytes with its content; and the start-line is finalized.
-- The finalization returns TRUE, and the length in the start-line is the number of bytes of the
-- message. A receiver that reads the first line of the result, with any memory behind it, and
-- parses it gets the same start-line, with the length in version 2 and 0 in version 1, and the text
-- that was put behind. `apr_snprintf` is assumed to print as it documents.
pub start_line-exchange :
    (print : ℕ → ℕ → Str) (l : Line) (v : Version) (method_id content_length : ℕ) (line : StartLine)
    (s t u : TextStream) (header m : Str)
    → Prints print
    → IsLine l v
    → NoEol (name_of l)
    → v ≢ unversioned
    → length (name_of l) + 100 ≤ length s.rest
    → s.before ≡ []
    → start_line_generate print (start_line_of l v method_id 0) s ≡ some (line, t, true)
    → u.before ≡ t.before ++ header
    → length u.before + content_length < 999999
    → Received l v method_id content_length line u header m
unfolding Received
start_line-exchange print l v method_id content_length line s t u header m p h hn known room empty
      run behind small =
    let (t', run', text) = generated print p l v method_id s h known room empty in
    let same = some-injective _ _ (sym run ∙ run') in
    let line_eq : line ≡ start_line_of l v method_id (kept_length v (start_line_of l v 0 0)) =
      ap (λ (r : StartLine × TextStream × Bool). r.0) same in
    let before : u.before ≡ line_text v (start_line_of l v 0 0) ++ (eol ++ header) =
      behind
      ∙ ap (λ (r : StartLine × TextStream × Bool). r.1.before ++ header) same
      ∙ ap (λ b. b ++ header) text
      ∙ append_assoc (line_text v (start_line_of l v 0 0)) eol header in
    let (total, bound, sum, final) =
      finalize_known l (eol ++ header) v method_id content_length u known before small in
    (
      total,
      record u { before = finished_text l v total ++ (eol ++ header) },
      field_of (finished_text l v total) (eol ++ (header ++ m)),
      ap (λ line. start_line_finalize line content_length u) line_eq ∙ final,
      sum,
      line_read-crlf [] (finished_text l v total) header m false
          (NoEol-finished_text l v total known hn),
      start_line_parse-text l v method_id total (eol ++ (header ++ m)) h known (omega arith) refl,
    )

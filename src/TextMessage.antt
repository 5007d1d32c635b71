-- ===== src/TextMessage.antt =====
-- Header fields and header sections in text (libs/apr-toolkit/src/apt_text_message.c). Loops run on
-- fuel; `none` is a loop that ran out of it, or a write past the end of a stream.
pub mod Laws
pub mod RoundTrip
mod Tests
use unimrcp.Prelude.{
  ℕ, zero, suc, Bool, true, false, not, Option, none, some, List, [], ◌∷◌, ◌++◌, length, ◌==◌,
  if◌then◌else◌, ◌>>=◌,
}
use unimrcp.HeaderSection.{Str, HeaderField, HeaderSection, field_alloc, field_add}
use unimrcp.TextStream.{
  TextStream, TextField, Pair, string_copy, is_wsp, advance, white_spaces_skip, line_read,
  header_read, is_eos,
}
use unimrcp.TextStream.Insert.{eol_insert, name_value_insert}

-- What a round of the loop over folded lines starts with.
abbrev pub folds : Str → Bool
folds [] = false
folds (c ∷ cs) = is_wsp c

-- The text of a line that was read; a line without an end is not kept.
abbrev pub kept_line : TextField → Bool → Str
kept_line line true = string_copy line
kept_line line false = []

-- The loop over the lines that go on with the value; `folded` is the text of those before.
unfoldable pub fold_loop : ℕ → TextStream → Str → Option (TextStream × Str)
fold_loop zero s folded = none
fold_loop (suc fuel) s folded = elim (folds s.rest) [
  | false ↦ some (s, folded)
  | true ↦
      let (t, line, ok) = line_read (white_spaces_skip (advance 1 s)) in
      fold_loop fuel t (folded ++ kept_line line ok)
]

-- Only a field with a name has folded lines. Each round takes a byte at least.
abbrev pub folded_lines : Bool → TextStream → Option (TextStream × Str)
folded_lines true s = some (s, [])
folded_lines false s = fold_loop (suc (length s.rest)) s []

-- The field that is read, or `none` for a malformed one.
abbrev pub read_field : TextStream → Pair → Bool → Option (TextStream × Option HeaderField)
read_field t pair true = do
  (u, folded) ← folded_lines (length (string_copy pair.name) == 0) t
  some (
    u,
    some (record field_alloc {
      name = string_copy pair.name;
      value = string_copy pair.value ++ folded;
    }),
  )
read_field t pair false = some (t, none)

unfoldable pub header_field_parse : TextStream → Option (TextStream × Option HeaderField)
header_field_parse s = let (t, pair, ok) = header_read s in read_field t pair ok

unfoldable pub header_field_generate : HeaderField → TextStream → Option (TextStream × Bool)
header_field_generate f s = name_value_insert s f.name f.value

-- Whether the loop over the fields goes on after a field, and the section with the field.
abbrev pub is_empty_field : Option HeaderField → Bool
is_empty_field none = false
is_empty_field (some f) = length f.name == 0

abbrev pub add_field : HeaderSection → Option HeaderField → HeaderSection
add_field h none = h
add_field h (some f) = (field_add h f).0

-- The results after an empty field, at the end of the stream, and else.
abbrev pub by_end {ℓ} : {A : Type ℓ} → Bool → Bool → A → A → A → A
by_end true eos x y z = x
by_end false true x y z = y
by_end false false x y z = z

unfoldable pub section_loop :
    ℕ → HeaderSection → TextStream → Option (HeaderSection × TextStream × Bool)
section_loop zero h s = none
section_loop (suc fuel) h s = do
  (t, field) ← header_field_parse s
  by_end (is_empty_field field) (is_eos t) (some (h, t, true)) (some (add_field h field, t, false))
      (section_loop fuel (add_field h field) t)

-- A round reads a line at least, or finds the end of the stream.
unfoldable pub header_section_parse :
    HeaderSection → TextStream → Option (HeaderSection × TextStream × Bool)
header_section_parse h s = section_loop (suc (length s.rest)) h s

-- The results of the fields are ignored.
unfoldable pub fields_generate : List HeaderField → TextStream → Option (TextStream × Bool)
fields_generate [] s = eol_insert s
fields_generate (f ∷ fs) s = do (s, _) ← header_field_generate f s; fields_generate fs s

unfoldable pub header_section_generate : HeaderSection → TextStream → Option (TextStream × Bool)
header_section_generate h s = fields_generate h.ring s

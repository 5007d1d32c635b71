-- ===== src/TextStream/Pairs.antt =====
-- Arrays of name=value pairs in text (libs/apr-toolkit/src/apt_pair.c and apt_text_stream.c). A string
-- of a pair is the list of its bytes, which is empty for NULL. `pushed` is what `apr_array_push` leaves
-- in a new element.
use unimrcp.Prelude.{
  ℕ, zero, suc, ◌+◌, ◌-◌, Bool, true, false, Option, none, some, List, [], ◌∷◌, ◌++◌, length, ◌==◌,
  if◌then◌else◌,
}
use unimrcp.HeaderSection.{Str}
use unimrcp.StringTable.{string_compare}
use unimrcp.TextStream.{TextStream, TextField, stream_of, string_copy, field_read}

-- `apt_pair_array_append` with strings that are set
abbrev pub pair_array_append : List (Str × Str) → Str → Str → List (Str × Str)
pair_array_append arr name value = arr ++ ((name, value) ∷ [])

unfoldable pub pair_array_find : List (Str × Str) → Str → Option (Str × Str)
pair_array_find [] name = none
pair_array_find (p ∷ ps) name =
    let rest = pair_array_find ps name in if string_compare p.0 name then some p else rest

abbrev pub pair_value : TextStream × TextField × Bool → Str
pair_value (t, item, true) = string_copy item
pair_value (t, item, false) = []

-- What `apt_pair_parse` makes of the pair it is given and of the name it reads.
abbrev pub pair_of : Str × Str → TextStream × TextField × Bool → Str × Str
pair_of pair (t, item, true) = (string_copy item, pair_value (field_read t b';' true))
pair_of pair (t, item, false) = pair

unfoldable pub pair_parse : Str × Str → TextField → Str × Str
pair_parse pair field = pair_of pair (field_read (stream_of field) b'=' true)

-- The loop of `apt_pair_array_parse`, on fuel; `none` is a loop that ran out of it.
unfoldable pub pairs_parse :
    Str × Str → ℕ → TextStream → List (Str × Str) → Option (List (Str × Str))
pairs_parse pushed zero s arr = none
pairs_parse pushed (suc fuel) s arr =
    let (t, field, ok) = field_read s b';' true in
    elim ok [
      | false ↦ some arr
      | true ↦ pairs_parse pushed fuel t (arr ++ (pair_parse pushed field ∷ []))
    ]

-- A round that goes on takes a byte at least.
unfoldable pub pair_array_parse :
    Str × Str → List (Str × Str) → TextField → Option (List (Str × Str))
pair_array_parse pushed arr value = pairs_parse pushed (suc value.length) (stream_of value) arr

-- The length that is computed for a pair, and that for the array.
unfoldable pub pair_length : Str × Str → ℕ
pair_length (name, value) = length name + (if length value == 0 then 0 else 1 + length value)

unfoldable pub pairs_length : List (Str × Str) → ℕ
pairs_length [] = 0
pairs_length (p ∷ ps) = pair_length p + pairs_length ps

abbrev pub pair_array_length : List (Str × Str) → ℕ
pair_array_length arr = pairs_length arr + (length arr - 1)

-- The bytes that are copied for a pair; a pair without a name has none.
unfoldable pub pair_text : Str × Str → Str
pair_text ([], value) = []
pair_text (c ∷ cs, []) = c ∷ cs
pair_text (c ∷ cs, d ∷ ds) = (c ∷ cs) ++ (b'=' ∷ d ∷ ds)

-- Those of the pairs behind the first.
unfoldable pub pairs_text_rest : List (Str × Str) → Str
pairs_text_rest [] = []
pairs_text_rest (p ∷ ps) = b';' ∷ (pair_text p ++ pairs_text_rest ps)

unfoldable pub pair_array_text : List (Str × Str) → Str
pair_array_text [] = []
pair_array_text (p ∷ ps) = pair_text p ++ pairs_text_rest ps

-- The string, with the NUL and the memory behind it.
unfoldable pub pair_array_generate : List (Str × Str) → Str → TextField
pair_array_generate arr m = record {
  buf = pair_array_text arr ++ (0 ∷ m);
  length = pair_array_length arr;
}

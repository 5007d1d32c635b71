-- ===== src/TextStream.antt =====
-- The text stream of libs/apr-toolkit/include/apt_text_stream.h and src/apt_text_stream.c: reading
-- of lines, header fields and separated fields. A `char *` into a text is the list of the bytes
-- from there to the end of its memory.

pub mod Decimal
pub mod Insert
pub mod Fields
pub mod Headers
pub mod Pairs
pub mod Fixture
mod Tests
pub mod Values
pub mod VarLength
use Prim.Native.Char.{code}
use Prim.Native.String.{String}
use unimrcp.Prelude.{
  ℕ, suc, ◌+◌, ◌-◌, Bool, true, false, not, ◌&&◌, ◌||◌, Option, none, some, List, [], ◌∷◌, ◌++◌,
  length, take, drop, ltb, ◌==◌, if◌then◌else◌,
}
use unimrcp.HeaderSection.{Str}

-- The bytes of a literal, which is ASCII everywhere below.
abbrev pub codes : String → Str
codes String.[] = []
codes (String.◌∷◌ c s) = code c ∷ codes s

-- APT_TOKEN_SP, APT_TOKEN_HTAB, APT_TOKEN_CR and APT_TOKEN_LF
abbrev pub token_sp : ℕ
token_sp = 0x20

abbrev pub token_htab : ℕ
token_htab = 0x09

abbrev pub token_cr : ℕ
token_cr = 0x0D

abbrev pub token_lf : ℕ
token_lf = 0x0A

-- `apt_str_t` that points into a text: the bytes from `buf` on, of which `length` belong to it.
pub record TextField : Type 0 where
  pub buf : Str
  pub length : ℕ

-- The bytes that `apt_string_copy` takes from a field.
abbrev pub string_copy : TextField → Str
string_copy f = take f.length f.buf

-- `apt_text_stream_t`: the bytes from `text.buf` to `pos`, those from `pos` to `end`, and the memory
-- after `end`. `text.length` is the length of `before` and `rest`, as `apt_text_stream_reset` makes
-- it.
pub record TextStream : Type 0 where
  pub before : Str
  pub rest : Str
  pub beyond : Str
  pub is_eos : Bool

unfoldable pub stream_reset : TextStream → TextStream
stream_reset s = record s { before = []; rest = s.before ++ s.rest; is_eos = false }

-- A stream over a field of a text.
unfoldable pub stream_of : TextField → TextStream
stream_of f = record {
  before = [];
  rest = take f.length f.buf;
  beyond = drop f.length f.buf;
  is_eos = false;
}

-- `pos += n`, within the stream
unfoldable pub advance : ℕ → TextStream → TextStream
advance n s = record s { before = s.before ++ take n s.rest; rest = drop n s.rest }

-- The rounds of `while(pos < end && p(*pos)) pos++`.
unfoldable pub run_length : (ℕ → Bool) → Str → ℕ
run_length p [] = 0
run_length p (c ∷ cs) = let n = run_length p cs in if p c then suc n else 0

abbrev pub is_wsp : ℕ → Bool
is_wsp c = (c == token_sp) || (c == token_htab)

unfoldable pub spaces_skip : TextStream → TextStream
spaces_skip s = advance (run_length (λ c. c == token_sp) s.rest) s

unfoldable pub white_spaces_skip : TextStream → TextStream
white_spaces_skip s = advance (run_length is_wsp s.rest) s

unfoldable pub skip_to_char : TextStream → ℕ → TextStream
skip_to_char s ch = advance (run_length (λ c. not (c == ch)) s.rest) s

-- What `apt_text_field_read` does after the skipping of spaces.
unfoldable pub field_scan : TextStream → ℕ → TextStream × TextField × Bool
field_scan s separator =
    let n = run_length (λ c. not (c == separator)) s.rest in
    let separators = if ltb n (length s.rest) then 1 else 0 in
    (advance (n + separators) s, record { buf = s.rest ++ s.beyond; length = n }, ltb 0 n)

unfoldable pub field_read : TextStream → ℕ → Bool → TextStream × TextField × Bool
field_read s separator skip_spaces =
    if skip_spaces then field_scan (spaces_skip s) separator else field_scan s separator

abbrev pub is_eol : ℕ → Bool
is_eol c = (c == token_cr) || (c == token_lf)

-- The length of the end of line that a text starts with: LF, CR LF or CR alone.
abbrev pub eol_after_cr : Str → ℕ
eol_after_cr [] = 0
eol_after_cr (c ∷ cs) = if c == token_lf then 1 else 0

unfoldable pub eol_length : Str → ℕ
eol_length [] = 0
eol_length (c ∷ cs) =
    if c == token_cr then suc (eol_after_cr cs) else if c == token_lf then 1 else 0

-- The loop of `apt_text_line_read`: the length of the line, and that of its end if it has one.
unfoldable pub line_scan : Str → ℕ × Option ℕ
line_scan [] = (0, none)
line_scan (c ∷ cs) =
    let (n, eol) = line_scan cs in
    if is_eol c then (0, some (eol_length (c ∷ cs))) else (suc n, eol)

unfoldable pub line_read : TextStream → TextStream × TextField × Bool
line_read s =
    let (n, eol) = line_scan s.rest in
    let line : TextField = record { buf = s.rest ++ s.beyond; length = n } in
    elim eol [
      | none ↦ (record s { is_eos = true }, line, false)
      | some k ↦ (advance (n + k) s, line, true)
    ]

unfoldable pub is_eos : TextStream → Bool
is_eos s = if length s.rest == 0 then true else s.is_eos

-- The pair that `apt_text_header_read` builds: its pointers as offsets from the start of the line,
-- `none` for NULL.
pub record PairScan : Type 0 where
  pub name_at : Option ℕ
  pub name_length : ℕ
  pub value_at : Option ℕ
  pub value_length : ℕ

abbrev pub token_colon : ℕ
token_colon = 0x3A

-- The distance from a pointer that is set.
abbrev pub distance : Option ℕ → ℕ → ℕ
distance none i = 0
distance (some a) i = i - a

abbrev pub pointer_set : Option ℕ → ℕ → ℕ → Option ℕ
pointer_set none c i = if is_wsp c then none else some i
pointer_set (some a) c i = some a

-- The body of the loop for a character `c` at offset `i` within a line.
unfoldable pub char_step : PairScan → ℕ → ℕ → PairScan
char_step p c i =
    if p.name_length == 0
    then (let name_at = pointer_set p.name_at c i in
        if c == token_colon
        then record p { name_at = name_at; name_length = distance name_at i }
        else record p { name_at = name_at })
    else if p.value_length == 0
    then record p { value_at = pointer_set p.value_at c i }
    else p

-- The loop from offset `i` on: the pair, and the length of the line with its end if it has one.
unfoldable pub header_scan : Str → ℕ → PairScan → PairScan × Option ℕ
header_scan [] i p = (p, none)
header_scan (c ∷ cs) i p = elim (is_eol c) [
  | true ↦ (record p { value_length = distance p.value_at i }, some (i + eol_length (c ∷ cs)))
  | false ↦ header_scan cs (suc i) (char_step p c i)
]

-- `apt_pair_t` in place, and a string that points `at` into the text.
pub record Pair : Type 0 where
  pub name : TextField
  pub value : TextField

unfoldable pub field_at : Str → Option ℕ → ℕ → TextField
field_at text none n = record { buf = []; length = n }
field_at text (some a) n = record { buf = drop a text; length = n }

abbrev is_set : Option ℕ → Bool
is_set none = false
is_set (some a) = true

-- What `apt_text_header_read` makes of the loop's result.
unfoldable pub header_result : TextStream → PairScan × Option ℕ → TextStream × Pair × Bool
header_result s (p, eol) =
    let text = s.rest ++ s.beyond in
    let pair : Pair = record {
      name = field_at text p.name_at p.name_length;
      value = field_at text p.value_at p.value_length;
    } in
    elim eol [
      | none ↦ (record s { is_eos = true }, pair, false)
      | some n ↦ (advance n s, pair, not ((p.name_length == 0) && is_set p.name_at))
    ]

abbrev pub pair_start : PairScan
pair_start = record { name_at = none; name_length = 0; value_at = none; value_length = 0 }

unfoldable pub header_read : TextStream → TextStream × Pair × Bool
header_read s = header_result s (header_scan s.rest 0 pair_start)

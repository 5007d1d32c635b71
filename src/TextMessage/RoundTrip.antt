-- ===== src/TextMessage/RoundTrip.antt =====
-- A header section is read back from the text that is written for it.
use mathlib.Core.Path.{ap₂}
use mathlib.Core.List.{append_assoc, append-nil}
use unimrcp.Prelude.{
  ◌≢◌, ℕ, zero, suc, ◌+◌, ◌≤◌, ◌<◌, ◌≡◌, refl, sym, ap, ◌∙◌, Bool, true, false, Option, some, List,
  [], ◌∷◌, ◌++◌, length, All, ◌==◌, if◌then◌else◌, ◌>>=◌, arith, length-append, ltb-false, lt→ltb,
  leb-false, ==_false,
}
use unimrcp.HeaderSection.{
  Str, HeaderField, HeaderSection, unknown_header_field_id, field_alloc, field_add,
}
use unimrcp.TextStream.{
  TextStream, Pair, token_sp, token_colon, header_read, is_eos, header_scan, header_result,
  eol_length, field_at, advance,
}
use unimrcp.TextStream.Insert.{eol_insert, name_value_insert, Writes, put-Writes, bind-Writes}
use unimrcp.TextStream.Fields.{at}
use unimrcp.TextStream.Headers.{
  IsHeaderName, IsHeaderValue, header_line, crlf, header_read-header_line, length-header_line,
}
use unimrcp.TextMessage.Laws.{section_loop-step}
use unimrcp.TextMessage.{
  folds, fold_loop, folded_lines, read_field, header_field_parse, header_field_generate,
  is_empty_field, add_field, section_loop, header_section_parse, fields_generate,
  header_section_generate,
}

-- A field as the parser makes it: its identifier is not known yet.
abbrev pub IsField : HeaderField → Type 0
IsField f = IsHeaderName f.name × IsHeaderValue f.value × (f.id ≡ unknown_header_field_id)

-- The lines of the fields, and the empty line behind them.
abbrev pub section_text : List HeaderField → Str
section_text [] = crlf
section_text (f ∷ fs) = header_line f.name f.value ++ section_text fs

eol_insert-Writes : (s : TextStream) → 3 ≤ length s.rest → Writes s crlf (eol_insert s)
unfolding eol_insert
eol_insert-Writes s h = rw (lt→ltb 2 (length s.rest) h) (put-Writes crlf s (omega arith))

-- With room, the insertion of a name and a value writes their line.
name_value_insert-Writes :
    (s : TextStream) (name value : Str)
    → length name + length value + 5 ≤ length s.rest
    → Writes s (header_line name value) (name_value_insert s name value)
unfolding name_value_insert
name_value_insert-Writes s name value h =
    rw (leb-false (length s.rest) (length name + length value + 2) (omega arith)) (
      bind-Writes _ (put-Writes name s (omega arith)) λ s w.
        bind-Writes _ (put-Writes (token_colon ∷ token_sp ∷ []) s (omega (arith, w.room))) λ s w2.
          bind-Writes _ (put-Writes value s (omega (arith, w.room, w2.room)))
            λ s w3. eol_insert-Writes s (omega (arith, w.room, w2.room, w3.room)))

some_text : (fs : List HeaderField) → 2 ≤ length (section_text fs)
some_text [] = omega arith
some_text (f ∷ fs) =
    omega (arith, length-append (header_line f.name f.value) (section_text fs), some_text fs)

fields_generate-Writes :
    (fs : List HeaderField) (s : TextStream)
    → length (section_text fs) < length s.rest
    → Writes s (section_text fs) (fields_generate fs s)
unfolding fields_generate header_field_generate
fields_generate-Writes [] s h = eol_insert-Writes s h
fields_generate-Writes (f ∷ fs) s h =
    let line = length-header_line f.name f.value in
    let cut = length-append (header_line f.name f.value) (section_text fs) in
    bind-Writes _
      (name_value_insert-Writes s f.name f.value (omega (arith, line, cut, some_text fs)))
      λ t w. fields_generate-Writes fs t (omega (arith, w.room, cut))

-- The text behind a line that is read does not fold it.
folds-section_text :
    (fs : List HeaderField) (r : Str) → All IsField fs → folds (section_text fs ++ r) ≡ false
folds-section_text [] r h = refl
folds-section_text (f ∷ fs) r h = starts f.name (f.value ++ crlf) h.0.0
  where
    starts :
        (name value : Str)
        → IsHeaderName name
        → folds (((name ++ (token_colon ∷ token_sp ∷ value)) ++ section_text fs) ++ r) ≡ false
    starts [] value h = absurd h
    starts (c ∷ cs) value h = h.0

nonempty : (name : Str) → IsHeaderName name → length name ≢ 0
nonempty [] h e = h
nonempty (c ∷ cs) h e = omega arith

fold_stop :
    (fuel : ℕ) (t : TextStream) (folded : Str)
    → folds t.rest ≡ false
    → fold_loop (suc fuel) t folded ≡ some (t, folded)
unfolding fold_loop
fold_stop fuel t folded h = rw (h, fold_loop) refl

header_field_parse-line :
    (b : Str) (f : HeaderField) (r m : Str) (e : Bool)
    → IsField f
    → folds r ≡ false
    → header_field_parse (at b (header_line f.name f.value ++ r) m e)
      ≡ some (at (b ++ header_line f.name f.value) r m e, some f)
unfolding header_field_parse fold_loop field_alloc
header_field_parse-line b f r m e h stop =
    let (pair, run, name, value) = header_read-header_line b f.name f.value r m e h.0 h.1 in
    let t = at (b ++ header_line f.name f.value) r m e in
    ap (λ (q : TextStream × Pair × Bool). read_field q.0 q.1 q.2) run
    ∙ ap₂ (λ n v. with_lines n v t) name value
    ∙ ap
        (λ empty. folded_lines empty t >>= λ (u, folded).
          some (u, some (record field_alloc { name = f.name; value = f.value ++ folded })))
        (==_false (length f.name) 0 (nonempty f.name h.0))
    ∙ ap
        (λ q. q >>= λ (u, folded).
          some (u, some (record field_alloc { name = f.name; value = f.value ++ folded })))
        (fold_stop (length r) t [] stop)
    ∙ ap₂ (λ v i. some (t, some (record { name = f.name; value = v; id = i }))) (append-nil f.value)
        (sym h.2)
  where
    with_lines : Str → Str → TextStream → Option (TextStream × Option HeaderField)
    with_lines name value t = folded_lines (length name == 0) t >>= λ (u, folded).
        some (u, some (record field_alloc { name = name; value = value ++ folded }))

header_field_parse-crlf :
    (b r m : Str) (e : Bool)
    → header_field_parse (at b (crlf ++ r) m e) ≡ some (at (b ++ crlf) r m e, some field_alloc)
unfolding header_field_parse header_read header_result header_scan eol_length advance field_at
    field_alloc
header_field_parse-crlf b r m e = refl

-- A field whose identifier is not known goes to the end of the ring.
add_field-unknown :
    (h : HeaderSection) (f : HeaderField)
    → IsField f
    → length h.arr ≤ unknown_header_field_id
    → add_field h (some f) ≡ record h { ring = h.ring ++ (f ∷ []) }
unfolding field_add
add_field-unknown h f v small =
    rw (ltb-false f.id (length h.arr) (omega (arith, v.2)), add_field, field_add) refl

is_eos_false : (b rest m : Str) → 0 < length rest → is_eos (at b rest m false) ≡ false
unfolding is_eos
is_eos_false b rest m h =
    ap (λ empty. if empty then true else false) (==_false (length rest) 0 (λ e. omega arith))

is_empty_field-named : (f : HeaderField) → IsField f → is_empty_field (some f) ≡ false
is_empty_field-named f v = ==_false (length f.name) 0 (nonempty f.name v.0)

section_loop-text :
    (fs : List HeaderField) (fuel : ℕ) (h : HeaderSection) (b r m : Str)
    → length fs < fuel
    → All IsField fs
    → length h.arr ≤ unknown_header_field_id
    → section_loop fuel h (at b (section_text fs ++ r) m false)
      ≡ some (record h { ring = h.ring ++ fs }, at (b ++ section_text fs) r m false, true)
unfolding field_alloc
section_loop-text fs zero h b r m lt a small = absurd (omega arith)
section_loop-text [] (suc fuel) h b r m lt a small =
    section_loop-step fuel h (at b (crlf ++ r) m false) (at (b ++ crlf) r m false)
      (some field_alloc) true (is_eos (at (b ++ crlf) r m false))
      (header_field_parse-crlf b r m false) refl refl
    ∙ ap (λ ring. some (record h { ring = ring }, at (b ++ crlf) r m false, true))
        (sym (append-nil h.ring))
section_loop-text (f ∷ fs) (suc fuel) h b r m lt a small =
    let line = header_line f.name f.value in
    let rest = section_text fs ++ r in
    let t = at (b ++ line) rest m false in
    let grown : HeaderSection = record h { ring = h.ring ++ (f ∷ []) } in
    ap (λ text. section_loop (suc fuel) h (at b text m false))
      (append_assoc line (section_text fs) r)
    ∙ section_loop-step fuel h (at b (line ++ rest) m false) t (some f) false false
        (header_field_parse-line b f rest m false a.0 (folds-section_text fs r a.1))
        (is_empty_field-named f a.0)
        (is_eos_false (b ++ line) rest m
          (omega (arith, length-append (section_text fs) r, some_text fs)))
    ∙ ap (λ g. section_loop fuel g t) (add_field-unknown h f a.0 small)
    ∙ section_loop-text fs fuel grown (b ++ line) r m (omega arith) a.1 small
    ∙ ap₂ (λ ring before. some (record h { ring = ring }, at before r m false, true))
        (append_assoc h.ring (f ∷ []) fs) (append_assoc b line (section_text fs))

length-section_text : (fs : List HeaderField) → length fs < length (section_text fs)
length-section_text [] = omega arith
length-section_text (f ∷ fs) = omega (
  arith,
  length-append (header_line f.name f.value) (section_text fs),
  length-header_line f.name f.value,
  length-section_text fs,
)

-- A header section whose fields have valid names and values and no identifier yet is written in full
-- to a stream with room. A section, whose array has less than 2 ^ 64 places, that reads that text in
-- front of any other text takes exactly the fields that were written behind its own, returns TRUE,
-- and leaves the stream at the other text.
pub header_section_parse-header_section_generate :
    (h g : HeaderSection) (s : TextStream) (b r m : Str)
    → All IsField h.ring
    → length g.arr ≤ unknown_header_field_id
    → length (section_text h.ring) < length s.rest
    → (t : TextStream) × (text : Str) × (header_section_generate h s ≡ some (t, true))
      × (t.before ≡ s.before ++ text)
      × (header_section_parse g (at b (text ++ r) m false)
          ≡ some (record g { ring = g.ring ++ h.ring }, at (b ++ text) r m false, true))
unfolding header_section_generate header_section_parse
header_section_parse-header_section_generate h g s b r m valid small room =
    let (t, run, w) = fields_generate-Writes h.ring s room in
    let text = section_text h.ring in
    (
      t,
      text,
      run,
      w.text,
      section_loop-text h.ring (suc (length (text ++ r))) g b r m
          (omega (arith, length-section_text h.ring, length-append text r)) valid small,
    )

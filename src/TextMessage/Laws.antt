-- ===== src/TextMessage/Laws.antt =====
-- That the loops of the header parser end.
use mathlib.Core.Path.{ap₂}
use mathlib.Core.Bool.{false≢true}
use mathlib.Core.Option.{some-injective}
use unimrcp.Prelude.{
  ℕ, zero, suc, ◌+◌, ◌≤◌, ◌<◌, ◌≡◌, ◌⊎◌, inl, inr, refl, sym, ap, ◌∙◌, Bool, true, false, Option,
  none, some, [], ◌∷◌, ◌++◌, length, drop, ◌==◌, if◌then◌else◌, ◌>>=◌, arith, length-drop,
  Bool-cases,
}
use unimrcp.HeaderSection.{Str, HeaderField, HeaderSection, field_alloc}
use unimrcp.TextStream.{
  TextStream, TextField, Pair, PairScan, is_wsp, is_eol, eol_length, advance, run_length,
  white_spaces_skip, char_step, line_scan, line_read, string_copy, header_scan, header_result,
  pair_start, header_read, is_eos,
}
use unimrcp.TextMessage.{
  folds, kept_line, fold_loop, folded_lines, read_field, header_field_parse, is_empty_field,
  add_field, by_end, section_loop, header_section_parse,
}

-- A move of the position does not grow the rest of the stream.
length-advance : (n : ℕ) (s : TextStream) → length (advance n s).rest ≤ length s.rest
unfolding advance
length-advance n s = omega (arith, length-drop n s.rest)

length-line_read : (s : TextStream) → length (line_read s).0.rest ≤ length s.rest
unfolding line_read
length-line_read s =
    elim (line_scan s.rest).1
      as (λ (eol : Option ℕ).
        length
          (elim eol as (λ _. TextStream × TextField × Bool) [
            | none ↦ (
              record s { is_eos = true },
              record { buf = s.rest ++ s.beyond; length = (line_scan s.rest).0 },
              false,
            )
            | some k ↦ (
              advance ((line_scan s.rest).0 + k) s,
              record { buf = s.rest ++ s.beyond; length = (line_scan s.rest).0 },
              true,
            )
          ]).0.rest
        ≤ length s.rest) [
          | none ↦ omega arith
          | some k ↦ length-advance ((line_scan s.rest).0 + k) s
        ]

folds-nonempty : (cs : Str) → folds cs ≡ true → 0 < length cs
folds-nonempty [] h = cc
folds-nonempty (c ∷ cs) h = omega arith

-- What a round of the loop over folded lines leaves.
fold_step : TextStream → TextStream × TextField × Bool
fold_step s = line_read (white_spaces_skip (advance 1 s))

length-fold_step :
    (s : TextStream) → folds s.rest ≡ true → length (fold_step s).0.rest < length s.rest
unfolding fold_step white_spaces_skip advance
length-fold_step s h =
    let t = white_spaces_skip (advance 1 s) in
    let n = run_length is_wsp (drop 1 s.rest) in
    omega (
      arith,
      length-line_read t,
      length-drop n (drop 1 s.rest),
      length-drop 1 s.rest,
      folds-nonempty s.rest h,
    )

fold_loop-returns :
    (fuel : ℕ) (s : TextStream) (folded : Str)
    → length s.rest < fuel
    → (t : TextStream) × (all : Str) × (fold_loop fuel s folded ≡ some (t, all))
      × (length t.rest ≤ length s.rest)
unfolding fold_loop fold_step
fold_loop-returns zero s folded h = absurd (omega arith)
fold_loop-returns (suc fuel) s folded h = elim (Bool-cases (folds s.rest)) [
  | inr stop ↦ (s, folded, rw (stop, fold_loop) refl, omega arith)
  | inl go ↦
      let (t, line, ok) = fold_step s in
      let (u, all, run, le) =
        fold_loop-returns fuel t (folded ++ kept_line line ok)
          (omega (arith, length-fold_step s go)) in
      (u, all, rw (go, fold_loop) run, omega (arith, le, length-fold_step s go))
]

folded_lines-returns :
    (b : Bool) (s : TextStream)
    → (t : TextStream) × (all : Str) × (folded_lines b s ≡ some (t, all))
      × (length t.rest ≤ length s.rest)
folded_lines-returns true s = (s, [], refl, omega arith)
folded_lines-returns false s = fold_loop-returns (suc (length s.rest)) s [] (omega arith)

eol_length-pos : (c : ℕ) (cs : Str) → is_eol c ≡ true → 1 ≤ eol_length (c ∷ cs)
unfolding eol_length
eol_length-pos c cs h = ground arith

-- A line that is found has a byte at least.
header_scan-pos : (cs : Str) (i n : ℕ) (p : PairScan) → (header_scan cs i p).1 ≡ some n → 1 ≤ n
unfolding header_scan
header_scan-pos [] i n p h = cc
header_scan-pos (c ∷ cs) i n p h = elim (Bool-cases (is_eol c)) [
  | inl e ↦
      let found : (header_scan (c ∷ cs) i p).1 ≡ some (i + eol_length (c ∷ cs)) =
        rw (e, header_scan) refl in
      omega (arith, some-injective _ _ (sym found ∙ h), eol_length-pos c cs e)
  | inr e ↦
      let later : header_scan (c ∷ cs) i p ≡ header_scan cs (suc i) (char_step p c i) =
        rw (e, header_scan) refl in
      header_scan-pos cs (suc i) n (char_step p c i)
        (sym (ap (λ (r : PairScan × Option ℕ). r.1) later) ∙ h)
]

header_scan-nonempty :
    (cs : Str) (i n : ℕ) (p : PairScan) → (header_scan cs i p).1 ≡ some n → 0 < length cs
unfolding header_scan
header_scan-nonempty [] i n p h = cc
header_scan-nonempty (c ∷ cs) i n p h = omega arith

-- The stream gets shorter, or its end is found.
abbrev Progress : TextStream → TextStream → Type 0
Progress s t = (length t.rest < length s.rest) ⊎ (is_eos t ≡ true)

same : (b : Bool) → (if b then true else true) ≡ true
same true = refl
same false = refl

header_result-Progress :
    (s : TextStream) (p : PairScan) (eol : Option ℕ)
    → (header_scan s.rest 0 pair_start).1 ≡ eol
    → ((header_result s (p, eol)).2 ≡ false)
      ⊎ (length (header_result s (p, eol)).0.rest < length s.rest)
unfolding header_result advance
header_result-Progress s p none e = inl refl
header_result-Progress s p (some n) e = inr (
    omega (
      arith,
      length-drop n s.rest,
      header_scan-pos s.rest 0 n pair_start e,
      header_scan-nonempty s.rest 0 n pair_start e,
    ))

header_result-stuck :
    (s : TextStream) (p : PairScan) (eol : Option ℕ)
    → (header_scan s.rest 0 pair_start).1 ≡ eol
    → Progress s (header_result s (p, eol)).0
unfolding header_result advance is_eos
header_result-stuck s p none e = inr (same (length s.rest == 0))
header_result-stuck s p (some n) e = inl (
    omega (
      arith,
      length-drop n s.rest,
      header_scan-pos s.rest 0 n pair_start e,
      header_scan-nonempty s.rest 0 n pair_start e,
    ))

read_field-returns :
    (s t : TextStream) (pair : Pair) (ok : Bool)
    → (ok ≡ false) ⊎ (length t.rest < length s.rest)
    → Progress s t
    → (u : TextStream) × (field : Option HeaderField) × (read_field t pair ok ≡ some (u, field))
      × Progress s u
read_field-returns s t pair false shorter progress = (t, none, refl, progress)
read_field-returns s t pair true (inl e) progress = cc
read_field-returns s t pair true (inr lt) progress =
    let (u, all, run, le) = folded_lines-returns (length (string_copy pair.name) == 0) t in
    (
      u,
      some (record field_alloc {
        name = string_copy pair.name;
        value = string_copy pair.value ++ all;
      }),
      ap
          (λ r. r >>= λ (u, folded). some (
            u,
            some (record field_alloc {
              name = string_copy pair.name;
              value = string_copy pair.value ++ folded;
            }),
          ))
          run,
      inl (omega (arith, le)),
    )

header_field_parse-returns :
    (s : TextStream)
    → (t : TextStream) × (field : Option HeaderField) × (header_field_parse s ≡ some (t, field))
      × Progress s t
unfolding header_field_parse header_read
header_field_parse-returns s =
    let p = (header_scan s.rest 0 pair_start).0 in
    let eol = (header_scan s.rest 0 pair_start).1 in
    let (t, pair, ok) = header_result s (p, eol) in
    read_field-returns s t pair ok (header_result-Progress s p eol refl)
      (header_result-stuck s p eol refl)

-- A round of the loop whose field is known.
pub section_loop-step :
    (fuel : ℕ) (h : HeaderSection) (s t : TextStream) (field : Option HeaderField)
    (empty eos : Bool)
    → header_field_parse s ≡ some (t, field)
    → is_empty_field field ≡ empty
    → is_eos t ≡ eos
    → section_loop (suc fuel) h s
      ≡ by_end empty eos
          (some (h, t, true))
          (some (add_field h field, t, false))
          (section_loop fuel (add_field h field) t)
unfolding section_loop
section_loop-step fuel h s t field empty eos run e f =
    ap
      (λ r. r >>= λ (t, field).
        by_end (is_empty_field field) (is_eos t) (some (h, t, true))
          (some (add_field h field, t, false)) (section_loop fuel (add_field h field) t))
      run
    ∙ ap₂
        (λ x y.
          by_end x y (some (h, t, true)) (some (add_field h field, t, false))
            (section_loop fuel (add_field h field) t))
        e f

section_loop-returns :
    (fuel : ℕ) (h : HeaderSection) (s : TextStream)
    → length s.rest < fuel
    → (g : HeaderSection) × (t : TextStream) × (ok : Bool) × (section_loop fuel h s
        ≡ some (g, t, ok))
section_loop-returns zero h s lt = absurd (omega arith)
section_loop-returns (suc fuel) h s lt =
    let (t, field, run, progress) = header_field_parse-returns s in
    let step = section_loop-step fuel h s t field in
    elim (Bool-cases (is_empty_field field)) [
      | inl empty ↦ (h, t, true, step true (is_eos t) run empty refl)
      | inr full ↦ elim (Bool-cases (is_eos t)) [
        | inl ends ↦ (add_field h field, t, false, step false true run full ends)
        | inr goes ↦
            let (g, u, ok, rest) = section_loop-returns fuel (add_field h field) t (elim progress [
              | inl shorter ↦ omega arith
              | inr ends ↦ absurd (false≢true (sym goes ∙ ends))
            ]) in
            (g, u, ok, step false false run full goes ∙ rest)
      ]
    ]

-- The parser of a header section returns on every stream: its fuel is enough.
pub header_section_parse-returns :
    (h : HeaderSection) (s : TextStream)
    → (g : HeaderSection) × (t : TextStream) × (ok : Bool) × (header_section_parse h s
        ≡ some (g, t, ok))
unfolding header_section_parse
header_section_parse-returns h s = section_loop-returns (suc (length s.rest)) h s (omega arith)

-- ===== src/TextStream/Headers.antt =====
-- A header field is read from the line that the insertion of a name and a value writes.
use mathlib.Core.Path.{ap₂}
use mathlib.Core.List.{append_assoc}
use unimrcp.Prelude.{
  ℕ, suc, ◌+◌, ◌-◌, ◌<◌, ◌≡◌, refl, sym, ap, ◌∙◌, Bool, true, false, not, ◌&&◌, Option, none, some,
  [], ◌∷◌, ◌++◌, length, All, take, ◌==◌, if◌then◌else◌, arith, length-append, take_part, drop_part,
  ==_false,
}
use unimrcp.HeaderSection.{Str}
use unimrcp.TextStream.{
  Pair, PairScan, token_sp, token_cr, token_lf, token_colon, is_wsp, is_eol, eol_length, advance,
  char_step, header_scan, field_at, header_result, pair_start, header_read, string_copy,
}
use unimrcp.TextStream.Fields.{at}

abbrev pub IsNameChar : ℕ → Type 0
IsNameChar c = (is_eol c ≡ false) × ((c == token_colon) ≡ false)

-- A name has characters, and none that ends it. White space may not stand first.
abbrev pub IsHeaderName : Str → Type 0
IsHeaderName [] = ⊥
IsHeaderName (c ∷ cs) = (is_wsp c ≡ false) × All IsNameChar (c ∷ cs)

-- A value is empty, or does not start with white space.
abbrev pub IsHeaderValue : Str → Type 0
IsHeaderValue [] = Unit
IsHeaderValue (c ∷ cs) = (is_wsp c ≡ false) × All (λ d. is_eol d ≡ false) (c ∷ cs)

abbrev pub crlf : Str
crlf = token_cr ∷ token_lf ∷ []

-- The line of a header field.
abbrev pub header_line : Str → Str → Str
header_line name value = name ++ (token_colon ∷ token_sp ∷ (value ++ crlf))

abbrev scan : Option ℕ → ℕ → Option ℕ → ℕ → PairScan
scan name_at name_length value_at value_length = record {
  name_at = name_at;
  name_length = name_length;
  value_at = value_at;
  value_length = value_length;
}

scan_step :
    (c : ℕ) (cs : Str) (i : ℕ) (p : PairScan)
    → is_eol c ≡ false
    → header_scan (c ∷ cs) i p ≡ header_scan cs (suc i) (char_step p c i)
unfolding header_scan
scan_step c cs i p h = rw (h, header_scan) refl

in_name :
    (c i a : ℕ)
    → (c == token_colon) ≡ false
    → char_step (scan (some a) 0 none 0) c i ≡ scan (some a) 0 none 0
unfolding char_step
in_name c i a h = ap (λ b. if b then scan (some a) (i - a) none 0 else scan (some a) 0 none 0) h

-- Behind the name, a pointer to the value that is set stays.
in_value :
    (c i n a : ℕ) → 0 < n → char_step (scan (some 0) n (some a) 0) c i ≡ scan (some 0) n (some a) 0
unfolding char_step
in_value c i n a pos = rw (==_false n 0 (λ e. omega arith)) refl

value_start :
    (c i n : ℕ)
    → 0 < n
    → char_step (scan (some 0) n none 0) c i ≡ scan (some 0) n (if is_wsp c then none else some i) 0
unfolding char_step
value_start c i n pos = rw (==_false n 0 (λ e. omega arith)) refl

-- The rest of a name that starts at `a`.
scan_name :
    (cs t : Str) (i a : ℕ)
    → All IsNameChar cs
    → header_scan (cs ++ (token_colon ∷ t)) i (scan (some a) 0 none 0)
      ≡ header_scan t (suc (i + length cs)) (scan (some a) (i + length cs - a) none 0)
unfolding char_step
scan_name [] t i a h =
    scan_step token_colon t i (scan (some a) 0 none 0) refl
    ∙ ap (λ j. header_scan t (suc j) (scan (some a) (j - a) none 0)) {x = i} (omega arith)
scan_name (c ∷ cs) t i a h =
    scan_step c (cs ++ (token_colon ∷ t)) i (scan (some a) 0 none 0) h.0.0
    ∙ ap (header_scan (cs ++ (token_colon ∷ t)) (suc i)) (in_name c i a h.0.1)
    ∙ scan_name cs t (suc i) a h.1
    ∙ ap (λ j. header_scan t (suc j) (scan (some a) (j - a) none 0)) {x = suc i + length cs}
        (omega arith)

-- A value that starts at `a`, to the end of the line.
scan_value :
    (cs r : Str) (i n a : ℕ)
    → All (λ d. is_eol d ≡ false) cs
    → 0 < n
    → header_scan (cs ++ (token_cr ∷ token_lf ∷ r)) i (scan (some 0) n (some a) 0)
      ≡ (scan (some 0) n (some a) (i + length cs - a), some (i + length cs + 2))
unfolding header_scan eol_length
scan_value [] r i n a h pos =
    ap (λ j. (scan (some 0) n (some a) (j - a), some (j + 2))) {x = i} (omega arith)
scan_value (c ∷ cs) r i n a h pos =
    scan_step c (cs ++ (token_cr ∷ token_lf ∷ r)) i _ h.0
    ∙ ap (header_scan (cs ++ (token_cr ∷ token_lf ∷ r)) (suc i)) (in_value c i n a pos)
    ∙ scan_value cs r (suc i) n a h.1 pos
    ∙ ap (λ j. (scan (some 0) n (some a) (j - a), some (j + 2))) {x = suc i + length cs}
        (omega arith)

-- Where a value starts, if there is one.
abbrev value_at : Str → ℕ → Option ℕ
value_at [] i = none
value_at (c ∷ cs) i = some i

-- The text behind the colon and the space.
scan_late :
    (value r : Str) (i n : ℕ)
    → IsHeaderValue value
    → 0 < n
    → header_scan (value ++ (token_cr ∷ token_lf ∷ r)) i (scan (some 0) n none 0)
      ≡ (scan (some 0) n (value_at value i) (length value), some (i + length value + 2))
unfolding header_scan eol_length
scan_late [] r i n h pos = ap (λ j. (scan (some 0) n none 0, some (j + 2))) {x = i} (omega arith)
scan_late (c ∷ cs) r i n h pos =
    scan_step c (cs ++ (token_cr ∷ token_lf ∷ r)) i _ h.1.0
    ∙ ap (header_scan (cs ++ (token_cr ∷ token_lf ∷ r)) (suc i))
        (value_start c i n pos ∙ ap (λ b. scan (some 0) n (if b then none else some i) 0) h.0)
    ∙ scan_value cs r (suc i) n i h.1.1 pos
    ∙ ap₂ (λ j k. (scan (some 0) n (some i) j, some (k + 2)))
        (let e : suc i + length cs - i ≡ suc (length cs) = omega arith in e)
        (let e : suc i + length cs ≡ i + suc (length cs) = omega arith in e)

-- The text behind the name and the colon.
scan_rest :
    (value r : Str) (i n : ℕ)
    → IsHeaderValue value
    → 0 < n
    → header_scan (token_sp ∷ (value ++ (token_cr ∷ token_lf ∷ r))) i (scan (some 0) n none 0)
      ≡ (scan (some 0) n (value_at value (suc i)) (length value), some (suc i + length value + 2))
scan_rest value r i n h pos =
    scan_step token_sp _ i _ refl
    ∙ ap (header_scan (value ++ (token_cr ∷ token_lf ∷ r)) (suc i)) (value_start token_sp i n pos)
    ∙ scan_late value r (suc i) n h pos

name_start :
    (c : ℕ)
    → is_wsp c ≡ false
    → (c == token_colon) ≡ false
    → char_step (scan none 0 none 0) c 0 ≡ scan (some 0) 0 none 0
unfolding char_step
name_start c hw hc = rw (hc, hw) refl

-- The line of a header field with other text behind it.
scan_line :
    (name value r : Str)
    → IsHeaderName name
    → IsHeaderValue value
    → header_scan
        (name ++ (token_colon ∷ token_sp ∷ (value ++ (token_cr ∷ token_lf ∷ r))))
        0
        pair_start
      ≡ (
        scan (some 0) (length name) (value_at value (length name + 2)) (length value),
        some (length name + 2 + length value + 2),
      )
scan_line [] value r h v = absurd h
scan_line (c ∷ cs) value r h v =
    let rest : Str = token_sp ∷ (value ++ (token_cr ∷ token_lf ∷ r)) in
    scan_step c (cs ++ (token_colon ∷ rest)) 0 _ h.1.0.0
    ∙ ap (header_scan (cs ++ (token_colon ∷ rest)) 1) (name_start c h.0 h.1.0.1)
    ∙ scan_name cs rest 1 0 h.1.1
    ∙ ap₂ (λ i n. header_scan rest i (scan (some 0) n none 0))
        (let e : suc (1 + length cs) ≡ suc (suc (length cs)) = omega arith in e)
        (let e : 1 + length cs - 0 ≡ suc (length cs) = omega arith in e)
    ∙ scan_rest value r (suc (suc (length cs))) (suc (length cs)) v (omega arith)
    ∙ ap
        (λ k. (
          scan (some 0) (suc (length cs)) (value_at value k) (length value),
          some (k + length value + 2),
        ))
        {x = suc (suc (suc (length cs)))} (omega arith)

header_line-append :
    (name value r : Str)
    → header_line name value ++ r
      ≡ name ++ (token_colon ∷ token_sp ∷ (value ++ (token_cr ∷ token_lf ∷ r)))
header_line-append name value r =
    append_assoc name (token_colon ∷ token_sp ∷ (value ++ crlf)) r
    ∙ ap (λ t. name ++ (token_colon ∷ token_sp ∷ t)) (append_assoc value crlf r)

-- The value in the text of the stream.
value_copy :
    (before value after : Str)
    → string_copy
        (field_at (before ++ (value ++ after)) (value_at value (length before)) (length value))
      ≡ value
unfolding field_at
value_copy before [] after = refl
value_copy before (c ∷ cs) after =
    ap (take (length (c ∷ cs))) (drop_part before ((c ∷ cs) ++ after) refl refl)
    ∙ take_part (c ∷ cs) after refl refl

pub length-header_line :
    (name value : Str) → length name + 2 + length value + 2 ≡ length (header_line name value)
length-header_line name value =
    omega (
      arith,
      length-append name (token_colon ∷ token_sp ∷ (value ++ crlf)),
      length-append value crlf,
    )

-- The line that is written for a name and a value is read as that name and value, up to the text
-- behind it.
pub header_read-header_line :
    (b name value r m : Str) (e : Bool)
    → IsHeaderName name
    → IsHeaderValue value
    → (pair : Pair) × (header_read (at b (header_line name value ++ r) m e)
        ≡ (at (b ++ header_line name value) r m e, pair, true))
      × (string_copy pair.name ≡ name)
      × (string_copy pair.value ≡ value)
unfolding header_read header_result advance field_at
header_read-header_line b [] value r m e hn hv = absurd hn
header_read-header_line b (c ∷ cs) value r m e hn hv =
    let name : Str = c ∷ cs in
    let line = header_line name value in
    let k = length name + 2 + length value + 2 in
    let text = (line ++ r) ++ m in
    let whole : text ≡ (name ++ (token_colon ∷ token_sp ∷ [])) ++ (value ++ (crlf ++ (r ++ m))) =
      append_assoc line r m
      ∙ header_line-append name value (r ++ m)
      ∙ sym (append_assoc name (token_colon ∷ token_sp ∷ []) (value ++ (crlf ++ (r ++ m)))) in
    let place : length name + 2 ≡ length (name ++ (token_colon ∷ token_sp ∷ [])) =
      sym (length-append name (token_colon ∷ token_sp ∷ [])) in
    let pair : Pair = record {
      name = record { buf = text; length = length name };
      value = field_at text (value_at value (length name + 2)) (length value);
    } in
    (
      pair,
      ap (header_result (at b (line ++ r) m e)) (
            ap (λ t. header_scan t 0 pair_start) (header_line-append name value r)
            ∙ scan_line name value r hn hv)
          ∙ ap (λ empty. (advance k (at b (line ++ r) m e), pair, not (empty && true)))
              (==_false (length name) 0 (λ e. omega arith))
          ∙ ap₂ (λ u v. (at (b ++ u) v m e, pair, true))
              (take_part line r (length-header_line name value) refl)
              (drop_part line r (length-header_line name value) refl),
      ap (take (length name)) (append_assoc line r m ∙ header_line-append name value (r ++ m))
          ∙ take_part name _ refl refl,
      ap₂ (λ t k. string_copy (field_at t (value_at value k) (length value))) whole place
          ∙ value_copy (name ++ (token_colon ∷ token_sp ∷ [])) value (crlf ++ (r ++ m)),
    )

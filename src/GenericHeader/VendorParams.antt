-- ===== src/GenericHeader/VendorParams.antt =====
-- The text of the vendor-specific parameters (libs/mrcp/message/src/mrcp_generic_header.c), which are
-- an array of pairs.
use mathlib.Core.Path.{ap₂}
use mathlib.Core.List.{append-nil, append_assoc}
use unimrcp.Prelude.{
  ℕ, zero, suc, ◌+◌, ◌≤◌, ◌<◌, ◌≡◌, refl, sym, ap, ◌∙◌, Bool, true, false, not, Option, none, some,
  List, [], ◌∷◌, ◌++◌, length, All, ◌==◌, arith, length-append, All-append, take, ◌>>=◌,
}
use unimrcp.HeaderSection.{Str}
use unimrcp.GenericHeader.{GenericHeader}
use unimrcp.TextStream.{
  TextStream, TextField, field_read, field_scan, spaces_skip, advance, run_length,
}
use unimrcp.TextStream.Fields.{at, IsField, field_read-separated, field_read-last}
use unimrcp.TextStream.Pairs.{
  pair_of, pair_value, pair_parse, pairs_parse, pair_array_parse, pair_length, pairs_length,
  pair_array_length, pair_text, pairs_text_rest, pair_array_text, pair_array_generate,
}
use unimrcp.StartLine.Fields.{field_of, stream_of-field_of, string_copy-field_of}

-- The array that the parser adds the pairs to.
abbrev pub params_or_created : Option (List (Str × Str)) → List (Str × Str)
params_or_created none = []
params_or_created (some arr) = arr

-- The case of `mrcp_generic_header_parse` for the parameters.
unfoldable pub vendor_specific_params_parse :
    Str × Str → GenericHeader → TextField → Option GenericHeader
vendor_specific_params_parse pushed h value = do
  arr ← pair_array_parse pushed (params_or_created h.vendor_specific_params) value
  some (record h { vendor_specific_params = some arr })

-- A value is empty, or it can stand at the end of a pair.
abbrev pub IsValue : Str → Type 0
IsValue [] = Unit
IsValue (d ∷ ds) = IsField b';' (d ∷ ds)

-- The name of a pair has characters, none of them `=` or `;`, and does not start with a space; its
-- value has no `;` and does not start with a space.
abbrev pub IsPair : Str × Str → Type 0
IsPair (name, value) = IsField b'=' name × IsField b';' name × IsValue value

pair_text-IsField : (p : Str × Str) → IsPair p → IsField b';' (pair_text p)
unfolding pair_text
pair_text-IsField ([], value) h = absurd h.0
pair_text-IsField (c ∷ cs, []) h = h.1
pair_text-IsField (c ∷ cs, d ∷ ds) h = (
  (h.1.0.0, All-append (λ d. not (d == b';') ≡ true) cs (b'=' ∷ d ∷ ds) h.1.0.1 (refl, h.2.0)),
  h.1.1,
)

pair_value-end : (b m : Str) → pair_value (field_read (at b [] m false) b';' true) ≡ []
unfolding field_read spaces_skip field_scan advance run_length
pair_value-end b m = refl

pair_parse-pair_text :
    (pushed p : Str × Str) (r : Str) → IsPair p → pair_parse pushed (field_of (pair_text p) r) ≡ p
unfolding pair_parse pair_text
pair_parse-pair_text pushed ([], value) r h = absurd h.0
pair_parse-pair_text pushed (c ∷ cs, []) r h =
    let name : Str = c ∷ cs in
    ap (λ s. pair_of pushed (field_read s b'=' true)) (stream_of-field_of name r)
    ∙ ap (pair_of pushed) (field_read-last [] name b'=' r false h.0)
    ∙ ap₂ (λ n v. (n, v)) (string_copy-field_of name r) (pair_value-end name r)
pair_parse-pair_text pushed (c ∷ cs, d ∷ ds) r h =
    let name : Str = c ∷ cs in
    let value : Str = d ∷ ds in
    let read : Str = name ++ (b'=' ∷ []) in
    ap (λ s. pair_of pushed (field_read s b'=' true))
      (stream_of-field_of (name ++ (b'=' ∷ value)) r)
    ∙ ap (pair_of pushed) (field_read-separated [] name b'=' value r false h.0)
    ∙ ap₂ (λ n v. (n, v))
        (ap (λ buf. take (length name) buf) (append_assoc name (b'=' ∷ value) r)
          ∙ string_copy-field_of name (b'=' ∷ (value ++ r)))
        (ap pair_value (field_read-last read value b';' r false h.2) ∙ string_copy-field_of value r)

module _ (pushed : Str × Str) where
  -- What a round of the parser does with the field it reads.
  pairs_step : ℕ → List (Str × Str) → TextStream × TextField × Bool → Option (List (Str × Str))
  pairs_step fuel arr (t, field, ok) = elim ok [
    | false ↦ some arr
    | true ↦ pairs_parse pushed fuel t (arr ++ (pair_parse pushed field ∷ []))
  ]

  pairs_parse-end :
      (fuel : ℕ) (arr : List (Str × Str)) (b m : Str) (e : Bool)
      → pairs_parse pushed (suc fuel) (at b [] m e) arr ≡ some arr
  unfolding pairs_parse field_read spaces_skip field_scan advance run_length
  pairs_parse-end fuel arr b m e = refl

  -- A round adds the pair that it reads.
  pairs_parse-text :
      (fuel : ℕ) (p : Str × Str) (ps arr : List (Str × Str)) (b m : Str) (e : Bool)
      → length ps + 1 < fuel
      → All IsPair (p ∷ ps)
      → pairs_parse pushed fuel (at b (pair_text p ++ pairs_text_rest ps) m e) arr
        ≡ some (arr ++ (p ∷ ps))
  unfolding pairs_parse pairs_text_rest pairs_step
  pairs_parse-text zero p ps arr b m e n h = absurd (omega arith)
  pairs_parse-text (suc zero) p ps arr b m e n h = absurd (omega arith)
  pairs_parse-text (suc (suc fuel)) p [] arr b m e n h =
      let text = pair_text p in
      ap (λ r. pairs_step (suc fuel) arr (field_read (at b r m e) b';' true)) (append-nil text)
      ∙ ap (pairs_step (suc fuel) arr) (field_read-last b text b';' m e (pair_text-IsField p h.0))
      ∙ ap (λ q. pairs_parse pushed (suc fuel) (at (b ++ text) [] m e) (arr ++ (q ∷ [])))
          (pair_parse-pair_text pushed p m h.0)
      ∙ pairs_parse-end fuel (arr ++ (p ∷ [])) (b ++ text) m e
  pairs_parse-text (suc (suc fuel)) p (q ∷ ps) arr b m e n h =
      let text = pair_text p in
      let r : Str = pair_text q ++ pairs_text_rest ps in
      let b' : Str = b ++ (text ++ (b';' ∷ [])) in
      ap (pairs_step (suc fuel) arr)
        (field_read-separated b text b';' r m e (pair_text-IsField p h.0))
      ∙ ap
          (λ buf.
            pairs_parse pushed (suc fuel) (at b' r m e)
              (arr ++ (pair_parse pushed (record { buf = buf; length = length text }) ∷ [])))
          (append_assoc text (b';' ∷ r) m)
      ∙ ap (λ q. pairs_parse pushed (suc fuel) (at b' r m e) (arr ++ (q ∷ [])))
          (pair_parse-pair_text pushed p (b';' ∷ (r ++ m)) h.0)
      ∙ pairs_parse-text (suc fuel) q ps (arr ++ (p ∷ [])) b' m e (omega arith) h.1
      ∙ ap some (append_assoc arr (p ∷ []) (q ∷ ps))

length-pair_text : (p : Str × Str) → IsPair p → length (pair_text p) ≡ pair_length p
unfolding pair_text pair_length
length-pair_text ([], value) h = absurd h.0
length-pair_text (c ∷ cs, []) h = omega arith
length-pair_text (c ∷ cs, d ∷ ds) h = grind (arith, length-append cs (b'=' ∷ d ∷ ds))

pair_length-positive : (p : Str × Str) → IsPair p → 0 < pair_length p
unfolding pair_length
pair_length-positive ([], value) h = absurd h.0
pair_length-positive (c ∷ cs, value) h = omega arith

length-pairs_text_rest :
    (ps : List (Str × Str))
    → All IsPair ps
    → length (pairs_text_rest ps) ≡ pairs_length ps + length ps
unfolding pairs_text_rest pairs_length
length-pairs_text_rest [] h = refl
length-pairs_text_rest (p ∷ ps) h = omega (
  arith,
  length-append (pair_text p) (pairs_text_rest ps),
  length-pair_text p h.0,
  length-pairs_text_rest ps h.1,
)

length-pair_array_text :
    (arr : List (Str × Str)) → All IsPair arr → length (pair_array_text arr) ≡ pair_array_length arr
unfolding pair_array_text pairs_length
length-pair_array_text [] h = refl
length-pair_array_text (p ∷ ps) h = omega (
  arith,
  length-append (pair_text p) (pairs_text_rest ps),
  length-pair_text p h.0,
  length-pairs_text_rest ps h.1,
)

pairs_length-bound : (arr : List (Str × Str)) → All IsPair arr → length arr ≤ pairs_length arr
unfolding pairs_length
pairs_length-bound [] h = omega arith
pairs_length-bound (p ∷ ps) h = omega (arith, pair_length-positive p h.0, pairs_length-bound ps h.1)

pair_array_generate-field_of :
    (arr : List (Str × Str)) (m : Str)
    → All IsPair arr
    → pair_array_generate arr m ≡ field_of (pair_array_text arr) (0 ∷ m)
unfolding pair_array_generate
pair_array_generate-field_of arr m h =
    ap (λ n. record { buf = pair_array_text arr ++ (0 ∷ m); length = n })
      (sym (length-pair_array_text arr h))

-- The parameters that are read from the text generated for an array of pairs are those of the header
-- before, with the pairs behind them, whatever memory follows the text, when no name of a pair is
-- empty or has a `=` or `;`, no value has a `;`, and neither starts with a space.
pub vendor_specific_params_parse-pair_array_generate :
    (pushed : Str × Str) (h : GenericHeader) (arr : List (Str × Str)) (m : Str)
    → All IsPair arr
    → vendor_specific_params_parse pushed h (pair_array_generate arr m)
      ≡ some (record h {
        vendor_specific_params = some (params_or_created h.vendor_specific_params ++ arr);
      })
unfolding vendor_specific_params_parse pair_array_parse pair_array_text
vendor_specific_params_parse-pair_array_generate pushed h arr m a =
    ap (λ value. vendor_specific_params_parse pushed h value) (pair_array_generate-field_of arr m a)
    ∙ ap (λ r. r >>= λ arr'. some (record h { vendor_specific_params = some arr' }))
        (ap
            (λ s.
              pairs_parse pushed (suc (length (pair_array_text arr))) s
                (params_or_created h.vendor_specific_params))
            (stream_of-field_of (pair_array_text arr) (0 ∷ m))
          ∙ go arr a)
  where
    go :
        (arr : List (Str × Str))
        → All IsPair arr
        → pairs_parse pushed
            (suc (length (pair_array_text arr)))
            (at [] (pair_array_text arr) (0 ∷ m) false)
            (params_or_created h.vendor_specific_params)
          ≡ some (params_or_created h.vendor_specific_params ++ arr)
    go [] a =
        pairs_parse-end pushed 0 (params_or_created h.vendor_specific_params) [] (0 ∷ m) false
        ∙ ap some (sym (append-nil (params_or_created h.vendor_specific_params)))
    go (p ∷ ps) a =
        pairs_parse-text pushed (suc (length (pair_array_text (p ∷ ps)))) p ps
          (params_or_created h.vendor_specific_params) [] (0 ∷ m) false
          (omega (arith, length-pair_array_text (p ∷ ps) a, pairs_length-bound (p ∷ ps) a)) a

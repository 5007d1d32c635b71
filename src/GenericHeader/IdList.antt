-- ===== src/GenericHeader/IdList.antt =====
-- The text of the list of active request identifiers
-- (libs/mrcp/message/src/mrcp_generic_header.c). `print` stands for `apr_snprintf`.
use mathlib.Core.Path.{ap₂, subst}
use mathlib.Core.List.{append-nil, append_assoc}
use unimrcp.Prelude.{
  ℕ, zero, suc, ◌+◌, ◌-◌, ◌*◌, ◌^◌, ◌≤◌, ◌<◌, ◌≡◌, inr, refl, sym, ap, ◌∙◌, Bool, true, false, List,
  [], ◌∷◌, ◌++◌, length, All, arith,
}
use unimrcp.HeaderSection.{Str}
use unimrcp.GenericHeader.{GenericHeader, max_active_request_id_count}
use unimrcp.TextStream.{
  TextStream, TextField, stream_of, field_read, spaces_skip, field_scan, advance, run_length,
}
use unimrcp.TextStream.Decimal.{decimal, EndsNumber}
use unimrcp.TextStream.VarLength.{length-decimal}
use unimrcp.TextStream.Insert.{Prints}
use unimrcp.TextStream.Fields.{at, field_read-separated, field_read-last}
use unimrcp.StartLine.{request_id_parse}
use unimrcp.StartLine.Fields.{
  field_of, stream_of-field_of, request_id_parse-decimal, decimal-IsField_of,
}

-- The rounds that are left of the loop of `mrcp_request_id_list_parse`.
unfoldable pub ids_parse : ℕ → TextStream → List ℕ
ids_parse zero s = []
ids_parse (suc n) s =
    let (t, field, ok) = field_read s b',' true in
    elim ok [ true ↦ request_id_parse field ∷ ids_parse n t | false ↦ [] ]

unfoldable pub request_id_list_parse : GenericHeader → TextField → GenericHeader
request_id_list_parse h value = record h {
  active_request_id_list = ids_parse max_active_request_id_count (stream_of value);
}

-- The loop of `mrcp_request_id_list_generate` behind the first identifier, with the room that is left
-- in the string for the numbers and their NUL.
unfoldable pub ids_generate_rest : (ℕ → ℕ → Str) → ℕ → List ℕ → Str
ids_generate_rest print room [] = []
ids_generate_rest print room (id ∷ ids) =
    let digits = print (room - 1) id in
    b',' ∷ (digits ++ ids_generate_rest print (room - 1 - length digits) ids)

-- The length that is estimated in front: ten digits for each identifier, and the commas.
abbrev pub estimated_length : List ℕ → ℕ
estimated_length ids = 10 * length ids + (length ids - 1)

abbrev pub list_text : (ℕ → ℕ → Str) → List ℕ → Str
list_text print [] = []
list_text print (id ∷ ids) =
    let digits = print (estimated_length (id ∷ ids)) id in
    digits ++ ids_generate_rest print (estimated_length (id ∷ ids) - length digits) ids

unfoldable pub request_id_list_generate : (ℕ → ℕ → Str) → GenericHeader → Str
request_id_list_generate print h = list_text print h.active_request_id_list

-- The identifiers behind the first, each with a comma in front.
ids_text : List ℕ → Str
ids_text [] = []
ids_text (id ∷ ids) = b',' ∷ (decimal id ++ ids_text ids)

-- The number of digits of all identifiers.
abbrev pub digit_count : List ℕ → ℕ
digit_count [] = 0
digit_count (id ∷ ids) = length (decimal id) + digit_count ids

ids_generate_rest-text :
    (print : ℕ → ℕ → Str) (room : ℕ) (ids : List ℕ)
    → Prints print
    → digit_count ids + length ids < room
    → ids_generate_rest print room ids ≡ ids_text ids
unfolding ids_generate_rest ids_text
ids_generate_rest-text print room [] p h = refl
ids_generate_rest-text print room (id ∷ ids) p h =
    rw (p.fits (room - 1) id (omega arith), ids_generate_rest)
      (ap (λ r. b',' ∷ (decimal id ++ r))
        (ids_generate_rest-text print (room - 1 - length (decimal id)) ids p (omega arith)))

-- What a round of the parser does with the field it reads.
parse_step : ℕ → TextStream × TextField × Bool → List ℕ
parse_step n (t, field, ok) = elim ok [ true ↦ request_id_parse field ∷ ids_parse n t | false ↦ [] ]

ids_parse-end : (n : ℕ) (b m : Str) (e : Bool) → ids_parse n (at b [] m e) ≡ []
unfolding ids_parse field_read spaces_skip field_scan advance run_length
ids_parse-end zero b m e = refl
ids_parse-end (suc n) b m e = refl

ids_parse-text :
    (n id : ℕ) (ids : List ℕ) (b m : Str) (e : Bool)
    → length ids < n
    → All (λ i. i < 2 ^ 32) (id ∷ ids)
    → EndsNumber m
    → ids_parse n (at b (decimal id ++ ids_text ids) m e) ≡ id ∷ ids
unfolding ids_parse ids_text parse_step
ids_parse-text zero id ids b m e h a hm = absurd (omega arith)
ids_parse-text (suc n) id [] b m e h a hm =
    ap (λ r. parse_step n (field_read (at b r m e) b',' true)) (append-nil (decimal id))
    ∙ ap (parse_step n) (field_read-last b (decimal id) b',' m e (decimal-IsField_of b',' id refl))
    ∙ ap₂ (λ i is. i ∷ is) (request_id_parse-decimal id m a.0 hm)
        (ids_parse-end n (b ++ decimal id) m e)
ids_parse-text (suc n) id (next ∷ ids) b m e h a hm =
    let r : Str = decimal next ++ ids_text ids in
    let t = at (b ++ (decimal id ++ (b',' ∷ []))) r m e in
    ap (parse_step n)
      (field_read-separated b (decimal id) b',' r m e (decimal-IsField_of b',' id refl))
    ∙ ap
        (λ buf.
          request_id_parse (record { buf = buf; length = length (decimal id) }) ∷ ids_parse n t)
        (append_assoc (decimal id) (b',' ∷ r) m)
    ∙ ap₂ (λ i is. i ∷ is) (request_id_parse-decimal id (b',' ∷ (r ++ m)) a.0 refl)
        (ids_parse-text n next ids (b ++ (decimal id ++ (b',' ∷ []))) m e (omega arith) a.1 hm)

request_id_list_generate-text :
    (print : ℕ → ℕ → Str) (h : GenericHeader) (id : ℕ) (ids : List ℕ)
    → Prints print
    → h.active_request_id_list ≡ id ∷ ids
    → digit_count (id ∷ ids) < 10 * length (id ∷ ids)
    → request_id_list_generate print h ≡ decimal id ++ ids_text ids
unfolding request_id_list_generate
request_id_list_generate-text print h id ids p e few =
    let room = estimated_length (id ∷ ids) in
    ap (list_text print) e
    ∙ ap (λ (digits : Str). digits ++ ids_generate_rest print (room - length digits) ids)
        (p.fits room id (omega arith))
    ∙ ap (λ r. decimal id ++ r)
        (ids_generate_rest-text print (room - length (decimal id)) ids p (omega arith))

-- A list of one to five 32-bit identifiers, with fewer than ten digits each on average, is read back
-- from the text that is generated for it, whatever memory follows that starts with no digit.
-- `apr_snprintf` is assumed to print as it documents.
pub request_id_list_parse-request_id_list_generate :
    (print : ℕ → ℕ → Str) (h g : GenericHeader) (m : Str)
    → Prints print
    → length h.active_request_id_list ≤ max_active_request_id_count
    → All (λ id. id < 2 ^ 32) h.active_request_id_list
    → 0 < length h.active_request_id_list
    → digit_count h.active_request_id_list < 10 * length h.active_request_id_list
    → EndsNumber m
    → (request_id_list_parse g
        (field_of (request_id_list_generate print h) m)).active_request_id_list
      ≡ h.active_request_id_list
unfolding request_id_list_parse
request_id_list_parse-request_id_list_generate print h g m p few small some_id short hm =
    go h.active_request_id_list refl
  where
    go :
        (ids : List ℕ)
        → h.active_request_id_list ≡ ids
        → ids_parse max_active_request_id_count
            (stream_of (field_of (request_id_list_generate print h) m))
          ≡ h.active_request_id_list
    go [] e = absurd (omega (arith, ap length e))
    go (id ∷ ids) e =
        ap (λ text. ids_parse max_active_request_id_count (stream_of (field_of text m)))
          (request_id_list_generate-text print h id ids p e
            (subst (λ is. digit_count is < 10 * length is) e short))
        ∙ ap (ids_parse max_active_request_id_count)
            (stream_of-field_of (decimal id ++ ids_text ids) m)
        ∙ ids_parse-text max_active_request_id_count id ids [] m false (omega (arith, ap length e))
            (subst (All (λ i. i < 2 ^ 32)) e small) hm
        ∙ sym e

-- The text of a list that is one identifier of ten digits is shorter than the identifier's print: a
-- digit is lost. `apr_snprintf` is assumed to write no more than the size it is given.
pub request_id_list_generate-truncates :
    (print : ℕ → ℕ → Str) (h : GenericHeader) (id : ℕ)
    → Prints print
    → h.active_request_id_list ≡ id ∷ []
    → 10 ^ 9 ≤ id
    → id < 10 ^ 10
    → length (request_id_list_generate print h) < length (decimal id)
unfolding request_id_list_generate ids_generate_rest
request_id_list_generate-truncates print h id p e low high =
    let text : request_id_list_generate print h ≡ print 10 id =
      ap (list_text print) e ∙ append-nil (print 10 id) in
    omega (
      arith,
      ap length text,
      p.bounded 10 id (omega arith),
      length-decimal id 9 (omega arith, inr low),
    )

-- ===== src/StartLine/Fields.antt =====
-- How the fields of a start-line are read back from their text.
use mathlib.Core.List.{append_assoc}
use mathlib.Core.Path.{ap₂}
use unimrcp.Prelude.{
  ℕ, zero, suc, ◌&&◌, ◌%◌, ◌^◌, ◌≤◌, ◌<◌, ◌≡◌, ◌≢◌, refl, sym, ap, ◌∙◌, Bool, true, false, not, [],
  ◌∷◌, ◌++◌, length, All, get_or, ◌==◌, if◌then◌else◌, arith, ==_false, take_part, drop_part,
}
use unimrcp.HeaderSection.{Str}
use unimrcp.Message.{
  StartLine, Version, unversioned, version_1, version_2, RequestState, complete, in_progress,
  pending, unknown,
}
use unimrcp.StringTable.{equal_nocase, string_compare, str_get, item_matches, id_find}
use unimrcp.TextStream.{TextStream, TextField, stream_of, token_sp, string_copy}
use unimrcp.TextStream.Fields.{IsField, at, field_read-separated, field_read-last}
use unimrcp.TextStream.Decimal.{
  is_digit, decimal, decimal_from, digits_value, atol, atol_signed, EndsNumber, IsDigit,
  All-decimal_from, decimal_from-nonempty, atol-decimal,
}
use unimrcp.StartLine.{
  mrcp_name, version_parse, request_state_parse, request_id_parse, status_code_parse,
  size_value_parse, with_field, starts_with,
}
use unimrcp.StartLine.Text.{state_text, version_text}

-- A field of a text, with what follows it in memory.
abbrev pub field_of : Str → Str → TextField
field_of f r = record { buf = f ++ r; length = length f }

pub stream_of-field_of : (f m : Str) → stream_of (field_of f m) ≡ at [] f m false
unfolding stream_of
stream_of-field_of f m =
    ap₂ (λ u v. at [] u v false) (take_part f m refl refl) (drop_part f m refl refl)

pub string_copy-field_of : (f r : Str) → string_copy (field_of f r) ≡ f
string_copy-field_of f r = take_part f r refl refl

module _ (line : StartLine) (b f : Str) (m : Str) (e : Bool) (h : IsField token_sp f) where
  pub with_field-separated :
      (r : Str) (next : TextStream → TextField → StartLine × Bool)
      → with_field line (at b (f ++ (token_sp ∷ r)) m e) next
        ≡ next (at (b ++ (f ++ (token_sp ∷ []))) r m e) (field_of f (token_sp ∷ (r ++ m)))
  unfolding with_field
  with_field-separated r next =
      ap (λ (t, field, ok). if ok then next t field else (line, false))
        (field_read-separated b f token_sp r m e h)
      ∙ ap
          (λ buf.
            next (at (b ++ (f ++ (token_sp ∷ []))) r m e) (record { buf = buf; length = length f }))
          (append_assoc f (token_sp ∷ r) m)

  pub with_field-last :
      (next : TextStream → TextField → StartLine × Bool)
      → with_field line (at b f m e) next ≡ next (at (b ++ f) [] m e) (field_of f m)
  unfolding with_field
  with_field-last next =
      ap (λ (t, field, ok). if ok then next t field else (line, false))
        (field_read-last b f token_sp m e h)

digits_IsField :
    (sep : ℕ) (s : Str) → is_digit sep ≡ false → All IsDigit s → 0 < length s → IsField sep s
digits_IsField sep [] n a h = absurd (omega arith)
digits_IsField sep (c ∷ cs) n a h = ((ground (arith, a.0), rest cs a.1), ground (arith, a.0))
  where
    rest : (ds : Str) → All IsDigit ds → All (λ d. not (d == sep) ≡ true) ds
    rest [] a = tt
    rest (d ∷ ds) a = (ground (arith, a.0), rest ds a.1)

-- A number in front of a separator that is no digit.
pub decimal-IsField_of : (sep n : ℕ) → is_digit sep ≡ false → IsField sep (decimal n)
unfolding decimal
decimal-IsField_of sep n h =
    digits_IsField sep (decimal_from (suc n) n) h (All-decimal_from (suc n) n)
      (decimal_from-nonempty n n)

pub decimal-IsField : (n : ℕ) → IsField token_sp (decimal n)
decimal-IsField n = decimal-IsField_of token_sp n refl

pub version_text-IsField : (v : Version) → v ≢ unversioned → IsField token_sp (version_text v)
unfolding decimal decimal_from
version_text-IsField unversioned h = absurd (h refl)
version_text-IsField version_1 h = ground arith
version_text-IsField version_2 h = ground arith

pub state_text-IsField : (s : RequestState) → s ≢ unknown → IsField token_sp (state_text s)
unfolding str_get
state_text-IsField complete h = ground arith
state_text-IsField in_progress h = ground arith
state_text-IsField pending h = ground arith
state_text-IsField unknown h = absurd (h refl)

pub request_id_parse-decimal :
    (n : ℕ) (r : Str) → n < 2 ^ 32 → EndsNumber r → request_id_parse (field_of (decimal n) r) ≡ n
unfolding request_id_parse
request_id_parse-decimal n r h e =
    ap (λ k. k % 2 ^ 32) (atol-decimal n r (omega arith) e) ∙ omega arith

pub status_code_parse-decimal :
    (n : ℕ) (r : Str) → n < 2 ^ 32 → EndsNumber r → status_code_parse (field_of (decimal n) r) ≡ n
unfolding status_code_parse
status_code_parse-decimal n r h e =
    ap (λ k. k % 2 ^ 32) (atol-decimal n r (omega arith) e) ∙ omega arith

pub size_value_parse-decimal :
    (n : ℕ) (r : Str) → n < 2 ^ 63 → EndsNumber r → size_value_parse (field_of (decimal n) r) ≡ n
unfolding size_value_parse
size_value_parse-decimal n r h e = atol-decimal n r h e

pub request_state_parse-state_text :
    (s : RequestState) (r : Str) → s ≢ unknown → request_state_parse (field_of (state_text s) r) ≡ s
unfolding request_state_parse str_get id_find item_matches string_compare equal_nocase
request_state_parse-state_text complete r h = refl
request_state_parse-state_text in_progress r h = refl
request_state_parse-state_text pending r h = refl
request_state_parse-state_text unknown r h = absurd (h refl)

pub version_parse-version_text :
    (v : Version) (r : Str) → version_parse (field_of (version_text v) r) ≡ v
unfolding version_parse equal_nocase decimal decimal_from
version_parse-version_text unversioned r = refl
version_parse-version_text version_1 r = refl
version_parse-version_text version_2 r = refl

-- A field whose first character is a letter, or what follows the letters in ASCII.
abbrev pub IsName : Str → Type 0
IsName [] = ⊥
IsName (c ∷ cs) = (0x41 ≤ c) × All (λ d. not (d == token_sp) ≡ true) (c ∷ cs)

pub IsName-IsField : (name : Str) → IsName name → IsField token_sp name
IsName-IsField [] h = absurd h
IsName-IsField (c ∷ cs) h = (h.1, ground (arith, h.0))

-- Such a field is read as the number 0, and does not start with that digit.
pub request_id_parse-name : (name r : Str) → IsName name → request_id_parse (field_of name r) ≡ 0
unfolding request_id_parse atol atol_signed digits_value
request_id_parse-name [] r h = absurd h
request_id_parse-name (c ∷ cs) r h = ground (arith, h.0)

pub name_first : (name r : Str) → IsName name → (get_or (name ++ r) 0 0 == b'0') ≡ false
name_first [] r h = absurd h
name_first (c ∷ cs) r h = ground (arith, h.0)

-- A number is not taken for a name.
pub number_first :
    (n : ℕ) (r : Str) → ((n == 0) && not (get_or (decimal n ++ r) 0 0 == b'0')) ≡ false
unfolding decimal decimal_from
number_first zero r = refl
number_first (suc n) r =
    ap (λ test. test && not (get_or (decimal (suc n) ++ r) 0 0 == b'0'))
      (==_false (suc n) 0 (omega arith))

-- A version is no request state.
pub request_state_parse-version_text :
    (v : Version) (r : Str) → request_state_parse (field_of (version_text v) r) ≡ unknown
unfolding request_state_parse id_find item_matches string_compare equal_nocase decimal decimal_from
request_state_parse-version_text unversioned r = refl
request_state_parse-version_text version_1 r = refl
request_state_parse-version_text version_2 r = refl

pub starts_with-version_text :
    (v : Version) (r : Str) → starts_with mrcp_name (version_text v ++ r) ≡ true
unfolding starts_with decimal decimal_from
starts_with-version_text unversioned r = refl
starts_with-version_text version_1 r = refl
starts_with-version_text version_2 r = refl

-- Whether a text starts with a name that has no space is settled at the text's first space.
pub starts_with-space :
    (name x r : Str)
    → All (λ d. (d == token_sp) ≡ false) name
    → starts_with name (x ++ (token_sp ∷ r)) ≡ starts_with name (x ++ (token_sp ∷ []))
unfolding starts_with
starts_with-space [] x r a = refl
starts_with-space (c ∷ name) [] r a =
    ap (λ test. test && starts_with name r) a.0 ∙ sym (ap (λ test. test && starts_with name []) a.0)
starts_with-space (c ∷ name) (d ∷ x) r a =
    ap (λ test. (c == d) && test) (starts_with-space name x r a.1)

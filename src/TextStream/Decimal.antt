-- ===== src/TextStream/Decimal.antt =====
-- Decimal numbers as the C library prints and reads them: `%lu` of `sprintf`, and `atol`.
use mathlib.Core.Path.{subst}
use mathlib.Core.List.{append_assoc}
use native.Mathlib.Decide.{dec_lt}
use unimrcp.Prelude.{
  lt→ltb, ltb-false, All-snoc, ℕ, zero, suc, ◌+◌, ◌-◌, ◌*◌, ◌/◌, ◌%◌, ◌^◌, ◌≤◌, ◌<◌, min, ◌≡◌, refl,
  sym, ap, ◌∙◌, Bool, true, false, ◌&&◌, ◌||◌, [], ◌∷◌, ◌++◌, length, All, leb, ltb, ◌==◌,
  if◌then◌else◌, arith, length-append,
}
use unimrcp.HeaderSection.{Str}

-- The digits of a number below 10 ^ fuel, most significant first.
unfoldable pub decimal_from : ℕ → ℕ → Str
decimal_from zero n = []
decimal_from (suc fuel) n = elim (ltb n 10) [
  | true ↦ (0x30 + n) ∷ []
  | false ↦ decimal_from fuel (n / 10) ++ ((0x30 + n % 10) ∷ [])
]

-- What `%lu` prints. A number has at most as many digits as its value plus one.
unfoldable pub decimal : ℕ → Str
decimal n = decimal_from (suc n) n

abbrev pub is_digit : ℕ → Bool
is_digit c = leb 0x30 c && leb c 0x39

-- `isspace` of the C locale
abbrev pub is_space : ℕ → Bool
is_space c = (c == 0x20) || (leb 0x09 c && leb c 0x0D)

-- The value of the digits that a text starts with, behind the value `n`.
unfoldable pub digits_value : ℕ → Str → ℕ
digits_value n [] = n
digits_value n (c ∷ cs) = elim (is_digit c) [
  | true ↦ digits_value (n * 10 + (c - 0x30)) cs
  | false ↦ n
]

-- `atol`, as a 64-bit pattern: white space is skipped, a sign is read, and a number out of range
-- gives the bound. A text that ends with its memory is read as if a NUL followed.
unfoldable pub atol_signed : Str → ℕ
atol_signed [] = 0
atol_signed (c ∷ cs) =
    if c == 0x2D
    then (2 ^ 64 - min (digits_value 0 cs) (2 ^ 63)) % 2 ^ 64
    else if c == 0x2B
    then min (digits_value 0 cs) (2 ^ 63 - 1)
    else min (digits_value 0 (c ∷ cs)) (2 ^ 63 - 1)

unfoldable pub atol : Str → ℕ
atol [] = 0
atol (c ∷ cs) = elim (is_space c) [ true ↦ atol cs | false ↦ atol_signed (c ∷ cs) ]

-- The texts at which `atol` stops reading digits.
abbrev pub EndsNumber : Str → Type 0
EndsNumber [] = Unit
EndsNumber (c ∷ cs) = is_digit c ≡ false

abbrev pub IsDigit : ℕ → Type 0
IsDigit c = is_digit c ≡ true

is_digit_lem : (n : ℕ) → n < 10 → is_digit (0x30 + n) ≡ true
is_digit_lem n h = ground arith

pub decimal_small : (fuel n : ℕ) → n < 10 → decimal_from (suc fuel) n ≡ (0x30 + n) ∷ []
unfolding decimal_from
decimal_small fuel n h = rw (lt→ltb n 10 h, decimal_from)

pub decimal_large :
    (fuel n : ℕ)
    → 10 ≤ n
    → decimal_from (suc fuel) n ≡ decimal_from fuel (n / 10) ++ ((0x30 + n % 10) ∷ [])
unfolding decimal_from
decimal_large fuel n h = rw (ltb-false n 10 h, decimal_from)

pub All-decimal_from : (fuel n : ℕ) → All IsDigit (decimal_from fuel n)
unfolding decimal_from
All-decimal_from zero n = tt
All-decimal_from (suc fuel) n = elim (dec_lt n 10) [
  | yes h ↦ subst (All IsDigit) (sym (decimal_small fuel n h)) (is_digit_lem n h, tt)
  | no h ↦
      subst (All IsDigit) (sym (decimal_large fuel n (omega arith))) (
        All-snoc IsDigit _ _ (All-decimal_from fuel (n / 10)) (is_digit_lem (n % 10) (omega arith)))
]

-- The digit of `k` behind the value `n`.
digit_step :
    (n k : ℕ) (r : Str) → k < 10 → digits_value n ((0x30 + k) ∷ r) ≡ digits_value (n * 10 + k) r
unfolding digits_value
digit_step n k r h =
    rw (is_digit_lem k h, digits_value) (ap (λ m. digits_value (n * 10 + m) r) (omega arith))

pub digits_value-decimal_from :
    (fuel n : ℕ) (r : Str) → n < fuel → digits_value 0 (decimal_from fuel n ++ r) ≡ digits_value n r
digits_value-decimal_from zero n r h = absurd (omega arith)
digits_value-decimal_from (suc fuel) n r h = elim (dec_lt n 10) [
  | yes l ↦
      ap (λ t. digits_value 0 (t ++ r)) (decimal_small fuel n l)
      ∙ digit_step 0 n r l
      ∙ ap (λ m. digits_value m r) (omega arith)
  | no l ↦
      ap (λ t. digits_value 0 (t ++ r)) (decimal_large fuel n (omega arith))
      ∙ ap (digits_value 0) (append_assoc (decimal_from fuel (n / 10)) _ r)
      ∙ digits_value-decimal_from fuel (n / 10) ((0x30 + n % 10) ∷ r) (omega arith)
      ∙ digit_step (n / 10) (n % 10) r (omega arith)
      ∙ ap (λ m. digits_value m r) (omega arith)
]

digits_value_stop : (n : ℕ) (r : Str) → EndsNumber r → digits_value n r ≡ n
unfolding digits_value
digits_value_stop n [] h = refl
digits_value_stop n (c ∷ cs) h = rw (h, digits_value)

-- A digit is no white space and no sign.
atol_digit :
    (c : ℕ) (cs : Str)
    → is_digit c ≡ true
    → atol (c ∷ cs) ≡ min (digits_value 0 (c ∷ cs)) (2 ^ 63 - 1)
unfolding atol atol_signed
atol_digit c cs h = ground arith

atol_digits :
    (s r : Str)
    → All IsDigit s
    → 0 < length s
    → atol (s ++ r) ≡ min (digits_value 0 (s ++ r)) (2 ^ 63 - 1)
atol_digits [] r a h = absurd (omega arith)
atol_digits (c ∷ cs) r a h = atol_digit c (cs ++ r) a.0

pub decimal_from-nonempty : (fuel n : ℕ) → 0 < length (decimal_from (suc fuel) n)
decimal_from-nonempty fuel n = elim (dec_lt n 10) [
  | yes h ↦ omega (arith, ap length (decimal_small fuel n h))
  | no h ↦ omega (
    arith,
    ap length (decimal_large fuel n (omega arith)),
    length-append (decimal_from fuel (n / 10)) ((0x30 + n % 10) ∷ []),
  )
]

pub atol-decimal : (n : ℕ) (r : Str) → n < 2 ^ 63 → EndsNumber r → atol (decimal n ++ r) ≡ n
unfolding decimal
atol-decimal n r h e =
    atol_digits (decimal n) r (All-decimal_from (suc n) n) (decimal_from-nonempty n n)
    ∙ ap (λ m. min m (2 ^ 63 - 1))
        (digits_value-decimal_from (suc n) n r (omega arith) ∙ digits_value_stop n r e)
    ∙ omega arith

pub length-decimal_pos : (n : ℕ) → 0 < length (decimal n)
unfolding decimal
length-decimal_pos n = decimal_from-nonempty n n

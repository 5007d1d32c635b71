-- ===== src/StartLine/Finalize.antt =====
-- What the finalization of a start-line makes of the text.
use mathlib.Core.List.{append_assoc}
use mathlib.Core.Path.{ap₂}
use unimrcp.Prelude.{
  ℕ, ◌+◌, ◌-◌, ◌%◌, ◌^◌, ◌≤◌, ◌<◌, ◌≡◌, refl, sym, ap, ◌∙◌, Bool, true, false, none, some, ◌∷◌,
  ◌++◌, length, replicate, take, drop, ltb, if◌then◌else◌, ◌>>=◌, arith, length-append, le→leb,
  length-replicate, take_part, drop_part, replicate-append, replicate-snoc,
}
use unimrcp.HeaderSection.{Str}
use unimrcp.Message.{StartLine, version_2}
use unimrcp.TextStream.{TextStream, token_sp}
use unimrcp.TextStream.Decimal.{decimal}
use unimrcp.TextStream.Values.{var_length_value_generate}
use unimrcp.TextStream.VarLength.{var_length_value_generate-digits}
use unimrcp.StartLine.Generate.{
  max_digit_count, length_insert, length_write, v2_finalize, finalize_switch, start_line_finalize,
}

-- A text with room for six digits and a space behind `p`.
abbrev pub reserved : Str → Str → Str
reserved p t = p ++ (replicate (max_digit_count + 1) token_sp ++ t)

-- The digits take the end of the room, and the text in front moves up to them.
length_insert-reserved :
    (p t digits : Str)
    → length digits ≤ max_digit_count
    → length_insert (reserved p t) (length p) digits ≡ some (p ++ (digits ++ (token_sp ∷ t)))
unfolding length_insert
length_insert-reserved p t digits h = rw (le→leb (length p + n + 1) (length (reserved p t)) fits) (
    ap (λ r. some (take (length p + n) r ++ drop (max_digit_count - n + (length p + n)) r)) spaced
    ∙ ap₂ (λ u v. some (u ++ v))
        (take_part (p ++ digits) (token_sp ∷ left) moved (sym (append_assoc p digits _)))
        (drop_part ((p ++ digits) ++ spaces) (token_sp ∷ t) behind shifted)
    ∙ ap some (append_assoc p digits (token_sp ∷ t)))
  where
    n : ℕ
    n = length digits

    spaces : Str
    spaces = replicate (max_digit_count - n) token_sp

    left : Str
    left = spaces ++ t

    fits : length p + n + 1 ≤ length (reserved p t)
    fits = omega (arith, length-append p (replicate (max_digit_count + 1) token_sp ++ t))

    split : reserved p t ≡ (p ++ replicate (n + 1) token_sp) ++ left
    split =
        ap (λ r. p ++ (r ++ t))
          (ap (λ k. replicate k token_sp) {x = max_digit_count + 1}
              {y = n + 1 + (max_digit_count - n)} (omega arith)
            ∙ replicate-append (n + 1) (max_digit_count - n) token_sp)
        ∙ ap (λ r. p ++ r) (append_assoc (replicate (n + 1) token_sp) spaces t)
        ∙ sym (append_assoc p (replicate (n + 1) token_sp) left)

    spaced :
        take (length p) (reserved p t)
          ++ (digits ++ (token_sp ∷ drop (length p + n + 1) (reserved p t)))
        ≡ p ++ (digits ++ (token_sp ∷ left))
    spaced =
        ap₂ (λ q r. q ++ (digits ++ (token_sp ∷ r)))
          (take_part p (replicate (max_digit_count + 1) token_sp ++ t) refl refl)
          (drop_part (p ++ replicate (n + 1) token_sp) left
            (omega (
              arith,
              length-append p (replicate (n + 1) token_sp),
              length-replicate (n + 1) token_sp,
            ))
            split)

    moved : length p + n ≡ length (p ++ digits)
    moved = omega (arith, length-append p digits)

    behind : max_digit_count - n + (length p + n) ≡ length ((p ++ digits) ++ spaces)
    behind = omega (
      arith,
      length-append (p ++ digits) spaces,
      length-append p digits,
      length-replicate (max_digit_count - n) token_sp,
    )

    shifted : p ++ (digits ++ (token_sp ∷ left)) ≡ ((p ++ digits) ++ spaces) ++ (token_sp ∷ t)
    shifted =
        ap (λ r. p ++ (digits ++ r)) (replicate-snoc (max_digit_count - n) token_sp t)
        ∙ sym (append_assoc p digits (spaces ++ (token_sp ∷ t)))
        ∙ sym (append_assoc (p ++ digits) spaces (token_sp ∷ t))

length_write-reserved :
    (line : StartLine) (s : TextStream) (p t digits : Str) (value : ℕ) (b : Bool)
    → s.before ≡ reserved p t
    → line.length ≡ length p
    → ltb max_digit_count (length digits) ≡ b
    → length_write line s value (if b then none else some digits)
      ≡ some (
          if b then (line, s, false) else (
            record line { length = value },
            record s { before = p ++ (digits ++ (token_sp ∷ t)) },
            true,
          ))
length_write-reserved line s p t digits value true e o h = refl
length_write-reserved line s p t digits value false e o h =
    ap
      (λ r.
        r >>= λ before. some (record line { length = value }, record s { before = before }, true))
      (ap₂ (λ text n. length_insert text n digits) e o
        ∙ length_insert-reserved p t digits (ground (arith, h)))

-- If a line of version 2 keeps the offset of seven reserved spaces, and the message is shorter than
-- 10 ^ 19 bytes, the finalization finds a length that equals the bytes in front of the position of
-- the stream, once its own digits are among them, and the length of the content. If it has at most
-- six digits, they and one space replace the reserved spaces, and the line takes the length; else
-- the function returns FALSE and changes nothing.
pub start_line_finalize-length :
    (line : StartLine) (content_length : ℕ) (s : TextStream) (p t : Str)
    → line.version ≡ version_2
    → s.before ≡ reserved p t
    → line.length ≡ length p
    → length s.before + content_length < 10 ^ 19
    → (total : ℕ) × (total ≡ length (p ++ (decimal total ++ (token_sp ∷ t))) + content_length)
      × (start_line_finalize line content_length s
          ≡ some (
              if ltb max_digit_count (length (decimal total)) then (line, s, false) else (
                record line { length = total },
                record s { before = p ++ (decimal total ++ (token_sp ∷ t)) },
                true,
              )))
unfolding start_line_finalize v2_finalize
start_line_finalize-length line content_length s p t v e o h =
    let (total, sum, run) = var_length_value_generate-digits value max_digit_count (omega arith) in
    (
      total,
      omega (
        arith,
        sum,
        size,
        length-append p (decimal total ++ (token_sp ∷ t)),
        length-append (decimal total) (token_sp ∷ t),
      ),
      ap (λ v. finalize_switch v line (length s.before + content_length) s) v
          ∙ ap
              (λ n. var_length_value_generate n max_digit_count >>= λ (value, text).
                length_write line s value text)
              wrapped
          ∙ ap (λ r. r >>= λ (value, text). length_write line s value text) run
          ∙ length_write-reserved line s p t (decimal total) total _ e o refl,
    )
  where
    size : length s.before ≡ length p + (7 + length t)
    size =
        ap length e ∙ length-append p (replicate (max_digit_count + 1) token_sp ++ t) ∙ omega arith

    value : ℕ
    value = length s.before + content_length - max_digit_count

    wrapped : (length s.before + content_length + 2 ^ 64 - max_digit_count) % 2 ^ 64 ≡ value
    wrapped = omega (arith, size)

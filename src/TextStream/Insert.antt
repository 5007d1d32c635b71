-- ===== src/TextStream/Insert.antt =====
-- The insertions of libs/apr-toolkit/include/apt_text_stream.h and src/apt_text_stream.c. The result
-- is `none` where the code writes past the end of the stream. `apr_snprintf`, of the APR library, is
-- the parameter `print`: the characters it prints for a number with `%lu` into a buffer of a size.
use mathlib.Core.Path.{subst}
use mathlib.Core.List.{append-nil, append_assoc}
use unimrcp.Prelude.{
  ◌≢◌, le→leb, ==_false, ℕ, ◌+◌, ◌≤◌, ◌<◌, ◌≡◌, refl, sym, ap, ◌∙◌, Bool, true, false, Option, none,
  some, [], ◌∷◌, ◌++◌, length, drop, leb, ltb, ◌==◌, if◌then◌else◌, ◌>>=◌, arith, length-append,
  length-drop,
}
use unimrcp.HeaderSection.{Str}
use unimrcp.TextStream.{TextStream, token_sp, token_htab, token_cr, token_lf, token_colon}
use unimrcp.TextStream.Decimal.{decimal, length-decimal_pos}

-- `memcpy` to `pos` with `pos` moved behind the copy.
unfoldable pub put : Str → TextStream → Option (TextStream × Bool)
put bytes s =
    if leb (length bytes) (length s.rest)
    then some (record s { before = s.before ++ bytes; rest = drop (length bytes) s.rest }, true)
    else none

unfoldable pub eol_insert : TextStream → Option (TextStream × Bool)
eol_insert s = if ltb 2 (length s.rest) then put (token_cr ∷ token_lf ∷ []) s else some (s, false)

unfoldable pub char_insert : TextStream → ℕ → Option (TextStream × Bool)
char_insert s ch = if ltb 1 (length s.rest) then put (ch ∷ []) s else some (s, false)

unfoldable pub space_insert : TextStream → Option (TextStream × Bool)
space_insert s = char_insert s token_sp

unfoldable pub htab_insert : TextStream → Option (TextStream × Bool)
htab_insert s = char_insert s token_htab

unfoldable pub string_insert : TextStream → Str → Option (TextStream × Bool)
string_insert s str = if leb (length s.rest) (length str) then some (s, false) else put str s

unfoldable pub header_name_insert : TextStream → Str → Option (TextStream × Bool)
header_name_insert s name =
    if leb (length s.rest) (length name + 2)
    then some (s, false)
    else do (s, _) ← put name s; put (token_colon ∷ token_sp ∷ []) s

unfoldable pub name_value_insert : TextStream → Str → Str → Option (TextStream × Bool)
name_value_insert s name value =
    if leb (length s.rest) (length name + length value + 2) then some (s, false) else do
      (s, _) ← put name s
      (s, _) ← put (token_colon ∷ token_sp ∷ []) s
      (s, _) ← put value s
      eol_insert s

-- A NUL over the first of the bytes that follow; `pos` is left on it.
abbrev nul_write : TextStream → Str → Option (TextStream × Bool)
nul_write s [] = none
nul_write s (c ∷ cs) = some (record s { rest = 0 ∷ cs }, true)

module _ (print : ℕ → ℕ → Str) where
  unfoldable pub size_value_insert : TextStream → ℕ → Option (TextStream × Bool)
  size_value_insert s value =
      let digits = print (length s.rest) value in
      if length digits == 0 then some (s, false) else do (t, _) ← put digits s; nul_write t t.rest

-- What `apr_snprintf` documents of `%lu`: a number that fits with its NUL is printed in full, and
-- never more is written than the size that is given.
pub record Prints (print : ℕ → ℕ → Str) : Type 0 where
  pub fits : (room n : ℕ) → length (decimal n) < room → print room n ≡ decimal n
  pub bounded : (room n : ℕ) → 0 < room → length (print room n) < room

-- From `s` to `t`, the bytes were written and nothing else before `pos`.
pub record Written (s : TextStream) (bytes : Str) (t : TextStream) : Type 0 where
  pub text : t.before ≡ s.before ++ bytes
  pub room : length t.rest + length bytes ≡ length s.rest

-- The insertion returns TRUE and writes exactly the bytes.
abbrev pub Writes : TextStream → Str → Option (TextStream × Bool) → Type 0
Writes s bytes r = (t : TextStream) × (r ≡ some (t, true)) × Written s bytes t

pub put-Writes :
    (bytes : Str) (s : TextStream) → length bytes ≤ length s.rest → Writes s bytes (put bytes s)
unfolding put
put-Writes bytes s h = (
  record s { before = s.before ++ bytes; rest = drop (length bytes) s.rest },
  rw (le→leb _ _ h) refl,
  record { text = refl; room = omega (arith, length-drop (length bytes) s.rest) },
)

pub Written-trans :
    {s t u : TextStream} {xs ys : Str} → Written s xs t → Written t ys u → Written s (xs ++ ys) u
Written-trans {s} {xs} {ys} v w = record {
  text = w.text ∙ ap (λ b. b ++ ys) v.text ∙ append_assoc s.before xs ys;
  room = omega (arith, v.room, w.room, length-append xs ys);
}

pub bind-Writes :
    (k : TextStream × Bool → Option (TextStream × Bool)) {s : TextStream} {xs ys : Str}
    {r : Option (TextStream × Bool)}
    → Writes s xs r
    → ((t : TextStream) → Written s xs t → Writes t ys (k (t, true)))
    → Writes s (xs ++ ys) (r >>= k)
bind-Writes k (t, e, w) next =
    let (u, e', w') = next t w in (u, ap (λ r. r >>= k) e ∙ e', Written-trans w w')

pub end-Writes :
    {s : TextStream} {xs : Str} {r : Option (TextStream × Bool)}
    → Writes s xs r
    → Writes s xs (r >>= λ (t, _). some (t, true))
end-Writes (t, e, w) = (t, ap (λ r. r >>= λ (t, _). some (t, true)) e, w)

-- The NUL takes no room.
nul_write-Writes :
    (t : TextStream) (cs : Str) → t.rest ≡ cs → 0 < length t.rest → Writes t [] (nul_write t cs)
nul_write-Writes t [] e h = absurd (omega (arith, ap length e))
nul_write-Writes t (c ∷ cs) e h = (
  record t { rest = 0 ∷ cs },
  refl,
  record { text = sym (append-nil t.before); room = omega (arith, ap length e) },
)

pub size_value_insert-Writes :
    (print : ℕ → ℕ → Str) (s : TextStream) (n : ℕ)
    → Prints print
    → length (decimal n) < length s.rest
    → Writes s (decimal n) (size_value_insert print s n)
unfolding size_value_insert
size_value_insert-Writes print s n p h =
    subst (λ xs. Writes s xs (size_value_insert print s n)) (append-nil (decimal n))
      (rw (p.fits (length s.rest) n h, size_value_insert, ==_false (length (decimal n)) 0 nonempty)
        (bind-Writes (λ (t, _). nul_write t t.rest) (put-Writes (decimal n) s (omega arith))
          λ t w. nul_write-Writes t t.rest refl (omega (arith, w.room))))
  where
    nonempty : length (decimal n) ≢ 0
    nonempty e = omega (arith, length-decimal_pos n)

pub if-Writes :
    (b : Bool) {s : TextStream} {xs ys : Str} {r q : Option (TextStream × Bool)}
    → Writes s xs r
    → Writes s ys q
    → Writes s (if b then xs else ys) (if b then r else q)
if-Writes true h g = h
if-Writes false h g = g

pub none-Writes : (s : TextStream) → Writes s [] (some (s, true))
none-Writes s = (s, refl, record { text = sym (append-nil s.before); room = omega arith })

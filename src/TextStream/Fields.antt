-- ===== src/TextStream/Fields.antt =====
-- How separated fields are read from a text stream.
use mathlib.Core.List.{append-nil, append_assoc}
use mathlib.Core.Path.{ap₂}
use unimrcp.Prelude.{
  ℕ, Option, none, some, suc, ◌+◌, ◌<◌, ◌≡◌, refl, sym, ap, ◌∙◌, Bool, true, false, not, [], ◌∷◌,
  ◌++◌, length, All, take, drop, ltb, ◌==◌, if◌then◌else◌, arith, length-append, lt→ltb, ltb-false,
  ==_self, take_part, drop_part, take_all, drop_all,
}
use unimrcp.HeaderSection.{Str}
use unimrcp.TextStream.{
  TextStream, TextField, token_sp, advance, run_length, spaces_skip, field_scan, field_read, is_eol,
  eol_length, line_scan, line_read, token_cr, token_lf,
}

pub run_length-stop :
    (p : ℕ → Bool) (xs : Str) (d : ℕ) (r : Str)
    → All (λ c. p c ≡ true) xs
    → p d ≡ false
    → run_length p (xs ++ (d ∷ r)) ≡ length xs
unfolding run_length
run_length-stop p [] d r a h = rw h
run_length-stop p (x ∷ xs) d r a h = rw a.0 (ap suc (run_length-stop p xs d r a.1 h))

pub run_length-All :
    (p : ℕ → Bool) (xs : Str) → All (λ c. p c ≡ true) xs → run_length p xs ≡ length xs
unfolding run_length
run_length-All p [] a = refl
run_length-All p (x ∷ xs) a = rw a.0 (ap suc (run_length-All p xs a.1))

-- A field may stand in front of a separator: it has characters, does not contain the separator, and
-- does not start with a space.
abbrev pub IsField : ℕ → Str → Type 0
IsField sep [] = ⊥
IsField sep (c ∷ cs) = All (λ d. not (d == sep) ≡ true) (c ∷ cs) × ((c == token_sp) ≡ false)

-- A stream with some of its text read.
abbrev pub at : Str → Str → Str → Bool → TextStream
at before rest beyond is_eos = record {
  before = before;
  rest = rest;
  beyond = beyond;
  is_eos = is_eos;
}

spaces_skip-none :
    (b : Str) (c : ℕ) (cs m : Str) (e : Bool)
    → (c == token_sp) ≡ false
    → spaces_skip (at b (c ∷ cs) m e) ≡ at b (c ∷ cs) m e
unfolding spaces_skip run_length advance
spaces_skip-none b c cs m e h = rw (h, run_length) (ap (λ t. at t (c ∷ cs) m e) (append-nil b))

-- A scan whose parts are known.
scan_parts :
    (b rest m : Str) (e : Bool) (sep n k : ℕ) (u v : Str)
    → run_length (λ c. not (c == sep)) rest ≡ n
    → (if ltb n (length rest) then 1 else 0) ≡ k
    → take (n + k) rest ≡ u
    → drop (n + k) rest ≡ v
    → 0 < n
    → field_scan (at b rest m e) sep
      ≡ (at (b ++ u) v m e, record { buf = rest ++ m; length = n }, true)
unfolding field_scan advance
scan_parts b rest m e sep n k u v hn hk hu hv h = rw (hn, hk, hu, hv, lt→ltb 0 n h) refl

pub field_read-separated :
    (b f : Str) (sep : ℕ) (r m : Str) (e : Bool)
    → IsField sep f
    → field_read (at b (f ++ (sep ∷ r)) m e) sep true ≡ (
      at (b ++ (f ++ (sep ∷ []))) r m e,
      record { buf = (f ++ (sep ∷ r)) ++ m; length = length f },
      true,
    )
unfolding field_read
field_read-separated b [] sep r m e h = absurd h
field_read-separated b (c ∷ cs) sep r m e h =
    let f : Str = c ∷ cs in
    let one : length f + 1 ≡ length (f ++ (sep ∷ [])) = omega (arith, length-append f (sep ∷ [])) in
    let split : f ++ (sep ∷ r) ≡ (f ++ (sep ∷ [])) ++ r = sym (append_assoc f (sep ∷ []) r) in
    ap (λ s. field_scan s sep) (spaces_skip-none b c (cs ++ (sep ∷ r)) m e h.1)
    ∙ scan_parts b (f ++ (sep ∷ r)) m e sep (length f) 1 (f ++ (sep ∷ [])) r
        (run_length-stop (λ d. not (d == sep)) f sep r h.0 (ap not (==_self sep)))
        (ap (λ t. if t then 1 else 0)
          (lt→ltb (length f) (length (f ++ (sep ∷ r))) (omega (arith, length-append f (sep ∷ r)))))
        (take_part (f ++ (sep ∷ [])) r one split) (drop_part (f ++ (sep ∷ [])) r one split)
        (omega arith)

pub field_read-last :
    (b f : Str) (sep : ℕ) (m : Str) (e : Bool)
    → IsField sep f
    → field_read (at b f m e) sep true
      ≡ (at (b ++ f) [] m e, record { buf = f ++ m; length = length f }, true)
unfolding field_read
field_read-last b [] sep m e h = absurd h
field_read-last b (c ∷ cs) sep m e h =
    let f : Str = c ∷ cs in
    ap (λ s. field_scan s sep) (spaces_skip-none b c cs m e h.1)
    ∙ scan_parts b f m e sep (length f) 0 f [] (run_length-All (λ d. not (d == sep)) f h.0)
        (ap (λ t. if t then 1 else 0) (ltb-false (length f) (length f) (omega arith)))
        (take_all (length f + 0) f (omega arith)) (drop_all (length f + 0) f (omega arith))
        (omega arith)

-- A line in front of CR LF is read without them.
line_scan-crlf :
    (f r : Str)
    → All (λ c. is_eol c ≡ false) f
    → line_scan (f ++ (token_cr ∷ token_lf ∷ r)) ≡ (length f, some 2)
unfolding line_scan eol_length
line_scan-crlf [] r h = refl
line_scan-crlf (c ∷ cs) r h = rw (line_scan-crlf cs r h.1, h.0, line_scan) refl

pub line_read-crlf :
    (b f r m : Str) (e : Bool)
    → All (λ c. is_eol c ≡ false) f
    → line_read (at b (f ++ (token_cr ∷ token_lf ∷ r)) m e) ≡ (
      at (b ++ (f ++ (token_cr ∷ token_lf ∷ []))) r m e,
      record { buf = f ++ (token_cr ∷ token_lf ∷ (r ++ m)); length = length f },
      true,
    )
unfolding line_read advance
line_read-crlf b f r m e h =
    let eol : Str = token_cr ∷ token_lf ∷ [] in
    let two : length f + 2 ≡ length (f ++ eol) = omega (arith, length-append f eol) in
    let split : f ++ (eol ++ r) ≡ (f ++ eol) ++ r = sym (append_assoc f eol r) in
    ap (by_scan f r) (line_scan-crlf f r h)
    ∙ ap₂
        (λ u v.
          (at (b ++ u) v m e, record { buf = (f ++ (eol ++ r)) ++ m; length = length f }, true))
        (take_part (f ++ eol) r two split) (drop_part (f ++ eol) r two split)
    ∙ ap (λ buf. (at (b ++ (f ++ eol)) r m e, record { buf = buf; length = length f }, true))
        (append_assoc f (eol ++ r) m)
  where
    by_scan : Str → Str → ℕ × Option ℕ → TextStream × TextField × Bool
    by_scan f r (n, eol) =
        let s = at b (f ++ (token_cr ∷ token_lf ∷ r)) m e in
        let line : TextField = record { buf = s.rest ++ s.beyond; length = n } in
        elim eol [
          | none ↦ (record s { is_eos = true }, line, false)
          | some k ↦ (advance (n + k) s, line, true)
        ]

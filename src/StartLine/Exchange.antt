-- ===== src/StartLine/Exchange.antt =====
-- A start-line from its generation to the parser: what one side writes, the other side reads.
use mathlib.Core.Path.{ap₂}
use mathlib.Core.List.{append_assoc}
use native.Mathlib.Nat.{pow-succ'}
use native.Mathlib.Decide.{dec_lt}
use unimrcp.Prelude.{
  ℕ, zero, suc, ◌+◌, ◌-◌, ◌^◌, ◌≤◌, ◌<◌, ◌≡◌, ◌≢◌, inl, inr, refl, sym, ap, ◌∙◌, true, false, some,
  ◌∷◌, ◌++◌, length, ltb-false, if◌then◌else◌, arith, replicate, length-append,
}
use unimrcp.HeaderSection.{Str}
use unimrcp.Message.{Version, unversioned, version_1, version_2}
use unimrcp.TextStream.{TextStream, token_sp}
use unimrcp.TextStream.Decimal.{decimal}
use unimrcp.TextStream.VarLength.{digits_of, length-decimal, lt-pow}
use unimrcp.StartLine.Generate.{max_digit_count, finalize_switch, start_line_finalize}
use unimrcp.StartLine.Text.{sp, version_text, v2_fields_text}
use unimrcp.StartLine.Written.{line_text, kept_length}
use unimrcp.StartLine.Finalize.{reserved, start_line_finalize-length}
use unimrcp.StartLine.Parse.{Line, request_of, event_of, response_of, start_line_of, finished_text}

million : (j : ℕ) → 10 ^ 6 + j ≤ 10 ^ (6 + j)
million zero = omega arith
million (suc j) = omega (
  arith,
  ap (λ k. 10 ^ k) {x = 6 + suc j} {y = suc (6 + j)} (omega arith),
  pow-succ' 10 (6 + j),
  million j,
)

-- A length that counts its own digits has at most six of them if the rest is short.
six_digits :
    (total rest : ℕ)
    → total ≡ rest + length (decimal total)
    → rest < 999993
    → length (decimal total) ≤ max_digit_count
six_digits total rest e h =
    let (k, le, d) = digits_of total total (omega (arith, lt-pow (suc total))) in
    let count = length-decimal total k d in
    elim d.1 [
      | inl z ↦ omega (arith, count, z)
      | inr ge ↦ elim (dec_lt k 6) [
        | yes l ↦ omega (arith, count)
        | no l ↦ absurd (
            omega (
              arith,
              count,
              million (k - 6),
              ap (λ i. 10 ^ i) {x = 6 + (k - 6)} {y = k} (omega arith),
            ))
      ]
    ]

-- The text and the version of a start-line do not depend on its length and method identifier.
pub line_text-start_line_of :
    (l : Line) (v : Version) (method_id n : ℕ)
    → line_text v (start_line_of l v method_id n) ≡ line_text v (start_line_of l v 0 0)
line_text-start_line_of (request_of id name) unversioned method_id n = refl
line_text-start_line_of (request_of id name) version_1 method_id n = refl
line_text-start_line_of (request_of id name) version_2 method_id n = refl
line_text-start_line_of (event_of id name state) unversioned method_id n = refl
line_text-start_line_of (event_of id name state) version_1 method_id n = refl
line_text-start_line_of (event_of id name state) version_2 method_id n = refl
line_text-start_line_of (response_of id code state) unversioned method_id n = refl
line_text-start_line_of (response_of id code state) version_1 method_id n = refl
line_text-start_line_of (response_of id code state) version_2 method_id n = refl

pub version-start_line_of :
    (l : Line) (v : Version) (method_id n : ℕ) → (start_line_of l v method_id n).version ≡ v
version-start_line_of (request_of id name) v method_id n = refl
version-start_line_of (event_of id name state) v method_id n = refl
version-start_line_of (response_of id code state) v method_id n = refl

pub length-start_line_of :
    (l : Line) (v : Version) (method_id n : ℕ) → (start_line_of l v method_id n).length ≡ n
length-start_line_of (request_of id name) v method_id n = refl
length-start_line_of (event_of id name state) v method_id n = refl
length-start_line_of (response_of id code state) v method_id n = refl

pub with_length :
    (l : Line) (v : Version) (method_id n k : ℕ)
    → record (start_line_of l v method_id n) { length = k } ≡ start_line_of l v method_id k
with_length (request_of id name) v method_id n k = refl
with_length (event_of id name state) v method_id n k = refl
with_length (response_of id code state) v method_id n k = refl

-- The text of version 2 before and after the finalization, with other text behind it.
module _ (l : Line) (t : Str) where
  fields : Str
  fields = v2_fields_text (start_line_of l version_2 0 0)

  prefix : Str
  prefix = version_text version_2 ++ sp

  v2_text-reserved :
      line_text version_2 (start_line_of l version_2 0 0) ++ t ≡ reserved prefix (fields ++ t)
  unfolding fields prefix
  v2_text-reserved =
      ap
        (λ v. (version_text v ++ (sp ++ (replicate (max_digit_count + 1) token_sp ++ fields))) ++ t)
        (version-start_line_of l version_2 0 0)
      ∙ append_assoc (version_text version_2) _ t
      ∙ sym (
          append_assoc (version_text version_2) sp
            (replicate (max_digit_count + 1) token_sp ++ (fields ++ t)))

  finished_text-parts :
      (n : ℕ)
      → finished_text l version_2 n ++ t ≡ prefix ++ (decimal n ++ (token_sp ∷ (fields ++ t)))
  unfolding fields prefix
  finished_text-parts n =
      append_assoc (version_text version_2) _ t
      ∙ ap (λ r. version_text version_2 ++ (sp ++ r)) (append_assoc (decimal n) (sp ++ fields) t)
      ∙ sym (append_assoc (version_text version_2) sp (decimal n ++ (token_sp ∷ (fields ++ t))))

  -- The finalization of a short message of version 2.
  finalize_short :
      (method_id content_length : ℕ) (u : TextStream)
      → u.before ≡ line_text version_2 (start_line_of l version_2 0 0) ++ t
      → length u.before + content_length < 999999
      → (total : ℕ) × (total < 10 ^ 6)
        × (total ≡ length (finished_text l version_2 total ++ t) + content_length)
        × (start_line_finalize
              (start_line_of l version_2 method_id (length (version_text version_2) + 1))
              content_length
              u
            ≡ some (
              start_line_of l version_2 method_id total,
              record u { before = finished_text l version_2 total ++ t },
              true,
            ))
  unfolding prefix
  finalize_short method_id content_length u e h =
      let line = start_line_of l version_2 method_id (length (version_text version_2) + 1) in
      let (total, sum, run) =
        start_line_finalize-length line content_length u prefix (fields ++ t)
          (version-start_line_of l version_2 method_id _) (e ∙ v2_text-reserved)
          (length-start_line_of l version_2 method_id _
            ∙ sym (length-append (version_text version_2) sp))
          (omega arith) in
      let whole : total
          ≡ length prefix + (1 + length (fields ++ t)) + content_length + length (decimal total) =
        omega (
          arith,
          sum,
          length-append prefix (decimal total ++ (token_sp ∷ (fields ++ t))),
          length-append (decimal total) (token_sp ∷ (fields ++ t)),
        ) in
      let short : length prefix + (1 + length (fields ++ t)) + content_length < 999993 = omega (
        arith,
        ap length (e ∙ v2_text-reserved),
        length-append prefix (replicate (max_digit_count + 1) token_sp ++ (fields ++ t)),
      ) in
      let six =
        six_digits total (length prefix + (1 + length (fields ++ t)) + content_length) whole
          short in
      (
        total,
        omega (arith, whole, short, six),
        sum ∙ ap (λ r. length r + content_length) (sym (finished_text-parts total)),
        run
            ∙ ap
                (λ test. some (
                  if test then (line, u, false) else (
                    record line { length = total },
                    record u { before = prefix ++ (decimal total ++ (token_sp ∷ (fields ++ t))) },
                    true,
                  )))
                (ltb-false max_digit_count (length (decimal total)) six)
            ∙ ap₂ (λ line b. some (line, record u { before = b }, true))
                (with_length l version_2 method_id (length (version_text version_2) + 1) total)
                (sym (finished_text-parts total)),
      )

  -- The length and the text that the finalization gives a short message of a known version.
  pub finalize_known :
      (v : Version) (method_id content_length : ℕ) (u : TextStream)
      → v ≢ unversioned
      → u.before ≡ line_text v (start_line_of l v 0 0) ++ t
      → length u.before + content_length < 999999
      → (total : ℕ) × (total < 10 ^ 6)
        × (total ≡ length (finished_text l v total ++ t) + content_length)
        × (start_line_finalize
              (start_line_of l v method_id (kept_length v (start_line_of l v 0 0)))
              content_length
              u
            ≡ some (
              start_line_of l v method_id total,
              record u { before = finished_text l v total ++ t },
              true,
            ))
  unfolding start_line_finalize
  finalize_known unversioned method_id content_length u known e h = absurd (known refl)
  finalize_known version_1 method_id content_length u known e h = (
    length u.before + content_length,
    omega arith,
    ap (λ b. length b + content_length) e,
    ap
          (λ v.
            finalize_switch v
              (start_line_of l version_1 method_id (start_line_of l version_1 0 0).length)
              (length u.before + content_length) u)
          (version-start_line_of l version_1 method_id _)
        ∙ ap₂ (λ line b. some (line, record u { before = b }, true))
            (with_length l version_1 method_id _ (length u.before + content_length)) e,
  )
  finalize_known version_2 method_id content_length u known e h =
      let (total, bound, sum, run) = finalize_short method_id content_length u e h in
      (
        total,
        bound,
        sum,
        ap
              (λ v.
                start_line_finalize
                  (start_line_of l version_2 method_id (length (version_text v) + 1)) content_length
                  u)
              (version-start_line_of l version_2 0 0)
            ∙ run,
      )

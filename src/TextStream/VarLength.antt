-- ===== src/TextStream/VarLength.antt =====
-- How many digits a number has, and the length that counts its own digits.
use native.Mathlib.Decide.{dec_lt}
use native.Mathlib.Nat.{pow-succ', pow-suc, mod-eq_of_lt, pow-le-pow_right, one-le-pow}
use mathlib.Core.Path.{ap₂}
use unimrcp.Prelude.{
  ℕ, zero, suc, ◌+◌, ◌-◌, ◌/◌, ◌%◌, ◌^◌, ◌≤◌, ◌<◌, ◌≡◌, ◌⊎◌, inl, inr, refl, sym, ap, ◌∙◌, Option,
  none, some, length, leb, ltb, if◌then◌else◌, ◌>>=◌, arith, length-append, ==_true, ==_false,
  leb-false, le→leb,
}
use unimrcp.HeaderSection.{Str}
use unimrcp.TextStream.Decimal.{decimal_from, decimal, decimal_small, decimal_large}
use unimrcp.TextStream.Values.{
  count_loop, bounds_loop, count_fuel, digits_add, var_length_value_generate,
}

-- `n` has `suc k` digits.
abbrev pub HasDigits : ℕ → ℕ → Type 0
HasDigits n k = (n < 10 ^ suc k) × ((k ≡ 0) ⊎ (10 ^ k ≤ n))

HasDigits-tenth : (n k : ℕ) → HasDigits n (suc k) → (10 ≤ n) × HasDigits (n / 10) k
HasDigits-tenth n k (lt, inl e) = absurd (omega arith)
HasDigits-tenth n zero (lt, inr le) = (omega arith, (omega arith, inl refl))
HasDigits-tenth n (suc k) (lt, inr le) =
    let a = pow-succ' 10 (suc k) in
    let b = pow-succ' 10 (suc (suc k)) in
    let c = one-le-pow 10 (suc k) (omega arith) in
    (omega (arith, a, b, c), (omega (arith, a, b, c), inr (omega (arith, a, b, c))))

length-decimal_from :
    (fuel n k : ℕ) → n < fuel → HasDigits n k → length (decimal_from fuel n) ≡ suc k
length-decimal_from zero n k h d = absurd (omega arith)
length-decimal_from (suc fuel) n zero h d = ap length (decimal_small fuel n (omega arith))
length-decimal_from (suc fuel) n (suc k) h d =
    let (ten, d') = HasDigits-tenth n k d in
    ap length (decimal_large fuel n ten)
    ∙ length-append (decimal_from fuel (n / 10)) _
    ∙ omega (arith, length-decimal_from fuel (n / 10) k (omega arith) d')

pub length-decimal : (n k : ℕ) → HasDigits n k → length (decimal n) ≡ suc k
unfolding decimal
length-decimal n k = length-decimal_from (suc n) n k (omega arith)

-- Every number below 10 ^ suc b has at most `suc b` digits.
pub digits_of : (b n : ℕ) → n < 10 ^ suc b → (k : ℕ) × (k ≤ b) × HasDigits n k
digits_of zero n h = (0, omega arith, (h, inl refl))
digits_of (suc b) n h = elim (dec_lt n (10 ^ suc b)) [
  | yes l ↦ let (k, le, d) = digits_of b n l in (k, omega arith, d)
  | no l ↦ (suc b, omega arith, (h, inr (omega arith)))
]

count_loop-digits :
    (fuel n k c : ℕ) → k < fuel → HasDigits n k → count_loop fuel n c ≡ some (c + suc k)
unfolding count_loop
count_loop-digits zero n k c h d = absurd (omega arith)
count_loop-digits (suc fuel) n zero c h d =
    rw (==_true (n / 10) 0 (omega arith), count_loop) (ap some (omega arith))
count_loop-digits (suc fuel) n (suc k) c h d =
    let (ten, d') = HasDigits-tenth n k d in
    rw (==_false (n / 10) 0 (omega arith), count_loop)
      (count_loop-digits fuel (n / 10) k (c + 1) (omega arith) d' ∙ ap some (omega arith))

bounds_loop-pow : (k j : ℕ) → j + k ≤ 19 → bounds_loop k (10 ^ j) ≡ 10 ^ (j + k)
unfolding bounds_loop
bounds_loop-pow zero j h = ap (λ n. 10 ^ n) (omega arith)
bounds_loop-pow (suc k) j h =
    ap (bounds_loop k) (
      mod-eq_of_lt (
        omega (
          arith,
          pow-suc 10 j,
          pow-le-pow_right {n = 10} (omega arith) {i = suc j} {j = 19} (omega arith),
        ))
      ∙ sym (pow-suc 10 j))
    ∙ bounds_loop-pow k (suc j) (omega arith)
    ∙ ap (λ n. 10 ^ n) (omega arith)

pub lt-pow : (n : ℕ) → n < 10 ^ n
lt-pow zero = omega arith
lt-pow (suc n) = omega (arith, lt-pow n, pow-succ' 10 n)

-- The number of digits that the code adds to a value of `suc k` digits.
digits_add-pow :
    (v k : ℕ)
    → k ≤ 18
    → digits_add v (suc k) ≡ (if leb (10 ^ suc k - suc k) v then suc k + 1 else suc k)
unfolding digits_add
digits_add-pow v k h =
    ap (λ n. if leb n v then suc k + 1 else suc k)
      (ap (λ n. (n + 2 ^ 64 - suc k) % 2 ^ 64) (bounds_loop-pow (suc k) 0 (omega arith))
        ∙ let top = pow-le-pow_right {n = 10} (omega arith) {i = suc k} {j = 19} (omega arith) in
          let low = lt-pow (suc k) in
          let e : (10 ^ (0 + suc k) + 2 ^ 64 - suc k) % 2 ^ 64 ≡ 10 ^ suc k - suc k =
            ap (λ n. (10 ^ n + 2 ^ 64 - suc k) % 2 ^ 64)
              (let z : 0 + suc k ≡ suc k = omega arith in z)
            ∙ omega (arith, top, low) in
          e)

length-digits_add :
    (v k : ℕ)
    → k ≤ 18
    → HasDigits v k
    → length (decimal (v + digits_add v (suc k))) ≡ digits_add v (suc k)
length-digits_add v k h (lt, ge) =
    let top = lt-pow (suc k) in
    elim (dec_lt v (10 ^ suc k - suc k)) [
      | yes l ↦
          let e : digits_add v (suc k) ≡ suc k =
            digits_add-pow v k h ∙ ap (λ b. if b then suc k + 1 else suc k) (leb-false _ _ l) in
          rw e (length-decimal (v + suc k) k (omega arith, grown ge))
      | no l ↦
          let e : digits_add v (suc k) ≡ suc k + 1 =
            digits_add-pow v k h
            ∙ ap (λ b. if b then suc k + 1 else suc k)
                (le→leb (10 ^ suc k - suc k) v (omega arith)) in
          rw e (
            length-decimal (v + (suc k + 1)) (suc k)
              (omega (arith, top, pow-succ' 10 (suc k)), inr (omega (arith, top)))
            ∙ omega arith)
    ]
  where
    grown : (k ≡ 0) ⊎ (10 ^ k ≤ v) → (k ≡ 0) ⊎ (10 ^ k ≤ v + suc k)
    grown (inl e) = inl e
    grown (inr le) = inr (omega arith)

digits_add-bound : (v k : ℕ) → k ≤ 18 → digits_add v (suc k) ≤ 20
unfolding digits_add
digits_add-bound v k h = ground arith

-- For a value below 10 ^ 19, the function returns the value plus the number of digits of that sum,
-- with the sum's decimal print, or without a print if the number of digits is above the maximum.
pub var_length_value_generate-digits :
    (v max_count : ℕ)
    → v < 10 ^ 19
    → (total : ℕ) × (total ≡ v + length (decimal total))
      × (var_length_value_generate v max_count
          ≡ some (
            total,
            if ltb max_count (length (decimal total)) then none else some (decimal total),
          ))
unfolding var_length_value_generate
var_length_value_generate-digits v max_count h =
    let (k, le, d) = digits_of 18 v h in
    let count = digits_add v (suc k) in
    let counted : length (decimal (v + count)) ≡ count = length-digits_add v k le d in
    (
      v + count,
      omega (arith, counted),
      ap (λ r. r >>= tail) (count_loop-digits count_fuel v k 0 (omega arith) d)
          ∙ ap (λ n. tail' (digits_add v n)) (let e : 0 + suc k ≡ suc k = omega arith in e)
          ∙ ap₂ (λ n c. some (n, if ltb max_count c then none else some (decimal n)))
              (let e : (v + count) % 2 ^ 64 ≡ v + count =
                  mod-eq_of_lt (omega (arith, digits_add-bound v k le)) in
                e)
              (sym counted),
    )
  where
    tail' : ℕ → Option (ℕ × Option Str)
    tail' count' =
        let value' = (v + count') % 2 ^ 64 in
        some (value', if ltb max_count count' then none else some (decimal value'))

    tail : ℕ → Option (ℕ × Option Str)
    tail count = tail' (digits_add v count)

pub length-decimal_le : (b n : ℕ) → n < 10 ^ suc b → length (decimal n) ≤ suc b
length-decimal_le b n h = let (k, le, d) = digits_of b n h in omega (arith, length-decimal n k d)

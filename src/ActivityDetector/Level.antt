-- ===== src/ActivityDetector/Level.antt =====
-- The level of a frame in mpf_activity_detector.c.
use native.Mathlib.Nat.{div-mul-le_self, lt-mul-div-succ, div-lt_iff_lt-mul, mul_comm}
use mathlib.Core.Path.{ap₂}
use unimrcp.Prelude.{
  map, length-map, ◌-◌, ◌↔◌, true, Bool-cases, ℕ, ◌+◌, ◌*◌, ◌/◌, ◌^◌, ◌≤◌, ◌<◌, ◌≡◌, ap, ◌∙◌, some,
  none, List, [], ◌∷◌, length, All, arith,
}
use unimrcp.ActivityDetector.{
  Detector, Frame, process, frame_level, magnitude, sum_loop, level_calculate,
}

-- `negsuc n` is -(n + 1).
pub data ℤ : Type 0 where
  pos : ℕ → ℤ
  negsuc : ℕ → ℤ

-- The values of `apr_int16_t`.
abbrev pub IsSample : ℤ → Type 0
IsSample (pos n) = n < 2 ^ 15
IsSample (negsuc n) = n < 2 ^ 15

-- The word that holds a value, in two's complement.
abbrev pub word : ℤ → ℕ
word (pos n) = n
word (negsuc n) = 2 ^ 16 - (n + 1)

-- The absolute value.
abbrev pub abs : ℤ → ℕ
abs (pos n) = n
abs (negsuc n) = n + 1

-- The sum of the absolute values, without overflow.
abbrev pub total : List ℤ → ℕ
total [] = 0
total (z ∷ zs) = abs z + total zs

magnitude-word : (z : ℤ) → IsSample z → magnitude (word z) ≡ abs z
unfolding magnitude
magnitude-word (pos n) h = ground arith
magnitude-word (negsuc n) h = ground arith

abs_bound : (z : ℤ) → IsSample z → abs z ≤ 2 ^ 15
abs_bound (pos n) h = omega arith
abs_bound (negsuc n) h = omega arith

total_bound : (zs : List ℤ) → All IsSample zs → total zs ≤ 2 ^ 15 * length zs
total_bound [] h = omega arith
total_bound (z ∷ zs) (w, h) = omega (arith, abs_bound z w, total_bound zs h)

sum_loop-eq_total :
    (s : ℕ) (zs : List ℤ)
    → All IsSample zs
    → s + 2 ^ 15 * length zs < 2 ^ 64
    → sum_loop s (map word zs) ≡ s + total zs
unfolding sum_loop
sum_loop-eq_total s [] h b = omega arith
sum_loop-eq_total s (z ∷ zs) (w, h) b =
    ap (λ s. sum_loop s (map word zs)) {y = s + abs z}
      (omega (arith, magnitude-word z w, abs_bound z w))
    ∙ sum_loop-eq_total (s + abs z) zs h (omega (arith, abs_bound z w))
    ∙ omega arith

from_zero : (n : ℕ) → 0 + n ≡ n
from_zero n = omega arith

-- The level of a frame of at least one 16-bit sample, and of at most 2^48, is the mean of the absolute
-- values of its samples, rounded down, and at most 2^15: the sum does not overflow. The samples are
-- signed numbers that the frame holds in two's complement.
pub level_calculate-mean :
    (zs : List ℤ)
    → All IsSample zs
    → 1 ≤ length zs
    → length zs ≤ 2 ^ 48
    → (level : ℕ) × (level_calculate (map word zs) ≡ some level)
      × (level * length zs ≤ total zs)
      × (total zs < (level + 1) * length zs)
      × (level ≤ 2 ^ 15)
unfolding level_calculate
level_calculate-mean [] h one b = absurd (omega arith)
level_calculate-mean (z ∷ zs) h one b =
    let n = length (z ∷ zs) in
    let t = total (z ∷ zs) in
    (
      t / n,
      ap₂ (λ s k. some (s / k)) (sum_loop-eq_total 0 (z ∷ zs) h (omega arith) ∙ from_zero t)
          (length-map (z ∷ zs) word),
      div-mul-le_self t n,
      rw (mul_comm (t / n + 1) n) (lt-mul-div-succ t (omega arith)),
      omega (
        arith,
        (div-lt_iff_lt-mul {k = n} {x = t} {y = 2 ^ 15 + 1} (omega arith)).1
            (omega (arith, total_bound (z ∷ zs) h)),
      ),
    )

level_calculate-none : (xs : List ℕ) → (level_calculate xs ≡ none) ↔ (xs ≡ [])
unfolding level_calculate
level_calculate-none [] = ground arith
level_calculate-none (x ∷ xs) = (λ e. cc, λ e. cc)

-- The detector divides by zero exactly on audio frames without samples.
pub process-divides_by_zero :
    (d : Detector) (f : Frame) → (process d f ≡ none) ↔ ((f.is_audio ≡ true) × (f.samples ≡ []))
unfolding process frame_level
process-divides_by_zero d f = grind (arith, level_calculate-none f.samples, Bool-cases f.is_audio)

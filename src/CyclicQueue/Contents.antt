-- ===== src/CyclicQueue/Contents.antt =====
-- The elements of a cyclic queue, oldest first, and the queues whose fields fit together.
use mathlib.Core.Path.{ap₂}
use native.Mathlib.Nat.{mod-eq_of_lt, mod-eq-sub-mod}
use native.Mathlib.Decide.{dec_lt}
use unimrcp.Prelude.{
  ℕ, zero, suc, ◌+◌, ◌-◌, ◌%◌, ◌≤◌, ◌<◌, ◌≡◌, ◌≢◌, refl, ap, ◌∙◌, List, [], ◌∷◌, ◌++◌, length,
  get_or, length-replicate, arith,
}
use unimrcp.CyclicQueue.{CyclicQueue, create}

module _ {ℓ} {A : Type ℓ} (fill : A) where
  -- The element that stands `k` places behind the oldest.
  abbrev pub nth : CyclicQueue A → ℕ → A
  nth q k = get_or q.items ((q.tail + k) % q.max_size) fill

  -- The `n` elements from the one `k` places behind the oldest on.
  abbrev pub reads : CyclicQueue A → ℕ → ℕ → List A
  reads q k zero = []
  reads q k (suc n) = nth q k ∷ reads q (suc k) n

  abbrev pub contents : CyclicQueue A → List A
  contents q = reads q 0 q.actual_size

  pub reads-ext :
      (q r : CyclicQueue A) (j k n : ℕ)
      → ((i : ℕ) → i < n → nth q (j + i) ≡ nth r (k + i))
      → reads q j n ≡ reads r k n
  reads-ext q r j k zero h = refl
  reads-ext q r j k (suc n) h = ap₂ ◌∷◌ (at j k 0 (omega arith) (omega arith) (omega arith)) (
      reads-ext q r (suc j) (suc k) n
        (λ i p. at (suc j + i) (suc k + i) (suc i) (omega arith) (omega arith) (omega arith)))
    where
      at : (a b i : ℕ) → i < suc n → j + i ≡ a → k + i ≡ b → nth q a ≡ nth r b
      at a b i p e f = rw (← e, ← f) (h i p)

  pub reads-nil : (q : CyclicQueue A) (k n : ℕ) → reads q k n ≡ [] → n ≡ 0
  reads-nil q k zero h = refl
  reads-nil q k (suc n) h = cc

  pub reads-snoc :
      (q : CyclicQueue A) (k n : ℕ) → reads q k (suc n) ≡ reads q k n ++ (nth q (k + n) ∷ [])
  reads-snoc q k zero = ap (λ i. nth q i ∷ []) (omega arith)
  reads-snoc q k (suc n) =
      ap (λ xs. nth q k ∷ xs)
        (reads-snoc q (suc k) n ∙ ap (λ i. reads q (suc k) n ++ (nth q i ∷ [])) (omega arith))

pub from_zero : (i : ℕ) → 0 + i ≡ i
from_zero i = omega arith

-- Fewer than `m` steps round an array of `m` slots do not come back to the start.
pub step-ne : (m t i j : ℕ) → t < m → i < j → j < m → (t + i) % m ≢ (t + j) % m
step-ne m t i j ht hi hj = elim (dec_lt (t + j) m) [
  | yes p ↦ omega (arith, mod-eq_of_lt {n = t + i} {m = m} (omega arith), mod-eq_of_lt p)
  | no p ↦ elim (dec_lt (t + i) m) [
    | yes r ↦ omega (
      arith,
      mod-eq_of_lt r,
      mod-eq-sub-mod {n = t + j} {m = m} (omega arith),
      mod-eq_of_lt {n = t + j - m} {m = m} (omega arith),
    )
    | no r ↦ omega (
      arith,
      mod-eq-sub-mod {n = t + i} {m = m} (omega arith),
      mod-eq_of_lt {n = t + i - m} {m = m} (omega arith),
      mod-eq-sub-mod {n = t + j} {m = m} (omega arith),
      mod-eq_of_lt {n = t + j - m} {m = m} (omega arith),
    )
  ]
]

-- The array has `max_size` slots, at least two of them, and `head` is the first free one.
pub record IsValid {ℓ} {A : Type ℓ} (q : CyclicQueue A) : Type 0 where
  pub slots : length q.items ≡ q.max_size
  pub growable : 2 ≤ q.max_size
  pub tail_in : q.tail < q.max_size
  pub size_in : q.actual_size ≤ q.max_size
  pub head_at : q.head ≡ (q.tail + q.actual_size) % q.max_size

module _ {ℓ} {A : Type ℓ} (fill : A) where
  pub create-IsValid :
      (n : ℕ) → 2 ≤ n → IsValid (create fill n) × (contents fill (create fill n) ≡ [])
  unfolding create
  create-IsValid n h = (
    record {
      slots = length-replicate n fill;
      growable = h;
      tail_in = omega arith;
      size_in = omega arith;
      head_at = omega arith;
    },
    refl,
  )

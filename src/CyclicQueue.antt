-- ===== src/CyclicQueue.antt =====
-- The cyclic queue of libs/apr-toolkit/src/apt_cyclic_queue.c, which grows when it is full. Slots
-- that `malloc` leaves uninitialised hold an arbitrary element `fill`; an access outside the
-- allocated array gives `none`. Sizes are far below the range of `apr_size_t`, and `malloc` does
-- not fail.
pub mod Contents
pub mod Resize
pub mod Refine
pub mod Fifo
mod Tests
use unimrcp.Prelude.{
  ℕ, ◌+◌, ◌-◌, ◌/◌, ◌%◌, Bool, true, false, Option, none, some, List, [], ◌∷◌, ◌++◌, length,
  get_elem?, set, take, drop, replicate, leb, ltb, ◌==◌, if◌then◌else◌,
}

-- `apt_cyclic_queue_t`
pub record CyclicQueue {ℓ} (A : Type ℓ) : Type ℓ where
  pub items : List A
  pub max_size : ℕ
  pub actual_size : ℕ
  pub head : ℕ
  pub tail : ℕ

module _ {ℓ} {A : Type ℓ} where
  unfoldable pub create : A → ℕ → CyclicQueue A
  create fill size = record {
    items = replicate size fill;
    max_size = size;
    actual_size = 0;
    head = 0;
    tail = 0;
  }

  -- Half as much again; the slots from `head` on come first.
  unfoldable pub resize : A → CyclicQueue A → CyclicQueue A
  resize fill q =
      let new_size = q.max_size + q.max_size / 2 in
      let offset = q.max_size - q.head in
      let unused = replicate (new_size - q.max_size) fill in
      record {
        items = take offset (drop q.head q.items) ++ (take q.head q.items ++ unused);
        max_size = new_size;
        actual_size = q.actual_size;
        head = q.max_size;
        tail = 0;
      }

  -- The write of `push` after a possible resize.
  unfoldable pub store : CyclicQueue A → A → Option (CyclicQueue A)
  store q x =
      if ltb q.head (length q.items)
      then some (record q {
        items = set q.items q.head x;
        actual_size = q.actual_size + 1;
        head = (q.head + 1) % q.max_size;
      })
      else none

  unfoldable pub push : A → CyclicQueue A → A → Option (CyclicQueue A)
  unfolding resize store
  push fill q x = if leb q.max_size q.actual_size then store (resize fill q) x else store q x

  -- The popped element is `none` for an empty queue; the outer `none` is an access out of bounds.
  unfoldable pub pop : CyclicQueue A → Option (Option A × CyclicQueue A)
  pop q = if q.actual_size == 0 then some (none, q) else elim (get_elem? q.items q.tail) [
    | none ↦ none
    | some x ↦
        some
          (some x, record q { actual_size = q.actual_size - 1; tail = (q.tail + 1) % q.max_size })
  ]

  unfoldable pub clear : CyclicQueue A → CyclicQueue A
  clear q = record q { actual_size = 0; head = 0; tail = 0 }

  unfoldable pub is_empty : CyclicQueue A → Bool
  is_empty q = if q.actual_size == 0 then false else true

-- ===== src/CyclicQueue/Refine.antt =====
-- The operations of apt_cyclic_queue.c and the list of the queue's elements.
use mathlib.Core.Path.{ap₂}
use native.Mathlib.Nat.{mod-add-mod, mod-eq_of_lt, mod-lt}
use native.Mathlib.Decide.{dec_lt}
use unimrcp.Prelude.{
  suc, ◌+◌, ◌-◌, ◌/◌, ◌%◌, ◌≤◌, ◌<◌, ◌≡◌, ◌≢◌, ◌⊎◌, ◌↔◌, refl, sym, ap, ◌∙◌, true, none, some, [],
  ◌∷◌, ◌++◌, length, length-set, get_or-set_self, get_or-set_ne, get_elem?-eq-get_or, get_or, set,
  take, drop, replicate, length-append, length-take, length-drop, length-replicate, arith, inl, inr,
}
use unimrcp.CyclicQueue.{CyclicQueue, resize, store, push, pop, clear, is_empty}
use unimrcp.CyclicQueue.Contents.{
  reads, contents, reads-ext, reads-nil, reads-snoc, from_zero, step-ne, IsValid,
}
use unimrcp.CyclicQueue.Resize.{resize_lem}

module _ {ℓ} {A : Type ℓ} (fill : A) where
  -- A store into a free slot appends, and keeps the queue valid.
  store_lem :
      (q : CyclicQueue A) (x : A)
      → IsValid q
      → q.actual_size < q.max_size
      → (q' : CyclicQueue A) × (store q x ≡ some q')
        × IsValid q'
        × (contents fill q' ≡ contents fill q ++ (x ∷ []))
  unfolding store
  store_lem q x v room =
      (q', ground (arith, mod-lt (q.tail + q.actual_size) {m = q.max_size}), valid, appended)
    where
      q' : CyclicQueue A
      q' = record q {
        items = set q.items q.head x;
        actual_size = q.actual_size + 1;
        head = (q.head + 1) % q.max_size;
      }

      valid : IsValid q'
      valid = record {
        slots = length-set q.items q.head x ∙ v.slots;
        growable = v.growable;
        tail_in = v.tail_in;
        size_in = omega arith;
        head_at = rw (v.head_at, mod-add-mod) (ap (λ k. k % q.max_size) (omega arith));
      }

      slot : (q.tail + (0 + q.actual_size)) % q.max_size ≡ q.head
      slot = ap (λ k. (q.tail + k) % q.max_size) (from_zero q.actual_size) ∙ sym v.head_at

      appended : contents fill q' ≡ contents fill q ++ (x ∷ [])
      appended =
          ap (λ n. reads fill q' 0 n) {y = suc q.actual_size} (omega arith)
          ∙ reads-snoc fill q' 0 q.actual_size
          ∙ ap₂ (λ xs y. xs ++ (y ∷ []))
              (reads-ext fill q' q 0 0 q.actual_size (λ i p.
                get_or-set_ne q.items q.head ((q.tail + (0 + i)) % q.max_size) x fill (λ e.
                  step-ne q.max_size q.tail i q.actual_size v.tail_in p room
                    (ap (λ k. (q.tail + k) % q.max_size) (omega arith) ∙ sym e ∙ v.head_at))))
              (ap (λ k. get_or (set q.items q.head x) k fill) slot
                ∙ get_or-set_self q.items q.head x fill (omega arith))

  -- An element pushed to a valid queue comes last, and the queue stays valid: a full queue grows
  -- first, and no push writes past the array.
  pub push-contents :
      (q : CyclicQueue A) (x : A)
      → IsValid q
      → (q' : CyclicQueue A) × (push fill q x ≡ some q')
        × IsValid q'
        × (contents fill q' ≡ contents fill q ++ (x ∷ []))
  unfolding push
  push-contents q x v = elim (dec_lt q.actual_size q.max_size) [
    | yes l ↦ let (q', e, v', c) = store_lem q x v l in (q', ground (arith, e), v', c)
    | no l ↦
        let (w, room, kept) = resize_lem fill q v (omega arith) in
        let (q', e, v', c) = store_lem (resize fill q) x w room in
        (q', ground (arith, e), v', c ∙ ap (λ xs. xs ++ (x ∷ [])) kept)
  ]

  -- Taking from the contents: an empty queue gives nothing, and another gives its oldest element
  -- and keeps the rest.
  pub pop-contents :
      (q : CyclicQueue A)
      → IsValid q
      → ((contents fill q ≡ []) × (pop q ≡ some (none, q)))
        ⊎ ((x : A) × (q' : CyclicQueue A) × (pop q ≡ some (some x, q'))
            × IsValid q'
            × (contents fill q ≡ x ∷ contents fill q'))
  unfolding pop
  pop-contents q v = elim (dec_lt 0 q.actual_size) [
    | no e ↦ inl (ap (λ n. reads fill q 0 n) {y = 0} (omega arith), ground arith)
    | yes e ↦ inr (
      get_or q.items q.tail fill,
      record q { actual_size = q.actual_size - 1; tail = (q.tail + 1) % q.max_size },
      ground (arith, get_elem?-eq-get_or q.items q.tail fill (omega arith)),
      record {
        slots = v.slots;
        growable = v.growable;
        tail_in = mod-lt (q.tail + 1) (omega arith);
        size_in = omega arith;
        head_at = rw (mod-add-mod) (v.head_at ∙ ap (λ k. k % q.max_size) (omega arith));
      },
      ap (λ n. reads fill q 0 n) {y = suc (q.actual_size - 1)} (omega arith)
          ∙ ap₂ ◌∷◌
              (ap (λ k. get_or q.items k fill)
                (ap (λ k. k % q.max_size) {y = q.tail} (omega arith) ∙ mod-eq_of_lt v.tail_in))
              (reads-ext fill q
                (record q { actual_size = q.actual_size - 1; tail = (q.tail + 1) % q.max_size }) 1 0
                (q.actual_size - 1)
                (λ i p.
                  ap (λ k. get_or q.items k fill)
                    (rw (mod-add-mod) (ap (λ k. k % q.max_size) (omega arith))))),
    )
  ]

  -- Clearing forgets every element.
  clear-contents :
      (q : CyclicQueue A) → IsValid q → IsValid (clear q) × (contents fill (clear q) ≡ [])
  unfolding clear
  clear-contents q v = (
    record {
      slots = v.slots;
      growable = v.growable;
      tail_in = omega arith;
      size_in = omega arith;
      head_at = sym (mod-eq_of_lt {n = 0 + 0} {m = q.max_size} (omega arith));
    },
    refl,
  )

  -- The test says TRUE exactly of the queues that hold an element.
  pub is_empty-contents : (q : CyclicQueue A) → (is_empty q ≡ true) ↔ (contents fill q ≢ [])
  unfolding is_empty
  is_empty-contents q = (
    λ h e. ground (arith, reads-nil fill q 0 q.actual_size e, h),
    λ h. elim (dec_lt 0 q.actual_size) [
      | yes p ↦ ground arith
      | no p ↦ absurd (h (ap (λ n. reads fill q 0 n) {y = 0} (omega arith)))
    ],
  )

  -- A full queue of at most one slot does not grow, and a push writes past the array.
  pub push_overruns :
      (q : CyclicQueue A) (x : A)
      → length q.items ≡ q.max_size
      → q.max_size ≤ 1
      → q.head ≤ q.max_size
      → q.actual_size ≡ q.max_size
      → push fill q x ≡ none
  unfolding push resize store
  push_overruns q x l one h full =
      let m = q.max_size in
      let first = take (m - q.head) (drop q.head q.items) in
      let unused = replicate (m + m / 2 - m) fill in
      ground (
        arith,
        length-append first (take q.head q.items ++ unused),
        length-append (take q.head q.items) unused,
        length-take (m - q.head) (drop q.head q.items),
        length-drop q.head q.items,
        length-take q.head q.items,
        length-replicate (m + m / 2 - m) fill,
      )

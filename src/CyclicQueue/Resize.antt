-- ===== src/CyclicQueue/Resize.antt =====
-- The growth of a full cyclic queue.
use native.Mathlib.Nat.{mod-eq_of_lt, mod-eq-sub-mod}
use native.Mathlib.Decide.{dec_lt}
use unimrcp.Prelude.{
  ℕ, ◌+◌, ◌-◌, ◌/◌, ◌%◌, ◌≤◌, ◌<◌, ◌≡◌, sym, ap, ◌∙◌, List, ◌++◌, length, get_or-append_before,
  get_or-append_after, get_or-take, get_or-drop, get_or, take, drop, replicate, length-append,
  length-take, length-drop, length-replicate, arith,
}
use unimrcp.CyclicQueue.{CyclicQueue, resize}
use unimrcp.CyclicQueue.Contents.{nth, contents, reads-ext, from_zero, IsValid}

-- Where the elements of a full array of `m` slots stand after a rotation by `h`.
module _ {ℓ} {A : Type ℓ} (xs unused : List A) (m h i : ℕ) (d : A) where
  rotated_near :
      length xs ≡ m
      → h + i < m
      → get_or (take (m - h) (drop h xs) ++ (take h xs ++ unused)) i d ≡ get_or xs (h + i) d
  rotated_near e p =
      get_or-append_before (take (m - h) (drop h xs)) (take h xs ++ unused) i d
        (omega (arith, length-take (m - h) (drop h xs), length-drop h xs))
      ∙ get_or-take (m - h) (drop h xs) i d (omega arith)
      ∙ get_or-drop h xs i d

  rotated_far :
      length xs ≡ m
      → m ≤ h + i
      → i < m
      → get_or (take (m - h) (drop h xs) ++ (take h xs ++ unused)) i d ≡ get_or xs (i - (m - h)) d
  rotated_far e p r =
      get_or-append_after (take (m - h) (drop h xs)) (take h xs ++ unused) i d
        (omega (arith, length-take (m - h) (drop h xs), length-drop h xs))
      ∙ ap (λ k. get_or (take h xs ++ unused) k d)
          (let e : i - length (take (m - h) (drop h xs)) ≡ i - (m - h) =
              omega (arith, length-take (m - h) (drop h xs), length-drop h xs) in
            e)
      ∙ get_or-append_before (take h xs) unused (i - (m - h)) d (omega (arith, length-take h xs))
      ∙ get_or-take h xs (i - (m - h)) d (omega arith)

module _ {ℓ} {A : Type ℓ} (fill : A) where
  -- Growing a full queue keeps its elements and their order, and makes room.
  pub resize_lem :
      (q : CyclicQueue A)
      → IsValid q
      → q.actual_size ≡ q.max_size
      → let r = resize fill q in
        IsValid r × (r.actual_size < r.max_size) × (contents fill r ≡ contents fill q)
  unfolding resize
  resize_lem q v full = (valid, omega arith, reads-ext fill r q 0 0 q.actual_size same)
    where
      m : ℕ
      m = q.max_size

      offset : ℕ
      offset = m - q.head

      unused : List A
      unused = replicate (m + m / 2 - m) fill

      r : CyclicQueue A
      r = resize fill q

      head-eq-tail : q.head ≡ q.tail
      head-eq-tail = omega (
        arith,
        v.head_at,
        mod-eq-sub-mod {n = q.tail + q.actual_size} {m = m} (omega arith),
        mod-eq_of_lt {n = q.tail + q.actual_size - m} {m = m} (omega arith),
      )

      valid : IsValid r
      valid = record {
        slots = omega (
          arith,
          length-append (take offset (drop q.head q.items)) (take q.head q.items ++ unused),
          length-append (take q.head q.items) unused,
          length-take offset (drop q.head q.items),
          length-drop q.head q.items,
          length-take q.head q.items,
          length-replicate (m + m / 2 - m) fill,
          head-eq-tail,
        );
        growable = omega arith;
        tail_in = omega arith;
        size_in = omega arith;
        head_at = sym (
            ap (λ k. k % (m + m / 2)) (omega arith)
            ∙ mod-eq_of_lt {n = m} {m = m + m / 2} (omega arith));
      }

      same : (i : ℕ) → i < q.actual_size → nth fill r (0 + i) ≡ nth fill q (0 + i)
      same i p =
          ap (λ k. nth fill r k) (from_zero i)
          ∙ ap (λ k. get_or r.items k fill)
              (ap (λ k. k % (m + m / 2)) (from_zero i)
                ∙ mod-eq_of_lt {n = i} {m = m + m / 2} (omega arith))
          ∙ elim (dec_lt (q.tail + i) m) [
            | yes l ↦
                rotated_near q.items unused m q.head i fill (omega arith)
                  (omega (arith, head-eq-tail))
                ∙ ap (λ k. get_or q.items k fill)
                    (let e : q.head + i ≡ (q.tail + i) % m =
                        omega (arith, head-eq-tail, mod-eq_of_lt l) in
                      e)
            | no l ↦
                rotated_far q.items unused m q.head i fill (omega arith)
                  (omega (arith, head-eq-tail)) (omega arith)
                ∙ ap (λ k. get_or q.items k fill)
                    (let e : i - (m - q.head) ≡ (q.tail + i) % m = omega (
                      arith,
                      head-eq-tail,
                      mod-eq-sub-mod {n = q.tail + i} {m = m} (omega arith),
                      mod-eq_of_lt {n = q.tail + i - m} {m = m} (omega arith),
                    ) in
                      e)
          ]
          ∙ ap (λ k. nth fill q k) (sym (from_zero i))

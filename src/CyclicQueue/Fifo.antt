-- ===== src/CyclicQueue/Fifo.antt =====
-- Sequences of pushes and pops of apt_cyclic_queue.c.
use unimrcp.Prelude.{Option, ◌≡◌, refl, sym, ap, ◌∙◌, none, some, List, [], ◌∷◌, ◌++◌, inl, inr}
use unimrcp.CyclicQueue.{CyclicQueue, push, pop}
use unimrcp.CyclicQueue.Contents.{contents, IsValid}
use unimrcp.CyclicQueue.Refine.{push-contents, pop-contents}

-- A call of the queue: `push` of an element, or `pop`.
pub data Call {ℓ} (A : Type ℓ) : Type ℓ where
  push_call : A → Call A
  pop_call : Call A

module _ {ℓ} {A : Type ℓ} (fill : A) where
  -- What the `pop` calls of a sequence return; `none` if a call leaves the array.
  unfoldable pub run : CyclicQueue A → List (Call A) → Option (List (Option A))
  run q [] = some []
  run q (push_call x ∷ calls) = elim (push fill q x) [ none ↦ none | some q' ↦ run q' calls ]
  run q (pop_call ∷ calls) = elim (pop q) [
    | none ↦ none
    | some (x, q') ↦ elim (run q' calls) [ none ↦ none | some xs ↦ some (x ∷ xs) ]
  ]

-- What the `pop` calls of a first-in first-out list return.
unfoldable pub fifo {ℓ} : {A : Type ℓ} → List A → List (Call A) → List (Option A)
fifo xs [] = []
fifo xs (push_call x ∷ calls) = fifo (xs ++ (x ∷ [])) calls
fifo [] (pop_call ∷ calls) = none ∷ fifo [] calls
fifo (x ∷ xs) (pop_call ∷ calls) = some x ∷ fifo xs calls

module _ {ℓ} {A : Type ℓ} (fill : A) where
  run-push_call :
      (q : CyclicQueue A) (x : A) (calls : List (Call A)) {q' : CyclicQueue A}
      → push fill q x ≡ some q'
      → run fill q (push_call x ∷ calls) ≡ run fill q' calls
  unfolding run
  run-push_call q x calls e = rw (run, e) refl

  run-pop_call :
      (q : CyclicQueue A) (calls : List (Call A)) {x : Option A} {q' : CyclicQueue A}
      {xs : List (Option A)}
      → pop q ≡ some (x, q')
      → run fill q' calls ≡ some xs
      → run fill q (pop_call ∷ calls) ≡ some (x ∷ xs)
  unfolding run
  run-pop_call q calls e f = rw (run, e, f) refl

  -- Whatever the sequence of pushes and pops, a valid queue returns what a first-in first-out list
  -- of its contents returns, and no call leaves the array.
  pub run-fifo :
      (q : CyclicQueue A) (calls : List (Call A))
      → IsValid q
      → run fill q calls ≡ some (fifo (contents fill q) calls)
  unfolding fifo
  run-fifo q [] v = unfold run in refl
  run-fifo q (push_call x ∷ calls) v =
      let (q', e, v', c) = push-contents fill q x v in
      run-push_call q x calls e ∙ run-fifo q' calls v' ∙ ap (λ xs. some (fifo xs calls)) c
  run-fifo q (pop_call ∷ calls) v = elim (pop-contents fill q v) [
    | inl (c, e) ↦
        run-pop_call q calls e (run-fifo q calls v ∙ ap (λ xs. some (fifo xs calls)) c)
        ∙ ap (λ xs. some (fifo xs (pop_call ∷ calls))) (sym c)
    | inr (x, q', e, v', c) ↦
        run-pop_call q calls e (run-fifo q' calls v')
        ∙ ap (λ xs. some (fifo xs (pop_call ∷ calls))) (sym c)
  ]

-- ===== src/CyclicQueue/Tests.antt =====
-- Runs of a cyclic queue of two slots.
use unimrcp.Prelude.{ℕ, ◌≡◌, ◌≢◌, ◌↔◌, refl, true, none, some, [], ◌∷◌, List, arith}
use unimrcp.CyclicQueue.{CyclicQueue, create, push, pop, resize, store, is_empty}
use unimrcp.CyclicQueue.Contents.{contents, IsValid, create-IsValid}
use unimrcp.CyclicQueue.Refine.{is_empty-contents, push_overruns}
use unimrcp.CyclicQueue.Fifo.{Call, push_call, pop_call, run, fifo, run-fifo}

abbrev fresh : CyclicQueue ℕ
fresh = create 0 2

fresh-IsValid : IsValid fresh
fresh-IsValid = (create-IsValid 0 2 (omega arith)).0

-- The third push makes the queue grow.
abbrev calls : List (Call ℕ)
calls =
    push_call 5
    ∷ pop_call
    ∷ push_call 6
    ∷ push_call 7
    ∷ push_call 8
    ∷ pop_call
    ∷ pop_call
    ∷ pop_call
    ∷ pop_call
    ∷ []

calls-run : run 0 fresh calls ≡ some (some 5 ∷ some 6 ∷ some 7 ∷ some 8 ∷ none ∷ [])
unfolding run push pop resize store create
calls-run = refl

run-fifo_example : run 0 fresh calls ≡ some (fifo (contents 0 fresh) calls)
run-fifo_example = run-fifo 0 fresh calls fresh-IsValid

is_empty-contents_example : (is_empty fresh ≡ true) ↔ (contents 0 fresh ≢ [])
is_empty-contents_example = is_empty-contents 0 fresh

-- A queue of one slot that holds 5.
abbrev single : CyclicQueue ℕ
single = record { items = 5 ∷ []; max_size = 1; actual_size = 1; head = 0; tail = 0 }

push_overruns_example : push 0 single 6 ≡ none
push_overruns_example = push_overruns 0 single 6 refl (omega arith) (omega arith) refl

-- ===== src/StateMachine/Tests.antt =====
-- The removal of pending requests at a concrete queue.
use unimrcp.Prelude.{ℕ, ◌≡◌, refl, some, [], ◌∷◌, List, take, select, ◌++◌, arith}
use unimrcp.GenericHeader
use unimrcp.GenericHeader.{GenericHeader, ids_find}
use unimrcp.HeaderSection.{field_check}
use unimrcp.Message.{Message, request, response}
use unimrcp.StateMachine.{remove_loop, pending_remove, is_addressed, request_id}
use unimrcp.StateMachine.Laws.{ids_of, remove_loop-ids, section-pending_remove_frozen}
use unimrcp.StateMachine.Fixture.{resource, message, with_id_list}

abbrev queue : List (Message ℕ)
queue = message request 2 2 0 ∷ message request 2 3 0 ∷ []

abbrev header : GenericHeader
header = record GenericHeader.init { active_request_id_list = 1 ∷ [] }

remove_loop-ids_example :
    (remove_loop resource (some (3 ∷ [])) queue header).1.active_request_id_list
    ≡ take 5 ((1 ∷ []) ++ ids_of (select (λ p. is_addressed (some (3 ∷ [])) (request_id p)) queue))
remove_loop-ids_example = remove_loop-ids resource (some (3 ∷ [])) queue header (omega arith)

removed_ids : ids_of (select (λ p. is_addressed (some (3 ∷ [])) (request_id p)) queue) ≡ 3 ∷ []
unfolding is_addressed ids_find
removed_ids = refl

section-pending_remove_frozen_example :
    (pending_remove resource queue
      (message request 3 4 0)
      (record (message response 3 4 200) { header = with_id_list (1 ∷ []) })).1.header.section
    ≡ (with_id_list (1 ∷ [])).section
unfolding field_check
section-pending_remove_frozen_example =
    section-pending_remove_frozen resource queue (message request 3 4 0)
      (record (message response 3 4 200) { header = with_id_list (1 ∷ []) }) refl

-- ===== src/StateMachine.antt =====
-- What the MRCP state machines of libs/mrcp-engine share: the base of
-- include/mrcp_state_machine.h with its two callbacks, the selection of requests by an
-- Active-Request-Id-List, and the removal of pending requests.
-- A call of `on_dispatch` or `on_deactivate` is recorded in a log, oldest first. Both callbacks of
-- libs/mrcp-server/src/mrcp_server_session.c answer TRUE, and so do they here.
pub mod Laws
pub mod Fixture
pub mod Reachable
pub mod Runs
mod Tests
use unimrcp.Prelude.{
  if◌then◌else◌, ℕ, Bool, true, false, Option, none, some, List, [], ◌∷◌, ◌++◌, ◌==◌, ◌≡◌,
}
use unimrcp.GenericHeader.{
  GenericHeader, generic_header_active_request_id_list, id_list_append, ids_find,
}
use unimrcp.HeaderSection.{Str}
use unimrcp.Message.{
  MessageType, request, response, RequestState, in_progress, Message, Resource,
  generic_header_prepare, generic_header_property_add, generic_header_property_check,
}

-- What a state machine has told its owner.
pub data Action (R : Type 0) : Type 0 where
  dispatch : Message R → Action R
  deactivated : Action R

-- The next state and the returned status; `none` is a null pointer read.
abbrev pub Outcome : Type 0 → Type 0
Outcome S = Option (S × Bool)

abbrev pub request_id : {R : Type 0} → Message R → ℕ
request_id m = m.start_line.request_id

abbrev pub method_id : {R : Type 0} → Message R → ℕ
method_id m = m.start_line.method_id

abbrev pub is_in_progress : RequestState → Bool
is_in_progress in_progress = true
is_in_progress _ = false

abbrev pub with_request_state : {R : Type 0} → Message R → RequestState → Message R
with_request_state m st = record m { start_line = record m.start_line { request_state = st } }

abbrev pub with_status_code : {R : Type 0} → Message R → ℕ → Message R
with_status_code m code = record m { start_line = record m.start_line { status_code = code } }

abbrev pub pop_front : {R : Type 0} → List (Message R) → Option (Message R) × List (Message R)
pop_front [] = (none, [])
pop_front (m ∷ ms) = (some m, ms)

-- "DEACTIVATE"
abbrev pub deactivate_name : Str
deactivate_name = b'D' ∷ b'E' ∷ b'A' ∷ b'C' ∷ b'T' ∷ b'I' ∷ b'V' ∷ b'A' ∷ b'T' ∷ b'E' ∷ []

abbrev nonempty : List ℕ → Option (List ℕ)
nonempty [] = none
nonempty (x ∷ xs) = some (x ∷ xs)

-- The list of a selective request; `none` if the request addresses all.
unfoldable pub selective_ids : {R : Type 0} → Message R → Option (List ℕ)
selective_ids m = elim m.header.generic [
  | none ↦ none
  | some g ↦ elim (generic_header_property_check m generic_header_active_request_id_list) [
    | true ↦ nonempty g.active_request_id_list
    | false ↦ none
  ]
]

-- `!request_id_list || active_request_id_list_find(...)`
unfoldable pub is_addressed : Option (List ℕ) → ℕ → Bool
is_addressed none id = true
is_addressed (some ids) id = ids_find ids id

module _ {R : Type 0} (resource : Resource R) where
  -- The response's generic header data after an identifier is appended.
  unfoldable pub append_id : Message R → ℕ → Message R
  append_id m id = record m {
    header = record m.header {
      generic = some (id_list_append (generic_header_prepare resource m) id).0;
    };
  }

  -- The identifier is appended and the field generated.
  unfoldable pub active_id_add : Message R → ℕ → Message R
  unfolding append_id
  active_id_add m id =
      (generic_header_property_add resource (append_id m id)
        generic_header_active_request_id_list).0

  -- The loop of `pending_requests_remove` over the queue; `g` is the response's generic header.
  unfoldable pub remove_loop :
      Option (List ℕ) → List (Message R) → GenericHeader → List (Message R) × GenericHeader
  remove_loop ids [] g = ([], g)
  remove_loop ids (p ∷ ps) g = elim (is_addressed ids (request_id p)) [
    | true ↦ remove_loop ids ps (id_list_append g (request_id p)).0
    | false ↦ (p ∷ (remove_loop ids ps g).0, (remove_loop ids ps g).1)
  ]

  -- The field is generated only if the list is not empty.
  unfoldable pub list_field_add : Message R → GenericHeader → Message R
  list_field_add m g =
      let m' = record m { header = record m.header { generic = some g } } in
      elim g.active_request_id_list [
        | [] ↦ m'
        | id ∷ ids ↦
            (generic_header_property_add resource m' generic_header_active_request_id_list).0
      ]

  -- The queue that remains and the response.
  unfoldable pub pending_remove :
      List (Message R) → Message R → Message R → List (Message R) × Message R
  unfolding remove_loop list_field_add
  pending_remove queue request_message response_message =
      let (queue', g) =
        remove_loop (selective_ids request_message) queue
          (generic_header_prepare resource response_message) in
      (queue', list_field_add response_message g)

abbrev pub is_none : {A : Type 0} → Option A → Bool
is_none none = true
is_none (some a) = false

-- A property of the state after a call that reads no null pointer.
abbrev pub Ensures : {S : Type 0} → (S → Type 0) → Outcome S → Type 0
Ensures P none = Unit
Ensures P (some (s, b)) = P s

abbrev pub is_request : MessageType → Bool
is_request request = true
is_request _ = false

-- The identifiers of the messages that a log dispatches, in order.
abbrev pub sent_ids : {R : Type 0} → List (Action R) → List ℕ
sent_ids [] = []
sent_ids (dispatch m ∷ log) = request_id m ∷ sent_ids log
sent_ids (deactivated ∷ log) = sent_ids log

-- The identifiers of the responses and events of a log: what goes to the client.
abbrev pub client_ids : {R : Type 0} → List (Action R) → List ℕ
client_ids [] = []
client_ids (dispatch m ∷ log) =
    if is_request m.start_line.message_type then client_ids log else request_id m ∷ client_ids log
client_ids (deactivated ∷ log) = client_ids log

-- The call returns, in a state with the property.
abbrev pub Returns : {S : Type 0} → (S → Type 0) → Outcome S → Type 0
Returns P none = ⊥
Returns P (some (s, b)) = P s

-- A response of the engine that has the identifier of the active request is built from it, so it has
-- its method. Nothing is said of requests, of events and of responses to other requests.
abbrev pub AnswersActive : {R : Type 0} → Option (Message R) → Message R → Type 0
AnswersActive none m = Unit
AnswersActive (some a) m =
    m.start_line.message_type ≡ response → request_id a ≡ request_id m → method_id m ≡ method_id a

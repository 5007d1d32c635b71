-- ===== src/Recog.antt =====
-- The recognizer state machine (libs/mrcp-engine/src/mrcp_recog_state_machine.c): its state and
-- the functions through which every handler sends messages.
pub mod Requests
pub mod Responses
pub mod Update
pub mod Reachable
mod Tests
pub mod Invariant
pub mod Safety
pub mod Queue
pub mod Served
use unimrcp.Prelude.{ℕ, Bool, true, false, Option, none, some, List, [], ◌∷◌, ◌++◌, get_elem?, ◌==◌}
use unimrcp.MessageHeader.{MessageHeader, Vtables, create}
use unimrcp.Message.{
  Message, Resource, Version, resource_header_prepare, resource_header_property_add,
  resource_header_property_check,
}
use unimrcp.StateMachine.{Action, dispatch, deactivated, method_id}

pub data State : Type 0 where
  idle recognizing recognized : State

-- `mrcp_recognizer_method_id`
pub data Method : Type 0 where
  set_params get_params define_grammar recognize interpret get_result start_input_timers stop
        start_phrase_enrollment enrollment_rollback end_phrase_enrollment modify_phrase
        delete_phrase :
      Method

-- `mrcp_recognizer_event_id`
pub data Event : Type 0 where
  start_of_input recognition_complete interpretation_complete recognition_notify : Event

-- The enumerator with an identifier; `none` from RECOGNIZER_METHOD_COUNT on.
unfoldable pub method_of : ℕ → Option Method
method_of = get_elem? (
    set_params ∷ get_params ∷ define_grammar ∷ recognize ∷ interpret ∷ get_result
    ∷ start_input_timers ∷ stop ∷ start_phrase_enrollment ∷ enrollment_rollback
    ∷ end_phrase_enrollment ∷ modify_phrase ∷ delete_phrase ∷ [])

unfoldable pub event_of : ℕ → Option Event
event_of =
    get_elem?
      (start_of_input ∷ recognition_complete ∷ interpretation_complete ∷ recognition_notify ∷ [])

abbrev pub recognizer_stop : ℕ
recognizer_stop = 7

abbrev pub header_completion_cause : ℕ
header_completion_cause = 7

abbrev pub completion_cause_success : ℕ
completion_cause_success = 0

-- The resource and what the state machine writes of the recognizer header, whose data is of type
-- `R`.
pub record RecogResource (R : Type 0) : Type 0 where
  pub resource : Resource R
  pub with_completion_cause : R → ℕ → R

-- `mrcp_recog_state_machine_t`; `active` is that of its base, and `out` what its callbacks were
-- called with. `properties_vtables` are those of the accessors of `properties`.
pub record Recog (R : Type 0) : Type 0 where
  pub active : Bool
  pub out : List (Action R)
  pub state : State
  pub is_pending : Bool
  pub active_request : Option (Message R)
  pub recog : Option (Message R)
  pub queue : List (Message R)
  pub properties : MessageHeader R
  pub properties_vtables : Vtables R

module _ {R : Type 0} where
  unfoldable pub request_dispatch : Recog R → Message R → Recog R × Bool
  request_dispatch s m =
      (record s { active_request = some m; out = s.out ++ (dispatch m ∷ []) }, true)

  -- A deactivated machine takes any response for the answer to its own STOP request.
  unfoldable pub response_dispatch : Recog R → Message R → Recog R × Bool
  response_dispatch s m = elim s.active [
    | true ↦ (record s { active_request = none; out = s.out ++ (dispatch m ∷ []) }, true)
    | false ↦ (record s { active_request = none; out = s.out ++ (deactivated ∷ []) }, true)
  ]

  unfoldable pub event_dispatch : Recog R → Message R → Recog R × Bool
  event_dispatch s m = elim s.active [
    | true ↦ (record s { out = s.out ++ (dispatch m ∷ []) }, true)
    | false ↦ (s, false)
  ]

  abbrev recog_in : State → Option (Message R) → Option (Message R)
  recog_in idle recog = none
  recog_in _ recog = recog

  unfoldable pub state_change : Recog R → State → Recog R
  state_change s st = record s { state = st; recog = recog_in st s.recog }

  -- The next pending request, if any, goes to the engine.
  unfoldable pub process_pending : Recog R → Option (Message R) → Recog R
  process_pending s none = s
  process_pending s (some p) = (request_dispatch (record s { is_pending = true }) p).0

  -- A STOP request waits for its response.
  unfoldable pub is_stopping : Option (Message R) → Bool
  is_stopping none = false
  is_stopping (some a) = method_id a == recognizer_stop

module _ {R : Type 0} (ops : RecogResource R) where
  unfoldable pub create_machine : Version → Recog R
  create_machine version = record {
    active = true;
    out = [];
    state = idle;
    is_pending = false;
    active_request = none;
    recog = none;
    queue = [];
    properties = create (ops.resource.vtables version);
    properties_vtables = ops.resource.vtables version;
  }

  -- Without a Completion-Cause, the message gets that of success.
  unfoldable pub with_cause : Message R → Message R
  with_cause m = elim (resource_header_property_check m header_completion_cause) [
    | true ↦ m
    | false ↦
        let cause =
          ops.with_completion_cause (resource_header_prepare ops.resource m)
            completion_cause_success in
        (resource_header_property_add ops.resource
          (record m { header = record m.header { resource = some cause } })
          header_completion_cause).0
  ]

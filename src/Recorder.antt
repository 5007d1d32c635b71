-- ===== src/Recorder.antt =====
-- The recorder state machine (libs/mrcp-engine/src/mrcp_recorder_state_machine.c): its state and
-- the functions through which every handler sends messages.
pub mod Handlers
pub mod Update
pub mod Reachable
mod Tests
pub mod Invariant
use unimrcp.Prelude.{ℕ, Bool, true, false, Option, none, some, List, [], ◌∷◌, ◌++◌, get_elem?, ◌==◌}
use unimrcp.MessageHeader.{MessageHeader, Vtables, create}
use unimrcp.Message.{Message, Resource, Version}
use unimrcp.StateMachine.{Action, dispatch, deactivated, method_id}

pub data State : Type 0 where
  idle recording : State

-- `mrcp_recorder_method_id`
pub data Method : Type 0 where
  set_params get_params record_audio stop start_input_timers : Method

-- `mrcp_recorder_event_id`
pub data Event : Type 0 where
  start_of_input record_complete : Event

-- The entry of a method array; `none` is an identifier past its end.
unfoldable pub method_of : ℕ → Option Method
method_of = get_elem? (set_params ∷ get_params ∷ record_audio ∷ stop ∷ start_input_timers ∷ [])

unfoldable pub event_of : ℕ → Option Event
event_of = get_elem? (start_of_input ∷ record_complete ∷ [])

abbrev pub recorder_stop : ℕ
recorder_stop = 3

abbrev pub header_completion_cause : ℕ
header_completion_cause = 2

abbrev pub completion_cause_success_silence : ℕ
completion_cause_success_silence = 0

-- The resource and what the state machine writes of the recorder header, whose data is of type
-- `R`.
pub record RecorderResource (R : Type 0) : Type 0 where
  pub resource : Resource R
  pub with_completion_cause : R → ℕ → R

-- `mrcp_recorder_state_machine_t`; `active` is that of its base, and `out` what its callbacks
-- were called with. The field `record` of the source is `recorded`. `properties_vtables` are those of
-- the accessors of `properties`.
pub record Recorder (R : Type 0) : Type 0 where
  pub active : Bool
  pub out : List (Action R)
  pub state : State
  pub active_request : Option (Message R)
  pub recorded : Option (Message R)
  pub properties : MessageHeader R
  pub properties_vtables : Vtables R

module _ {R : Type 0} where
  unfoldable pub request_dispatch : Recorder R → Message R → Recorder R × Bool
  request_dispatch s m =
      (record s { active_request = some m; out = s.out ++ (dispatch m ∷ []) }, true)

  -- A deactivated machine takes any response for the answer to its own STOP request.
  unfoldable pub response_dispatch : Recorder R → Message R → Recorder R × Bool
  response_dispatch s m = elim s.active [
    | true ↦ (record s { active_request = none; out = s.out ++ (dispatch m ∷ []) }, true)
    | false ↦ (record s { active_request = none; out = s.out ++ (deactivated ∷ []) }, true)
  ]

  unfoldable pub event_dispatch : Recorder R → Message R → Recorder R × Bool
  event_dispatch s m = elim s.active [
    | true ↦ (record s { out = s.out ++ (dispatch m ∷ []) }, true)
    | false ↦ (s, false)
  ]

  abbrev recorded_in : State → Option (Message R) → Option (Message R)
  recorded_in idle m = none
  recorded_in recording m = m

  unfoldable pub state_change : Recorder R → State → Recorder R
  state_change s st = record s { state = st; recorded = recorded_in st s.recorded }

  -- A STOP request waits for its response.
  unfoldable pub is_stopping : Option (Message R) → Bool
  is_stopping none = false
  is_stopping (some a) = method_id a == recorder_stop

module _ {R : Type 0} (ops : RecorderResource R) where
  unfoldable pub create_machine : Version → Recorder R
  create_machine version = record {
    active = true;
    out = [];
    state = idle;
    active_request = none;
    recorded = none;
    properties = create (ops.resource.vtables version);
    properties_vtables = ops.resource.vtables version;
  }

-- ===== src/Synth.antt =====
-- The synthesizer state machine (libs/mrcp-engine/src/mrcp_synth_state_machine.c): its state and
-- the functions through which every handler sends messages.
pub mod Requests
pub mod Responses
pub mod Events
pub mod Update
pub mod Reachable
pub mod Fixture
mod Tests
mod PendingTests
pub mod Invariant
pub mod Safety
pub mod Answers
pub mod Deactivation
pub mod Completion
pub mod Pending
pub mod Served
use unimrcp.Prelude.{
  ℕ, zero, suc, ◌≡◌, Bool, true, false, Option, none, some, List, [], ◌∷◌, ◌++◌, get_elem?, ◌==◌,
  if◌then◌else◌, arith,
}
use unimrcp.MessageHeader.{MessageHeader, Vtables, create}
use unimrcp.Message.{Message, Resource, Version, event_create}
use unimrcp.StateMachine.{method_id, Action, dispatch, deactivated}

pub data State : Type 0 where
  idle speaking paused : State

-- `mrcp_synthesizer_method_id`
pub data Method : Type 0 where
  set_params get_params speak stop pause resume barge_in_occurred control define_lexicon : Method

-- `mrcp_synthesizer_event_id`
pub data Event : Type 0 where
  speech_marker speak_complete : Event

-- The entry of a method array; `none` is an identifier past its end.
unfoldable pub method_of : ℕ → Option Method
method_of = get_elem? (
    set_params ∷ get_params ∷ speak ∷ stop ∷ pause ∷ resume ∷ barge_in_occurred ∷ control
    ∷ define_lexicon ∷ [])

unfoldable pub event_of : ℕ → Option Event
event_of = get_elem? (speech_marker ∷ speak_complete ∷ [])

abbrev pub synthesizer_stop : ℕ
synthesizer_stop = 3

abbrev pub synthesizer_barge_in_occurred : ℕ
synthesizer_barge_in_occurred = 6

abbrev pub synthesizer_speech_marker : ℕ
synthesizer_speech_marker = 0

abbrev pub header_kill_on_barge_in : ℕ
header_kill_on_barge_in = 1

abbrev pub header_completion_cause : ℕ
header_completion_cause = 3

abbrev pub completion_cause_normal : ℕ
completion_cause_normal = 0

-- The resource and what the state machine reads and writes of the synthesizer header, whose data
-- is of type `R`.
pub record SynthResource (R : Type 0) : Type 0 where
  pub resource : Resource R
  pub kill_on_barge_in : R → Bool
  pub with_completion_cause : R → ℕ → R

-- `mrcp_synth_state_machine_t`; `active` is that of its base, and `out` what its callbacks were
-- called with. `properties_vtables` are those of the accessors of `properties`.
pub record Synth (R : Type 0) : Type 0 where
  pub active : Bool
  pub out : List (Action R)
  pub state : State
  pub is_pending : Bool
  pub active_request : Option (Message R)
  pub speaker : Option (Message R)
  pub queue : List (Message R)
  pub properties : MessageHeader R
  pub properties_vtables : Vtables R

module _ {R : Type 0} where
  unfoldable pub request_dispatch : Synth R → Message R → Synth R × Bool
  request_dispatch s m =
      (record s { active_request = some m; out = s.out ++ (dispatch m ∷ []) }, true)

  -- A deactivated machine takes any response for the answer to its own STOP request.
  unfoldable pub response_dispatch : Synth R → Message R → Synth R × Bool
  response_dispatch s m = elim s.active [
    | true ↦ (record s { active_request = none; out = s.out ++ (dispatch m ∷ []) }, true)
    | false ↦ (record s { active_request = none; out = s.out ++ (deactivated ∷ []) }, true)
  ]

  unfoldable pub event_dispatch : Synth R → Message R → Synth R × Bool
  event_dispatch s m = elim s.active [
    | true ↦ (record s { out = s.out ++ (dispatch m ∷ []) }, true)
    | false ↦ (s, false)
  ]

  abbrev speaker_in : State → Option (Message R) → Option (Message R)
  speaker_in idle speaker = none
  speaker_in _ speaker = speaker

  unfoldable pub state_change : Synth R → State → Synth R
  state_change s st = record s { state = st; speaker = speaker_in st s.speaker }

  -- The next pending request, if any, goes to the engine.
  unfoldable pub process_pending : Synth R → Option (Message R) → Synth R
  process_pending s none = s
  process_pending s (some p) = (request_dispatch (record s { is_pending = true }) p).0

  -- A STOP or BARGE-IN-OCCURRED request waits for its response.
  unfoldable pub is_stopping : Option (Message R) → Bool
  is_stopping none = false
  is_stopping (some a) =
      if method_id a == synthesizer_stop then true else method_id a == synthesizer_barge_in_occurred

  unfoldable pub create_machine : SynthResource R → Version → Synth R
  create_machine ops version = record {
    active = true;
    out = [];
    state = idle;
    is_pending = false;
    active_request = none;
    speaker = none;
    queue = [];
    properties = create (ops.resource.vtables version);
    properties_vtables = ops.resource.vtables version;
  }

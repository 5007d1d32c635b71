-- ===== src/Synth/Events.antt =====
-- The handlers of mrcp_synth_state_machine.c for events from the engine.
use unimrcp.Prelude.{true, false, none, some, ◌==◌}
use unimrcp.Message.{
  Message, in_progress, resource_header_prepare, resource_header_property_add,
  resource_header_property_check,
}
use unimrcp.StateMachine.{with_request_state, pop_front, Outcome, request_id}
use unimrcp.Synth.{
  is_stopping, process_pending, idle, SynthResource, Synth, header_completion_cause,
  completion_cause_normal, event_dispatch, state_change,
}

module _ {R : Type 0} (ops : SynthResource R) where
  open ops use {resource}

  unfoldable pub event_speech_marker : Synth R → Message R → Outcome (Synth R)
  event_speech_marker s m = elim s.speaker [
    | none ↦ some (s, false)
    | some sp ↦ elim (request_id sp == request_id m) [
      | true ↦ some (event_dispatch s (with_request_state m in_progress))
      | false ↦ some (s, false)
    ]
  ]

  unfoldable pub with_cause : Message R → Message R
  with_cause m = elim (resource_header_property_check m header_completion_cause) [
    | true ↦ m
    | false ↦
        let cause =
          ops.with_completion_cause (resource_header_prepare resource m) completion_cause_normal in
        (resource_header_property_add resource
          (record m { header = record m.header { resource = some cause } })
          header_completion_cause).0
  ]

  unfoldable pub event_speak_complete : Synth R → Message R → Outcome (Synth R)
  unfolding process_pending is_stopping
  event_speak_complete s m = elim s.speaker [
    | none ↦ some (s, false)
    | some sp ↦ elim (request_id sp == request_id m) [
      | false ↦ some (s, false)
      | true ↦ elim (is_stopping s.active_request) [
        | true ↦ some (s, false)
        | false ↦
            let s' = (event_dispatch (state_change s idle) (with_cause m)).0 in
            let (next, rest) = pop_front s'.queue in
            some (process_pending (record s' { queue = rest }) next, true)
      ]
    ]
  ]

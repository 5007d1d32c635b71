-- ===== src/Synth/Update.antt =====
-- The entry points of mrcp_synth_state_machine.c: the method arrays, the updates by message type,
-- and the deactivation.
use unimrcp.Prelude.{◌+◌, ◌%◌, ◌^◌, true, false, none, some, ◌==◌}
use unimrcp.Message.{Message, untyped, request, response, event, request_create}
use unimrcp.StateMachine.{deactivate_name, Outcome, request_id, method_id}
use unimrcp.Synth.{
  SynthResource, Synth, Method, set_params, get_params, speak, stop, pause, resume,
  barge_in_occurred, control, define_lexicon, Event, speech_marker, speak_complete, method_of,
  event_of, synthesizer_stop, request_dispatch,
}
use unimrcp.Synth.Requests.{
  request_set_params, request_get_params, request_speak, request_stop, request_pause,
  request_resume, request_barge_in_occurred, request_control, request_define_lexicon,
}
use unimrcp.Synth.Responses.{
  response_plain, response_get_params, response_speak, response_stop, response_pause,
  response_resume, response_barge_in_occurred, response_control,
}
use unimrcp.Synth.Events.{event_speech_marker, event_speak_complete}

module _ {R : Type 0} (ops : SynthResource R) where
  -- `synth_request_method_array`
  unfoldable pub request_method : Method → Synth R → Message R → Outcome (Synth R)
  request_method set_params = request_set_params ops
  request_method get_params = request_get_params ops
  request_method speak = request_speak ops
  request_method stop = request_stop ops
  request_method pause = request_pause ops
  request_method resume = request_resume ops
  request_method barge_in_occurred = request_barge_in_occurred ops
  request_method control = request_control ops
  request_method define_lexicon = request_define_lexicon ops

  -- `synth_response_method_array`
  unfoldable pub response_method : Method → Synth R → Message R → Outcome (Synth R)
  response_method set_params = response_plain ops
  response_method get_params = response_get_params ops
  response_method speak = response_speak ops
  response_method stop = response_stop ops
  response_method pause = response_pause ops
  response_method resume = response_resume ops
  response_method barge_in_occurred = response_barge_in_occurred ops
  response_method control = response_control ops
  response_method define_lexicon = response_plain ops

  -- `synth_event_method_array`
  unfoldable pub event_method : Event → Synth R → Message R → Outcome (Synth R)
  event_method speech_marker = event_speech_marker ops
  event_method speak_complete = event_speak_complete ops

  unfoldable pub request_state_update : Synth R → Message R → Outcome (Synth R)
  request_state_update s m = elim (method_of (method_id m)) [
    | none ↦ some (s, false)
    | some method ↦ request_method method s m
  ]

  unfoldable pub response_state_update : Synth R → Message R → Outcome (Synth R)
  response_state_update s m = elim s.active_request [
    | none ↦ some (s, false)
    | some a ↦ elim (request_id a == request_id m) [
      | false ↦ some (s, false)
      | true ↦ elim (method_of (method_id m)) [
        | none ↦ some (s, false)
        | some method ↦ response_method method s m
      ]
    ]
  ]

  unfoldable pub event_state_update : Synth R → Message R → Outcome (Synth R)
  event_state_update s m = elim (event_of (method_id m)) [
    | none ↦ some (s, false)
    | some e ↦ event_method e s m
  ]

  unfoldable pub state_update : Synth R → Message R → Outcome (Synth R)
  state_update s m = elim m.start_line.message_type [
    | request ↦ request_state_update s m
    | response ↦ response_state_update s m
    | event ↦ event_state_update s m
    | untyped ↦ some (s, false)
  ]

  -- The internal STOP request that deactivation sends to the engine for the speaker `source`.
  unfoldable pub stop_request : Message R → Message R
  stop_request source =
      let m = request_create ops.resource source.start_line.version synthesizer_stop in
      record m {
        channel_id = source.channel_id;
        start_line = record m.start_line {
          request_id = (request_id source + 1) % 2 ^ 32;
          method_name = deactivate_name;
        };
        header = source.header;
      }

  -- `mrcp_state_machine_deactivate`, which clears `active` first, and `synth_state_deactivate`.
  unfoldable pub state_deactivate : Synth R → Outcome (Synth R)
  unfolding stop_request
  state_deactivate s =
      let s' = record s { active = false } in
      elim s'.speaker [
        | none ↦ some (s', false)
        | some source ↦ some (request_dispatch s' (stop_request source))
      ]

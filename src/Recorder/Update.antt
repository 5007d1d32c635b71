-- ===== src/Recorder/Update.antt =====
-- The entry points of mrcp_recorder_state_machine.c: the method arrays, the updates by message
-- type, and the deactivation.
use unimrcp.Prelude.{◌+◌, ◌%◌, ◌^◌, true, false, none, some, ◌==◌}
use unimrcp.Message.{Message, untyped, request, response, event, request_create}
use unimrcp.StateMachine.{Outcome, request_id, method_id, deactivate_name}
use unimrcp.Recorder.{
  idle, recording, RecorderResource, Recorder, Method, set_params, get_params, record_audio, stop,
  start_input_timers, Event, start_of_input, record_complete, method_of, event_of, recorder_stop,
  request_dispatch,
}
use unimrcp.Recorder.Handlers.{
  request_set_params, request_get_params, request_record, request_stop, request_start_timers,
  response_plain, response_get_params, response_record, response_stop, event_start_of_input,
  event_record_complete,
}

module _ {R : Type 0} (ops : RecorderResource R) where
  -- `recorder_request_method_array`
  unfoldable pub request_method : Method → Recorder R → Message R → Outcome (Recorder R)
  request_method set_params = request_set_params ops
  request_method get_params = request_get_params ops
  request_method record_audio = request_record ops
  request_method stop = request_stop ops
  request_method start_input_timers = request_start_timers ops

  -- `recorder_response_method_array`
  unfoldable pub response_method : Method → Recorder R → Message R → Outcome (Recorder R)
  response_method set_params = response_plain ops
  response_method get_params = response_get_params ops
  response_method record_audio = response_record ops
  response_method stop = response_stop ops
  response_method start_input_timers = response_plain ops

  -- `recorder_event_method_array`
  unfoldable pub event_method : Event → Recorder R → Message R → Outcome (Recorder R)
  event_method start_of_input = event_start_of_input ops
  event_method record_complete = event_record_complete ops

  unfoldable pub request_state_update : Recorder R → Message R → Outcome (Recorder R)
  request_state_update s m = elim (method_of (method_id m)) [
    | none ↦ some (s, false)
    | some method ↦ request_method method s m
  ]

  unfoldable pub response_state_update : Recorder R → Message R → Outcome (Recorder R)
  response_state_update s m = elim s.active_request [
    | none ↦ some (s, false)
    | some a ↦ elim (request_id a == request_id m) [
      | false ↦ some (s, false)
      | true ↦ elim (method_of (method_id m)) [
        | none ↦ some (s, false)
        | some method ↦ response_method method s m
      ]
    ]
  ]

  unfoldable pub event_state_update : Recorder R → Message R → Outcome (Recorder R)
  event_state_update s m = elim (event_of (method_id m)) [
    | none ↦ some (s, false)
    | some e ↦ event_method e s m
  ]

  unfoldable pub state_update : Recorder R → Message R → Outcome (Recorder R)
  state_update s m = elim m.start_line.message_type [
    | request ↦ request_state_update s m
    | response ↦ response_state_update s m
    | event ↦ event_state_update s m
    | untyped ↦ some (s, false)
  ]

  -- The internal STOP request that deactivation sends to the engine.
  unfoldable pub stop_request : Message R → Message R
  stop_request source =
      let m = request_create ops.resource source.start_line.version recorder_stop in
      record m {
        channel_id = source.channel_id;
        start_line = record m.start_line {
          request_id = (request_id source + 1) % 2 ^ 32;
          method_name = deactivate_name;
        };
        header = source.header;
      }

  -- `mrcp_state_machine_deactivate`, which clears `active` first, and `recorder_state_deactivate`.
  unfoldable pub state_deactivate : Recorder R → Outcome (Recorder R)
  unfolding stop_request
  state_deactivate s =
      let s' = record s { active = false } in
      elim s'.state [
        | recording ↦ elim s'.recorded [
          | none ↦ some (s', false)
          | some source ↦ some (request_dispatch s' (stop_request source))
        ]
        | idle ↦ some (s', false)
      ]

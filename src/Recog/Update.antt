-- ===== src/Recog/Update.antt =====
-- The entry points of mrcp_recog_state_machine.c: the method arrays, the updates by message type,
-- and the deactivation.
use unimrcp.Prelude.{◌+◌, ◌%◌, ◌^◌, true, false, none, some, ◌==◌}
use unimrcp.Message.{Message, untyped, request, response, event, request_create}
use unimrcp.StateMachine.{Outcome, request_id, method_id, deactivate_name}
use unimrcp.Recog.{
  recognizing, RecogResource, Recog, Method, set_params, get_params, define_grammar, recognize,
  interpret, get_result, start_input_timers, stop, Event, start_of_input, recognition_complete,
  interpretation_complete, recognition_notify, method_of, event_of, recognizer_stop,
  request_dispatch,
}
use unimrcp.Recog.Requests.{
  request_set_params, request_get_params, request_define_grammar, request_recognize,
  request_interpret, request_get_result, request_recognition_start_timers, request_stop,
}
use unimrcp.Recog.Responses.{
  response_plain, response_get_params, response_define_grammar, response_recognize, response_stop,
  event_start_of_input, event_recognition_notify, event_recognition_complete,
  event_interpretation_complete,
}

module _ {R : Type 0} (ops : RecogResource R) where
  -- `recog_request_method_array`, which has no handler for the enrollment methods: they are
  -- dispatched.
  unfoldable pub request_method : Method → Recog R → Message R → Outcome (Recog R)
  request_method set_params s m = request_set_params ops s m
  request_method get_params s m = request_get_params ops s m
  request_method define_grammar s m = request_define_grammar ops s m
  request_method recognize s m = request_recognize ops s m
  request_method interpret s m = request_interpret ops s m
  request_method get_result s m = request_get_result ops s m
  request_method start_input_timers s m = request_recognition_start_timers ops s m
  request_method stop s m = request_stop ops s m
  request_method _ s m = some (request_dispatch s m)

  -- `recog_response_method_array`; the responses with no work of their own are dispatched.
  unfoldable pub response_method : Method → Recog R → Message R → Outcome (Recog R)
  response_method get_params s m = response_get_params ops s m
  response_method define_grammar s m = response_define_grammar ops s m
  response_method recognize s m = response_recognize ops s m
  response_method stop s m = response_stop ops s m
  response_method _ s m = response_plain ops s m

  -- `recog_event_method_array`
  unfoldable pub event_method : Event → Recog R → Message R → Outcome (Recog R)
  event_method start_of_input = event_start_of_input ops
  event_method recognition_complete = event_recognition_complete ops
  event_method interpretation_complete = event_interpretation_complete ops
  event_method recognition_notify = event_recognition_notify ops

  unfoldable pub request_state_update : Recog R → Message R → Outcome (Recog R)
  request_state_update s m = elim (method_of (method_id m)) [
    | none ↦ some (s, false)
    | some method ↦ request_method method s m
  ]

  unfoldable pub response_state_update : Recog R → Message R → Outcome (Recog R)
  response_state_update s m = elim s.active_request [
    | none ↦ some (s, false)
    | some a ↦ elim (request_id a == request_id m) [
      | false ↦ some (s, false)
      | true ↦ elim (method_of (method_id m)) [
        | none ↦ some (s, false)
        | some method ↦ response_method method s m
      ]
    ]
  ]

  unfoldable pub event_state_update : Recog R → Message R → Outcome (Recog R)
  event_state_update s m = elim (event_of (method_id m)) [
    | none ↦ some (s, false)
    | some e ↦ event_method e s m
  ]

  unfoldable pub state_update : Recog R → Message R → Outcome (Recog R)
  state_update s m = elim m.start_line.message_type [
    | request ↦ request_state_update s m
    | response ↦ response_state_update s m
    | event ↦ event_state_update s m
    | untyped ↦ some (s, false)
  ]

  -- The internal STOP request that deactivation sends to the engine.
  unfoldable pub stop_request : Message R → Message R
  stop_request source =
      let m = request_create ops.resource source.start_line.version recognizer_stop in
      record m {
        channel_id = source.channel_id;
        start_line = record m.start_line {
          request_id = (request_id source + 1) % 2 ^ 32;
          method_name = deactivate_name;
        };
        header = source.header;
      }

  -- `mrcp_state_machine_deactivate`, which clears `active` first, and `recog_state_deactivate`.
  unfoldable pub state_deactivate : Recog R → Outcome (Recog R)
  unfolding stop_request
  state_deactivate s =
      let s' = record s { active = false } in
      elim s'.state [
        | recognizing ↦ elim s'.recog [
          | none ↦ some (s', false)
          | some source ↦ some (request_dispatch s' (stop_request source))
        ]
        | _ ↦ some (s', false)
      ]

-- ===== src/Verifier/Update.antt =====
-- The entry points of mrcp_verifier_state_machine.c: the method arrays, the updates by message
-- type, and the deactivation.
use unimrcp.Prelude.{◌+◌, ◌%◌, ◌^◌, true, false, none, some, ◌==◌}
use unimrcp.Message.{Message, untyped, request, response, event, request_create}
use unimrcp.StateMachine.{Outcome, request_id, method_id, deactivate_name}
use unimrcp.Verifier.{
  verifying, VerifierResource, Verifier, Method, set_params, get_params, start_session, end_session,
  query_voiceprint, delete_voiceprint, verify_speech, verify_from_buffer, verify_rollback, stop,
  clear_buffer, start_input_timers, get_intermidiate_result, Event, start_of_input,
  verification_complete, method_of, event_of, verifier_stop, request_dispatch,
}
use unimrcp.Verifier.Handlers.{
  request_set_params, request_get_params, request_start_session, request_end_session,
  request_query_voiceprint, request_delete_voiceprint, request_verify, request_verify_from_buffer,
  request_verify_rollback, request_stop, request_clear_buffer, request_start_input_timers,
  request_get_intermidiate_result, response_plain, response_get_params, response_start_session,
  response_end_session, response_verify, response_verify_from_buffer, response_stop,
  event_start_of_input, event_verification_complete,
}

module _ {R : Type 0} (ops : VerifierResource R) where
  -- `verifier_request_method_array`
  unfoldable pub request_method : Method → Verifier R → Message R → Outcome (Verifier R)
  request_method set_params = request_set_params ops
  request_method get_params = request_get_params ops
  request_method start_session = request_start_session ops
  request_method end_session = request_end_session ops
  request_method query_voiceprint = request_query_voiceprint ops
  request_method delete_voiceprint = request_delete_voiceprint ops
  request_method verify_speech = request_verify ops
  request_method verify_from_buffer = request_verify_from_buffer ops
  request_method verify_rollback = request_verify_rollback ops
  request_method stop = request_stop ops
  request_method clear_buffer = request_clear_buffer ops
  request_method start_input_timers = request_start_input_timers ops
  request_method get_intermidiate_result = request_get_intermidiate_result ops

  -- `verifier_response_method_array`; the responses with no work of their own are dispatched.
  unfoldable pub response_method : Method → Verifier R → Message R → Outcome (Verifier R)
  response_method get_params = response_get_params ops
  response_method start_session = response_start_session ops
  response_method end_session = response_end_session ops
  response_method verify_speech = response_verify ops
  response_method verify_from_buffer = response_verify_from_buffer ops
  response_method stop = response_stop ops
  response_method _ = response_plain ops

  -- `verifier_event_method_array`
  unfoldable pub event_method : Event → Verifier R → Message R → Outcome (Verifier R)
  event_method start_of_input = event_start_of_input ops
  event_method verification_complete = event_verification_complete ops

  unfoldable pub request_state_update : Verifier R → Message R → Outcome (Verifier R)
  request_state_update s m = elim (method_of (method_id m)) [
    | none ↦ some (s, false)
    | some method ↦ request_method method s m
  ]

  unfoldable pub response_state_update : Verifier R → Message R → Outcome (Verifier R)
  response_state_update s m = elim s.active_request [
    | none ↦ some (s, false)
    | some a ↦ elim (request_id a == request_id m) [
      | false ↦ some (s, false)
      | true ↦ elim (method_of (method_id m)) [
        | none ↦ some (s, false)
        | some method ↦ response_method method s m
      ]
    ]
  ]

  unfoldable pub event_state_update : Verifier R → Message R → Outcome (Verifier R)
  event_state_update s m = elim (event_of (method_id m)) [
    | none ↦ some (s, false)
    | some e ↦ event_method e s m
  ]

  unfoldable pub state_update : Verifier R → Message R → Outcome (Verifier R)
  state_update s m = elim m.start_line.message_type [
    | request ↦ request_state_update s m
    | response ↦ response_state_update s m
    | event ↦ event_state_update s m
    | untyped ↦ some (s, false)
  ]

  -- The internal STOP request that deactivation sends to the engine.
  unfoldable pub stop_request : Message R → Message R
  stop_request source =
      let m = request_create ops.resource source.start_line.version verifier_stop in
      record m {
        channel_id = source.channel_id;
        start_line = record m.start_line {
          request_id = (request_id source + 1) % 2 ^ 32;
          method_name = deactivate_name;
        };
        header = source.header;
      }

  -- `mrcp_state_machine_deactivate`, which clears `active` first, and `verifier_state_deactivate`.
  unfoldable pub state_deactivate : Verifier R → Outcome (Verifier R)
  unfolding stop_request
  state_deactivate s =
      let s' = record s { active = false } in
      elim s'.state [
        | verifying ↦ elim s'.verify [
          | none ↦ some (s', false)
          | some source ↦ some (request_dispatch s' (stop_request source))
        ]
        | _ ↦ some (s', false)
      ]

-- ===== src/Verifier/Handlers.antt =====
-- The handlers of mrcp_verifier_state_machine.c, one for each request, response and event. They
-- read `verify` and `active_request` as pointers: reading a null one gives `none`.
use unimrcp.Prelude.{true, false, none, some, ◌==◌}
use unimrcp.MessageHeader.{fields_set, fields_get}
use unimrcp.Message.{
  Message, in_progress, status_code_method_not_valid, response_create, vtables_of,
  resource_header_prepare, resource_header_property_add, resource_header_property_check,
}
use unimrcp.StateMachine.{with_request_state, with_status_code, Outcome, request_id, active_id_add}
use unimrcp.Verifier.{
  idle, opened, verifying, VerifierResource, Verifier, header_completion_cause,
  completion_cause_success, request_dispatch, response_dispatch, event_dispatch, state_change,
  is_stopping,
}

module _ {R : Type 0} (ops : VerifierResource R) where
  open ops use {resource}

  abbrev respond : Message R → Message R
  respond m = response_create resource m

  abbrev reject : Verifier R → Message R → Outcome (Verifier R)
  reject s m =
      some (response_dispatch s (with_status_code (respond m) status_code_method_not_valid))

  unfoldable pub request_set_params : Verifier R → Message R → Outcome (Verifier R)
  request_set_params s m = some (
      request_dispatch
        (record s { properties = fields_set s.properties_vtables s.properties m.header }) m)

  unfoldable pub request_get_params : Verifier R → Message R → Outcome (Verifier R)
  request_get_params s m = some (request_dispatch s m)

  unfoldable pub request_start_session : Verifier R → Message R → Outcome (Verifier R)
  request_start_session s m = elim s.state [
    | verifying ↦ reject s m
    | _ ↦ some (request_dispatch s m)
  ]

  unfoldable pub request_end_session : Verifier R → Message R → Outcome (Verifier R)
  request_end_session s m = elim s.state [ idle ↦ reject s m | _ ↦ some (request_dispatch s m) ]

  unfoldable pub request_query_voiceprint : Verifier R → Message R → Outcome (Verifier R)
  request_query_voiceprint s m = elim s.state [
    | idle ↦ reject s m
    | _ ↦ some (request_dispatch s m)
  ]

  unfoldable pub request_delete_voiceprint : Verifier R → Message R → Outcome (Verifier R)
  request_delete_voiceprint s m = elim s.state [
    | idle ↦ reject s m
    | _ ↦ some (request_dispatch s m)
  ]

  unfoldable pub request_verify : Verifier R → Message R → Outcome (Verifier R)
  request_verify s m = elim s.state [
    | opened ↦ some (request_dispatch (record s { verify = some m }) m)
    | _ ↦ reject s m
  ]

  unfoldable pub request_verify_from_buffer : Verifier R → Message R → Outcome (Verifier R)
  request_verify_from_buffer s m = elim s.state [
    | opened ↦ some (request_dispatch (record s { verify = some m }) m)
    | _ ↦ reject s m
  ]

  unfoldable pub request_verify_rollback : Verifier R → Message R → Outcome (Verifier R)
  request_verify_rollback s m = some (request_dispatch s m)

  unfoldable pub request_stop : Verifier R → Message R → Outcome (Verifier R)
  request_stop s m = elim s.state [
    | idle ↦ reject s m
    | opened ↦ some (response_dispatch s (respond m))
    | verifying ↦ some (request_dispatch s m)
  ]

  unfoldable pub request_clear_buffer : Verifier R → Message R → Outcome (Verifier R)
  request_clear_buffer s m = some (request_dispatch s m)

  unfoldable pub request_start_input_timers : Verifier R → Message R → Outcome (Verifier R)
  request_start_input_timers s m = elim s.state [
    | opened ↦ some (request_dispatch s m)
    | _ ↦ reject s m
  ]

  unfoldable pub request_get_intermidiate_result : Verifier R → Message R → Outcome (Verifier R)
  request_get_intermidiate_result s m = elim s.state [
    | verifying ↦ some (request_dispatch s m)
    | _ ↦ reject s m
  ]

  unfoldable pub response_plain : Verifier R → Message R → Outcome (Verifier R)
  response_plain s m = some (response_dispatch s m)

  unfoldable pub response_get_params : Verifier R → Message R → Outcome (Verifier R)
  response_get_params s m = elim s.active_request [
    | none ↦ none
    | some a ↦ some (
        response_dispatch s
          (record m { header = fields_get (vtables_of resource m) m.header s.properties a.header }))
  ]

  -- The status of the response is not read.
  unfoldable pub response_start_session : Verifier R → Message R → Outcome (Verifier R)
  response_start_session s m = some (response_dispatch (state_change s opened) m)

  unfoldable pub response_end_session : Verifier R → Message R → Outcome (Verifier R)
  response_end_session s m = some (response_dispatch (state_change s idle) m)

  unfoldable pub response_verify : Verifier R → Message R → Outcome (Verifier R)
  response_verify s m = some (response_dispatch (state_change s verifying) m)

  unfoldable pub response_verify_from_buffer : Verifier R → Message R → Outcome (Verifier R)
  response_verify_from_buffer s m = some (response_dispatch (state_change s verifying) m)

  unfoldable pub response_stop : Verifier R → Message R → Outcome (Verifier R)
  response_stop s m = elim s.verify [
    | none ↦ none
    | some v ↦
        some (response_dispatch (state_change s opened) (active_id_add resource m (request_id v)))
  ]

  unfoldable pub event_start_of_input : Verifier R → Message R → Outcome (Verifier R)
  event_start_of_input s m = elim s.verify [
    | none ↦ some (s, false)
    | some r ↦ elim (request_id r == request_id m) [
      | true ↦ some (event_dispatch s (with_request_state m in_progress))
      | false ↦ some (s, false)
    ]
  ]

  -- Without a Completion-Cause, the event gets that of success.
  unfoldable pub with_cause : Message R → Message R
  with_cause m = elim (resource_header_property_check m header_completion_cause) [
    | true ↦ m
    | false ↦
        let cause =
          ops.with_completion_cause (resource_header_prepare resource m) completion_cause_success in
        (resource_header_property_add resource
          (record m { header = record m.header { resource = some cause } })
          header_completion_cause).0
  ]

  unfoldable pub event_verification_complete : Verifier R → Message R → Outcome (Verifier R)
  unfolding is_stopping
  event_verification_complete s m = elim s.verify [
    | none ↦ some (s, false)
    | some r ↦ elim (request_id r == request_id m) [
      | false ↦ some (s, false)
      | true ↦ elim (is_stopping s.active_request) [
        | true ↦ some (s, false)
        | false ↦ some (event_dispatch (state_change s opened) (with_cause m))
      ]
    ]
  ]

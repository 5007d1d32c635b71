-- ===== src/Recorder/Handlers.antt =====
-- The handlers of mrcp_recorder_state_machine.c, one for each request, response and event. They
-- read `recorded` and `active_request` as pointers: reading a null one gives `none`.
use unimrcp.Prelude.{true, false, none, some, ◌==◌, if◌then◌else◌}
use unimrcp.MessageHeader.{fields_set, fields_get, fields_inherit}
use unimrcp.Message.{
  Message, in_progress, status_code_method_not_valid, response_create, vtables_of,
  resource_header_prepare, resource_header_property_add, resource_header_property_check,
}
use unimrcp.StateMachine.{
  is_in_progress, with_request_state, with_status_code, Outcome, request_id, active_id_add,
}
use unimrcp.Recorder.{
  idle, recording, RecorderResource, Recorder, header_completion_cause,
  completion_cause_success_silence, request_dispatch, response_dispatch, event_dispatch,
  state_change, is_stopping,
}

module _ {R : Type 0} (ops : RecorderResource R) where
  open ops use {resource}

  abbrev respond : Message R → Message R
  respond m = response_create resource m

  abbrev reject : Recorder R → Message R → Outcome (Recorder R)
  reject s m =
      some (response_dispatch s (with_status_code (respond m) status_code_method_not_valid))

  unfoldable pub request_set_params : Recorder R → Message R → Outcome (Recorder R)
  request_set_params s m = some (
      request_dispatch
        (record s { properties = fields_set s.properties_vtables s.properties m.header }) m)

  unfoldable pub request_get_params : Recorder R → Message R → Outcome (Recorder R)
  request_get_params s m = some (request_dispatch s m)

  -- The request inherits the properties, and is rejected while another is in progress.
  unfoldable pub request_record : Recorder R → Message R → Outcome (Recorder R)
  request_record s m =
      let m' = record m { header = fields_inherit (vtables_of resource m) m.header s.properties } in
      elim s.state [ recording ↦ reject s m' | idle ↦ some (request_dispatch s m') ]

  unfoldable pub request_stop : Recorder R → Message R → Outcome (Recorder R)
  request_stop s m = elim s.state [
    | recording ↦ some (request_dispatch s m)
    | idle ↦ some (response_dispatch s (respond m))
  ]

  unfoldable pub request_start_timers : Recorder R → Message R → Outcome (Recorder R)
  request_start_timers s m = elim s.state [
    | recording ↦ some (request_dispatch s m)
    | idle ↦ reject s m
  ]

  unfoldable pub response_plain : Recorder R → Message R → Outcome (Recorder R)
  response_plain s m = some (response_dispatch s m)

  unfoldable pub response_get_params : Recorder R → Message R → Outcome (Recorder R)
  response_get_params s m = elim s.active_request [
    | none ↦ none
    | some a ↦ some (
        response_dispatch s
          (record m { header = fields_get (vtables_of resource m) m.header s.properties a.header }))
  ]

  unfoldable pub response_record : Recorder R → Message R → Outcome (Recorder R)
  response_record s m =
      let s' =
        if is_in_progress m.start_line.request_state
        then state_change (record s { recorded = s.active_request }) recording
        else s in
      some (response_dispatch s' m)

  unfoldable pub response_stop : Recorder R → Message R → Outcome (Recorder R)
  response_stop s m = elim s.recorded [
    | none ↦ none
    | some r ↦
        some (response_dispatch (state_change s idle) (active_id_add resource m (request_id r)))
  ]

  unfoldable pub event_start_of_input : Recorder R → Message R → Outcome (Recorder R)
  event_start_of_input s m = elim s.recorded [
    | none ↦ some (s, false)
    | some r ↦ elim (request_id r == request_id m) [
      | true ↦ some (event_dispatch s (with_request_state m in_progress))
      | false ↦ some (s, false)
    ]
  ]

  -- Without a Completion-Cause, the event gets that of success by silence.
  unfoldable pub with_cause : Message R → Message R
  with_cause m = elim (resource_header_property_check m header_completion_cause) [
    | true ↦ m
    | false ↦
        let cause =
          ops.with_completion_cause (resource_header_prepare resource m)
            completion_cause_success_silence in
        (resource_header_property_add resource
          (record m { header = record m.header { resource = some cause } })
          header_completion_cause).0
  ]

  unfoldable pub event_record_complete : Recorder R → Message R → Outcome (Recorder R)
  unfolding is_stopping
  event_record_complete s m = elim s.recorded [
    | none ↦ some (s, false)
    | some r ↦ elim (request_id r == request_id m) [
      | false ↦ some (s, false)
      | true ↦ elim (is_stopping s.active_request) [
        | true ↦ some (s, false)
        | false ↦ some (event_dispatch (state_change s idle) (with_cause m))
      ]
    ]
  ]

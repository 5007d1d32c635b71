-- ===== src/Recog/Requests.antt =====
-- The handlers of mrcp_recog_state_machine.c for requests from the client.
use unimrcp.Prelude.{true, false, none, some, [], ◌∷◌, ◌++◌}
use unimrcp.MessageHeader.{fields_set, fields_inherit}
use unimrcp.Message.{Message, pending, status_code_method_not_valid, response_create, vtables_of}
use unimrcp.StateMachine.{
  with_request_state, with_status_code, Outcome, request_id, selective_ids, is_addressed,
  pending_remove,
}
use unimrcp.Recog.{
  idle, recognizing, recognized, RecogResource, Recog, request_dispatch, response_dispatch,
  state_change,
}

module _ {R : Type 0} (ops : RecogResource R) where
  open ops use {resource}

  abbrev respond : Message R → Message R
  respond m = response_create resource m

  abbrev reject : Recog R → Message R → Outcome (Recog R)
  reject s m =
      some (response_dispatch s (with_status_code (respond m) status_code_method_not_valid))

  unfoldable pub request_set_params : Recog R → Message R → Outcome (Recog R)
  request_set_params s m = some (
      request_dispatch
        (record s { properties = fields_set s.properties_vtables s.properties m.header }) m)

  unfoldable pub request_get_params : Recog R → Message R → Outcome (Recog R)
  request_get_params s m = some (request_dispatch s m)

  unfoldable pub request_define_grammar : Recog R → Message R → Outcome (Recog R)
  request_define_grammar s m = elim s.state [
    | recognizing ↦ reject s m
    | recognized ↦ some (request_dispatch (state_change s idle) m)
    | idle ↦ some (request_dispatch s m)
  ]

  unfoldable pub request_recognize : Recog R → Message R → Outcome (Recog R)
  request_recognize s m =
      let m' = record m { header = fields_inherit (vtables_of resource m) m.header s.properties } in
      let queued = with_request_state m' pending in
      elim s.state [
        | recognizing ↦ some (
            response_dispatch (record s { queue = s.queue ++ (queued ∷ []) })
              (with_request_state (respond queued) pending))
        | _ ↦ some (request_dispatch s m')
      ]

  unfoldable pub request_interpret : Recog R → Message R → Outcome (Recog R)
  request_interpret s m = some (
      request_dispatch s
        (record m { header = fields_inherit (vtables_of resource m) m.header s.properties }))

  unfoldable pub request_get_result : Recog R → Message R → Outcome (Recog R)
  request_get_result s m = elim s.state [
    | recognized ↦ some (request_dispatch s m)
    | _ ↦ reject s m
  ]

  unfoldable pub request_recognition_start_timers : Recog R → Message R → Outcome (Recog R)
  request_recognition_start_timers s m = elim s.state [
    | recognizing ↦ some (request_dispatch s m)
    | _ ↦ reject s m
  ]

  -- No addressed RECOGNIZE is in progress: the pending ones are removed, and the answer is
  -- immediate.
  unfoldable pub stop_immediately : Recog R → Message R → Outcome (Recog R)
  stop_immediately s m =
      let (queue', response) = pending_remove resource s.queue m (respond m) in
      some (response_dispatch (record s { queue = queue' }) response)

  -- The request that is in progress is read only by a selective STOP.
  unfoldable pub request_stop : Recog R → Message R → Outcome (Recog R)
  unfolding stop_immediately
  request_stop s m = elim s.state [
    | recognizing ↦ elim (selective_ids m) [
      | none ↦ some (request_dispatch s m)
      | some ids ↦ elim s.recog [
        | none ↦ none
        | some r ↦ elim (is_addressed (some ids) (request_id r)) [
          | true ↦ some (request_dispatch s m)
          | false ↦ stop_immediately s m
        ]
      ]
    ]
    | recognized ↦ stop_immediately (state_change s idle) m
    | idle ↦ stop_immediately s m
  ]

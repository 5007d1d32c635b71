-- ===== src/Synth/Requests.antt =====
-- The handlers of mrcp_synth_state_machine.c for requests from the client.
use unimrcp.Prelude.{Bool, true, false, none, some, [], ◌∷◌, ◌++◌}
use unimrcp.MessageHeader.{fields_set, fields_inherit}
use unimrcp.Message.{
  Message, pending, status_code_method_not_valid, response_create, resource_header_property_check,
  vtables_of,
}
use unimrcp.StateMachine.{
  with_request_state, with_status_code, Outcome, request_id, selective_ids, is_addressed,
  pending_remove,
}
use unimrcp.Synth.{
  idle, speaking, paused, SynthResource, Synth, header_kill_on_barge_in, request_dispatch,
  response_dispatch,
}

module _ {R : Type 0} (ops : SynthResource R) where
  open ops use {resource}

  abbrev respond : Message R → Message R
  respond m = response_create resource m

  unfoldable pub request_set_params : Synth R → Message R → Outcome (Synth R)
  request_set_params s m = some (
      request_dispatch
        (record s { properties = fields_set s.properties_vtables s.properties m.header }) m)

  unfoldable pub request_get_params : Synth R → Message R → Outcome (Synth R)
  request_get_params s m = some (request_dispatch s m)

  unfoldable pub request_speak : Synth R → Message R → Outcome (Synth R)
  request_speak s m =
      let m' = record m { header = fields_inherit (vtables_of resource m) m.header s.properties } in
      let queued = with_request_state m' pending in
      elim s.speaker [
        | some sp ↦ some (
            response_dispatch (record s { queue = s.queue ++ (queued ∷ []) })
              (with_request_state (respond queued) pending))
        | none ↦ some (request_dispatch s m')
      ]

  -- No addressed SPEAK is in progress: the pending ones are removed, and the answer is immediate.
  unfoldable pub stop_immediately : Synth R → Message R → Outcome (Synth R)
  stop_immediately s m =
      let (queue', response) = pending_remove resource s.queue m (respond m) in
      some (response_dispatch (record s { queue = queue' }) response)

  unfoldable pub request_stop : Synth R → Message R → Outcome (Synth R)
  unfolding stop_immediately
  request_stop s m = elim s.speaker [
    | some sp ↦ elim (is_addressed (selective_ids m) (request_id sp)) [
      | true ↦ some (request_dispatch s m)
      | false ↦ stop_immediately s m
    ]
    | none ↦ stop_immediately s m
  ]

  unfoldable pub request_pause : Synth R → Message R → Outcome (Synth R)
  request_pause s m = elim s.speaker [
    | some sp ↦ elim s.state [
      | speaking ↦ some ((request_dispatch s m).0, true)
      | _ ↦ some ((response_dispatch s (respond m)).0, true)
    ]
    | none ↦
        some (
          (response_dispatch s (with_status_code (respond m) status_code_method_not_valid)).0,
          true,
        )
  ]

  unfoldable pub request_resume : Synth R → Message R → Outcome (Synth R)
  request_resume s m = elim s.speaker [
    | some sp ↦ elim s.state [
      | paused ↦ some ((request_dispatch s m).0, true)
      | _ ↦ some ((response_dispatch s (respond m)).0, true)
    ]
    | none ↦
        some (
          (response_dispatch s (with_status_code (respond m) status_code_method_not_valid)).0,
          true,
        )
  ]

  -- TRUE unless the request's header says otherwise.
  unfoldable pub kill_on_barge_in : Message R → Bool
  kill_on_barge_in m = elim m.header.resource [
    | some d ↦ elim (resource_header_property_check m header_kill_on_barge_in) [
      | true ↦ ops.kill_on_barge_in d
      | false ↦ true
    ]
    | none ↦ true
  ]

  unfoldable pub request_barge_in_occurred : Synth R → Message R → Outcome (Synth R)
  request_barge_in_occurred s m = elim s.speaker [
    | some sp ↦ elim (kill_on_barge_in m) [
      | true ↦ some (request_dispatch s m)
      | false ↦ some (response_dispatch s (respond m))
    ]
    | none ↦ some (response_dispatch s (respond m))
  ]

  unfoldable pub request_control : Synth R → Message R → Outcome (Synth R)
  request_control s m = elim s.state [
    | speaking ↦ some (request_dispatch s m)
    | _ ↦ some (response_dispatch s (respond m))
  ]

  unfoldable pub request_define_lexicon : Synth R → Message R → Outcome (Synth R)
  request_define_lexicon s m = elim s.state [
    | idle ↦ some (request_dispatch s m)
    | _ ↦ some (response_dispatch s (with_status_code (respond m) status_code_method_not_valid))
  ]

-- ===== src/Synth/Responses.antt =====
-- The handlers of mrcp_synth_state_machine.c for responses from the engine. They read `speaker` and
-- `active_request` as pointers: reading a null one gives `none`.
use unimrcp.Prelude.{true, false, none, some, ◌==◌, if◌then◌else◌}
use unimrcp.MessageHeader.{fields_get}
use unimrcp.Message.{Message, in_progress, status_code_success, event_create, vtables_of}
use unimrcp.StateMachine.{
  is_in_progress, with_request_state, pop_front, Outcome, request_id, active_id_add, pending_remove,
}
use unimrcp.Synth.{
  process_pending, idle, speaking, paused, SynthResource, Synth, synthesizer_speech_marker,
  response_dispatch, event_dispatch, state_change,
}

module _ {R : Type 0} (ops : SynthResource R) where
  open ops use {resource}

  unfoldable pub response_plain : Synth R → Message R → Outcome (Synth R)
  response_plain s m = some (response_dispatch s m)

  unfoldable pub response_get_params : Synth R → Message R → Outcome (Synth R)
  response_get_params s m = elim s.active_request [
    | none ↦ none
    | some a ↦ some (
        response_dispatch s
          (record m { header = fields_get (vtables_of resource m) m.header s.properties a.header }))
  ]

  -- The speaker after a SPEAK response.
  unfoldable pub speak_started : Synth R → Message R → Synth R
  speak_started s m =
      if is_in_progress m.start_line.request_state
      then state_change (record s { speaker = s.active_request }) speaking
      else s

  -- A pending request's response is not sent; a SPEECH-MARKER event is sent instead.
  unfoldable pub response_speak : Synth R → Message R → Outcome (Synth R)
  unfolding speak_started
  response_speak s m =
      let s' = speak_started s m in
      elim s'.is_pending [
        | true ↦ elim s'.active_request [
          | none ↦ none
          | some a ↦ some (
              event_dispatch (record s' { is_pending = false })
                (with_request_state (event_create resource a synthesizer_speech_marker)
                  in_progress))
        ]
        | false ↦ some (response_dispatch s' m)
      ]

  unfoldable pub response_stop : Synth R → Message R → Outcome (Synth R)
  unfolding process_pending
  response_stop s m = elim s.speaker [
    | none ↦ none
    | some sp ↦ elim s.active_request [
      | none ↦ none
      | some a ↦
          let (queue', m') =
            pending_remove resource s.queue a (active_id_add resource m (request_id sp)) in
          let (next, rest) = pop_front queue' in
          let s' = state_change (record s { queue = rest }) idle in
          some (process_pending (response_dispatch s' m').0 next, true)
    ]
  ]

  unfoldable pub response_pause : Synth R → Message R → Outcome (Synth R)
  response_pause s m = elim (m.start_line.status_code == status_code_success) [
    | true ↦ elim s.speaker [
      | none ↦ none
      | some sp ↦ some (
        (response_dispatch (state_change s paused) (active_id_add resource m (request_id sp))).0,
        true,
      )
    ]
    | false ↦ some ((response_dispatch s m).0, true)
  ]

  unfoldable pub response_resume : Synth R → Message R → Outcome (Synth R)
  response_resume s m = elim (m.start_line.status_code == status_code_success) [
    | true ↦ elim s.speaker [
      | none ↦ none
      | some sp ↦ some (
        (response_dispatch (state_change s speaking) (active_id_add resource m (request_id sp))).0,
        true,
      )
    ]
    | false ↦ some ((response_dispatch s m).0, true)
  ]

  unfoldable pub response_barge_in_occurred : Synth R → Message R → Outcome (Synth R)
  response_barge_in_occurred s m = elim s.speaker [
    | none ↦ none
    | some sp ↦ elim s.active_request [
      | none ↦ none
      | some a ↦
          let (queue', m') =
            pending_remove resource s.queue a (active_id_add resource m (request_id sp)) in
          some (response_dispatch (state_change (record s { queue = queue' }) idle) m')
    ]
  ]

  unfoldable pub response_control : Synth R → Message R → Outcome (Synth R)
  response_control s m = elim s.speaker [
    | none ↦ none
    | some sp ↦ some (response_dispatch s (active_id_add resource m (request_id sp)))
  ]

-- ===== src/Recog/Responses.antt =====
-- The handlers of mrcp_recog_state_machine.c for responses and events from the engine. They read
-- `recog` and `active_request` as pointers: reading a null one gives `none`.
use unimrcp.Prelude.{true, false, none, some, ◌==◌, if◌then◌else◌}
use unimrcp.MessageHeader.{fields_get}
use unimrcp.Message.{Message, in_progress, vtables_of}
use unimrcp.StateMachine.{
  is_in_progress, with_request_state, pop_front, Outcome, request_id, active_id_add, pending_remove,
}
use unimrcp.Recog.{
  idle, recognizing, recognized, RecogResource, Recog, response_dispatch, event_dispatch,
  state_change, process_pending, is_stopping, with_cause,
}

module _ {R : Type 0} (ops : RecogResource R) where
  open ops use {resource}

  unfoldable pub response_plain : Recog R → Message R → Outcome (Recog R)
  response_plain s m = some (response_dispatch s m)

  unfoldable pub response_get_params : Recog R → Message R → Outcome (Recog R)
  response_get_params s m = elim s.active_request [
    | none ↦ none
    | some a ↦ some (
        response_dispatch s
          (record m { header = fields_get (vtables_of resource m) m.header s.properties a.header }))
  ]

  unfoldable pub response_define_grammar : Recog R → Message R → Outcome (Recog R)
  response_define_grammar s m = some (response_dispatch s (with_cause ops m))

  -- The machine after the response to RECOGNIZE is read.
  unfoldable pub recognize_started : Recog R → Message R → Recog R
  recognize_started s m =
      if is_in_progress m.start_line.request_state
      then state_change (record s { recog = s.active_request }) recognizing
      else s

  -- A pending request's response is not sent.
  unfoldable pub response_recognize : Recog R → Message R → Outcome (Recog R)
  unfolding recognize_started
  response_recognize s m =
      let s' = recognize_started s m in
      elim s'.is_pending [
        | true ↦ some (record s' { is_pending = false }, true)
        | false ↦ some (response_dispatch s' m)
      ]

  unfoldable pub response_stop : Recog R → Message R → Outcome (Recog R)
  unfolding process_pending
  response_stop s m = elim s.recog [
    | none ↦ none
    | some r ↦ elim s.active_request [
      | none ↦ none
      | some a ↦
          let (queue', m') =
            pending_remove resource s.queue a (active_id_add resource m (request_id r)) in
          let (next, rest) = pop_front queue' in
          let s' = state_change (record s { queue = rest }) idle in
          some (process_pending (response_dispatch s' m').0 next, true)
    ]
  ]

  unfoldable pub event_start_of_input : Recog R → Message R → Outcome (Recog R)
  event_start_of_input s m = elim s.recog [
    | none ↦ some (s, false)
    | some r ↦ elim (request_id r == request_id m) [
      | true ↦ some (event_dispatch s (with_request_state m in_progress))
      | false ↦ some (s, false)
    ]
  ]

  unfoldable pub event_recognition_notify : Recog R → Message R → Outcome (Recog R)
  event_recognition_notify s m = elim s.recog [
    | none ↦ some (s, false)
    | some r ↦ elim (request_id r == request_id m) [
      | true ↦ some (event_dispatch s (with_request_state m in_progress))
      | false ↦ some (s, false)
    ]
  ]

  unfoldable pub event_recognition_complete : Recog R → Message R → Outcome (Recog R)
  unfolding process_pending is_stopping
  event_recognition_complete s m = elim s.recog [
    | none ↦ some (s, false)
    | some r ↦ elim (request_id r == request_id m) [
      | false ↦ some (s, false)
      | true ↦ elim (is_stopping s.active_request) [
        | true ↦ some (s, false)
        | false ↦
            let s' = (event_dispatch (state_change s recognized) (with_cause ops m)).0 in
            let (next, rest) = pop_front s'.queue in
            some (process_pending (record s' { queue = rest }) next, true)
      ]
    ]
  ]

  unfoldable pub event_interpretation_complete : Recog R → Message R → Outcome (Recog R)
  event_interpretation_complete s m = some (event_dispatch s (with_cause ops m))

-- ===== src/Recog/Safety.antt =====
-- The null pointers that the handlers of mrcp_recog_state_machine.c could read.
use unimrcp.Prelude.{◌≡◌, ◌≢◌, none, some, arith, Option-cases, inl, inr}
use unimrcp.Message.{Message, response}
use unimrcp.StateMachine.{AnswersActive, method_id}
use unimrcp.Recog.{
  RecogResource, Recog, Method, set_params, Event, start_of_input, method_of, is_stopping,
}
use unimrcp.Recog.Requests.{
  request_set_params, request_get_params, request_define_grammar, request_recognize,
  request_interpret, request_get_result, request_recognition_start_timers, request_stop,
}
use unimrcp.Recog.Responses.{
  response_plain, response_get_params, response_define_grammar, response_recognize, response_stop,
  event_start_of_input, event_recognition_notify, event_recognition_complete,
  event_interpretation_complete,
}
use unimrcp.Recog.Update.{
  request_method, response_method, event_method, request_state_update, response_state_update,
  event_state_update, state_update,
}
use unimrcp.Recog.Invariant.{Inv, code, method_of-code}

module _ {R : Type 0} (ops : RecogResource R) where
  request_method-safe :
      (x : Method) (s : Recog R) (m : Message R) → Inv s → request_method ops x s m ≢ none
  unfolding request_method request_set_params request_get_params request_define_grammar
      request_recognize request_interpret request_get_result request_recognition_start_timers
      request_stop
  request_method-safe set_params s m h = ground arith
  request_method-safe _ s m h = ground arith

  response_method-safe :
      (x : Method) (s : Recog R) (m a : Message R)
      → s.active_request ≡ some a
      → method_id a ≡ code x
      → Inv s
      → response_method ops x s m ≢ none
  unfolding response_method response_plain response_get_params response_define_grammar
      response_recognize response_stop is_stopping
  response_method-safe set_params s m a e c h = ground arith
  response_method-safe _ s m a e c h = ground arith

  event_method-safe : (x : Event) (s : Recog R) (m : Message R) → event_method ops x s m ≢ none
  unfolding event_method event_start_of_input event_recognition_notify event_recognition_complete
      event_interpretation_complete
  event_method-safe start_of_input s m = ground arith
  event_method-safe _ s m = ground arith

  response_state_update-safe :
      (s : Recog R) (m : Message R)
      → Inv s
      → m.start_line.message_type ≡ response
      → AnswersActive s.active_request m
      → response_state_update ops s m ≢ none
  unfolding response_state_update
  response_state_update-safe s m h t a = elim (Option-cases s.active_request) [
    | inl e ↦ ground arith
    | inr (r, e) ↦ elim (Option-cases (method_of (method_id m))) [
      | inl f ↦ ground arith
      | inr (x, f) ↦ ground (arith, response_method-safe x s m r e, method_of-code (method_id m) f)
    ]
  ]

  -- A recognizer that satisfies the invariant reads no null pointer on any message. A response to the
  -- active request is assumed to have its method.
  pub recog_update-safe :
      (s : Recog R) (m : Message R)
      → Inv s
      → AnswersActive s.active_request m
      → state_update ops s m ≢ none
  unfolding state_update request_state_update event_state_update
  recog_update-safe s m h a =
      grind (arith, request_method-safe, response_state_update-safe, event_method-safe)

-- ===== src/Recog/Queue.antt =====
-- The answers of mrcp_recog_state_machine.c to requests, and its queue of pending requests.
use unimrcp.Prelude.{ℕ, ◌≡◌, true, none, some, List, [], ◌∷◌, ◌++◌, arith}
use unimrcp.Message.{Message, response_create, request}
use unimrcp.StateMachine.{
  Action, dispatch, Outcome, sent_ids, method_id, request_id, pending_remove,
}
use unimrcp.StateMachine.Laws.{sent_ids-append, start_line-pending_remove}
use unimrcp.Recog.{
  idle, RecogResource, Recog, Method, set_params, get_params, define_grammar, recognize, interpret,
  get_result, start_input_timers, stop, method_of, request_dispatch, response_dispatch,
  state_change,
}
use unimrcp.Recog.Requests.{
  request_set_params, request_get_params, request_define_grammar, request_recognize,
  request_interpret, request_get_result, request_recognition_start_timers, stop_immediately,
  request_stop,
}
use unimrcp.Recog.Update.{request_method, request_state_update, state_update}
use unimrcp.Recog.Invariant.{Inv}

-- What was sent once a call returns TRUE: exactly one more message, with the given identifier.
abbrev pub SendsOne : {R : Type 0} → List (Action R) → ℕ → Outcome (Recog R) → Type 0
SendsOne log id none = ⊥
SendsOne log id (some (s, b)) = (b ≡ true) × (sent_ids s.out ≡ sent_ids log ++ (id ∷ []))

module _ {R : Type 0} (ops : RecogResource R) where
  stop_immediately-SendsOne :
      (s : Recog R) (m : Message R)
      → s.active ≡ true
      → SendsOne s.out (request_id m) (stop_immediately ops s m)
  unfolding stop_immediately response_dispatch response_create
  stop_immediately-SendsOne s m a =
      let r = response_create ops.resource m in
      let (q, r') = pending_remove ops.resource s.queue m r in
      ground (
        arith,
        sent_ids-append s.out (dispatch r' ∷ []),
        start_line-pending_remove ops.resource s.queue m r,
      )

  request_stop-SendsOne :
      (s : Recog R) (m : Message R)
      → s.active ≡ true
      → Inv s
      → SendsOne s.out (request_id m) (request_stop ops s m)
  unfolding request_stop request_dispatch state_change
  request_stop-SendsOne s m a h = grind (
    arith,
    sent_ids-append,
    stop_immediately-SendsOne s m a,
    stop_immediately-SendsOne (state_change s idle) m a,
  )

  request_method-SendsOne :
      (x : Method) (s : Recog R) (m : Message R)
      → s.active ≡ true
      → Inv s
      → SendsOne s.out (request_id m) (request_method ops x s m)
  unfolding request_method request_dispatch response_dispatch response_create state_change
  request_method-SendsOne set_params s m a h =
      unfold request_set_params in grind (arith, sent_ids-append)
  request_method-SendsOne get_params s m a h =
      unfold request_get_params in grind (arith, sent_ids-append)
  request_method-SendsOne define_grammar s m a h =
      unfold request_define_grammar in grind (arith, sent_ids-append)
  request_method-SendsOne recognize s m a h =
      unfold request_recognize in grind (arith, sent_ids-append)
  request_method-SendsOne interpret s m a h =
      unfold request_interpret in grind (arith, sent_ids-append)
  request_method-SendsOne get_result s m a h =
      unfold request_get_result in grind (arith, sent_ids-append)
  request_method-SendsOne start_input_timers s m a h =
      unfold request_recognition_start_timers in grind (arith, sent_ids-append)
  request_method-SendsOne stop s m a h = request_stop-SendsOne s m a h
  request_method-SendsOne _ s m a h = grind (arith, sent_ids-append)

  -- An active recognizer that satisfies the invariant returns TRUE for every request of a known
  -- method (the enrollment methods included), and sends exactly one message for it, which has
  -- the request's identifier.
  pub recog_update-request :
      (s : Recog R) (m : Message R) {x : Method}
      → s.active ≡ true
      → Inv s
      → m.start_line.message_type ≡ request
      → method_of (method_id m) ≡ some x
      → SendsOne s.out (request_id m) (state_update ops s m)
  unfolding state_update request_state_update
  recog_update-request s m {x} a h t e = ground (arith, request_method-SendsOne x s m a h)

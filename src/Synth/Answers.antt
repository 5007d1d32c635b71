-- ===== src/Synth/Answers.antt =====
-- The answers of mrcp_synth_state_machine.c to requests.
use unimrcp.Prelude.{ℕ, ◌≡◌, true, none, some, List, [], ◌∷◌, ◌++◌, arith}
use unimrcp.Message.{Message, response_create, request}
use unimrcp.StateMachine.{
  sent_ids, Action, dispatch, Outcome, method_id, request_id, pending_remove,
}
use unimrcp.StateMachine.Laws.{sent_ids-append, start_line-pending_remove}
use unimrcp.Synth.{
  SynthResource, Synth, Method, set_params, get_params, speak, stop, pause, resume,
  barge_in_occurred, control, define_lexicon, method_of, request_dispatch, response_dispatch,
}
use unimrcp.Synth.Requests.{
  request_set_params, request_get_params, request_speak, stop_immediately, request_stop,
  request_pause, request_resume, request_barge_in_occurred, request_control, request_define_lexicon,
}
use unimrcp.Synth.Update.{request_method, request_state_update, state_update}

-- What was sent once a call returns TRUE: exactly one more message, with the given identifier.
abbrev pub SendsOne : {R : Type 0} → List (Action R) → ℕ → Outcome (Synth R) → Type 0
SendsOne log id none = ⊥
SendsOne log id (some (s, b)) = (b ≡ true) × (sent_ids s.out ≡ sent_ids log ++ (id ∷ []))

module _ {R : Type 0} (ops : SynthResource R) where
  stop_immediately-SendsOne :
      (s : Synth R) (m : Message R)
      → s.active ≡ true
      → SendsOne s.out (request_id m) (stop_immediately ops s m)
  unfolding stop_immediately response_dispatch response_create
  stop_immediately-SendsOne s m a =
      let r = response_create ops.resource m in
      let (q, r') = pending_remove ops.resource s.queue m r in
      ground (
        arith,
        sent_ids-append s.out (dispatch r' ∷ []),
        start_line-pending_remove ops.resource s.queue m r,
      )

  request_method-SendsOne :
      (x : Method) (s : Synth R) (m : Message R)
      → s.active ≡ true
      → SendsOne s.out (request_id m) (request_method ops x s m)
  unfolding request_method request_dispatch response_dispatch response_create
  request_method-SendsOne set_params s m a =
      unfold request_set_params in grind (arith, sent_ids-append)
  request_method-SendsOne get_params s m a =
      unfold request_get_params in grind (arith, sent_ids-append)
  request_method-SendsOne speak s m a = unfold request_speak in grind (arith, sent_ids-append)
  request_method-SendsOne stop s m a =
      unfold request_stop in grind (arith, sent_ids-append, stop_immediately-SendsOne s m a)
  request_method-SendsOne pause s m a = unfold request_pause in grind (arith, sent_ids-append)
  request_method-SendsOne resume s m a = unfold request_resume in grind (arith, sent_ids-append)
  request_method-SendsOne barge_in_occurred s m a =
      unfold request_barge_in_occurred in grind (arith, sent_ids-append)
  request_method-SendsOne control s m a = unfold request_control in grind (arith, sent_ids-append)
  request_method-SendsOne define_lexicon s m a =
      unfold request_define_lexicon in grind (arith, sent_ids-append)

  -- An active synthesizer returns TRUE for every request of a known method, and sends exactly
  -- one message for it, which has the request's identifier.
  pub synth_update-request :
      (s : Synth R) (m : Message R) {x : Method}
      → s.active ≡ true
      → m.start_line.message_type ≡ request
      → method_of (method_id m) ≡ some x
      → SendsOne s.out (request_id m) (state_update ops s m)
  unfolding state_update request_state_update
  synth_update-request s m {x} a t e = ground (arith, request_method-SendsOne x s m a)

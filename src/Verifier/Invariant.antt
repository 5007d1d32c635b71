-- ===== src/Verifier/Invariant.antt =====
-- The invariant of the state machine of mrcp_verifier_state_machine.c, and its answers to requests.
use unimrcp.Prelude.{
  ℕ, suc, zero, ◌≡◌, Bool, true, false, Option, none, some, List, [], ◌∷◌, ◌++◌, arith, ◌==◌, ◌||◌,
  Option-cases, inl, inr,
}
use unimrcp.Message.{Message, Version, response_create, request, response}
use unimrcp.StateMachine.{
  AnswersActive, Action, Outcome, Returns, is_none, sent_ids, method_id, request_id,
}
use unimrcp.StateMachine.Laws.{sent_ids-append}
use unimrcp.Verifier.{
  State, idle, verifying, VerifierResource, Verifier, Method, set_params, get_params, start_session,
  end_session, query_voiceprint, delete_voiceprint, verify_speech, verify_from_buffer,
  verify_rollback, stop, clear_buffer, start_input_timers, get_intermidiate_result, Event,
  start_of_input, method_of, is_stopping, request_dispatch, response_dispatch, event_dispatch,
  state_change, create_machine,
}
use unimrcp.Verifier.Handlers.{
  request_set_params, request_get_params, request_start_session, request_end_session,
  request_query_voiceprint, request_delete_voiceprint, request_verify, request_verify_from_buffer,
  request_verify_rollback, request_stop, request_clear_buffer, request_start_input_timers,
  request_get_intermidiate_result, response_plain, response_get_params, response_start_session,
  response_end_session, response_verify, response_verify_from_buffer, response_stop,
  event_start_of_input, event_verification_complete,
}
use unimrcp.Verifier.Update.{
  request_method, response_method, event_method, request_state_update, response_state_update,
  event_state_update, state_update, state_deactivate,
}

abbrev pub is_idle : State → Bool
is_idle idle = true
is_idle _ = false

-- The numeric identifier of a method.
abbrev pub code : Method → ℕ
code set_params = 0
code get_params = 1
code start_session = 2
code end_session = 3
code query_voiceprint = 4
code delete_voiceprint = 5
code verify_speech = 6
code verify_from_buffer = 7
code verify_rollback = 8
code stop = 9
code clear_buffer = 10
code start_input_timers = 11
code get_intermidiate_result = 12

pub method_of-code : (id : ℕ) {x : Method} → method_of id ≡ some x → id ≡ code x
unfolding method_of
method_of-code zero h = ground arith
method_of-code (suc zero) h = ground arith
method_of-code (suc (suc zero)) h = ground arith
method_of-code (suc (suc (suc zero))) h = ground arith
method_of-code (suc (suc (suc (suc zero)))) h = ground arith
method_of-code (suc (suc (suc (suc (suc zero))))) h = ground arith
method_of-code (suc (suc (suc (suc (suc (suc zero)))))) h = ground arith
method_of-code (suc (suc (suc (suc (suc (suc (suc zero))))))) h = ground arith
method_of-code (suc (suc (suc (suc (suc (suc (suc (suc zero)))))))) h = ground arith
method_of-code (suc (suc (suc (suc (suc (suc (suc (suc (suc zero))))))))) h = ground arith
method_of-code (suc (suc (suc (suc (suc (suc (suc (suc (suc (suc zero)))))))))) h = ground arith
method_of-code (suc (suc (suc (suc (suc (suc (suc (suc (suc (suc (suc zero))))))))))) h =
    ground arith
method_of-code (suc (suc (suc (suc (suc (suc (suc (suc (suc (suc (suc (suc zero)))))))))))) h =
    ground arith
method_of-code (suc (suc (suc (suc (suc (suc (suc (suc (suc (suc (suc (suc (suc n))))))))))))) h =
    cc

-- What was sent once a call returns TRUE: exactly one more message, with the given identifier.
abbrev pub SendsOne : {R : Type 0} → List (Action R) → ℕ → Outcome (Verifier R) → Type 0
SendsOne log id none = ⊥
SendsOne log id (some (s, b)) = (b ≡ true) × (sent_ids s.out ≡ sent_ids log ++ (id ∷ []))

abbrev is_verifying : State → Bool
is_verifying verifying = true
is_verifying _ = false

-- A VERIFY, VERIFY-FROM-BUFFER or STOP request.
abbrev needs_verify : {R : Type 0} → Option (Message R) → Bool
needs_verify none = false
needs_verify (some a) = method_id a == 6 || (method_id a == 7 || method_id a == 9)

-- The machine holds a verification request while it is verifying and while a VERIFY,
-- VERIFY-FROM-BUFFER or STOP request waits for its response; it holds none while it is idle.
pub record Inv {R : Type 0} (s : Verifier R) : Type 0 where
  pub verifying_verify : is_verifying s.state ≡ true → is_none s.verify ≡ false
  pub waiting_verify : needs_verify s.active_request ≡ true → is_none s.verify ≡ false
  pub idle_verify : is_idle s.state ≡ true → is_none s.verify ≡ true

module _ {R : Type 0} (ops : VerifierResource R) where
  request_method-Inv :
      (x : Method) (s : Verifier R) (m : Message R)
      → method_id m ≡ code x
      → Inv s
      → Returns Inv (request_method ops x s m)
  unfolding request_method request_dispatch response_dispatch is_stopping state_change
      request_set_params request_get_params request_start_session request_end_session
      request_query_voiceprint request_delete_voiceprint request_verify request_verify_from_buffer
      request_verify_rollback request_stop request_clear_buffer request_start_input_timers
      request_get_intermidiate_result
  request_method-Inv set_params s m e h = ground arith
  request_method-Inv _ s m e h = ground arith

  response_method-Inv :
      (x : Method) (s : Verifier R) (m a : Message R)
      → s.active_request ≡ some a
      → method_id a ≡ code x
      → Inv s
      → Returns Inv (response_method ops x s m)
  unfolding response_method request_dispatch response_dispatch is_stopping state_change
      response_plain response_get_params response_start_session response_end_session response_verify
      response_verify_from_buffer response_stop
  response_method-Inv set_params s m a e c h = ground arith
  response_method-Inv _ s m a e c h = ground arith

  event_method-Inv :
      (x : Event) (s : Verifier R) (m : Message R) → Inv s → Returns Inv (event_method ops x s m)
  unfolding event_method event_dispatch is_stopping state_change event_start_of_input
      event_verification_complete
  event_method-Inv start_of_input s m h = ground arith
  event_method-Inv _ s m h = ground arith

  response_state_update-Inv :
      (s : Verifier R) (m : Message R)
      → m.start_line.message_type ≡ response
      → AnswersActive s.active_request m
      → Inv s
      → Returns Inv (response_state_update ops s m)
  unfolding response_state_update
  response_state_update-Inv s m t a h = elim (Option-cases s.active_request) [
    | inl e ↦ ground arith
    | inr (r, e) ↦ elim (Option-cases (method_of (method_id m))) [
      | inl f ↦ ground arith
      | inr (x, f) ↦ ground (arith, response_method-Inv x s m r e, method_of-code (method_id m) f)
    ]
  ]

  request_state_update-Inv :
      (s : Verifier R) (m : Message R) → Inv s → Returns Inv (request_state_update ops s m)
  unfolding request_state_update
  request_state_update-Inv s m h = elim (Option-cases (method_of (method_id m))) [
    | inl f ↦ ground arith
    | inr (x, f) ↦ ground (arith, request_method-Inv x s m (method_of-code (method_id m) f))
  ]

  -- A verifier that satisfies the invariant reads no null pointer on any message, and satisfies the
  -- invariant afterwards. A response to the active request is assumed to have its method.
  pub verifier_update-Inv :
      (s : Verifier R) (m : Message R)
      → AnswersActive s.active_request m
      → Inv s
      → Returns Inv (state_update ops s m)
  unfolding state_update event_state_update
  verifier_update-Inv s m a h =
      grind (arith, request_state_update-Inv, response_state_update-Inv, event_method-Inv)

  -- Deactivation keeps the invariant.
  pub verifier_deactivate-Inv : (s : Verifier R) → Inv s → Returns Inv (state_deactivate ops s)
  unfolding state_deactivate request_dispatch is_stopping
  verifier_deactivate-Inv s h = ground arith

  -- A new machine satisfies the invariant.
  pub verifier_create-Inv : (v : Version) → Inv (create_machine ops v)
  unfolding create_machine is_stopping
  verifier_create-Inv v = ground arith

  request_method-SendsOne :
      (x : Method) (s : Verifier R) (m : Message R)
      → s.active ≡ true
      → SendsOne s.out (request_id m) (request_method ops x s m)
  unfolding request_method request_dispatch response_dispatch response_create request_set_params
      request_get_params request_start_session request_end_session request_query_voiceprint
      request_delete_voiceprint request_verify request_verify_from_buffer request_verify_rollback
      request_stop request_clear_buffer request_start_input_timers request_get_intermidiate_result
  request_method-SendsOne set_params s m a = grind (arith, sent_ids-append)
  request_method-SendsOne _ s m a = grind (arith, sent_ids-append)

  -- An active verifier returns TRUE for every request of a known method, and sends exactly one
  -- message for it, which has the request's identifier.
  pub verifier_update-request :
      (s : Verifier R) (m : Message R) {x : Method}
      → s.active ≡ true
      → m.start_line.message_type ≡ request
      → method_of (method_id m) ≡ some x
      → SendsOne s.out (request_id m) (state_update ops s m)
  unfolding state_update request_state_update
  verifier_update-request s m {x} a t e = ground (arith, request_method-SendsOne x s m a)

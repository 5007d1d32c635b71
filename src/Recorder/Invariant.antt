-- ===== src/Recorder/Invariant.antt =====
-- The invariant of the state machine of mrcp_recorder_state_machine.c, and its answers to requests.
use unimrcp.Prelude.{
  ℕ, suc, zero, ◌≡◌, Bool, true, false, none, some, List, [], ◌∷◌, ◌++◌, arith, Option-cases, inl,
  inr,
}
use unimrcp.Message.{Message, Version, response_create, request, response}
use unimrcp.StateMachine.{
  AnswersActive, Action, Outcome, Returns, is_none, sent_ids, method_id, request_id,
}
use unimrcp.StateMachine.Laws.{sent_ids-append}
use unimrcp.Recorder.{
  State, idle, RecorderResource, Recorder, Method, set_params, get_params, record_audio, stop,
  start_input_timers, Event, start_of_input, method_of, is_stopping, request_dispatch,
  response_dispatch, event_dispatch, state_change, create_machine,
}
use unimrcp.Recorder.Handlers.{
  request_set_params, request_get_params, request_record, request_stop, request_start_timers,
  response_plain, response_get_params, response_record, response_stop, event_start_of_input,
  event_record_complete,
}
use unimrcp.Recorder.Update.{
  request_method, response_method, event_method, request_state_update, response_state_update,
  event_state_update, state_update, state_deactivate,
}

abbrev pub is_idle : State → Bool
is_idle idle = true
is_idle _ = false

-- The numeric identifier of a method.
abbrev pub code : Method → ℕ
code set_params = 0
code get_params = 1
code record_audio = 2
code stop = 3
code start_input_timers = 4

pub method_of-code : (id : ℕ) {x : Method} → method_of id ≡ some x → id ≡ code x
unfolding method_of
method_of-code zero h = ground arith
method_of-code (suc zero) h = ground arith
method_of-code (suc (suc zero)) h = ground arith
method_of-code (suc (suc (suc zero))) h = ground arith
method_of-code (suc (suc (suc (suc zero)))) h = ground arith
method_of-code (suc (suc (suc (suc (suc n))))) h = cc

-- What was sent once a call returns TRUE: exactly one more message, with the given identifier.
abbrev pub SendsOne : {R : Type 0} → List (Action R) → ℕ → Outcome (Recorder R) → Type 0
SendsOne log id none = ⊥
SendsOne log id (some (s, b)) = (b ≡ true) × (sent_ids s.out ≡ sent_ids log ++ (id ∷ []))

-- The machine is idle exactly when it holds no RECORD request, and a STOP request that waits for
-- its response has one.
pub record Inv {R : Type 0} (s : Recorder R) : Type 0 where
  pub idle_recorded : is_idle s.state ≡ is_none s.recorded
  pub stopping_recorded : is_stopping s.active_request ≡ true → is_none s.recorded ≡ false

module _ {R : Type 0} (ops : RecorderResource R) where
  request_method-Inv :
      (x : Method) (s : Recorder R) (m : Message R)
      → method_id m ≡ code x
      → Inv s
      → Returns Inv (request_method ops x s m)
  unfolding request_method request_dispatch response_dispatch is_stopping state_change
      request_set_params request_get_params request_record request_stop request_start_timers
  request_method-Inv set_params s m e h = ground arith
  request_method-Inv _ s m e h = ground arith

  response_method-Inv :
      (x : Method) (s : Recorder R) (m a : Message R)
      → s.active_request ≡ some a
      → method_id a ≡ code x
      → Inv s
      → Returns Inv (response_method ops x s m)
  unfolding response_method request_dispatch response_dispatch is_stopping state_change
      response_plain response_get_params response_record response_stop
  response_method-Inv set_params s m a e c h = ground arith
  response_method-Inv _ s m a e c h = ground arith

  event_method-Inv :
      (x : Event) (s : Recorder R) (m : Message R) → Inv s → Returns Inv (event_method ops x s m)
  unfolding event_method event_dispatch is_stopping state_change event_start_of_input
      event_record_complete
  event_method-Inv start_of_input s m h = ground arith
  event_method-Inv _ s m h = ground arith

  response_state_update-Inv :
      (s : Recorder R) (m : Message R)
      → m.start_line.message_type ≡ response
      → AnswersActive s.active_request m
      → Inv s
      → Returns Inv (response_state_update ops s m)
  unfolding response_state_update
  response_state_update-Inv s m t a h = elim (Option-cases s.active_request) [
    | inl e ↦ ground arith
    | inr (r, e) ↦ elim (Option-cases (method_of (method_id m))) [
      | inl f ↦ ground arith
      | inr (x, f) ↦ ground (arith, response_method-Inv x s m r e, method_of-code (method_id m) f)
    ]
  ]

  request_state_update-Inv :
      (s : Recorder R) (m : Message R) → Inv s → Returns Inv (request_state_update ops s m)
  unfolding request_state_update
  request_state_update-Inv s m h = elim (Option-cases (method_of (method_id m))) [
    | inl f ↦ ground arith
    | inr (x, f) ↦ ground (arith, request_method-Inv x s m (method_of-code (method_id m) f))
  ]

  -- A recorder that satisfies the invariant reads no null pointer on any message, and satisfies the
  -- invariant afterwards. A response to the active request is assumed to have its method.
  pub recorder_update-Inv :
      (s : Recorder R) (m : Message R)
      → AnswersActive s.active_request m
      → Inv s
      → Returns Inv (state_update ops s m)
  unfolding state_update event_state_update
  recorder_update-Inv s m a h =
      grind (arith, request_state_update-Inv, response_state_update-Inv, event_method-Inv)

  -- Deactivation keeps the invariant.
  pub recorder_deactivate-Inv : (s : Recorder R) → Inv s → Returns Inv (state_deactivate ops s)
  unfolding state_deactivate request_dispatch is_stopping
  recorder_deactivate-Inv s h = ground arith

  -- A new machine satisfies the invariant.
  pub recorder_create-Inv : (v : Version) → Inv (create_machine ops v)
  unfolding create_machine is_stopping
  recorder_create-Inv v = ground arith

  request_method-SendsOne :
      (x : Method) (s : Recorder R) (m : Message R)
      → s.active ≡ true
      → SendsOne s.out (request_id m) (request_method ops x s m)
  unfolding request_method request_dispatch response_dispatch response_create request_set_params
      request_get_params request_record request_stop request_start_timers
  request_method-SendsOne set_params s m a = grind (arith, sent_ids-append)
  request_method-SendsOne _ s m a = grind (arith, sent_ids-append)

  -- An active recorder returns TRUE for every request of a known method, and sends exactly one
  -- message for it, which has the request's identifier.
  pub recorder_update-request :
      (s : Recorder R) (m : Message R) {x : Method}
      → s.active ≡ true
      → m.start_line.message_type ≡ request
      → method_of (method_id m) ≡ some x
      → SendsOne s.out (request_id m) (state_update ops s m)
  unfolding state_update request_state_update
  recorder_update-request s m {x} a t e = ground (arith, request_method-SendsOne x s m a)

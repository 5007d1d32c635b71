-- ===== src/Recog/Invariant.antt =====
-- The invariant of the recognizer state machine (mrcp_recog_state_machine.c), and the handlers.
use unimrcp.Prelude.{
  ℕ, suc, zero, ◌≡◌, Bool, true, false, some, All, All-snoc, arith, Option-cases, inl, inr,
}
use unimrcp.Message.{Message, Version, response_create, request, pending, vtables_of}
use unimrcp.MessageHeader.{fields_inherit}
use unimrcp.StateMachine.{
  Returns, Ensures, is_none, method_id, request_id, active_id_add, with_request_state,
}
use unimrcp.StateMachine.Laws.{All-pending_remove}
use unimrcp.Recog.{
  State, idle, RecogResource, Recog, Method, set_params, get_params, define_grammar, recognize,
  interpret, get_result, start_input_timers, stop, start_phrase_enrollment, enrollment_rollback,
  end_phrase_enrollment, modify_phrase, delete_phrase, Event, start_of_input, recognition_complete,
  interpretation_complete, recognition_notify, method_of, is_stopping, request_dispatch,
  response_dispatch, event_dispatch, state_change, create_machine,
}
use unimrcp.Recog.Requests.{
  request_set_params, request_get_params, request_define_grammar, request_recognize,
  request_interpret, request_get_result, request_recognition_start_timers, stop_immediately,
  request_stop,
}
use unimrcp.Recog.Responses.{
  response_plain, response_get_params, response_define_grammar, response_recognize, response_stop,
  event_start_of_input, event_recognition_notify, event_recognition_complete,
  event_interpretation_complete,
}
use unimrcp.Recog.Update.{
  request_method, response_method, event_method, request_state_update, response_state_update,
  event_state_update, state_update, state_deactivate,
}

abbrev pub is_idle : State → Bool
is_idle idle = true
is_idle _ = false

-- A RECOGNIZE request.
abbrev pub IsRecognize : {R : Type 0} → Message R → Type 0
IsRecognize m = (method_id m ≡ 3) × (m.start_line.message_type ≡ request)

-- The numeric identifier of a method.
abbrev pub code : Method → ℕ
code set_params = 0
code get_params = 1
code define_grammar = 2
code recognize = 3
code interpret = 4
code get_result = 5
code start_input_timers = 6
code stop = 7
code start_phrase_enrollment = 8
code enrollment_rollback = 9
code end_phrase_enrollment = 10
code modify_phrase = 11
code delete_phrase = 12

pub method_of-code : (id : ℕ) {x : Method} → method_of id ≡ some x → id ≡ code x
unfolding method_of
method_of-code zero h = ground arith
method_of-code (suc zero) h = ground arith
method_of-code (suc (suc zero)) h = ground arith
method_of-code (suc (suc (suc zero))) h = ground arith
method_of-code (suc (suc (suc (suc zero)))) h = ground arith
method_of-code (suc (suc (suc (suc (suc zero))))) h = ground arith
method_of-code (suc (suc (suc (suc (suc (suc zero)))))) h = ground arith
method_of-code (suc (suc (suc (suc (suc (suc (suc zero))))))) h = ground arith
method_of-code (suc (suc (suc (suc (suc (suc (suc (suc zero)))))))) h = ground arith
method_of-code (suc (suc (suc (suc (suc (suc (suc (suc (suc zero))))))))) h = ground arith
method_of-code (suc (suc (suc (suc (suc (suc (suc (suc (suc (suc zero)))))))))) h = ground arith
method_of-code (suc (suc (suc (suc (suc (suc (suc (suc (suc (suc (suc zero))))))))))) h =
    ground arith
method_of-code (suc (suc (suc (suc (suc (suc (suc (suc (suc (suc (suc (suc zero)))))))))))) h =
    ground arith
method_of-code (suc (suc (suc (suc (suc (suc (suc (suc (suc (suc (suc (suc (suc n))))))))))))) h =
    cc

-- The machine is idle exactly when it holds no RECOGNIZE request; a STOP request that waits for
-- its response has one; only RECOGNIZE requests are queued.
pub record Inv {R : Type 0} (s : Recog R) : Type 0 where
  pub idle_recog : is_idle s.state ≡ is_none s.recog
  pub stopping_recog : is_stopping s.active_request ≡ true → is_none s.recog ≡ false
  pub queue_recognizes : All IsRecognize s.queue

module _ {R : Type 0} (ops : RecogResource R) where
  request_method-Inv :
      (x : Method) (s : Recog R) (m : Message R)
      → method_id m ≡ code x
      → m.start_line.message_type ≡ request
      → Inv s
      → Ensures Inv (request_method ops x s m)
  unfolding request_method request_dispatch response_dispatch is_stopping state_change
  request_method-Inv set_params s m e t h = unfold request_set_params in ground arith
  request_method-Inv get_params s m e t h = unfold request_get_params in ground arith
  request_method-Inv define_grammar s m e t h = unfold request_define_grammar in ground arith
  request_method-Inv recognize s m e t h =
      unfold request_recognize in
      ground (
        arith,
        All-snoc IsRecognize s.queue
            (with_request_state
              (record m {
                header = fields_inherit (vtables_of ops.resource m) m.header s.properties;
              })
              pending)
            h.queue_recognizes,
      )
  request_method-Inv interpret s m e t h = unfold request_interpret in ground arith
  request_method-Inv get_result s m e t h = unfold request_get_result in ground arith
  request_method-Inv start_input_timers s m e t h =
      unfold request_recognition_start_timers in ground arith
  request_method-Inv stop s m e t h =
      unfold request_stop stop_immediately in
      ground (
        arith,
        All-pending_remove ops.resource IsRecognize s.queue m (response_create ops.resource m)
            h.queue_recognizes,
      )
  request_method-Inv _ s m e t h = ground arith

  response_method-Inv :
      (x : Method) (s : Recog R) (m : Message R)
      → is_none s.active_request ≡ false
      → Inv s
      → Ensures Inv (response_method ops x s m)
  unfolding response_method response_stop response_plain request_dispatch response_dispatch
      is_stopping state_change
  response_method-Inv get_params s m c h = unfold response_get_params in ground arith
  response_method-Inv define_grammar s m c h = unfold response_define_grammar in ground arith
  response_method-Inv recognize s m c h = unfold response_recognize in ground arith
  response_method-Inv stop s m c h = elim (Option-cases s.recog) [
    | inl e ↦ rw (e, response_stop) tt
    | inr (r, e) ↦ elim (Option-cases s.active_request) [
      | inl f ↦ rw (e, f, response_stop) tt
      | inr (a, f) ↦ ground (
        arith,
        All-pending_remove ops.resource IsRecognize s.queue a
            (active_id_add ops.resource m (request_id r)) h.queue_recognizes,
      )
    ]
  ]
  response_method-Inv _ s m c h = ground arith

  event_method-Inv :
      (x : Event) (s : Recog R) (m : Message R) → Inv s → Ensures Inv (event_method ops x s m)
  unfolding event_method event_dispatch state_change request_dispatch is_stopping
  event_method-Inv start_of_input s m h = unfold event_start_of_input in ground arith
  event_method-Inv recognition_complete s m h = unfold event_recognition_complete in ground arith
  event_method-Inv interpretation_complete s m h =
      unfold event_interpretation_complete in ground arith
  event_method-Inv recognition_notify s m h = unfold event_recognition_notify in ground arith

  -- Every message that makes the recognizer read no null pointer keeps the invariant.
  pub recog-Ensures-Inv : (s : Recog R) (m : Message R) → Inv s → Ensures Inv (state_update ops s m)
  unfolding state_update request_state_update response_state_update event_state_update
  recog-Ensures-Inv s m h =
      grind (arith, request_method-Inv, response_method-Inv, event_method-Inv, method_of-code)

  -- Deactivation keeps the invariant.
  pub recog_deactivate-Inv : (s : Recog R) → Inv s → Returns Inv (state_deactivate ops s)
  unfolding state_deactivate request_dispatch is_stopping
  recog_deactivate-Inv s h = ground arith

  -- A new machine satisfies the invariant.
  pub recog_create-Inv : (v : Version) → Inv (create_machine ops v)
  unfolding create_machine is_stopping
  recog_create-Inv v = ground arith

-- ===== src/Synth/Invariant.antt =====
-- The invariant of the synthesizer state machine (mrcp_synth_state_machine.c), and the handlers.
use unimrcp.Prelude.{
  ℕ, suc, zero, ◌≡◌, Bool, true, false, some, All, All-snoc, arith, Option-cases, inl, inr,
}
use unimrcp.Message.{Message, Version, response_create, request, pending, vtables_of}
use unimrcp.MessageHeader.{fields_inherit}
use unimrcp.StateMachine.{
  Returns, Ensures, is_none, method_id, request_id, active_id_add, with_request_state,
}
use unimrcp.StateMachine.Laws.{All-pending_remove}
use unimrcp.Synth.{
  State, idle, SynthResource, Synth, Method, set_params, get_params, speak, stop, pause, resume,
  barge_in_occurred, control, define_lexicon, Event, speech_marker, speak_complete, method_of,
  is_stopping, request_dispatch, response_dispatch, event_dispatch, state_change, create_machine,
}
use unimrcp.Synth.Requests.{
  request_set_params, request_get_params, request_speak, stop_immediately, request_stop,
  request_pause, request_resume, request_barge_in_occurred, request_control, request_define_lexicon,
}
use unimrcp.Synth.Responses.{
  response_plain, response_get_params, response_speak, response_stop, response_pause,
  response_resume, response_barge_in_occurred, response_control,
}
use unimrcp.Synth.Events.{event_speech_marker, event_speak_complete}
use unimrcp.Synth.Update.{
  request_method, response_method, event_method, request_state_update, response_state_update,
  event_state_update, state_update, state_deactivate,
}

abbrev pub is_idle : State → Bool
is_idle idle = true
is_idle _ = false

-- A SPEAK request.
abbrev pub IsSpeak : {R : Type 0} → Message R → Type 0
IsSpeak m = (method_id m ≡ 2) × (m.start_line.message_type ≡ request)

-- The numeric identifier of a method.
abbrev pub code : Method → ℕ
code set_params = 0
code get_params = 1
code speak = 2
code stop = 3
code pause = 4
code resume = 5
code barge_in_occurred = 6
code control = 7
code define_lexicon = 8

pub method_of-code : (id : ℕ) {x : Method} → method_of id ≡ some x → id ≡ code x
unfolding method_of
method_of-code zero h = ground arith
method_of-code (suc zero) h = ground arith
method_of-code (suc (suc zero)) h = ground arith
method_of-code (suc (suc (suc zero))) h = ground arith
method_of-code (suc (suc (suc (suc zero)))) h = ground arith
method_of-code (suc (suc (suc (suc (suc zero))))) h = ground arith
method_of-code (suc (suc (suc (suc (suc (suc zero)))))) h = ground arith
method_of-code (suc (suc (suc (suc (suc (suc (suc zero))))))) h = ground arith
method_of-code (suc (suc (suc (suc (suc (suc (suc (suc zero)))))))) h = ground arith
method_of-code (suc (suc (suc (suc (suc (suc (suc (suc (suc n))))))))) h = cc

-- The machine is idle exactly when there is no speaker; a STOP or BARGE-IN-OCCURRED request that
-- waits for its response has one; only SPEAK requests are queued.
pub record Inv {R : Type 0} (s : Synth R) : Type 0 where
  pub idle_speaker : is_idle s.state ≡ is_none s.speaker
  pub stopping_speaker : is_stopping s.active_request ≡ true → is_none s.speaker ≡ false
  pub queue_speaks : All IsSpeak s.queue

module _ {R : Type 0} (ops : SynthResource R) where
  request_method-Inv :
      (x : Method) (s : Synth R) (m : Message R)
      → method_id m ≡ code x
      → m.start_line.message_type ≡ request
      → Inv s
      → Ensures Inv (request_method ops x s m)
  unfolding request_method request_dispatch response_dispatch is_stopping
  request_method-Inv set_params s m e t h = unfold request_set_params in ground arith
  request_method-Inv get_params s m e t h = unfold request_get_params in ground arith
  request_method-Inv speak s m e t h =
      unfold request_speak in
      ground (
        arith,
        All-snoc IsSpeak s.queue
            (with_request_state
              (record m {
                header = fields_inherit (vtables_of ops.resource m) m.header s.properties;
              })
              pending)
            h.queue_speaks,
      )
  request_method-Inv stop s m e t h =
      unfold request_stop stop_immediately in
      ground (
        arith,
        All-pending_remove ops.resource IsSpeak s.queue m (response_create ops.resource m)
            h.queue_speaks,
      )
  request_method-Inv pause s m e t h = unfold request_pause in ground arith
  request_method-Inv resume s m e t h = unfold request_resume in ground arith
  request_method-Inv barge_in_occurred s m e t h = unfold request_barge_in_occurred in ground arith
  request_method-Inv control s m e t h = unfold request_control in ground arith
  request_method-Inv define_lexicon s m e t h = unfold request_define_lexicon in ground arith

  response_method-Inv :
      (x : Method) (s : Synth R) (m : Message R)
      → is_none s.active_request ≡ false
      → Inv s
      → Ensures Inv (response_method ops x s m)
  unfolding response_method response_stop response_barge_in_occurred request_dispatch
      response_dispatch is_stopping event_dispatch state_change
  response_method-Inv set_params s m c h = unfold response_plain in ground arith
  response_method-Inv get_params s m c h = unfold response_get_params in ground arith
  response_method-Inv speak s m c h = unfold response_speak in ground arith
  response_method-Inv stop s m c h = elim (Option-cases s.speaker) [
    | inl e ↦ rw (e, response_stop) tt
    | inr (sp, e) ↦ elim (Option-cases s.active_request) [
      | inl f ↦ rw (e, f, response_stop) tt
      | inr (a, f) ↦ ground (
        arith,
        All-pending_remove ops.resource IsSpeak s.queue a
            (active_id_add ops.resource m (request_id sp)) h.queue_speaks,
      )
    ]
  ]
  response_method-Inv pause s m c h = unfold response_pause in ground arith
  response_method-Inv resume s m c h = unfold response_resume in ground arith
  response_method-Inv barge_in_occurred s m c h = elim (Option-cases s.speaker) [
    | inl e ↦ rw (e, response_barge_in_occurred) tt
    | inr (sp, e) ↦ elim (Option-cases s.active_request) [
      | inl f ↦ rw (e, f, response_barge_in_occurred) tt
      | inr (a, f) ↦ ground (
        arith,
        All-pending_remove ops.resource IsSpeak s.queue a
            (active_id_add ops.resource m (request_id sp)) h.queue_speaks,
      )
    ]
  ]
  response_method-Inv control s m c h = unfold response_control in ground arith
  response_method-Inv define_lexicon s m c h = unfold response_plain in ground arith

  event_method-Inv :
      (x : Event) (s : Synth R) (m : Message R) → Inv s → Ensures Inv (event_method ops x s m)
  unfolding event_method event_dispatch state_change request_dispatch is_stopping
  event_method-Inv speech_marker s m h = unfold event_speech_marker in ground arith
  event_method-Inv speak_complete s m h = unfold event_speak_complete in ground arith

  -- Every message that makes the machine read no null pointer keeps the invariant.
  pub synth-Ensures-Inv : (s : Synth R) (m : Message R) → Inv s → Ensures Inv (state_update ops s m)
  unfolding state_update request_state_update response_state_update event_state_update
  synth-Ensures-Inv s m h =
      grind (arith, request_method-Inv, response_method-Inv, event_method-Inv, method_of-code)

  -- Deactivation keeps the invariant.
  pub synth_deactivate-Inv : (s : Synth R) → Inv s → Returns Inv (state_deactivate ops s)
  unfolding state_deactivate request_dispatch is_stopping
  synth_deactivate-Inv s h = ground arith

  -- A new machine satisfies the invariant.
  pub synth_create-Inv : (v : Version) → Inv (create_machine ops v)
  unfolding create_machine is_stopping
  synth_create-Inv v = ground arith

-- ===== src/Synth/Safety.antt =====
-- The null pointers that the handlers of mrcp_synth_state_machine.c could read.
use unimrcp.Prelude.{
  ℕ, ◌≡◌, ◌≢◌, Bool, true, false, Option, none, some, arith, ◌==◌, ◌&&◌, Option-cases, inl, inr,
}
use unimrcp.Message.{Message, response, status_code_success}
use unimrcp.StateMachine.{AnswersActive, is_none, method_id, request_id}
use unimrcp.Synth.{
  SynthResource, Synth, Method, set_params, get_params, speak, stop, pause, resume,
  barge_in_occurred, control, define_lexicon, Event, speech_marker, speak_complete, method_of,
  is_stopping, state_change,
}
use unimrcp.Synth.Requests.{
  request_set_params, request_get_params, request_speak, request_stop, request_pause,
  request_resume, request_barge_in_occurred, request_control, request_define_lexicon,
}
use unimrcp.Synth.Responses.{
  response_plain, response_get_params, response_speak, response_stop, response_pause,
  response_resume, response_barge_in_occurred, response_control,
}
use unimrcp.Synth.Events.{event_speech_marker, event_speak_complete}
use unimrcp.Synth.Update.{
  request_method, response_method, event_method, request_state_update, response_state_update,
  event_state_update, state_update,
}
use unimrcp.Synth.Invariant.{Inv, code, method_of-code}

-- The responses that read the speaker with no request of theirs guarding it.
abbrev needs_speaker : Method → ℕ → Bool
needs_speaker pause status = status == status_code_success
needs_speaker resume status = status == status_code_success
needs_speaker control status = true
needs_speaker _ status = false

abbrev needs_speaker? : Option Method → ℕ → Bool
needs_speaker? none status = false
needs_speaker? (some x) status = needs_speaker x status

-- A response to PAUSE, RESUME or CONTROL that comes after the speaker is gone.
abbrev pub IsStale : {R : Type 0} → Synth R → Message R → Type 0
IsStale s m =
    (m.start_line.message_type ≡ response)
    × (is_none s.speaker && needs_speaker? (method_of (method_id m)) m.start_line.status_code
        ≡ true)

module _ {R : Type 0} (ops : SynthResource R) where
  request_method-safe : (x : Method) (s : Synth R) (m : Message R) → request_method ops x s m ≢ none
  unfolding request_method
  request_method-safe set_params s m = unfold request_set_params in ground arith
  request_method-safe get_params s m = unfold request_get_params in ground arith
  request_method-safe speak s m = unfold request_speak in ground arith
  request_method-safe stop s m = unfold request_stop in ground arith
  request_method-safe pause s m = unfold request_pause in ground arith
  request_method-safe resume s m = unfold request_resume in ground arith
  request_method-safe barge_in_occurred s m = unfold request_barge_in_occurred in ground arith
  request_method-safe control s m = unfold request_control in ground arith
  request_method-safe define_lexicon s m = unfold request_define_lexicon in ground arith

  response_method-safe :
      (x : Method) (s : Synth R) (m a : Message R)
      → s.active_request ≡ some a
      → method_id a ≡ code x
      → is_none s.speaker && needs_speaker x m.start_line.status_code ≡ false
      → Inv s
      → response_method ops x s m ≢ none
  unfolding response_method is_stopping
  response_method-safe set_params s m a e c n h = unfold response_plain in ground arith
  response_method-safe get_params s m a e c n h = unfold response_get_params in ground arith
  response_method-safe speak s m a e c n h = unfold response_speak state_change in ground arith
  response_method-safe stop s m a e c n h = unfold response_stop in ground arith
  response_method-safe pause s m a e c n h = unfold response_pause in ground arith
  response_method-safe resume s m a e c n h = unfold response_resume in ground arith
  response_method-safe barge_in_occurred s m a e c n h =
      unfold response_barge_in_occurred in ground arith
  response_method-safe control s m a e c n h = unfold response_control in ground arith
  response_method-safe define_lexicon s m a e c n h = unfold response_plain in ground arith

  event_method-safe : (x : Event) (s : Synth R) (m : Message R) → event_method ops x s m ≢ none
  unfolding event_method
  event_method-safe speech_marker s m = unfold event_speech_marker in ground arith
  event_method-safe speak_complete s m = unfold event_speak_complete in ground arith

  response_state_update-safe :
      (s : Synth R) (m : Message R)
      → Inv s
      → m.start_line.message_type ≡ response
      → AnswersActive s.active_request m
      → is_none s.speaker && needs_speaker? (method_of (method_id m)) m.start_line.status_code
        ≡ false
      → response_state_update ops s m ≢ none
  unfolding response_state_update
  response_state_update-safe s m h t a n = elim (Option-cases s.active_request) [
    | inl e ↦ ground arith
    | inr (r, e) ↦ elim (Option-cases (method_of (method_id m))) [
      | inl f ↦ ground arith
      | inr (x, f) ↦ ground (arith, response_method-safe x s m r e, method_of-code (method_id m) f)
    ]
  ]

  -- A machine that satisfies the invariant reads no null pointer on any message, unless the
  -- message is a response to PAUSE, RESUME or CONTROL and the speaker is gone. A response to the
  -- active request is assumed to have its method.
  pub synth_update-safe :
      (s : Synth R) (m : Message R)
      → Inv s
      → AnswersActive s.active_request m
      → ¬ IsStale s m
      → state_update ops s m ≢ none
  unfolding state_update request_state_update event_state_update
  synth_update-safe s m h a n =
      grind (arith, request_method-safe, response_state_update-safe, event_method-safe)

  -- An active PAUSE, RESUME or CONTROL request whose speaker is gone makes the machine read a null
  -- pointer when the engine's response arrives (for PAUSE and RESUME, a successful one).
  pub stale_response_faults :
      (s : Synth R) (m a : Message R)
      → s.active_request ≡ some a
      → request_id a ≡ request_id m
      → IsStale s m
      → state_update ops s m ≡ none
  unfolding state_update response_state_update response_method response_pause response_resume
      response_control
  stale_response_faults s m a e i st = ground arith

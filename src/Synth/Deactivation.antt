-- ===== src/Synth/Deactivation.antt =====
-- What a deactivated synthesizer state machine sends (mrcp_synth_state_machine.c).
use unimrcp.Prelude.{◌≡◌, refl, false, List, [], ◌∷◌, All, arith, Option-cases, inl, inr}
use unimrcp.Message.{Message, request}
use unimrcp.StateMachine.{client_ids, Action, Ensures, request_id, active_id_add, pop_front}
use unimrcp.StateMachine.Laws.{
  client_ids-dispatch_request, client_ids-deactivated, All-pending_remove,
}
use unimrcp.Synth.{
  SynthResource, Synth, Method, set_params, get_params, speak, stop, pause, resume,
  barge_in_occurred, control, define_lexicon, Event, speech_marker, speak_complete,
  request_dispatch, response_dispatch, event_dispatch, state_change, process_pending,
}
use unimrcp.Synth.Requests.{
  request_set_params, request_get_params, request_speak, request_stop, request_pause,
  request_resume, request_barge_in_occurred, request_control, request_define_lexicon,
}
use unimrcp.Synth.Responses.{
  response_plain, response_get_params, response_speak, response_stop, response_pause,
  response_resume, response_barge_in_occurred, response_control,
}
use unimrcp.Synth.Events.{event_speech_marker, event_speak_complete}
use unimrcp.Synth.Update.{
  request_method, response_method, event_method, request_state_update, response_state_update,
  event_state_update, state_update,
}
use unimrcp.Synth.Invariant.{Inv, IsSpeak}

-- Nothing more was sent to the client.
abbrev pub SendsNone : {R : Type 0} → List (Action R) → Synth R → Type 0
SendsNone log s = client_ids s.out ≡ client_ids log

module _ {R : Type 0} (ops : SynthResource R) where
  request_method-quiet :
      (x : Method) (s : Synth R) (m : Message R)
      → s.active ≡ false
      → m.start_line.message_type ≡ request
      → Ensures (SendsNone s.out) (request_method ops x s m)
  unfolding request_method request_dispatch response_dispatch
  request_method-quiet set_params s m a t =
      unfold request_set_params in
      grind (arith, client_ids-dispatch_request, client_ids-deactivated)
  request_method-quiet get_params s m a t =
      unfold request_get_params in
      grind (arith, client_ids-dispatch_request, client_ids-deactivated)
  request_method-quiet speak s m a t =
      unfold request_speak in grind (arith, client_ids-dispatch_request, client_ids-deactivated)
  request_method-quiet stop s m a t =
      unfold request_stop in grind (arith, client_ids-dispatch_request, client_ids-deactivated)
  request_method-quiet pause s m a t =
      unfold request_pause in grind (arith, client_ids-dispatch_request, client_ids-deactivated)
  request_method-quiet resume s m a t =
      unfold request_resume in grind (arith, client_ids-dispatch_request, client_ids-deactivated)
  request_method-quiet barge_in_occurred s m a t =
      unfold request_barge_in_occurred in
      grind (arith, client_ids-dispatch_request, client_ids-deactivated)
  request_method-quiet control s m a t =
      unfold request_control in grind (arith, client_ids-dispatch_request, client_ids-deactivated)
  request_method-quiet define_lexicon s m a t =
      unfold request_define_lexicon in
      grind (arith, client_ids-dispatch_request, client_ids-deactivated)

  response_dispatch-quiet :
      (s : Synth R) (m : Message R) → s.active ≡ false → SendsNone s.out (response_dispatch s m).0
  unfolding response_dispatch
  response_dispatch-quiet s m a = rw a (client_ids-deactivated s.out)

  process_pending-quiet :
      (s : Synth R) (q : List (Message R))
      → All IsSpeak q
      → SendsNone s.out (process_pending s (pop_front q).0)
  unfolding process_pending request_dispatch
  process_pending-quiet s [] h = refl
  process_pending-quiet s (p ∷ ps) h =
      grind (arith, client_ids-dispatch_request, client_ids-deactivated)

  response_method-quiet :
      (x : Method) (s : Synth R) (m : Message R)
      → s.active ≡ false
      → Inv s
      → Ensures (SendsNone s.out) (response_method ops x s m)
  unfolding response_method response_stop request_dispatch response_dispatch event_dispatch
      state_change
  response_method-quiet set_params s m a h =
      unfold response_plain in grind (arith, client_ids-dispatch_request, client_ids-deactivated)
  response_method-quiet get_params s m a h =
      unfold response_get_params in
      grind (arith, client_ids-dispatch_request, client_ids-deactivated)
  response_method-quiet speak s m a h =
      unfold response_speak in grind (arith, client_ids-dispatch_request, client_ids-deactivated)
  response_method-quiet stop s m a h = elim (Option-cases s.speaker) [
    | inl e ↦ rw (e, response_stop) tt
    | inr (sp, e) ↦ elim (Option-cases s.active_request) [
      | inl f ↦ rw (e, f, response_stop) tt
      | inr (r, f) ↦ grind (
        arith,
        client_ids-dispatch_request,
        client_ids-deactivated,
        All-pending_remove ops.resource IsSpeak s.queue r
            (active_id_add ops.resource m (request_id sp)) h.queue_speaks,
      )
    ]
  ]
  response_method-quiet pause s m a h =
      unfold response_pause in grind (arith, client_ids-dispatch_request, client_ids-deactivated)
  response_method-quiet resume s m a h =
      unfold response_resume in grind (arith, client_ids-dispatch_request, client_ids-deactivated)
  response_method-quiet barge_in_occurred s m a h =
      unfold response_barge_in_occurred in
      grind (arith, client_ids-dispatch_request, client_ids-deactivated)
  response_method-quiet control s m a h =
      unfold response_control in grind (arith, client_ids-dispatch_request, client_ids-deactivated)
  response_method-quiet define_lexicon s m a h =
      unfold response_plain in grind (arith, client_ids-dispatch_request, client_ids-deactivated)

  event_method-quiet :
      (x : Event) (s : Synth R) (m : Message R)
      → s.active ≡ false
      → Inv s
      → Ensures (SendsNone s.out) (event_method ops x s m)
  unfolding event_method event_dispatch state_change
  event_method-quiet speech_marker s m a h = unfold event_speech_marker in grind arith
  event_method-quiet speak_complete s m a h =
      unfold event_speak_complete request_dispatch in
      grind (arith, client_ids-dispatch_request, client_ids-deactivated)

  -- A message that makes a deactivated machine read no null pointer makes it send the client no
  -- response and no event.
  pub synth-Ensures-quiet :
      (s : Synth R) (m : Message R)
      → s.active ≡ false
      → Inv s
      → Ensures (SendsNone s.out) (state_update ops s m)
  unfolding state_update request_state_update response_state_update event_state_update
  synth-Ensures-quiet s m a h =
      grind (arith, request_method-quiet, response_method-quiet, event_method-quiet)

-- ===== src/Synth/Pending.antt =====
-- The queue of pending SPEAK requests of mrcp_synth_state_machine.c.
use unimrcp.Prelude.{◌≡◌, true, false, not, none, some, [], ◌∷◌, ◌++◌, arith, select}
use unimrcp.Message.{
  Message, response_create, event_create, in_progress, response, vtables_of, generic_header_prepare,
}
use unimrcp.MessageHeader.{fields_inherit}
use unimrcp.StateMachine.{
  dispatch, Returns, request_id, selective_ids, is_addressed, pending_remove, with_request_state,
}
use unimrcp.StateMachine.Laws.{remove_loop-queue}
use unimrcp.Synth.{
  SynthResource, Synth, request_dispatch, response_dispatch, event_dispatch, state_change,
}
use unimrcp.Synth.Requests.{request_speak, stop_immediately, request_stop}
use unimrcp.Synth.Responses.{response_speak}
use unimrcp.Synth.Update.{response_state_update, state_update}

module _ {R : Type 0} (ops : SynthResource R) where
  -- An immediate STOP removes exactly the addressed requests and keeps the order of the others.
  pub stop_immediately-queue :
      (s : Synth R) (m : Message R)
      → Returns
          (λ s'.
            s'.queue ≡ select (λ p. not (is_addressed (selective_ids m) (request_id p))) s.queue)
          (stop_immediately ops s m)
  unfolding stop_immediately response_dispatch pending_remove
  stop_immediately-queue s m = ground (
    arith,
    remove_loop-queue ops.resource (selective_ids m) s.queue
        (generic_header_prepare ops.resource (response_create ops.resource m)),
  )

  -- A STOP to an active machine while a pending SPEAK waits for the engine's response leaves
  -- `is_pending` set and the machine without a speaker, and any response of the engine is then
  -- refused and changes nothing.
  pub stop_loses_pending_speak :
      (s : Synth R) (m r p : Message R)
      → s.speaker ≡ none
      → s.active_request ≡ some p
      → s.is_pending ≡ true
      → s.active ≡ true
      → r.start_line.message_type ≡ response
      → Returns
          (λ s'.
            (s'.is_pending ≡ true)
            × (s'.speaker ≡ none)
            × (state_update ops s' r ≡ some (s', false)))
          (request_stop ops s m)
  unfolding request_stop stop_immediately response_dispatch state_update response_state_update
  stop_loses_pending_speak s m r p e f g a t = ground arith

  -- While a pending SPEAK waits for the engine's response, a new SPEAK to an active machine is not
  -- queued but goes to the engine at once. It takes the place of the pending one, and is taken for it: the engine's
  -- response to the new request is answered to the client by a SPEECH-MARKER event, not by a
  -- response.
  pub speak_overtakes_pending :
      (s : Synth R) (m r p : Message R)
      → s.active ≡ true
      → s.speaker ≡ none
      → s.active_request ≡ some p
      → s.is_pending ≡ true
      → let m' = record m {
        header = fields_inherit (vtables_of ops.resource m) m.header s.properties;
      } in
        Returns
          (λ s'.
            (s'.active_request ≡ some m')
            × (s'.queue ≡ s.queue)
            × Returns
                (λ s''.
                  s''.out
                  ≡ (s.out ++ (dispatch m' ∷ []))
                    ++ (dispatch (with_request_state (event_create ops.resource m' 0) in_progress)
                        ∷ []))
                (response_speak ops s' r))
          (request_speak ops s m)
  unfolding request_speak response_speak request_dispatch event_dispatch state_change
  speak_overtakes_pending s m r p a e f g = ground arith

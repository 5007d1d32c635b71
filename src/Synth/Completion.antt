-- ===== src/Synth/Completion.antt =====
-- The deactivation of mrcp_synth_state_machine.c and the response to its STOP request.
use unimrcp.Prelude.{
  ◌+◌, ◌%◌, ◌^◌, ◌≡◌, refl, false, none, some, List, [], ◌∷◌, ◌++◌, select, arith,
}
use unimrcp.Message.{
  resource_set_by_id, message_create, start_line_init, Message, response, request_create,
  generic_header_prepare,
}
use unimrcp.StateMachine.{
  Returns, dispatch, deactivated, request_id, method_id, selective_ids, is_addressed,
  pending_remove, active_id_add,
}
use unimrcp.StateMachine.Laws.{remove_loop-queue}
use unimrcp.Synth.{
  idle, SynthResource, Synth, method_of, synthesizer_stop, request_dispatch, response_dispatch,
  state_change, process_pending,
}
use unimrcp.Synth.Responses.{response_stop}
use unimrcp.Synth.Update.{
  stop_request, response_method, response_state_update, state_update, state_deactivate,
}

select-false : {A : Type 0} (xs : List A) → select (λ x. false) xs ≡ []
select-false [] = refl
select-false (x ∷ xs) = select-false xs

module _ {R : Type 0} (ops : SynthResource R) where
  selective_ids-stop_request :
      (sp : Message R) → selective_ids (stop_request ops sp) ≡ selective_ids sp
  unfolding selective_ids stop_request
  selective_ids-stop_request sp = refl

  stop_request-fields :
      (sp : Message R)
      → (request_id (stop_request ops sp) ≡ (request_id sp + 1) % 2 ^ 32)
        × (method_id (stop_request ops sp) ≡ synthesizer_stop)
  unfolding stop_request request_create resource_set_by_id message_create start_line_init
  stop_request-fields sp = (refl, refl)

  -- A deactivation while a SPEAK that lists no active requests is in progress sends the engine a
  -- STOP request. The engine's response to it is reported as the end of the deactivation, once,
  -- and not to the client; it drops all pending requests and leaves the machine idle
  -- without an active request and without a speaker.
  pub state_deactivate-completes :
      (s : Synth R) (m : Message R) {sp : Message R}
      → s.speaker ≡ some sp
      → selective_ids sp ≡ none
      → m.start_line.message_type ≡ response
      → method_id m ≡ synthesizer_stop
      → request_id m ≡ (request_id sp + 1) % 2 ^ 32
      → Returns
          (λ s'.
            (s'.out ≡ s.out ++ (dispatch (stop_request ops sp) ∷ []))
            × Returns
                (λ s''.
                  (s''.out ≡ s'.out ++ (deactivated ∷ []))
                  × (s''.queue ≡ [])
                  × (s''.active_request ≡ none)
                  × (s''.speaker ≡ none)
                  × (s''.state ≡ idle))
                (state_update ops s' m))
          (state_deactivate ops s)
  unfolding state_deactivate request_dispatch state_update response_state_update method_of
      response_method response_stop response_dispatch state_change process_pending pending_remove
      is_addressed
  state_deactivate-completes s m {sp} e n t c i =
      let a = stop_request ops sp in
      ground (
        arith,
        selective_ids-stop_request sp,
        stop_request-fields sp,
        remove_loop-queue ops.resource none s.queue
            (generic_header_prepare ops.resource (active_id_add ops.resource m (request_id sp))),
        select-false s.queue,
      )

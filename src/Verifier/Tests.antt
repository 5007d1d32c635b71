-- ===== src/Verifier/Tests.antt =====
-- Runs of the verifier state machine at concrete messages.
use unimrcp.Prelude.{ℕ, refl, true, some, [], arith}
use unimrcp.Message.{version_2, request, response}
use unimrcp.StateMachine.{Returns}
use unimrcp.StateMachine.Reachable.{Reachable}
use unimrcp.StateMachine.Fixture.{vtables, resource, no_fields, message, state_after}
use unimrcp.Verifier.{
  verifying, VerifierResource, Verifier, create_machine, method_of, request_dispatch,
}
use unimrcp.Verifier.Handlers.{request_start_session}
use unimrcp.Verifier.Update.{request_method, request_state_update, state_update, state_deactivate}
use unimrcp.Verifier.Invariant.{Inv, SendsOne, verifier_update-request}
use unimrcp.Verifier.Reachable.{Legal, verifier_reachable-Inv}

abbrev ops : VerifierResource ℕ
ops = record { resource = resource; with_completion_cause = λ r cause. cause }

abbrev fresh : Verifier ℕ
fresh = create_machine ops version_2

-- Request 1 is verified, and a STOP waits for its response.
abbrev stopping : Verifier ℕ
stopping = record {
  active = true;
  out = [];
  state = verifying;
  active_request = some (message request 9 2 0);
  verify = some (message request 6 1 0);
  properties = no_fields;
  properties_vtables = vtables;
}

stopping-Inv : Inv stopping
stopping-Inv = record {
  verifying_verify = λ h. refl;
  waiting_verify = λ h. refl;
  idle_verify = λ h. ground arith;
}

abbrev started : Verifier ℕ
started = state_after (state_update ops fresh (message request 2 1 0)) fresh

started_reached :
    Reachable (create_machine ops version_2) (state_update ops) (state_deactivate ops) Legal started
unfolding create_machine state_update request_state_update method_of request_method
    request_start_session request_dispatch
started_reached = Reachable.by_update (message request 2 1 0) {b = true} Reachable.started tt refl

answer_legal : Legal started (message response 2 1 200)
unfolding create_machine state_update request_state_update method_of request_method
    request_start_session request_dispatch
answer_legal = λ t i. refl

verifier_reachable-Inv_example :
    Inv started × Returns Inv (state_update ops started (message response 2 1 200))
verifier_reachable-Inv_example =
    verifier_reachable-Inv ops version_2 started (message response 2 1 200) started_reached
      answer_legal

verifier_update-request_example : SendsOne [] 3 (state_update ops stopping (message request 6 3 0))
unfolding method_of
verifier_update-request_example =
    verifier_update-request ops stopping (message request 6 3 0) refl refl refl

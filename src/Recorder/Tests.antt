-- ===== src/Recorder/Tests.antt =====
-- Runs of the recorder state machine at concrete messages.
use unimrcp.Prelude.{ℕ, refl, true, some, []}
use unimrcp.Message.{version_2, request, response}
use unimrcp.StateMachine.{Returns}
use unimrcp.StateMachine.Reachable.{Reachable}
use unimrcp.StateMachine.Fixture.{vtables, resource, no_fields, message, state_after}
use unimrcp.Recorder.{
  recording, RecorderResource, Recorder, is_stopping, create_machine, method_of, request_dispatch,
}
use unimrcp.Recorder.Handlers.{request_record}
use unimrcp.Recorder.Update.{request_method, request_state_update, state_update, state_deactivate}
use unimrcp.Recorder.Invariant.{Inv, SendsOne, recorder_update-request}
use unimrcp.Recorder.Reachable.{Legal, recorder_reachable-Inv}

abbrev ops : RecorderResource ℕ
ops = record { resource = resource; with_completion_cause = λ r cause. cause }

abbrev fresh : Recorder ℕ
fresh = create_machine ops version_2

-- Request 1 is recorded, and a STOP waits for its response.
abbrev stopping : Recorder ℕ
stopping = record {
  active = true;
  out = [];
  state = recording;
  active_request = some (message request 3 2 0);
  recorded = some (message request 2 1 0);
  properties = no_fields;
  properties_vtables = vtables;
}

stopping-Inv : Inv stopping
unfolding is_stopping
stopping-Inv = record { idle_recorded = refl; stopping_recorded = λ h. refl }

abbrev started : Recorder ℕ
started = state_after (state_update ops fresh (message request 2 1 0)) fresh

started_reached :
    Reachable (create_machine ops version_2) (state_update ops) (state_deactivate ops) Legal started
unfolding create_machine state_update request_state_update method_of request_method request_record
    request_dispatch
started_reached = Reachable.by_update (message request 2 1 0) {b = true} Reachable.started tt refl

answer_legal : Legal started (message response 2 1 200)
unfolding create_machine state_update request_state_update method_of request_method request_record
    request_dispatch
answer_legal = λ t i. refl

recorder_reachable-Inv_example :
    Inv started × Returns Inv (state_update ops started (message response 2 1 200))
recorder_reachable-Inv_example =
    recorder_reachable-Inv ops version_2 started (message response 2 1 200) started_reached
      answer_legal

recorder_update-request_example : SendsOne [] 3 (state_update ops stopping (message request 2 3 0))
unfolding method_of
recorder_update-request_example =
    recorder_update-request ops stopping (message request 2 3 0) refl refl refl

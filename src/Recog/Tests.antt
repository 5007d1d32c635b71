-- ===== src/Recog/Tests.antt =====
-- Runs of the recognizer state machine at concrete messages.
use unimrcp.StateMachine.Runs.{run, Ends, IsEngine, served_by}
use unimrcp.Recog.Served.{IsServed, queued, run-recognizes-IsServed}
use unimrcp.Prelude.{List, map, ◌++◌, ℕ, ◌≡◌, refl, true, false, none, some, [], ◌∷◌}
use unimrcp.Message.{in_progress, Message, version_2, request, response, event}
use unimrcp.StateMachine.{with_request_state, Returns, request_id}
use unimrcp.StateMachine.Reachable.{Reachable}
use unimrcp.StateMachine.Fixture.{vtables, resource, no_fields, with_id_list, message, state_after}
use unimrcp.Recog.{
  recognizing, RecogResource, Recog, is_stopping, create_machine, method_of, request_dispatch,
}
use unimrcp.Recog.Requests.{request_recognize}
use unimrcp.Recog.Update.{request_method, request_state_update, state_update, state_deactivate}
use unimrcp.Recog.Invariant.{Inv}
use unimrcp.Recog.Queue.{SendsOne, recog_update-request}
use unimrcp.Recog.Reachable.{Legal, recog_reachable-Inv}

abbrev ops : RecogResource ℕ
ops = record { resource = resource; with_completion_cause = λ r cause. cause }

abbrev fresh : Recog ℕ
fresh = create_machine ops version_2

-- Request 1 is recognized, 2 and 3 wait.
abbrev busy : Recog ℕ
busy = record {
  active = true;
  out = [];
  state = recognizing;
  is_pending = false;
  active_request = none;
  recog = some (message request 3 1 0);
  queue = message request 3 2 0 ∷ message request 3 3 0 ∷ [];
  properties = no_fields;
  properties_vtables = vtables;
}

-- A STOP of request 2 waits for its response.
abbrev selective_stop : Message ℕ
selective_stop = record (message request 7 4 0) { header = with_id_list (2 ∷ []) }

abbrev stopping : Recog ℕ
stopping = record busy { active_request = some selective_stop }

stopping-Inv : Inv stopping
unfolding is_stopping
stopping-Inv = record {
  idle_recog = refl;
  stopping_recog = λ h. refl;
  queue_recognizes = ((refl, refl), ((refl, refl), tt));
}

busy-Inv : Inv busy
unfolding is_stopping
busy-Inv = record {
  idle_recog = refl;
  stopping_recog = λ h. refl;
  queue_recognizes = ((refl, refl), ((refl, refl), tt));
}

abbrev started : Recog ℕ
started = state_after (state_update ops fresh (message request 3 1 0)) fresh

started_reached :
    Reachable (create_machine ops version_2) (state_update ops) (state_deactivate ops) Legal started
unfolding create_machine state_update request_state_update method_of request_method
    request_recognize request_dispatch
started_reached = Reachable.by_update (message request 3 1 0) {b = true} Reachable.started tt refl

answer_legal : Legal started (message response 3 1 200)
unfolding create_machine state_update request_state_update method_of request_method
    request_recognize request_dispatch
answer_legal = λ t i. refl

recog_reachable-Inv_example :
    Inv started × Returns Inv (state_update ops started (message response 3 1 200))
recog_reachable-Inv_example =
    recog_reachable-Inv ops version_2 started (message response 3 1 200) started_reached
      answer_legal

recog_update-request_example : SendsOne [] 4 (state_update ops busy selective_stop)
unfolding method_of
recog_update-request_example = recog_update-request ops busy selective_stop refl busy-Inv refl refl

idle_not_stopping : is_stopping {R = ℕ} none ≡ false
unfolding is_stopping
idle_not_stopping = refl

-- An engine that answers each request at once, and completes it.
abbrev in_turn : Message ℕ → Message ℕ
in_turn p = with_request_state (message response 3 (request_id p) 200) in_progress

abbrev complete : Message ℕ → Message ℕ
complete p = message event 1 (request_id p) 0

at_once-IsEngine : IsEngine 3 1 in_turn complete
at_once-IsEngine = record {
  started_type = λ p. refl;
  started_method = λ p. refl;
  started_id = λ p. refl;
  started_state = λ p. refl;
  complete_type = λ p. refl;
  complete_method = λ p. refl;
  complete_id = λ p. refl;
}

-- What comes while request 1 is recognized.
abbrev new_recognizes : List (Message ℕ)
new_recognizes = message request 3 6 0 ∷ message request 3 7 0 ∷ []

run-recognizes-IsServed_example :
    let all = busy.queue ++ map (queued ops no_fields) new_recognizes in
    Ends (IsServed all) (
      run
        (state_update ops)
        busy
        (new_recognizes ++ served_by in_turn complete (message request 3 1 0) all))
run-recognizes-IsServed_example =
    run-recognizes-IsServed ops in_turn complete (message request 3 1 0) new_recognizes busy.queue
      [] no_fields busy at_once-IsEngine
      (refl, refl, refl, refl, idle_not_stopping, refl, refl, refl)
      ((refl, refl), ((refl, refl), tt)) ((refl, refl), ((refl, refl), tt))

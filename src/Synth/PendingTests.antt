-- ===== src/Synth/PendingTests.antt =====
-- Runs of the synthesizer's queue of pending requests at concrete messages.
use unimrcp.StateMachine.Runs.{run, Ends, IsEngine, served_by}
use unimrcp.Synth.Served.{IsServed, queued, run-speaks-IsServed}
use unimrcp.Prelude.{List, map, ℕ, ◌≡◌, refl, true, false, not, none, some, [], ◌∷◌, ◌++◌, select}
use unimrcp.GenericHeader.{ids_find}
use unimrcp.HeaderSection.{field_check}
use unimrcp.Message.{Message, request, response, event, in_progress, event_create, vtables_of}
use unimrcp.MessageHeader.{fields_inherit}
use unimrcp.StateMachine.{
  dispatch, Returns, request_id, selective_ids, is_addressed, with_request_state,
}
use unimrcp.StateMachine.Fixture.{resource, no_fields, message}
use unimrcp.Synth.{is_stopping}
use unimrcp.Synth.Requests.{request_speak, request_stop}
use unimrcp.Synth.Responses.{response_speak}
use unimrcp.Synth.Update.{state_update}
use unimrcp.Synth.Pending.{stop_loses_pending_speak, speak_overtakes_pending}
use unimrcp.Synth.Fixture.{ops, busy, selective_stop, waiting}

-- An engine that answers each request at once, and completes it.
abbrev started : Message ℕ → Message ℕ
started p = with_request_state (message response 2 (request_id p) 200) in_progress

abbrev complete : Message ℕ → Message ℕ
complete p = message event 1 (request_id p) 0

at_once-IsEngine : IsEngine 2 1 started complete
at_once-IsEngine = record {
  started_type = λ p. refl;
  started_method = λ p. refl;
  started_id = λ p. refl;
  started_state = λ p. refl;
  complete_type = λ p. refl;
  complete_method = λ p. refl;
  complete_id = λ p. refl;
}

idle_not_stopping : is_stopping {R = ℕ} none ≡ false
unfolding is_stopping
idle_not_stopping = refl

-- What comes while request 1 is spoken.
abbrev new_speaks : List (Message ℕ)
new_speaks = message request 2 6 0 ∷ message request 2 7 0 ∷ []

run-speaks-IsServed_example :
    let all = busy.queue ++ map (queued ops no_fields) new_speaks in
    Ends (IsServed all) (
      run
        (state_update ops)
        busy
        (new_speaks ++ served_by started complete (message request 2 1 0) all))
run-speaks-IsServed_example =
    run-speaks-IsServed ops started complete (message request 2 1 0) new_speaks busy.queue []
      no_fields busy at_once-IsEngine (refl, refl, refl, idle_not_stopping, refl, refl, refl)
      ((refl, refl), ((refl, refl), tt)) ((refl, refl), ((refl, refl), tt))

-- Of the requests 2 and 3, a STOP of 2 keeps 3.
selective_stop_keeps :
    select (λ p. not (is_addressed (selective_ids selective_stop) (request_id p))) busy.queue
    ≡ message request 2 3 0 ∷ []
unfolding selective_ids is_addressed ids_find field_check
selective_stop_keeps = refl

stop_loses_pending_speak_example :
    Returns
      (λ s.
        (s.is_pending ≡ true)
        × (s.speaker ≡ none)
        × (state_update ops s (message response 2 2 200) ≡ some (s, false)))
      (request_stop ops waiting (message request 3 7 0))
stop_loses_pending_speak_example =
    stop_loses_pending_speak ops waiting (message request 3 7 0) (message response 2 2 200)
      (message request 2 2 0) refl refl refl refl refl

speak_overtakes_pending_example :
    let m = record (message request 2 8 0) {
      header = fields_inherit (vtables_of resource (message request 2 8 0)) no_fields no_fields;
    } in
    Returns
      (λ s.
        (s.active_request ≡ some m)
        × (s.queue ≡ [])
        × Returns
            (λ s'.
              s'.out
              ≡ dispatch m
                ∷ dispatch (with_request_state (event_create resource m 0) in_progress)
                ∷ [])
            (response_speak ops s (message response 2 8 200)))
      (request_speak ops waiting (message request 2 8 0))
speak_overtakes_pending_example =
    speak_overtakes_pending ops waiting (message request 2 8 0) (message response 2 8 200)
      (message request 2 2 0) refl refl refl refl

-- ===== src/Synth/Tests.antt =====
-- Runs of the synthesizer state machine at concrete messages.
use unimrcp.Prelude.{ℕ, ◌≡◌, refl, true, false, none, some, [], ◌∷◌, ◌++◌, arith}
use unimrcp.HeaderSection.{field_check}
use unimrcp.Message.{version_2, request, response}
use unimrcp.StateMachine.{deactivated, dispatch, Returns, selective_ids}
use unimrcp.StateMachine.Reachable.{Reachable}
use unimrcp.StateMachine.Fixture.{message, state_after}
use unimrcp.Synth.{idle, Synth, is_stopping, create_machine, method_of, request_dispatch}
use unimrcp.Synth.Requests.{request_speak}
use unimrcp.Synth.Completion.{state_deactivate-completes}
use unimrcp.Synth.Update.{
  stop_request, request_method, request_state_update, state_update, state_deactivate,
}
use unimrcp.Synth.Invariant.{Inv}
use unimrcp.Synth.Safety.{IsStale, stale_response_faults}
use unimrcp.Synth.Answers.{SendsOne, synth_update-request}
use unimrcp.Synth.Deactivation.{SendsNone}
use unimrcp.Synth.Reachable.{Legal, synth_reachable-Inv, synth_update-quiet}
use unimrcp.Synth.Fixture.{ops, fresh, busy, selective_stop, stopping, waiting}

stopping-Inv : Inv stopping
unfolding is_stopping
stopping-Inv = record {
  idle_speaker = refl;
  stopping_speaker = λ h. refl;
  queue_speaks = ((refl, refl), ((refl, refl), tt));
}

speak_legal : Legal fresh (message request 2 1 0)
unfolding create_machine
speak_legal = (tt, λ h. ground arith)

abbrev spoken : Synth ℕ
spoken = state_after (state_update ops fresh (message request 2 1 0)) fresh

spoken_reached :
    Reachable (create_machine ops version_2) (state_update ops) (state_deactivate ops) Legal spoken
unfolding create_machine state_update request_state_update method_of request_method request_speak
    request_dispatch
spoken_reached =
    Reachable.by_update (message request 2 1 0) {b = true} Reachable.started speak_legal refl

answer_legal : Legal spoken (message response 2 1 200)
unfolding create_machine state_update request_state_update method_of request_method request_speak
    request_dispatch
answer_legal = (λ t i. refl, λ h. ground (arith, h.1))

synth_reachable-Inv_example :
    Inv spoken × Returns Inv (state_update ops spoken (message response 2 1 200))
synth_reachable-Inv_example =
    synth_reachable-Inv ops version_2 spoken (message response 2 1 200) spoken_reached answer_legal

stop_legal : Legal stopping (message response 3 4 200)
stop_legal = (λ t i. refl, λ h. ground (arith, h.1))

synth_update-request_example : SendsOne [] 4 (state_update ops busy selective_stop)
unfolding method_of
synth_update-request_example = synth_update-request ops busy selective_stop refl refl refl

abbrev stopped : Synth ℕ
stopped = record stopping { active = false }

stopped-Inv : Inv stopped
unfolding is_stopping
stopped-Inv = record {
  idle_speaker = refl;
  stopping_speaker = λ h. refl;
  queue_speaks = ((refl, refl), ((refl, refl), tt));
}

stopped_legal : Legal stopped (message response 3 4 200)
stopped_legal = (λ t i. refl, λ h. ground (arith, h.1))

synth_update-quiet_example :
    Returns (SendsNone []) (state_update ops stopped (message response 3 4 200))
synth_update-quiet_example =
    synth_update-quiet ops stopped (message response 3 4 200) refl stopped_legal stopped-Inv

-- A PAUSE request waits for its response, but the speaker is gone.
abbrev stale : Synth ℕ
stale = record waiting { is_pending = false; active_request = some (message request 4 5 0) }

stale-message : IsStale stale (message response 4 5 200)
unfolding method_of
stale-message = (refl, refl)

stale_response_faults_example : state_update ops stale (message response 4 5 200) ≡ none
stale_response_faults_example =
    stale_response_faults ops stale (message response 4 5 200) (message request 4 5 0) refl refl
      stale-message

addresses_all : selective_ids (message request 2 1 0) ≡ none
unfolding selective_ids field_check
addresses_all = refl

state_deactivate-completes_example :
    Returns
      (λ s.
        (s.out ≡ dispatch (stop_request ops (message request 2 1 0)) ∷ [])
        × Returns
            (λ s'.
              (s'.out ≡ s.out ++ (deactivated ∷ []))
              × (s'.queue ≡ [])
              × (s'.active_request ≡ none)
              × (s'.speaker ≡ none)
              × (s'.state ≡ idle))
            (state_update ops s (message response 3 2 200)))
      (state_deactivate ops busy)
state_deactivate-completes_example =
    state_deactivate-completes ops busy (message response 3 2 200) {sp = message request 2 1 0} refl
      addresses_all refl refl refl

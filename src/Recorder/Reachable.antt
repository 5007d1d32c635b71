-- ===== src/Recorder/Reachable.antt =====
-- The reachable states of the state machine of mrcp_recorder_state_machine.c.
use unimrcp.Message.{Message, Version}
use unimrcp.StateMachine.{AnswersActive, Returns}
use unimrcp.StateMachine.Reachable.{Reachable, Reachable-invariant}
use unimrcp.Recorder.{RecorderResource, Recorder, create_machine}
use unimrcp.Recorder.Update.{state_update, state_deactivate}
use unimrcp.Recorder.Invariant.{
  Inv, recorder_update-Inv, recorder_deactivate-Inv, recorder_create-Inv,
}

-- A response with the identifier of the active request has its method. Nothing is asked of requests,
-- events and other responses.
abbrev pub Legal : {R : Type 0} → Recorder R → Message R → Type 0
Legal s m = AnswersActive s.active_request m

module _ {R : Type 0} (ops : RecorderResource R) where
  -- From its creation on, whatever requests, events, responses and deactivations came, a recorder
  -- reads no null pointer on the next message, and satisfies the invariant before and after. Every
  -- response with the identifier of the request that is active when it comes is assumed to have
  -- its method.
  pub recorder_reachable-Inv :
      (v : Version) (s : Recorder R) (m : Message R)
      → Reachable (create_machine ops v) (state_update ops) (state_deactivate ops) Legal s
      → Legal s m
      → Inv s × Returns Inv (state_update ops s m)
  recorder_reachable-Inv v s m r l = (before, recorder_update-Inv ops s m l before)
    where
      before : Inv s
      before =
          Reachable-invariant Inv (recorder_create-Inv ops v) (recorder_update-Inv ops)
            (recorder_deactivate-Inv ops) r

-- ===== src/Recog/Reachable.antt =====
-- The reachable states of the state machine of mrcp_recog_state_machine.c.
use unimrcp.Message.{Message, Version}
use unimrcp.StateMachine.{AnswersActive, Returns}
use unimrcp.StateMachine.Reachable.{Reachable, Reachable-invariant, Returns-of_Ensures}
use unimrcp.Recog.{RecogResource, Recog, create_machine}
use unimrcp.Recog.Update.{state_update, state_deactivate}
use unimrcp.Recog.Invariant.{Inv, recog-Ensures-Inv, recog_deactivate-Inv, recog_create-Inv}
use unimrcp.Recog.Safety.{recog_update-safe}

-- A response with the identifier of the active request has its method. Nothing is asked of requests,
-- events and other responses.
abbrev pub Legal : {R : Type 0} → Recog R → Message R → Type 0
Legal s m = AnswersActive s.active_request m

module _ {R : Type 0} (ops : RecogResource R) where
  -- A recognizer that satisfies the invariant reads no null pointer on any message, and satisfies
  -- the invariant afterwards. A response to the active request is assumed to have its method.
  pub recog_update-Inv :
      (s : Recog R) (m : Message R) → Legal s m → Inv s → Returns Inv (state_update ops s m)
  recog_update-Inv s m l h =
      Returns-of_Ensures Inv (state_update ops s m) (recog_update-safe ops s m h l)
        (recog-Ensures-Inv ops s m h)

  -- From its creation on, whatever requests, events, responses and deactivations came, a recognizer
  -- reads no null pointer on the next message, and satisfies the invariant before and after. Every
  -- response with the identifier of the request that is active when it comes is assumed to have
  -- its method.
  pub recog_reachable-Inv :
      (v : Version) (s : Recog R) (m : Message R)
      → Reachable (create_machine ops v) (state_update ops) (state_deactivate ops) Legal s
      → Legal s m
      → Inv s × Returns Inv (state_update ops s m)
  recog_reachable-Inv v s m r l = (before, recog_update-Inv s m l before)
    where
      before : Inv s
      before =
          Reachable-invariant Inv (recog_create-Inv ops v) recog_update-Inv
            (recog_deactivate-Inv ops) r

-- ===== src/Verifier/Reachable.antt =====
-- The reachable states of the state machine of mrcp_verifier_state_machine.c.
use unimrcp.Message.{Message, Version}
use unimrcp.StateMachine.{AnswersActive, Returns}
use unimrcp.StateMachine.Reachable.{Reachable, Reachable-invariant}
use unimrcp.Verifier.{VerifierResource, Verifier, create_machine}
use unimrcp.Verifier.Update.{state_update, state_deactivate}
use unimrcp.Verifier.Invariant.{
  Inv, verifier_update-Inv, verifier_deactivate-Inv, verifier_create-Inv,
}

-- A response with the identifier of the active request has its method. Nothing is asked of requests,
-- events and other responses.
abbrev pub Legal : {R : Type 0} → Verifier R → Message R → Type 0
Legal s m = AnswersActive s.active_request m

module _ {R : Type 0} (ops : VerifierResource R) where
  -- From its creation on, whatever requests, events, responses and deactivations came, a verifier
  -- reads no null pointer on the next message, and satisfies the invariant before and after. Every
  -- response with the identifier of the request that is active when it comes is assumed to have
  -- its method.
  pub verifier_reachable-Inv :
      (v : Version) (s : Verifier R) (m : Message R)
      → Reachable (create_machine ops v) (state_update ops) (state_deactivate ops) Legal s
      → Legal s m
      → Inv s × Returns Inv (state_update ops s m)
  verifier_reachable-Inv v s m r l = (before, verifier_update-Inv ops s m l before)
    where
      before : Inv s
      before =
          Reachable-invariant Inv (verifier_create-Inv ops v) (verifier_update-Inv ops)
            (verifier_deactivate-Inv ops) r

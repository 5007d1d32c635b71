-- ===== src/Synth/Reachable.antt =====
-- The reachable states of the state machine of mrcp_synth_state_machine.c.
use unimrcp.Prelude.{◌≡◌, false}
use unimrcp.Message.{Message, Version}
use unimrcp.StateMachine.{AnswersActive, Returns}
use unimrcp.StateMachine.Reachable.{Reachable, Reachable-invariant, Returns-of_Ensures}
use unimrcp.Synth.{SynthResource, Synth, create_machine}
use unimrcp.Synth.Update.{state_update, state_deactivate}
use unimrcp.Synth.Invariant.{Inv, synth-Ensures-Inv, synth_deactivate-Inv, synth_create-Inv}
use unimrcp.Synth.Safety.{IsStale, synth_update-safe}
use unimrcp.Synth.Deactivation.{SendsNone, synth-Ensures-quiet}

-- A message that the machine is ready for: a response with the identifier of the active request has
-- its method, and no response to PAUSE or RESUME that reports success, nor to CONTROL, comes after the
-- speaker is gone. Requests and events are not restricted.
abbrev pub Legal : {R : Type 0} → Synth R → Message R → Type 0
Legal s m = AnswersActive s.active_request m × ¬ IsStale s m

module _ {R : Type 0} (ops : SynthResource R) where
  -- On a message that it is ready for (`Legal`), a synthesizer that satisfies the invariant reads no null
  -- pointer, and satisfies the invariant afterwards.
  pub synth_update-Inv :
      (s : Synth R) (m : Message R) → Legal s m → Inv s → Returns Inv (state_update ops s m)
  synth_update-Inv s m l h =
      Returns-of_Ensures Inv (state_update ops s m) (synth_update-safe ops s m h l.0 l.1)
        (synth-Ensures-Inv ops s m h)

  -- From its creation on, whatever requests, events, responses and deactivations came, a synthesizer
  -- reads no null pointer on the next message, and satisfies the invariant before and after. Every
  -- response with the identifier of the request that is active when it comes is assumed to have
  -- its method, and no response to PAUSE or RESUME that reports success, nor to CONTROL, is assumed to
  -- come after the speaker is gone.
  pub synth_reachable-Inv :
      (v : Version) (s : Synth R) (m : Message R)
      → Reachable (create_machine ops v) (state_update ops) (state_deactivate ops) Legal s
      → Legal s m
      → Inv s × Returns Inv (state_update ops s m)
  synth_reachable-Inv v s m r l = (before, synth_update-Inv s m l before)
    where
      before : Inv s
      before =
          Reachable-invariant Inv (synth_create-Inv ops v) synth_update-Inv
            (synth_deactivate-Inv ops) r

  -- Once deactivated, a synthesizer that satisfies the invariant reads no null pointer and sends the
  -- client no response and no event, whatever message comes. A response is assumed as for
  -- `synth_reachable-Inv`.
  pub synth_update-quiet :
      (s : Synth R) (m : Message R)
      → s.active ≡ false
      → Legal s m
      → Inv s
      → Returns (SendsNone s.out) (state_update ops s m)
  synth_update-quiet s m a l h =
      Returns-of_Ensures (SendsNone s.out) (state_update ops s m)
        (synth_update-safe ops s m h l.0 l.1) (synth-Ensures-quiet ops s m a h)

-- ===== src/StateMachine/Reachable.antt =====
-- The states that a state machine of libs/mrcp-engine can reach through its entry points
-- `mrcp_state_machine_update` and `mrcp_state_machine_deactivate`.
use mathlib.Core.Path.{transport}
use unimrcp.Prelude.{◌≡◌, ◌≢◌, refl, ap, Bool, none, some}
use unimrcp.Message.{Message}
use unimrcp.StateMachine.{Outcome, Ensures, Returns}

-- The states of a machine that starts in `start`: those after its creation, after an update by a
-- message that is legal in the state, and after a deactivation.
pub data Reachable {R S : Type 0} (start : S) (update : S → Message R → Outcome S)
    (deactivate : S → Outcome S) (Legal : S → Message R → Type 0) : S → Type 0 where
  started : Reachable start update deactivate Legal start
  by_update :
      {s s' : S} (m : Message R) {b : Bool}
      → Reachable start update deactivate Legal s
      → Legal s m
      → update s m ≡ some (s', b)
      → Reachable start update deactivate Legal s'
  by_deactivate :
      {s s' : S} {b : Bool}
      → Reachable start update deactivate Legal s
      → deactivate s ≡ some (s', b)
      → Reachable start update deactivate Legal s'

pub Returns-of_Ensures :
    {S : Type 0} (P : S → Type 0) (o : Outcome S) → o ≢ none → Ensures P o → Returns P o
Returns-of_Ensures P none n e = n refl
Returns-of_Ensures P (some (s, b)) n e = e

-- What holds at the start, and is kept by every legal update and by deactivation, holds of every
-- reachable state.
pub Reachable-invariant :
    {R S : Type 0} {start : S} {update : S → Message R → Outcome S} {deactivate : S → Outcome S}
    {Legal : S → Message R → Type 0} (P : S → Type 0)
    → P start
    → ((s : S) (m : Message R) → Legal s m → P s → Returns P (update s m))
    → ((s : S) → P s → Returns P (deactivate s))
    → {s : S} → Reachable start update deactivate Legal s
    → P s
Reachable-invariant P p u d Reachable.started = p
Reachable-invariant P p u d (Reachable.by_update {s} {s'} m {b} r l e) =
    transport (ap (Returns P) e) (u s m l (Reachable-invariant P p u d r))
Reachable-invariant P p u d (Reachable.by_deactivate {s} {s'} {b} r e) =
    transport (ap (Returns P) e) (d s (Reachable-invariant P p u d r))

-- ===== src/StateMachine/Runs.antt =====
-- Runs of a state machine of libs/mrcp-engine over the messages that come one after the other, and the
-- requests that it sends to the engine.
use mathlib.Core.List.{append-nil}
use unimrcp.Prelude.{
  ℕ, arith, ◌∙◌, ◌≡◌, refl, ap, Option, none, some, List, [], ◌∷◌, ◌++◌, if◌then◌else◌, Bool-cases,
  inl, inr, ◌>>=◌,
}
use unimrcp.Message.{
  Message, Resource, request, response, event, response_create, event_create, resource_set_by_id,
  in_progress,
}
use unimrcp.StateMachine.{
  Action, dispatch, deactivated, Outcome, Returns, is_request, method_id, request_id,
}

-- The state after the messages, whatever the returned statuses.
unfoldable pub run : {R S : Type 0} → (S → Message R → Outcome S) → S → List (Message R) → Option S
run update s [] = some s
run update s (m ∷ ms) = do (s', _) ← update s m; run update s' ms

-- The requests of a log, in order.
abbrev pub requests : {R : Type 0} → List (Action R) → List (Message R)
requests [] = []
requests (dispatch m ∷ log) =
    if is_request m.start_line.message_type then m ∷ requests log else requests log
requests (deactivated ∷ log) = requests log

pub requests-append :
    {R : Type 0} (xs ys : List (Action R)) → requests (xs ++ ys) ≡ requests xs ++ requests ys
requests-append [] ys = refl
requests-append (dispatch m ∷ xs) ys = elim (Bool-cases (is_request m.start_line.message_type)) [
  | inl e ↦ rw e (ap (λ ms. m ∷ ms) (requests-append xs ys))
  | inr e ↦ rw e (requests-append xs ys)
]
requests-append (deactivated ∷ xs) ys = requests-append xs ys

-- A request is added at the end, and a response, an event or the end of the deactivation is not.
pub requests-dispatch_request :
    {R : Type 0} (log : List (Action R)) (m : Message R)
    → m.start_line.message_type ≡ request
    → requests (log ++ (dispatch m ∷ [])) ≡ requests log ++ (m ∷ [])
requests-dispatch_request log m e = requests-append log (dispatch m ∷ []) ∙ rw e refl

pub requests-dispatch_response :
    {R : Type 0} (log : List (Action R)) (m : Message R)
    → m.start_line.message_type ≡ response
    → requests (log ++ (dispatch m ∷ [])) ≡ requests log
requests-dispatch_response log m e =
    requests-append log (dispatch m ∷ []) ∙ rw e (append-nil (requests log))

pub requests-dispatch_event :
    {R : Type 0} (log : List (Action R)) (m : Message R)
    → m.start_line.message_type ≡ event
    → requests (log ++ (dispatch m ∷ [])) ≡ requests log
requests-dispatch_event log m e =
    requests-append log (dispatch m ∷ []) ∙ rw e (append-nil (requests log))

module _ {R : Type 0} (resource : Resource R) where
  pub response_create-type :
      (m : Message R) → (response_create resource m).start_line.message_type ≡ response
  unfolding response_create resource_set_by_id
  response_create-type m = ground arith

  pub event_create-type :
      (m : Message R) (id : ℕ) → (event_create resource m id).start_line.message_type ≡ event
  unfolding event_create resource_set_by_id
  event_create-type m id = ground arith

-- The run returns, in a state with the property.
abbrev pub Ends : {S : Type 0} → (S → Type 0) → Option S → Type 0
Ends P none = ⊥
Ends P (some s) = P s

module _ {R S : Type 0} (P Q : S → Type 0) (update : S → Message R → Outcome S) where
  pub run-step :
      (s : S) (m : Message R) (ms : List (Message R))
      → Returns P (update s m)
      → ((s' : S) → P s' → Ends Q (run update s' ms))
      → Ends Q (run update s (m ∷ ms))
  unfolding run
  run-step s m ms = go (update s m)
    where
      go :
          (o : Outcome S)
          → Returns P o
          → ((s' : S) → P s' → Ends Q (run update s' ms))
          → Ends Q (do (s', _) ← o; run update s' ms)
      go none h k = absurd h
      go (some (s', b)) h k = k s' h

-- The engine's response that a request of a method is in progress, and the event that completes it.
pub record IsEngine {R : Type 0} (method event_id : ℕ) (started complete : Message R → Message R)
    : Type 0 where
  pub started_type : (p : Message R) → (started p).start_line.message_type ≡ response
  pub started_method : (p : Message R) → method_id (started p) ≡ method
  pub started_id : (p : Message R) → request_id (started p) ≡ request_id p
  pub started_state : (p : Message R) → (started p).start_line.request_state ≡ in_progress
  pub complete_type : (p : Message R) → (complete p).start_line.message_type ≡ event
  pub complete_method : (p : Message R) → method_id (complete p) ≡ event_id
  pub complete_id : (p : Message R) → request_id (complete p) ≡ request_id p

-- What the engine sends while it serves a request and then those of a queue.
abbrev pub served_by :
    {R : Type 0}
    → (Message R → Message R)
    → (Message R → Message R)
    → Message R
    → List (Message R)
    → List (Message R)
served_by started complete sp [] = complete sp ∷ []
served_by started complete sp (p ∷ ps) = complete sp ∷ started p ∷ served_by started complete p ps

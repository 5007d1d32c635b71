-- ===== src/Recog/Served.antt =====
-- How mrcp_recog_state_machine.c serves the RECOGNIZE requests that come while one is in progress.
use mathlib.Core.Path.{subst}
use mathlib.Core.List.{append-nil, append_assoc}
use unimrcp.Prelude.{
  All-append, ◌≡◌, refl, sym, ap, true, false, some, List, [], ◌∷◌, ◌++◌, All, arith, map,
  Bool-cases, inl, inr,
}
use unimrcp.Message.{
  Message, response, event, in_progress, pending, response_create, event_create, vtables_of,
  resource_header_property_check,
}
use unimrcp.MessageHeader.{MessageHeader, fields_inherit}
use unimrcp.StateMachine.{Returns, method_id, request_id, with_request_state}
use unimrcp.StateMachine.Laws.{start_line-resource_header_property_add}
use unimrcp.StateMachine.Runs.{
  run, requests, requests-dispatch_request, requests-dispatch_response, requests-dispatch_event,
  response_create-type, Ends, run-step, IsEngine, served_by,
}
use unimrcp.Recog.{
  RecogResource, Recog, method_of, event_of, is_stopping, request_dispatch, response_dispatch,
  event_dispatch, state_change, process_pending, header_completion_cause, recognizing, recognized,
  with_cause,
}
use unimrcp.Recog.Requests.{request_recognize}
use unimrcp.Recog.Responses.{response_recognize, event_recognition_complete}
use unimrcp.Recog.Update.{
  request_method, response_method, event_method, request_state_update, response_state_update,
  event_state_update, state_update,
}
use unimrcp.Recog.Invariant.{IsRecognize}

-- An active machine recognizes for `held`, with a queue, a log of requests and properties.
abbrev pub IsServing :
    {R : Type 0}
    → Message R
    → List (Message R)
    → List (Message R)
    → MessageHeader R
    → Recog R
    → Type 0
IsServing held q log props s =
    (s.active ≡ true)
    × (s.recog ≡ some held)
    × (s.state ≡ recognizing)
    × (s.is_pending ≡ false)
    × (is_stopping s.active_request ≡ false)
    × (s.queue ≡ q)
    × (requests s.out ≡ log)
    × (s.properties ≡ props)

-- It waits for the engine's response to the pending request `p`.
abbrev IsWaiting :
    {R : Type 0}
    → Message R
    → List (Message R)
    → List (Message R)
    → MessageHeader R
    → Recog R
    → Type 0
IsWaiting p q log props s =
    (s.active ≡ true)
    × (s.is_pending ≡ true)
    × (s.active_request ≡ some p)
    × (s.queue ≡ q)
    × (requests s.out ≡ log)
    × (s.properties ≡ props)

-- Everything is recognized.
abbrev pub IsServed : {R : Type 0} → List (Message R) → Recog R → Type 0
IsServed log s = (s.state ≡ recognized) × (s.queue ≡ []) × (requests s.out ≡ log)

module _ {R : Type 0} (ops : RecogResource R) where
  -- A RECOGNIZE request as it is queued.
  abbrev pub queued : MessageHeader R → Message R → Message R
  queued props m =
      with_request_state
        (record m { header = fields_inherit (vtables_of ops.resource m) m.header props }) pending

  with_cause-type :
      (m : Message R) → (with_cause ops m).start_line.message_type ≡ m.start_line.message_type
  unfolding with_cause
  with_cause-type m = elim (Bool-cases (resource_header_property_check m header_completion_cause)) [
    | inl e ↦ rw (e, with_cause) refl
    | inr e ↦
        rw (e, with_cause)
          (ap (λ l. l.message_type) (start_line-resource_header_property_add ops.resource _ _))
  ]

  update-recognize :
      (held m : Message R) (q log : List (Message R)) (props : MessageHeader R) (s : Recog R)
      → IsServing held q log props s
      → IsRecognize m
      → Returns (IsServing held (q ++ (queued props m ∷ [])) log props) (state_update ops s m)
  unfolding state_update request_state_update method_of request_method request_recognize
      response_dispatch response_create is_stopping
  update-recognize held m q log props s h k =
      grind (arith, requests-dispatch_response, response_create-type ops.resource (queued props m))

  update_complete :
      (held p e : Message R) (q log : List (Message R)) (props : MessageHeader R) (s : Recog R)
      → IsServing held (p ∷ q) log props s
      → IsRecognize p
      → e.start_line.message_type ≡ event
      → method_id e ≡ 1
      → request_id e ≡ request_id held
      → Returns (IsWaiting p q (log ++ (p ∷ [])) props) (state_update ops s e)
  unfolding state_update event_state_update event_of event_method event_recognition_complete
      event_dispatch state_change request_dispatch
  update_complete held p e q log props s h k t m i =
      grind (arith, requests-dispatch_request, requests-dispatch_event, with_cause-type e)

  update-started :
      (p r : Message R) (q log : List (Message R)) (props : MessageHeader R) (s : Recog R)
      → IsWaiting p q log props s
      → IsRecognize p
      → r.start_line.message_type ≡ response
      → method_id r ≡ 3
      → request_id r ≡ request_id p
      → r.start_line.request_state ≡ in_progress
      → Returns (IsServing p q log props) (state_update ops s r)
  unfolding state_update response_state_update method_of response_method response_recognize
      event_dispatch event_create state_change is_stopping
  update-started p r q log props s h k t m i st = grind arith

  update-last :
      (held e : Message R) (log : List (Message R)) (props : MessageHeader R) (s : Recog R)
      → IsServing held [] log props s
      → e.start_line.message_type ≡ event
      → method_id e ≡ 1
      → request_id e ≡ request_id held
      → Returns (IsServed log) (state_update ops s e)
  unfolding state_update event_state_update event_of event_method event_recognition_complete
      event_dispatch state_change process_pending
  update-last held e log props s h t m i =
      grind (arith, requests-dispatch_request, requests-dispatch_event, with_cause-type e)

  run-served_by :
      (started complete : Message R → Message R) (held : Message R) (q log : List (Message R))
      (props : MessageHeader R) (s : Recog R)
      → IsEngine 3 1 started complete
      → IsServing held q log props s
      → All IsRecognize q
      → Ends (IsServed (log ++ q)) (run (state_update ops) s (served_by started complete held q))
  run-served_by started complete held [] log props s en h a =
      run-step (IsServed log) (IsServed (log ++ [])) (state_update ops) s (complete held) []
        (update-last held (complete held) log props s h (en.complete_type held)
          (en.complete_method held) (en.complete_id held))
        (λ t k. unfold run in rw (append-nil log) k)
  run-served_by started complete held (p ∷ ps) log props s en h a =
      run-step (IsWaiting p ps (log ++ (p ∷ [])) props) (IsServed (log ++ (p ∷ ps)))
        (state_update ops) s (complete held) (started p ∷ served_by started complete p ps)
        (update_complete held p (complete held) ps log props s h a.0 (en.complete_type held)
          (en.complete_method held) (en.complete_id held))
        (λ t k.
          run-step (IsServing p ps (log ++ (p ∷ [])) props) (IsServed (log ++ (p ∷ ps)))
            (state_update ops) t (started p) (served_by started complete p ps)
            (update-started p (started p) ps (log ++ (p ∷ [])) props t k a.0 (en.started_type p)
              (en.started_method p) (en.started_id p) (en.started_state p))
            (λ u l.
              subst
                (λ r.
                  Ends (IsServed r) (run (state_update ops) u (served_by started complete p ps)))
                (append_assoc log (p ∷ []) ps)
                (run-served_by started complete p ps (log ++ (p ∷ [])) props u en l a.1)))

  run-recognizes :
      (held : Message R) (ms q log rest : List (Message R)) (props : MessageHeader R) (s : Recog R)
      (Q : Recog R → Type 0)
      → IsServing held q log props s
      → All IsRecognize ms
      → ((t : Recog R)
          → IsServing held (q ++ map (queued props) ms) log props t
          → Ends Q (run (state_update ops) t rest))
      → Ends Q (run (state_update ops) s (ms ++ rest))
  run-recognizes held [] q log rest props s Q h a k =
      k s (subst (λ r. IsServing held r log props s) (sym (append-nil q)) h)
  run-recognizes held (m ∷ ms) q log rest props s Q h a k =
      run-step (IsServing held (q ++ (queued props m ∷ [])) log props) Q (state_update ops) s m
        (ms ++ rest) (update-recognize held m q log props s h a.0)
        (λ t l. run-recognizes held ms (q ++ (queued props m ∷ [])) log rest props t Q l a.1 (λ u n.
          k u (
            subst (λ r. IsServing held r log props u)
              (append_assoc q (queued props m ∷ []) (map (queued props) ms)) n)))

  queued-IsRecognize :
      (props : MessageHeader R) (ms : List (Message R))
      → All IsRecognize ms
      → All IsRecognize (map (queued props) ms)
  queued-IsRecognize props [] a = tt
  queued-IsRecognize props (m ∷ ms) a = ((a.0.0, a.0.1), queued-IsRecognize props ms a.1)

  -- An active recognizer that recognizes for a request, with RECOGNIZE requests in its queue and no
  -- pending request or STOP with the engine, reads no null pointer when any RECOGNIZE requests come
  -- and the engine then completes its request, starts and completes the next, and so on
  -- (`served_by`). In the end it is RECOGNIZED with an empty queue, and the requests that it has sent
  -- the engine are those it had sent before, those of the queue, and those that came, each once and in
  -- order, the last with their headers completed from the properties and marked as pending.
  pub run-recognizes-IsServed :
      (started complete : Message R → Message R) (held : Message R) (ms q log : List (Message R))
      (props : MessageHeader R) (s : Recog R)
      → IsEngine 3 1 started complete
      → IsServing held q log props s
      → All IsRecognize q
      → All IsRecognize ms
      → Ends (IsServed (log ++ (q ++ map (queued props) ms))) (
          run
            (state_update ops)
            s
            (ms ++ served_by started complete held (q ++ map (queued props) ms)))
  run-recognizes-IsServed started complete held ms q log props s en h a b =
      let all = q ++ map (queued props) ms in
      run-recognizes held ms q log (served_by started complete held all) props s
        (IsServed (log ++ all)) h b
        (λ t k.
          run-served_by started complete held all log props t en k
            (All-append IsRecognize q (map (queued props) ms) a (queued-IsRecognize props ms b)))

-- ===== src/Synth/Served.antt =====
-- How mrcp_synth_state_machine.c serves the SPEAK requests that come while one is in progress.
use mathlib.Core.Path.{subst}
use mathlib.Core.List.{append-nil, append_assoc}
use unimrcp.Prelude.{
  All-append, ◌≡◌, refl, sym, ap, true, false, none, some, List, [], ◌∷◌, ◌++◌, All, arith, map,
  Bool-cases, inl, inr,
}
use unimrcp.Message.{
  Message, response, event, in_progress, pending, response_create, event_create, vtables_of,
  resource_header_property_check,
}
use unimrcp.MessageHeader.{MessageHeader, fields_inherit}
use unimrcp.StateMachine.{Returns, method_id, request_id, with_request_state}
use unimrcp.StateMachine.Laws.{start_line-resource_header_property_add}
use unimrcp.StateMachine.Runs.{
  run, requests, requests-dispatch_request, requests-dispatch_response, requests-dispatch_event,
  response_create-type, event_create-type, Ends, run-step, IsEngine, served_by,
}
use unimrcp.Synth.{
  idle, SynthResource, Synth, method_of, event_of, is_stopping, request_dispatch, response_dispatch,
  event_dispatch, state_change, process_pending, header_completion_cause,
}
use unimrcp.Synth.Requests.{request_speak}
use unimrcp.Synth.Responses.{response_speak}
use unimrcp.Synth.Events.{event_speak_complete, with_cause}
use unimrcp.Synth.Update.{
  request_method, response_method, event_method, request_state_update, response_state_update,
  event_state_update, state_update,
}
use unimrcp.Synth.Invariant.{IsSpeak}

-- An active machine speaks for `sp`, with a queue, a log of requests and properties.
abbrev pub IsServing :
    {R : Type 0}
    → Message R
    → List (Message R)
    → List (Message R)
    → MessageHeader R
    → Synth R
    → Type 0
IsServing sp q log props s =
    (s.active ≡ true)
    × (s.speaker ≡ some sp)
    × (s.is_pending ≡ false)
    × (is_stopping s.active_request ≡ false)
    × (s.queue ≡ q)
    × (requests s.out ≡ log)
    × (s.properties ≡ props)

-- It waits for the engine's response to the pending request `p`.
abbrev IsWaiting :
    {R : Type 0}
    → Message R
    → List (Message R)
    → List (Message R)
    → MessageHeader R
    → Synth R
    → Type 0
IsWaiting p q log props s =
    (s.active ≡ true)
    × (s.is_pending ≡ true)
    × (s.active_request ≡ some p)
    × (s.queue ≡ q)
    × (requests s.out ≡ log)
    × (s.properties ≡ props)

-- Everything is spoken.
abbrev pub IsServed : {R : Type 0} → List (Message R) → Synth R → Type 0
IsServed log s = (s.state ≡ idle) × (s.speaker ≡ none) × (s.queue ≡ []) × (requests s.out ≡ log)

module _ {R : Type 0} (ops : SynthResource R) where
  -- A SPEAK request as it is queued.
  abbrev pub queued : MessageHeader R → Message R → Message R
  queued props m =
      with_request_state
        (record m { header = fields_inherit (vtables_of ops.resource m) m.header props }) pending

  with_cause-type :
      (m : Message R) → (with_cause ops m).start_line.message_type ≡ m.start_line.message_type
  unfolding with_cause
  with_cause-type m = elim (Bool-cases (resource_header_property_check m header_completion_cause)) [
    | inl e ↦ rw (e, with_cause) refl
    | inr e ↦
        rw (e, with_cause)
          (ap (λ l. l.message_type) (start_line-resource_header_property_add ops.resource _ _))
  ]

  update-speak :
      (sp m : Message R) (q log : List (Message R)) (props : MessageHeader R) (s : Synth R)
      → IsServing sp q log props s
      → IsSpeak m
      → Returns (IsServing sp (q ++ (queued props m ∷ [])) log props) (state_update ops s m)
  unfolding state_update request_state_update method_of request_method request_speak
      response_dispatch response_create is_stopping
  update-speak sp m q log props s h k =
      grind (arith, requests-dispatch_response, response_create-type ops.resource (queued props m))

  update_complete :
      (sp p e : Message R) (q log : List (Message R)) (props : MessageHeader R) (s : Synth R)
      → IsServing sp (p ∷ q) log props s
      → IsSpeak p
      → e.start_line.message_type ≡ event
      → method_id e ≡ 1
      → request_id e ≡ request_id sp
      → Returns (IsWaiting p q (log ++ (p ∷ [])) props) (state_update ops s e)
  unfolding state_update event_state_update event_of event_method event_speak_complete
      event_dispatch state_change request_dispatch
  update_complete sp p e q log props s h k t m i =
      grind (arith, requests-dispatch_request, requests-dispatch_event, with_cause-type e)

  update-started :
      (p r : Message R) (q log : List (Message R)) (props : MessageHeader R) (s : Synth R)
      → IsWaiting p q log props s
      → IsSpeak p
      → r.start_line.message_type ≡ response
      → method_id r ≡ 2
      → request_id r ≡ request_id p
      → r.start_line.request_state ≡ in_progress
      → Returns (IsServing p q log props) (state_update ops s r)
  unfolding state_update response_state_update method_of response_method response_speak
      event_dispatch event_create state_change is_stopping
  update-started p r q log props s h k t m i st =
      grind (arith, requests-dispatch_event, event_create-type ops.resource p 0)

  update-last :
      (sp e : Message R) (log : List (Message R)) (props : MessageHeader R) (s : Synth R)
      → IsServing sp [] log props s
      → e.start_line.message_type ≡ event
      → method_id e ≡ 1
      → request_id e ≡ request_id sp
      → Returns (IsServed log) (state_update ops s e)
  unfolding state_update event_state_update event_of event_method event_speak_complete
      event_dispatch state_change process_pending
  update-last sp e log props s h t m i =
      grind (arith, requests-dispatch_request, requests-dispatch_event, with_cause-type e)

  run-served_by :
      (started complete : Message R → Message R) (sp : Message R) (q log : List (Message R))
      (props : MessageHeader R) (s : Synth R)
      → IsEngine 2 1 started complete
      → IsServing sp q log props s
      → All IsSpeak q
      → Ends (IsServed (log ++ q)) (run (state_update ops) s (served_by started complete sp q))
  run-served_by started complete sp [] log props s en h a =
      run-step (IsServed log) (IsServed (log ++ [])) (state_update ops) s (complete sp) []
        (update-last sp (complete sp) log props s h (en.complete_type sp) (en.complete_method sp)
          (en.complete_id sp))
        (λ t k. unfold run in rw (append-nil log) k)
  run-served_by started complete sp (p ∷ ps) log props s en h a =
      run-step (IsWaiting p ps (log ++ (p ∷ [])) props) (IsServed (log ++ (p ∷ ps)))
        (state_update ops) s (complete sp) (started p ∷ served_by started complete p ps)
        (update_complete sp p (complete sp) ps log props s h a.0 (en.complete_type sp)
          (en.complete_method sp) (en.complete_id sp))
        (λ t k.
          run-step (IsServing p ps (log ++ (p ∷ [])) props) (IsServed (log ++ (p ∷ ps)))
            (state_update ops) t (started p) (served_by started complete p ps)
            (update-started p (started p) ps (log ++ (p ∷ [])) props t k a.0 (en.started_type p)
              (en.started_method p) (en.started_id p) (en.started_state p))
            (λ u l.
              subst
                (λ r.
                  Ends (IsServed r) (run (state_update ops) u (served_by started complete p ps)))
                (append_assoc log (p ∷ []) ps)
                (run-served_by started complete p ps (log ++ (p ∷ [])) props u en l a.1)))

  run-speaks :
      (sp : Message R) (ms q log rest : List (Message R)) (props : MessageHeader R) (s : Synth R)
      (Q : Synth R → Type 0)
      → IsServing sp q log props s
      → All IsSpeak ms
      → ((t : Synth R)
          → IsServing sp (q ++ map (queued props) ms) log props t
          → Ends Q (run (state_update ops) t rest))
      → Ends Q (run (state_update ops) s (ms ++ rest))
  run-speaks sp [] q log rest props s Q h a k =
      k s (subst (λ r. IsServing sp r log props s) (sym (append-nil q)) h)
  run-speaks sp (m ∷ ms) q log rest props s Q h a k =
      run-step (IsServing sp (q ++ (queued props m ∷ [])) log props) Q (state_update ops) s m
        (ms ++ rest) (update-speak sp m q log props s h a.0)
        (λ t l. run-speaks sp ms (q ++ (queued props m ∷ [])) log rest props t Q l a.1 (λ u n. k u (
          subst (λ r. IsServing sp r log props u)
            (append_assoc q (queued props m ∷ []) (map (queued props) ms)) n)))

  queued-IsSpeak :
      (props : MessageHeader R) (ms : List (Message R))
      → All IsSpeak ms
      → All IsSpeak (map (queued props) ms)
  queued-IsSpeak props [] a = tt
  queued-IsSpeak props (m ∷ ms) a = ((a.0.0, a.0.1), queued-IsSpeak props ms a.1)

  -- An active synthesizer that speaks for a request, with SPEAK requests in its queue and no pending
  -- request, STOP or BARGE-IN-OCCURRED with the engine, reads no null pointer when any SPEAK requests
  -- come and the engine then completes its request, starts and completes the next, and so on
  -- (`served_by`). In the end it is idle with an empty queue, and the requests that it has sent the
  -- engine are those it had sent before, those of the queue, and those that came, each once and in
  -- order, the last with their headers completed from the properties and marked as pending.
  pub run-speaks-IsServed :
      (started complete : Message R → Message R) (sp : Message R) (ms q log : List (Message R))
      (props : MessageHeader R) (s : Synth R)
      → IsEngine 2 1 started complete
      → IsServing sp q log props s
      → All IsSpeak q
      → All IsSpeak ms
      → Ends (IsServed (log ++ (q ++ map (queued props) ms))) (
          run
            (state_update ops)
            s
            (ms ++ served_by started complete sp (q ++ map (queued props) ms)))
  run-speaks-IsServed started complete sp ms q log props s en h a b =
      let all = q ++ map (queued props) ms in
      run-speaks sp ms q log (served_by started complete sp all) props s (IsServed (log ++ all)) h b
        (λ t k.
          run-served_by started complete sp all log props t en k
            (All-append IsSpeak q (map (queued props) ms) a (queued-IsSpeak props ms b)))

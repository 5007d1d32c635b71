-- ===== src/Synth/Fixture.antt =====
-- Concrete synthesizer state machines for the tests.
use unimrcp.Prelude.{ℕ, true, false, none, some, [], ◌∷◌}
use unimrcp.Message.{Message, version_2, request}
use unimrcp.StateMachine.Fixture.{vtables, resource, no_fields, with_id_list, message}
use unimrcp.Synth.{idle, speaking, SynthResource, Synth, create_machine}

abbrev pub ops : SynthResource ℕ
ops = record {
  resource = resource;
  kill_on_barge_in = λ r. true;
  with_completion_cause = λ r cause. cause;
}

abbrev pub fresh : Synth ℕ
fresh = create_machine ops version_2

-- Request 1 is spoken, 2 and 3 wait.
abbrev pub busy : Synth ℕ
busy = record {
  active = true;
  out = [];
  state = speaking;
  is_pending = false;
  active_request = none;
  speaker = some (message request 2 1 0);
  queue = message request 2 2 0 ∷ message request 2 3 0 ∷ [];
  properties = no_fields;
  properties_vtables = vtables;
}

-- A STOP of request 2 waits for its response.
abbrev pub selective_stop : Message ℕ
selective_stop = record (message request 3 4 0) { header = with_id_list (2 ∷ []) }

abbrev pub stopping : Synth ℕ
stopping = record busy { active_request = some selective_stop }

-- Request 1 is complete, and request 2 waits for the engine.
abbrev pub waiting : Synth ℕ
waiting = record busy {
  state = idle;
  speaker = none;
  is_pending = true;
  active_request = some (message request 2 2 0);
  queue = [];
}

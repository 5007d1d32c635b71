-- ===== src/StateMachine/Fixture.antt =====
-- A concrete resource and concrete messages for the tests of the state machines. The data of its
-- resource header is a number, as of a completion cause.
use unimrcp.Prelude.{ℕ, ◌+◌, true, none, some, [], ◌∷◌, Option, List, replicate}
use unimrcp.GenericHeader
use unimrcp.GenericHeader.{GenericHeader}
use unimrcp.HeaderSection.{Str}
use unimrcp.MessageHeader.{Vtables, MessageHeader}
use unimrcp.Message.{Message, MessageType, Resource, version_2, complete}
use unimrcp.StateMachine.{Outcome}

abbrev generic_value : Option GenericHeader → ℕ → Option Str
generic_value none id = none
generic_value (some g) id = some g.active_request_id_list

abbrev resource_value : Option ℕ → ℕ → Option Str
resource_value none id = none
resource_value (some cause) id = some ((48 + cause) ∷ [])

abbrev pub vtables : Vtables ℕ
vtables = record {
  generic = record {
    allocate = GenericHeader.init;
    generate_field = generic_value;
    duplicate_field = λ d src id v. (src, true);
    field_name = λ id. none;
    field_count = 16;
  };
  resource = record {
    allocate = 0;
    generate_field = resource_value;
    duplicate_field = λ d src id v. (src, true);
    field_name = λ id. none;
    field_count = 24;
  };
}

abbrev pub resource : Resource ℕ
resource = record {
  name = [];
  method_names = λ v. [];
  event_names = λ v. [];
  vtables = λ v. vtables;
}

-- Header data without any field set.
abbrev pub no_fields : MessageHeader ℕ
no_fields = record {
  generic = some GenericHeader.init;
  resource = some 0;
  section = record { ring = []; arr = replicate 40 none };
}

-- A header that has a generic Active-Request-Id-List field.
abbrev pub with_id_list : List ℕ → MessageHeader ℕ
with_id_list ids = record {
  generic = some (record GenericHeader.init { active_request_id_list = ids });
  resource = some 0;
  section = record {
    ring = record { name = []; value = ids; id = 0 } ∷ [];
    arr = some 0 ∷ replicate 39 none;
  };
}

-- A message of a type with a method or event identifier, a request identifier and a status code.
abbrev pub message : MessageType → ℕ → ℕ → ℕ → Message ℕ
message message_type method_id request_id status_code = record {
  start_line = record {
    message_type = message_type;
    version = version_2;
    length = 0;
    request_id = request_id;
    method_name = [];
    method_id = method_id;
    status_code = status_code;
    request_state = complete;
  };
  channel_id = record { session_id = []; resource_name = [] };
  header = no_fields;
  body = [];
}

-- The state after a call, or the given one if the call reads a null pointer.
abbrev pub state_after : {S : Type 0} → Outcome S → S → S
state_after none s = s
state_after (some (s', b)) s = s'

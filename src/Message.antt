-- ===== src/Message.antt =====
-- MRCP messages and how they are created (libs/mrcp/message/include/mrcp_start_line.h and
-- mrcp_message.h, src/mrcp_start_line.c and mrcp_message.c; libs/mrcp/include/mrcp_types.h).
use unimrcp.Prelude.{ℕ, ◌+◌, Bool, true, false, Option, none, some, List, [], get_elem?, not, ◌||◌}
use unimrcp.HeaderSection
use unimrcp.HeaderSection.{Str, HeaderField, field_add, field_check}
use unimrcp.GenericHeader.{GenericHeader, generic_header_count}
use unimrcp.MessageHeader.{MessageHeader, Vtables, header_allocate, value_generate, data_alloc}

pub data MessageType : Type 0 where
  untyped request response event : MessageType

pub data Version : Type 0 where
  unversioned version_1 version_2 : Version

-- MRCP_REQUEST_STATE_UNKNOWN is `unknown`.
pub data RequestState : Type 0 where
  complete in_progress pending unknown : RequestState

-- The numeric codes of `mrcp_status_code_e` that the model uses.
abbrev pub status_code_unknown : ℕ
status_code_unknown = 0

abbrev pub status_code_success : ℕ
status_code_success = 200

abbrev pub status_code_method_not_valid : ℕ
status_code_method_not_valid = 402

-- `mrcp_start_line_t`. A request identifier is a `uint32_t`.
pub record StartLine : Type 0 where
  pub message_type : MessageType
  pub version : Version
  pub length : ℕ
  pub request_id : ℕ
  pub method_name : Str
  pub method_id : ℕ
  pub status_code : ℕ
  pub request_state : RequestState

pub record ChannelId : Type 0 where
  pub session_id : Str
  pub resource_name : Str

-- `mrcp_message_t`. The resource is a parameter of the functions that read it.
pub record Message (R : Type 0) : Type 0 where
  pub start_line : StartLine
  pub channel_id : ChannelId
  pub header : MessageHeader R
  pub body : Str

-- `mrcp_resource_t`: what the messages of one resource share.
pub record Resource (R : Type 0) : Type 0 where
  pub name : Str
  pub method_names : Version → List Str
  pub event_names : Version → List Str
  pub vtables : Version → Vtables R

-- `mrcp_start_line_init` leaves `method_id` as the memory is; every creator below sets it.
unfoldable pub start_line_init : ℕ → StartLine
start_line_init method_id = record {
  message_type = untyped;
  version = unversioned;
  length = 0;
  request_id = 0;
  method_name = [];
  method_id = method_id;
  status_code = status_code_unknown;
  request_state = unknown;
}

unfoldable pub message_create : {R : Type 0} → ℕ → Message R
unfolding start_line_init
message_create method_id = record {
  start_line = start_line_init method_id;
  channel_id = record { session_id = []; resource_name = [] };
  header = record { generic = none; resource = none; section = HeaderSection.init };
  body = [];
}

-- The name found in a table, or the one that the start-line has.
abbrev name_or : Option Str → Str → Str
name_or none old = old
name_or (some name) old = name

abbrev is_found : Option Str → Bool
is_found none = false
is_found (some name) = true

module _ {R : Type 0} (resource : Resource R) where
  -- The entry of the string table for the method of a request or for an event.
  abbrev table_entry : MessageType → Version → ℕ → Option Str
  table_entry request v id = get_elem? (resource.method_names v) id
  table_entry event v id = get_elem? (resource.event_names v) id
  table_entry _ v id = none

  abbrev has_table : MessageType → Bool
  has_table request = true
  has_table event = true
  has_table _ = false

  -- `mrcp_message_resource_set_by_id`: allocates the header data and names the method.
  unfoldable pub resource_set_by_id : Message R → Message R × Bool
  resource_set_by_id m =
      let line = m.start_line in
      let entry = table_entry line.message_type line.version line.method_id in
      (
        record m {
          start_line = record line { method_name = name_or entry line.method_name };
          channel_id = record m.channel_id { resource_name = resource.name };
          header = data_alloc (resource.vtables line.version) m.header;
        },
        not (has_table line.message_type) || is_found entry,
      )

  unfoldable pub request_create : Version → ℕ → Message R
  unfolding message_create resource_set_by_id
  request_create version method_id =
      let m = message_create {R = R} method_id in
      (resource_set_by_id (record m {
        start_line = record m.start_line { message_type = request; version = version };
      })).0

  -- The response to a given request.
  unfoldable pub response_create : Message R → Message R
  unfolding message_create resource_set_by_id
  response_create r =
      let m = message_create {R = R} r.start_line.method_id in
      (resource_set_by_id (record m {
        start_line = record m.start_line {
          message_type = response;
          request_state = complete;
          status_code = status_code_success;
          request_id = r.start_line.request_id;
          version = r.start_line.version;
          method_name = r.start_line.method_name;
        };
        channel_id = r.channel_id;
      })).0

  -- The event of a given request.
  unfoldable pub event_create : Message R → ℕ → Message R
  unfolding message_create resource_set_by_id
  event_create r event_id =
      let m = message_create {R = R} event_id in
      (resource_set_by_id (record m {
        start_line = record m.start_line {
          message_type = event;
          request_id = r.start_line.request_id;
          version = r.start_line.version;
        };
        channel_id = r.channel_id;
      })).0

  -- The vtables of a message's version.
  abbrev pub vtables_of : Message R → Vtables R
  vtables_of m = resource.vtables m.start_line.version

  unfoldable pub generic_header_prepare : Message R → GenericHeader
  unfolding header_allocate
  generic_header_prepare m = header_allocate (vtables_of m).generic m.header.generic

  unfoldable pub resource_header_prepare : Message R → R
  unfolding header_allocate
  resource_header_prepare m = header_allocate (vtables_of m).resource m.header.resource

  -- Links a generated field into the message; nothing is linked if none was generated.
  unfoldable pub section_add : Message R → Option HeaderField → ℕ → Message R × Bool
  section_add m none id = (m, false)
  section_add m (some f) id =
      let (s, done) = field_add m.header.section (record f { id = id }) in
      (record m { header = record m.header { section = s } }, done)

  unfoldable pub generic_header_property_add : Message R → ℕ → Message R × Bool
  unfolding section_add
  generic_header_property_add m id =
      section_add m (value_generate (vtables_of m).generic m.header.generic id false) id

  unfoldable pub resource_header_property_add : Message R → ℕ → Message R × Bool
  unfolding section_add
  resource_header_property_add m id =
      section_add m (value_generate (vtables_of m).resource m.header.resource id false)
        (id + generic_header_count)

abbrev pub generic_header_property_check : {R : Type 0} → Message R → ℕ → Bool
generic_header_property_check m id = field_check m.header.section id

-- The identifier of a resource field is shifted past those of the generic header.
abbrev pub resource_header_property_check : {R : Type 0} → Message R → ℕ → Bool
resource_header_property_check m id = field_check m.header.section (id + generic_header_count)

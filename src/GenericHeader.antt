-- ===== src/GenericHeader.antt =====
-- The generic header of an MRCP message (libs/mrcp/message/include/mrcp_generic_header.h,
-- src/mrcp_generic_header.c) and its list of active request identifiers.
pub mod Laws
pub mod FieldValues
pub mod IdList
pub mod VendorParams
mod Tests
use unimrcp.Prelude.{
  ℕ, Bool, true, false, Option, none, some, List, [], ◌∷◌, ◌++◌, length, leb, ◌==◌, if◌then◌else◌,
}
use unimrcp.HeaderSection.{Str}

-- GENERIC_HEADER_COUNT and the identifier of the field that the state machines write.
abbrev pub generic_header_count : ℕ
generic_header_count = 16

abbrev pub generic_header_active_request_id_list : ℕ
generic_header_active_request_id_list = 0

abbrev pub max_active_request_id_count : ℕ
max_active_request_id_count = 5

-- `mrcp_generic_header_t`. `active_request_id_list` is `ids[0 .. count)` of the fixed array.
pub record GenericHeader : Type 0 where
  pub active_request_id_list : List ℕ
  pub proxy_sync_id : Str
  pub accept_charset : Str
  pub content_type : Str
  pub content_id : Str
  pub content_base : Str
  pub content_encoding : Str
  pub content_location : Str
  pub content_length : ℕ
  pub cache_control : Str
  pub logging_tag : Str
  pub vendor_specific_params : Option (List (Str × Str))
  pub accept : Str
  pub fetch_timeout : ℕ
  pub set_cookie : Str
  pub set_cookie2 : Str

unfoldable pub init : GenericHeader
init = record {
  active_request_id_list = [];
  proxy_sync_id = [];
  accept_charset = [];
  content_type = [];
  content_id = [];
  content_base = [];
  content_encoding = [];
  content_location = [];
  content_length = 0;
  cache_control = [];
  logging_tag = [];
  vendor_specific_params = none;
  accept = [];
  fetch_timeout = 0;
  set_cookie = [];
  set_cookie2 = [];
}

-- A full list refuses the identifier.
unfoldable pub id_list_append : GenericHeader → ℕ → GenericHeader × Bool
id_list_append h id =
    if leb max_active_request_id_count (length h.active_request_id_list)
    then (h, false)
    else (record h { active_request_id_list = h.active_request_id_list ++ (id ∷ []) }, true)

-- The loop of `active_request_id_list_find`.
unfoldable pub ids_find : List ℕ → ℕ → Bool
ids_find [] id = false
ids_find (x ∷ xs) id = let rest = ids_find xs id in if x == id then true else rest

unfoldable pub id_list_find : GenericHeader → ℕ → Bool
unfolding ids_find
id_list_find h id = ids_find h.active_request_id_list id

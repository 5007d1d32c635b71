-- ===== src/GenericHeader/FieldValues.antt =====
-- The fields of the generic header by their identifiers: `mrcp_generic_header_parse`, `_generate` and
-- `_duplicate` of libs/mrcp/message/src/mrcp_generic_header.c. A string that a field points to is the
-- list of its bytes. `print` stands for `apr_snprintf`, `pushed` for what `apr_array_push` leaves in a
-- new element, and `m` for the memory behind a generated text. A
-- field is named by its enumerator, so the switches have no default case.
use unimrcp.Prelude.{ℕ, ◌<◌, ◌^◌, ◌≡◌, ◌≢◌, refl, sym, ap, ◌∙◌, Option, none, some, List, ◌>>=◌}
use unimrcp.HeaderSection.{Str}
use unimrcp.GenericHeader.{GenericHeader}
use unimrcp.GenericHeader.IdList.{request_id_list_parse, request_id_list_generate}
use unimrcp.GenericHeader.VendorParams.{vendor_specific_params_parse}
use unimrcp.TextStream.{TextField, string_copy}
use unimrcp.TextStream.Decimal.{decimal, EndsNumber}
use unimrcp.TextStream.Pairs.{pair_array_generate}
use unimrcp.StartLine.{size_value_parse}
use unimrcp.StartLine.Fields.{field_of, size_value_parse-decimal, string_copy-field_of}

-- `mrcp_generic_header_id`
pub data GenericHeaderId : Type 0 where
  active_request_id_list : GenericHeaderId
  proxy_sync_id : GenericHeaderId
  accept_charset : GenericHeaderId
  content_type : GenericHeaderId
  content_id : GenericHeaderId
  content_base : GenericHeaderId
  content_encoding : GenericHeaderId
  content_location : GenericHeaderId
  content_length : GenericHeaderId
  cache_control : GenericHeaderId
  logging_tag : GenericHeaderId
  vendor_specific_params : GenericHeaderId
  accept : GenericHeaderId
  fetch_timeout : GenericHeaderId
  set_cookie : GenericHeaderId
  set_cookie2 : GenericHeaderId

module _ (pushed : Str × Str) where
  -- The cases of the switch; `none` is a loop that ran out of fuel.
  unfoldable pub generic_header_parse :
      GenericHeader → GenericHeaderId → TextField → Option GenericHeader
  generic_header_parse h active_request_id_list value = some (request_id_list_parse h value)
  generic_header_parse h vendor_specific_params value = vendor_specific_params_parse pushed h value
  generic_header_parse h proxy_sync_id value = some (record h { proxy_sync_id = string_copy value })
  generic_header_parse h accept_charset value =
      some (record h { accept_charset = string_copy value })
  generic_header_parse h content_type value = some (record h { content_type = string_copy value })
  generic_header_parse h content_id value = some (record h { content_id = string_copy value })
  generic_header_parse h content_base value = some (record h { content_base = string_copy value })
  generic_header_parse h content_encoding value =
      some (record h { content_encoding = string_copy value })
  generic_header_parse h content_location value =
      some (record h { content_location = string_copy value })
  generic_header_parse h cache_control value = some (record h { cache_control = string_copy value })
  generic_header_parse h logging_tag value = some (record h { logging_tag = string_copy value })
  generic_header_parse h accept value = some (record h { accept = string_copy value })
  generic_header_parse h set_cookie value = some (record h { set_cookie = string_copy value })
  generic_header_parse h set_cookie2 value = some (record h { set_cookie2 = string_copy value })
  generic_header_parse h content_length value =
      some (record h { content_length = size_value_parse value })
  generic_header_parse h fetch_timeout value =
      some (record h { fetch_timeout = size_value_parse value })

-- The text of the parameters; without an array nothing is written.
abbrev pub params_text : Option (List (Str × Str)) → Str → Option Str
params_text none m = none
params_text (some arr) m = some (string_copy (pair_array_generate arr m))

-- The value that is written, or `none` where it is left as it was.
module _ (print : ℕ → ℕ → Str) (m : Str) where
  unfoldable pub generic_header_generate : GenericHeader → GenericHeaderId → Option Str
  generic_header_generate h active_request_id_list = some (request_id_list_generate print h)
  generic_header_generate h vendor_specific_params = params_text h.vendor_specific_params m
  generic_header_generate h proxy_sync_id = some h.proxy_sync_id
  generic_header_generate h accept_charset = some h.accept_charset
  generic_header_generate h content_type = some h.content_type
  generic_header_generate h content_id = some h.content_id
  generic_header_generate h content_base = some h.content_base
  generic_header_generate h content_encoding = some h.content_encoding
  generic_header_generate h content_location = some h.content_location
  generic_header_generate h cache_control = some h.cache_control
  generic_header_generate h logging_tag = some h.logging_tag
  generic_header_generate h accept = some h.accept
  generic_header_generate h set_cookie = some h.set_cookie
  generic_header_generate h set_cookie2 = some h.set_cookie2
  generic_header_generate h content_length = some (decimal h.content_length)
  generic_header_generate h fetch_timeout = some (decimal h.fetch_timeout)

-- The cases of the switch for headers that are both there.
unfoldable pub generic_header_duplicate :
    GenericHeader → GenericHeader → GenericHeaderId → Str → GenericHeader
generic_header_duplicate h src active_request_id_list value = h
generic_header_duplicate h src vendor_specific_params value = record h {
  vendor_specific_params = src.vendor_specific_params;
}
generic_header_duplicate h src proxy_sync_id value = record h { proxy_sync_id = value }
generic_header_duplicate h src accept_charset value = record h { accept_charset = value }
generic_header_duplicate h src content_type value = record h { content_type = value }
generic_header_duplicate h src content_id value = record h { content_id = value }
generic_header_duplicate h src content_base value = record h { content_base = value }
generic_header_duplicate h src content_encoding value = record h { content_encoding = value }
generic_header_duplicate h src content_location value = record h { content_location = value }
generic_header_duplicate h src cache_control value = record h { cache_control = value }
generic_header_duplicate h src logging_tag value = record h { logging_tag = value }
generic_header_duplicate h src accept value = record h { accept = value }
generic_header_duplicate h src set_cookie value = record h { set_cookie = value }
generic_header_duplicate h src set_cookie2 value = record h { set_cookie2 = value }
generic_header_duplicate h src content_length value = record h {
  content_length = src.content_length;
}
generic_header_duplicate h src fetch_timeout value = record h { fetch_timeout = src.fetch_timeout }

-- A field that is duplicated with the text that the source generates for it generates that text, unless
-- it is the list of active request identifiers.
pub generic_header_generate-generic_header_duplicate :
    (print : ℕ → ℕ → Str) (m : Str) (h src : GenericHeader) (id : GenericHeaderId) (value : Str)
    → id ≢ active_request_id_list
    → generic_header_generate print m src id ≡ some value
    → generic_header_generate print m (generic_header_duplicate h src id value) id ≡ some value
unfolding generic_header_generate generic_header_duplicate
generic_header_generate-generic_header_duplicate print m h src active_request_id_list value n e =
    absurd (n refl)
generic_header_generate-generic_header_duplicate print m h src proxy_sync_id value n e = refl
generic_header_generate-generic_header_duplicate print m h src accept_charset value n e = refl
generic_header_generate-generic_header_duplicate print m h src content_type value n e = refl
generic_header_generate-generic_header_duplicate print m h src content_id value n e = refl
generic_header_generate-generic_header_duplicate print m h src content_base value n e = refl
generic_header_generate-generic_header_duplicate print m h src content_encoding value n e = refl
generic_header_generate-generic_header_duplicate print m h src content_location value n e = refl
generic_header_generate-generic_header_duplicate print m h src cache_control value n e = refl
generic_header_generate-generic_header_duplicate print m h src logging_tag value n e = refl
generic_header_generate-generic_header_duplicate print m h src accept value n e = refl
generic_header_generate-generic_header_duplicate print m h src set_cookie value n e = refl
generic_header_generate-generic_header_duplicate print m h src set_cookie2 value n e = refl
generic_header_generate-generic_header_duplicate print m h src content_length value n e = e
generic_header_generate-generic_header_duplicate print m h src fetch_timeout value n e = e
generic_header_generate-generic_header_duplicate print m h src vendor_specific_params value n e = e

-- A number is printed again as it was read.
decimal-size_value_parse :
    (n : ℕ) (value r : Str)
    → n < 2 ^ 63
    → EndsNumber r
    → some (decimal n) ≡ some value
    → decimal (size_value_parse (field_of value r)) ≡ value
decimal-size_value_parse n value r h d e =
    let same : decimal n ≡ value = cc in
    ap (λ v. decimal (size_value_parse (field_of v r))) (sym same)
    ∙ ap decimal (size_value_parse-decimal n r h d)
    ∙ same

-- For every field but the two lists: a header that reads the text that another one generates for the
-- field, generates that text for it, when the two numbers are below 2 ^ 63 and what follows the text in
-- memory does not start with a digit.
pub generic_header_parse-generic_header_generate :
    (pushed : Str × Str) (print : ℕ → ℕ → Str) (m : Str) (g src : GenericHeader)
    (id : GenericHeaderId) (value r : Str)
    → id ≢ active_request_id_list
    → id ≢ vendor_specific_params
    → src.content_length < 2 ^ 63
    → src.fetch_timeout < 2 ^ 63
    → EndsNumber r
    → generic_header_generate print m src id ≡ some value
    → (do
      g' ← generic_header_parse pushed g id (field_of value r)
      generic_header_generate print m g' id)
      ≡ some value
unfolding generic_header_parse generic_header_generate
generic_header_parse-generic_header_generate pushed print m g src active_request_id_list value r
      list params cl ft d e =
    absurd (list refl)
generic_header_parse-generic_header_generate pushed print m g src vendor_specific_params value r
      list params cl ft d e =
    absurd (params refl)
generic_header_parse-generic_header_generate pushed print m g src proxy_sync_id value r list params
      cl ft d e =
    ap some (string_copy-field_of value r)
generic_header_parse-generic_header_generate pushed print m g src accept_charset value r list params
      cl ft d e =
    ap some (string_copy-field_of value r)
generic_header_parse-generic_header_generate pushed print m g src content_type value r list params
      cl ft d e =
    ap some (string_copy-field_of value r)
generic_header_parse-generic_header_generate pushed print m g src content_id value r list params cl
      ft d e =
    ap some (string_copy-field_of value r)
generic_header_parse-generic_header_generate pushed print m g src content_base value r list params
      cl ft d e =
    ap some (string_copy-field_of value r)
generic_header_parse-generic_header_generate pushed print m g src content_encoding value r list
      params cl ft d e =
    ap some (string_copy-field_of value r)
generic_header_parse-generic_header_generate pushed print m g src content_location value r list
      params cl ft d e =
    ap some (string_copy-field_of value r)
generic_header_parse-generic_header_generate pushed print m g src cache_control value r list params
      cl ft d e =
    ap some (string_copy-field_of value r)
generic_header_parse-generic_header_generate pushed print m g src logging_tag value r list params cl
      ft d e =
    ap some (string_copy-field_of value r)
generic_header_parse-generic_header_generate pushed print m g src accept value r list params cl ft d
      e =
    ap some (string_copy-field_of value r)
generic_header_parse-generic_header_generate pushed print m g src set_cookie value r list params cl
      ft d e =
    ap some (string_copy-field_of value r)
generic_header_parse-generic_header_generate pushed print m g src set_cookie2 value r list params cl
      ft d e =
    ap some (string_copy-field_of value r)
generic_header_parse-generic_header_generate pushed print m g src content_length value r list params
      cl ft d e =
    ap some (decimal-size_value_parse src.content_length value r cl d e)
generic_header_parse-generic_header_generate pushed print m g src fetch_timeout value r list params
      cl ft d e =
    ap some (decimal-size_value_parse src.fetch_timeout value r ft d e)

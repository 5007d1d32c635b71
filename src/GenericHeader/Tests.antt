-- ===== src/GenericHeader/Tests.antt =====
-- Witnesses for the texts of the identifier list and of the vendor-specific parameters.
use unimrcp.Prelude.{◌≢◌, ◌>>=◌, ℕ, ◌<◌, ◌≡◌, refl, List, [], ◌∷◌, length, arith, All, some}
use unimrcp.HeaderSection.{Str}
use unimrcp.GenericHeader.{GenericHeader}
use unimrcp.GenericHeader
use unimrcp.GenericHeader.FieldValues.{
  GenericHeaderId, generic_header_parse, generic_header_generate, generic_header_duplicate,
  generic_header_parse-generic_header_generate, generic_header_generate-generic_header_duplicate,
}
use unimrcp.GenericHeader.IdList.{
  request_id_list_parse, request_id_list_generate, digit_count,
  request_id_list_parse-request_id_list_generate, request_id_list_generate-truncates,
}
use unimrcp.GenericHeader.VendorParams.{
  IsPair, vendor_specific_params_parse, vendor_specific_params_parse-pair_array_generate,
}
use unimrcp.TextStream.{codes, field_read, spaces_skip, field_scan, advance, run_length, stream_of}
use unimrcp.TextStream.Pairs.{pair_array_generate, pair_array_parse, pairs_parse, pair_parse}
use unimrcp.TextStream.Decimal.{decimal, decimal_from}
use unimrcp.TextStream.Fixture.{print_cut, print_cut-Prints}
use unimrcp.StartLine.Fields.{field_of}

abbrev header : List ℕ → GenericHeader
unfolding GenericHeader.init
header ids = record GenericHeader.init { active_request_id_list = ids }

short : digit_count (17 ∷ 4294967295 ∷ []) < 20
unfolding decimal decimal_from
short = omega arith

request_id_list_parse-request_id_list_generate_example :
    (request_id_list_parse (header []) (
      field_of
        (request_id_list_generate print_cut (header (17 ∷ 4294967295 ∷ [])))
        [])).active_request_id_list
    ≡ 17 ∷ 4294967295 ∷ []
unfolding header
request_id_list_parse-request_id_list_generate_example =
    request_id_list_parse-request_id_list_generate print_cut (header (17 ∷ 4294967295 ∷ []))
      (header []) [] print_cut-Prints (omega arith) (omega arith, (omega arith, tt)) (omega arith)
      short tt

request_id_list_generate-truncates_example :
    length (request_id_list_generate print_cut (header (4294967295 ∷ [])))
    < length (decimal 4294967295)
unfolding header
request_id_list_generate-truncates_example =
    request_id_list_generate-truncates print_cut (header (4294967295 ∷ [])) 4294967295
      print_cut-Prints refl (omega arith) (omega arith)

abbrev pairs : List (Str × Str)
pairs = (codes "a", codes "1") ∷ (codes "b", []) ∷ []

pairs-IsPair : All IsPair pairs
pairs-IsPair = (
  (((refl, tt), refl), ((refl, tt), refl), ((refl, tt), refl)),
  ((((refl, tt), refl), ((refl, tt), refl), tt), tt),
)

-- What a text with an empty field between two pairs gives.
empty_field_stops :
    vendor_specific_params_parse
      ([], [])
      (header [])
      (record { buf = codes "a=1;;b=2"; length = 8 })
    ≡ some (record (header []) { vendor_specific_params = some ((codes "a", codes "1") ∷ []) })
unfolding vendor_specific_params_parse pair_array_parse pairs_parse pair_parse field_read
    spaces_skip field_scan advance run_length stream_of header
empty_field_stops = refl

vendor_specific_params_parse-pair_array_generate_example :
    vendor_specific_params_parse ([], []) (header []) (pair_array_generate pairs [])
    ≡ some (record (header []) { vendor_specific_params = some pairs })
unfolding header
vendor_specific_params_parse-pair_array_generate_example =
    vendor_specific_params_parse-pair_array_generate ([], []) (header []) pairs [] pairs-IsPair

abbrev sized : GenericHeader
unfolding GenericHeader.init
sized = record GenericHeader.init { content_length = 42 }

generic_header_parse-generic_header_generate_example :
    (do
      g ←
          generic_header_parse
            ([], [])
            (header [])
            GenericHeaderId.content_length
            (field_of (codes "42") [])
      generic_header_generate print_cut [] g GenericHeaderId.content_length)
    ≡ some (codes "42")
unfolding header sized generic_header_generate decimal decimal_from
generic_header_parse-generic_header_generate_example =
    generic_header_parse-generic_header_generate ([], []) print_cut [] (header []) sized
      GenericHeaderId.content_length (codes "42") [] (λ e. cc) (λ e. cc) (omega arith) (omega arith)
      tt refl

sized-not_list : GenericHeaderId.content_length ≢ GenericHeaderId.active_request_id_list
sized-not_list e = cc

generic_header_generate-generic_header_duplicate_example :
    generic_header_generate print_cut []
      (generic_header_duplicate (header []) sized GenericHeaderId.content_length (codes "42"))
      GenericHeaderId.content_length
    ≡ some (codes "42")
unfolding header sized generic_header_generate decimal decimal_from
generic_header_generate-generic_header_duplicate_example =
    generic_header_generate-generic_header_duplicate print_cut [] (header []) sized
      GenericHeaderId.content_length (codes "42") sized-not_list refl

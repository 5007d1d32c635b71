-- ===== src/TextMessage/Tests.antt =====
-- Witnesses for header sections in text.
use unimrcp.Prelude.{◌≡◌, Bool, true, false, some, List, [], ◌∷◌, ◌++◌, All, arith}
use unimrcp.HeaderSection.{Str, HeaderField, HeaderSection, unknown_header_field_id}
use unimrcp.TextStream.{TextStream, codes}
use unimrcp.TextStream.Fields.{at}
use unimrcp.TextStream.Fixture.{buffer}
use unimrcp.TextMessage.{header_section_parse, header_section_generate}
use unimrcp.TextMessage.Laws.{header_section_parse-returns}
use unimrcp.TextMessage.RoundTrip.{IsField, header_section_parse-header_section_generate}

abbrev fields : List HeaderField
fields =
    record {
      name = codes "Channel-Identifier";
      value = codes "32AE@speechsynth";
      id = unknown_header_field_id;
    }
    ∷ record { name = codes "Speech-Language"; value = []; id = unknown_header_field_id }
    ∷ []

abbrev sections : HeaderSection
sections = record { ring = fields; arr = [] }

abbrev empty_section : HeaderSection
empty_section = record { ring = []; arr = [] }

fields-IsField : All IsField fields
fields-IsField = ground arith

header_section_parse-header_section_generate_example :
    (t : TextStream) × (text : Str) × (header_section_generate sections (buffer 100)
      ≡ some (t, true))
    × (t.before ≡ [] ++ text)
    × (header_section_parse empty_section (at [] (text ++ codes "body") [] false)
        ≡ some (record empty_section { ring = fields }, at text (codes "body") [] false, true))
header_section_parse-header_section_generate_example =
    header_section_parse-header_section_generate sections empty_section (buffer 100) []
      (codes "body") [] fields-IsField (omega arith) (omega arith)

header_section_parse-returns_example :
    (g : HeaderSection) × (t : TextStream) × (ok : Bool) × (header_section_parse empty_section
        (at [] (codes "a: b") [] false)
      ≡ some (g, t, ok))
header_section_parse-returns_example =
    header_section_parse-returns empty_section (at [] (codes "a: b") [] false)

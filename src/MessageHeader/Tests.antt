-- ===== src/MessageHeader/Tests.antt =====
-- Inheriting at a concrete header.
use mathlib.Core.List.{Memᴰ}
use unimrcp.Prelude.{ℕ, ◌≡◌, refl, true, some, none, [], ◌∷◌, replicate, inl, arith}
use unimrcp.HeaderSection.{HeaderField, field_get, field_check}
use unimrcp.GenericHeader.{init}
use unimrcp.MessageHeader.{Vtables, MessageHeader, fields_inherit}
use unimrcp.MessageHeader.Inherit.{fields_inherit-keeps, fields_inherit-sets}

abbrev vtables : Vtables ℕ
vtables = record {
  generic = record {
    allocate = init;
    generate_field = λ d id. none;
    duplicate_field = λ d src id v. (src, true);
    field_name = λ id. none;
    field_count = 16;
  };
  resource = record {
    allocate = 0;
    generate_field = λ d id. none;
    duplicate_field = λ d src id v. (src, true);
    field_name = λ id. none;
    field_count = 2;
  };
}

abbrev own : HeaderField
own = record { name = []; value = 1 ∷ []; id = 0 }

abbrev inherited : HeaderField
inherited = record { name = []; value = 2 ∷ []; id = 17 }

-- The header has a field 0; the properties have a field 17.
abbrev header : MessageHeader ℕ
header = record {
  generic = some init;
  resource = some 0;
  section = record { ring = own ∷ []; arr = some 0 ∷ replicate 17 none };
}

abbrev properties : MessageHeader ℕ
properties = record {
  generic = some init;
  resource = some 1;
  section = record { ring = inherited ∷ []; arr = replicate 18 none };
}

fields_inherit-keeps_example :
    field_get (fields_inherit vtables header properties).section 0 ≡ some own
unfolding field_get
fields_inherit-keeps_example = fields_inherit-keeps vtables header properties 0 {g = own} refl

fields_inherit-sets_example :
    field_check (fields_inherit vtables header properties).section 17 ≡ true
fields_inherit-sets_example =
    fields_inherit-sets vtables header properties inherited (inl (Memᴰ.head refl)) (omega arith)

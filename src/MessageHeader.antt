-- ===== src/MessageHeader.antt =====
-- The header of an MRCP message (libs/mrcp/message/src/mrcp_header.c and
-- mrcp_header_accessor.c): the generic and the resource header data, and the header section that
-- both share.
pub mod Inherit
mod Tests
use unimrcp.Prelude.{ℕ, ◌+◌, ◌-◌, Bool, true, Option, none, some, List, [], ◌∷◌, ltb, if◌then◌else◌}
use unimrcp.HeaderSection
use unimrcp.HeaderSection.{
  Str, HeaderField, HeaderSection, array_alloc, field_get, field_add, value_write, field_alloc,
}
use unimrcp.GenericHeader.{GenericHeader, generic_header_count}

-- `mrcp_header_vtable_t`, an interface of function pointers. `D` is the header data; an accessor
-- that holds no data passes `none`.
pub record HeaderVtable (D : Type 0) : Type 0 where
  pub allocate : D
  pub generate_field : Option D → ℕ → Option Str
  pub duplicate_field : Option D → Option D → ℕ → Str → Option D × Bool
  pub field_name : ℕ → Option Str
  pub field_count : ℕ

-- The vtables that a version of the protocol selects for a message of a resource.
pub record Vtables (R : Type 0) : Type 0 where
  pub generic : HeaderVtable GenericHeader
  pub resource : HeaderVtable R

-- `mrcp_message_header_t`: the data of both accessors and the header section.
pub record MessageHeader (R : Type 0) : Type 0 where
  pub generic : Option GenericHeader
  pub resource : Option R
  pub section : HeaderSection

-- The new field of `mrcp_header_field_value_generate`, named if the table has the identifier.
unfoldable pub field_named : Option Str → HeaderField
field_named none = field_alloc
field_named (some n) = record field_alloc { name = n }

module _ {D : Type 0} (vtable : HeaderVtable D) where
  -- Allocates unless there is data already.
  unfoldable pub header_allocate : Option D → D
  header_allocate none = vtable.allocate
  header_allocate (some d) = d

  unfoldable pub value_generate : Option D → ℕ → Bool → Option HeaderField
  unfolding field_named
  value_generate d id empty_value =
      let named = field_named (vtable.field_name id) in
      if empty_value then some named else elim (vtable.generate_field d id) [
        | none ↦ none
        | some v ↦ some (record named { value = v })
      ]

  -- An empty value is not duplicated.
  unfoldable pub value_duplicate : Option D → Option D → ℕ → Str → Option D × Bool
  value_duplicate d src id [] = (d, true)
  value_duplicate d src id (c ∷ cs) = vtable.duplicate_field d src id (c ∷ cs)

module _ {R : Type 0} (vt : Vtables R) where
  unfoldable pub data_alloc : MessageHeader R → MessageHeader R
  unfolding header_allocate
  data_alloc h = record {
    generic = some (header_allocate vt.generic none);
    resource = some (header_allocate vt.resource none);
    section = (array_alloc h.section (vt.generic.field_count + vt.resource.field_count)).0;
  }

  unfoldable pub create : MessageHeader R
  unfolding data_alloc
  create = data_alloc (record { generic = none; resource = none; section = HeaderSection.init })

  -- `mrcp_header_accessor_value_duplicate`: the identifier picks the accessor.
  unfoldable pub accessor_value_duplicate :
      MessageHeader R → HeaderField → MessageHeader R → MessageHeader R
  accessor_value_duplicate h f src =
      if ltb f.id generic_header_count
      then record h { generic = (value_duplicate vt.generic h.generic src.generic f.id f.value).0 }
      else record h {
        resource =
            (value_duplicate vt.resource h.resource src.resource (f.id - generic_header_count)
              f.value).0;
      }

  -- One round of the loop of `mrcp_header_fields_set`.
  unfoldable pub field_set_from : MessageHeader R → MessageHeader R → HeaderField → MessageHeader R
  unfolding accessor_value_duplicate
  field_set_from src h f = elim (field_get h.section f.id) [
    | some old ↦
        accessor_value_duplicate (record h { section = value_write h.section f.id f.value })
          (record old { value = f.value }) src
    | none ↦ accessor_value_duplicate (record h { section = (field_add h.section f).0 }) f src
  ]

  unfoldable pub set_loop : MessageHeader R → MessageHeader R → List HeaderField → MessageHeader R
  unfolding field_set_from
  set_loop src h [] = h
  set_loop src h (f ∷ fs) = set_loop src (field_set_from src h f) fs

  unfoldable pub fields_set : MessageHeader R → MessageHeader R → MessageHeader R
  unfolding set_loop
  fields_set h src = set_loop src h src.section.ring

  -- One round of the loop of `mrcp_header_fields_get`; `f` is the field of the mask.
  unfoldable pub field_get_from : MessageHeader R → MessageHeader R → HeaderField → MessageHeader R
  unfolding accessor_value_duplicate
  field_get_from src h f = elim (field_get h.section f.id) [
    | some old ↦ h
    | none ↦ elim (field_get src.section f.id) [
      | some found ↦
          let h' = accessor_value_duplicate h found src in
          record h' { section = (field_add h'.section found).0 }
      | none ↦ record h { section = (field_add h.section f).0 }
    ]
  ]

  unfoldable pub get_loop : MessageHeader R → MessageHeader R → List HeaderField → MessageHeader R
  unfolding field_get_from
  get_loop src h [] = h
  get_loop src h (f ∷ fs) = get_loop src (field_get_from src h f) fs

  unfoldable pub fields_get : MessageHeader R → MessageHeader R → MessageHeader R → MessageHeader R
  unfolding get_loop
  fields_get h src mask = get_loop src h mask.section.ring

  -- One round of the loop of `mrcp_header_fields_inherit`.
  unfoldable pub field_inherit_from :
      MessageHeader R → MessageHeader R → HeaderField → MessageHeader R
  unfolding accessor_value_duplicate
  field_inherit_from src h f = elim (field_get h.section f.id) [
    | some old ↦ h
    | none ↦
        let h' = accessor_value_duplicate h f src in
        record h' { section = (field_add h'.section f).0 }
  ]

  unfoldable pub inherit_loop :
      MessageHeader R → MessageHeader R → List HeaderField → MessageHeader R
  unfolding field_inherit_from
  inherit_loop src h [] = h
  inherit_loop src h (f ∷ fs) = inherit_loop src (field_inherit_from src h f) fs

  unfoldable pub fields_inherit : MessageHeader R → MessageHeader R → MessageHeader R
  unfolding inherit_loop
  fields_inherit h src = inherit_loop src h src.section.ring

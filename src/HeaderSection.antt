-- ===== src/HeaderSection.antt =====
-- The header section of libs/apr-toolkit (include/apt_header_field.h, src/apt_header_field.c): a
-- ring of header fields, and an array of pointers into it by numeric identifier. A field is named
-- by its position in the ring, so that a write through the array is seen in the ring, as in C.
-- Fields are never removed here, so positions stay valid.
pub mod Laws
use unimrcp.Prelude.{
  ℕ, zero, suc, ◌-◌, ◌^◌, Bool, true, false, Option, none, some, List, [], ◌∷◌, ◌++◌, length,
  get_elem?, set, replicate, ltb, if◌then◌else◌,
}

-- The bytes of an `apt_str_t`; the empty string is the empty list.
abbrev pub Str : Type 0
Str = List ℕ

-- `apt_header_field_t`, the link of the ring left out.
pub record HeaderField : Type 0 where
  pub name : Str
  pub value : Str
  pub id : ℕ

-- `(apr_size_t)-1`
abbrev pub unknown_header_field_id : ℕ
unknown_header_field_id = 2 ^ 64 - 1

unfoldable pub field_alloc : HeaderField
field_alloc = record { name = []; value = []; id = unknown_header_field_id }

-- `apt_header_section_t`: `arr` holds the position in `ring` of the field with each identifier;
-- its length is `arr_size`.
pub record HeaderSection : Type 0 where
  pub ring : List HeaderField
  pub arr : List (Option ℕ)

unfoldable pub init : HeaderSection
init = record { ring = []; arr = [] }

unfoldable pub array_alloc : HeaderSection → ℕ → HeaderSection × Bool
array_alloc h zero = (h, false)
array_alloc h (suc n) = (record h { arr = replicate (suc n) none }, true)

-- What `arr[id]` points to; `none` past `arr_size` and for a null pointer.
abbrev pub pointer : HeaderSection → ℕ → Option ℕ
pointer h id = elim (get_elem? h.arr id) [ none ↦ none | some p ↦ p ]

unfoldable pub field_get : HeaderSection → ℕ → Option HeaderField
field_get h id = elim (pointer h id) [ none ↦ none | some pos ↦ get_elem? h.ring pos ]

unfoldable pub field_check : HeaderSection → ℕ → Bool
field_check h id = elim (pointer h id) [ none ↦ false | some pos ↦ true ]

-- A field with an identifier that is already set is refused; one with an identifier past the
-- array is only linked into the ring.
unfoldable pub field_add : HeaderSection → HeaderField → HeaderSection × Bool
field_add h f =
    if ltb f.id (length h.arr)
    then elim (pointer h f.id) [
      | some pos ↦ (h, false)
      | none ↦
          (record { ring = h.ring ++ (f ∷ []); arr = set h.arr f.id (some (length h.ring)) }, true)
    ]
    else (record h { ring = h.ring ++ (f ∷ []) }, true)

-- `apt_string_copy(&header_field->value, ...)` through the pointer `arr[id]`.
unfoldable pub value_write : HeaderSection → ℕ → Str → HeaderSection
value_write h id v = elim (pointer h id) [
  | none ↦ h
  | some pos ↦ elim (get_elem? h.ring pos) [
    | none ↦ h
    | some f ↦ record h { ring = set h.ring pos (record f { value = v }) }
  ]
]

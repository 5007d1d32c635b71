-- ===== src/HeaderSection/Laws.antt =====
-- The addition of a field in apt_header_field.c.
use unimrcp.Prelude.{
  ℕ, ◌<◌, ◌≡◌, true, false, some, length, get_elem?, arith, lt-length_of_get_elem?, Option-cases,
  inl, inr,
}
use unimrcp.HeaderSection.{HeaderField, HeaderSection, field_check, field_add, pointer}

-- A set identifier lies within the array.
lt_of_pointer : (h : HeaderSection) (id : ℕ) {p : ℕ} → pointer h id ≡ some p → id < length h.arr
lt_of_pointer h id e = elim (Option-cases (get_elem? h.arr id)) [
  | inl n ↦ absurd (ground arith)
  | inr (q, n) ↦ lt-length_of_get_elem? h.arr id n
]

-- A field whose identifier is already set is refused, and the section stays as it is.
pub field_add_refused :
    (h : HeaderSection) (f : HeaderField) → field_check h f.id ≡ true → field_add h f ≡ (h, false)
unfolding field_check field_add
field_add_refused h f c = elim (Option-cases (pointer h f.id)) [
  | inl n ↦ ground arith
  | inr (p, n) ↦ ground (arith, lt_of_pointer h f.id n)
]

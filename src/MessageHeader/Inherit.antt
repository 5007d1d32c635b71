-- ===== src/MessageHeader/Inherit.antt =====
-- `mrcp_header_fields_inherit` of mrcp_header.c.
use mathlib.Core.Path.{subst}
use mathlib.Core.List.{Memᴰ}
use unimrcp.Prelude.{
  ℕ, zero, suc, ◌≢◌, ◌⊎◌, ◌<◌, ◌≡◌, refl, sym, ap, ◌∙◌, true, some, List, [], ◌∷◌, ◌++◌, length,
  get_elem?, set, arith, Option-cases, inl, inr, length-set,
}
use unimrcp.HeaderSection.{HeaderField, HeaderSection, pointer, field_get, field_check, field_add}
use unimrcp.MessageHeader.{
  MessageHeader, Vtables, accessor_value_duplicate, field_inherit_from, inherit_loop,
  fields_inherit,
}

get_elem?-append :
    {A : Type 0} (xs ys : List A) (i : ℕ) {x : A}
    → get_elem? xs i ≡ some x
    → get_elem? (xs ++ ys) i ≡ some x
get_elem?-append [] ys i h = absurd (ground (arith, h))
get_elem?-append (x ∷ xs) ys zero h = h
get_elem?-append (x ∷ xs) ys (suc i) h = get_elem?-append xs ys i h

get_elem?-set_ne :
    {A : Type 0} (xs : List A) (i j : ℕ) (v : A) → i ≢ j → get_elem? (set xs i v) j ≡ get_elem? xs j
get_elem?-set_ne [] i j v n = refl
get_elem?-set_ne (x ∷ xs) zero zero v n = absurd (n refl)
get_elem?-set_ne (x ∷ xs) zero (suc j) v n = refl
get_elem?-set_ne (x ∷ xs) (suc i) zero v n = refl
get_elem?-set_ne (x ∷ xs) (suc i) (suc j) v n = get_elem?-set_ne xs i j v (λ e. n (ap suc e))

get_elem?-set_self :
    {A : Type 0} (xs : List A) (i : ℕ) (v : A) → i < length xs → get_elem? (set xs i v) i ≡ some v
get_elem?-set_self [] i v h = absurd (omega arith)
get_elem?-set_self (x ∷ xs) zero v h = refl
get_elem?-set_self (x ∷ xs) (suc i) v h = get_elem?-set_self xs i v (omega arith)

-- Adding a field keeps those that are set.
field_add-keeps :
    (h : HeaderSection) (f : HeaderField) (id : ℕ) {g : HeaderField}
    → field_get h id ≡ some g
    → field_get (field_add h f).0 id ≡ some g
unfolding field_get field_add
field_add-keeps h f id {g} e = elim (Option-cases (pointer h id)) [
  | inl z ↦ absurd (ground arith)
  | inr (p, z) ↦ elim (Option-cases (pointer h f.id)) [
    | inr (q, n) ↦ ground (arith, get_elem?-append h.ring (f ∷ []) p {x = g} (ground arith))
    | inl n ↦ ground (
      arith,
      get_elem?-append h.ring (f ∷ []) p {x = g} (ground arith),
      get_elem?-set_ne h.arr f.id id (some (length h.ring)) (λ q. ground arith),
    )
  ]
]

-- After a field is added, its identifier is set if it lies within the array.
field_add-sets :
    (h : HeaderSection) (f : HeaderField)
    → f.id < length h.arr
    → field_check (field_add h f).0 f.id ≡ true
unfolding field_check field_add
field_add-sets h f b = elim (Option-cases (pointer h f.id)) [
  | inr (p, n) ↦ ground arith
  | inl n ↦ ground (arith, get_elem?-set_self h.arr f.id (some (length h.ring)))
]

field_check-field_add :
    (h : HeaderSection) (f : HeaderField) (id : ℕ)
    → field_check h id ≡ true
    → field_check (field_add h f).0 id ≡ true
unfolding field_check field_add
field_check-field_add h f id e = elim (Option-cases (pointer h f.id)) [
  | inr (p, n) ↦ ground arith
  | inl n ↦
      ground (arith, get_elem?-set_ne h.arr f.id id (some (length h.ring)) (λ q. ground arith))
]

-- Adding leaves the size of the array.
length-field_add :
    (h : HeaderSection) (f : HeaderField) → length (field_add h f).0.arr ≡ length h.arr
unfolding field_add
length-field_add h f = ground (arith, length-set h.arr f.id (some (length h.ring)))

module _ {R : Type 0} (vt : Vtables R) where
  section-accessor_value_duplicate :
      (h : MessageHeader R) (f : HeaderField) (src : MessageHeader R)
      → (accessor_value_duplicate vt h f src).section ≡ h.section
  unfolding accessor_value_duplicate
  section-accessor_value_duplicate h f src = ground arith

  -- One round leaves the section, if it has the field, or adds the field to it.
  section-field_inherit_from :
      (src h : MessageHeader R) (f : HeaderField)
      → (((field_inherit_from vt src h f).section ≡ h.section)
          × (field_check h.section f.id ≡ true))
        ⊎ ((field_inherit_from vt src h f).section ≡ (field_add h.section f).0)
  unfolding field_inherit_from field_get field_check
  section-field_inherit_from src h f = elim (Option-cases (field_get h.section f.id)) [
    | inl e ↦ inr (ground (arith, section-accessor_value_duplicate h f src))
    | inr (g, e) ↦ inl (ground arith, ground arith)
  ]

  field_inherit_from-keeps :
      (src h : MessageHeader R) (f : HeaderField) (id : ℕ) {g : HeaderField}
      → field_get h.section id ≡ some g
      → field_get (field_inherit_from vt src h f).section id ≡ some g
  field_inherit_from-keeps src h f id {g} e = elim (section-field_inherit_from src h f) [
    | inl (q, c) ↦ ap (λ s. field_get s id) q ∙ e
    | inr q ↦ ap (λ s. field_get s id) q ∙ field_add-keeps h.section f id e
  ]

  inherit_loop-keeps :
      (src h : MessageHeader R) (fs : List HeaderField) (id : ℕ) {g : HeaderField}
      → field_get h.section id ≡ some g
      → field_get (inherit_loop vt src h fs).section id ≡ some g
  unfolding inherit_loop
  inherit_loop-keeps src h [] id e = e
  inherit_loop-keeps src h (f ∷ fs) id e =
      inherit_loop-keeps src (field_inherit_from vt src h f) fs id
        (field_inherit_from-keeps src h f id e)

  -- Inheriting changes no field that the header has.
  pub fields_inherit-keeps :
      (h src : MessageHeader R) (id : ℕ) {g : HeaderField}
      → field_get h.section id ≡ some g
      → field_get (fields_inherit vt h src).section id ≡ some g
  unfolding fields_inherit
  fields_inherit-keeps h src id e = inherit_loop-keeps src h src.section.ring id e

  field_inherit_from-checks :
      (src h : MessageHeader R) (f : HeaderField) (id : ℕ)
      → field_check h.section id ≡ true
      → field_check (field_inherit_from vt src h f).section id ≡ true
  field_inherit_from-checks src h f id e = elim (section-field_inherit_from src h f) [
    | inl (q, c) ↦ ap (λ s. field_check s id) q ∙ e
    | inr q ↦ ap (λ s. field_check s id) q ∙ field_check-field_add h.section f id e
  ]

  field_inherit_from-sets :
      (src h : MessageHeader R) (f : HeaderField)
      → f.id < length h.section.arr
      → field_check (field_inherit_from vt src h f).section f.id ≡ true
  field_inherit_from-sets src h f b = elim (section-field_inherit_from src h f) [
    | inl (q, c) ↦ ap (λ s. field_check s f.id) q ∙ c
    | inr q ↦ ap (λ s. field_check s f.id) q ∙ field_add-sets h.section f b
  ]

  length-field_inherit_from :
      (src h : MessageHeader R) (f : HeaderField)
      → length (field_inherit_from vt src h f).section.arr ≡ length h.section.arr
  length-field_inherit_from src h f = elim (section-field_inherit_from src h f) [
    | inl (q, c) ↦ ap (λ s. length s.arr) q
    | inr q ↦ ap (λ s. length s.arr) q ∙ length-field_add h.section f
  ]

  inherit_loop-checks :
      (src h : MessageHeader R) (fs : List HeaderField) (id : ℕ)
      → field_check h.section id ≡ true
      → field_check (inherit_loop vt src h fs).section id ≡ true
  unfolding inherit_loop
  inherit_loop-checks src h [] id e = e
  inherit_loop-checks src h (f ∷ fs) id e =
      inherit_loop-checks src (field_inherit_from vt src h f) fs id
        (field_inherit_from-checks src h f id e)

  inherit_loop-sets :
      (src h : MessageHeader R) (fs : List HeaderField) {f : HeaderField}
      → Memᴰ f fs
      → f.id < length h.section.arr
      → field_check (inherit_loop vt src h fs).section f.id ≡ true
  unfolding inherit_loop
  inherit_loop-sets src h [] m b = elim m [ ]
  inherit_loop-sets src h (g ∷ fs) {f} (Memᴰ.head e) b =
      inherit_loop-checks src (field_inherit_from vt src h g) fs f.id (
        subst (λ x. field_check (field_inherit_from vt src h g).section x.id ≡ true) (sym e)
          (field_inherit_from-sets src h g (subst (λ x. x.id < length h.section.arr) e b)))
  inherit_loop-sets src h (g ∷ fs) {f} (Memᴰ.tail m) b =
      inherit_loop-sets src (field_inherit_from vt src h g) fs m
        (omega (arith, length-field_inherit_from src h g))

  -- After inheriting, every field of the source whose identifier lies within the array is set, and
  -- so is every field that was set before.
  pub fields_inherit-sets :
      (h src : MessageHeader R) (f : HeaderField)
      → Memᴰ f src.section.ring ⊎ (field_check h.section f.id ≡ true)
      → f.id < length h.section.arr
      → field_check (fields_inherit vt h src).section f.id ≡ true
  unfolding fields_inherit
  fields_inherit-sets h src f m b = elim m [
    | inl i ↦ inherit_loop-sets src h src.section.ring i b
    | inr c ↦ inherit_loop-checks src h src.section.ring f.id c
  ]

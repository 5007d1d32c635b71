-- ===== src/StringTable/Laws.antt =====
-- What the search in a string table finds.
use mathlib.Core.Path.{subst}
use mathlib.Core.Option.{some-injective, none-ne-some}
use unimrcp.Prelude.{
  ==_true, Bool-cases, ℕ, zero, suc, ◌≡◌, ◌<◌, refl, sym, ap, ◌∙◌, Bool, true, false, ◌||◌, some,
  List, [], ◌∷◌, length, All, get_elem?, get_or, ◌==◌, arith, Option-cases, inl, inr,
}
use unimrcp.HeaderSection.{Str}
use unimrcp.StringTable.{
  tolower, equal_nocase, string_compare, TableItem, item_value, str_get, item_matches, id_find,
}

-- Two strings of the same length that differ in the case of their letters only.
abbrev pub IsSameNocase : Str → Str → Type 0
IsSameNocase [] [] = Unit
IsSameNocase [] (d ∷ t) = ⊥
IsSameNocase (c ∷ s) [] = ⊥
IsSameNocase (c ∷ s) (d ∷ t) = (tolower c ≡ tolower d) × IsSameNocase s t

IsSameNocase-length : (s t : Str) → IsSameNocase s t → length s ≡ length t
IsSameNocase-length [] [] h = refl
IsSameNocase-length [] (d ∷ t) h = absurd h
IsSameNocase-length (c ∷ s) [] h = absurd h
IsSameNocase-length (c ∷ s) (d ∷ t) h = ap suc (IsSameNocase-length s t h.1)

IsSameNocase-get_or :
    (s t : Str) (k : ℕ) → IsSameNocase s t → tolower (get_or s k 0) ≡ tolower (get_or t k 0)
IsSameNocase-get_or [] [] k h = refl
IsSameNocase-get_or [] (d ∷ t) k h = absurd h
IsSameNocase-get_or (c ∷ s) [] k h = absurd h
IsSameNocase-get_or (c ∷ s) (d ∷ t) zero h = h.0
IsSameNocase-get_or (c ∷ s) (d ∷ t) (suc k) h = IsSameNocase-get_or s t k h.1

or_true : (b : Bool) → (b || true) ≡ true
or_true true = refl
or_true false = refl

equal_nocase-same : (s t : Str) → IsSameNocase s t → equal_nocase (length s) s t ≡ true
unfolding equal_nocase
equal_nocase-same [] [] h = refl
equal_nocase-same [] (d ∷ t) h = absurd h
equal_nocase-same (c ∷ s) [] h = absurd h
equal_nocase-same (c ∷ s) (d ∷ t) h =
    rw (==_true (tolower c) (tolower d) h.0, equal_nocase-same s t h.1) (or_true (c == 0))

same_of_equal_nocase :
    (s t : Str)
    → All (λ c. 0 < c) s
    → length s ≡ length t
    → equal_nocase (length s) s t ≡ true
    → IsSameNocase s t
unfolding equal_nocase
same_of_equal_nocase [] [] z n h = tt
same_of_equal_nocase [] (d ∷ t) z n h = absurd (omega arith)
same_of_equal_nocase (c ∷ s) [] z n h = absurd (omega arith)
same_of_equal_nocase (c ∷ s) (d ∷ t) z n h =
    grind (arith, z.0, same_of_equal_nocase s t z.1 (omega arith))

-- An item matches the strings that are its own up to case, and no others, if its own is not empty and
-- has no NUL.
item_matches-same :
    (item : TableItem) (value : Str)
    → 0 < length item.value
    → IsSameNocase item.value value
    → item_matches item value ≡ true
unfolding item_matches string_compare
item_matches-same item value p h = grind (
  arith,
  IsSameNocase-length item.value value h,
  IsSameNocase-get_or item.value value item.key h,
  equal_nocase-same item.value value h,
)

same_of_item_matches :
    (item : TableItem) (value : Str)
    → All (λ c. 0 < c) item.value
    → item_matches item value ≡ true
    → IsSameNocase item.value value
unfolding item_matches string_compare
same_of_item_matches item value z h = grind (arith, same_of_equal_nocase item.value value z)

-- The strings of a table are not empty, have no NUL, and differ in more than the case of letters.
abbrev pub IsDistinct : List TableItem → Type 0
IsDistinct [] = Unit
IsDistinct (item ∷ table) =
    (0 < length item.value)
    × All (λ c. 0 < c) item.value
    × All (λ (other : TableItem). ¬ IsSameNocase item.value other.value) table
    × IsDistinct table

All-get_elem? :
    (P : TableItem → Type 0) (table : List TableItem) (id : ℕ) (item : TableItem)
    → All P table
    → get_elem? table id ≡ some item
    → P item
All-get_elem? P [] id item a h = cc
All-get_elem? P (x ∷ table) zero item a h = subst P (some-injective _ _ h) a.0
All-get_elem? P (x ∷ table) (suc id) item a h = All-get_elem? P table id item a.1 h

same_of_both : (s t u : Str) → IsSameNocase s u → IsSameNocase t u → IsSameNocase s t
same_of_both [] [] [] h k = tt
same_of_both [] t (x ∷ u) h k = absurd h
same_of_both (c ∷ s) t [] h k = absurd h
same_of_both s (d ∷ t) [] h k = absurd k
same_of_both s [] (x ∷ u) h k = absurd k
same_of_both (c ∷ s) (d ∷ t) (x ∷ u) h k = (h.0 ∙ sym k.0, same_of_both s t u h.1 k.1)

id_find-get_elem? :
    (table : List TableItem) (id : ℕ) (item : TableItem) (value : Str)
    → IsDistinct table
    → get_elem? table id ≡ some item
    → IsSameNocase item.value value
    → id_find table value ≡ id
unfolding id_find
id_find-get_elem? [] id item value d h e = cc
id_find-get_elem? (x ∷ table) zero item value d h e =
    rw
      (
        item_matches-same x value d.0
            (subst (λ (y : TableItem). IsSameNocase y.value value) (sym (some-injective _ _ h)) e),
        id_find,
      )
      refl
id_find-get_elem? (x ∷ table) (suc id) item value d h e = elim (Bool-cases (item_matches x value)) [
  | inl m ↦ absurd (
      All-get_elem? _ table id item d.2 h
        (same_of_both x.value item.value value (same_of_item_matches x value d.1 m) e))
  | inr m ↦ rw (m, id_find) (ap suc (id_find-get_elem? table id item value d.3 h e))
]

-- In a table whose strings are not empty, have no NUL and differ in more than the case of letters, the
-- search for the string of an identifier, in whatever case, finds the identifier.
pub id_find-str_get :
    (table : List TableItem) (id : ℕ) (name value : Str)
    → IsDistinct table
    → str_get table id ≡ some name
    → IsSameNocase name value
    → id_find table value ≡ id
unfolding str_get
id_find-str_get table id name value d h e = elim (Option-cases (get_elem? table id)) [
  | inl n ↦ absurd (none-ne-some _ (sym (ap item_value n) ∙ h))
  | inr (item, i) ↦
      id_find-get_elem? table id item value d i
        (subst (λ s. IsSameNocase s value) (some-injective _ _ (sym h ∙ ap item_value i)) e)
]

-- ===== src/StringTable.antt =====
-- String tables and the case-insensitive comparison of strings
-- (libs/apr-toolkit/include/apt_string.h and apt_string_table.h, src/apt_string_table.c).
pub mod Laws
mod Tests
use unimrcp.Prelude.{
  ℕ, zero, suc, ◌+◌, Bool, true, false, not, ◌&&◌, ◌||◌, Option, none, some, List, [], ◌∷◌, length,
  get_elem?, get_or, leb, ltb, ◌==◌, if◌then◌else◌,
}
use unimrcp.HeaderSection.{Str}

-- `tolower` of the C locale
abbrev pub tolower : ℕ → ℕ
tolower c = if leb 0x41 c && leb c 0x5A then c + 0x20 else c

-- `strncasecmp` gives 0: at most `n` characters are compared, and none behind a NUL. Memory that
-- ends is read as if a NUL followed.
unfoldable pub equal_nocase : ℕ → Str → Str → Bool
equal_nocase zero s t = true
equal_nocase (suc n) [] [] = true
equal_nocase (suc n) [] (d ∷ t) = d == 0
equal_nocase (suc n) (c ∷ s) [] = c == 0
equal_nocase (suc n) (c ∷ s) (d ∷ t) = (tolower c == tolower d) && ((c == 0) || equal_nocase n s t)

-- Empty strings do not compare as equal.
unfoldable pub string_compare : Str → Str → Bool
string_compare s t =
    if not (length s == length t) || (length s == 0) then false else equal_nocase (length s) s t

-- `apt_str_table_item_t`
pub record TableItem : Type 0 where
  pub value : Str
  pub key : ℕ

abbrev pub item_value : Option TableItem → Option Str
item_value none = none
item_value (some item) = some item.value

unfoldable pub str_get : List TableItem → ℕ → Option Str
str_get table id = item_value (get_elem? table id)

-- The test of the loop: of a string as long as the item's, the character at the item's key is
-- compared first, if it has one.
unfoldable pub item_matches : TableItem → Str → Bool
item_matches item value =
    if not (length item.value == length value)
    then false
    else if ltb item.key (length value)
    then (tolower (get_or item.value item.key 0) == tolower (get_or value item.key 0))
      && string_compare item.value value
    else string_compare item.value value

-- The number of items that are passed until one matches.
unfoldable pub id_find : List TableItem → Str → ℕ
id_find [] value = 0
id_find (item ∷ table) value = elim (item_matches item value) [
  | true ↦ 0
  | false ↦ suc (id_find table value)
]

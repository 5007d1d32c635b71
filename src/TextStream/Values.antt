-- ===== src/TextStream/Values.antt =====
-- Values in text (libs/apr-toolkit/src/apt_text_stream.c): booleans, and a length that counts the
-- digits of its own print.
use unimrcp.Prelude.{
  ℕ, zero, suc, ◌+◌, ◌-◌, ◌*◌, ◌/◌, ◌%◌, ◌^◌, Bool, true, false, Option, none, some, length, leb,
  ltb, ◌==◌, if◌then◌else◌, ◌>>=◌,
}
use unimrcp.HeaderSection.{Str}
use unimrcp.StringTable.{equal_nocase}
use unimrcp.TextStream.{codes}
use unimrcp.TextStream.Decimal.{decimal}

abbrev pub token_true : Str
token_true = codes "true"

abbrev pub token_false : Str
token_false = codes "false"

-- The value read, or `none` where the function returns FALSE.
unfoldable pub boolean_value_parse : Str → Option Bool
boolean_value_parse buf =
    if equal_nocase (length token_true) buf token_true
    then some true
    else if equal_nocase (length token_false) buf token_false
    then some false
    else none

unfoldable pub boolean_value_generate : Bool → Str
boolean_value_generate true = token_true
boolean_value_generate false = token_false

-- `do { count++; temp /= 10; } while(temp)`
unfoldable pub count_loop : ℕ → ℕ → ℕ → Option ℕ
count_loop zero temp count = none
count_loop (suc fuel) temp count = elim (temp / 10 == 0) [
  | true ↦ some (count + 1)
  | false ↦ count_loop fuel (temp / 10) (count + 1)
]

-- `do { bounds *= 10; temp--; } while(temp)` for a positive `temp`
unfoldable pub bounds_loop : ℕ → ℕ → ℕ
bounds_loop zero bounds = bounds
bounds_loop (suc temp) bounds = bounds_loop temp (bounds * 10 % 2 ^ 64)

-- A 64-bit number has at most 20 digits.
abbrev pub count_fuel : ℕ
count_fuel = 20

-- The value with the number of its digits added, and its text unless it has too many digits.
unfoldable pub digits_add : ℕ → ℕ → ℕ
digits_add value count =
    if leb ((bounds_loop count 1 + 2 ^ 64 - count) % 2 ^ 64) value then count + 1 else count

-- The new value, and its text unless it has too many digits. The outer `none` is a count that ran
-- out of fuel.
unfoldable pub var_length_value_generate : ℕ → ℕ → Option (ℕ × Option Str)
var_length_value_generate value max_count = do
  count ← count_loop count_fuel value 0
  let count' = digits_add value count in
      let value' = (value + count') % 2 ^ 64 in
      some (value', if ltb max_count count' then none else some (decimal value'))

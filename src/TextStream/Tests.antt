-- ===== src/TextStream/Tests.antt =====
-- Runs of the text stream, and a witness.
use unimrcp.Prelude.{
  ℕ, ◌+◌, ◌-◌, ◌^◌, ◌≡◌, refl, true, false, none, some, length, ltb, if◌then◌else◌, arith,
}
use unimrcp.TextStream.{codes}
use unimrcp.TextStream.Decimal.{decimal_from, decimal, digits_value, atol, atol_signed}
use unimrcp.TextStream.Values.{
  count_loop, bounds_loop, digits_add, var_length_value_generate, boolean_value_parse,
}
use unimrcp.TextStream.VarLength.{var_length_value_generate-digits}
use unimrcp.StringTable.{equal_nocase}

decimal_runs : (decimal 0 ≡ codes "0") × (decimal 543257 ≡ codes "543257")
unfolding decimal decimal_from
decimal_runs = (refl, refl)

atol_runs : (atol (codes " 42,7") ≡ 42) × (atol (codes "-1") ≡ 2 ^ 64 - 1) × (atol (codes "x1") ≡ 0)
unfolding atol atol_signed digits_value
atol_runs = (refl, refl, refl)

-- The sum of 99998 and its number of digits has a digit more.
grown_digit : var_length_value_generate 99995 6 ≡ some (100001, some (codes "100001"))
unfolding var_length_value_generate count_loop bounds_loop digits_add decimal decimal_from
grown_digit = refl

too_many_digits : var_length_value_generate 999999 6 ≡ some (1000006, none)
unfolding var_length_value_generate count_loop bounds_loop digits_add
too_many_digits = refl

boolean_runs :
    (boolean_value_parse (codes "TRUE") ≡ some true)
    × (boolean_value_parse (codes "falsely") ≡ some false)
    × (boolean_value_parse (codes "no") ≡ none)
unfolding boolean_value_parse equal_nocase
boolean_runs = (refl, refl, refl)

var_length_value_generate-digits_example :
    (total : ℕ) × (total ≡ 99995 + length (decimal total))
    × (var_length_value_generate 99995 6
        ≡ some (total, if ltb 6 (length (decimal total)) then none else some (decimal total)))
var_length_value_generate-digits_example = var_length_value_generate-digits 99995 6 (omega arith)

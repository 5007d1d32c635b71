-- ===== src/StringTable/Tests.antt =====
-- Runs of the search in string tables, and a witness.
use unimrcp.Prelude.{◌≡◌, refl, some, arith}
use unimrcp.TextStream.{codes}
use unimrcp.StringTable.{equal_nocase, string_compare, str_get, item_matches, id_find}
use unimrcp.StringTable.Laws.{IsDistinct, id_find-str_get}
use unimrcp.StartLine.{request_state_string_table}

request_states-IsDistinct : IsDistinct request_state_string_table
request_states-IsDistinct = ground arith

any_case : id_find request_state_string_table (codes "in-Progress") ≡ 1
unfolding id_find item_matches string_compare equal_nocase
any_case = refl

pending_name : str_get request_state_string_table 2 ≡ some (codes "PENDING")
unfolding str_get
pending_name = refl

id_find-str_get_example : id_find request_state_string_table (codes "Pending") ≡ 2
id_find-str_get_example =
    id_find-str_get request_state_string_table 2 (codes "PENDING") (codes "Pending")
      request_states-IsDistinct pending_name
      (refl, (refl, (refl, (refl, (refl, (refl, (refl, tt)))))))

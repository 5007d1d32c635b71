-- ===== src/GenericHeader/Laws.antt =====
-- `active_request_id_list_append` and `active_request_id_list_find` of mrcp_generic_header.c.
use mathlib.Core.List.{Memᴰ}
use unimrcp.Prelude.{
  ℕ, ◌≤◌, ◌≡◌, sym, true, List, [], ◌∷◌, length, length-append, arith, ◌==◌, Bool-cases, inl, inr,
  ==_iff,
}
use unimrcp.GenericHeader.{GenericHeader, max_active_request_id_count, id_list_append, ids_find}

-- Appending never passes the fixed array's end.
pub length-id_list_append :
    (h : GenericHeader) (id : ℕ)
    → length h.active_request_id_list ≤ max_active_request_id_count
    → length (id_list_append h id).0.active_request_id_list ≤ max_active_request_id_count
unfolding id_list_append
length-id_list_append h id b = ground (arith, length-append h.active_request_id_list (id ∷ []))

-- A found identifier stands in the list.
pub mem_of_ids_find : (xs : List ℕ) (id : ℕ) → ids_find xs id ≡ true → Memᴰ id xs
unfolding ids_find
mem_of_ids_find [] id h = cc
mem_of_ids_find (x ∷ xs) id h = elim (Bool-cases (x == id)) [
  | inl e ↦ Memᴰ.head (sym ((==_iff x id).0 e))
  | inr e ↦ Memᴰ.tail (mem_of_ids_find xs id (rw e at h))
]

-- An identifier that stands in the list is found.
pub ids_find_of_mem : (xs : List ℕ) {id : ℕ} → Memᴰ id xs → ids_find xs id ≡ true
unfolding ids_find
ids_find_of_mem [] m = elim m [ ]
ids_find_of_mem (x ∷ xs) (Memᴰ.head e) = rw e (ground arith)
ids_find_of_mem (x ∷ xs) {id} (Memᴰ.tail m) = ground (arith, ids_find_of_mem xs m)

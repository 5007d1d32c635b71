-- ===== src/StateMachine/Laws.antt =====
-- `synth_pending_requests_remove`, `recog_pending_requests_remove`, and logs of messages.
use mathlib.Core.List.{append-nil, append_assoc}
use unimrcp.Prelude.{
  ◌⊎◌, ℕ, ◌≤◌, ◌≡◌, refl, sym, ap, ◌∙◌, true, false, not, Option, none, some, List, [], ◌∷◌, ◌++◌,
  map, length, length-append, take, take-append-take, take-append_full, take_all, select, All,
  All-select, arith, Bool-cases, inl, inr, leb,
}
use unimrcp.HeaderSection.{HeaderField, field_check}
use unimrcp.HeaderSection.Laws.{field_add_refused}
use unimrcp.GenericHeader.{GenericHeader, max_active_request_id_count, id_list_append}
use unimrcp.GenericHeader.Laws.{length-id_list_append}
use unimrcp.MessageHeader.{value_generate}
use unimrcp.Message.{
  request, vtables_of, Message, Resource, generic_header_prepare, section_add,
  generic_header_property_add, resource_header_property_add,
}
use unimrcp.StateMachine.{
  Action, dispatch, deactivated, is_request, sent_ids, client_ids, request_id, selective_ids,
  is_addressed, remove_loop, list_field_add, pending_remove, active_id_add,
}

-- The identifiers of messages, in order.
abbrev pub ids_of : {R : Type 0} → List (Message R) → List ℕ
ids_of = map (λ m. request_id m)

-- An append is a cut at the array's size of the longer list.
id_list_append-eq-take :
    (h : GenericHeader) (id : ℕ)
    → length h.active_request_id_list ≤ max_active_request_id_count
    → (id_list_append h id).0.active_request_id_list
      ≡ take max_active_request_id_count (h.active_request_id_list ++ (id ∷ []))
unfolding id_list_append
id_list_append-eq-take h id b = elim (Bool-cases (leb 5 (length h.active_request_id_list))) [
  | inl full ↦ rw full (
      sym (
        take-append_full 5 h.active_request_id_list (id ∷ []) (ground arith)
        ∙ take_all 5 h.active_request_id_list b))
  | inr room ↦ rw room (
      sym (
        take_all 5 (h.active_request_id_list ++ (id ∷ []))
          (ground (arith, length-append h.active_request_id_list (id ∷ [])))))
]

module _ {R : Type 0} (resource : Resource R) where
  -- The queue keeps, in order, exactly the requests that are not addressed.
  pub remove_loop-queue :
      (ids : Option (List ℕ)) (q : List (Message R)) (g : GenericHeader)
      → (remove_loop resource ids q g).0 ≡ select (λ p. not (is_addressed ids (request_id p))) q
  unfolding remove_loop
  remove_loop-queue ids [] g = refl
  remove_loop-queue ids (p ∷ ps) g = elim (Bool-cases (is_addressed ids (request_id p))) [
    | inl e ↦ rw (e, remove_loop) (remove_loop-queue ids ps (id_list_append g (request_id p)).0)
    | inr e ↦ rw (e, remove_loop) (ap (λ q. p ∷ q) (remove_loop-queue ids ps g))
  ]

  -- If the response's list fits its array, it then has what it had before and after that the
  -- identifiers of the removed requests, in the order of the queue, as far as the array has room.
  pub remove_loop-ids :
      (ids : Option (List ℕ)) (q : List (Message R)) (g : GenericHeader)
      → length g.active_request_id_list ≤ max_active_request_id_count
      → (remove_loop resource ids q g).1.active_request_id_list
        ≡ take max_active_request_id_count
            (g.active_request_id_list ++ ids_of (select (λ p. is_addressed ids (request_id p)) q))
  unfolding remove_loop
  remove_loop-ids ids [] g b = rw append-nil (sym (take_all 5 g.active_request_id_list b))
  remove_loop-ids ids (p ∷ ps) g b = elim (Bool-cases (is_addressed ids (request_id p))) [
    | inl e ↦
        rw (e, remove_loop)
          (rw (
            remove_loop-ids ids ps (id_list_append g (request_id p)).0
                (length-id_list_append g (request_id p) b),
            id_list_append-eq-take g (request_id p) b,
            take-append-take,
            append_assoc,
          ))
    | inr e ↦ rw (e, remove_loop) (remove_loop-ids ids ps g b)
  ]

  -- What holds of every request of a queue holds of what stays in it.
  pub All-pending_remove :
      (P : Message R → Type 0) (q : List (Message R)) (r m : Message R)
      → All P q
      → All P (pending_remove resource q r m).0
  unfolding pending_remove
  All-pending_remove P q r m h =
      rw (remove_loop-queue (selective_ids r) q (generic_header_prepare resource m))
        (All-select P (λ p. not (is_addressed (selective_ids r) (request_id p))) q h)

module _ {R : Type 0} (resource : Resource R) where
  start_line-section_add :
      (m : Message R) (o : Option HeaderField) (id : ℕ)
      → (section_add resource m o id).0.start_line ≡ m.start_line
  unfolding section_add
  start_line-section_add m none id = refl
  start_line-section_add m (some f) id = refl

  -- Adding an identifier to the header leaves the start-line.
  pub start_line-active_id_add :
      (m : Message R) (id : ℕ) → (active_id_add resource m id).start_line ≡ m.start_line
  unfolding active_id_add generic_header_property_add
  start_line-active_id_add m id = start_line-section_add _ _ _

  pub start_line-resource_header_property_add :
      (m : Message R) (id : ℕ)
      → (resource_header_property_add resource m id).0.start_line ≡ m.start_line
  unfolding resource_header_property_add
  start_line-resource_header_property_add m id = start_line-section_add m _ _

  -- The response with its generic header data replaced, and perhaps with one field added.
  list_field_add-cases :
      (m : Message R) (g : GenericHeader)
      → let m' = record m { header = record m.header { generic = some g } } in
        (list_field_add resource m g ≡ m')
        ⊎ ((o : Option HeaderField) × (list_field_add resource m g
              ≡ (section_add resource m' o 0).0))
  unfolding list_field_add generic_header_property_add
  list_field_add-cases m g = by_ids g.active_request_id_list refl
    where
      m' : Message R
      m' = record m { header = record m.header { generic = some g } }

      by_ids :
          (ids : List ℕ)
          → g.active_request_id_list ≡ ids
          → (list_field_add resource m g ≡ m')
            ⊎ ((o : Option HeaderField) × (list_field_add resource m g
                  ≡ (section_add resource m' o 0).0))
      by_ids [] e = inl (ground arith)
      by_ids (id ∷ ids) e =
          inr (
            value_generate (vtables_of resource m').generic m'.header.generic 0 false,
            ground arith,
          )

  start_line-list_field_add :
      (m : Message R) (g : GenericHeader) → (list_field_add resource m g).start_line ≡ m.start_line
  start_line-list_field_add m g = elim (list_field_add-cases m g) [
    | inl e ↦ rw e
    | inr (o, e) ↦ rw e (start_line-section_add _ o 0)
  ]

  pub start_line-pending_remove :
      (q : List (Message R)) (r m : Message R)
      → (pending_remove resource q r m).1.start_line ≡ m.start_line
  unfolding pending_remove
  start_line-pending_remove q r m = start_line-list_field_add m _

pub sent_ids-append :
    {R : Type 0} (xs ys : List (Action R)) → sent_ids (xs ++ ys) ≡ sent_ids xs ++ sent_ids ys
sent_ids-append [] ys = refl
sent_ids-append (dispatch m ∷ xs) ys = ap (λ is. request_id m ∷ is) (sent_ids-append xs ys)
sent_ids-append (deactivated ∷ xs) ys = sent_ids-append xs ys

pub client_ids-append :
    {R : Type 0} (xs ys : List (Action R)) → client_ids (xs ++ ys) ≡ client_ids xs ++ client_ids ys
client_ids-append [] ys = refl
client_ids-append (dispatch m ∷ xs) ys = elim (Bool-cases (is_request m.start_line.message_type)) [
  | inl e ↦ rw e (client_ids-append xs ys)
  | inr e ↦ rw e (ap (λ is. request_id m ∷ is) (client_ids-append xs ys))
]
client_ids-append (deactivated ∷ xs) ys = client_ids-append xs ys

-- A request goes to the engine, not to the client.
pub client_ids-dispatch_request :
    {R : Type 0} (log : List (Action R)) (m : Message R)
    → m.start_line.message_type ≡ request
    → client_ids (log ++ (dispatch m ∷ [])) ≡ client_ids log
client_ids-dispatch_request log m t = rw (client_ids-append log (dispatch m ∷ []), t, append-nil)

pub client_ids-deactivated :
    {R : Type 0} (log : List (Action R)) → client_ids (log ++ (deactivated ∷ [])) ≡ client_ids log
client_ids-deactivated log = rw (client_ids-append log (deactivated ∷ []), append-nil)

module _ {R : Type 0} (resource : Resource R) where
  section-section_add_frozen :
      (m : Message R) (o : Option HeaderField) (id : ℕ)
      → field_check m.header.section id ≡ true
      → (section_add resource m o id).0.header.section ≡ m.header.section
  unfolding section_add
  section-section_add_frozen m none id c = refl
  section-section_add_frozen m (some f) id c =
      rw (field_add_refused m.header.section (record f { id = id }) c)

  -- If the response has its Active-Request-Id-List field already, the removal of pending requests
  -- leaves its header section as it is, whatever requests are removed.
  pub section-pending_remove_frozen :
      (q : List (Message R)) (r m : Message R)
      → field_check m.header.section 0 ≡ true
      → (pending_remove resource q r m).1.header.section ≡ m.header.section
  unfolding pending_remove
  section-pending_remove_frozen q r m c =
      elim (list_field_add-cases resource m
        (remove_loop resource (selective_ids r) q (generic_header_prepare resource m)).1) [
          | inl e ↦ rw e
          | inr (o, e) ↦ rw e (section-section_add_frozen _ o 0 c)
        ]

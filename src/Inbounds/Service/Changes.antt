-- ===== src/Inbounds/Service/Changes.antt =====
-- What the mutating calls of the inbound service guarantee of the store and send out.
use aegis_panel.Common.{
  ℕ, ℕ_discrete, get, get-put, ◌≡◌, ◌≢◌, ◌⊎◌, Fallible, Fallible-cases, refl, ap, ◌∙◌, true, false,
  Option-cases, Bool-cases, some, none, List, ◌∷◌, ℤ, arith, inl, inr, is_text, is_text_iff,
  trim_space, ◌==◌,
}
use aegis_panel.Cores.Batched.{add_user}
use aegis_panel.Inbounds.Model.{
  Inbound, Protocol, invalid, template_id_field, Error, nil_inbound, zero_id, missing_id, not_found,
  lookup_failed, id_slot, name_slot, duplicate, port_slot, bad_port, ok, err, >>=-eq-ok,
}
use aegis_panel.Inbounds.Validate.{
  validate_port, validate_node, validate_protocol, normalise_listen_ports, is_allowed_protocol,
}
use aegis_panel.Inbounds.Store
use aegis_panel.Inbounds.Store.{
  MemoryStore, get_by_id, get_by_node_and_name, get_by_node_and_port, update_at, collides,
}
use aegis_panel.Inbounds.Store.Slots.{Indexed, create-Indexed, update-Updated}
use aegis_panel.Inbounds.Store.Lookups.{create_lookups, failed_update_keeps}
use aegis_panel.Inbounds.Store.Stale.{update_leaves_stale}
use aegis_panel.Inbounds.Service.{
  Env, Effect, CreateInput, check_input, new_inbound, finish_create, create, UpdateInput,
  check_update, check_new_template, check_template, dispatches, records, enqueue_for_node, merged,
  finish_update, after_store, Template, has_protocol, validate_template_id, update_checked,
  update_found, update,
}

-- What a successful create has passed on the way.
pub create-parts :
    (env : Env) (i : CreateInput) (s t : MemoryStore) (out : Inbound) (es : List Effect)
    → create env i s ≡ ok (out, t, es)
    → (extra : List ℤ) × (row : Inbound) × (check_input env i ≡ ok extra)
      × (Store.create (some (new_inbound env i extra)) env.store_now s ≡ ok (row, t))
      × (finish_create env (row, t) ≡ ok (out, t, es))
unfolding create finish_create
create-parts env i s t out es h =
    let (extra, checked, rest) = >>=-eq-ok (check_input env i) _ h in
    let ((row, t'), stored, finished) = >>=-eq-ok _ (finish_create env) rest in
    (extra, row, checked, ground arith, ground arith)

port_or_not : (why : Error) → (why ≡ duplicate port_slot) ⊎ (why ≢ duplicate port_slot)
port_or_not nil_inbound = inr (λ e. cc)
port_or_not zero_id = inr (λ e. cc)
port_or_not missing_id = inr (λ e. cc)
port_or_not not_found = inr (λ e. cc)
port_or_not lookup_failed = inr (λ e. cc)
port_or_not (duplicate id_slot) = inr (λ e. ground arith)
port_or_not (duplicate name_slot) = inr (λ e. ground arith)
port_or_not (duplicate port_slot) = inl refl
port_or_not (invalid f) = inr (λ e. cc)

pair-cases :
    {A B : Type 0} (p : Fallible Error A × B)
    → ((why : Error) × (b : B) × (p ≡ (err why, b))) ⊎ ((a : A) × (b : B) × (p ≡ (ok a, b)))
pair-cases (err why, b) = inl (why, b, refl)
pair-cases (ok a, b) = inr (a, b, refl)

checked_parts :
    (env : Env) (i : CreateInput) (extra : List ℤ)
    → check_input env i ≡ ok extra
    → (validate_node env.node_exists i.node_id ≡ ok tt)
      × (validate_port i.listen_port ≡ ok tt)
      × (normalise_listen_ports i.listen_ports ≡ ok extra)
unfolding check_input
checked_parts env i extra h = ground arith

-- A created inbound is stored under its id, and found by its node and its trimmed name and by its
-- node and port. Its node exists, its ports are in range, and the maps agree.
pub create_finds :
    (env : Env) (i : CreateInput) (s t : MemoryStore) (out : Inbound) (es : List Effect)
    → Indexed s
    → create env i s ≡ ok (out, t, es)
    → (get_by_id out.id t ≡ ok out)
      × (get_by_node_and_name i.node_id (trim_space i.name) t ≡ ok out)
      × (get_by_node_and_port i.node_id i.listen_port t ≡ ok out)
      × (env.node_exists i.node_id ≡ true)
      × (bad_port i.listen_port ≡ false)
      × Indexed t
unfolding finish_create new_inbound validate_node validate_port
create_finds env i s t out es v h =
    let (extra, row, checked, stored, finished) = create-parts env i s t out es h in
    let (c, by_id, by_name, by_port) =
      create_lookups (new_inbound env i extra) row env.store_now s t stored in
    let (node, port, _) = checked_parts env i extra checked in
    let same : out ≡ row = ground arith in
    (
      rw same by_id,
      rw same by_name,
      rw same by_port,
      ground arith,
      ground arith,
      create-Indexed (some (new_inbound env i extra)) row env.store_now s t stored v,
    )

-- The row that an update stores is there to be read back.
stored_back :
    (env : Env) (id : ℕ) (i : Inbound) (row : Inbound) (now : ℕ) (s t : MemoryStore)
    → i.id ≡ id
    → Store.update (some i) now s ≡ (ok row, t)
    → get_by_id id t ≡ ok row
unfolding get_by_id
stored_back env id i row now s t e h =
    let (given, old, same, u) = update-Updated (some i) row now s t h in
    ground (arith, u.stored, u.is_row, get-put ℕ_discrete row.id row.id row s.by_id)

after_store-cases :
    (env : Env) (id : ℕ) (i : Inbound) (now : ℕ) (s t : MemoryStore) (why : Error)
    → i.id ≡ id
    → after_store env id (Store.update (some i) now s) ≡ (err why, t)
    → (t ≡ s) ⊎ (why ≡ duplicate port_slot)
unfolding after_store finish_update
after_store-cases env id i now s t why e h = elim (pair-cases (Store.update (some i) now s)) [
  | inl (bad, left, q) ↦ elim (port_or_not bad) [
    | inl p ↦ inr (ground arith)
    | inr n ↦ inl (ground (arith, failed_update_keeps (some i) now s left bad q n))
  ]
  | inr (row, left, q) ↦ let back = stored_back env id i row now s left e q in absurd (ground arith)
]

failed_check_unchanged :
    (env : Env) (id : ℕ) (i : UpdateInput) (s t : MemoryStore) (cur : Inbound) (why : Error)
    → cur.id ≡ id
    → update_checked env id i cur s (check_update env i cur) ≡ (err why, t)
    → (t ≡ s) ⊎ (why ≡ duplicate port_slot)
unfolding update_checked merged
failed_check_unchanged env id i s t cur why e h = elim (Fallible-cases (check_update env i cur)) [
  | inl (bad, q) ↦ inl (ground arith)
  | inr (extra, q) ↦
      after_store-cases env id (merged i extra cur) env.store_now s t why e (ground arith)
]

-- A call of `Update` that fails leaves the store as it was, unless the new port was taken.
pub failed_update_unchanged :
    (env : Env) (id : ℕ) (i : UpdateInput) (s t : MemoryStore) (why : Error)
    → Indexed s
    → update env id i s ≡ (err why, t)
    → (t ≡ s) ⊎ (why ≡ duplicate port_slot)
unfolding update update_found get_by_id
failed_update_unchanged env id i s t why v h = elim (Bool-cases (id == 0)) [
  | inl z ↦ ground arith
  | inr z ↦ elim (Option-cases (get ℕ_discrete id s.by_id)) [
    | inl e ↦ ground arith
    | inr (cur, e) ↦ failed_check_unchanged env id i s t cur why (v.keyed id cur e) (ground arith)
  ]
]

abbrev pub only_protocol : Protocol → UpdateInput
only_protocol p = record {
  name = none;
  protocol = some p;
  listen = none;
  listen_port = none;
  listen_ports = none;
  enabled = none;
  tags = none;
  template_id = none;
  params = none;
}

empty_not_allowed : is_allowed_protocol "" ≡ false
unfolding is_allowed_protocol
empty_not_allowed = refl

empty_refused : (p : Protocol) → p ≡ "" → is_allowed_protocol p ≡ false
empty_refused p e = ap is_allowed_protocol e ∙ empty_not_allowed

allowed_passes : (p : Protocol) → is_allowed_protocol p ≡ true → validate_protocol p ≡ ok tt
unfolding validate_protocol
allowed_passes p h = ground (arith, is_text_iff p "", empty_refused p)

-- A change of the protocol alone does not look at the template: an inbound whose template has the
-- old protocol keeps that template under the new one.
pub protocol_change_keeps_template :
    (env : Env) (id tid : ℕ) (find : ℕ → Template) (p : Protocol) (s : MemoryStore) (cur : Inbound)
    → id ≢ 0
    → get_by_id id s ≡ ok cur
    → cur.id ≡ id
    → cur.template_id ≡ some tid
    → env.templates ≡ some find
    → find tid ≡ has_protocol cur.protocol
    → is_allowed_protocol p ≡ true
    → p ≢ cur.protocol
    → (out : Inbound) × (t : MemoryStore) × (es : List Effect) × (update env id (only_protocol p) s
        ≡ (ok (out, t, es), t))
      × (out.protocol ≡ p)
      × (out.template_id ≡ some tid)
      × (validate_template_id env.templates tid out.protocol ≡ err (invalid template_id_field))
unfolding update update_found update_checked check_update check_new_template merged after_store
    finish_update get_by_id validate_template_id check_template
protocol_change_keeps_template env id tid find p s cur nz at same has wired kind allowed new =
    let i : Inbound = merged (only_protocol p) cur.listen_ports cur in
    let (row, t, updated, is_row, found, _, _) =
      update_leaves_stale i cur env.store_now s (ground arith) (ground arith) refl refl in
    let passes = allowed_passes p allowed in
    let es : List Effect =
      dispatches "inbound.updated" row.id
      ∷ records "inbound.update" row.id (some row) (some row)
      ∷ enqueue_for_node env row.node_id add_user in
    let differs : is_text cur.protocol p ≡ false = ground (arith, is_text_iff cur.protocol p) in
    (row, t, es, ground arith, ground arith, ground arith, ground arith)

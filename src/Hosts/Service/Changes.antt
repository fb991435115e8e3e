-- ===== src/Hosts/Service/Changes.antt =====
-- What the mutating calls of the host service guarantee of the store and send out.
use aegis_panel.Common.{
  ℕ, ℕ_discrete, get, get-put, ◌≡◌, Option, Option-cases, some, List, [], ◌∷◌, arith, inl, inr, All,
  subst,
}
use aegis_panel.Hosts.Model.{Host, Endpoint, Balancer, ok, >>=-eq-ok, >>-eq-ok}
use aegis_panel.Hosts.Store
use aegis_panel.Hosts.Store.{MemoryStore, get_by_id}
use aegis_panel.Hosts.Store.Remarks.{Indexed, create-Created, update-Updated}
use aegis_panel.Hosts.Service.{
  Env, Effect, dispatches, records, CreateInput, check_fields, normalise_endpoints, new_host,
  validate_endpoints_count, normalise_balancer, create_with, finish_create, create, UpdateInput,
  choose, choose_some, given_endpoints, check_update, merged, finish_update, update_with,
  update_found, update, delete,
}
use aegis_panel.Hosts.Service.Shapes.{Shape, checked-Shaped, Placed, normalise_endpoints-Placed}

-- Every host of the table is well shaped.
abbrev pub AllShaped : MemoryStore → Type 0
AllShaped s = (i : ℕ) (h : Host) → get ℕ_discrete i s.by_id ≡ some h → Shape h

abbrev pub Sound : MemoryStore → Type 0
Sound s = Indexed s × AllShaped s

-- What a successful create has passed on the way.
create-parts :
    (env : Env) (i : CreateInput) (s t : MemoryStore) (out : Host) (es : List Effect)
    → create env i s ≡ ok (out, t, es)
    → (eps : List Endpoint) × (b : Option Balancer) × (row : Host) × (normalise_endpoints env
          i.endpoints
        ≡ ok eps)
      × (validate_endpoints_count i.kind eps ≡ ok tt)
      × (normalise_balancer env i.kind i.balancer eps ≡ ok b)
      × (Store.create (some (new_host env i eps b)) env.store_now s ≡ ok (row, t))
      × (finish_create (row, t) ≡ ok (out, t, es))
unfolding create create_with finish_create
create-parts env i s t out es h =
    let (fields, rest) = >>-eq-ok (check_fields i) _ h in
    let (eps, filled, rest) = >>=-eq-ok (normalise_endpoints env i.endpoints) _ rest in
    let (count, rest) = >>-eq-ok (validate_endpoints_count i.kind eps) _ rest in
    let (b, block, rest) = >>=-eq-ok (normalise_balancer env i.kind i.balancer eps) _ rest in
    let ((row, t'), stored, finished) = >>=-eq-ok _ finish_create rest in
    (eps, b, row, filled, count, block, ground arith, ground arith)

-- A created host is stored under its id. It is well shaped, and each of its endpoints stands on a
-- node that exists, with an inbound of that node, and a weight from 1 to 1000.
pub create_places :
    (env : Env) (i : CreateInput) (s t : MemoryStore) (out : Host) (es : List Effect)
    → create env i s ≡ ok (out, t, es)
    → (get_by_id out.id t ≡ ok out) × Shape out × All (Placed env) out.endpoints
unfolding finish_create new_host get_by_id
create_places env i s t out es h =
    let (eps, b, row, filled, count, block, stored, finished) = create-parts env i s t out es h in
    let c = create-Created (new_host env i eps b) row env.store_now s t stored in
    let back : get ℕ_discrete row.id t.by_id ≡ some row =
      ground (arith, c.stored, get-put ℕ_discrete row.id row.id row s.by_id) in
    let same : row ≡ out = ground arith in
    let shaped : Shape row = rw c.is_row (checked-Shaped env i.kind i.balancer b eps count block) in
    let (placed, _) = normalise_endpoints-Placed env i.endpoints eps filled in
    let on_nodes : All (Placed env) row.endpoints = rw c.is_row placed in
    (ground arith, subst Shape same shaped, subst (λ r. All (Placed env) r.endpoints) same on_nodes)

-- What a successful update has passed on the way.
update-parts :
    (env : Env) (id : ℕ) (i : UpdateInput) (s t : MemoryStore) (out : Host) (es : List Effect)
    → update env id i s ≡ ok (out, t, es)
    → (cur row : Host) × (eps : List Endpoint) × (b : Option Balancer) × (get ℕ_discrete id s.by_id
        ≡ some cur)
      × (validate_endpoints_count (choose i.kind cur.kind) eps ≡ ok tt)
      × (normalise_balancer env (choose i.kind cur.kind) (choose_some i.balancer cur.balancer) eps
          ≡ ok b)
      × (Store.update (some (merged i eps b cur)) env.store_now s ≡ ok (row, t))
      × (finish_update id (row, t) ≡ ok (out, t, es))
unfolding update update_found update_with finish_update get_by_id
update-parts env id i s t out es h = elim (Option-cases (get ℕ_discrete id s.by_id)) [
  | inl n ↦ absurd (ground arith)
  | inr (cur, n) ↦
      let found : update_found env id i cur s ≡ ok (out, t, es) = ground arith in
      let (fields, rest) = >>-eq-ok (check_update i) _ found in
      let (eps, filled, rest) = >>=-eq-ok (given_endpoints env i.endpoints cur.endpoints) _ rest in
      let (count, rest) = >>-eq-ok (validate_endpoints_count (choose i.kind cur.kind) eps) _ rest in
      let (b, block, rest) =
        >>=-eq-ok
          (normalise_balancer env (choose i.kind cur.kind) (choose_some i.balancer cur.balancer)
            eps)
          _ rest in
      let ((row, t'), stored, finished) = >>=-eq-ok _ (finish_update id) rest in
      (cur, row, eps, b, n, count, block, ground arith, ground arith)
]

-- A successful update answers with the row that is stored under the id, and that row is well shaped.
-- Its audit entry gives the new row as the row before the update, too.
pub update_shapes :
    (env : Env) (id : ℕ) (i : UpdateInput) (s t : MemoryStore) (out : Host) (es : List Effect)
    → Indexed s
    → update env id i s ≡ ok (out, t, es)
    → (get_by_id id t ≡ ok out)
      × Shape out
      × (es ≡ dispatches "host.updated" id ∷ records "host.update" id (some out) (some out) ∷ [])
unfolding finish_update merged get_by_id
update_shapes env id i s t out es v h =
    let (cur, row, eps, b, at, count, block, stored, finished) =
      update-parts env id i s t out es h in
    let (given, old, same, u) =
      update-Updated (some (merged i eps b cur)) row env.store_now s t stored in
    let own : cur.id ≡ id = v.keyed id cur at in
    let is : row
        ≡ record (merged i eps b cur) { created_at = old.created_at; updated_at = env.store_now } =
      ground (arith, u.is_row) in
    let row_id : row.id ≡ id = ground arith in
    let back : get ℕ_discrete id t.by_id ≡ some row =
      ground (arith, u.stored, get-put ℕ_discrete row.id row.id row s.by_id) in
    let answer : row ≡ out = ground arith in
    let shaped : Shape row = rw is (
      checked-Shaped env (choose i.kind cur.kind) (choose_some i.balancer cur.balancer) b eps count
        block) in
    (ground arith, subst Shape answer shaped, ground arith)

-- The row that a call answers with is the row that the store has written.
pub create-writes :
    (env : Env) (i : CreateInput) (s t : MemoryStore) (out : Host) (es : List Effect)
    → create env i s ≡ ok (out, t, es)
    → (h : Host) × (Store.create (some h) env.store_now s ≡ ok (out, t))
unfolding finish_create get_by_id
create-writes env i s t out es h =
    let (eps, b, row, filled, count, block, stored, finished) = create-parts env i s t out es h in
    let c = create-Created (new_host env i eps b) row env.store_now s t stored in
    let back : get ℕ_discrete row.id t.by_id ≡ some row =
      ground (arith, c.stored, get-put ℕ_discrete row.id row.id row s.by_id) in
    (new_host env i eps b, ground arith)

pub update-writes :
    (env : Env) (id : ℕ) (i : UpdateInput) (s t : MemoryStore) (out : Host) (es : List Effect)
    → Indexed s
    → update env id i s ≡ ok (out, t, es)
    → (h : Host) × (Store.update (some h) env.store_now s ≡ ok (out, t))
unfolding finish_update merged get_by_id
update-writes env id i s t out es v h =
    let (cur, row, eps, b, at, count, block, stored, finished) =
      update-parts env id i s t out es h in
    let (given, old, same, u) =
      update-Updated (some (merged i eps b cur)) row env.store_now s t stored in
    let own : cur.id ≡ id = v.keyed id cur at in
    let back : get ℕ_discrete row.id t.by_id ≡ some row =
      ground (arith, u.stored, get-put ℕ_discrete row.id row.id row s.by_id) in
    let row_id : row.id ≡ id = ground (arith, u.is_row) in (merged i eps b cur, ground arith)

pub delete-removes :
    (id : ℕ) (s t : MemoryStore) (out : Host) (es : List Effect)
    → delete id s ≡ ok (out, t, es)
    → Store.delete id s ≡ ok t
unfolding delete
delete-removes id s t out es h = ground arith

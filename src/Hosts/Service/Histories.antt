-- ===== src/Hosts/Service/Histories.antt =====
-- The hosts over any history of calls of the service.
use aegis_panel.Common.{ℕ, ℕ_discrete, get, put, get-put, ◌≡◌, some, List, arith, subst}
use aegis_panel.Hosts.Model.{Host, ok}
use aegis_panel.Hosts.Store.{MemoryStore, new_memory_store}
use aegis_panel.Hosts.Store.Remarks.{
  new-Indexed, create-Created, create-Indexed, update-Updated, update-Indexed, delete-Indexed,
  delete-left,
}
use aegis_panel.Hosts.Service.{Env, Effect, CreateInput, create, UpdateInput, update, delete}
use aegis_panel.Hosts.Service.Shapes.{Shape}
use aegis_panel.Hosts.Service.Changes.{
  AllShaped, Sound, create_places, create-writes, update_shapes, update-writes, delete-removes,
}

-- The calls that succeed, as steps from one store to the next.
pub data Step (s t : MemoryStore) : Type 0 where
  creates :
      (env : Env) (i : CreateInput) (out : Host) (es : List Effect)
      → create env i s ≡ ok (out, t, es)
      → Step s t
  updates :
      (env : Env) (id : ℕ) (i : UpdateInput) (out : Host) (es : List Effect)
      → update env id i s ≡ ok (out, t, es)
      → Step s t
  deletes : (id : ℕ) (out : Host) (es : List Effect) → delete id s ≡ ok (out, t, es) → Step s t

pub data Reach : MemoryStore → Type 0 where
  start : Reach new_memory_store
  next : {s t : MemoryStore} → Reach s → Step s t → Reach t

put-AllShaped :
    (row : Host) (s t : MemoryStore)
    → t.by_id ≡ put ℕ_discrete row.id row s.by_id
    → Shape row
    → AllShaped s
    → AllShaped t
put-AllShaped row s t e shaped all j h at = elim (ℕ_discrete row.id j) [
  | yes p ↦
      let same : row ≡ h = ground (arith, get-put ℕ_discrete row.id j row s.by_id) in
      subst Shape same shaped
  | no n ↦ all j h (ground (arith, get-put ℕ_discrete row.id j row s.by_id))
]

Step-Sound : {s t : MemoryStore} → Step s t → Sound s → Sound t
Step-Sound {s} {t} (creates env i out es h) (v, all) =
    let (given, stored) = create-writes env i s t out es h in
    let c = create-Created given out env.store_now s t stored in
    let (_, shaped, _) = create_places env i s t out es h in
    (
      create-Indexed (some given) out env.store_now s t stored v,
      put-AllShaped out s t c.stored shaped all,
    )
Step-Sound {s} {t} (updates env id i out es h) (v, all) =
    let (given, stored) = update-writes env id i s t out es v h in
    let (_, _, _, u) = update-Updated (some given) out env.store_now s t stored in
    let (_, shaped, _) = update_shapes env id i s t out es v h in
    (
      update-Indexed (some given) out env.store_now s t stored v,
      put-AllShaped out s t u.stored shaped all,
    )
Step-Sound {s} {t} (deletes id out es h) (v, all) =
    let gone = delete-removes id s t out es h in
    (delete-Indexed id s t gone v, λ j g at. all j g (delete-left id j g s t gone at))

-- After any history of calls of the service, the maps agree, and every host is well shaped: a direct
-- host with one endpoint and no balancer, or a balancer host with at least two endpoints and a
-- balancer block of a known strategy whose failover ids are ids of its endpoints.
pub Reach-Sound : {s : MemoryStore} → Reach s → Sound s
unfolding new_memory_store get
Reach-Sound start = (new-Indexed, λ i h at. cc)
Reach-Sound (next r st) = Step-Sound st (Reach-Sound r)

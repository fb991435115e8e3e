-- ===== src/Inbounds/Store/Lookups.antt =====
-- What the lookups find after a create, and which failing updates leave the store alone.
use aegis_panel.Common.{
  ℕ, ℕ_discrete, get, get-put, ◌≡◌, ◌≢◌, arith, Option, some, none, Option-cases, inl, inr,
}
use aegis_panel.Inbounds.Model.{Inbound, Error, duplicate, port_slot, ok, err}
use aegis_panel.Inbounds.Store.{
  MemoryStore, NodeKey_discrete, NodePortKey_discrete, node_key, node_port_key, create, get_by_id,
  get_by_node_and_name, get_by_node_and_port, update, update_at, update_found,
}
use aegis_panel.Inbounds.Store.Slots.{Created, create-Created}

-- The row that `create` returns is found under its id, its name and its port.
pub create_lookups :
    (i row : Inbound) (now : ℕ) (s t : MemoryStore)
    → create (some i) now s ≡ ok (row, t)
    → Created i row s t
      × (get_by_id row.id t ≡ ok row)
      × (get_by_node_and_name i.node_id i.name t ≡ ok row)
      × (get_by_node_and_port i.node_id i.listen_port t ≡ ok row)
unfolding create get_by_id get_by_node_and_name get_by_node_and_port
create_lookups i row now s t h =
    let c = create-Created i row now s t h in
    (
      c,
      ground (arith, c.stored, get-put ℕ_discrete row.id row.id row s.by_id),
      ground (
        arith,
        c.named,
        c.same_name,
        get-put NodeKey_discrete (node_key row) (node_key i) row s.by_node_key,
      ),
      ground (
        arith,
        c.at_port,
        c.same_port,
        get-put NodePortKey_discrete (node_port_key row) (node_port_key i) row s.by_node_port,
      ),
    )

-- An update that fails leaves the store as it was, unless the port was taken.
pub failed_update_keeps :
    (i : Option Inbound) (now : ℕ) (s t : MemoryStore) (why : Error)
    → update i now s ≡ (err why, t)
    → why ≢ duplicate port_slot
    → t ≡ s
unfolding update update_at update_found
failed_update_keeps none now s t why h n = ground arith
failed_update_keeps (some i) now s t why h n = elim (Option-cases (get ℕ_discrete i.id s.by_id)) [
  | inl e ↦ ground arith
  | inr (old, e) ↦ ground arith
]

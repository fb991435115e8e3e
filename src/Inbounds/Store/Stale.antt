-- ===== src/Inbounds/Store/Stale.antt =====
-- Where the lookups by name and by port fall behind the lookup by id.
use aegis_panel.Common.{
  ℕ, GoMap, ℕ_discrete, get, put, get-put, remove, ◌≡◌, ◌≢◌, refl, true, none, some, arith,
  get-remove, is_some,
}
use aegis_panel.Inbounds.Model.{Inbound, ok, err, duplicate, port_slot, not_found}
use aegis_panel.Inbounds.Store.{
  MemoryStore, NodeKey_discrete, NodePortKey_discrete, node_key, node_port_key, move, collides,
  update_found, update_at, update, get_by_id, get_by_node_and_name, get_by_node_and_port,
}

move_same :
    {K : Type 0} (d : Discrete K) (old new : K) (i : Inbound) (m : GoMap K Inbound)
    → old ≡ new
    → move d old new i m ≡ m
unfolding move
move_same d old new i m e = ground arith

-- An update that keeps the name and the port succeeds, and the lookup by id then finds the new row.
-- The lookups by name and by port still find what they found before: the row as it was.
pub update_leaves_stale :
    (i old : Inbound) (now : ℕ) (s : MemoryStore)
    → i.id ≢ 0
    → get ℕ_discrete i.id s.by_id ≡ some old
    → node_key old ≡ node_key i
    → node_port_key old ≡ node_port_key i
    → (row : Inbound) × (t : MemoryStore) × (update (some i) now s ≡ (ok row, t))
      × (row ≡ record i { created_at = old.created_at; updated_at = now })
      × (get_by_id i.id t ≡ ok row)
      × (get_by_node_and_name i.node_id i.name t ≡ get_by_node_and_name i.node_id i.name s)
      × (get_by_node_and_port i.node_id i.listen_port t
          ≡ get_by_node_and_port i.node_id i.listen_port s)
unfolding update update_at update_found collides get_by_id get_by_node_and_name get_by_node_and_port
update_leaves_stale i old now s nz at en ep =
    let row : Inbound = record i { created_at = old.created_at; updated_at = now } in
    let names = move_same NodeKey_discrete (node_key old) (node_key i) row s.by_node_key en in
    let ports =
      move_same NodePortKey_discrete (node_port_key old) (node_port_key i) row s.by_node_port ep in
    let t : MemoryStore = record {
      by_id = put ℕ_discrete i.id row s.by_id;
      by_node_key = s.by_node_key;
      by_node_port = s.by_node_port;
    } in
    (
      row,
      t,
      ground (arith, names, ports),
      refl,
      ground (arith, get-put ℕ_discrete i.id i.id row s.by_id),
      refl,
      refl,
    )

-- An update to a free name and to a port that is taken fails, and still changes the store: the
-- lookup by the new name finds the inbound that was refused, the one by the old name finds nothing,
-- and the lookup by id finds the row as it was.
pub failed_update_renames :
    (i old : Inbound) (now : ℕ) (s : MemoryStore)
    → i.id ≢ 0
    → get ℕ_discrete i.id s.by_id ≡ some old
    → node_key old ≢ node_key i
    → get NodeKey_discrete (node_key i) s.by_node_key ≡ none
    → node_port_key old ≢ node_port_key i
    → is_some (get NodePortKey_discrete (node_port_key i) s.by_node_port) ≡ true
    → (t : MemoryStore) × (update (some i) now s ≡ (err (duplicate port_slot), t))
      × (get_by_id i.id t ≡ ok old)
      × (get_by_node_and_name i.node_id i.name t ≡ ok i)
      × (get_by_node_and_name old.node_id old.name t ≡ err not_found)
unfolding update update_at update_found collides move get_by_id get_by_node_and_name
failed_update_renames i old now s nz at n free p taken =
    let index = remove NodeKey_discrete (node_key old) s.by_node_key in
    let t : MemoryStore = record s { by_node_key = put NodeKey_discrete (node_key i) i index } in
    (
      t,
      ground arith,
      ground arith,
      ground (arith, get-put NodeKey_discrete (node_key i) (node_key i) i index),
      ground (
        arith,
        get-put NodeKey_discrete (node_key i) (node_key old) i index,
        get-remove NodeKey_discrete (node_key old) (node_key old) s.by_node_key,
      ),
    )

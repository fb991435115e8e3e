-- ===== src/Inbounds/Store.antt =====
-- backend/internal/inbounds/store.go. A store's clock is the argument `now`. The mutex makes each
-- method one step. The table holds clones; the two other maps hold the pointers that were passed in,
-- and nothing writes to such a struct after the call: a row is a value in all three. An update that
-- fails can leave a changed store, so it returns the store in either case.
pub mod Slots
pub mod Histories
pub mod Lookups
pub mod Stale
use Prim.Derive.{×_discrete}
use aegis_panel.Common.{
  ℕ, String, String_discrete, ℕ_discrete, ℤ_discrete, GoMap, get, put, remove, Bool, true, false,
  Option, none, some, List, [], ◌==◌, ltb, lt_signed, lt_text, is_text, is_some, if◌then◌else◌,
  vals, sort_by, select, ite, ℤ, not,
}
use aegis_panel.Inbounds.Model.{
  Inbound, Protocol, Error, id_slot, name_slot, port_slot, nil_inbound, zero_id, missing_id,
  not_found, duplicate, Result, ok, err, ◌>>=◌, ◌>>◌, fail_if, or_fail,
}

-- (NodeID, Name), and (NodeID, ListenPort)
abbrev pub NodeKey : Type 0
NodeKey = ℕ × String

abbrev pub NodePortKey : Type 0
NodePortKey = ℕ × ℤ

unfoldable pub NodeKey_discrete : Discrete NodeKey
unfolding ℕ_discrete String_discrete
NodeKey_discrete = ×_discrete ℕ_discrete String_discrete

unfoldable pub NodePortKey_discrete : Discrete NodePortKey
unfolding ℕ_discrete ℤ_discrete
NodePortKey_discrete = ×_discrete ℕ_discrete ℤ_discrete

abbrev pub node_key : Inbound → NodeKey
node_key i = (i.node_id, i.name)

abbrev pub node_port_key : Inbound → NodePortKey
node_port_key i = (i.node_id, i.listen_port)

pub record MemoryStore : Type 0 where
  pub by_id : GoMap ℕ Inbound
  pub by_node_key : GoMap NodeKey Inbound
  pub by_node_port : GoMap NodePortKey Inbound

unfoldable pub new_memory_store : MemoryStore
new_memory_store = record { by_id = []; by_node_key = []; by_node_port = [] }

unfoldable pub create_row : Inbound → ℕ → MemoryStore → Result (Inbound × MemoryStore)
create_row i now s = do
  fail_if (i.id == 0) zero_id
  fail_if (is_some (get NodeKey_discrete (node_key i) s.by_node_key)) (duplicate name_slot)
  fail_if (is_some (get NodePortKey_discrete (node_port_key i) s.by_node_port))
      (duplicate port_slot)
  fail_if (is_some (get ℕ_discrete i.id s.by_id)) (duplicate id_slot)
  let row = record i { created_at = now; updated_at = now }
  ok (
    row,
    record {
      by_id = put ℕ_discrete i.id row s.by_id;
      by_node_key = put NodeKey_discrete (node_key i) row s.by_node_key;
      by_node_port = put NodePortKey_discrete (node_port_key i) row s.by_node_port;
    },
  )

unfoldable pub create : Option Inbound → ℕ → MemoryStore → Result (Inbound × MemoryStore)
create none now s = err nil_inbound
create (some i) now s = create_row i now s

unfoldable pub get_by_id : ℕ → MemoryStore → Result Inbound
get_by_id id s = or_fail (get ℕ_discrete id s.by_id) not_found

unfoldable pub get_by_node_and_name : ℕ → String → MemoryStore → Result Inbound
get_by_node_and_name node name s =
    or_fail (get NodeKey_discrete (node, name) s.by_node_key) not_found

unfoldable pub get_by_node_and_port : ℕ → ℤ → MemoryStore → Result Inbound
get_by_node_and_port node port s =
    or_fail (get NodePortKey_discrete (node, port) s.by_node_port) not_found

unfoldable pub port_before : Inbound → Inbound → Bool
port_before i j =
    if lt_signed i.listen_port j.listen_port
    then true
    else if lt_signed j.listen_port i.listen_port
    then false
    else lt_text i.name j.name

unfoldable pub node_before : Inbound → Inbound → Bool
unfolding port_before
node_before i j =
    let same = port_before i j in
    if ltb i.node_id j.node_id then true else if ltb j.node_id i.node_id then false else same

unfoldable pub list_by_node : ℕ → MemoryStore → List Inbound
unfolding vals sort_by port_before
list_by_node node s = sort_by port_before (select (λ i. i.node_id == node) (vals s.by_id))

unfoldable pub list_by_protocol : Protocol → MemoryStore → List Inbound
unfolding vals sort_by node_before
list_by_protocol p s = sort_by node_before (select (λ i. is_text i.protocol p) (vals s.by_id))

unfoldable pub list_all : MemoryStore → List Inbound
unfolding vals sort_by node_before
list_all s = sort_by node_before (vals s.by_id)

-- The index after the key of a row has moved: nothing happens where it has not.
unfoldable pub move :
    {K : Type 0} → Discrete K → K → K → Inbound → GoMap K Inbound → GoMap K Inbound
move d old new i m = ite (d old new) m (put d new i (remove d old m))

-- A key that moves to one that is taken.
unfoldable pub collides : {K : Type 0} → Discrete K → K → K → GoMap K Inbound → Bool
collides d old new m = ite (d old new) false (is_some (get d new m))

-- The name map is written before the port is checked.
unfoldable pub update_found : Inbound → Inbound → ℕ → MemoryStore → Result Inbound × MemoryStore
unfolding move collides
update_found existing i now s =
    if collides NodeKey_discrete (node_key existing) (node_key i) s.by_node_key
    then (err (duplicate name_slot), s)
    else if collides NodePortKey_discrete (node_port_key existing) (node_port_key i) s.by_node_port
    then (
      err (duplicate port_slot),
      record s {
        by_node_key = move NodeKey_discrete (node_key existing) (node_key i) i s.by_node_key;
      },
    )
    else let row : Inbound = record i { created_at = existing.created_at; updated_at = now } in
      (
        ok row,
        record {
          by_id = put ℕ_discrete i.id row s.by_id;
          by_node_key = move NodeKey_discrete (node_key existing) (node_key i) row s.by_node_key;
          by_node_port =
              move NodePortKey_discrete (node_port_key existing) (node_port_key i) row
                s.by_node_port;
        },
      )

unfoldable pub update_at : Option Inbound → Inbound → ℕ → MemoryStore → Result Inbound × MemoryStore
update_at none i now s = (err not_found, s)
update_at (some existing) i now s = update_found existing i now s

unfoldable pub update : Option Inbound → ℕ → MemoryStore → Result Inbound × MemoryStore
update none now s = (err missing_id, s)
update (some i) now s =
    if i.id == 0 then (err missing_id, s) else update_at (get ℕ_discrete i.id s.by_id) i now s

unfoldable pub delete : ℕ → MemoryStore → Result MemoryStore
delete id s = do
  i ← or_fail (get ℕ_discrete id s.by_id) not_found
  ok (record {
    by_id = remove ℕ_discrete id s.by_id;
    by_node_key = remove NodeKey_discrete (node_key i) s.by_node_key;
    by_node_port = remove NodePortKey_discrete (node_port_key i) s.by_node_port;
  })

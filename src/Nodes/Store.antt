-- ===== src/Nodes/Store.antt =====
-- backend/internal/nodes/store.go. A store's clock is the argument `now`; on an error the store is
-- unchanged. The table holds clones (the clone of a node is the node), and the other map ids. The
-- mutex makes each method one step.
pub mod Names
use aegis_panel.Common.{
  ℕ, String, String_discrete, ℕ_discrete, GoMap, get, put, remove, Option, none, some, List, [],
  ◌==◌, ltb, Bool, is_text, is_some, if◌then◌else◌, vals, sort_by,
}
use aegis_panel.Nodes.Model.{
  Node, agent_transport_http, nil_node, zero_id, missing_id, not_found, duplicate_name,
  duplicate_id, Result, ok, err, ◌>>=◌, ◌>>◌, fail_if, or_fail,
}

pub record MemoryStore : Type 0 where
  pub by_id : GoMap ℕ Node
  pub by_key : GoMap String ℕ

unfoldable pub new_memory_store : MemoryStore
new_memory_store = record { by_id = []; by_key = [] }

abbrev pub or_http : String → String
or_http transport = if is_text transport "" then agent_transport_http else transport

unfoldable pub create_row : Node → ℕ → MemoryStore → Result (Node × MemoryStore)
create_row n now s = do
  fail_if (n.id == 0) zero_id
  fail_if (is_some (get String_discrete n.name s.by_key)) duplicate_name
  fail_if (is_some (get ℕ_discrete n.id s.by_id)) duplicate_id
  let row = record n {
    agent_transport = or_http n.agent_transport;
    created_at = now;
    updated_at = now;
  }
  ok (
    row,
    record {
      by_id = put ℕ_discrete n.id row s.by_id;
      by_key = put String_discrete n.name n.id s.by_key;
    },
  )

unfoldable pub create : Option Node → ℕ → MemoryStore → Result (Node × MemoryStore)
create none now s = err nil_node
create (some n) now s = create_row n now s

unfoldable pub get_by_id : ℕ → MemoryStore → Result Node
get_by_id id s = or_fail (get ℕ_discrete id s.by_id) not_found

-- A name whose id has no row would be a nil dereference: `none`.
unfoldable pub get_by_name : String → MemoryStore → Option (Result Node)
get_by_name name s = elim (get String_discrete name s.by_key) [
  | none ↦ some (err not_found)
  | some id ↦ elim (get ℕ_discrete id s.by_id) [ none ↦ none | some n ↦ some (ok n) ]
]

abbrev older : Node → Node → Bool
older m n = ltb m.created_at n.created_at

unfoldable pub list : MemoryStore → List Node
unfolding vals sort_by
list s = sort_by older (vals s.by_id)

unfoldable pub update_found : Node → Node → ℕ → MemoryStore → Result (Node × MemoryStore)
update_found existing n now s =
    let row : Node = record n { created_at = existing.created_at; updated_at = now } in
    let rows : GoMap ℕ Node = put ℕ_discrete n.id row s.by_id in
    if is_text n.name existing.name
    then ok (row, record s { by_id = rows })
    else if is_some (get String_discrete n.name s.by_key)
    then err duplicate_name
    else ok (
      row,
      record {
        by_id = rows;
        by_key = put String_discrete n.name n.id (remove String_discrete existing.name s.by_key);
      },
    )

unfoldable pub update : Option Node → ℕ → MemoryStore → Result (Node × MemoryStore)
update none now s = err missing_id
update (some n) now s = do
  fail_if (n.id == 0) missing_id
  existing ← or_fail (get ℕ_discrete n.id s.by_id) not_found
  update_found existing n now s

unfoldable pub delete : ℕ → MemoryStore → Result MemoryStore
delete id s = do
  n ← or_fail (get ℕ_discrete id s.by_id) not_found
  ok (record {
    by_id = remove ℕ_discrete id s.by_id;
    by_key = remove String_discrete n.name s.by_key;
  })

-- One column of a row, and the time of the change.
unfoldable pub set_column : (Node → Node) → ℕ → ℕ → MemoryStore → Result MemoryStore
set_column change id now s = do
  existing ← or_fail (get ℕ_discrete id s.by_id) not_found
  ok (record s {
    by_id = put ℕ_discrete id (record (change existing) { updated_at = now }) s.by_id;
  })

unfoldable pub set_agent_bearer : ℕ → String → ℕ → MemoryStore → Result MemoryStore
unfolding set_column
set_agent_bearer id bearer = set_column (λ n. record n { agent_bearer = bearer }) id

unfoldable pub set_ssh_private_key_ciphertext : ℕ → List ℕ → ℕ → MemoryStore → Result MemoryStore
unfolding set_column
set_ssh_private_key_ciphertext id bytes =
    set_column (λ n. record n { ssh_private_key_ciphertext = bytes }) id

unfoldable pub set_agent_transport : ℕ → String → ℕ → MemoryStore → Result MemoryStore
unfolding set_column
set_agent_transport id transport = set_column (λ n. record n { agent_transport = transport }) id

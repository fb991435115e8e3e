-- ===== src/Nodes/Tests.antt =====
-- The node store and service on small inputs.
use aegis_panel.Common.{
  ℕ, String_discrete, ℕ_discrete, get, put, remove, ◌≡◌, refl, none, some, List, [], ◌∷◌,
  trim_space, trim_left, trim_right, keep_end, is_space, is_name_char, codes, collect_tags,
}
use aegis_panel.Nodes.Model.{Node, ok}
use aegis_panel.Nodes.Store
use aegis_panel.Nodes.Store.{
  MemoryStore, new_memory_store, create_row, get_by_id, set_agent_transport, set_column,
}
use aegis_panel.Nodes.Store.Names.{Reach, start, next, creates}
use aegis_panel.Nodes.Service.{
  Effect, dispatches, records, records_rotation, CreateInput, check_input, validate_name,
  validate_region, validate_address, split_host_port, check_parts, validate_state, is_state,
  new_node, normalise_tags, finish_create, create, rotate_transport, rotate_found, finish_rotate,
  validate_agent_transport,
}

abbrev input : CreateInput
input = record {
  id = 0;
  name = "fra-1";
  region = "eu";
  state = "disabled";
  address = "10.0.0.1:22";
  capacity_hint = "";
  tags = [];
}

abbrev node : Node
node = record {
  id = 7;
  name = "fra-1";
  region = "eu";
  state = "disabled";
  capacity_hint = "";
  address = "10.0.0.1:22";
  agent_bearer = "";
  ssh_private_key_ciphertext = [];
  agent_transport = "http";
  tags = [];
  created_at = 6;
  updated_at = 6;
}

abbrev one_node : MemoryStore
one_node = record { by_id = (7, node) ∷ []; by_key = ("fra-1", 7) ∷ [] }

creates_node :
    create 7 6 input new_memory_store
    ≡ ok (
      node,
      one_node,
      dispatches "node.created" 7 ∷ records "node.create" 7 none (some node) ∷ [],
    )
unfolding create check_input validate_name validate_region validate_address split_host_port
    check_parts validate_state is_state new_node normalise_tags finish_create collect_tags
    trim_space trim_left trim_right keep_end is_space is_name_char Store.create create_row get_by_id
    new_memory_store get put remove ℕ_discrete String_discrete
creates_node = refl

-- An address without a port is refused: the last colon splits it.
splits_address : split_host_port (codes "a:b:22") ≡ some (codes "a:b", codes "22")
unfolding split_host_port
splits_address = refl

stores_node : Store.create (some node) 6 new_memory_store ≡ ok (node, one_node)
unfolding Store.create create_row new_memory_store get put remove ℕ_discrete String_discrete
stores_node = refl

reached : Reach one_node
reached = next start (creates (some node) node 6 stores_node)

abbrev the_id : ℕ
the_id = 7

finds_node : get_by_id 7 one_node ≡ ok node
unfolding get_by_id get ℕ_discrete
finds_node = refl

abbrev rotated : Node
rotated = record node { agent_transport = "grpc"; updated_at = 9 }

abbrev after_rotation : MemoryStore
after_rotation = record one_node { by_id = (7, rotated) ∷ [] }

abbrev rotation_effects : List Effect
rotation_effects = dispatches "node.updated" 7 ∷ records_rotation 7 node "grpc" "http" ∷ []

rotates_node : rotate_transport 9 7 "grpc" one_node ≡ ok (rotated, after_rotation, rotation_effects)
unfolding rotate_transport validate_agent_transport rotate_found finish_rotate set_agent_transport
    set_column get_by_id get put remove ℕ_discrete
rotates_node = refl

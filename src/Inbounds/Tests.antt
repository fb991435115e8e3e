-- ===== src/Inbounds/Tests.antt =====
-- The inbound store and service on small inputs.
use aegis_panel.Common.{
  ℕ, String, differ, String_discrete, ℕ_discrete, ℤ_discrete, get, put, remove, ◌≡◌, ◌≢◌, inl, refl,
  ap, true, false, none, some, List, [], ◌∷◌, ℤ, pos, arith, trim_space, trim_left, trim_right,
  keep_end, is_space, is_name_char, is_control, collect_tags, Bool,
}
use aegis_panel.Cores.Batched.{BatchedApplier, flush, add_user, remove_user}
use aegis_panel.Inbounds.Model.{
  Inbound, name_field, ok, err, duplicate, port_slot, not_found, invalid,
}
use aegis_panel.Inbounds.Validate.{
  validate_name, validate_node, validate_protocol, is_allowed_protocol, validate_port,
  validate_listen, is_printable_host, is_host_char, same_port, collect_ports,
  normalise_listen_ports, any_long, validate_tags, normalise_tags,
}
use aegis_panel.Inbounds.Store
use aegis_panel.Inbounds.Store.{
  MemoryStore, NodeKey_discrete, NodePortKey_discrete, node_key, node_port_key, new_memory_store,
  create_row, get_by_id, get_by_node_and_name, get_by_node_and_port, collides, move, update_at,
}
use aegis_panel.Inbounds.Store.Slots.{Indexed, new-Indexed, create-Indexed}
use aegis_panel.Inbounds.Store.Histories.{Reach, start, next, creates, slots_unique}
use aegis_panel.Inbounds.Store.Stale.{update_leaves_stale, failed_update_renames}
use aegis_panel.Inbounds.Service.{
  Env, Effect, Template, has_protocol, dispatches, records, enqueues, enqueue_for_node, CreateInput,
  check_input, new_inbound, finish_create, create, UpdateInput, update, update_found,
  update_checked, check_update, delete,
}
use aegis_panel.Inbounds.Service.Changes.{only_protocol}
use aegis_panel.Inbounds.Service.Window.{absorb_effects, create_then_delete_lost}

abbrev no_ip : String → Bool
no_ip s = false

abbrev any_node : ℕ → Bool
any_node id = true

abbrev find : ℕ → Template
find id = has_protocol "vless"

abbrev env : Env
env = record {
  store_now = 6;
  new_id = 8;
  node_exists = any_node;
  is_ip = no_ip;
  templates = some find;
  appliers = (1, true) ∷ [];
}

abbrev first : Inbound
first = record {
  id = 7;
  node_id = 1;
  name = "a";
  protocol = "vless";
  listen = "::";
  listen_port = pos 443;
  listen_ports = [];
  enabled = true;
  tags = [];
  template_id = some 9;
  params = [];
  created_at = 5;
  updated_at = 5;
}

abbrev one_inbound : MemoryStore
one_inbound = record {
  by_id = (7, first) ∷ [];
  by_node_key = ((1, "a"), first) ∷ [];
  by_node_port = ((1, pos 443), first) ∷ [];
}

abbrev input : CreateInput
input = record {
  id = 0;
  node_id = 1;
  name = " b ";
  protocol = "trojan";
  listen = "";
  listen_port = pos 444;
  listen_ports = pos 8443 ∷ pos 8443 ∷ [];
  enabled = none;
  tags = " eu " ∷ "eu" ∷ [];
  template_id = none;
  params = [];
}

abbrev second : Inbound
second = record {
  id = 8;
  node_id = 1;
  name = "b";
  protocol = "trojan";
  listen = "::";
  listen_port = pos 444;
  listen_ports = pos 8443 ∷ [];
  enabled = true;
  tags = "eu" ∷ [];
  template_id = none;
  params = [];
  created_at = 6;
  updated_at = 6;
}

abbrev two_inbounds : MemoryStore
two_inbounds = record {
  by_id = (8, second) ∷ (7, first) ∷ [];
  by_node_key = ((1, "b"), second) ∷ ((1, "a"), first) ∷ [];
  by_node_port = ((1, pos 444), second) ∷ ((1, pos 443), first) ∷ [];
}

stores_first : Store.create (some first) 5 new_memory_store ≡ ok (first, one_inbound)
unfolding Store.create create_row new_memory_store get put remove ℕ_discrete String_discrete
    ℤ_discrete NodeKey_discrete NodePortKey_discrete
stores_first = refl

reached : Reach one_inbound
reached = next start (creates (some first) first 5 stores_first)

one-Indexed : Indexed one_inbound
one-Indexed =
    create-Indexed (some first) first 5 new_memory_store one_inbound stores_first new-Indexed

abbrev created_effects : List Effect
created_effects =
    dispatches "inbound.created" 8
    ∷ records "inbound.create" 8 none (some second)
    ∷ enqueues 1 add_user
    ∷ []

creates_second : create env input one_inbound ≡ ok (second, two_inbounds, created_effects)
unfolding create check_input validate_name validate_node validate_protocol is_allowed_protocol
    validate_port validate_listen is_printable_host is_host_char is_name_char is_control same_port
    collect_ports normalise_listen_ports any_long validate_tags collect_tags normalise_tags
    trim_space trim_left trim_right keep_end is_space new_inbound finish_create enqueue_for_node
    Store.create create_row get_by_id get put remove ℕ_discrete String_discrete ℤ_discrete
    NodeKey_discrete NodePortKey_discrete
creates_second = refl

abbrev without_first : MemoryStore
without_first = record {
  by_id = (8, second) ∷ [];
  by_node_key = ((1, "b"), second) ∷ [];
  by_node_port = ((1, pos 444), second) ∷ [];
}

abbrev deleted_effects : List Effect
deleted_effects =
    dispatches "inbound.deleted" 7
    ∷ records "inbound.delete" 7 (some first) none
    ∷ enqueues 1 remove_user
    ∷ []

deletes_first : delete env 7 two_inbounds ≡ ok (first, without_first, deleted_effects)
unfolding delete Store.delete enqueue_for_node get_by_id get put remove ℕ_discrete String_discrete
    ℤ_discrete NodeKey_discrete NodePortKey_discrete
deletes_first = refl

abbrev applier : BatchedApplier
applier = record { window = 20; max_queue = 10; queue = []; pending = []; flushed = [] }

create_then_delete_lost_example :
    flush (absorb_effects 1 deleted_effects (absorb_effects 1 created_effects applier)) ≡ applier
unfolding get ℕ_discrete
create_then_delete_lost_example =
    create_then_delete_lost env env input 7 one_inbound two_inbounds without_first second first
      created_effects deleted_effects applier creates_second deletes_first (λ e. omega arith) refl
      (λ e. omega arith) refl refl refl

abbrev the_id : ℕ
the_id = 7

slots_unique_example : the_id ≡ the_id
unfolding get ℕ_discrete
slots_unique_example = slots_unique the_id the_id first first reached refl refl refl (inl refl)

-- The lookup by name after an update of the protocol: the row as it was.
abbrev changed : Inbound
changed = record first { protocol = "trojan" }

update_leaves_stale_example :
    (row : Inbound) × (t : MemoryStore) × (Store.update (some changed) 9 one_inbound ≡ (ok row, t))
    × (row ≡ record changed { created_at = 5; updated_at = 9 })
    × (get_by_id 7 t ≡ ok row)
    × (get_by_node_and_name 1 "a" t ≡ get_by_node_and_name 1 "a" one_inbound)
    × (get_by_node_and_port 1 (pos 443) t ≡ get_by_node_and_port 1 (pos 443) one_inbound)
unfolding get ℕ_discrete
update_leaves_stale_example =
    update_leaves_stale changed first 9 one_inbound (λ e. omega arith) refl refl refl

-- A new name, and the port of the other inbound.
abbrev clash : Inbound
clash = record first { name = "c"; listen_port = pos 444 }

other_port : node_port_key first ≢ node_port_key clash
other_port e = ground (arith, ap (λ (k : ℕ × ℤ). k.1) e)

failed_update_renames_example :
    (t : MemoryStore) × (Store.update (some clash) 9 two_inbounds ≡ (err (duplicate port_slot), t))
    × (get_by_id 7 t ≡ ok first)
    × (get_by_node_and_name 1 "c" t ≡ ok clash)
    × (get_by_node_and_name 1 "a" t ≡ err not_found)
unfolding get ℕ_discrete NodeKey_discrete NodePortKey_discrete String_discrete ℤ_discrete
failed_update_renames_example =
    failed_update_renames clash first 9 two_inbounds (λ e. omega arith) refl
      (λ e. differ "a" "c" refl (ap (λ (k : ℕ × String). k.1) e)) refl other_port refl

abbrev rename : UpdateInput
rename = record (only_protocol "vless") { protocol = none; name = some "a b" }

refuses_rename : update env 7 rename one_inbound ≡ (err (invalid name_field), one_inbound)
unfolding update update_found update_checked check_update validate_name is_name_char trim_space
    trim_left trim_right keep_end is_space get_by_id get ℕ_discrete
refuses_rename = refl

abbrev given_ports : List ℤ
given_ports = pos 8443 ∷ pos 443 ∷ pos 8443 ∷ []

abbrev kept_ports : List ℤ
kept_ports = pos 8443 ∷ pos 443 ∷ []

keeps_ports : normalise_listen_ports given_ports ≡ ok kept_ports
unfolding normalise_listen_ports collect_ports same_port validate_port ℤ_discrete ℕ_discrete
keeps_ports = refl

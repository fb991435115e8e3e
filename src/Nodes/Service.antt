-- ===== src/Nodes/Service.antt =====
-- backend/internal/nodes/service.go over the in-memory store. A call returns the node, the store and
-- what it sent out, in order: a webhook event and an audit entry. What those receivers do with it
-- cannot fail the call, and is not part of it.
pub mod Changes
use Prim.Native.String.{len}
use aegis_panel.Common.{
  ℕ, String, trim_space, Bool, true, false, not, ◌||◌, Option, some, none, List, [], ◌∷◌, ◌==◌, ltb,
  is_text, codes, every, is_name_char, collect_tags, if◌then◌else◌,
}
use aegis_panel.Bootstrap.State.{
  State, state_new, state_online, state_offline, state_draining, state_disabled,
}
use aegis_panel.Nodes.Model.{
  Node, agent_transport_http, agent_transport_grpc, Field, id_field, name_field, region_field,
  address_field, state_field, agent_transport_field, invalid, Result, ok, err, ◌>>=◌, ◌>>◌, fail_if,
}
use aegis_panel.Nodes.Store
use aegis_panel.Nodes.Store.{MemoryStore}

abbrev pub max_name_len : ℕ
max_name_len = 63

abbrev pub max_region_len : ℕ
max_region_len = 32

abbrev pub max_address_len : ℕ
max_address_len = 255

abbrev pub max_tag_len : ℕ
max_tag_len = 32

abbrev pub max_tags : ℕ
max_tags = 16

unfoldable pub validate_name : String → Result (Unit {0})
validate_name raw =
    let name = trim_space raw in
    do
      fail_if (is_text name "") (invalid name_field)
      fail_if (ltb max_name_len (len name)) (invalid name_field)
      fail_if (not (every is_name_char (codes name))) (invalid name_field)

unfoldable pub validate_region : String → Result (Unit {0})
validate_region raw =
    let region = trim_space raw in
    do
      fail_if (is_text region "") (invalid region_field)
      fail_if (ltb max_region_len (len region)) (invalid region_field)

abbrev pub longer : ℕ → Option (List ℕ × List ℕ) → Option (List ℕ × List ℕ)
longer c none = none
longer c (some (host, port)) = some (c ∷ host, port)

abbrev pub split_here : ℕ → List ℕ → Option (List ℕ × List ℕ) → Option (List ℕ × List ℕ)
split_here c cs (some later) = longer c (some later)
split_here c cs none = if c == b':' then some ([], cs) else none

-- splitHostPort: the texts before and after the last colon.
unfoldable pub split_host_port : List ℕ → Option (List ℕ × List ℕ)
split_host_port [] = none
split_host_port (c ∷ cs) = let later = split_host_port cs in split_here c cs later

abbrev pub is_empty : List ℕ → Bool
is_empty [] = true
is_empty (c ∷ cs) = false

unfoldable pub check_parts : Option (List ℕ × List ℕ) → Result (Unit {0})
check_parts none = err (invalid address_field)
check_parts (some (host, port)) = do
  fail_if (is_empty host) (invalid address_field)
  fail_if (is_empty port) (invalid address_field)

unfoldable pub validate_address : String → Result (Unit {0})
validate_address raw =
    let address = trim_space raw in
    do
      fail_if (is_text address "") (invalid address_field)
      check_parts (split_host_port (codes address))
      fail_if (ltb max_address_len (len address)) (invalid address_field)

unfoldable pub is_state : State → Bool
is_state s =
    is_text s state_new
    || (is_text s state_online
        || (is_text s state_draining || (is_text s state_offline || is_text s state_disabled)))

unfoldable pub validate_state : State → Result (Unit {0})
validate_state s = fail_if (not (is_state s)) (invalid state_field)

unfoldable pub validate_agent_transport : String → Result (Unit {0})
validate_agent_transport t =
    fail_if (not (is_text t agent_transport_http || is_text t agent_transport_grpc))
      (invalid agent_transport_field)

unfoldable pub normalise_tags : List String → List String
unfolding collect_tags
normalise_tags tags = collect_tags max_tag_len max_tags [] tags

-- An event, an audit entry with the rows before and after, or one with the two transports.
pub data Effect : Type 0 where
  dispatches : (event : String) → (id : ℕ) → Effect
  records : (action : String) → (id : ℕ) → (before after : Option Node) → Effect
  records_rotation : (id : ℕ) → (before : Node) → (transport previous : String) → Effect

abbrev pub Call : Type 0
Call = Result (Node × MemoryStore × List Effect)

unfoldable pub get_node : ℕ → MemoryStore → Result Node
get_node id s = do fail_if (id == 0) (invalid id_field); Store.get_by_id id s

pub record CreateInput : Type 0 where
  pub id : ℕ
  pub name : String
  pub region : String
  pub state : State
  pub address : String
  pub capacity_hint : String
  pub tags : List String

abbrev pub state_or_new : State → State
state_or_new s = if is_text s "" then state_new else s

unfoldable pub check_input : CreateInput → Result (Unit {0})
check_input i = do
  validate_name i.name
  validate_region i.region
  validate_address i.address
  validate_state (state_or_new i.state)

unfoldable pub new_node : ℕ → CreateInput → Node
new_node fresh i = record {
  id = if i.id == 0 then fresh else i.id;
  name = i.name;
  region = i.region;
  state = state_or_new i.state;
  capacity_hint = trim_space i.capacity_hint;
  address = i.address;
  agent_bearer = "";
  ssh_private_key_ciphertext = [];
  agent_transport = "";
  tags = normalise_tags i.tags;
  created_at = 0;
  updated_at = 0;
}

unfoldable pub finish_create : Node × MemoryStore → Call
finish_create (row, t) = do
  out ← Store.get_by_id row.id t
  ok (out, t, dispatches "node.created" out.id ∷ records "node.create" out.id none (some out) ∷ [])

-- `fresh` is the answer of uuid.New, `now` the store's clock.
unfoldable pub create : ℕ → ℕ → CreateInput → MemoryStore → Call
unfolding new_node
create fresh now i s = do
  check_input i
  stored ← Store.create (some (new_node fresh i)) now s
  finish_create stored

-- A `none` leaves the field alone.
pub record UpdateInput : Type 0 where
  pub name : Option String
  pub region : Option String
  pub state : Option State
  pub address : Option String
  pub capacity_hint : Option String
  pub tags : Option (List String)

abbrev pub given {ℓ} : {A : Type ℓ} → Option A → (A → Result (Unit {0})) → Result (Unit {0})
given none check = ok tt
given (some a) check = check a

abbrev pub choose {ℓ} : {A : Type ℓ} → Option A → A → A
choose none old = old
choose (some a) old = a

abbrev pub option_or : {A B : Type 0} → Option A → (A → B) → B → B
option_or none f old = old
option_or (some a) f old = f a

unfoldable pub check_update : UpdateInput → Result (Unit {0})
check_update i = do
  given i.name validate_name
  given i.region validate_region
  given i.state validate_state
  given i.address validate_address

unfoldable pub merged : UpdateInput → Node → Node
merged i cur = record cur {
  name = choose i.name cur.name;
  region = choose i.region cur.region;
  state = choose i.state cur.state;
  address = choose i.address cur.address;
  capacity_hint = option_or i.capacity_hint trim_space cur.capacity_hint;
  tags = option_or i.tags normalise_tags cur.tags;
}

-- `row` is the struct that the merge and the store have written to: the audit entry's "before".
unfoldable pub finish_update : ℕ → Node × MemoryStore → Call
finish_update id (row, t) = do
  out ← Store.get_by_id id t
  ok (
    out,
    t,
    dispatches "node.updated" out.id ∷ records "node.update" out.id (some row) (some out) ∷ [],
  )

unfoldable pub update : ℕ → ℕ → UpdateInput → MemoryStore → Call
unfolding merged
update now id i s = do
  fail_if (id == 0) (invalid id_field)
  cur ← Store.get_by_id id s
  check_update i
  stored ← Store.update (some (merged i cur)) now s
  finish_update id stored

unfoldable pub delete : ℕ → MemoryStore → Call
delete id s = do
  fail_if (id == 0) (invalid id_field)
  cur ← Store.get_by_id id s
  t ← Store.delete id s
  ok (cur, t, dispatches "node.deleted" id ∷ records "node.delete" id (some cur) none ∷ [])

unfoldable pub finish_rotate : ℕ → Node → String → MemoryStore → Call
finish_rotate id cur transport t = do
  out ← Store.get_by_id id t
  ok (
    out,
    t,
    dispatches "node.updated" out.id ∷ records_rotation id cur transport cur.agent_transport ∷ [],
  )

-- Nothing is written, and nothing sent out, where the node has the transport.
unfoldable pub rotate_found : ℕ → ℕ → Node → String → MemoryStore → Call
rotate_found now id cur transport s =
    let rotated = Store.set_agent_transport id transport now s >>= finish_rotate id cur transport in
    if is_text cur.agent_transport transport then ok (cur, s, []) else rotated

unfoldable pub rotate_transport : ℕ → ℕ → String → MemoryStore → Call
rotate_transport now id transport s = do
  fail_if (id == 0) (invalid id_field)
  validate_agent_transport transport
  cur ← Store.get_by_id id s
  rotate_found now id cur transport s

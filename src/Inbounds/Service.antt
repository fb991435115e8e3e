-- ===== src/Inbounds/Service.antt =====
-- backend/internal/inbounds/service.go over the in-memory store. A call returns its answer, the store
-- and what it sent out, in order: a webhook event, an audit entry and a delta for the node's applier.
-- What those receivers do with it cannot fail the call, and is not part of it.
pub mod Changes
pub mod Window
use aegis_panel.Common.{
  ℕ, ℕ_discrete, GoMap, get, String, trim_space, not, Bool, true, false, Option, some, none, List,
  [], ◌∷◌, ◌++◌, ◌==◌, is_text, ℤ, if◌then◌else◌,
}
use aegis_panel.Cores.Batched.{DeltaKind, add_user, remove_user}
use aegis_panel.Inbounds.Model.{
  Inbound, Protocol, default_listen, Field, id_field, node_id_field, protocol_field,
  template_id_field, lookup_failed, invalid, Error, Result, ok, err, ◌>>=◌, ◌>>◌, fail_if,
}
use aegis_panel.Inbounds.Validate.{
  validate_name, validate_node, validate_protocol, is_allowed_protocol, validate_port,
  validate_listen, normalise_listen_ports, validate_tags, normalise_tags,
}
use aegis_panel.Inbounds.Store
use aegis_panel.Inbounds.Store.{MemoryStore}

-- What the templates service answers to an id.
pub data Template : Type 0 where
  missing_template failed_lookup : Template
  has_protocol : Protocol → Template

-- What a call takes from outside: the store's clock, a fresh id, what the nodes service and
-- net.ParseIP say, the templates service if it is wired, and the wired appliers (false where the
-- pointer is nil).
pub record Env : Type 0 where
  pub store_now : ℕ
  pub new_id : ℕ
  pub node_exists : ℕ → Bool
  pub is_ip : String → Bool
  pub templates : Option (ℕ → Template)
  pub appliers : GoMap ℕ Bool

pub data Effect : Type 0 where
  dispatches : (event : String) → (id : ℕ) → Effect
  records : (action : String) → (id : ℕ) → (before after : Option Inbound) → Effect
  enqueues : (node : ℕ) → DeltaKind → Effect

abbrev pub wired : Option Bool → Bool
wired none = false
wired (some present) = present

unfoldable pub enqueue_for_node : Env → ℕ → DeltaKind → List Effect
enqueue_for_node env node kind =
    if node == 0
    then []
    else if wired (get ℕ_discrete node env.appliers)
    then enqueues node kind ∷ []
    else []

abbrev pub Call : Type 0
Call = Result (Inbound × MemoryStore × List Effect)

unfoldable pub get_inbound : ℕ → MemoryStore → Result Inbound
get_inbound id s = do fail_if (id == 0) (invalid id_field); Store.get_by_id id s

unfoldable pub list_by_node : ℕ → MemoryStore → Result (List Inbound)
list_by_node node s = do fail_if (node == 0) (invalid node_id_field); ok (Store.list_by_node node s)

unfoldable pub list_by_protocol : Protocol → MemoryStore → Result (List Inbound)
list_by_protocol p s = do
  fail_if (not (is_allowed_protocol p)) (invalid protocol_field)
  ok (Store.list_by_protocol p s)

unfoldable pub check_template : Template → Protocol → Result (Unit {0})
check_template missing_template proto = err (invalid template_id_field)
check_template failed_lookup proto = err lookup_failed
check_template (has_protocol p) proto = fail_if (not (is_text p proto)) (invalid template_id_field)

unfoldable pub validate_template_id : Option (ℕ → Template) → ℕ → Protocol → Result (Unit {0})
validate_template_id none id proto = ok tt
validate_template_id (some find) id proto = do
  fail_if (id == 0) (invalid template_id_field)
  check_template (find id) proto

pub record CreateInput : Type 0 where
  pub id : ℕ
  pub node_id : ℕ
  pub name : String
  pub protocol : Protocol
  pub listen : String
  pub listen_port : ℤ
  pub listen_ports : List ℤ
  pub enabled : Option Bool
  pub tags : List String
  pub template_id : Option ℕ
  pub params : List (String × String)

abbrev pub or_default : String → String
or_default listen = if is_text listen "" then default_listen else listen

abbrev pub given {ℓ} : {A : Type ℓ} → Option A → (A → Result (Unit {0})) → Result (Unit {0})
given none check = ok tt
given (some a) check = check a

abbrev pub choose {ℓ} : {A : Type ℓ} → Option A → A → A
choose none old = old
choose (some a) old = a

-- The checks of `Create`, and the extra ports.
unfoldable pub check_input : Env → CreateInput → Result (List ℤ)
check_input env i = do
  validate_name (trim_space i.name)
  validate_node env.node_exists i.node_id
  validate_protocol i.protocol
  validate_port i.listen_port
  validate_listen env.is_ip (or_default i.listen)
  extra ← normalise_listen_ports i.listen_ports
  validate_tags i.tags
  given i.template_id (λ id. validate_template_id env.templates id i.protocol)
  ok extra

unfoldable pub new_inbound : Env → CreateInput → List ℤ → Inbound
new_inbound env i extra = record {
  id = if i.id == 0 then env.new_id else i.id;
  node_id = i.node_id;
  name = trim_space i.name;
  protocol = i.protocol;
  listen = or_default i.listen;
  listen_port = i.listen_port;
  listen_ports = extra;
  enabled = choose i.enabled true;
  tags = normalise_tags i.tags;
  template_id = i.template_id;
  params = i.params;
  created_at = 0;
  updated_at = 0;
}

unfoldable pub finish_create : Env → Inbound × MemoryStore → Call
unfolding enqueue_for_node
finish_create env (row, t) = do
  out ← Store.get_by_id row.id t
  ok (
    out,
    t,
    dispatches "inbound.created" out.id
        ∷ records "inbound.create" out.id none (some out)
        ∷ enqueue_for_node env out.node_id add_user,
  )

unfoldable pub create : Env → CreateInput → MemoryStore → Call
unfolding new_inbound
create env i s = do
  extra ← check_input env i
  stored ← Store.create (some (new_inbound env i extra)) env.store_now s
  finish_create env stored

-- A `none` leaves the field alone; a template id of 0 clears the template.
pub record UpdateInput : Type 0 where
  pub name : Option String
  pub protocol : Option Protocol
  pub listen : Option String
  pub listen_port : Option ℤ
  pub listen_ports : Option (List ℤ)
  pub enabled : Option Bool
  pub tags : Option (List String)
  pub template_id : Option ℕ
  pub params : Option (List (String × String))

abbrev pub given_ports : Option (List ℤ) → List ℤ → Result (List ℤ)
given_ports none old = ok old
given_ports (some ps) old = normalise_listen_ports ps

unfoldable pub check_new_template : Env → Option ℕ → Protocol → Result (Unit {0})
unfolding validate_template_id
check_new_template env none proto = ok tt
check_new_template env (some id) proto =
    if id == 0 then ok tt else validate_template_id env.templates id proto

abbrev pub new_template : Option ℕ → Option ℕ → Option ℕ
new_template none old = old
new_template (some id) old = if id == 0 then none else some id

-- The checks of `Update` for the row `cur`, and the extra ports.
unfoldable pub check_update : Env → UpdateInput → Inbound → Result (List ℤ)
check_update env i cur = do
  given i.name (λ name. validate_name (trim_space name))
  given i.protocol validate_protocol
  given i.listen (λ listen. validate_listen env.is_ip (or_default listen))
  given i.listen_port validate_port
  extra ← given_ports i.listen_ports cur.listen_ports
  given i.tags validate_tags
  check_new_template env i.template_id (choose i.protocol cur.protocol)
  ok extra

abbrev pub option_or : {A B : Type 0} → Option A → (A → B) → B → B
option_or none f old = old
option_or (some a) f old = f a

unfoldable pub merged : UpdateInput → List ℤ → Inbound → Inbound
merged i extra cur = record cur {
  name = option_or i.name trim_space cur.name;
  protocol = choose i.protocol cur.protocol;
  listen = option_or i.listen or_default cur.listen;
  listen_port = choose i.listen_port cur.listen_port;
  listen_ports = extra;
  enabled = choose i.enabled cur.enabled;
  tags = option_or i.tags normalise_tags cur.tags;
  template_id = new_template i.template_id cur.template_id;
  params = choose i.params cur.params;
}

-- `row` is the struct that the merge and the store have written to: the audit entry's "before".
unfoldable pub finish_update : Env → ℕ → Inbound → MemoryStore → Call
unfolding enqueue_for_node
finish_update env id row t = do
  out ← Store.get_by_id id t
  ok (
    out,
    t,
    dispatches "inbound.updated" out.id
        ∷ records "inbound.update" out.id (some row) (some out)
        ∷ enqueue_for_node env out.node_id add_user,
  )

-- The call, and the store that is left.
abbrev pub Outcome : Type 0
Outcome = Call × MemoryStore

unfoldable pub after_store : Env → ℕ → Result Inbound × MemoryStore → Outcome
after_store env id (err why, t) = (err why, t)
after_store env id (ok row, t) = (finish_update env id row t, t)

unfoldable pub update_checked :
    Env → ℕ → UpdateInput → Inbound → MemoryStore → Result (List ℤ) → Outcome
unfolding merged
update_checked env id i cur s (err why) = (err why, s)
update_checked env id i cur s (ok extra) =
    after_store env id (Store.update (some (merged i extra cur)) env.store_now s)

unfoldable pub update_found : Env → ℕ → UpdateInput → MemoryStore → Result Inbound → Outcome
update_found env id i s (err why) = (err why, s)
update_found env id i s (ok cur) = update_checked env id i cur s (check_update env i cur)

unfoldable pub update : Env → ℕ → UpdateInput → MemoryStore → Outcome
update env id i s =
    if id == 0 then (err (invalid id_field), s) else update_found env id i s (Store.get_by_id id s)

unfoldable pub delete : Env → ℕ → MemoryStore → Call
unfolding enqueue_for_node
delete env id s = do
  fail_if (id == 0) (invalid id_field)
  prev ← Store.get_by_id id s
  t ← Store.delete id s
  ok (
    prev,
    t,
    dispatches "inbound.deleted" id
        ∷ records "inbound.delete" id (some prev) none
        ∷ enqueue_for_node env prev.node_id remove_user,
  )

-- ===== src/Hosts/Service.antt =====
-- backend/internal/hosts/service.go over the in-memory store. A call returns the host, the store and
-- what it sent out, in order: a webhook event and an audit entry. What those receivers do with it
-- cannot fail the call, and is not part of it.
pub mod Shapes
pub mod Changes
pub mod Histories
use aegis_panel.Common.{
  ℕ, suc, ◌+◌, String, trim_space, Bool, true, not, Option, some, none, List, [], ◌∷◌, ◌==◌,
  is_text, ℤ, pos, if◌then◌else◌, length, ltb, member, map,
}
use aegis_panel.Hosts.Model.{
  Host, HostType, type_direct, type_balancer, UserStatus, Endpoint, Balancer, Field, id_field,
  kind_field, endpoints_field, balancer_field, failover_field, invalid, Result, ok, err, ◌>>=◌,
  ◌>>◌, fail_if,
}
use aegis_panel.Hosts.Validate.{
  UrlParser, is_zero, validate_remark, validate_display_name, validate_country, validate_city,
  validate_type, validate_strategy, validate_status_filter, validate_healthcheck,
  validate_endpoint_node, validate_endpoint_inbound, validate_weight, validate_endpoint_overrides,
  validate_download_host_id, validate_priority, normalise_tags, normalise_status_filter,
}
use aegis_panel.Hosts.Store
use aegis_panel.Hosts.Store.{MemoryStore}

-- What a call takes from outside: the store's clock, a fresh id for the host and one for each
-- endpoint by its position, what the nodes and inbounds services find, and url.Parse.
pub record Env : Type 0 where
  pub store_now : ℕ
  pub new_id : ℕ
  pub endpoint_ids : ℕ → ℕ
  pub node_exists : ℕ → Bool
  pub inbound_node : ℕ → Option ℕ
  pub parse_url : UrlParser

pub data Effect : Type 0 where
  dispatches : (event : String) → (id : ℕ) → Effect
  records : (action : String) → (id : ℕ) → (before after : Option Host) → Effect

abbrev pub Call : Type 0
Call = Result (Host × MemoryStore × List Effect)

unfoldable pub get_host : ℕ → MemoryStore → Result Host
get_host id s = do fail_if (id == 0) (invalid id_field); Store.get_by_id id s

abbrev pub or_one : ℤ → ℤ
or_one w = if is_zero w then pos 1 else w

abbrev pub filled : Env → ℕ → Endpoint → Endpoint
filled env n ep = record ep {
  id = if ep.id == 0 then env.endpoint_ids n else ep.id;
  weight = or_one ep.weight;
}

unfoldable pub check_endpoint : Env → Endpoint → Result (Unit {0})
check_endpoint env ep = do
  validate_endpoint_node env.node_exists ep.node_id
  validate_endpoint_inbound env.inbound_node ep.node_id ep.inbound_id
  validate_weight ep.weight
  validate_endpoint_overrides ep
  validate_download_host_id ep.download_host_id

-- The loop of normaliseEndpoints, from position n.
unfoldable pub fill_endpoints : Env → ℕ → List Endpoint → Result (List Endpoint)
fill_endpoints env n [] = ok []
fill_endpoints env n (ep ∷ eps) =
    let tail = fill_endpoints env (suc n) eps in
    do check_endpoint env (filled env n ep); rest ← tail; ok (filled env n ep ∷ rest)

unfoldable pub normalise_endpoints : Env → List Endpoint → Result (List Endpoint)
unfolding fill_endpoints
normalise_endpoints env eps = do
  fail_if (length eps == 0) (invalid endpoints_field)
  fill_endpoints env 0 eps

unfoldable pub validate_endpoints_count : HostType → List Endpoint → Result (Unit {0})
validate_endpoints_count t eps =
    if is_text t type_direct
    then fail_if (not (length eps == 1)) (invalid endpoints_field)
    else if is_text t type_balancer
    then fail_if (ltb (length eps) 2) (invalid endpoints_field)
    else err (invalid kind_field)

abbrev pub id_of : Endpoint → ℕ
id_of ep = ep.id

unfoldable pub check_failover : List ℕ → List ℕ → Result (Unit {0})
check_failover known [] = ok tt
check_failover known (id ∷ ids) =
    let rest = check_failover known ids in
    do fail_if (not (member ◌==◌ id known)) (invalid failover_field); rest

unfoldable pub check_balancer : Env → Balancer → List Endpoint → Result (Unit {0})
check_balancer env b eps = do
  validate_strategy b.strategy
  validate_healthcheck env.parse_url b.healthcheck_url b.healthcheck_interval_sec
  check_failover (map id_of eps) b.failover_endpoint_ids

unfoldable pub balancer_for_direct : Option Balancer → Result (Option Balancer)
balancer_for_direct none = ok none
balancer_for_direct (some b) = err (invalid balancer_field)

unfoldable pub balancer_for_balancer :
    Env → Option Balancer → List Endpoint → Result (Option Balancer)
balancer_for_balancer env none eps = err (invalid balancer_field)
balancer_for_balancer env (some b) eps = do check_balancer env b eps; ok (some b)

unfoldable pub normalise_balancer :
    Env → HostType → Option Balancer → List Endpoint → Result (Option Balancer)
unfolding balancer_for_direct balancer_for_balancer
normalise_balancer env t b eps =
    if is_text t type_direct
    then balancer_for_direct b
    else if is_text t type_balancer
    then balancer_for_balancer env b eps
    else err (invalid kind_field)

pub record CreateInput : Type 0 where
  pub id : ℕ
  pub remark : String
  pub display_name : String
  pub kind : HostType
  pub enabled : Option Bool
  pub priority : Option ℤ
  pub status_filter : List UserStatus
  pub country : String
  pub city : String
  pub tags : List String
  pub endpoints : List Endpoint
  pub balancer : Option Balancer

abbrev pub choose {ℓ} : {A : Type ℓ} → Option A → A → A
choose none old = old
choose (some a) old = a

unfoldable pub check_fields : CreateInput → Result (Unit {0})
check_fields i = do
  validate_remark (trim_space i.remark)
  validate_type i.kind
  validate_status_filter i.status_filter
  validate_display_name i.display_name
  validate_country i.country
  validate_city i.city
  validate_priority (choose i.priority (pos 0))

unfoldable pub new_host : Env → CreateInput → List Endpoint → Option Balancer → Host
new_host env i eps b = record {
  id = if i.id == 0 then env.new_id else i.id;
  remark = trim_space i.remark;
  display_name = trim_space i.display_name;
  kind = i.kind;
  enabled = choose i.enabled true;
  priority = choose i.priority (pos 0);
  status_filter = normalise_status_filter i.status_filter;
  country = trim_space i.country;
  city = trim_space i.city;
  tags = normalise_tags i.tags;
  endpoints = eps;
  balancer = b;
  created_at = 0;
  updated_at = 0;
}

unfoldable pub finish_create : Host × MemoryStore → Call
finish_create (row, t) = do
  out ← Store.get_by_id row.id t
  ok (out, t, dispatches "host.created" out.id ∷ records "host.create" out.id none (some out) ∷ [])

unfoldable pub create_with : Env → CreateInput → List Endpoint → MemoryStore → Call
unfolding new_host
create_with env i eps s = do
  validate_endpoints_count i.kind eps
  b ← normalise_balancer env i.kind i.balancer eps
  stored ← Store.create (some (new_host env i eps b)) env.store_now s
  finish_create stored

unfoldable pub create : Env → CreateInput → MemoryStore → Call
create env i s = do
  check_fields i
  eps ← normalise_endpoints env i.endpoints
  create_with env i eps s

-- A `none` leaves the field alone.
pub record UpdateInput : Type 0 where
  pub remark : Option String
  pub display_name : Option String
  pub kind : Option HostType
  pub enabled : Option Bool
  pub priority : Option ℤ
  pub status_filter : Option (List UserStatus)
  pub country : Option String
  pub city : Option String
  pub tags : Option (List String)
  pub endpoints : Option (List Endpoint)
  pub balancer : Option Balancer

abbrev pub given {ℓ} : {A : Type ℓ} → Option A → (A → Result (Unit {0})) → Result (Unit {0})
given none check = ok tt
given (some a) check = check a

abbrev pub option_or : {A B : Type 0} → Option A → (A → B) → B → B
option_or none f old = old
option_or (some a) f old = f a

-- A pointer that replaces a pointer.
abbrev pub choose_some {ℓ} : {A : Type ℓ} → Option A → Option A → Option A
choose_some none old = old
choose_some (some a) old = some a

unfoldable pub given_endpoints :
    Env → Option (List Endpoint) → List Endpoint → Result (List Endpoint)
given_endpoints env none old = ok old
given_endpoints env (some eps) old = normalise_endpoints env eps

-- The display name, the country and the city have no check here.
unfoldable pub check_update : UpdateInput → Result (Unit {0})
check_update i = do
  given i.remark (λ r. validate_remark (trim_space r))
  given i.kind validate_type
  given i.priority validate_priority
  given i.status_filter validate_status_filter

unfoldable pub merged : UpdateInput → List Endpoint → Option Balancer → Host → Host
merged i eps b cur = record cur {
  remark = option_or i.remark trim_space cur.remark;
  display_name = option_or i.display_name trim_space cur.display_name;
  kind = choose i.kind cur.kind;
  enabled = choose i.enabled cur.enabled;
  priority = choose i.priority cur.priority;
  status_filter = option_or i.status_filter normalise_status_filter cur.status_filter;
  country = option_or i.country trim_space cur.country;
  city = option_or i.city trim_space cur.city;
  tags = option_or i.tags normalise_tags cur.tags;
  endpoints = eps;
  balancer = b;
}

-- `row` is the struct that the merge and the store have written to: the audit entry's "before".
unfoldable pub finish_update : ℕ → Host × MemoryStore → Call
finish_update id (row, t) = do
  out ← Store.get_by_id id t
  ok (
    out,
    t,
    dispatches "host.updated" out.id ∷ records "host.update" out.id (some row) (some out) ∷ [],
  )

unfoldable pub update_with : Env → ℕ → UpdateInput → Host → List Endpoint → MemoryStore → Call
unfolding merged
update_with env id i cur eps s = do
  validate_endpoints_count (choose i.kind cur.kind) eps
  b ← normalise_balancer env (choose i.kind cur.kind) (choose_some i.balancer cur.balancer) eps
  stored ← Store.update (some (merged i eps b cur)) env.store_now s
  finish_update id stored

unfoldable pub update_found : Env → ℕ → UpdateInput → Host → MemoryStore → Call
update_found env id i cur s = do
  check_update i
  eps ← given_endpoints env i.endpoints cur.endpoints
  update_with env id i cur eps s

unfoldable pub update : Env → ℕ → UpdateInput → MemoryStore → Call
update env id i s = do
  fail_if (id == 0) (invalid id_field)
  cur ← Store.get_by_id id s
  update_found env id i cur s

unfoldable pub delete : ℕ → MemoryStore → Call
delete id s = do
  fail_if (id == 0) (invalid id_field)
  cur ← Store.get_by_id id s
  t ← Store.delete id s
  ok (cur, t, dispatches "host.deleted" id ∷ records "host.delete" id (some cur) none ∷ [])

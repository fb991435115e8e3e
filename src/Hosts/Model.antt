-- ===== src/Hosts/Model.antt =====
-- backend/internal/hosts/host.go, and the errors of store.go and service.go.
-- Ids are numbers, 0 the zero UUID; times are numbers; a nil pointer is `none`, and a nil slice the
-- empty one; types, strategies and statuses are Go strings: any text.
use aegis_panel.Common.{Fallible}
pub use aegis_panel.Common.{ok, err, ◌>>=◌, ◌>>◌, fail_if, or_fail, >>=-eq-ok, >>-eq-ok}
use aegis_panel.Common.{
  ℕ, String, Bool, true, false, ◌&&◌, not, Option, none, some, List, [], ◌∷◌, ℤ, is_neg,
  if◌then◌else◌, is_text, ◌==◌,
}

abbrev pub HostType : Type 0
HostType = String

abbrev pub type_direct : HostType
type_direct = "direct"

abbrev pub type_balancer : HostType
type_balancer = "balancer"

abbrev pub BalancerStrategy : Type 0
BalancerStrategy = String

abbrev pub UserStatus : Type 0
UserStatus = String

pub record Endpoint : Type 0 where
  pub id : ℕ
  pub node_id : ℕ
  pub inbound_id : ℕ
  pub protocol : String
  pub weight : ℤ
  pub address : List String
  pub port : Option ℤ
  pub sni : List String
  pub host : List String
  pub path : String
  pub download_host_id : Option ℕ

pub record Balancer : Type 0 where
  pub strategy : BalancerStrategy
  pub healthcheck_url : String
  pub healthcheck_interval_sec : ℤ
  pub failover_endpoint_ids : List ℕ

pub record Host : Type 0 where
  pub id : ℕ
  pub remark : String
  pub display_name : String
  pub kind : HostType
  pub enabled : Bool
  pub priority : ℤ
  pub status_filter : List UserStatus
  pub country : String
  pub city : String
  pub tags : List String
  pub endpoints : List Endpoint
  pub balancer : Option Balancer
  pub created_at : ℕ
  pub updated_at : ℕ

unfoldable pub is_valid_endpoint : Endpoint → Bool
is_valid_endpoint e =
    if e.node_id == 0
    then false
    else if e.inbound_id == 0
    then false
    else if is_neg e.weight
    then false
    else true

unfoldable pub all_valid : List Endpoint → Bool
unfolding is_valid_endpoint
all_valid [] = true
all_valid (e ∷ es) = is_valid_endpoint e && all_valid es

abbrev pub no_endpoints : List Endpoint → Bool
no_endpoints [] = true
no_endpoints (e ∷ es) = false

unfoldable pub is_valid_host : Option Host → Bool
unfolding all_valid
is_valid_host none = false
is_valid_host (some h) =
    if is_text h.remark ""
    then false
    else if not (is_text h.kind type_direct) && not (is_text h.kind type_balancer)
    then false
    else if no_endpoints h.endpoints
    then false
    else all_valid h.endpoints

-- The input that a ValidationError names.
pub data Field : Type 0 where
  id_field remark_field display_name_field kind_field priority_field status_filter_field : Field
  country_field city_field endpoints_field node_id_field inbound_id_field weight_field : Field
  address_field sni_field host_field port_field path_field download_host_id_field : Field
  balancer_field strategy_field healthcheck_url_field healthcheck_interval_field : Field
  failover_field : Field

pub data Error : Type 0 where
  nil_host zero_id missing_id not_found duplicate_remark duplicate_id : Error
  invalid : Field → Error

abbrev pub Result {ℓ} : Type ℓ → Type ℓ
Result A = Fallible Error A

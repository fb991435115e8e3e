-- ===== src/Hosts/Validate.antt =====
-- backend/internal/hosts/validate.go. An error keeps the field and not the text. `len` counts bytes,
-- and a loop over a text walks code points, as in Go.
use Prim.Native.String.{len}
use aegis_panel.Common.{
  ℕ, String, Bool, false, ◌&&◌, ◌||◌, not, List, [], ◌∷◌, ltb, ◌==◌, is_text, codes, ℤ, pos, negsuc,
  is_below, is_above, is_control, every, member, distinct_from, trim_space, collect_tags, length,
  if◌then◌else◌, Option, none, some,
}
use aegis_panel.Hosts.Model.{
  HostType, type_direct, type_balancer, BalancerStrategy, UserStatus, Endpoint, remark_field,
  display_name_field, kind_field, priority_field, status_filter_field, country_field, city_field,
  node_id_field, inbound_id_field, weight_field, address_field, sni_field, host_field, port_field,
  path_field, download_host_id_field, strategy_field, healthcheck_url_field,
  healthcheck_interval_field, invalid, Result, ok, err, ◌>>◌, fail_if,
}

abbrev pub max_remark_len : ℕ
max_remark_len = 96

abbrev pub max_display_name_len : ℕ
max_display_name_len = 96

abbrev pub max_country_len : ℕ
max_country_len = 8

abbrev pub max_city_len : ℕ
max_city_len = 64

abbrev pub max_tag_len : ℕ
max_tag_len = 32

abbrev pub max_tags : ℕ
max_tags = 16

-- minPriority is -32768.
abbrev pub below_min_priority : ℤ → Bool
below_min_priority (pos n) = false
below_min_priority (negsuc n) = ltb 32_767 n

abbrev pub max_priority : ℕ
max_priority = 32_767

abbrev pub max_weight : ℕ
max_weight = 1000

abbrev pub max_port : ℕ
max_port = 65_535

abbrev pub max_healthcheck_url_len : ℕ
max_healthcheck_url_len = 256

abbrev pub min_healthcheck_interval : ℕ
min_healthcheck_interval = 10

abbrev pub max_healthcheck_interval : ℕ
max_healthcheck_interval = 3600

unfoldable pub validate_remark : String → Result (Unit {0})
validate_remark raw =
    let remark = trim_space raw in
    do
      fail_if (is_text remark "") (invalid remark_field)
      fail_if (ltb max_remark_len (len remark)) (invalid remark_field)
      fail_if (not (every (λ r. not (is_control r)) (codes remark))) (invalid remark_field)

unfoldable pub validate_display_name : String → Result (Unit {0})
validate_display_name s = fail_if (ltb max_display_name_len (len s)) (invalid display_name_field)

unfoldable pub validate_country : String → Result (Unit {0})
validate_country s = fail_if (ltb max_country_len (len s)) (invalid country_field)

unfoldable pub validate_city : String → Result (Unit {0})
validate_city s = fail_if (ltb max_city_len (len s)) (invalid city_field)

unfoldable pub validate_type : HostType → Result (Unit {0})
validate_type t =
    fail_if (not (is_text t type_direct || is_text t type_balancer)) (invalid kind_field)

unfoldable pub is_strategy : BalancerStrategy → Bool
is_strategy s =
    is_text s "round_robin"
    || (is_text s "least_loaded"
        || (is_text s "random" || (is_text s "least_ping" || is_text s "urltest")))

unfoldable pub validate_strategy : BalancerStrategy → Result (Unit {0})
validate_strategy s = fail_if (not (is_strategy s)) (invalid strategy_field)

unfoldable pub is_status : UserStatus → Bool
is_status s =
    is_text s "active"
    || (is_text s "on_hold"
        || (is_text s "expired" || (is_text s "limited" || is_text s "disabled")))

-- The loop of validateStatusFilter, with the statuses seen so far.
unfoldable pub check_statuses : List UserStatus → List UserStatus → Result (Unit {0})
check_statuses seen [] = ok tt
check_statuses seen (s ∷ ss) =
    let rest = check_statuses (s ∷ seen) ss in
    do
      fail_if (not (is_status s)) (invalid status_filter_field)
      fail_if (member is_text s seen) (invalid status_filter_field)
      rest

unfoldable pub validate_status_filter : List UserStatus → Result (Unit {0})
validate_status_filter ss = check_statuses [] ss

-- The answer of url.Parse: the scheme and the host.
abbrev pub UrlParser : Type 0
UrlParser = String → Option (String × String)

unfoldable pub check_url : Option (String × String) → Result (Unit {0})
check_url none = err (invalid healthcheck_url_field)
check_url (some (scheme, host)) = do
  fail_if (not (is_text scheme "http") && not (is_text scheme "https"))
      (invalid healthcheck_url_field)
  fail_if (is_text host "") (invalid healthcheck_url_field)

abbrev pub is_zero : ℤ → Bool
is_zero (pos n) = n == 0
is_zero (negsuc n) = false

unfoldable pub check_raw_url : UrlParser → String → Result (Unit {0})
check_raw_url parse raw =
    let parsed = check_url (parse raw) in
    if is_text raw ""
    then ok tt
    else if ltb max_healthcheck_url_len (len raw)
    then err (invalid healthcheck_url_field)
    else parsed

-- Where both are empty, both checks pass, too.
unfoldable pub validate_healthcheck : UrlParser → String → ℤ → Result (Unit {0})
validate_healthcheck parse raw interval = do
  check_raw_url parse raw
  fail_if
      (not (is_zero interval)
        && (is_below interval min_healthcheck_interval
            || is_above interval max_healthcheck_interval))
      (invalid healthcheck_interval_field)

-- `exists` says whether the nodes service finds a node.
unfoldable pub validate_endpoint_node : (ℕ → Bool) → ℕ → Result (Unit {0})
validate_endpoint_node exists id = do
  fail_if (id == 0) (invalid node_id_field)
  fail_if (not (exists id)) (invalid node_id_field)

-- `node_of` gives the node of an inbound that the inbounds service finds.
unfoldable pub check_inbound : Option ℕ → ℕ → Result (Unit {0})
check_inbound none node = err (invalid inbound_id_field)
check_inbound (some owner) node = fail_if (not (owner == node)) (invalid inbound_id_field)

unfoldable pub validate_endpoint_inbound : (ℕ → Option ℕ) → ℕ → ℕ → Result (Unit {0})
validate_endpoint_inbound node_of node inbound = do
  fail_if (inbound == 0) (invalid inbound_id_field)
  check_inbound (node_of inbound) node

unfoldable pub validate_weight : ℤ → Result (Unit {0})
validate_weight w = do
  fail_if (not (is_above w 0)) (invalid weight_field)
  fail_if (is_above w max_weight) (invalid weight_field)

abbrev pub bad_port : Option ℤ → Bool
bad_port none = false
bad_port (some p) = is_below p 1 || is_above p max_port

unfoldable pub validate_endpoint_overrides : Endpoint → Result (Unit {0})
validate_endpoint_overrides ep = do
  fail_if (ltb 16 (length ep.address)) (invalid address_field)
  fail_if (ltb 16 (length ep.sni)) (invalid sni_field)
  fail_if (ltb 16 (length ep.host)) (invalid host_field)
  fail_if (bad_port ep.port) (invalid port_field)
  fail_if (ltb 256 (len ep.path)) (invalid path_field)

unfoldable pub validate_download_host_id : Option ℕ → Result (Unit {0})
validate_download_host_id none = ok tt
validate_download_host_id (some id) = fail_if (id == 0) (invalid download_host_id_field)

unfoldable pub validate_priority : ℤ → Result (Unit {0})
validate_priority p =
    fail_if (below_min_priority p || is_above p max_priority) (invalid priority_field)

unfoldable pub normalise_tags : List String → List String
unfolding collect_tags
normalise_tags tags = collect_tags max_tag_len max_tags [] tags

unfoldable pub normalise_status_filter : List UserStatus → List UserStatus
unfolding distinct_from
normalise_status_filter ss = distinct_from is_text [] ss

-- ===== src/Hosts/Tests.antt =====
-- The host store and service on small inputs.
use aegis_panel.Common.{
  ℕ, ◌+◌, String, ℕ_discrete, codes_discrete, decide_cons, lower_ascii, lower_code, get, put,
  remove, ◌≡◌, refl, true, Option, none, some, List, [], ◌∷◌, pos, trim_space, trim_left,
  trim_right, keep_end, is_space, is_control, collect_tags, distinct_from, All, Bool,
}
use aegis_panel.Hosts.Model.{Host, Endpoint, Balancer, ok}
use aegis_panel.Hosts.Validate.{
  validate_remark, validate_type, validate_status_filter, check_statuses, validate_display_name,
  validate_country, validate_city, validate_priority, validate_endpoint_node,
  validate_endpoint_inbound, check_inbound, validate_weight, validate_endpoint_overrides,
  validate_download_host_id, validate_strategy, is_strategy, validate_healthcheck, check_raw_url,
  normalise_tags, normalise_status_filter,
}
use aegis_panel.Hosts.Store
use aegis_panel.Hosts.Service
use aegis_panel.Hosts.Store.{
  MemoryStore, new_memory_store, remark_key, create_row, get_by_id, get_by_remark, uses, find_host,
  hosts_for_inbound, node_of, nodes_for_host,
}
use aegis_panel.Hosts.Service.{
  Env, Effect, dispatches, records, CreateInput, create, create_with, check_fields,
  normalise_endpoints, fill_endpoints, check_endpoint, validate_endpoints_count, normalise_balancer,
  balancer_for_balancer, check_balancer, check_failover, new_host, finish_create, UpdateInput,
}
use aegis_panel.Hosts.Service.Shapes.{Shape, Placed}
use aegis_panel.Hosts.Service.Changes.{Sound, create_places}
use aegis_panel.Hosts.Service.Histories.{Reach, start, next, creates, Reach-Sound}

abbrev any_node : ℕ → Bool
any_node id = true

abbrev on_node_one : ℕ → Option ℕ
on_node_one id = some 1

abbrev ids : ℕ → ℕ
ids n = n + 40

abbrev no_url : String → Option (String × String)
no_url raw = none

abbrev env : Env
env = record {
  store_now = 6;
  new_id = 7;
  endpoint_ids = ids;
  node_exists = any_node;
  inbound_node = on_node_one;
  parse_url = no_url;
}

abbrev endpoint : Endpoint
endpoint = record {
  id = 0;
  node_id = 1;
  inbound_id = 3;
  protocol = "";
  weight = pos 0;
  address = [];
  port = none;
  sni = [];
  host = [];
  path = "";
  download_host_id = none;
}

abbrev block : Balancer
block = record {
  strategy = "random";
  healthcheck_url = "";
  healthcheck_interval_sec = pos 0;
  failover_endpoint_ids = 41 ∷ [];
}

abbrev input : CreateInput
input = record {
  id = 0;
  remark = " NL ";
  display_name = "";
  kind = "balancer";
  enabled = none;
  priority = none;
  status_filter = [];
  country = "NL";
  city = "";
  tags = [];
  endpoints = endpoint ∷ endpoint ∷ [];
  balancer = some block;
}

abbrev first_endpoint : Endpoint
first_endpoint = record endpoint { id = 40; weight = pos 1 }

abbrev second_endpoint : Endpoint
second_endpoint = record endpoint { id = 41; weight = pos 1 }

abbrev host : Host
host = record {
  id = 7;
  remark = "NL";
  display_name = "";
  kind = "balancer";
  enabled = true;
  priority = pos 0;
  status_filter = [];
  country = "NL";
  city = "";
  tags = [];
  endpoints = first_endpoint ∷ second_endpoint ∷ [];
  balancer = some block;
  created_at = 6;
  updated_at = 6;
}

abbrev key : List ℕ
key = 110 ∷ 108 ∷ []

abbrev one_host : MemoryStore
one_host = record { by_id = (7, host) ∷ []; by_key = (key, 7) ∷ [] }

abbrev created_effects : List Effect
created_effects = dispatches "host.created" 7 ∷ records "host.create" 7 none (some host) ∷ []

creates_host : create env input new_memory_store ≡ ok (host, one_host, created_effects)
unfolding create create_with check_fields validate_remark validate_type validate_status_filter
    check_statuses validate_display_name validate_country validate_city validate_priority
    normalise_endpoints fill_endpoints check_endpoint validate_endpoint_node
    validate_endpoint_inbound check_inbound validate_weight validate_endpoint_overrides
    validate_download_host_id validate_endpoints_count normalise_balancer balancer_for_balancer
    check_balancer validate_strategy is_strategy validate_healthcheck check_raw_url check_failover
    new_host normalise_tags normalise_status_filter collect_tags distinct_from trim_space trim_left
    trim_right keep_end is_space is_control finish_create Store.create create_row get_by_id
    remark_key lower_ascii lower_code new_memory_store get put remove ℕ_discrete codes_discrete
    decide_cons
creates_host = refl

reached : Reach one_host
reached = next start (creates env input host created_effects creates_host)

Reach-Sound_example : Sound one_host
Reach-Sound_example = Reach-Sound reached

create_places_example :
    (get_by_id 7 one_host ≡ ok host)
    × Shape host
    × All (Placed env) (first_endpoint ∷ second_endpoint ∷ [])
create_places_example =
    create_places env input new_memory_store one_host host created_effects creates_host

-- A patch with a new priority.
abbrev patch : UpdateInput
patch = record {
  remark = none;
  display_name = none;
  kind = none;
  enabled = none;
  priority = some (pos 5);
  status_filter = none;
  country = none;
  city = none;
  tags = none;
  endpoints = none;
  balancer = none;
}

abbrev patched : Host
patched = record host { priority = pos 5 }

abbrev after_patch : MemoryStore
after_patch = record one_host { by_id = (7, patched) ∷ [] }

abbrev updated_effects : List Effect
updated_effects =
    dispatches "host.updated" 7 ∷ records "host.update" 7 (some patched) (some patched) ∷ []

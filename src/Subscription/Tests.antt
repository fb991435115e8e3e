-- ===== src/Subscription/Tests.antt =====
-- The resolution of hosts and endpoints in a small world.
use aegis_panel.Common.{
  ℕ, ℕ_discrete, get, put, remove, ◌≡◌, refl, true, false, some, none, List, [], ◌∷◌, sort_by,
  insert_by, vals, negsuc, pos, ok, err,
}
use aegis_panel.Users.Model.{User, is_live}
use aegis_panel.Plans.Model.{Plan}
use aegis_panel.Hosts.Model.{Host, Endpoint}
use aegis_panel.Hosts.Store as HostStore
use aegis_panel.Nodes.Model.{Node}
use aegis_panel.Nodes.Store as NodeStore
use aegis_panel.Nodes.Model as NodeModel
use aegis_panel.Inbounds.Model.{Inbound}
use aegis_panel.Inbounds.Store as InboundStore
use aegis_panel.Subscription.Store.{
  Pool, PoolMember, with_pool_member, replace_member, members_of, attached_pools, pools_of_plan,
  list_pools_for_user, list_pool_members,
}
use aegis_panel.Subscription.Service.{World, resolve_hosts_for_user, ResolvedEndpoint, not_live}
use aegis_panel.Subscription.Service.Candidates.{in_pools}
use aegis_panel.Subscription.Service.Entitled.{resolve_hosts_total}

abbrev user : User
user = record {
  id = 1;
  external_id = "";
  username = "ann";
  status = "active";
  plan_id = some 2;
  expire_at = none;
  traffic_limit_bytes = pos 0;
  traffic_used_bytes = pos 0;
  last_reset_at = none;
  device_limit = pos 0;
  hosts_allowlist = [];
  hosts_blocklist = [];
  sub_token = "t";
  sub_token_rotated_at = none;
  sub_token_prev = "";
  sub_token_prev_expires_at = none;
  telegram_id = none;
  email = "";
  created_at = 1;
  updated_at = 1;
}

abbrev plan : Plan
plan = record {
  id = 2;
  name = "Basic";
  traffic_limit_bytes = pos 0;
  duration = pos 1;
  device_limit = pos 0;
  reset_period = "never";
  price_cents = pos 0;
  created_at = 1;
  updated_at = 1;
}

abbrev pool : Pool
pool = record {
  id = 3;
  name = "all";
  strategy = "all";
  antiaffinity = false;
  created_at = 1;
  updated_at = 1;
}

abbrev here : PoolMember
here = record { pool_id = 3; host_id = 7; weight = pos 1 }

-- A member whose host is gone.
abbrev gone : PoolMember
gone = record { pool_id = 3; host_id = 8; weight = pos 1 }

abbrev endpoint : Endpoint
endpoint = record {
  id = 40;
  node_id = 1;
  inbound_id = 5;
  protocol = "";
  weight = pos 1;
  address = [];
  port = none;
  sni = [];
  host = [];
  path = "";
  download_host_id = some 7;
}

abbrev host : Host
host = record {
  id = 7;
  remark = "n";
  display_name = "";
  kind = "direct";
  enabled = true;
  priority = pos 0;
  status_filter = [];
  country = "";
  city = "";
  tags = [];
  endpoints = endpoint ∷ [];
  balancer = none;
  created_at = 4;
  updated_at = 4;
}

abbrev node : Node
node = record {
  id = 1;
  name = "fra";
  region = "eu";
  state = "online";
  capacity_hint = "";
  address = "10.0.0.1:22";
  agent_bearer = "";
  ssh_private_key_ciphertext = [];
  agent_transport = "http";
  tags = [];
  created_at = 1;
  updated_at = 1;
}

abbrev inbound : Inbound
inbound = record {
  id = 5;
  node_id = 1;
  name = "a";
  protocol = "vless";
  listen = "::";
  listen_port = pos 443;
  listen_ports = pos 8443 ∷ pos 9443 ∷ [];
  enabled = true;
  tags = [];
  template_id = none;
  params = [];
  created_at = 1;
  updated_at = 1;
}

abbrev hosts : HostStore.MemoryStore
hosts = record { by_id = (7, host) ∷ []; by_key = ((110 ∷ []), 7) ∷ [] }

abbrev world : World
world = record {
  pools = record {
    plans = (2, plan) ∷ [];
    pools = (3, pool) ∷ [];
    pool_members = (3, gone ∷ here ∷ []) ∷ [];
  };
  hosts = hosts;
  nodes = record { by_id = (1, node) ∷ []; by_key = ("fra", 1) ∷ [] };
  inbounds = record { by_id = (5, inbound) ∷ []; by_node_key = []; by_node_port = [] };
}

no_zero_member : in_pools 0 (list_pools_for_user (some user) world.pools) world.pools ≡ false
unfolding list_pools_for_user pools_of_plan attached_pools members_of sort_by insert_by vals get
    ℕ_discrete
no_zero_member = refl

resolve_hosts_total_example :
    (is_live "active" ≡ true
      → (out : List Host) × (resolve_hosts_for_user (some user) world ≡ ok out))
    × (is_live "active" ≡ false
        → resolve_hosts_for_user (some user) world ≡ err (not_live "active"))
resolve_hosts_total_example = resolve_hosts_total user world no_zero_member

abbrev picks : ℕ → ℕ × ℕ
picks n = (5, 3)

-- The download host is the host itself, and the pick of its two ports is the second.
abbrev resolved : ResolvedEndpoint
resolved = record {
  host = host;
  endpoint = endpoint;
  node = node;
  inbound = inbound;
  download = some (record { address = "10.0.0.1:22"; port = pos 9443 });
}

-- A second member of the same host and pool replaces the first, and a weight of 0 is 1.
replaces_member :
    list_pool_members 3
      (with_pool_member (record { pool_id = 3; host_id = 7; weight = pos 0 }) world.pools)
    ≡ (record { pool_id = 3; host_id = 7; weight = pos 1 }) ∷ gone ∷ []
unfolding with_pool_member replace_member members_of list_pool_members sort_by insert_by get put
    remove ℕ_discrete
replaces_member = refl

-- A host that comes first by priority, and has the larger id.
abbrev second : ResolvedEndpoint
second = record resolved { host = record host { id = 9; priority = negsuc 4 } }

abbrev pairs : List ResolvedEndpoint
pairs = second ∷ resolved ∷ []

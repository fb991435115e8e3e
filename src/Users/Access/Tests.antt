-- ===== src/Users/Access/Tests.antt =====
-- One host on two nodes, and the theorems of the two filters at it.
use aegis_panel.Common.{
  ℕ, ◌≡◌, ◌↔◌, refl, inl, Bool, true, false, List, [], ◌∷◌, ◌==◌, if◌then◌else◌, some, none, pos,
}
use aegis_panel.Users.Model.{User}
use aegis_panel.Users.Validate.{contains}
use aegis_panel.Users.Access.{
  HostNodesLookup, delta_nodes, admits, union_nodes, expand_hosts_to_nodes, filter_nodes,
}
use aegis_panel.Users.Access.Agreement.{HasApplier, delta_nodes-admits}

abbrev user_with : List ℕ → List ℕ → User
user_with allow block = record {
  id = 4;
  external_id = "";
  username = "cara";
  status = "active";
  plan_id = none;
  expire_at = none;
  traffic_limit_bytes = pos 0;
  traffic_used_bytes = pos 0;
  last_reset_at = none;
  device_limit = pos 0;
  hosts_allowlist = allow;
  hosts_blocklist = block;
  sub_token = "c";
  sub_token_rotated_at = none;
  sub_token_prev = "";
  sub_token_prev_expires_at = none;
  telegram_id = none;
  email = "";
  created_at = 1;
  updated_at = 1;
}

-- Host 10 stands on the nodes 1 and 2, and host 11 cannot be looked up.
abbrev lookup : HostNodesLookup
lookup = some (λ h. if h == 10 then some (1 ∷ 2 ∷ []) else none)

abbrev appliers : List (ℕ × Bool)
appliers = (1, true) ∷ (3, true) ∷ (2, false) ∷ []

node_one_only : delta_nodes lookup appliers (some (user_with (10 ∷ 11 ∷ []) [])) ≡ 1 ∷ []
unfolding delta_nodes filter_nodes expand_hosts_to_nodes union_nodes contains
node_one_only = refl

delta_nodes-admits_example :
    let u = user_with (10 ∷ []) (11 ∷ []) in
    (contains 1 (delta_nodes lookup appliers (some u)) ≡ true)
    ↔ (HasApplier 1 appliers × (admits lookup 1 u ≡ true))
delta_nodes-admits_example =
    delta_nodes-admits lookup appliers 1 (user_with (10 ∷ []) (11 ∷ [])) (inl refl)

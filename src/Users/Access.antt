-- ===== src/Users/Access.antt =====
-- Which nodes a user's deltas go to, and which users a node serves: `enqueueUserDelta`,
-- `expandHostsToNodes` and `AllowedUsersForNode` of backend/internal/users/service.go.
-- The lookup from hosts to nodes is an argument: `none` if it is not wired, and it answers `none`
-- where it fails. A set of nodes is a list that is only tested for membership.
mod Agreement
mod Tests
use aegis_panel.Common.{
  ℕ, Bool, true, false, ◌&&◌, ◌||◌, not, List, [], ◌∷◌, ◌++◌, ◌==◌, Option, some, none, is_text,
  is_some, if◌then◌else◌,
}
use aegis_panel.Users.Model.{User, active}
use aegis_panel.Users.Store.{MemoryStore, list_by_status}
use aegis_panel.Users.Validate.{contains}

abbrev pub HostNodesLookup : Type 0
HostNodesLookup = Option (ℕ → Option (List ℕ))

abbrev pub is_empty {ℓ} : {A : Type ℓ} → List A → Bool
is_empty [] = true
is_empty (x ∷ xs) = false

unfoldable pub nodes_of : Option (List ℕ) → List ℕ
nodes_of none = []
nodes_of (some ns) = ns

unfoldable pub union_nodes : (ℕ → Option (List ℕ)) → List ℕ → List ℕ
unfolding nodes_of
union_nodes look [] = []
union_nodes look (h ∷ hs) =
    let rest = union_nodes look hs in if h == 0 then rest else nodes_of (look h) ++ rest

unfoldable pub expand_hosts_to_nodes : HostNodesLookup → List ℕ → List ℕ
unfolding union_nodes
expand_hosts_to_nodes none hosts = []
expand_hosts_to_nodes (some look) hosts = union_nodes look hosts

-- The loop over the appliers, each a node with whether it is there (a nil applier is skipped).
unfoldable pub filter_nodes : List (ℕ × Bool) → Bool → List ℕ → List ℕ → List ℕ
unfolding contains
filter_nodes [] has_allow allow block = []
filter_nodes ((n, present) ∷ aps) has_allow allow block =
    let rest = filter_nodes aps has_allow allow block in
    if not present
    then rest
    else if contains n block
    then rest
    else if has_allow && not (contains n allow)
    then rest
    else n ∷ rest

unfoldable pub present_nodes : List (ℕ × Bool) → List ℕ
present_nodes [] = []
present_nodes ((n, present) ∷ aps) =
    let rest = present_nodes aps in if present then n ∷ rest else rest

-- The nodes whose appliers `enqueueUserDelta` sends to.
unfoldable pub delta_nodes : HostNodesLookup → List (ℕ × Bool) → Option User → List ℕ
unfolding filter_nodes present_nodes expand_hosts_to_nodes
delta_nodes lookup appliers none = present_nodes appliers
delta_nodes lookup appliers (some u) =
    if is_empty u.hosts_allowlist && is_empty u.hosts_blocklist
    then present_nodes appliers
    else filter_nodes appliers (not (is_empty u.hosts_allowlist))
        (expand_hosts_to_nodes lookup u.hosts_allowlist)
        (expand_hosts_to_nodes lookup u.hosts_blocklist)

-- The tests of the loop in `AllowedUsersForNode`.
unfoldable pub admits : HostNodesLookup → ℕ → User → Bool
unfolding expand_hosts_to_nodes contains
admits lookup node u =
    let has_allow = not (is_empty u.hosts_allowlist) in
    let has_block = not (is_empty u.hosts_blocklist) in
    if (has_allow || has_block) && not (is_some lookup)
    then false
    else if has_block && contains node (expand_hosts_to_nodes lookup u.hosts_blocklist)
    then false
    else if has_allow && not (contains node (expand_hosts_to_nodes lookup u.hosts_allowlist))
    then false
    else true

unfoldable pub allowed_ids : HostNodesLookup → ℕ → List User → List ℕ
allowed_ids lookup node [] = []
allowed_ids lookup node (u ∷ us) =
    let rest = allowed_ids lookup node us in if admits lookup node u then u.id ∷ rest else rest

unfoldable pub allowed_users_for_node : HostNodesLookup → ℕ → MemoryStore → List ℕ
unfolding allowed_ids
allowed_users_for_node lookup node s = allowed_ids lookup node (list_by_status active s)

-- ===== src/Subscription/Service.antt =====
-- backend/internal/subscription/service.go and port.go: the resolution of a user's hosts and
-- endpoints, over the stores of the package, of hosts, of nodes and of inbounds.
pub mod Candidates
pub mod Entitled
pub mod Endpoints
use aegis_panel.Common.{
  ℕ, zero, suc, ℕ_discrete, GoMap, get, put, String, Bool, true, false, ◌&&◌, Option, some, none,
  List, [], ◌∷◌, ◌++◌, map, ltb, ◌==◌, ◌%◌, ℤ, pos, add_signed, lt_signed, if◌then◌else◌, sort_by,
  length, Fallible, ok, err, ◌>>=◌, ◌>>◌, fail_if, not,
}
use aegis_panel.Users.Model.{User, Status, is_live}
use aegis_panel.Hosts.Model as HostModel
use aegis_panel.Hosts.Model.{Host, Endpoint}
use aegis_panel.Hosts.Store as HostStore
use aegis_panel.Hosts.Service.{get_host}
use aegis_panel.Nodes.Model as NodeModel
use aegis_panel.Nodes.Model.{Node}
use aegis_panel.Nodes.Store as NodeStore
use aegis_panel.Nodes.Service.{get_node}
use aegis_panel.Inbounds.Model as InboundModel
use aegis_panel.Inbounds.Model.{Inbound}
use aegis_panel.Inbounds.Store as InboundStore
use aegis_panel.Inbounds.Service.{get_inbound}
use aegis_panel.Subscription.Store.{
  MemoryStore, Pool, PoolMember, list_pools_for_user, list_pool_members,
}

-- The stores behind the services that the resolution asks.
pub record World : Type 0 where
  pub pools : MemoryStore
  pub hosts : HostStore.MemoryStore
  pub nodes : NodeStore.MemoryStore
  pub inbounds : InboundStore.MemoryStore

pub data Error : Type 0 where
  nil_user : Error
  not_live : Status → Error
  host_lookup : HostModel.Error → Error
  node_lookup : NodeModel.Error → Error
  inbound_lookup : InboundModel.Error → Error

abbrev pub Result {ℓ} : Type ℓ → Type ℓ
Result A = Fallible Error A

-- The candidates: the host ids that were met, with the sum of their weights.
abbrev pub Candidates : Type 0
Candidates = GoMap ℕ ℤ

abbrev pub heavier : Option ℤ → ℤ → ℤ
heavier none w = w
heavier (some old) w = add_signed old w

unfoldable pub meet : PoolMember → Candidates → Candidates
meet m seen = put ℕ_discrete m.host_id (heavier (get ℕ_discrete m.host_id seen) m.weight) seen

unfoldable pub meet_members : List PoolMember → Candidates → Candidates
unfolding meet
meet_members [] seen = seen
meet_members (m ∷ ms) seen = meet_members ms (meet m seen)

unfoldable pub meet_pools : List Pool → MemoryStore → Candidates → Candidates
unfolding meet_members
meet_pools [] s seen = seen
meet_pools (p ∷ ps) s seen = meet_pools ps s (meet_members (list_pool_members p.id s) seen)

unfoldable pub is_missing : HostModel.Error → Bool
is_missing HostModel.not_found = true
is_missing _ = false

-- One candidate of the second pass: what it makes of the hosts that are still to come.
unfoldable pub take_host : HostModel.Result Host → Result (List Host) → Result (List Host)
unfolding is_missing
take_host (err why) rest = if is_missing why then rest else err (host_lookup why)
take_host (ok h) rest = do hs ← rest; ok (if h.enabled then h ∷ hs else hs)

-- The loop of the second pass. Where two lookups would fail, Go returns the error of the one that its
-- range meets first: here the first of the list.
unfoldable pub resolve_candidates : Candidates → HostStore.MemoryStore → Result (List Host)
unfolding take_host
resolve_candidates [] hosts = ok []
resolve_candidates ((id, w) ∷ seen) hosts =
    take_host (get_host id hosts) (resolve_candidates seen hosts)

unfoldable pub host_before : Host → Host → Bool
host_before g h =
    if lt_signed g.priority h.priority
    then true
    else if lt_signed h.priority g.priority
    then false
    else if ltb g.created_at h.created_at
    then true
    else if ltb h.created_at g.created_at
    then false
    else ltb g.id h.id

unfoldable pub candidates_of : User → World → Candidates
unfolding meet_pools
candidates_of u w = meet_pools (list_pools_for_user (some u) w.pools) w.pools []

unfoldable pub resolve_live : User → World → Result (List Host)
unfolding candidates_of sort_by
resolve_live u w = do
  hs ← resolve_candidates (candidates_of u w) w.hosts
  ok (sort_by host_before hs)

unfoldable pub resolve_hosts_for_user : Option User → World → Result (List Host)
resolve_hosts_for_user none w = err nil_user
resolve_hosts_for_user (some u) w = do
  fail_if (not (is_live u.status)) (not_live u.status)
  resolve_live u w

pub record ResolvedDownload : Type 0 where
  pub address : String
  pub port : ℤ

pub record ResolvedEndpoint : Type 0 where
  pub host : Host
  pub endpoint : Endpoint
  pub node : Node
  pub inbound : Inbound
  pub download : Option ResolvedDownload

-- The item of the list at a random index: `pick` is any number, and the index is below the length.
unfoldable pub nth : {A : Type 0} → ℕ → List A → Option A
nth n [] = none
nth zero (x ∷ xs) = some x
nth (suc n) (x ∷ xs) = nth n xs

unfoldable pub pick_from : {A : Type 0} → ℕ → List A → Option A
unfolding nth
pick_from pick xs = if length xs == 0 then none else nth (pick % length xs) xs

abbrev pub or_port : Option ℤ → ℤ → ℤ
or_port none default = default
or_port (some p) default = p

unfoldable pub pick_port : ℕ → Inbound → ℤ
unfolding pick_from
pick_port pick inb = or_port (pick_from pick inb.listen_ports) inb.listen_port

abbrev pub first_or : List String → String → String
first_or [] default = default
first_or (a ∷ rest) default = a

abbrev pub value : {E A : Type 0} → Fallible E A → Option A
value (err why) = none
value (ok a) = some a

unfoldable pub download_at : ℕ → Endpoint → Option Node → Option Inbound → Option ResolvedDownload
unfolding pick_port
download_at pick ep none inb = none
download_at pick ep (some node) none = none
download_at pick ep (some node) (some inb) = some (record {
  address = first_or ep.address node.address;
  port = or_port ep.port (pick_port pick inb);
})

unfoldable pub download_endpoint : ℕ → Option Endpoint → World → Option ResolvedDownload
unfolding download_at
download_endpoint pick none w = none
download_endpoint pick (some ep) w =
    download_at pick ep (value (get_node ep.node_id w.nodes))
      (value (get_inbound ep.inbound_id w.inbounds))

unfoldable pub download_host : ℕ → ℕ → Option Host → World → Option ResolvedDownload
unfolding pick_from download_endpoint
download_host pick pick_p none w = none
download_host pick pick_p (some h) w =
    let found = download_endpoint pick_p (pick_from pick h.endpoints) w in
    if h.enabled then found else none

-- The two random numbers are the endpoint's and the port's.
unfoldable pub resolve_download : ℕ → ℕ → ℕ → World → Option ResolvedDownload
unfolding download_host
resolve_download pick pick_p id w = download_host pick pick_p (value (get_host id w.hosts)) w

unfoldable pub download_of : ℕ → ℕ → Option ℕ → World → Option ResolvedDownload
unfolding resolve_download
download_of pick pick_p none w = none
download_of pick pick_p (some id) w = resolve_download pick pick_p id w

abbrev pub pairs_of : Host → List Endpoint → List (Host × Endpoint)
pairs_of h [] = []
pairs_of h (ep ∷ eps) = (h, ep) ∷ pairs_of h eps

-- The order of the two nested loops.
unfoldable pub all_pairs : List Host → List (Host × Endpoint)
all_pairs [] = []
all_pairs (h ∷ hs) = pairs_of h h.endpoints ++ all_pairs hs

unfoldable pub node_missing : NodeModel.Error → Bool
node_missing NodeModel.not_found = true
node_missing _ = false

unfoldable pub inbound_missing : InboundModel.Error → Bool
inbound_missing InboundModel.not_found = true
inbound_missing _ = false

-- The step of the loop: `none` where the endpoint is skipped.
unfoldable pub with_inbound :
    ℕ
    → ℕ
    → Host
    → Endpoint
    → Node
    → InboundModel.Result Inbound
    → World
    → Result (Option ResolvedEndpoint)
unfolding inbound_missing download_of
with_inbound pick pick_p h ep n (err why) w =
    if inbound_missing why then ok none else err (inbound_lookup why)
with_inbound pick pick_p h ep n (ok inb) w = ok (
    some (record {
      host = h;
      endpoint = ep;
      node = n;
      inbound = inb;
      download = download_of pick pick_p ep.download_host_id w;
    }))

unfoldable pub with_node :
    ℕ → ℕ → Host → Endpoint → NodeModel.Result Node → World → Result (Option ResolvedEndpoint)
unfolding node_missing
with_node pick pick_p h ep (err why) w = if node_missing why then ok none else err (node_lookup why)
with_node pick pick_p h ep (ok n) w =
    with_inbound pick pick_p h ep n (get_inbound ep.inbound_id w.inbounds) w

unfoldable pub resolve_endpoint : ℕ → ℕ → Host × Endpoint → World → Result (Option ResolvedEndpoint)
resolve_endpoint pick pick_p (h, ep) w = with_node pick pick_p h ep (get_node ep.node_id w.nodes) w

abbrev pub keep : Option ResolvedEndpoint → List ResolvedEndpoint → List ResolvedEndpoint
keep none rest = rest
keep (some re) rest = re ∷ rest

-- `picks` holds the random numbers, two to a position.
unfoldable pub resolve_pairs :
    (ℕ → ℕ × ℕ) → ℕ → List (Host × Endpoint) → World → Result (List ResolvedEndpoint)
resolve_pairs picks n [] w = ok []
resolve_pairs picks n (p ∷ ps) w = do
  found ← resolve_endpoint (picks n).0 (picks n).1 p w
  rest ← resolve_pairs picks (suc n) ps w
  ok (keep found rest)

unfoldable pub resolve_endpoints_for_user :
    (ℕ → ℕ × ℕ) → Option User → World → Result (List ResolvedEndpoint)
unfolding all_pairs resolve_pairs
resolve_endpoints_for_user picks u w = do
  hs ← resolve_hosts_for_user u w
  resolve_pairs picks 0 (all_pairs hs) w

-- ===== src/Hosts/Service/Shapes.antt =====
-- The cross-field rules of a host: its type, its endpoints and its balancer fit together.
use aegis_panel.Common.{
  ℕ, suc, ◌≤◌, ◌≡◌, refl, true, Option, Bool-cases, some, none, inl, inr, List, [], ◌∷◌, arith,
  is_text, is_text_iff, length, member, map, All, ◌==◌, ℤ, pos, subst,
}
use aegis_panel.Hosts.Model.{
  Host, HostType, type_direct, type_balancer, Endpoint, Balancer, ok, >>=-eq-ok, >>-eq-ok,
}
use aegis_panel.Hosts.Validate.{
  is_strategy, validate_strategy, validate_endpoint_node, validate_endpoint_inbound, check_inbound,
  validate_weight,
}
use aegis_panel.Hosts.Service.{
  Env, filled, check_endpoint, fill_endpoints, normalise_endpoints, validate_endpoints_count, id_of,
  check_failover, check_balancer, balancer_for_direct, balancer_for_balancer, normalise_balancer,
}

-- Each failover id is the id of an endpoint.
abbrev pub Refers : List Endpoint → Balancer → Type 0
Refers eps b = All (λ id. member ◌==◌ id (map id_of eps) ≡ true) b.failover_endpoint_ids

-- A direct host has one endpoint and no balancer, a balancer host at least two endpoints and a
-- balancer with a known strategy that refers to them.
pub data Shaped (t : HostType) (eps : List Endpoint) (b : Option Balancer) : Type 0 where
  direct : t ≡ type_direct → length eps ≡ 1 → b ≡ none → Shaped t eps b
  balanced :
      (block : Balancer)
      → t ≡ type_balancer
      → 2 ≤ length eps
      → b ≡ some block
      → is_strategy block.strategy ≡ true
      → Refers eps block
      → Shaped t eps b

abbrev pub Shape : Host → Type 0
Shape h = Shaped h.kind h.endpoints h.balancer

check_failover-All :
    (known ids : List ℕ)
    → check_failover known ids ≡ ok tt
    → All (λ id. member ◌==◌ id known ≡ true) ids
unfolding check_failover
check_failover-All known [] h = tt
check_failover-All known (id ∷ ids) h = (ground arith, check_failover-All known ids (ground arith))

check_balancer-parts :
    (env : Env) (b : Balancer) (eps : List Endpoint)
    → check_balancer env b eps ≡ ok tt
    → (is_strategy b.strategy ≡ true) × Refers eps b
unfolding check_balancer validate_strategy
check_balancer-parts env b eps h =
    (ground arith, check_failover-All (map id_of eps) b.failover_endpoint_ids (ground arith))

balancer_for_balancer-ok :
    (env : Env) (b b' : Option Balancer) (eps : List Endpoint)
    → balancer_for_balancer env b eps ≡ ok b'
    → (block : Balancer) × (b' ≡ some block) × (check_balancer env block eps ≡ ok tt)
unfolding balancer_for_balancer
balancer_for_balancer-ok env none b' eps h = absurd (ground arith)
balancer_for_balancer-ok env (some block) b' eps h = (block, ground arith, ground arith)

direct_none : (b b' : Option Balancer) → balancer_for_direct b ≡ ok b' → b' ≡ none
unfolding balancer_for_direct
direct_none none b' h = ground arith
direct_none (some b) b' h = absurd (ground arith)

-- What passes the two checks is well shaped.
pub checked-Shaped :
    (env : Env) (t : HostType) (b b' : Option Balancer) (eps : List Endpoint)
    → validate_endpoints_count t eps ≡ ok tt
    → normalise_balancer env t b eps ≡ ok b'
    → Shaped t eps b'
unfolding validate_endpoints_count normalise_balancer
checked-Shaped env t b b' eps h n = elim (Bool-cases (is_text t type_direct)) [
  | inl e ↦
      direct (ground (arith, is_text_iff t type_direct)) (ground arith)
        (direct_none b b' (ground arith))
  | inr e ↦ elim (Bool-cases (is_text t type_balancer)) [
    | inl f ↦
        let (block, same, checked) = balancer_for_balancer-ok env b b' eps (ground arith) in
        let (known, refers) = check_balancer-parts env block eps checked in
        balanced block (ground (arith, is_text_iff t type_balancer)) (ground arith) same known
          refers
    | inr f ↦ absurd (ground arith)
  ]
]

-- A balancer block is refused for a direct host, so a type that passes with one is the other.
pub block_means_balancer :
    (env : Env) (t : HostType) (block : Balancer) (b' : Option Balancer) (eps : List Endpoint)
    → normalise_balancer env t (some block) eps ≡ ok b'
    → t ≡ type_balancer
unfolding normalise_balancer balancer_for_direct
block_means_balancer env t block b' eps n = ground (arith, is_text_iff t type_balancer)

-- An endpoint whose node exists, whose inbound is on that node, and whose weight is in range.
pub record Placed (env : Env) (ep : Endpoint) : Type 0 where
  pub node_there : env.node_exists ep.node_id ≡ true
  pub inbound_there : env.inbound_node ep.inbound_id ≡ some ep.node_id
  pub weighted : (w : ℕ) × (ep.weight ≡ pos w) × (1 ≤ w) × (w ≤ 1000)

weight_range : (w : ℤ) → validate_weight w ≡ ok tt → (n : ℕ) × (w ≡ pos n) × (1 ≤ n) × (n ≤ 1000)
unfolding validate_weight
weight_range (pos n) h = (n, refl, ground arith, ground arith)
weight_range (ℤ.negsuc n) h = absurd (ground arith)

node_found :
    (env : Env) (ep : Endpoint)
    → validate_endpoint_node env.node_exists ep.node_id ≡ ok tt
    → env.node_exists ep.node_id ≡ true
unfolding validate_endpoint_node
node_found env ep h = ground arith

inbound_found :
    (env : Env) (ep : Endpoint)
    → validate_endpoint_inbound env.inbound_node ep.node_id ep.inbound_id ≡ ok tt
    → env.inbound_node ep.inbound_id ≡ some ep.node_id
unfolding validate_endpoint_inbound check_inbound
inbound_found env ep h = ground arith

check_endpoint-Placed : (env : Env) (ep : Endpoint) → check_endpoint env ep ≡ ok tt → Placed env ep
unfolding check_endpoint
check_endpoint-Placed env ep h =
    let node : validate_endpoint_node env.node_exists ep.node_id ≡ ok tt = ground arith in
    let inbound : validate_endpoint_inbound env.inbound_node ep.node_id ep.inbound_id ≡ ok tt =
      ground arith in
    record {
      node_there = node_found env ep node;
      inbound_there = inbound_found env ep inbound;
      weighted = weight_range ep.weight (ground arith);
    }

fill_endpoints-Placed :
    (env : Env) (n : ℕ) (eps out : List Endpoint)
    → fill_endpoints env n eps ≡ ok out
    → All (Placed env) out × (length out ≡ length eps)
unfolding fill_endpoints
fill_endpoints-Placed env n [] out h =
    let q : [] ≡ out = ground arith in subst (λ o. All (Placed env) o × (length o ≡ 0)) q (tt, refl)
fill_endpoints-Placed env n (ep ∷ eps) out h =
    let (checked, rest) = >>-eq-ok (check_endpoint env (filled env n ep)) _ h in
    let (tail, found, same) = >>=-eq-ok (fill_endpoints env (suc n) eps) _ rest in
    let (placed, long) = fill_endpoints-Placed env (suc n) eps tail found in
    let q : filled env n ep ∷ tail ≡ out = ground arith in
    subst (λ o. All (Placed env) o × (length o ≡ suc (length eps))) q
      ((check_endpoint-Placed env (filled env n ep) checked, placed), omega (arith, long))

-- normaliseEndpoints keeps the number of the endpoints, and places every one of them.
pub normalise_endpoints-Placed :
    (env : Env) (eps out : List Endpoint)
    → normalise_endpoints env eps ≡ ok out
    → All (Placed env) out × (length out ≡ length eps)
unfolding normalise_endpoints
normalise_endpoints-Placed env eps out h = fill_endpoints-Placed env 0 eps out (ground arith)

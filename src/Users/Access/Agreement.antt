-- ===== src/Users/Access/Agreement.antt =====
-- The two filters, nodes of a user and users of a node, against each other.
use aegis_panel.Common.{
  ℕ, ◌≡◌, ◌⊎◌, ◌↔◌, refl, sym, subst, Bool, Bool-cases, true, false, ◌&&◌, ◌||◌, not, List, [], ◌∷◌,
  ◌==◌, Option, some, none, is_some, inl, inr, arith,
}
use aegis_panel.Users.Model.{User}
use aegis_panel.Users.Validate.{contains}
use aegis_panel.Users.Access.{
  HostNodesLookup, is_empty, expand_hosts_to_nodes, union_nodes, filter_nodes, present_nodes,
  delta_nodes, admits,
}

-- An applier that is there stands under this node.
abbrev pub HasApplier : ℕ → List (ℕ × Bool) → Type 0
HasApplier n [] = ⊥
HasApplier n ((m, present) ∷ aps) = ((m ≡ n) × (present ≡ true)) ⊎ HasApplier n aps

present-contains :
    (n : ℕ) (aps : List (ℕ × Bool)) → (contains n (present_nodes aps) ≡ true) ↔ HasApplier n aps
unfolding present_nodes contains
present-contains n [] = (λ h. cc, λ h. absurd h)
present-contains n ((m, present) ∷ aps) =
    let (sound, complete) = present-contains n aps in
    (λ h. ground (arith, sound), λ h. ground (arith, complete))

filter-contains :
    (n : ℕ) (aps : List (ℕ × Bool)) (has_allow : Bool) (allow block : List ℕ)
    → contains n (filter_nodes aps has_allow allow block) ≡ (
        contains n (present_nodes aps)
        && (not (contains n block) && (not has_allow || contains n allow)))
unfolding filter_nodes present_nodes contains
filter-contains n [] has_allow allow block = refl
filter-contains n ((m, present) ∷ aps) has_allow allow block = elim (Bool-cases (m == n)) [
  | inl e ↦
      let q : m ≡ n = ground arith in
      subst
        (λ k. contains n (filter_nodes ((k, present) ∷ aps) has_allow allow block) ≡ (
          contains n (present_nodes ((k, present) ∷ aps))
          && (not (contains n block) && (not has_allow || contains n allow))))
        (sym q) (ground (arith, filter-contains n aps has_allow allow block))
  | inr e ↦ ground (arith, filter-contains n aps has_allow allow block)
]

union-empty :
    (look : ℕ → Option (List ℕ)) (hosts : List ℕ)
    → is_empty hosts ≡ true
    → union_nodes look hosts ≡ []
unfolding union_nodes
union-empty look [] h = refl
union-empty look (x ∷ hosts) h = cc

delta_nodes-and :
    (lookup : HostNodesLookup) (aps : List (ℕ × Bool)) (n : ℕ) (u : User)
    → (is_some lookup ≡ true)
      ⊎ ((is_empty u.hosts_allowlist ≡ false) ⊎ (is_empty u.hosts_blocklist ≡ true))
    → contains n (delta_nodes lookup aps (some u))
      ≡ (contains n (present_nodes aps) && admits lookup n u)
unfolding delta_nodes admits expand_hosts_to_nodes contains
delta_nodes-and none aps n u h =
    ground (arith, filter-contains n aps (not (is_empty u.hosts_allowlist)) [] [])
delta_nodes-and (some look) aps n u h =
    let allow = union_nodes look u.hosts_allowlist in
    let block = union_nodes look u.hosts_blocklist in
    ground (
      arith,
      filter-contains n aps (not (is_empty u.hosts_allowlist)) allow block,
      union-empty look u.hosts_allowlist,
      union-empty look u.hosts_blocklist,
    )

-- With the lookup wired, or an allowlist set, or no list at all, a user's deltas go to a node
-- exactly when the node has an applier and its allowed users may include the user.
pub delta_nodes-admits :
    (lookup : HostNodesLookup) (aps : List (ℕ × Bool)) (n : ℕ) (u : User)
    → (is_some lookup ≡ true)
      ⊎ ((is_empty u.hosts_allowlist ≡ false) ⊎ (is_empty u.hosts_blocklist ≡ true))
    → (contains n (delta_nodes lookup aps (some u)) ≡ true)
      ↔ (HasApplier n aps × (admits lookup n u ≡ true))
delta_nodes-admits lookup aps n u h =
    let (sound, complete) = present-contains n aps in
    let e = delta_nodes-and lookup aps n u h in
    (λ q. ground (arith, sound, e), λ q. ground (arith, complete, e))

-- With no lookup, a user who has a blocklist alone still has deltas sent to every node, though no
-- node may serve the user.
pub blocklist_without_lookup :
    (aps : List (ℕ × Bool)) (n : ℕ) (u : User)
    → is_empty u.hosts_allowlist ≡ true
    → is_empty u.hosts_blocklist ≡ false
    → HasApplier n aps
    → (contains n (delta_nodes none aps (some u)) ≡ true) × (admits none n u ≡ false)
unfolding delta_nodes admits expand_hosts_to_nodes contains
blocklist_without_lookup aps n u allow block at =
    let (sound, complete) = present-contains n aps in
    (ground (arith, complete at, filter-contains n aps false [] []), ground arith)

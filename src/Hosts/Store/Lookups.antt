-- ===== src/Hosts/Store/Lookups.antt =====
-- What the lookups of the host store find.
use aegis_panel.Common.{
  ℕ, ℕ_discrete, codes_discrete, GoMap, get, ◌≡◌, ◌≢◌, ◌⊎◌, true, false, Bool-cases, Option-cases,
  some, none, inl, inr, arith, Unique, List, [], ◌∷◌, vals, map, member, NoRepeat,
  member-distinct_from, distinct_from-NoRepeat, ==_iff, ◌==◌, String, distinct_from,
}
use aegis_panel.Hosts.Model.{Host, ok, err, not_found}
use aegis_panel.Hosts.Store.{
  MemoryStore, remark_key, get_by_remark, get_by_id, uses, find_host, hosts_for_inbound, node_of,
  nodes_for_host,
}
use aegis_panel.Hosts.Store.Remarks.{Indexed}

-- A lookup by remark never meets an id without a row. It finds just the host of the table whose
-- remark agrees with it up to the case of ASCII letters.
pub get_by_remark-found :
    (remark : String) (s : MemoryStore)
    → Indexed s
    → ((h : Host) × (get_by_remark remark s ≡ some (ok h))
        × (get ℕ_discrete h.id s.by_id ≡ some h)
        × (remark_key h.remark ≡ remark_key remark))
      ⊎ ((get_by_remark remark s ≡ some (err not_found))
          × ((i : ℕ) (h : Host)
              → get ℕ_discrete i s.by_id ≡ some h
              → remark_key h.remark ≢ remark_key remark))
unfolding get_by_remark
get_by_remark-found remark s v =
    elim (Option-cases (get codes_discrete (remark_key remark) s.by_key)) [
      | inl e ↦ inr (ground arith, λ i h at q. ground (arith, v.keys.rows_in i h at))
      | inr (id, e) ↦ elim (Option-cases (get ℕ_discrete id s.by_id)) [
        | inl n ↦ absurd (ground (arith, v.keys.rows_of (remark_key remark) id e))
        | inr (h, n) ↦ inl (
          h,
          ground arith,
          ground (arith, v.keyed id h n),
          ground (arith, v.keys.rows_of (remark_key remark) id e),
        )
      ]
    ]

found_uses :
    (node inbound id : ℕ) (m : GoMap ℕ Host)
    → Unique ℕ_discrete m
    → find_host node inbound (vals m) ≡ some id
    → (k : ℕ) × (h : Host) × (get ℕ_discrete k m ≡ some h)
      × (h.id ≡ id)
      × (uses node inbound h.endpoints ≡ true)
unfolding find_host vals get
found_uses node inbound id [] u e = absurd (ground arith)
found_uses node inbound id ((k, h) ∷ m) u e = elim (Bool-cases (uses node inbound h.endpoints)) [
  | inl b ↦ (k, h, ground arith, ground arith, b)
  | inr b ↦
      let (j, g, at, same, used) = found_uses node inbound id m u.1 (ground arith) in
      (j, g, ground (arith, u.0), same, used)
]

unfound_unused :
    (node inbound : ℕ) (m : GoMap ℕ Host) (i : ℕ) (h : Host)
    → find_host node inbound (vals m) ≡ none
    → get ℕ_discrete i m ≡ some h
    → uses node inbound h.endpoints ≡ false
unfolding find_host vals get
unfound_unused node inbound [] i h e at = absurd (ground arith)
unfound_unused node inbound ((k, g) ∷ m) i h e at =
    ground (arith, unfound_unused node inbound m i h)

-- HostsForInbound names a host of the table with an endpoint on the node and the inbound, and says
-- that there is none only where no host has one.
pub hosts_for_inbound_iff :
    (node inbound : ℕ) (s : MemoryStore)
    → Indexed s
    → ((id : ℕ) × (h : Host) × (hosts_for_inbound node inbound s ≡ some id)
        × (get ℕ_discrete id s.by_id ≡ some h)
        × (uses node inbound h.endpoints ≡ true))
      ⊎ ((hosts_for_inbound node inbound s ≡ none)
          × ((i : ℕ) (h : Host)
              → get ℕ_discrete i s.by_id ≡ some h
              → uses node inbound h.endpoints ≡ false))
unfolding hosts_for_inbound
hosts_for_inbound_iff node inbound s v =
    elim (Option-cases (find_host node inbound (vals s.by_id))) [
      | inl e ↦ inr (e, λ i h at. unfound_unused node inbound s.by_id i h e at)
      | inr (id, e) ↦
          let (k, h, at, same, used) = found_uses node inbound id s.by_id v.single e in
          inl (id, h, e, ground (arith, v.keyed k h at), used)
    ]

-- NodesForHost answers with the nodes of the host's endpoints, each once.
pub nodes_for_host-nodes :
    (id : ℕ) (s : MemoryStore) (h : Host)
    → get_by_id id s ≡ ok h
    → (ns : List ℕ) × (nodes_for_host id s ≡ ok ns)
      × ((n : ℕ) → member ◌==◌ n ns ≡ member ◌==◌ n (map node_of h.endpoints))
      × NoRepeat ◌==◌ ns
unfolding nodes_for_host get_by_id
nodes_for_host-nodes id s h e =
    let nodes = map node_of h.endpoints in
    let at : get ℕ_discrete id s.by_id ≡ some h = ground arith in
    (
      distinct_from ◌==◌ [] nodes,
      ground arith,
      λ n. ground (arith, member-distinct_from ◌==◌ ==_iff [] nodes n),
      distinct_from-NoRepeat ◌==◌ ==_iff [] nodes,
    )

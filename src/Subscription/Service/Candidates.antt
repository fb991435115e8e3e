-- ===== src/Subscription/Service/Candidates.antt =====
-- The first pass: which hosts are candidates.
use aegis_panel.Common.{
  ℕ, ℕ_discrete, get, get-put, ◌≡◌, Bool, false, ◌||◌, List, [], ◌∷◌, map, ◌==◌, member, is_some,
  arith, member-sort, Unique, Unique-put,
}
use aegis_panel.Subscription.Store.{
  MemoryStore, Pool, PoolMember, members_of, member_before, list_pool_members,
}
use aegis_panel.Subscription.Service.{Candidates, heavier, meet, meet_members, meet_pools}

abbrev pub host_of : PoolMember → ℕ
host_of m = m.host_id

-- Some pool of the list has the host as a member.
abbrev pub in_pools : ℕ → List Pool → MemoryStore → Bool
in_pools id [] s = false
in_pools id (p ∷ ps) s = member ◌==◌ id (map host_of (members_of p.id s)) || in_pools id ps s

meet-met :
    (id : ℕ) (m : PoolMember) (seen : Candidates)
    → is_some (get ℕ_discrete id (meet m seen))
      ≡ ((m.host_id == id) || is_some (get ℕ_discrete id seen))
unfolding meet
meet-met id m seen =
    ground (
      arith,
      get-put ℕ_discrete m.host_id id (heavier (get ℕ_discrete m.host_id seen) m.weight) seen,
    )

meet_members-met :
    (id : ℕ) (ms : List PoolMember) (seen : Candidates)
    → is_some (get ℕ_discrete id (meet_members ms seen))
      ≡ (member ◌==◌ id (map host_of ms) || is_some (get ℕ_discrete id seen))
unfolding meet_members
meet_members-met id [] seen = ground arith
meet_members-met id (m ∷ ms) seen =
    ground (arith, meet_members-met id ms (meet m seen), meet-met id m seen)

listed_members :
    (id pool : ℕ) (s : MemoryStore)
    → member ◌==◌ id (map host_of (list_pool_members pool s))
      ≡ member ◌==◌ id (map host_of (members_of pool s))
unfolding list_pool_members
listed_members id pool s = member-sort member_before host_of ◌==◌ id (members_of pool s)

-- A host is met just if some pool has it as a member, or it was met before.
pub meet_pools-met :
    (id : ℕ) (ps : List Pool) (s : MemoryStore) (seen : Candidates)
    → is_some (get ℕ_discrete id (meet_pools ps s seen))
      ≡ (in_pools id ps s || is_some (get ℕ_discrete id seen))
unfolding meet_pools
meet_pools-met id [] s seen = ground arith
meet_pools-met id (p ∷ ps) s seen = ground (
  arith,
  meet_pools-met id ps s (meet_members (list_pool_members p.id s) seen),
  meet_members-met id (list_pool_members p.id s) seen,
  listed_members id p.id s,
)

meet_members-Unique :
    (ms : List PoolMember) (seen : Candidates)
    → Unique ℕ_discrete seen
    → Unique ℕ_discrete (meet_members ms seen)
unfolding meet_members meet
meet_members-Unique [] seen u = u
meet_members-Unique (m ∷ ms) seen u =
    meet_members-Unique ms (meet m seen)
      (Unique-put ℕ_discrete m.host_id (heavier (get ℕ_discrete m.host_id seen) m.weight) seen u)

pub meet_pools-Unique :
    (ps : List Pool) (s : MemoryStore) (seen : Candidates)
    → Unique ℕ_discrete seen
    → Unique ℕ_discrete (meet_pools ps s seen)
unfolding meet_pools
meet_pools-Unique [] s seen u = u
meet_pools-Unique (p ∷ ps) s seen u =
    meet_pools-Unique ps s (meet_members (list_pool_members p.id s) seen)
      (meet_members-Unique (list_pool_members p.id s) seen u)

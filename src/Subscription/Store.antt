-- ===== src/Subscription/Store.antt =====
-- backend/internal/subscription/store.go and subscription.go. A store's clock is the argument `now`;
-- ids are numbers, whose order is that of the UUIDs' texts. The mutex makes each method one step.
use aegis_panel.Common.{
  ℕ, ℕ_discrete, String, GoMap, get, put, Bool, true, false, Option, some, none, List, [], ◌∷◌, ltb,
  ◌==◌, ℤ, pos, negsuc, if◌then◌else◌, is_some, vals, sort_by, select, not,
}
use aegis_panel.Users.Model.{User}
use aegis_panel.Plans.Model.{Plan}

pub record Pool : Type 0 where
  pub id : ℕ
  pub name : String
  pub strategy : String
  pub antiaffinity : Bool
  pub created_at : ℕ
  pub updated_at : ℕ

pub record PoolMember : Type 0 where
  pub pool_id : ℕ
  pub host_id : ℕ
  pub weight : ℤ

-- A plan has the fields of a plan of the plans package.
pub record MemoryStore : Type 0 where
  pub plans : GoMap ℕ Plan
  pub pools : GoMap ℕ Pool
  pub pool_members : GoMap ℕ (List PoolMember)

unfoldable pub new_memory_store : MemoryStore
new_memory_store = record { plans = []; pools = []; pool_members = [] }

abbrev pub or_time : ℕ → ℕ → ℕ
or_time t default = if t == 0 then default else t

unfoldable pub with_plan : Plan → ℕ → MemoryStore → MemoryStore
with_plan p now s =
    let created = or_time p.created_at now in
    let row : Plan = record p { created_at = created; updated_at = or_time p.updated_at created } in
    record s { plans = put ℕ_discrete p.id row s.plans }

unfoldable pub with_pool : Pool → ℕ → MemoryStore → MemoryStore
with_pool p now s =
    let created = or_time p.created_at now in
    let row : Pool = record p { created_at = created; updated_at = or_time p.updated_at created } in
    record s { pools = put ℕ_discrete p.id row s.pools }

-- A missing entry of the map is the nil slice.
abbrev pub or_empty : Option (List PoolMember) → List PoolMember
or_empty none = []
or_empty (some ms) = ms

unfoldable pub members_of : ℕ → MemoryStore → List PoolMember
members_of pool s = or_empty (get ℕ_discrete pool s.pool_members)

abbrev pub or_one : ℤ → ℤ
or_one (pos n) = if n == 0 then pos 1 else pos n
or_one (negsuc n) = negsuc n

-- The first member of the host is replaced, else the member is appended.
unfoldable pub replace_member : PoolMember → List PoolMember → List PoolMember
replace_member m [] = m ∷ []
replace_member m (x ∷ xs) =
    let rest = replace_member m xs in if x.host_id == m.host_id then m ∷ xs else x ∷ rest

unfoldable pub with_pool_member : PoolMember → MemoryStore → MemoryStore
unfolding replace_member members_of
with_pool_member given s =
    let m : PoolMember = record given { weight = or_one given.weight } in
    record s {
      pool_members =
          put ℕ_discrete m.pool_id (replace_member m (members_of m.pool_id s)) s.pool_members;
    }

abbrev pub is_empty : List PoolMember → Bool
is_empty [] = true
is_empty (m ∷ ms) = false

abbrev pub pool_before : Pool → Pool → Bool
pool_before p q = ltb p.id q.id

abbrev pub member_before : PoolMember → PoolMember → Bool
member_before m n = ltb m.host_id n.host_id

-- Every pool with a member.
unfoldable pub attached_pools : MemoryStore → List Pool
unfolding vals sort_by members_of
attached_pools s =
    sort_by pool_before (select (λ p. not (is_empty (members_of p.id s))) (vals s.pools))

unfoldable pub pools_of_plan : Option ℕ → MemoryStore → List Pool
unfolding attached_pools
pools_of_plan none s = []
pools_of_plan (some plan) s =
    let attached = attached_pools s in
    if is_some (get ℕ_discrete plan s.plans) then attached else []

unfoldable pub list_pools_for_user : Option User → MemoryStore → List Pool
unfolding pools_of_plan
list_pools_for_user none s = []
list_pools_for_user (some u) s = pools_of_plan u.plan_id s

unfoldable pub list_pools_all : MemoryStore → List Pool
unfolding vals sort_by
list_pools_all s = sort_by pool_before (vals s.pools)

unfoldable pub list_pool_members : ℕ → MemoryStore → List PoolMember
unfolding sort_by members_of
list_pool_members pool s = sort_by member_before (members_of pool s)

-- ===== src/Subscription/Service/Entitled.antt =====
-- The second pass: which hosts a subscription names, in which order, and when the call succeeds.
use aegis_panel.Common.{
  ℕ, ℕ_discrete, get, ◌≡◌, ◌≢◌, refl, Bool, true, false, ◌&&◌, some, List, [], ◌∷◌, is_some, arith,
  sort_by, Fallible-cases, inl, inr, lt_signed, ℤ, pos, negsuc, err, ok, if◌then◌else◌,
}
use aegis_panel.Users.Model.{User, is_live}
use aegis_panel.Hosts.Model as HostModel
use aegis_panel.Hosts.Model.{Host}
use aegis_panel.Hosts.Store as HostStore
use aegis_panel.Hosts.Store.{get_by_id}
use aegis_panel.Hosts.Service.{get_host}
use aegis_panel.Subscription.Store.{list_pools_for_user}
use aegis_panel.Subscription.Service.{
  World, Candidates, is_missing, take_host, resolve_candidates, host_before, candidates_of,
  resolve_live, resolve_hosts_for_user, not_live,
}
use aegis_panel.Subscription.Service.Candidates.{in_pools, meet_pools-met}

abbrev pub id_of : Host → ℕ
id_of h = h.id

abbrev pub is_enabled : HostModel.Result Host → Bool
is_enabled (err why) = false
is_enabled (ok h) = h.enabled

-- The independent description: a pool of the user's plan has the host, which exists and is enabled.
unfoldable pub entitled : User → World → ℕ → Bool
entitled u w id =
    in_pools id (list_pools_for_user (some u) w.pools) w.pools && is_enabled (get_host id w.hosts)

-- A lookup with an id fails only where the host is missing.
get_host-missing :
    (id : ℕ) (why : HostModel.Error) (hosts : HostStore.MemoryStore)
    → id ≢ 0
    → get_host id hosts ≡ err why
    → is_missing why ≡ true
unfolding get_host get_by_id is_missing
get_host-missing id why hosts nz e = ground arith

resolved_total :
    (seen : Candidates) (hosts : HostStore.MemoryStore)
    → is_some (get ℕ_discrete 0 seen) ≡ false
    → (out : List Host) × (resolve_candidates seen hosts ≡ ok out)
unfolding resolve_candidates take_host get
resolved_total [] hosts z = ([], refl)
resolved_total ((id, w) ∷ seen) hosts z =
    let (rest, e) = resolved_total seen hosts (ground arith) in
    elim (Fallible-cases (get_host id hosts)) [
      | inl (why, f) ↦ (rest, ground (arith, get_host-missing id why hosts))
      | inr (h, f) ↦ ((if h.enabled then h ∷ rest else rest), ground arith)
    ]

lt_signed-asym : (x y : ℤ) → lt_signed x y ≡ true → lt_signed y x ≡ false
lt_signed-asym (pos m) (pos n) h = ground arith
lt_signed-asym (pos m) (negsuc n) h = ground arith
lt_signed-asym (negsuc m) (pos n) h = ground arith
lt_signed-asym (negsuc m) (negsuc n) h = ground arith

pub host_before-asym : (g h : Host) → host_before g h ≡ true → host_before h g ≡ false
unfolding host_before
host_before-asym g h e = ground (arith, lt_signed-asym g.priority h.priority)

-- For a live user the resolution succeeds, whatever hosts are missing, as long as no pool of the
-- plan has a member with the zero id. For a user that is not live it fails with the status.
pub resolve_hosts_total :
    (u : User) (w : World)
    → in_pools 0 (list_pools_for_user (some u) w.pools) w.pools ≡ false
    → (is_live u.status ≡ true → (out : List Host) × (resolve_hosts_for_user (some u) w ≡ ok out))
      × (is_live u.status ≡ false → resolve_hosts_for_user (some u) w ≡ err (not_live u.status))
unfolding resolve_hosts_for_user resolve_live candidates_of get
resolve_hosts_total u w z = (
  λ live.
      let (hs, found) =
        resolved_total (candidates_of u w) w.hosts
          (ground (arith, meet_pools-met 0 (list_pools_for_user (some u) w.pools) w.pools [])) in
      (sort_by host_before hs, ground arith),
  λ dead. ground arith,
)

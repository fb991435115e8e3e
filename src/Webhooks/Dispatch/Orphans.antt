-- ===== src/Webhooks/Dispatch/Orphans.antt =====
-- Retries whose delivery is gone.
use aegis_panel.Common.{
  ℕ, ℕ_discrete, get, vals, drop_where_gone, ◌≡◌, ◌≢◌, refl, none, some, List, [], ◌∷◌, arith, All,
  GoMap, Entries, pos,
}
use aegis_panel.Webhooks.Model.{Endpoint, Delivery, not_found, ok, err}
use aegis_panel.Webhooks.Store.{
  MemoryStore, delete_endpoint, list_endpoints, list_deliveries_by_endpoint, of_endpoint,
}
use aegis_panel.Webhooks.Store.Listed.{All-list_deliveries_by_endpoint}
use aegis_panel.Webhooks.Deliver.{Outside}
use aegis_panel.Webhooks.Dispatch.Attempts.{IsAttempt, Counted}
use aegis_panel.Webhooks.Dispatch.Runs.{delete_endpoint-Counted}
use aegis_panel.Webhooks.Dispatch.{find_in, find_delivery, or_else, retry_delivery, count_retry}

-- No listed delivery has this id.
abbrev pub Absent : ℕ → List Delivery → Type 0
Absent id = All (λ d. d.id ≢ id)

find_in-none : (id : ℕ) (ds : List Delivery) → Absent id ds → find_in id ds ≡ none
unfolding find_in
find_in-none id [] h = refl
find_in-none id (d ∷ ds) h = ground (arith, h.0, find_in-none id ds h.1)

vals-Absent :
    (id : ℕ) (m : GoMap ℕ Delivery)
    → Entries ℕ_discrete IsAttempt m
    → get ℕ_discrete id m ≡ none
    → Absent id (vals m)
unfolding vals get
vals-Absent id [] h gone = tt
vals-Absent id ((k, d) ∷ m) h gone = (ground (arith, h.0.0), vals-Absent id m h.1 (ground arith))

list_deliveries-Absent :
    (id ep_id : ℕ) (s : MemoryStore)
    → Counted s
    → get ℕ_discrete id s.deliveries ≡ none
    → Absent id (list_deliveries_by_endpoint ep_id (pos 0) s)
list_deliveries-Absent id ep_id s v gone =
    All-list_deliveries_by_endpoint (λ d. d.id ≢ id) ep_id (pos 0) s
      (vals-Absent id s.deliveries v gone)

find_delivery-none :
    (id : ℕ) (eps : List Endpoint) (s : MemoryStore)
    → Counted s
    → get ℕ_discrete id s.deliveries ≡ none
    → find_delivery id eps s ≡ none
unfolding find_delivery or_else
find_delivery-none id [] s v gone = refl
find_delivery-none id (ep ∷ eps) s v gone =
    rw
      (
        find_in-none id (list_deliveries_by_endpoint ep.id (pos 0) s)
            (list_deliveries-Absent id ep.id s v gone),
        find_delivery-none id eps s v gone,
      )
      refl

deleted_rows :
    (ep_id id : ℕ) (d : Delivery) (s t : MemoryStore)
    → get ℕ_discrete id s.deliveries ≡ some d
    → d.endpoint_id ≡ ep_id
    → delete_endpoint ep_id s ≡ ok t
    → get ℕ_discrete id t.deliveries ≡ none
unfolding delete_endpoint
deleted_rows ep_id id d s t at of h = ground (
  arith,
  drop_where_gone ℕ_discrete (of_endpoint ep_id) id d s.deliveries s.deliveries at (ground arith),
)

deleted_retries :
    (ep_id : ℕ) (s t : MemoryStore)
    → delete_endpoint ep_id s ≡ ok t
    → t.pending_retries ≡ s.pending_retries
unfolding delete_endpoint
deleted_retries ep_id s t h = ground arith

-- Once an endpoint is deleted, a retry that waits for one of its deliveries is never taken off the
-- queue by a retry: each fails with "not found" and leaves the store, with the waiting entry, as it
-- is. (In a store with at most six attempts to a delivery, for an id that is not zero.)
pub orphan_waits_forever :
    (env : Outside) (ep_id id : ℕ) (d : Delivery) (s t : MemoryStore)
    → Counted s
    → id ≢ 0
    → get ℕ_discrete id s.deliveries ≡ some d
    → d.endpoint_id ≡ ep_id
    → delete_endpoint ep_id s ≡ ok t
    → (t.pending_retries ≡ s.pending_retries)
      × (retry_delivery env id t ≡ err not_found)
      × (count_retry (retry_delivery env id t) t ≡ (0, t))
unfolding retry_delivery count_retry
orphan_waits_forever env ep_id id d s t v named at of h =
    let gone : get ℕ_discrete id t.deliveries ≡ none = deleted_rows ep_id id d s t at of h in
    let nowhere =
      find_delivery-none id (list_endpoints t) t (delete_endpoint-Counted ep_id s t h v) gone in
    let failed : retry_delivery env id t ≡ err not_found = ground (arith, nowhere) in
    (deleted_retries ep_id s t h, failed, rw failed refl)

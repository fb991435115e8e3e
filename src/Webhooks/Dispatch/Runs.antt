-- ===== src/Webhooks/Dispatch/Runs.antt =====
-- Each call keeps deliveries within six attempts.
use aegis_panel.Common.{
  ℕ, ℕ_discrete, String, ◌+◌, ◌≤◌, drop_where, Entries-drop_where, All-vals, ◌≡◌, ◌⊎◌, inl, inr,
  refl, sym, subst, ap, Bool-cases, Option-cases, some, List, [], ◌∷◌, ◌==◌, arith, All, ℤ, pos,
}
use aegis_panel.Webhooks.Model.{Endpoint, Delivery, EventType, Result, ok, err}
use aegis_panel.Webhooks.Retry.{max_attempts}
use aegis_panel.Webhooks.Store.{
  MemoryStore, delete_endpoint, dequeue_retry, list_endpoints, list_deliveries_by_endpoint,
  of_endpoint,
}
use aegis_panel.Webhooks.Store.Listed.{All-list_deliveries_by_endpoint}
use aegis_panel.Webhooks.Deliver.{Outside, DispatchResult, Attempted, deliver_sync, kept}
use aegis_panel.Webhooks.Dispatch.{
  passed_over, dispatch_one, dispatch_all, find_in, or_else, find_delivery, retry_found,
  retry_delivery, count_retry, process_ids,
}
use aegis_panel.Webhooks.Dispatch.Attempts.{IsAttempt, Counted, deliver_sync-Counted}

-- A delivery with a number of its own.
abbrev Numbered : Delivery → Type 0
Numbered d = (1 ≤ d.attempt) × (d.attempt ≤ max_attempts)

pub delete_endpoint-Counted :
    (id : ℕ) (s t : MemoryStore) → delete_endpoint id s ≡ ok t → Counted s → Counted t
unfolding delete_endpoint
delete_endpoint-Counted id s t h v =
    let rows : drop_where ℕ_discrete (of_endpoint id) s.deliveries s.deliveries ≡ t.deliveries =
      ground arith in
    rw (← rows)
      (Entries-drop_where ℕ_discrete IsAttempt (of_endpoint id) s.deliveries s.deliveries v)

list_deliveries-Numbered :
    (id : ℕ) (limit : ℤ) (s : MemoryStore)
    → Counted s
    → All Numbered (list_deliveries_by_endpoint id limit s)
list_deliveries-Numbered id limit s v =
    All-list_deliveries_by_endpoint Numbered id limit s
      (All-vals ℕ_discrete IsAttempt Numbered s.deliveries (λ k d p. (p.1, p.2)) v)

find_in-Numbered :
    (id : ℕ) (ds : List Delivery) (d : Delivery)
    → All Numbered ds
    → find_in id ds ≡ some d
    → Numbered d
unfolding find_in
find_in-Numbered id [] d h e = cc
find_in-Numbered id (x ∷ ds) d h e = elim (Bool-cases (x.id == id)) [
  | inl q ↦ let same : x ≡ d = ground arith in subst Numbered same h.0
  | inr q ↦ find_in-Numbered id ds d h.1 (ground arith)
]

find_delivery-Numbered :
    (id : ℕ) (eps : List Endpoint) (s : MemoryStore) (ep : Endpoint) (d : Delivery)
    → Counted s
    → find_delivery id eps s ≡ some (ep, d)
    → Numbered d
unfolding find_delivery or_else
find_delivery-Numbered id [] s ep d v e = cc
find_delivery-Numbered id (x ∷ eps) s ep d v e =
    let ds = list_deliveries_by_endpoint x.id (pos 0) s in
    elim (Option-cases (find_in id ds)) [
      | inl n ↦ find_delivery-Numbered id eps s ep d v (ground arith)
      | inr (w, n) ↦
          find_in-Numbered id ds d (list_deliveries-Numbered x.id (pos 0) s v) (ground arith)
    ]

kept-dequeue_retry :
    (id : ℕ) (s : MemoryStore) → (kept s (dequeue_retry id s)).deliveries ≡ s.deliveries
unfolding dequeue_retry
kept-dequeue_retry id s = ground arith

retry_found-Counted :
    (env : Outside) (id : ℕ) (s t : MemoryStore) (ep : Endpoint) (d : Delivery) (r : DispatchResult)
    → Counted s
    → Numbered d
    → retry_found env id s (ep, d) ≡ ok (r, t)
    → Counted t
unfolding retry_found
retry_found-Counted env id s t ep d r v n h =
    let u = (deliver_sync env ep d.event_type d.request_body (d.attempt + 1) s).1 in
    let done : Counted u =
      deliver_sync-Counted env ep d.event_type d.request_body (d.attempt + 1) s (omega arith)
        (ground arith) v in
    let rows : u.deliveries ≡ t.deliveries = ground (arith, kept-dequeue_retry id u) in
    rw (← rows) done

pub retry_delivery-Counted :
    (env : Outside) (id : ℕ) (s t : MemoryStore) (r : DispatchResult)
    → Counted s
    → retry_delivery env id s ≡ ok (r, t)
    → Counted t
unfolding retry_delivery
retry_delivery-Counted env id s t r v h =
    elim (Option-cases (find_delivery id (list_endpoints s) s)) [
      | inl n ↦ absurd (ground arith)
      | inr ((ep, d), n) ↦
          retry_found-Counted env id s t ep d r v
            (find_delivery-Numbered id (list_endpoints s) s ep d v n) (ground arith)
    ]

count_retry-Counted :
    (s : MemoryStore) (a : Result Attempted)
    → Counted s
    → ((r : DispatchResult) (t : MemoryStore) → a ≡ ok (r, t) → Counted t)
    → Counted (count_retry a s).1
unfolding count_retry
count_retry-Counted s (err e) v f = v
count_retry-Counted s (ok (r, t)) v f = f r t refl

pub process_ids-Counted :
    (envs : ℕ → Outside) (n : ℕ) (ids : List ℕ) (s : MemoryStore)
    → Counted s
    → Counted (process_ids envs n ids s).1
unfolding process_ids
process_ids-Counted envs n [] s v = v
process_ids-Counted envs n (id ∷ ids) s v = process_ids-Counted envs (n + 1) ids _ (
    count_retry-Counted s (retry_delivery (envs n) id s) v
      (λ r t h. retry_delivery-Counted (envs n) id s t r v h))

-- An endpoint is passed over or gets a first attempt.
dispatch_one-cases :
    (env : Outside) (ep : Endpoint) (event : EventType) (body : String) (s : MemoryStore)
    → (dispatch_one env ep event body s ≡ (passed_over ep, s))
      ⊎ (dispatch_one env ep event body s ≡ deliver_sync env ep event body 1 s)
unfolding dispatch_one
dispatch_one-cases env ep event body s = ground arith

dispatch_one-Counted :
    (env : Outside) (ep : Endpoint) (event : EventType) (body : String) (s : MemoryStore)
    → Counted s
    → Counted (dispatch_one env ep event body s).1
dispatch_one-Counted env ep event body s v = elim (dispatch_one-cases env ep event body s) [
  | inl e ↦ subst Counted (sym (ap (λ (a : Attempted). a.1) e)) v
  | inr e ↦
      subst Counted (sym (ap (λ (a : Attempted). a.1) e))
        (deliver_sync-Counted env ep event body 1 s (omega arith) (omega arith) v)
]

pub dispatch_all-Counted :
    (envs : ℕ → Outside) (n : ℕ) (eps : List Endpoint) (event : EventType) (body : String)
    (s : MemoryStore)
    → Counted s
    → Counted (dispatch_all envs n eps event body s).1
unfolding dispatch_all
dispatch_all-Counted envs n [] event body s v = v
dispatch_all-Counted envs n (ep ∷ eps) event body s v =
    dispatch_all-Counted envs (n + 1) eps event body _
      (dispatch_one-Counted (envs n) ep event body s v)

-- ===== src/Webhooks/Dispatch/Advance.antt =====
-- What a retry and a tick of the worker achieve.
use aegis_panel.Common.{
  ℕ, ℕ_discrete, ◌+◌, ◌≤◌, ◌<◌, get, remove, get-remove_self, ◌≡◌, ◌≢◌, refl, none, some, List, [],
  ◌∷◌, arith, length, take, length-take, select, sort_by, pos,
}
use aegis_panel.Webhooks.Model.{Endpoint, Delivery, Result, ok, err}
use aegis_panel.Webhooks.Retry.{max_attempts}
use aegis_panel.Webhooks.Store.{
  MemoryStore, dequeue_retry, list_endpoints, list_due_retries, clamp, ids, due_before, is_due,
  max_list_limit,
}
use aegis_panel.Webhooks.Deliver.{Outside, DispatchResult, Attempted, deliver_sync, kept}
use aegis_panel.Webhooks.Deliver.Parts.{Fresh}
use aegis_panel.Webhooks.Deliver.Outcome.{Done, deliver_sync-Done}
use aegis_panel.Webhooks.Dispatch.{
  find_delivery, retry_found, retry_delivery, count_retry, process_ids, process_due_retries,
}

dequeued :
    (id : ℕ) (s : MemoryStore)
    → id ≢ 0
    → kept s (dequeue_retry id s)
      ≡ record s { pending_retries = remove ℕ_discrete id s.pending_retries }
unfolding dequeue_retry
dequeued id s named = ground arith

-- A retry of a delivery that is found, with fewer than six attempts behind it and fresh ids at
-- hand, makes the next attempt at its event, which ends in one of the three ways, and takes the
-- delivery off the queue.
pub retry_delivery-advances :
    (env : Outside) (id : ℕ) (s : MemoryStore) (ep : Endpoint) (d : Delivery)
    → id ≢ 0
    → Fresh env s
    → find_delivery id (list_endpoints s) s ≡ some (ep, d)
    → d.attempt < max_attempts
    → (r : DispatchResult) × (u t : MemoryStore) × (retry_delivery env id s ≡ ok (r, t))
      × Done env ep d.event_type d.request_body (d.attempt + 1) s r u
      × (t ≡ record u { pending_retries = remove ℕ_discrete id u.pending_retries })
      × (get ℕ_discrete id t.pending_retries ≡ none)
unfolding retry_delivery retry_found
retry_delivery-advances env id s ep d named fresh found low =
    let n = d.attempt + 1 in
    let a : Attempted = deliver_sync env ep d.event_type d.request_body n s in
    let t : MemoryStore = record a.1 {
      pending_retries = remove ℕ_discrete id a.1.pending_retries;
    } in
    (
      a.0,
      a.1,
      t,
      ground (arith, dequeued id a.1 named),
      deliver_sync-Done env ep d.event_type d.request_body n s fresh,
      refl,
      get-remove_self ℕ_discrete id a.1.pending_retries,
    )

count_retry-le : (a : Result Attempted) (s : MemoryStore) → (count_retry a s).0 ≤ 1
unfolding count_retry
count_retry-le (ok (r, t)) s = omega arith
count_retry-le (err e) s = omega arith

process_ids-le :
    (envs : ℕ → Outside) (n : ℕ) (todo : List ℕ) (s : MemoryStore)
    → (process_ids envs n todo s).0 ≤ length todo
unfolding process_ids
process_ids-le envs n [] s = omega arith
process_ids-le envs n (id ∷ todo) s = omega (
  arith,
  count_retry-le (retry_delivery (envs n) id s) s,
  process_ids-le envs (n + 1) todo (count_retry (retry_delivery (envs n) id s) s).1,
)

ids-length : (rs : List (ℕ × ℕ)) → length (ids rs) ≡ length rs
unfolding ids
ids-length [] = refl
ids-length ((id, at) ∷ rs) = omega (arith, ids-length rs)

due-le :
    (now n : ℕ) (s : MemoryStore)
    → 0 < n
    → (length (list_due_retries now (pos n) s) ≤ n)
      × (length (list_due_retries now (pos n) s) ≤ max_list_limit)
unfolding list_due_retries clamp
due-le now n s some_n =
    let found : List (ℕ × ℕ) = sort_by due_before (select (is_due now) s.pending_retries) in
    let m : ℕ = clamp (pos n) in
    let size : m ≤ n × m ≤ max_list_limit = ground arith in
    omega (arith, ids-length (take m found), length-take m found, size.0, size.1)

-- A tick of the worker fires at most as many retries as its batch, and a thousand at most.
pub process_due_retries-le :
    (envs : ℕ → Outside) (now n : ℕ) (s : MemoryStore)
    → 0 < n
    → ((process_due_retries envs now (pos n) s).0 ≤ n)
      × ((process_due_retries envs now (pos n) s).0 ≤ max_list_limit)
unfolding process_due_retries
process_due_retries-le envs now n s some_n =
    let due = list_due_retries now (pos n) s in
    let few = due-le now n s some_n in ground (arith, process_ids-le envs 0 due s)

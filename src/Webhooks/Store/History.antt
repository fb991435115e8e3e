-- ===== src/Webhooks/Store/History.antt =====
-- Endpoints over every history of writes to the store.
use aegis_panel.Common.{ℕ, ℕ_discrete, String_discrete, get, ◌≡◌, arith, some}
use aegis_panel.Webhooks.Model.{Endpoint, Delivery, DlqEntry, ok}
use aegis_panel.Webhooks.Store.{
  MemoryStore, new_memory_store, create_endpoint, update_endpoint, delete_endpoint, create_delivery,
  enqueue_dlq, delete_dlq, enqueue_retry, dequeue_retry,
}
use aegis_panel.Webhooks.Store.Urls.{
  Addressed, new-Addressed, create_endpoint-Addressed, update_endpoint-Addressed,
  delete_endpoint-Addressed,
}

-- Every method that writes.
pub data Write (s t : MemoryStore) : Type 0 where
  creates : (e : Endpoint) (now : ℕ) → create_endpoint e now s ≡ ok t → Write s t
  updates : (e : Endpoint) (now : ℕ) → update_endpoint e now s ≡ ok t → Write s t
  deletes : (id : ℕ) → delete_endpoint id s ≡ ok t → Write s t
  delivers : (d : Delivery) (now : ℕ) → create_delivery d now s ≡ ok t → Write s t
  buries : (entry : DlqEntry) (now : ℕ) → enqueue_dlq entry now s ≡ ok t → Write s t
  discards : (id : ℕ) → delete_dlq id s ≡ ok t → Write s t
  schedules : (id at : ℕ) → enqueue_retry id at s ≡ ok t → Write s t
  unschedules : (id : ℕ) → dequeue_retry id s ≡ ok t → Write s t

pub data History : MemoryStore → Type 0 where
  start : History new_memory_store
  next : {s t : MemoryStore} → History s → Write s t → History t

same_endpoints :
    (s t : MemoryStore)
    → t.endpoints ≡ s.endpoints
    → t.endpoints_by_url ≡ s.endpoints_by_url
    → Addressed s
    → Addressed t
same_endpoints s t rows urls v = rw (rows, urls) v

Write-Addressed : {s t : MemoryStore} → Write s t → Addressed s → Addressed t
unfolding create_delivery enqueue_dlq delete_dlq enqueue_retry dequeue_retry
Write-Addressed {s} {t} (creates e now h) v = create_endpoint-Addressed e now s t h v
Write-Addressed {s} {t} (updates e now h) v = update_endpoint-Addressed e now s t h v
Write-Addressed {s} {t} (deletes id h) v = delete_endpoint-Addressed id s t h v
Write-Addressed {s} {t} (delivers d now h) v = same_endpoints s t (ground arith) (ground arith) v
Write-Addressed {s} {t} (buries entry now h) v = same_endpoints s t (ground arith) (ground arith) v
Write-Addressed {s} {t} (discards id h) v = same_endpoints s t (ground arith) (ground arith) v
Write-Addressed {s} {t} (schedules id at h) v = same_endpoints s t (ground arith) (ground arith) v
Write-Addressed {s} {t} (unschedules id h) v = same_endpoints s t (ground arith) (ground arith) v

pub History-Addressed : {s : MemoryStore} → History s → Addressed s
History-Addressed start = new-Addressed
History-Addressed (next h w) = Write-Addressed w (History-Addressed h)

-- After any history of writes, two endpoints with one address are one endpoint, and the index of
-- addresses leads from its address to it.
pub urls_unique :
    {s : MemoryStore} (i j : ℕ) (a b : Endpoint)
    → History s
    → get ℕ_discrete i s.endpoints ≡ some a
    → get ℕ_discrete j s.endpoints ≡ some b
    → a.url ≡ b.url
    → (i ≡ j) × (get String_discrete a.url s.endpoints_by_url ≡ some i)
urls_unique {s} i j a b h at at' same =
    let v = History-Addressed h in
    (ground (arith, v.listed i a at, v.listed j b at'), v.listed i a at)

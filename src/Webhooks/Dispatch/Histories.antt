-- ===== src/Webhooks/Dispatch/Histories.antt =====
-- The number of an attempt, over every history of calls.
use aegis_panel.Common.{ℕ, String, ◌≡◌, Option, some, List, ℤ}
use aegis_panel.Webhooks.Model.{Endpoint, EventType, ok}
use aegis_panel.Webhooks.Store.{
  MemoryStore, new_memory_store, create_endpoint, update_endpoint, delete_endpoint, delete_dlq,
}
use aegis_panel.Webhooks.Deliver.{Outside, DispatchResult}
use aegis_panel.Webhooks.Dispatch.{
  dispatch, retry_delivery, process_due_retries, replay_dlq_entry, send_test_event,
}

-- The calls of the service and its worker that write, as steps from one store to the next.
pub data Step (s t : MemoryStore) : Type 0 where
  creates : (e : Endpoint) (now : ℕ) → create_endpoint e now s ≡ ok t → Step s t
  updates : (e : Endpoint) (now : ℕ) → update_endpoint e now s ≡ ok t → Step s t
  deletes : (id : ℕ) → delete_endpoint id s ≡ ok t → Step s t
  discards : (id : ℕ) → delete_dlq id s ≡ ok t → Step s t
  dispatches :
      (envs : ℕ → Outside) (event : EventType) (body : Option String) (rs : List DispatchResult)
      → dispatch (λ text. some text) envs event body s ≡ ok (rs, t)
      → Step s t
  retries :
      (env : Outside) (id : ℕ) (r : DispatchResult) → retry_delivery env id s ≡ ok (r, t) → Step s t
  ticks :
      (envs : ℕ → Outside) (now : ℕ) (limit : ℤ) (fired : ℕ)
      → process_due_retries envs now limit s ≡ (fired, t)
      → Step s t
  replays :
      (env : Outside) (id : ℕ) (r : DispatchResult)
      → replay_dlq_entry env id s ≡ ok (r, t)
      → Step s t
  tests :
      (env : Outside) (body : Option String) (id : ℕ) (r : DispatchResult)
      → send_test_event env body id s ≡ ok (r, t)
      → Step s t

pub data Reach : MemoryStore → Type 0 where
  start : Reach new_memory_store
  next : {s t : MemoryStore} → Reach s → Step s t → Reach t

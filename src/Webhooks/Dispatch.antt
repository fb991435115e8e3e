-- ===== src/Webhooks/Dispatch.antt =====
-- backend/internal/webhooks/service.go: an event to every endpoint, the retries that are due, and
-- the replay of a dead letter. Each attempt takes its own `Outside`, the n-th one from `envs n`.
pub mod Attempts
pub mod Runs
pub mod Histories
pub mod Orphans
pub mod Advance
use aegis_panel.Common.{
  ℕ, ◌+◌, ◌<◌, String, Bool, true, false, ◌&&◌, not, Option, none, some, List, [], ◌∷◌, ◌==◌, ltb,
  leb, is_text, if◌then◌else◌, ℤ, pos, is_above, sort_by, ℕ_discrete, get,
}
use aegis_panel.Webhooks.Model.{
  Endpoint, Delivery, DeliveryStatus, skipped, DlqEntry, EventType, is_valid_event, matches_event,
  Error, not_found, marshal_failed, invalid, event_type_field, payload_field, delivery_id_field,
  endpoint_id_field, dlq_id_field, Result, ok, err, ◌>>=◌, ◌>>◌, fail_if, or_fail,
}
use aegis_panel.Webhooks.Retry.{max_attempts}
use aegis_panel.Webhooks.Store.{
  MemoryStore, list_endpoints, get_endpoint, list_deliveries_by_endpoint, dequeue_retry,
  list_due_retries, get_dlq,
}
use aegis_panel.Webhooks.Deliver.{
  Outside, DispatchResult, no_trouble, Attempted, deliver_sync, kept,
}

-- The order in which endpoints are served.
abbrev pub served_before : Endpoint → Endpoint → Bool
served_before a b =
    if a.created_at == b.created_at then ltb a.id b.id else ltb a.created_at b.created_at

-- The result of an endpoint that is passed over.
abbrev pub passed_over : Endpoint → DispatchResult
passed_over ep = record {
  endpoint_id = ep.id;
  delivery_id = 0;
  status = skipped;
  status_code = none;
  error = no_trouble;
  attempts = 0;
}

unfoldable pub dispatch_one : Outside → Endpoint → EventType → String → MemoryStore → Attempted
unfolding matches_event
dispatch_one env ep event body s =
    if not ep.enabled
    then (passed_over ep, s)
    else if not (matches_event ep event)
    then (passed_over ep, s)
    else deliver_sync env ep event body 1 s

unfoldable pub dispatch_all :
    (ℕ → Outside)
    → ℕ
    → List Endpoint
    → EventType
    → String
    → MemoryStore
    → List DispatchResult × MemoryStore
unfolding dispatch_one
dispatch_all envs n [] event body s = ([], s)
dispatch_all envs n (ep ∷ eps) event body s =
    let (r, t) = dispatch_one (envs n) ep event body s in
    let (rs, u) = dispatch_all envs (n + 1) eps event body t in (r ∷ rs, u)

-- `json.Marshal` of the payload is `marshal`.
unfoldable pub dispatch :
    {P : Type 0}
    → (P → Option String)
    → (ℕ → Outside)
    → EventType
    → Option P
    → MemoryStore
    → Result (List DispatchResult × MemoryStore)
unfolding dispatch_all
dispatch marshal envs event payload s = do
  fail_if (not (is_valid_event event)) (invalid event_type_field)
  p ← or_fail payload (invalid payload_field)
  body ← or_fail (marshal p) marshal_failed
  ok (dispatch_all envs 0 (sort_by served_before (list_endpoints s)) event body s)

unfoldable pub find_in : ℕ → List Delivery → Option Delivery
find_in id [] = none
find_in id (d ∷ ds) = let rest = find_in id ds in if not (d.id == id) then rest else some d

unfoldable pub or_else {ℓ} : {A B : Type ℓ} → B → Option A → Option (B × A) → Option (B × A)
or_else b none other = other
or_else b (some a) other = some (b, a)

-- The first endpoint with the delivery in the list of its newest ones.
unfoldable pub find_delivery : ℕ → List Endpoint → MemoryStore → Option (Endpoint × Delivery)
unfolding find_in or_else
find_delivery id [] s = none
find_delivery id (ep ∷ eps) s =
    or_else ep (find_in id (list_deliveries_by_endpoint ep.id (pos 0) s)) (find_delivery id eps s)

unfoldable pub retry_found : Outside → ℕ → MemoryStore → Endpoint × Delivery → Result Attempted
retry_found env id s (ep, d) = do
  fail_if (leb max_attempts d.attempt) (invalid delivery_id_field)
  let (r, t) = deliver_sync env ep d.event_type d.request_body (d.attempt + 1) s
  ok (r, kept t (dequeue_retry id t))

unfoldable pub retry_delivery : Outside → ℕ → MemoryStore → Result Attempted
unfolding find_delivery retry_found
retry_delivery env id s = do
  fail_if (id == 0) (invalid delivery_id_field)
  found ← or_fail (find_delivery id (list_endpoints s) s) not_found
  retry_found env id s found

unfoldable pub count_retry : Result Attempted → MemoryStore → ℕ × MemoryStore
count_retry (ok (r, t)) s = (1, t)
count_retry (err e) s = (0, s)

unfoldable pub process_ids : (ℕ → Outside) → ℕ → List ℕ → MemoryStore → ℕ × MemoryStore
unfolding count_retry
process_ids envs n [] s = (0, s)
process_ids envs n (id ∷ ids) s =
    let (fired, t) = count_retry (retry_delivery (envs n) id s) s in
    let (more, u) = process_ids envs (n + 1) ids t in (fired + more, u)

abbrev pub default_worker_batch : ℤ
default_worker_batch = pos 100

abbrev pub batch_or_default : ℤ → ℤ
batch_or_default limit = if is_above limit 0 then limit else default_worker_batch

unfoldable pub process_due_retries : (ℕ → Outside) → ℕ → ℤ → MemoryStore → ℕ × MemoryStore
unfolding process_ids
process_due_retries envs now limit s =
    process_ids envs 0 (list_due_retries now (batch_or_default limit) s) s

-- The endpoint of a dead letter, or what the letter still has of it.
abbrev pub endpoint_or_letter : Option Endpoint → DlqEntry → Endpoint
endpoint_or_letter (some ep) entry = ep
endpoint_or_letter none entry = record {
  id = entry.endpoint_id;
  url = entry.endpoint_url;
  secret = "";
  events = [];
  enabled = false;
  last_delivery_at = none;
  last_status_code = none;
  created_at = 0;
  updated_at = 0;
}

unfoldable pub replay_dlq_entry : Outside → ℕ → MemoryStore → Result Attempted
replay_dlq_entry env id s = do
  fail_if (id == 0) (invalid dlq_id_field)
  entry ← get_dlq id s
  let ep = endpoint_or_letter (get ℕ_discrete entry.endpoint_id s.endpoints) entry
  fail_if (is_text ep.secret "") (invalid dlq_id_field)
  ok (deliver_sync env ep entry.event_type entry.payload 1 s)

-- `body` is the marshalled test event, with the time in it.
unfoldable pub send_test_event : Outside → Option String → ℕ → MemoryStore → Result Attempted
send_test_event env body id s = do
  fail_if (id == 0) (invalid endpoint_id_field)
  ep ← get_endpoint id s
  text ← or_fail body marshal_failed
  ok (deliver_sync env ep "webhook.test" text 1 s)

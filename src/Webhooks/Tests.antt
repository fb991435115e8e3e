-- ===== src/Webhooks/Tests.antt =====
-- One endpoint and its deliveries, and the theorems at them.
use aegis_panel.Common.{
  ℕ_discrete, String_discrete, get, put, remove, vals, drop_where, sort_by, insert_by, ◌≡◌, refl,
  true, none, some, [], ◌∷◌, arith, is_space,
}
use aegis_panel.Webhooks.Model.{Endpoint, Delivery, is_valid_endpoint, not_found, ok, err}
use aegis_panel.Webhooks.Store.{
  MemoryStore, new_memory_store, create_endpoint, delete_endpoint, list_endpoints,
  list_deliveries_by_endpoint, clamp,
}
use aegis_panel.Webhooks.Deliver.{answered, Outside, DispatchResult, deliver_sync}
use aegis_panel.Webhooks.Deliver.Parts.{Fresh}
use aegis_panel.Webhooks.Deliver.Outcome.{Done, deliver_sync-Done}
use aegis_panel.Webhooks.Deliver.Stale.{touched, stale_endpoint_wins}
use aegis_panel.Webhooks.Dispatch.{find_delivery, find_in, or_else, retry_delivery, count_retry}
use aegis_panel.Webhooks.Dispatch.Attempts.{Counted}
use aegis_panel.Webhooks.Dispatch.Histories
use aegis_panel.Webhooks.Dispatch.Orphans.{orphan_waits_forever}
use aegis_panel.Webhooks.Dispatch.Advance.{retry_delivery-advances}
use aegis_panel.Webhooks.Service
use aegis_panel.Webhooks.Service.{
  UrlParser, CreateInput, new_endpoint, check_create, validate_url, validate_secret,
  validate_events,
}
use aegis_panel.Webhooks.Service.Checks.{AllChecked}

abbrev endpoint : Endpoint
endpoint = record {
  id = 1;
  url = "https://a.example/hook";
  secret = "0123456789abcdef";
  events = [];
  enabled = true;
  last_delivery_at = none;
  last_status_code = none;
  created_at = 10;
  updated_at = 10;
}

abbrev env : Outside
env = record {
  now = 50;
  created_now = 51;
  update_now = 52;
  dlq_now = 53;
  new_id = 5;
  dlq_id = 6;
  duration_ms = 3;
  digest = λ body secret. "digest";
  response = answered 503 "busy";
}

abbrev with_endpoint : MemoryStore
with_endpoint = record {
  endpoints = (1, endpoint) ∷ [];
  deliveries = [];
  dlq = [];
  pending_retries = [];
  endpoints_by_url = ("https://a.example/hook", 1) ∷ [];
}

fresh : Fresh env with_endpoint
unfolding get
fresh = record {
  some_id = λ e. omega arith;
  some_dlq_id = λ e. omega arith;
  new_delivery = refl;
  new_entry = refl;
}

deliver_sync-Done_example :
    let a = deliver_sync env endpoint "user.created" "{}" 6 with_endpoint in
    Done env endpoint "user.created" "{}" 6 with_endpoint a.0 a.1
deliver_sync-Done_example = deliver_sync-Done env endpoint "user.created" "{}" 6 with_endpoint fresh

stored_endpoint : get ℕ_discrete 1 with_endpoint.endpoints ≡ some endpoint
unfolding get ℕ_discrete
stored_endpoint = refl

valid : is_valid_endpoint (some endpoint) ≡ true
unfolding is_valid_endpoint
valid = refl

stale_endpoint_wins_example :
    get ℕ_discrete 1 (deliver_sync env endpoint "user.created" "{}" 1 with_endpoint).1.endpoints
    ≡ some (touched env endpoint 503)
stale_endpoint_wins_example =
    stale_endpoint_wins env endpoint endpoint "user.created" "{}" "busy" 1 503 with_endpoint fresh
      (λ e. omega arith) valid refl stored_endpoint refl

-- The second attempt at an event, which waits for a retry.
abbrev second_attempt : Delivery
second_attempt = record {
  id = 8;
  endpoint_id = 1;
  event_type = "user.created";
  payload = "{}";
  request_url = "https://a.example/hook";
  request_body = "{}";
  signature = "digest";
  timestamp = 40;
  status_code = some 503;
  response_body = "";
  error = none;
  attempt = 2;
  duration_ms = none;
  created_at = 40;
}

abbrev waiting : MemoryStore
waiting = record with_endpoint {
  deliveries = (8, second_attempt) ∷ [];
  pending_retries = (8, 45) ∷ [];
}

abbrev without_endpoint : MemoryStore
without_endpoint = record {
  endpoints = [];
  deliveries = [];
  dlq = [];
  pending_retries = (8, 45) ∷ [];
  endpoints_by_url = [];
}

deleted : delete_endpoint 1 waiting ≡ ok without_endpoint
unfolding delete_endpoint get remove drop_where ℕ_discrete String_discrete
deleted = refl

waiting_row : get ℕ_discrete 8 waiting.deliveries ≡ some second_attempt
unfolding get ℕ_discrete
waiting_row = refl

waiting-Counted : Counted waiting
waiting-Counted = ((refl, omega arith, omega arith), tt)

orphan_waits_forever_example :
    (without_endpoint.pending_retries ≡ waiting.pending_retries)
    × (retry_delivery env 8 without_endpoint ≡ err not_found)
    × (count_retry (retry_delivery env 8 without_endpoint) without_endpoint ≡ (0, without_endpoint))
orphan_waits_forever_example =
    orphan_waits_forever env 1 8 second_attempt waiting without_endpoint waiting-Counted
      (λ e. omega arith) waiting_row refl deleted

found_waiting : find_delivery 8 (list_endpoints waiting) waiting ≡ some (endpoint, second_attempt)
unfolding find_delivery find_in or_else list_endpoints list_deliveries_by_endpoint clamp vals
    sort_by insert_by
found_waiting = refl

fresh_waiting : Fresh env waiting
unfolding get ℕ_discrete
fresh_waiting = record {
  some_id = λ e. omega arith;
  some_dlq_id = λ e. omega arith;
  new_delivery = refl;
  new_entry = refl;
}

retry_delivery-advances_example :
    (r : DispatchResult) × (u t : MemoryStore) × (retry_delivery env 8 waiting ≡ ok (r, t))
    × Done env endpoint "user.created" "{}" 3 waiting r u
    × (t ≡ record u { pending_retries = remove ℕ_discrete 8 u.pending_retries })
    × (get ℕ_discrete 8 t.pending_retries ≡ none)
retry_delivery-advances_example =
    retry_delivery-advances env 8 waiting endpoint second_attempt (λ e. omega arith) fresh_waiting
      found_waiting (omega arith)

abbrev parse_url : UrlParser
parse_url raw = some ("https", "a.example")

abbrev input : CreateInput
input = record {
  url = "https://a.example/hook";
  secret = "0123456789abcdef";
  events = [];
  enabled = true;
}

creates_input :
    Service.create parse_url input 10 1 10 new_memory_store ≡ ok (endpoint, with_endpoint)
unfolding Service.create check_create validate_url validate_secret validate_events new_endpoint
    is_space Service.starts_with_space Service.ends_with_space create_endpoint is_valid_endpoint
    new_memory_store get put remove ℕ_discrete String_discrete
creates_input = refl

none_before : AllChecked parse_url new_memory_store
unfolding new_memory_store
none_before = tt

-- ===== src/Webhooks/Store.antt =====
-- backend/internal/webhooks/memory_store.go. A store's clock is the argument `now`; on an error the
-- store is unchanged. Rows are copied in and out, so they are values. A nil row is `none`.
pub mod Urls
pub mod History
pub mod Listed
use aegis_panel.Common.{
  ℕ, String, String_discrete, ℕ_discrete, GoMap, get, put, remove, vals, drop_where, sort_by, Bool,
  true, false, ◌&&◌, ◌||◌, not, Option, none, some, List, [], ◌∷◌, ◌==◌, ltb, is_text, is_some,
  if◌then◌else◌, ℤ, pos, is_above, is_below, take, select,
}
use aegis_panel.Webhooks.Model.{
  Endpoint, Delivery, DlqEntry, EventType, is_valid_endpoint, Error, zero_id, invalid_endpoint,
  not_found, duplicate, Result, ok, err, ◌>>=◌, ◌>>◌, fail_if, or_fail,
}

pub record MemoryStore : Type 0 where
  pub endpoints : GoMap ℕ Endpoint
  pub deliveries : GoMap ℕ Delivery
  pub dlq : GoMap ℕ DlqEntry
  pub pending_retries : GoMap ℕ ℕ
  pub endpoints_by_url : GoMap String ℕ

unfoldable pub new_memory_store : MemoryStore
new_memory_store = record {
  endpoints = [];
  deliveries = [];
  dlq = [];
  pending_retries = [];
  endpoints_by_url = [];
}

abbrev pub or_now : ℕ → ℕ → ℕ
or_now now t = if t == 0 then now else t

unfoldable pub create_endpoint : Endpoint → ℕ → MemoryStore → Result MemoryStore
create_endpoint e now s = do
  fail_if (e.id == 0) zero_id
  fail_if (not (is_valid_endpoint (some e))) invalid_endpoint
  fail_if (is_some (get ℕ_discrete e.id s.endpoints)) duplicate
  fail_if (is_some (get String_discrete e.url s.endpoints_by_url)) duplicate
  let row = record e { created_at = or_now now e.created_at; updated_at = or_now now e.updated_at }
  ok (record s {
    endpoints = put ℕ_discrete e.id row s.endpoints;
    endpoints_by_url = put String_discrete e.url e.id s.endpoints_by_url;
  })

unfoldable pub get_endpoint : ℕ → MemoryStore → Result Endpoint
get_endpoint id s = or_fail (get ℕ_discrete id s.endpoints) not_found

abbrev older_endpoint : Endpoint → Endpoint → Bool
older_endpoint a b = ltb a.created_at b.created_at

unfoldable pub list_endpoints : MemoryStore → List Endpoint
list_endpoints s = sort_by older_endpoint (vals s.endpoints)

-- Another endpoint has the address.
abbrev pub is_other : Option ℕ → ℕ → Bool
is_other none id = false
is_other (some dup) id = not (dup == id)

unfoldable pub rename : String → Endpoint → GoMap String ℕ → GoMap String ℕ
rename old e urls =
    if not (is_text old e.url)
    then put String_discrete e.url e.id (remove String_discrete old urls)
    else urls

unfoldable pub update_endpoint : Endpoint → ℕ → MemoryStore → Result MemoryStore
update_endpoint e now s = do
  fail_if (e.id == 0) zero_id
  fail_if (not (is_valid_endpoint (some e))) invalid_endpoint
  existing ← or_fail (get ℕ_discrete e.id s.endpoints) not_found
  fail_if
      (not (is_text existing.url e.url)
        && is_other (get String_discrete e.url s.endpoints_by_url) e.id)
      duplicate
  ok (record s {
    endpoints = put ℕ_discrete e.id (record e { updated_at = now }) s.endpoints;
    endpoints_by_url = rename existing.url e s.endpoints_by_url;
  })

abbrev pub of_endpoint : ℕ → Delivery → Bool
of_endpoint id d = d.endpoint_id == id

-- The endpoint and its deliveries go; its retries and its dead letters stay.
unfoldable pub delete_endpoint : ℕ → MemoryStore → Result MemoryStore
delete_endpoint id s = do
  e ← or_fail (get ℕ_discrete id s.endpoints) not_found
  ok (record s {
    endpoints = remove ℕ_discrete id s.endpoints;
    endpoints_by_url = remove String_discrete e.url s.endpoints_by_url;
    deliveries = drop_where ℕ_discrete (of_endpoint id) s.deliveries s.deliveries;
  })

unfoldable pub create_delivery : Delivery → ℕ → MemoryStore → Result MemoryStore
create_delivery d now s = do
  fail_if (d.id == 0) zero_id
  fail_if (is_some (get ℕ_discrete d.id s.deliveries)) duplicate
  let row = record d { created_at = or_now now d.created_at }
  ok (record s { deliveries = put ℕ_discrete d.id row s.deliveries })

abbrev pub default_list_limit : ℕ
default_list_limit = 100

abbrev pub max_list_limit : ℕ
max_list_limit = 1000

unfoldable pub clamp : ℤ → ℕ
clamp (pos n) =
    if n == 0 then default_list_limit else if ltb max_list_limit n then max_list_limit else n
clamp _ = default_list_limit

abbrev pub newer_delivery : Delivery → Delivery → Bool
newer_delivery a b = ltb b.created_at a.created_at

unfoldable pub list_deliveries_by_endpoint : ℕ → ℤ → MemoryStore → List Delivery
unfolding clamp
list_deliveries_by_endpoint id limit s =
    take (clamp limit) (sort_by newer_delivery (select (of_endpoint id) (vals s.deliveries)))

unfoldable pub enqueue_dlq : DlqEntry → ℕ → MemoryStore → Result MemoryStore
enqueue_dlq entry now s = do
  fail_if (entry.id == 0) zero_id
  fail_if (is_some (get ℕ_discrete entry.id s.dlq)) duplicate
  let row = record entry { enqueued_at = or_now now entry.enqueued_at }
  ok (record s { dlq = put ℕ_discrete entry.id row s.dlq })

abbrev newer_entry : DlqEntry → DlqEntry → Bool
newer_entry a b = ltb b.enqueued_at a.enqueued_at

unfoldable pub list_dlq : ℤ → MemoryStore → List DlqEntry
unfolding clamp
list_dlq limit s = take (clamp limit) (sort_by newer_entry (vals s.dlq))

unfoldable pub get_dlq : ℕ → MemoryStore → Result DlqEntry
get_dlq id s = or_fail (get ℕ_discrete id s.dlq) not_found

unfoldable pub delete_dlq : ℕ → MemoryStore → Result MemoryStore
delete_dlq id s = do
  e ← or_fail (get ℕ_discrete id s.dlq) not_found
  ok (record s { dlq = remove ℕ_discrete id s.dlq })

unfoldable pub enqueue_retry : ℕ → ℕ → MemoryStore → Result MemoryStore
enqueue_retry id next_attempt_at s = do
  fail_if (id == 0) zero_id
  ok (record s { pending_retries = put ℕ_discrete id next_attempt_at s.pending_retries })

unfoldable pub dequeue_retry : ℕ → MemoryStore → Result MemoryStore
dequeue_retry id s = do
  fail_if (id == 0) zero_id
  ok (record s { pending_retries = remove ℕ_discrete id s.pending_retries })

-- Ids order as their texts do.
abbrev pub due_before : ℕ × ℕ → ℕ × ℕ → Bool
due_before a b = if a.1 == b.1 then ltb a.0 b.0 else ltb a.1 b.1

abbrev pub is_due : ℕ → ℕ × ℕ → Bool
is_due now r = not (ltb now r.1)

unfoldable pub ids : List (ℕ × ℕ) → List ℕ
ids [] = []
ids ((id, _) ∷ rs) = id ∷ ids rs

unfoldable pub list_due_retries : ℕ → ℤ → MemoryStore → List ℕ
unfolding clamp ids
list_due_retries now limit s =
    ids (take (clamp limit) (sort_by due_before (select (is_due now) s.pending_retries)))

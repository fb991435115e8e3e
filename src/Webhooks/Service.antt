-- ===== src/Webhooks/Service.antt =====
-- backend/internal/webhooks/service.go: the endpoints that an operator keeps, with the checks of
-- endpoint.go. `net/url` decides what an address is: `parse_url` is the scheme and the host it finds.
pub mod Checks
use Prim.Native.String.{len}
use aegis_panel.Common.{
  ℕ, String, Bool, true, false, ◌&&◌, ◌||◌, not, Option, none, some, List, [], ◌∷◌, ◌==◌, ltb, leb,
  is_text, codes, is_space, if◌then◌else◌, ℤ,
}
use aegis_panel.Webhooks.Model.{
  EventType, Endpoint, Delivery, DlqEntry, is_valid_event, Error, invalid, id_field, url_field,
  secret_field, events_field, endpoint_id_field, Result, ok, err, ◌>>=◌, ◌>>◌, fail_if, or_fail,
}
use aegis_panel.Webhooks.Store
use aegis_panel.Webhooks.Store.{
  MemoryStore, create_endpoint, get_endpoint, update_endpoint, delete_endpoint,
  list_deliveries_by_endpoint,
}

abbrev pub UrlParser : Type 0
UrlParser = String → Option (String × String)

unfoldable pub validate_url : UrlParser → String → Result (Unit {0})
validate_url parse_url raw = do
  fail_if (is_text raw "") (invalid url_field)
  parts ← or_fail (parse_url raw) (invalid url_field)
  fail_if (not (is_text parts.0 "http") && not (is_text parts.0 "https")) (invalid url_field)
  fail_if (is_text parts.1 "") (invalid url_field)

unfoldable pub starts_with_space : List ℕ → Bool
starts_with_space [] = false
starts_with_space (c ∷ cs) = is_space c

unfoldable pub ends_with_space : List ℕ → Bool
ends_with_space [] = false
ends_with_space (c ∷ []) = is_space c
ends_with_space (c ∷ d ∷ cs) = ends_with_space (d ∷ cs)

-- `strings.TrimSpace` leaves a text as it is when neither end is a space; `len` counts bytes.
unfoldable pub validate_secret : String → Result (Unit {0})
validate_secret s = do
  fail_if (is_text s "") (invalid secret_field)
  fail_if (starts_with_space (codes s) || ends_with_space (codes s)) (invalid secret_field)
  fail_if (ltb (len s) 16) (invalid secret_field)
  fail_if (ltb 256 (len s)) (invalid secret_field)

unfoldable pub validate_events : List EventType → Result (Unit {0})
validate_events [] = ok tt
validate_events (e ∷ es) =
    let rest = validate_events es in
    if not (is_valid_event e) then err (invalid events_field) else rest

pub record CreateInput : Type 0 where
  pub url : String
  pub secret : String
  pub events : List EventType
  pub enabled : Bool

unfoldable pub check_create : UrlParser → CreateInput → Result (Unit {0})
check_create parse_url i = do
  validate_url parse_url i.url
  validate_secret i.secret
  validate_events i.events

-- The clock of the service, the fresh id and the clock of the store are arguments.
unfoldable pub new_endpoint : CreateInput → ℕ → ℕ → Endpoint
new_endpoint i now id = record {
  id = id;
  url = i.url;
  secret = i.secret;
  events = i.events;
  enabled = i.enabled;
  last_delivery_at = none;
  last_status_code = none;
  created_at = now;
  updated_at = now;
}

unfoldable pub create :
    UrlParser → CreateInput → ℕ → ℕ → ℕ → MemoryStore → Result (Endpoint × MemoryStore)
create parse_url i now id store_now s = do
  check_create parse_url i
  t ← create_endpoint (new_endpoint i now id) store_now s
  ok (new_endpoint i now id, t)

unfoldable pub get : ℕ → MemoryStore → Result Endpoint
get id s = do fail_if (id == 0) (invalid id_field); get_endpoint id s

-- A `none` leaves the field alone.
pub record UpdateInput : Type 0 where
  pub url : Option String
  pub secret : Option String
  pub events : Option (List EventType)
  pub enabled : Option Bool

abbrev pub given {ℓ} : {A : Type ℓ} → Option A → (A → Result (Unit {0})) → Result (Unit {0})
given none check = ok tt
given (some a) check = check a

abbrev pub choose {ℓ} : {A : Type ℓ} → Option A → A → A
choose none old = old
choose (some a) old = a

unfoldable pub check_update : UrlParser → UpdateInput → Result (Unit {0})
check_update parse_url i = do
  given i.url (validate_url parse_url)
  given i.secret validate_secret
  given i.events validate_events

unfoldable pub merged : UpdateInput → Endpoint → Endpoint
merged i cur = record cur {
  url = choose i.url cur.url;
  secret = choose i.secret cur.secret;
  events = choose i.events cur.events;
  enabled = choose i.enabled cur.enabled;
}

unfoldable pub update :
    UrlParser → ℕ → UpdateInput → ℕ → MemoryStore → Result (Endpoint × MemoryStore)
update parse_url id i store_now s = do
  fail_if (id == 0) (invalid id_field)
  cur ← get_endpoint id s
  check_update parse_url i
  t ← update_endpoint (merged i cur) store_now s
  out ← get_endpoint id t
  ok (out, t)

unfoldable pub delete : ℕ → MemoryStore → Result MemoryStore
delete id s = do fail_if (id == 0) (invalid id_field); delete_endpoint id s

unfoldable pub list_deliveries : ℕ → ℤ → MemoryStore → Result (List Delivery)
list_deliveries id limit s = do
  fail_if (id == 0) (invalid endpoint_id_field)
  ok (list_deliveries_by_endpoint id limit s)

unfoldable pub get_dlq : ℕ → MemoryStore → Result DlqEntry
get_dlq id s = do fail_if (id == 0) (invalid id_field); Store.get_dlq id s

unfoldable pub delete_dlq : ℕ → MemoryStore → Result MemoryStore
delete_dlq id s = do fail_if (id == 0) (invalid id_field); Store.delete_dlq id s

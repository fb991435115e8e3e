-- ===== src/Webhooks/Model.antt =====
-- backend/internal/webhooks: the types of endpoint.go and delivery.go, the errors of store.go.
-- Ids are numbers, 0 the zero UUID; times are numbers, 0 the zero time. A body is a text. The text
-- of an error is a case of `Failure` where a row stores it, and dropped elsewhere.
use aegis_panel.Common.{
  ℕ, String, Bool, true, false, Option, none, some, List, [], ◌∷◌, is_text, if◌then◌else◌, Fallible,
}
pub use aegis_panel.Common.{ok, err, ◌>>=◌, ◌>>◌, fail_if, or_fail, >>=-eq-ok, >>-eq-ok}

abbrev pub EventType : Type 0
EventType = String

abbrev pub allowed_event_types : List EventType
allowed_event_types =
    "user.created" ∷ "user.updated" ∷ "user.deleted" ∷ "plan.created" ∷ "plan.updated"
    ∷ "plan.deleted" ∷ "node.created" ∷ "node.updated" ∷ "node.deleted" ∷ "host.created"
    ∷ "host.updated" ∷ "host.deleted" ∷ "backup.created" ∷ "backup.completed" ∷ "backup.failed"
    ∷ "inbound.created" ∷ "inbound.updated" ∷ "inbound.deleted" ∷ "inbound_template.created"
    ∷ "inbound_template.updated" ∷ "inbound_template.deleted" ∷ []

unfoldable pub among : EventType → List EventType → Bool
among e [] = false
among e (v ∷ vs) = let rest = among e vs in if is_text v e then true else rest

unfoldable pub is_valid_event : EventType → Bool
unfolding among
is_valid_event e = among e allowed_event_types

pub record Endpoint : Type 0 where
  pub id : ℕ
  pub url : String
  pub secret : String
  pub events : List EventType
  pub enabled : Bool
  pub last_delivery_at : Option ℕ
  pub last_status_code : Option ℕ
  pub created_at : ℕ
  pub updated_at : ℕ

unfoldable pub is_valid_endpoint : Option Endpoint → Bool
is_valid_endpoint none = false
is_valid_endpoint (some e) =
    if is_text e.url "" then false else if is_text e.secret "" then false else true

unfoldable pub matches : EventType → List EventType → Bool
unfolding among
matches t [] = true
matches t (e ∷ es) = among t (e ∷ es)

-- An endpoint with no events takes every event.
unfoldable pub matches_event : Endpoint → EventType → Bool
unfolding matches
matches_event e t = matches t e.events

-- Why an attempt failed: the texts that start with "sign: ", "build request: " and "http ", and
-- the error of the HTTP client.
pub data Failure : Type 0 where
  sign_failed : Failure
  not_built no_answer : String → Failure
  http_status : ℕ → Failure

-- `error` is `none` for the empty text.
pub record Delivery : Type 0 where
  pub id : ℕ
  pub endpoint_id : ℕ
  pub event_type : EventType
  pub payload : String
  pub request_url : String
  pub request_body : String
  pub signature : String
  pub timestamp : ℕ
  pub status_code : Option ℕ
  pub response_body : String
  pub error : Option Failure
  pub attempt : ℕ
  pub duration_ms : Option ℕ
  pub created_at : ℕ

pub data DeliveryStatus : Type 0 where
  skipped success retry failed : DeliveryStatus

pub record DlqEntry : Type 0 where
  pub id : ℕ
  pub endpoint_id : ℕ
  pub endpoint_url : String
  pub event_type : EventType
  pub payload : String
  pub last_error : Failure
  pub attempts : ℕ
  pub last_attempt_at : ℕ
  pub enqueued_at : ℕ

pub data Field : Type 0 where
  id_field url_field secret_field events_field event_type_field payload_field : Field
  delivery_id_field endpoint_id_field dlq_id_field : Field

pub data Error : Type 0 where
  zero_id invalid_endpoint not_found duplicate marshal_failed : Error
  invalid : Field → Error

abbrev pub Result {ℓ} : Type ℓ → Type ℓ
Result A = Fallible Error A

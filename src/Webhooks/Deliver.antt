-- ===== src/Webhooks/Deliver.antt =====
-- backend/internal/webhooks/service.go: one attempt at one endpoint (`deliverSync`,
-- `recordFailure`, `moveToDLQ`), and `Sign` of signature.go around HMAC.
pub mod Parts
pub mod Outcome
pub mod Stale
use aegis_panel.Common.{
  ℕ, ◌+◌, String, Bool, true, false, ◌&&◌, Option, none, some, ltb, leb, is_text, if◌then◌else◌,
}
use aegis_panel.Webhooks.Model.{
  Endpoint, Delivery, DeliveryStatus, success, retry, failed, DlqEntry, EventType, Failure,
  sign_failed, not_built, no_answer, http_status, Error, Result, ok, err,
}
use aegis_panel.Webhooks.Retry.{max_attempts, next_attempt_delay}
use aegis_panel.Webhooks.Store.{
  MemoryStore, update_endpoint, create_delivery, enqueue_dlq, enqueue_retry,
}

-- What the HTTP client makes of a request.
pub data Response : Type 0 where
  unbuilt unanswered : String → Response
  answered : (status : ℕ) (body : String) → Response

-- What one attempt takes from outside: clock readings, fresh ids, the measured time, the digest and
-- the response.
pub record Outside : Type 0 where
  pub now : ℕ
  pub created_now : ℕ
  pub update_now : ℕ
  pub dlq_now : ℕ
  pub new_id : ℕ
  pub dlq_id : ℕ
  pub duration_ms : ℕ
  pub digest : String → String → String
  pub response : Response

-- The text in `DispatchResult.Error`.
pub data Trouble : Type 0 where
  no_trouble : Trouble
  failure : Failure → Trouble
  not_stored : Error → Trouble
  not_enqueued : Failure → Error → Trouble

pub record DispatchResult : Type 0 where
  pub endpoint_id : ℕ
  pub delivery_id : ℕ
  pub status : DeliveryStatus
  pub status_code : Option ℕ
  pub error : Trouble
  pub attempts : ℕ

abbrev pub Attempted : Type 0
Attempted = DispatchResult × MemoryStore

unfoldable pub sign : Outside → String → String → Option String
sign env body secret = if is_text secret "" then none else some (env.digest body secret)

-- `_ = store.Op(...)`: an error leaves the store as it was.
abbrev pub kept : MemoryStore → Result MemoryStore → MemoryStore
kept s (ok t) = t
kept s (err e) = s

unfoldable pub move_to_dlq : Outside → Endpoint → Delivery → Failure → MemoryStore → MemoryStore
move_to_dlq env ep d why s = kept s (
    enqueue_dlq
      (record {
        id = env.dlq_id;
        endpoint_id = ep.id;
        endpoint_url = ep.url;
        event_type = d.event_type;
        payload = d.request_body;
        last_error = why;
        attempts = d.attempt;
        last_attempt_at = d.timestamp;
        enqueued_at = 0;
      })
      env.dlq_now s)

abbrev result_of : Endpoint → Delivery → DeliveryStatus → Trouble → DispatchResult
result_of ep d status error = record {
  endpoint_id = ep.id;
  delivery_id = d.id;
  status = status;
  status_code = d.status_code;
  error = error;
  attempts = d.attempt;
}

unfoldable pub after_enqueue :
    Endpoint → Delivery → Failure → MemoryStore → Result MemoryStore → Attempted
after_enqueue ep d why s (ok t) = (result_of ep d retry (failure why), t)
after_enqueue ep d why s (err e) = (result_of ep d retry (not_enqueued why e), s)

-- After a failed attempt whose row is stored: the last attempt goes to the dead letters, any other
-- is tried again.
unfoldable pub give_up_or_retry : Outside → Endpoint → Delivery → Failure → MemoryStore → Attempted
unfolding move_to_dlq after_enqueue
give_up_or_retry env ep d why s =
    if leb max_attempts d.attempt
    then (result_of ep d failed (failure why), move_to_dlq env ep d why s)
    else after_enqueue ep d why s (enqueue_retry d.id (env.now + next_attempt_delay d.attempt) s)

abbrev unstored : Endpoint → Delivery → Error → DispatchResult
unstored ep d e = record {
  endpoint_id = ep.id;
  delivery_id = 0;
  status = retry;
  status_code = d.status_code;
  error = not_stored e;
  attempts = d.attempt;
}

abbrev or_empty : Option String → String
or_empty none = ""
or_empty (some t) = t

abbrev failed_delivery : Outside → Endpoint → EventType → String → ℕ → Failure → Delivery
failed_delivery env ep event body attempt why = record {
  id = env.new_id;
  endpoint_id = ep.id;
  event_type = event;
  payload = body;
  request_url = ep.url;
  request_body = body;
  signature = or_empty (sign env body ep.secret);
  timestamp = env.now;
  status_code = none;
  response_body = "";
  error = some why;
  attempt = attempt;
  duration_ms = none;
  created_at = env.created_now;
}

unfoldable pub after_failure :
    Outside → Endpoint → Delivery → Failure → MemoryStore → Result MemoryStore → Attempted
unfolding give_up_or_retry
after_failure env ep d why s (ok t) = give_up_or_retry env ep d why t
after_failure env ep d why s (err e) = (unstored ep d e, s)

unfoldable pub record_failure :
    Outside → Endpoint → EventType → String → ℕ → Failure → MemoryStore → Attempted
unfolding after_failure sign
record_failure env ep event body attempt why s =
    let d = failed_delivery env ep event body attempt why in
    after_failure env ep d why s (create_delivery d env.created_now s)

abbrev pub answered_delivery :
    Outside → Endpoint → EventType → String → ℕ → String → ℕ → String → Delivery
answered_delivery env ep event body attempt signature status text = record {
  id = env.new_id;
  endpoint_id = ep.id;
  event_type = event;
  payload = body;
  request_url = ep.url;
  request_body = body;
  signature = signature;
  timestamp = env.now;
  status_code = some status;
  response_body = text;
  error = none;
  attempt = attempt;
  duration_ms = some env.duration_ms;
  created_at = env.created_now;
}

abbrev pub is_success : ℕ → Bool
is_success status = leb 200 status && ltb status 300

-- The endpoint is written back as it was read, but for the last delivery.
unfoldable pub touch_endpoint : Outside → Endpoint → ℕ → MemoryStore → MemoryStore
touch_endpoint env ep status s = kept s (
    update_endpoint (record ep { last_delivery_at = some env.now; last_status_code = some status })
      env.update_now s)

unfoldable pub after_answer :
    Outside → Endpoint → Delivery → ℕ → MemoryStore → Result MemoryStore → Attempted
unfolding touch_endpoint give_up_or_retry
after_answer env ep d status s (err e) = (unstored ep d e, s)
after_answer env ep d status s (ok t) =
    if is_success status
    then (result_of ep d success no_trouble, touch_endpoint env ep status t)
    else give_up_or_retry env ep d (http_status status) (touch_endpoint env ep status t)

unfoldable pub send :
    Outside → Endpoint → EventType → String → ℕ → String → Response → MemoryStore → Attempted
unfolding record_failure after_answer
send env ep event body attempt signature (unbuilt why) s =
    record_failure env ep event body attempt (not_built why) s
send env ep event body attempt signature (unanswered why) s =
    record_failure env ep event body attempt (no_answer why) s
send env ep event body attempt signature (answered status text) s =
    let d = answered_delivery env ep event body attempt signature status text in
    after_answer env ep d status s (create_delivery d env.created_now s)

unfoldable pub send_signed :
    Outside → Endpoint → EventType → String → ℕ → Option String → MemoryStore → Attempted
unfolding send record_failure
send_signed env ep event body attempt none s =
    record_failure env ep event body attempt sign_failed s
send_signed env ep event body attempt (some signature) s =
    send env ep event body attempt signature env.response s

unfoldable pub deliver_sync : Outside → Endpoint → EventType → String → ℕ → MemoryStore → Attempted
unfolding send_signed sign
deliver_sync env ep event body attempt s =
    send_signed env ep event body attempt (sign env body ep.secret) s

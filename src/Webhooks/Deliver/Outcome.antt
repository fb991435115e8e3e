-- ===== src/Webhooks/Deliver/Outcome.antt =====
-- What becomes of one attempt.
use aegis_panel.Common.{
  ℕ, ℕ_discrete, String, get, put, get-put, ◌≡◌, ◌≢◌, inl, inr, refl, Bool-cases, Option, none,
  some, arith,
}
use aegis_panel.Webhooks.Model.{
  Endpoint, Delivery, success, EventType, Failure, sign_failed, not_built, no_answer, http_status,
}
use aegis_panel.Webhooks.Store.{MemoryStore, create_delivery, enqueue_dlq, enqueue_retry, or_now}
use aegis_panel.Webhooks.Deliver.{
  Response, unbuilt, unanswered, answered, Outside, DispatchResult, Attempted, sign, move_to_dlq,
  give_up_or_retry, after_enqueue, after_failure, record_failure, is_success, touch_endpoint,
  after_answer, send, send_signed, deliver_sync,
}
use aegis_panel.Webhooks.Deliver.Parts.{
  Stored, Settled, delivered, Fresh, Ready, give_up_or_retry-EndsAs, touch_endpoint-keeps,
  create_delivery-adds,
}

-- An attempt has left its row, under the fresh id, and has ended in one of the three ways.
pub record Done (env : Outside) (ep : Endpoint) (event : EventType) (body : String) (attempt : ℕ)
    (s : MemoryStore) (r : DispatchResult) (t : MemoryStore) : Type 0 where
  pub row : Delivery
  pub found : get ℕ_discrete env.new_id t.deliveries ≡ some row
  pub stored : Stored ep event body attempt row
  pub named : r.delivery_id ≡ env.new_id
  pub counted : r.attempts ≡ attempt
  pub settled : Settled env event body attempt s t r.status

abbrev IsDone : Outside → Endpoint → Delivery → MemoryStore → Attempted → Type 0
IsDone env ep d s (r, t) = Done env ep d.event_type d.request_body d.attempt s r t

pub give_up_or_retry-result :
    (env : Outside) (ep : Endpoint) (d : Delivery) (why : Failure) (t : MemoryStore)
    → let (r, u) = give_up_or_retry env ep d why t in
      (r.delivery_id ≡ d.id)
      × (r.attempts ≡ d.attempt)
      × (u.deliveries ≡ t.deliveries)
      × (r.status ≢ success)
unfolding give_up_or_retry after_enqueue move_to_dlq enqueue_dlq enqueue_retry
give_up_or_retry-result env ep d why t = ground arith

-- The end of a failed attempt whose row `t` has.
give_up_or_retry-IsDone :
    (env : Outside) (ep : Endpoint) (d row : Delivery) (why : Failure) (s t : MemoryStore)
    → Ready env d s t
    → get ℕ_discrete env.new_id t.deliveries ≡ some row
    → Stored ep d.event_type d.request_body d.attempt row
    → IsDone env ep d s (give_up_or_retry env ep d why t)
give_up_or_retry-IsDone env ep d row why s t r at st =
    let (named, counted, rows, _) = give_up_or_retry-result env ep d why t in
    record {
      row = row;
      found = ground (arith, rows);
      stored = st;
      named = ground (arith, r.own);
      counted = counted;
      settled = give_up_or_retry-EndsAs env ep d why s t r;
    }

with_row : Delivery → ℕ → MemoryStore → MemoryStore
with_row d now s = record s {
  deliveries = put ℕ_discrete d.id (record d { created_at = or_now now d.created_at }) s.deliveries;
}

after_failure-IsDone :
    (env : Outside) (ep : Endpoint) (d : Delivery) (why : Failure) (s : MemoryStore)
    → Fresh env s
    → d.id ≡ env.new_id
    → d.endpoint_id ≡ ep.id
    → IsDone env ep d s (after_failure env ep d why s (create_delivery d env.created_now s))
unfolding after_failure with_row
after_failure-IsDone env ep d why s f own of =
    rw
      (create_delivery-adds d env.created_now s (ground (arith, f.some_id))
        (ground (arith, f.new_delivery)))
      (give_up_or_retry-IsDone env ep d
        (record d { created_at = or_now env.created_now d.created_at }) why s
        (with_row d env.created_now s)
        (record {
          named = f.some_id;
          dlq_named = f.some_dlq_id;
          own = own;
          new_entry = f.new_entry;
          same_retries = refl;
          same_dlq = refl;
        })
        (ground (
          arith,
          get-put ℕ_discrete d.id env.new_id
              (record d { created_at = or_now env.created_now d.created_at }) s.deliveries,
        ))
        (record { of_endpoint = of; of_event = refl; of_body = refl; counted = refl }))

after_answer-IsDone :
    (env : Outside) (ep : Endpoint) (d : Delivery) (status : ℕ) (text : String) (s : MemoryStore)
    → env.response ≡ answered status text
    → Fresh env s
    → d.id ≡ env.new_id
    → d.endpoint_id ≡ ep.id
    → IsDone env ep d s (after_answer env ep d status s (create_delivery d env.created_now s))
unfolding after_answer with_row
after_answer-IsDone env ep d status text s answer f own of =
    let row : Delivery = record d { created_at = or_now env.created_now d.created_at } in
    let t : MemoryStore = with_row d env.created_now s in
    let (retries, dlq, rows) = touch_endpoint-keeps env ep status t in
    let at : get ℕ_discrete env.new_id (touch_endpoint env ep status t).deliveries ≡ some row =
      ground (arith, rows, get-put ℕ_discrete d.id env.new_id row s.deliveries) in
    let st : Stored ep d.event_type d.request_body d.attempt row = record {
      of_endpoint = of;
      of_event = refl;
      of_body = refl;
      counted = refl;
    } in
    rw
      (create_delivery-adds d env.created_now s (ground (arith, f.some_id))
        (ground (arith, f.new_delivery)))
      (elim (Bool-cases (is_success status)) [
        | inl e ↦ rw e (record {
          row = row;
          found = at;
          stored = st;
          named = own;
          counted = refl;
          settled = delivered status text answer e retries dlq;
        })
        | inr e ↦ rw e (
            give_up_or_retry-IsDone env ep d row (http_status status) s
              (touch_endpoint env ep status t)
              (record {
                named = f.some_id;
                dlq_named = f.some_dlq_id;
                own = own;
                new_entry = ground (arith, f.new_entry, dlq);
                same_retries = retries;
                same_dlq = dlq;
              })
              at st)
      ])

record_failure-Done :
    (env : Outside) (ep : Endpoint) (event : EventType) (body : String) (attempt : ℕ)
    (why : Failure) (s : MemoryStore)
    → Fresh env s
    → let (r, t) = record_failure env ep event body attempt why s in
      Done env ep event body attempt s r t
unfolding record_failure
record_failure-Done env ep event body attempt why s f =
    after_failure-IsDone env ep _ why s f refl refl

send-Done :
    (env : Outside) (ep : Endpoint) (event : EventType) (body : String) (attempt : ℕ)
    (signature : String) (answer : Response) (s : MemoryStore)
    → env.response ≡ answer
    → Fresh env s
    → let (r, t) = send env ep event body attempt signature answer s in
      Done env ep event body attempt s r t
unfolding send
send-Done env ep event body attempt signature (unbuilt why) s e f =
    record_failure-Done env ep event body attempt (not_built why) s f
send-Done env ep event body attempt signature (unanswered why) s e f =
    record_failure-Done env ep event body attempt (no_answer why) s f
send-Done env ep event body attempt signature (answered status text) s e f =
    after_answer-IsDone env ep _ status text s e f refl refl

send_signed-Done :
    (env : Outside) (ep : Endpoint) (event : EventType) (body : String) (attempt : ℕ)
    (signature : Option String) (s : MemoryStore)
    → Fresh env s
    → let (r, t) = send_signed env ep event body attempt signature s in
      Done env ep event body attempt s r t
unfolding send_signed
send_signed-Done env ep event body attempt none s f =
    record_failure-Done env ep event body attempt sign_failed s f
send_signed-Done env ep event body attempt (some signature) s f =
    send-Done env ep event body attempt signature env.response s refl f

-- No event is lost: with fresh ids, every attempt leaves a row with the event and its body, and is
-- answered with a success, or due again after the delay of its number, or, from the sixth attempt
-- on, among the dead letters with its event and body.
pub deliver_sync-Done :
    (env : Outside) (ep : Endpoint) (event : EventType) (body : String) (attempt : ℕ)
    (s : MemoryStore)
    → Fresh env s
    → let (r, t) = deliver_sync env ep event body attempt s in Done env ep event body attempt s r t
unfolding deliver_sync
deliver_sync-Done env ep event body attempt s f =
    send_signed-Done env ep event body attempt (sign env body ep.secret) s f

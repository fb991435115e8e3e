-- ===== src/Webhooks/Deliver/Parts.antt =====
-- The ways in which an attempt ends, and the parts of one.
use aegis_panel.Common.{
  ℕ, ℕ_discrete, String, ◌+◌, ◌≤◌, ◌<◌, get, put, ◌≡◌, ◌≢◌, inl, inr, refl, Bool-cases,
  Option-cases, none, leb, arith, true,
}
use aegis_panel.Webhooks.Model.{
  Endpoint, Delivery, DeliveryStatus, success, retry, failed, DlqEntry, EventType, Failure, ok,
}
use aegis_panel.Webhooks.Retry.{max_attempts, next_attempt_delay}
use aegis_panel.Webhooks.Store.{
  MemoryStore, update_endpoint, create_delivery, enqueue_dlq, enqueue_retry, or_now,
}
use aegis_panel.Webhooks.Deliver.{
  answered, is_success, Outside, Attempted, move_to_dlq, give_up_or_retry, after_enqueue,
  touch_endpoint,
}

-- The row of an attempt.
pub record Stored (ep : Endpoint) (event : EventType) (body : String) (attempt : ℕ) (d : Delivery)
    : Type 0 where
  pub of_endpoint : d.endpoint_id ≡ ep.id
  pub of_event : d.event_type ≡ event
  pub of_body : d.request_body ≡ body
  pub counted : d.attempt ≡ attempt

-- How an attempt ends, with the store `s` before and `t` after it.
pub data Settled (env : Outside) (event : EventType) (body : String) (attempt : ℕ)
    (s t : MemoryStore) : DeliveryStatus → Type 0 where
  delivered :
      (status : ℕ) (text : String)
      → env.response ≡ answered status text
      → is_success status ≡ true
      → t.pending_retries ≡ s.pending_retries
      → t.dlq ≡ s.dlq
      → Settled env event body attempt s t success
  tried_again :
      attempt < max_attempts
      → t.pending_retries
        ≡ put ℕ_discrete env.new_id (env.now + next_attempt_delay attempt) s.pending_retries
      → t.dlq ≡ s.dlq
      → Settled env event body attempt s t retry
  given_up :
      (entry : DlqEntry)
      → max_attempts ≤ attempt
      → t.pending_retries ≡ s.pending_retries
      → t.dlq ≡ put ℕ_discrete env.dlq_id entry s.dlq
      → entry.event_type ≡ event
      → entry.payload ≡ body
      → entry.attempts ≡ attempt
      → Settled env event body attempt s t failed

-- The fresh ids are not zero and not in use.
pub record Fresh (env : Outside) (s : MemoryStore) : Type 0 where
  pub some_id : env.new_id ≢ 0
  pub some_dlq_id : env.dlq_id ≢ 0
  pub new_delivery : get ℕ_discrete env.new_id s.deliveries ≡ none
  pub new_entry : get ℕ_discrete env.dlq_id s.dlq ≡ none

abbrev pub Ends : Outside → EventType → String → ℕ → MemoryStore → Attempted → Type 0
Ends env event body attempt s (r, t) = Settled env event body attempt s t r.status

abbrev entry_of : Outside → Endpoint → Delivery → Failure → DlqEntry
entry_of env ep d why = record {
  id = env.dlq_id;
  endpoint_id = ep.id;
  endpoint_url = ep.url;
  event_type = d.event_type;
  payload = d.request_body;
  last_error = why;
  attempts = d.attempt;
  last_attempt_at = d.timestamp;
  enqueued_at = env.dlq_now;
}

move_to_dlq-adds :
    (env : Outside) (ep : Endpoint) (d : Delivery) (why : Failure) (s : MemoryStore)
    → env.dlq_id ≢ 0
    → get ℕ_discrete env.dlq_id s.dlq ≡ none
    → move_to_dlq env ep d why s
      ≡ record s { dlq = put ℕ_discrete env.dlq_id (entry_of env ep d why) s.dlq }
unfolding move_to_dlq enqueue_dlq
move_to_dlq-adds env ep d why s named new = ground arith

enqueue_retry-adds :
    (id at : ℕ) (s : MemoryStore)
    → id ≢ 0
    → enqueue_retry id at s
      ≡ ok (record s { pending_retries = put ℕ_discrete id at s.pending_retries })
unfolding enqueue_retry
enqueue_retry-adds id at s named = ground arith

-- Between the two stores only the rows and the endpoints differ, and the fresh ids are free.
pub record Ready (env : Outside) (d : Delivery) (s t : MemoryStore) : Type 0 where
  pub named : env.new_id ≢ 0
  pub dlq_named : env.dlq_id ≢ 0
  pub own : d.id ≡ env.new_id
  pub new_entry : get ℕ_discrete env.dlq_id t.dlq ≡ none
  pub same_retries : t.pending_retries ≡ s.pending_retries
  pub same_dlq : t.dlq ≡ s.dlq

abbrev pub EndsAs : Outside → Delivery → MemoryStore → Attempted → Type 0
EndsAs env d s a = Ends env d.event_type d.request_body d.attempt s a

pub give_up_or_retry-EndsAs :
    (env : Outside) (ep : Endpoint) (d : Delivery) (why : Failure) (s t : MemoryStore)
    → Ready env d s t
    → EndsAs env d s (give_up_or_retry env ep d why t)
unfolding give_up_or_retry after_enqueue
give_up_or_retry-EndsAs env ep d why s t r = elim (Bool-cases (leb max_attempts d.attempt)) [
  | inl e ↦
      rw (e, move_to_dlq-adds env ep d why t r.dlq_named r.new_entry)
        (given_up (entry_of env ep d why) (ground arith) r.same_retries (ground (arith, r.same_dlq))
          refl refl refl)
  | inr e ↦
      rw
        (
          e,
          enqueue_retry-adds d.id (env.now + next_attempt_delay d.attempt) t
              (ground (arith, r.own, r.named)),
        )
        (tried_again (ground arith) (ground (arith, r.own, r.same_retries)) r.same_dlq)
]

pub touch_endpoint-keeps :
    (env : Outside) (ep : Endpoint) (status : ℕ) (s : MemoryStore)
    → let t = touch_endpoint env ep status s in
      (t.pending_retries ≡ s.pending_retries) × (t.dlq ≡ s.dlq) × (t.deliveries ≡ s.deliveries)
unfolding touch_endpoint update_endpoint
touch_endpoint-keeps env ep status s = elim (Option-cases (get ℕ_discrete ep.id s.endpoints)) [
  | inl n ↦ ground arith
  | inr (old, n) ↦ ground arith
]

pub create_delivery-adds :
    (d : Delivery) (now : ℕ) (s : MemoryStore)
    → d.id ≢ 0
    → get ℕ_discrete d.id s.deliveries ≡ none
    → create_delivery d now s
      ≡ ok (record s {
        deliveries =
            put ℕ_discrete d.id (record d { created_at = or_now now d.created_at }) s.deliveries;
      })
unfolding create_delivery
create_delivery-adds d now s named new = ground arith

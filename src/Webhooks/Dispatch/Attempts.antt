-- ===== src/Webhooks/Dispatch/Attempts.antt =====
-- Every delivery is one of at most six attempts.
use aegis_panel.Common.{
  ℕ, ℕ_discrete, String, ◌≤◌, put, Entries, Entries-put, ◌≡◌, ◌⊎◌, inl, inr, refl, Bool-cases,
  Option, none, some, arith,
}
use aegis_panel.Webhooks.Model.{
  Endpoint, Delivery, EventType, Failure, sign_failed, not_built, no_answer, http_status, Result,
  ok, err,
}
use aegis_panel.Webhooks.Retry.{max_attempts}
use aegis_panel.Webhooks.Store.{MemoryStore, create_delivery, or_now}
use aegis_panel.Webhooks.Deliver.{
  Response, unbuilt, unanswered, answered, Outside, Attempted, sign, after_failure, record_failure,
  is_success, touch_endpoint, after_answer, send, send_signed, deliver_sync,
}
use aegis_panel.Webhooks.Deliver.Parts.{touch_endpoint-keeps}
use aegis_panel.Webhooks.Deliver.Outcome.{give_up_or_retry-result}

-- An attempt writes no row, or one with its number.
abbrev Writes : ℕ → MemoryStore → Attempted → Type 0
Writes attempt s (r, t) =
    (t.deliveries ≡ s.deliveries)
    ⊎ ((row : Delivery) × (row.attempt ≡ attempt)
        × (t.deliveries ≡ put ℕ_discrete row.id row s.deliveries))

create_delivery-row :
    (d : Delivery) (now : ℕ) (s t : MemoryStore)
    → create_delivery d now s ≡ ok t
    → t.deliveries
      ≡ put ℕ_discrete d.id (record d { created_at = or_now now d.created_at }) s.deliveries
unfolding create_delivery
create_delivery-row d now s t h = ground arith

after_failure-Writes :
    (env : Outside) (ep : Endpoint) (d : Delivery) (why : Failure) (s : MemoryStore)
    (c : Result MemoryStore)
    → create_delivery d env.created_now s ≡ c
    → Writes d.attempt s (after_failure env ep d why s c)
unfolding after_failure
after_failure-Writes env ep d why s (err e) h = inl refl
after_failure-Writes env ep d why s (ok t) h =
    let (_, _, rows, _) = give_up_or_retry-result env ep d why t in
    inr (
      record d { created_at = or_now env.created_now d.created_at },
      refl,
      ground (arith, rows, create_delivery-row d env.created_now s t h),
    )

after_answer-Writes :
    (env : Outside) (ep : Endpoint) (d : Delivery) (status : ℕ) (s : MemoryStore)
    (c : Result MemoryStore)
    → create_delivery d env.created_now s ≡ c
    → Writes d.attempt s (after_answer env ep d status s c)
unfolding after_answer
after_answer-Writes env ep d status s (err e) h = inl refl
after_answer-Writes env ep d status s (ok t) h =
    let (_, _, touched) = touch_endpoint-keeps env ep status t in
    let row : Delivery = record d { created_at = or_now env.created_now d.created_at } in
    let added = create_delivery-row d env.created_now s t h in
    elim (Bool-cases (is_success status)) [
      | inl e ↦ rw e (inr (row, refl, ground (arith, touched, added)))
      | inr e ↦
          let (_, _, rows, _) =
            give_up_or_retry-result env ep d (http_status status)
              (touch_endpoint env ep status t) in
          rw e (inr (row, refl, ground (arith, rows, touched, added)))
    ]

record_failure-Writes :
    (env : Outside) (ep : Endpoint) (event : EventType) (body : String) (attempt : ℕ)
    (why : Failure) (s : MemoryStore)
    → Writes attempt s (record_failure env ep event body attempt why s)
unfolding record_failure
record_failure-Writes env ep event body attempt why s = after_failure-Writes env ep _ why s _ refl

send_signed-Writes :
    (env : Outside) (ep : Endpoint) (event : EventType) (body : String) (attempt : ℕ)
    (signature : Option String) (answer : Response) (s : MemoryStore)
    → env.response ≡ answer
    → Writes attempt s (send_signed env ep event body attempt signature s)
unfolding send_signed send
send_signed-Writes env ep event body attempt none answer s e =
    record_failure-Writes env ep event body attempt sign_failed s
send_signed-Writes env ep event body attempt (some signature) (unbuilt why) s e =
    rw e (record_failure-Writes env ep event body attempt (not_built why) s)
send_signed-Writes env ep event body attempt (some signature) (unanswered why) s e =
    rw e (record_failure-Writes env ep event body attempt (no_answer why) s)
send_signed-Writes env ep event body attempt (some signature) (answered status text) s e =
    rw e (after_answer-Writes env ep _ status s _ refl)

-- A row of a delivery: its own id, and one of at most six attempts.
abbrev pub IsAttempt : ℕ → Delivery → Type 0
IsAttempt k d = (d.id ≡ k) × (1 ≤ d.attempt) × (d.attempt ≤ max_attempts)

abbrev pub Counted : MemoryStore → Type 0
Counted s = Entries ℕ_discrete IsAttempt s.deliveries

Writes-Counted :
    (attempt : ℕ) (s : MemoryStore) (a : Attempted)
    → 1 ≤ attempt
    → attempt ≤ max_attempts
    → Writes attempt s a
    → Counted s
    → Counted a.1
Writes-Counted attempt s (r, t) low high (inl same) v = rw same v
Writes-Counted attempt s (r, t) low high (inr (row, e, same)) v =
    rw same (
      Entries-put ℕ_discrete IsAttempt row.id row s.deliveries (refl, ground arith, ground arith) v)

pub deliver_sync-Counted :
    (env : Outside) (ep : Endpoint) (event : EventType) (body : String) (attempt : ℕ)
    (s : MemoryStore)
    → 1 ≤ attempt
    → attempt ≤ max_attempts
    → Counted s
    → Counted (deliver_sync env ep event body attempt s).1
unfolding deliver_sync
deliver_sync-Counted env ep event body attempt s low high v =
    Writes-Counted attempt s (send_signed env ep event body attempt (sign env body ep.secret) s) low
      high
      (send_signed-Writes env ep event body attempt (sign env body ep.secret) env.response s refl) v

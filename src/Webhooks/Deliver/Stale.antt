-- ===== src/Webhooks/Deliver/Stale.antt =====
-- An endpoint that changes while a request to it is on its way.
use aegis_panel.Common.{
  ℕ, ℕ_discrete, String, ◌≡◌, ◌≢◌, get, put, get-put_self, true, false, some, is_text, is_text_iff,
  arith,
}
use aegis_panel.Webhooks.Model.{
  Endpoint, Delivery, EventType, Failure, http_status, ok, is_valid_endpoint,
}
use aegis_panel.Webhooks.Store.{MemoryStore, update_endpoint, enqueue_dlq, enqueue_retry, or_now}
use aegis_panel.Webhooks.Deliver.{
  answered, Outside, sign, give_up_or_retry, after_enqueue, move_to_dlq, touch_endpoint,
  after_answer, answered_delivery, send, send_signed, deliver_sync,
}
use aegis_panel.Webhooks.Deliver.Parts.{Fresh, create_delivery-adds}

give_up_or_retry-endpoints :
    (env : Outside) (ep : Endpoint) (d : Delivery) (why : Failure) (s : MemoryStore)
    → (give_up_or_retry env ep d why s).1.endpoints ≡ s.endpoints
unfolding give_up_or_retry after_enqueue move_to_dlq enqueue_dlq enqueue_retry
give_up_or_retry-endpoints env ep d why s = ground arith

-- The row that a delivery writes back.
abbrev pub touched : Outside → Endpoint → ℕ → Endpoint
touched env ep status = record ep {
  last_delivery_at = some env.now;
  last_status_code = some status;
  updated_at = env.update_now;
}

touch_endpoint-writes :
    (env : Outside) (ep cur : Endpoint) (status : ℕ) (s : MemoryStore)
    → ep.id ≢ 0
    → is_valid_endpoint (some ep) ≡ true
    → get ℕ_discrete ep.id s.endpoints ≡ some cur
    → cur.url ≡ ep.url
    → (touch_endpoint env ep status s).endpoints
      ≡ put ℕ_discrete ep.id (touched env ep status) s.endpoints
unfolding touch_endpoint update_endpoint is_valid_endpoint
touch_endpoint-writes env ep cur status s named valid at same =
    ground (arith, is_text_iff cur.url ep.url)

after_answer-writes :
    (env : Outside) (ep cur : Endpoint) (d : Delivery) (status : ℕ) (s t : MemoryStore)
    → ep.id ≢ 0
    → is_valid_endpoint (some ep) ≡ true
    → get ℕ_discrete ep.id t.endpoints ≡ some cur
    → cur.url ≡ ep.url
    → (after_answer env ep d status s (ok t)).1.endpoints
      ≡ put ℕ_discrete ep.id (touched env ep status) t.endpoints
unfolding after_answer
after_answer-writes env ep cur d status s t named valid at same =
    let written = touch_endpoint-writes env ep cur status t named valid at same in
    ground (
      arith,
      written,
      give_up_or_retry-endpoints env ep d (http_status status) (touch_endpoint env ep status t),
    )

-- An answered delivery writes the endpoint back as it was read before the request: whatever row the
-- endpoint has by then, with the same address, is replaced, so that an update made in the meantime
-- (of the secret, the events or the enabled flag) is undone. (With fresh ids, for a valid endpoint.)
pub stale_endpoint_wins :
    (env : Outside) (ep cur : Endpoint) (event : EventType) (body text : String)
    (attempt status : ℕ) (s : MemoryStore)
    → Fresh env s
    → ep.id ≢ 0
    → is_valid_endpoint (some ep) ≡ true
    → env.response ≡ answered status text
    → get ℕ_discrete ep.id s.endpoints ≡ some cur
    → cur.url ≡ ep.url
    → get ℕ_discrete ep.id (deliver_sync env ep event body attempt s).1.endpoints
      ≡ some (touched env ep status)
unfolding deliver_sync send_signed send sign is_valid_endpoint
stale_endpoint_wins env ep cur event body text attempt status s f named valid answer at same =
    let secret : is_text ep.secret "" ≡ false = ground arith in
    let d = answered_delivery env ep event body attempt (env.digest body ep.secret) status text in
    let t : MemoryStore = record s {
      deliveries =
          put ℕ_discrete d.id (record d { created_at = or_now env.created_now d.created_at })
            s.deliveries;
    } in
    let added = create_delivery-adds d env.created_now s f.some_id f.new_delivery in
    rw (secret, answer, added, after_answer-writes env ep cur d status s t named valid at same)
      (get-put_self ℕ_discrete ep.id (touched env ep status) s.endpoints)

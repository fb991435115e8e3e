-- ===== src/Webhooks/Store/Listed.antt =====
-- What holds of every row holds of the rows that a listing shows.
use aegis_panel.Common.{ℕ, vals, sort_by, select, All, All-take, All-select, All-sort_by, ℤ, List}
use aegis_panel.Webhooks.Model.{Delivery}
use aegis_panel.Webhooks.Store.{
  MemoryStore, list_deliveries_by_endpoint, of_endpoint, clamp, newer_delivery,
}

pub All-list_deliveries_by_endpoint :
    (P : Delivery → Type 0) (id : ℕ) (limit : ℤ) (s : MemoryStore)
    → All P (vals s.deliveries)
    → All P (list_deliveries_by_endpoint id limit s)
unfolding list_deliveries_by_endpoint
All-list_deliveries_by_endpoint P id limit s h =
    let mine : List Delivery = select (of_endpoint id) (vals s.deliveries) in
    All-take P (clamp limit) (sort_by newer_delivery mine)
      (All-sort_by newer_delivery P mine (All-select P (of_endpoint id) (vals s.deliveries) h))

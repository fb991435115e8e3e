-- ===== src/Subscription/Render/Lines.antt =====
-- What the order and the addresses of the base64 lines are.
use aegis_panel.Common.{
  ◌<◌, ◌≡◌, true, false, List, [], ◌∷◌, arith, sort_by, insert_by, Sorted, sort-Sorted,
}
use aegis_panel.Subscription.Service.{ResolvedEndpoint, host_before}
use aegis_panel.Subscription.Service.Entitled.{host_before-asym}
use aegis_panel.Subscription.Render.{line_before, line_order}

line_before-asym : (a b : ResolvedEndpoint) → line_before a b ≡ true → line_before b a ≡ false
unfolding line_before
line_before-asym a b h = ground arith

-- The lines are in the order of the hosts' ids, whatever the order of the endpoints.
pub line_order-Sorted : (eps : List ResolvedEndpoint) → Sorted line_before (line_order eps)
unfolding line_order
line_order-Sorted eps = sort-Sorted line_before line_before-asym eps

-- The order of the resolution, by priority, is lost: of two endpoints, that of the host that comes
-- first there is the second line where its host has the larger id.
pub line_order_loses_priority :
    (a b : ResolvedEndpoint)
    → host_before a.host b.host ≡ true
    → b.host.id < a.host.id
    → Sorted host_before (a.host ∷ b.host ∷ []) × (line_order (a ∷ b ∷ []) ≡ b ∷ a ∷ [])
unfolding line_order line_before sort_by insert_by
line_order_loses_priority a b h lt = ((host_before-asym a.host b.host h, tt), ground arith)

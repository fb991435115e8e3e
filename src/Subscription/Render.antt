-- ===== src/Subscription/Render.antt =====
-- backend/internal/subscription/render.go: the order of the lines of the base64 format, and the
-- address, the port and the name that a line advertises. The text of a line is not modelled.
pub mod Lines
use aegis_panel.Common.{
  ℕ, String, Bool, ltb, ◌==◌, is_text, ℤ, List, if◌then◌else◌, sort_by, true, false,
}
use aegis_panel.Hosts.Model.{Host}
use aegis_panel.Subscription.Service.{ResolvedEndpoint, first_or, or_port, pick_port}

-- sort.SliceStable by the host's id, then by the endpoint's.
unfoldable pub line_before : ResolvedEndpoint → ResolvedEndpoint → Bool
line_before a b =
    if a.host.id == b.host.id then ltb a.endpoint.id b.endpoint.id else ltb a.host.id b.host.id

unfoldable pub line_order : List ResolvedEndpoint → List ResolvedEndpoint
unfolding sort_by line_before
line_order eps = sort_by line_before eps

-- `pick` is the random number for the port.
unfoldable pub effective_address : ℕ → ResolvedEndpoint → String × ℤ
unfolding pick_port
effective_address pick ep = (
  first_or ep.endpoint.address ep.node.address,
  or_port ep.endpoint.port (pick_port pick ep.inbound),
)

unfoldable pub display_name : Host → String
display_name h = if is_text h.display_name "" then h.remark else h.display_name

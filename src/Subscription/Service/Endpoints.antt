-- ===== src/Subscription/Service/Endpoints.antt =====
-- Which endpoints a subscription names.
use aegis_panel.Common.{◌≡◌, ◌⊎◌, List, [], ◌∷◌, ok, err}
use aegis_panel.Hosts.Model.{Host, Endpoint}
use aegis_panel.Nodes.Service.{get_node}
use aegis_panel.Nodes.Model as NodeModel
use aegis_panel.Nodes.Model.{Node}
use aegis_panel.Inbounds.Service.{get_inbound}
use aegis_panel.Inbounds.Model as InboundModel
use aegis_panel.Inbounds.Model.{Inbound}
use aegis_panel.Subscription.Service.{World, ResolvedEndpoint}

-- The node and the inbound are the stored ones of the endpoint.
pub record Resolved (h : Host) (ep : Endpoint) (w : World) (re : ResolvedEndpoint) : Type 0 where
  pub of_host : re.host ≡ h
  pub of_endpoint : re.endpoint ≡ ep
  pub node_found : get_node ep.node_id w.nodes ≡ ok re.node
  pub inbound_found : get_inbound ep.inbound_id w.inbounds ≡ ok re.inbound

-- A node or an inbound that the store does not have.
abbrev pub Gone : Endpoint → World → Type 0
Gone ep w =
    (get_node ep.node_id w.nodes ≡ err NodeModel.not_found)
    ⊎ (get_inbound ep.inbound_id w.inbounds ≡ err InboundModel.not_found)

-- A list of endpoints that belong to the given pairs, in their order: a pair is left out only where
-- its node or its inbound is gone.
pub data Selects (w : World) : List (Host × Endpoint) → List ResolvedEndpoint → Type 0 where
  done : Selects w [] []
  skips :
      {h : Host} {ep : Endpoint} {ps : List (Host × Endpoint)} {res : List ResolvedEndpoint}
      → Gone ep w
      → Selects w ps res
      → Selects w ((h, ep) ∷ ps) res
  takes :
      {h : Host} {ep : Endpoint} {ps : List (Host × Endpoint)} {re : ResolvedEndpoint}
      {res : List ResolvedEndpoint}
      → Resolved h ep w re
      → Selects w ps res
      → Selects w ((h, ep) ∷ ps) (re ∷ res)

-- ===== src/Nodes.antt =====
-- backend/internal/nodes: the node model, its in-memory store and its service.
pub mod Model
pub mod Store
pub mod Service
mod Tests

-- ===== src/Cores.antt =====
-- backend/internal/cores: the batched applier. The core providers are not modelled.
pub mod Batched

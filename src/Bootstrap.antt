-- ===== src/Bootstrap.antt =====
-- backend/internal/bootstrap: the node lifecycle. The provisioner, SSH and the installer are not
-- modelled.
pub mod State
